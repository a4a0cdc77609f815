-- ===== src/Files/Selection.antt =====
-- Selecting entries: `onItemClick`, `selectAll`, Escape and the selection that `openMenu` makes
-- (class FileView of web/src/files.js).
pub mod Laws
use claude_docker.Common.{
  ℕ, zero, suc, ◌+◌, ◌-◌, Bool, true, false, not, ◌||◌, ◌&&◌, Option, none, some, List, [], ◌∷◌,
  ◌++◌, map, get_elem?, if◌then◌else◌, ltb,
}
use claude_docker.Text.{Text, truthy, text_eq, has}
use claude_docker.Files.Kind.{Entry}
use claude_docker.Files.View.{View, set_add, set_delete}

-- What onItemClick reads of the event; `checkbox` is whether the target lies in the row's checkbox.
pub record Click : Type 0 where
  pub shift : Bool
  pub ctrl : Bool
  pub meta : Bool
  pub checkbox : Bool

-- names.indexOf(x), where `none` is -1.
unfoldable pub index_of : Text → List Text → Option ℕ
index_of x [] = none
index_of x (y ∷ ys) =
    let rest = index_of x ys in
    if text_eq y x then some 0 else elim rest [ none ↦ none | some i ↦ some (suc i) ]

abbrev pub add_at : List Text → ℕ → List Text → List Text
add_at names i sel = elim (get_elem? names i) [ none ↦ sel | some n ↦ set_add n sel ]

-- `for (let i = lo; i <= hi; i++) this.selected.add(names[i])`, with the rounds left counted.
unfoldable pub add_range : ℕ → ℕ → List Text → List Text → List Text
add_range zero i names sel = sel
add_range (suc rounds) i names sel = add_range rounds (suc i) names (add_at names i sel)

-- `const [lo, hi] = a < b ? [a, b] : [b, a]` and the loop.
unfoldable pub add_between : ℕ → ℕ → List Text → List Text → List Text
unfolding add_range
add_between a b names sel =
    if ltb a b then add_range (b + 1 - a) a names sel else add_range (a + 1 - b) b names sel

abbrev pub entry_names : List Entry → List Text
entry_names es = map (λ (e : Entry). e.name) es

-- The body of the branch for a shift click, at the two results of indexOf.
unfoldable pub select_range : Option ℕ → Option ℕ → List Text → List Text → List Text
unfolding add_between
select_range (some a) (some b) names sel = add_between a b names sel
select_range none _ names sel = sel
select_range (some a) none names sel = sel

abbrev pub anchor_truthy : Option Text → Bool
anchor_truthy none = false
anchor_truthy (some a) = truthy a

abbrev pub anchor_name : Option Text → Text
anchor_name none = []
anchor_name (some a) = a

unfoldable pub toggle : Text → List Text → List Text
toggle x sel = if has sel x then set_delete x sel else set_add x sel

-- onItemClick(ev, e); the branch on a single click of a directory is empty in the source.
unfoldable pub on_item_click : Click → Entry → View → View
on_item_click ev e s =
    let names = entry_names s.entries in
    let anchor = anchor_name s.last_anchor in
    if ev.shift && anchor_truthy s.last_anchor
    then record s {
      selected = select_range (index_of anchor names) (index_of e.name names) names s.selected;
    }
    else if ev.ctrl || ev.meta || ev.checkbox
    then record s { selected = toggle e.name s.selected; last_anchor = some e.name }
    else record s { selected = e.name ∷ []; last_anchor = some e.name }

abbrev pub add_all : List Text → List Text → List Text
add_all [] sel = sel
add_all (n ∷ names) sel = add_all names (set_add n sel)

-- selectAll()
unfoldable pub select_all : View → View
select_all s = record s { selected = add_all (entry_names s.entries) s.selected }

-- The branch for Escape of the key handler.
unfoldable pub escape : View → View
escape s = record s { selected = []; last_anchor = none }

-- The selection that openMenu(ev, e) makes before it shows the menu.
unfoldable pub select_for_menu : Entry → View → View
select_for_menu e s =
    if has s.selected e.name
    then s
    else record s { selected = e.name ∷ []; last_anchor = some e.name }
