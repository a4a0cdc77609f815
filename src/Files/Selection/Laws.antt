-- ===== src/Files/Selection/Laws.antt =====
-- What each click selects.
use claude_docker.Common.{
  ℕ, zero, suc, ◌+◌, ◌-◌, ◌≤◌, ◌<◌, min, Bool, true, false, List, [], ◌∷◌, ◌++◌, ◌≡◌, refl, ap, ◌∙◌,
  inl, inr, arith, Bool-cases, none, some, get_elem?, Option-cases, max, dec_le, if◌then◌else◌, ltb,
  ltb→lt, not, ◌||◌, ◌&&◌, ◌⊎◌, ◌↔◌,
}
use claude_docker.Text.{Text, truthy, text_eq, has}
use claude_docker.Text.Laws.{text_eq_refl, text_eq_iff}
use claude_docker.Files.Kind.{Entry}
use claude_docker.Files.View.{View, set_add, set_delete}
use claude_docker.Files.Selection.{
  Click, index_of, add_at, add_range, add_between, entry_names, select_range, toggle, on_item_click,
  add_all, select_all, escape, select_for_menu,
}

pub has-append : (s t : List Text) (x : Text) → has (s ++ t) x ≡ (has s x || has t x)
unfolding has
has-append [] t x = refl
has-append (y ∷ s) t x = ground (arith, has-append s t x)

has-single : (x y : Text) → has (x ∷ []) y ≡ text_eq x y
unfolding has
has-single x y = ground arith

pub has-set_add :
    (x : Text) (s : List Text) (y : Text) → has (set_add x s) y ≡ (has s y || text_eq x y)
has-set_add x s y = ground (arith, has-append s (x ∷ []) y, has-single x y, text_eq_iff x y)

pub has-set_delete :
    (x : Text) (s : List Text) (y : Text) → has (set_delete x s) y ≡ (has s y && not (text_eq y x))
unfolding has
has-set_delete x [] y = refl
has-set_delete x (z ∷ s) y =
    ground (arith, has-set_delete x s y, text_eq_iff z x, text_eq_iff z y, text_eq_iff y x)

-- `n` stands in `names` at one of the `k` places from `i` on.
abbrev pub in_window : ℕ → ℕ → List Text → Text → Bool
in_window zero i names n = false
in_window (suc k) i names n =
    (elim (get_elem? names i) [ none ↦ false | some m ↦ text_eq m n ])
    || in_window k (suc i) names n

has-add_at :
    (names : List Text) (i : ℕ) (sel : List Text) (n : Text)
    → has (add_at names i sel) n
      ≡ (has sel n || (elim (get_elem? names i) [ none ↦ false | some m ↦ text_eq m n ]))
has-add_at names i sel n = elim (Option-cases (get_elem? names i)) [
  | inl e ↦ rw (e, add_at) (ground arith)
  | inr (m, e) ↦ rw (e, add_at) (has-set_add m sel n)
]

has-add_range :
    (k i : ℕ) (names sel : List Text) (n : Text)
    → has (add_range k i names sel) n ≡ (has sel n || in_window k i names n)
unfolding add_range
has-add_range zero i names sel n = ground arith
has-add_range (suc k) i names sel n =
    ground (arith, has-add_range k (suc i) names (add_at names i sel) n, has-add_at names i sel n)

-- `n` stands in `names` at a place from `lo` up to `hi`, both included.
abbrev pub Between : ℕ → ℕ → List Text → Text → Type 0
Between lo hi names n = (j : ℕ) × (lo ≤ j) × (j ≤ hi) × (get_elem? names j ≡ some n)

in_window→Between :
    (k i : ℕ) (names : List Text) (n : Text)
    → in_window k i names n ≡ true
    → (j : ℕ) × (i ≤ j) × (j < i + k) × (get_elem? names j ≡ some n)
in_window→Between zero i names n h = cc
in_window→Between (suc k) i names n h = elim (Option-cases (get_elem? names i)) [
  | inl e ↦
      let (j, a, b, c) = in_window→Between k (suc i) names n (rw e at h) in
      (j, omega arith, omega arith, c)
  | inr (m, e) ↦ elim (Bool-cases (text_eq m n)) [
    | inl same ↦ (i, omega arith, omega arith, e ∙ ap some ((text_eq_iff m n).0 same))
    | inr other ↦
        let (j, a, b, c) = in_window→Between k (suc i) names n (rw (e, other) at h) in
        (j, omega arith, omega arith, c)
  ]
]

Between→in_window :
    (k i : ℕ) (names : List Text) (n : Text) (j : ℕ)
    → i ≤ j
    → j < i + k
    → get_elem? names j ≡ some n
    → in_window k i names n ≡ true
Between→in_window zero i names n j a b c = absurd (omega arith)
Between→in_window (suc k) i names n j a b c = elim (dec_le j i) [
  | yes first ↦
      let here : j ≡ i = omega arith in
      let found : get_elem? names i ≡ some n = rw here at c in rw found (rw (text_eq_refl n))
  | no later ↦
      let rest = Between→in_window k (suc i) names n j (omega arith) (omega arith) c in
      rw rest (ground arith)
]

has-add_range_iff :
    (lo hi : ℕ) (names sel : List Text) (n : Text)
    → lo ≤ hi
    → (has (add_range (hi + 1 - lo) lo names sel) n ≡ true)
      ↔ ((has sel n ≡ true) ⊎ Between lo hi names n)
has-add_range_iff lo hi names sel n le = (
  λ h. elim (Bool-cases (has sel n)) [
    | inl old ↦ inl old
    | inr new ↦
        let (j, a, b, c) =
          in_window→Between (hi + 1 - lo) lo names n
            (rw (has-add_range (hi + 1 - lo) lo names sel n, new) at h) in
        inr (j, a, omega arith, c)
  ],
  elim [
    | inl old ↦ rw (has-add_range (hi + 1 - lo) lo names sel n, old)
    | inr (j, a, b, c) ↦
        let found = Between→in_window (hi + 1 - lo) lo names n j a (omega arith) c in
        rw (has-add_range (hi + 1 - lo) lo names sel n, found) (ground arith)
  ],
)

has-add_between :
    (a b : ℕ) (names sel : List Text) (n : Text)
    → (has (add_between a b names sel) n ≡ true)
      ↔ ((has sel n ≡ true) ⊎ Between (min a b) (max a b) names n)
unfolding add_between
has-add_between a b names sel n = elim (Bool-cases (ltb a b)) [
  | inl below ↦
      let lt = ltb→lt a b below in
      let lo : min a b ≡ a = omega arith in
      let hi : max a b ≡ b = omega arith in
      rw (below, lo, hi) (has-add_range_iff a b names sel n (omega arith))
  | inr above ↦
      let le : b ≤ a = ground arith in
      let lo : min a b ≡ b = omega arith in
      let hi : max a b ≡ a = omega arith in
      rw (above, lo, hi) (has-add_range_iff b a names sel n le)
]

-- A shift click at an entry of the list, with an anchor in the list whose name is not empty, selects besides what was selected before
-- exactly the entries from one of the two to the other, both included, whichever comes first; and
-- the anchor stays.
pub shift_click_lem :
    (ev : Click) (e : Entry) (s : View) (anchor : Text) (a b : ℕ)
    → ev.shift ≡ true
    → s.last_anchor ≡ some anchor
    → truthy anchor ≡ true
    → index_of anchor (entry_names s.entries) ≡ some a
    → index_of e.name (entry_names s.entries) ≡ some b
    → ((n : Text)
        → (has (on_item_click ev e s).selected n ≡ true)
          ↔ ((has s.selected n ≡ true) ⊎ Between (min a b) (max a b) (entry_names s.entries) n))
      × ((on_item_click ev e s).last_anchor ≡ some anchor)
unfolding on_item_click select_range
shift_click_lem ev e s anchor a b shift at t ia ib = (
  λ n. simp (shift, at, t, ia, ib) (has-add_between a b (entry_names s.entries) s.selected n),
  simp (shift, at, t),
)

has-toggle :
    (x : Text) (sel : List Text) (n : Text)
    → has (toggle x sel) n ≡ (if text_eq x n then not (has sel n) else has sel n)
unfolding toggle
has-toggle x sel n = elim (Bool-cases (has sel x)) [
  | inl on ↦ simp (on, has-set_delete) (ground (arith, on, text_eq_iff x n, text_eq_iff n x))
  | inr off ↦ simp (off, has-append, has-single) (ground (arith, off, text_eq_iff x n))
]

-- A click without shift: with Ctrl, Meta or on the checkbox it flips the selection of that entry
-- alone, and otherwise it selects that entry alone; in both cases the entry is the new anchor.
pub plain_click_lem :
    (ev : Click) (e : Entry) (s : View) (n : Text)
    → ev.shift ≡ false
    → (has (on_item_click ev e s).selected n ≡ (
        if ev.ctrl || ev.meta || ev.checkbox
        then (if text_eq e.name n then not (has s.selected n) else has s.selected n)
        else text_eq e.name n))
      × ((on_item_click ev e s).last_anchor ≡ some e.name)
unfolding on_item_click
plain_click_lem ev e s n h = ground (arith, has-toggle e.name s.selected n, has-single e.name n)

has-add_all :
    (names sel : List Text) (n : Text) → has (add_all names sel) n ≡ (has sel n || has names n)
has-add_all [] sel n = unfold has in ground arith
has-add_all (m ∷ names) sel n =
    has-add_all names (set_add m sel) n ∙ unfold has in ground (arith, has-set_add m sel n)

-- The commands on the selection that are no clicks: selecting all adds exactly the names of the
-- entries; Escape leaves nothing selected and no anchor; and the context menu of an entry keeps the
-- selection if the entry belongs to it, and otherwise selects that entry alone, so that the menu's
-- commands always apply to a selection with the entry.
pub selection_commands :
    (e : Entry) (s : View) (n : Text)
    → (has (select_all s).selected n ≡ (has s.selected n || has (entry_names s.entries) n))
      × ((escape s).selected ≡ [])
      × ((escape s).last_anchor ≡ none)
      × (has (select_for_menu e s).selected e.name ≡ true)
      × (has (select_for_menu e s).selected n
          ≡ (if has s.selected e.name then has s.selected n else text_eq e.name n))
unfolding select_all escape select_for_menu
selection_commands e s n = (
  has-add_all (entry_names s.entries) s.selected n,
  refl,
  refl,
  ground (arith, has-single e.name e.name, text_eq_refl e.name),
  ground (arith, has-single e.name n),
)
