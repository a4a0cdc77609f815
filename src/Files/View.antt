-- ===== src/Files/View.antt =====
-- The state of class FileView (web/src/files.js) and its navigation: the constructor, `go`, `back`,
-- `fwd`, `up`, the crumbs, the tree rows, the view toggle and the preview overlay.
pub mod Trail
pub mod Nav
pub mod Races
use claude_docker.Common.{
  ℕ, suc, ◌+◌, ◌-◌, Bool, true, false, not, ◌||◌, Option, none, some, List, [], ◌∷◌, ◌++◌, take,
  get_elem?, length, filter, if◌then◌else◌, ltb, ◌==◌,
}
use claude_docker.Text.{Text, codes, truthy, text_eq, has}
use claude_docker.Files.FilePath.{join, parent}
use claude_docker.Files.Kind.{Entry}
use claude_docker.Files.Sort.{SortKey, by_name, SortDir, forward, sort_entries}

pub data ViewMode : Type 0 where
  list_view grid_view : ViewMode

-- What `renderStatus` was last told.
pub data Status : Type 0 where
  blank loading failed_to_list empty : Status
  items : ℕ → Status

-- A JavaScript Set of strings: its elements in the order of insertion.
abbrev pub set_add : Text → List Text → List Text
set_add x s = if has s x then s else s ++ (x ∷ [])

abbrev pub set_delete : Text → List Text → List Text
set_delete x s = filter (λ y. not (text_eq y x)) s

-- The fields of the object, with what lives outside of it: the requests for a listing that have no
-- answer yet (`pending`), the preview overlays in the document (`overlays`, by number) and the
-- number of the next one.
pub record View : Type 0 where
  pub cwd : Text
  pub history : List Text
  pub hist_idx : ℕ
  pub entries : List Entry
  pub selected : List Text
  pub last_anchor : Option Text
  pub view_mode : ViewMode
  pub sort_key : SortKey
  pub sort_dir : SortDir
  pub tree_open : List Text
  pub preview : Option ℕ
  pub overlays : List ℕ
  pub next_overlay : ℕ
  pub status : Status
  pub pending : List Text

-- constructor(root), given the two settings of localStorage.
unfoldable pub new : ViewMode → SortKey → View
new mode key = record {
  cwd = [];
  history = [] ∷ [];
  hist_idx = 0;
  entries = [];
  selected = [];
  last_anchor = none;
  view_mode = mode;
  sort_key = key;
  sort_dir = forward;
  tree_open = [];
  preview = none;
  overlays = [];
  next_overlay = 0;
  status = blank;
  pending = [];
}

-- `close()` of the overlay with number k.
unfoldable pub close_overlay : ℕ → View → View
close_overlay k s = record s { overlays = filter (λ j. not (j == k)) s.overlays; preview = none }

-- `if (this.previewController) this.previewController.close();`
unfoldable pub close_preview : View → View
unfolding close_overlay
close_preview s = elim s.preview [ none ↦ s | some k ↦ close_overlay k s ]

abbrev pub tree_key : Text → Text
tree_key path = if truthy path then path else codes "/"

abbrev pub push_history : Text → View → View
push_history path s =
    let kept = take (suc s.hist_idx) s.history in
    record s { history = kept ++ (path ∷ []); hist_idx = length (kept ++ (path ∷ [])) - 1 }

-- go(path, pushHist) up to the `await`: the request for the listing is sent.
unfoldable pub go : Text → Bool → View → View
unfolding close_preview
go path push_hist s =
    let t = close_preview s in
    let u = record t { cwd = path; selected = []; last_anchor = none } in
    let v = if push_hist then push_history path u else u in
    record v {
      tree_open = set_add (tree_key path) v.tree_open;
      status = loading;
      pending = v.pending ++ (path ∷ []);
    }

abbrev pub or_empty : Option (List Entry) → List Entry
or_empty none = []
or_empty (some es) = es

abbrev pub status_of : List Entry → Status
status_of [] = empty
status_of (e ∷ es) = items (length (e ∷ es))

-- The rest of `go`, when getJson returns (`some none` is the body `null`) or throws (`none`).
unfoldable pub listed : (Text → Text) → Option (Option (List Entry)) → View → View
listed to_lower answer s =
    let t : View = elim answer [
      | none ↦ record s { entries = []; status = failed_to_list }
      | some body ↦ record s { entries = or_empty body }
    ] in
    let sorted = sort_entries to_lower t.sort_key t.sort_dir t.entries in
    record t { entries = sorted; status = status_of sorted }

abbrev pub history_at : List Text → ℕ → Text
history_at h i = elim (get_elem? h i) [ none ↦ [] | some p ↦ p ]

-- back(): hist_idx is decremented only if it is positive.
unfoldable pub back : View → View
back s =
    if ltb 0 s.hist_idx
    then go (history_at s.history (s.hist_idx - 1)) false (record s { hist_idx = s.hist_idx - 1 })
    else s

-- fwd(): `i < length - 1` is `i + 1 < length` for a history that is not empty.
unfoldable pub fwd : View → View
fwd s =
    if ltb (s.hist_idx + 1) (length s.history)
    then go (history_at s.history (s.hist_idx + 1)) false (record s { hist_idx = s.hist_idx + 1 })
    else s

unfoldable pub up : View → View
up s = if truthy s.cwd then go (parent s.cwd) true s else s

-- row.onclick of treeNode(label, path, isRoot)
unfoldable pub click_tree_row : Text → Bool → View → View
click_tree_row path is_root s =
    let toggled =
      if is_root
      then s.tree_open
      else if has s.tree_open path
      then set_delete path s.tree_open
      else set_add path s.tree_open in
    go path true (record s { tree_open = toggled })

-- onclick of fm-view
unfoldable pub toggle_view : View → View
toggle_view s = record s {
  view_mode = elim s.view_mode [ list_view ↦ grid_view | grid_view ↦ list_view ];
}

-- openPreview(e) up to the request for the contents.
unfoldable pub open_preview : View → View
unfolding close_preview
open_preview s =
    let t = close_preview s in
    record t {
      overlays = t.overlays ++ (t.next_overlay ∷ []);
      preview = some t.next_overlay;
      next_overlay = suc t.next_overlay;
    }
