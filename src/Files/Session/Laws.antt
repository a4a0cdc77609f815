-- ===== src/Files/Session/Laws.antt =====
-- What holds in every session of the file manager.
use claude_docker.Common.{
  ℕ, Bool, true, false, Option, none, some, List, [], ◌∷◌, ◌≡◌, refl, inl, inr, arith, Bool-cases,
  if_ind, get_elem?, length, ltb, ◌+◌, ◌-◌,
}
use claude_docker.Text.{Text, truthy}
use claude_docker.Files.FilePath.{join, parent}
use claude_docker.Files.Kind.{Entry}
use claude_docker.Files.Sort.{SortKey}
use claude_docker.Files.View.{
  View, ViewMode, new, go, back, fwd, up, listed, click_tree_row, toggle_view, open_preview,
  close_overlay, close_preview, history_at,
}
use claude_docker.Files.View.Nav.{AtCwd, go_push-AtCwd, go_keep-AtCwd, back-AtCwd, fwd-AtCwd}
use claude_docker.Files.View.Races.{PreviewMatches, go-no_preview, open_preview-PreviewMatches}
use claude_docker.Files.Selection.{Click, on_item_click, select_all, escape, select_for_menu}
use claude_docker.Files.Actions.{delete_done, rename_done, mkdir_done}
use claude_docker.Files.Session.{
  Action, go_back, go_forward, go_up, open_crumb, open_directory, open_tree_row, answer, click,
  choose_all, clear_selection, context_menu, toggle_mode, show_preview, close_button, deleted,
  renamed, made_folder, uploaded, step, IsShown, Reach, here, next, mount,
}

-- The current directory is the one that the history has at its index, and the overlay in the
-- document, if there is one, is the one that the controller closes.
pub record IsValid (s : View) : Type 0 where
  pub at_cwd : AtCwd s
  pub one_preview : PreviewMatches s

go-PreviewMatches :
    (p : Text) (push : Bool) (s : View) → PreviewMatches s → PreviewMatches (go p push s)
go-PreviewMatches p push s v =
    let (none_shown, no_overlays) = go-no_preview p push s v in rw (no_overlays, none_shown)

go_push-IsValid : (p : Text) (s : View) → PreviewMatches s → IsValid (go p true s)
go_push-IsValid p s v = record {
  at_cwd = go_push-AtCwd p s;
  one_preview = go-PreviewMatches p true s v;
}

go_keep-IsValid :
    (p : Text) (s : View)
    → get_elem? s.history s.hist_idx ≡ some p
    → PreviewMatches s
    → IsValid (go p false s)
go_keep-IsValid p s e v = record {
  at_cwd = go_keep-AtCwd p s e;
  one_preview = go-PreviewMatches p false s v;
}

back-IsValid : (s : View) → IsValid s → IsValid (back s)
back-IsValid s v = record {
  at_cwd = back-AtCwd s v.at_cwd;
  one_preview =
      unfold back in
      elim (Bool-cases (ltb 0 s.hist_idx)) [
        | inr first ↦ rw first v.one_preview
        | inl past ↦ rw past (
            go-PreviewMatches (history_at s.history (s.hist_idx - 1)) false
              (record s { hist_idx = s.hist_idx - 1 }) v.one_preview)
      ];
}

fwd-IsValid : (s : View) → IsValid s → IsValid (fwd s)
fwd-IsValid s v = record {
  at_cwd = fwd-AtCwd s v.at_cwd;
  one_preview =
      unfold fwd in
      elim (Bool-cases (ltb (s.hist_idx + 1) (length s.history))) [
        | inr last ↦ rw last v.one_preview
        | inl future ↦ rw future (
            go-PreviewMatches (history_at s.history (s.hist_idx + 1)) false
              (record s { hist_idx = s.hist_idx + 1 }) v.one_preview)
      ];
}

up-IsValid : (s : View) → IsValid s → IsValid (up s)
unfolding up
up-IsValid s v =
    if_ind IsValid (truthy s.cwd) (λ _. go_push-IsValid (parent s.cwd) s v.one_preview) (λ _. v)

listed-IsValid :
    (to_lower : Text → Text) (a : Option (Option (List Entry))) (s : View)
    → IsValid s
    → IsValid (listed to_lower a s)
unfolding listed
listed-IsValid to_lower none s v = record { at_cwd = v.at_cwd; one_preview = v.one_preview }
listed-IsValid to_lower (some body) s v = record { at_cwd = v.at_cwd; one_preview = v.one_preview }

-- A field that neither the history nor the overlay depends on may change.
abbrev SamePlace : View → View → Type 0
SamePlace s t =
    (t.cwd ≡ s.cwd)
    × (t.history ≡ s.history)
    × (t.hist_idx ≡ s.hist_idx)
    × (t.preview ≡ s.preview)
    × (t.overlays ≡ s.overlays)

IsValid-same : (s t : View) → SamePlace s t → IsValid s → IsValid t
IsValid-same s t (c, h, i, p, o) v = record {
  at_cwd = rw (c, h, i) v.at_cwd;
  one_preview = rw (o, p) v.one_preview;
}

click-SamePlace : (ev : Click) (e : Entry) (s : View) → SamePlace s (on_item_click ev e s)
unfolding on_item_click
click-SamePlace ev e s = ground arith

menu-SamePlace : (e : Entry) (s : View) → SamePlace s (select_for_menu e s)
unfolding select_for_menu
menu-SamePlace e s = ground arith

close-PreviewMatches :
    (k : ℕ) (s : View) → s.preview ≡ some k → PreviewMatches s → PreviewMatches (close_overlay k s)
unfolding close_overlay
close-PreviewMatches k s e v = ground arith

open_preview-SameHistory :
    (s : View)
    → ((open_preview s).cwd ≡ s.cwd)
      × ((open_preview s).history ≡ s.history)
      × ((open_preview s).hist_idx ≡ s.hist_idx)
unfolding open_preview close_preview
open_preview-SameHistory s = ground arith

preview-IsValid : (s : View) → IsValid s → IsValid (open_preview s)
preview-IsValid s v =
    let (c, h, i) = open_preview-SameHistory s in
    record {
      at_cwd = rw (c, h, i) v.at_cwd;
      one_preview = (open_preview-PreviewMatches s v.one_preview).0;
    }

step-IsValid :
    (to_lower : Text → Text) (a : Action) (s : View)
    → IsShown a s
    → IsValid s
    → IsValid (step to_lower a s)
unfolding step click_tree_row select_all escape toggle_view delete_done rename_done mkdir_done
step-IsValid to_lower go_back s h v = back-IsValid s v
step-IsValid to_lower go_forward s h v = fwd-IsValid s v
step-IsValid to_lower go_up s h v = up-IsValid s v
step-IsValid to_lower (open_crumb p) s h v = go_push-IsValid p s v.one_preview
step-IsValid to_lower (open_directory e) s h v = go_push-IsValid (join s.cwd e.name) s v.one_preview
step-IsValid to_lower (open_tree_row p is_root) s h v = go_push-IsValid p _ v.one_preview
step-IsValid to_lower (answer a) s h v = listed-IsValid to_lower a s v
step-IsValid to_lower (click ev e) s h v = IsValid-same s _ (click-SamePlace ev e s) v
step-IsValid to_lower choose_all s h v = IsValid-same s _ (refl, refl, refl, refl, refl) v
step-IsValid to_lower clear_selection s h v = IsValid-same s _ (refl, refl, refl, refl, refl) v
step-IsValid to_lower (context_menu e) s h v = IsValid-same s _ (menu-SamePlace e s) v
step-IsValid to_lower toggle_mode s h v = IsValid-same s _ (refl, refl, refl, refl, refl) v
step-IsValid to_lower show_preview s h v = preview-IsValid s v
step-IsValid to_lower (close_button k) s h v = record {
  at_cwd = unfold close_overlay in v.at_cwd;
  one_preview = close-PreviewMatches k s h v.one_preview;
}
step-IsValid to_lower deleted s h v =
    go_keep-IsValid s.cwd (record s { selected = [] }) v.at_cwd v.one_preview
step-IsValid to_lower (renamed to) s h v =
    go_keep-IsValid s.cwd (record s { selected = to ∷ [] }) v.at_cwd v.one_preview
step-IsValid to_lower made_folder s h v = go_keep-IsValid s.cwd s v.at_cwd v.one_preview
step-IsValid to_lower uploaded s h v = go_keep-IsValid s.cwd s v.at_cwd v.one_preview

-- In every session that starts in a state with these two properties, the history has the current directory at its index, and at most one preview is
-- in the document, the one that the controller closes.
pub Reach-IsValid :
    (to_lower : Text → Text) (s : View) {t : View} → IsValid s → Reach to_lower s t → IsValid t
Reach-IsValid to_lower s v here = v
Reach-IsValid to_lower s v (next r a h) = step-IsValid to_lower a _ h (Reach-IsValid to_lower s v r)

pub mount-IsValid : (mode : ViewMode) (key : SortKey) → IsValid (mount mode key)
unfolding mount new
mount-IsValid mode key = go_push-IsValid [] (new mode key) refl
