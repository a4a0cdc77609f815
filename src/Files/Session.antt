-- ===== src/Files/Session.antt =====
-- Everything that changes the state of the file manager, as one step function (the handlers that
-- web/src/files.js binds and the answers that arrive).
pub mod Laws
pub mod Growth
use claude_docker.Common.{
  ℕ, Bool, true, false, Option, none, some, List, [], ◌∷◌, ◌++◌, ◌≡◌, refl, sym, ap, ◌∙◌, inl, inr,
  arith, Bool-cases, if◌then◌else◌, if_ind, not, filter, ◌==◌, ==_refl, get_elem?,
}
use claude_docker.Text.{Text, truthy, has}
use claude_docker.Files.FilePath.{join, parent}
use claude_docker.Files.Kind.{Entry}
use claude_docker.Files.Sort.{SortKey, by_name}
use claude_docker.Files.View.{
  View, ViewMode, list_view, new, go, back, fwd, up, listed, click_tree_row, toggle_view,
  open_preview, close_overlay, history_at,
}
use claude_docker.Files.Selection.{Click, on_item_click, select_all, escape, select_for_menu}
use claude_docker.Files.Actions.{delete_done, rename_done, mkdir_done}

pub data Action : Type 0 where
  go_back go_forward go_up : Action
  open_crumb : Text → Action
  open_directory : Entry → Action
  open_tree_row : Text → Bool → Action
  answer : Option (Option (List Entry)) → Action
  click : Click → Entry → Action
  choose_all clear_selection : Action
  context_menu : Entry → Action
  toggle_mode : Action
  show_preview : Action
  close_button : ℕ → Action
  deleted : Action
  renamed : Text → Action
  made_folder : Action
  uploaded : Action

module _ (to_lower : Text → Text) where
  unfoldable pub step : Action → View → View
  step go_back s = back s
  step go_forward s = fwd s
  step go_up s = up s
  step (open_crumb p) s = go p true s
  step (open_directory e) s = go (join s.cwd e.name) true s
  step (open_tree_row p is_root) s = click_tree_row p is_root s
  step (answer a) s = listed to_lower a s
  step (click ev e) s = on_item_click ev e s
  step choose_all s = select_all s
  step clear_selection s = escape s
  step (context_menu e) s = select_for_menu e s
  step toggle_mode s = toggle_view s
  step show_preview s = open_preview s
  step (close_button k) s = close_overlay k s
  step deleted s = delete_done s
  step (renamed to) s = rename_done to s
  step made_folder s = mkdir_done s
  step uploaded s = go s.cwd false s

-- The close button of an overlay is in reach only while the overlay is in the document.
abbrev pub IsShown : Action → View → Type 0
IsShown (close_button k) s = s.preview ≡ some k
IsShown _ s = Unit

-- The states of a session that starts in `s`.
pub data Reach (to_lower : Text → Text) (s : View) : View → Type 0 where
  here : Reach to_lower s s
  next :
      {t : View}
      → Reach to_lower s t
      → (a : Action) → IsShown a t
      → Reach to_lower s (step to_lower a t)

-- mount(), on the object that the constructor makes.
unfoldable pub mount : ViewMode → SortKey → View
mount mode key = go [] true (new mode key)
