-- ===== src/Examples/Dialogs.antt =====
-- The dialog for a new user, and the theorems at it.
use claude_docker.Common.{List, [], ◌∷◌, ◌≡◌, refl, some, inl}
use claude_docker.App.Accounts.{create_answered}
use claude_docker.App.Modals.{
  Overlay, Dialogs, DialogEvent, add_user, created, returned, dialog_run, dialog_step, user_modal,
  create_click, create_returns, cancel_shown,
}
use claude_docker.App.Modals.Owned.{IsOwned, dialog_run-IsOwned}

abbrev empty : Dialogs
empty = record { overlays = []; next = 0; pending = []; refreshes = 0 }

abbrev first : Overlay
first = record { id = 0; cancel = some 0; create = some 0; message = [] }

abbrev one_dialog : Dialogs
one_dialog = record { overlays = first ∷ []; next = 1; pending = []; refreshes = 0 }

-- A user is refused, then created; then another dialog is opened.
abbrev visit : List DialogEvent
visit = add_user ∷ created first ∷ returned 0 409 ∷ created first ∷ returned 0 200 ∷ add_user ∷ []

dialog_run-IsOwned_example :
    let t = dialog_run visit empty in IsOwned t.overlays × ((cancel_shown t).overlays ≡ [])
unfolding dialog_step user_modal create_click create_returns create_answered
dialog_run-IsOwned_example = dialog_run-IsOwned visit empty (inl refl) (refl, (refl, tt))
