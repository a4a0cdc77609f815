-- ===== src/App/Modals.antt =====
-- The dialogs that userModal of web/src/main.js adds to the document, and what their buttons close.
pub mod Owned
use claude_docker.Common.{
  ℕ, suc, Bool, true, false, not, Option, none, some, List, [], ◌∷◌, ◌++◌, filter, if◌then◌else◌,
  ◌==◌,
}
use claude_docker.Text.{Text}
use claude_docker.App.Accounts.{Modal, shut, refused_with, create_answered}

-- A dialog in the document: the dialogs that its Cancel closes and that its Create closes on success,
-- each of which none has been told to, and the text of its element `ne`.
pub record Overlay : Type 0 where
  pub id : ℕ
  pub cancel : Option ℕ
  pub create : Option ℕ
  pub message : Text

-- The dialogs in the order of the document, the requests of Create that wait, by the dialog that
-- success closes, and how often the table of users was read again.
pub record Dialogs : Type 0 where
  pub overlays : List Overlay
  pub next : ℕ
  pub pending : List ℕ
  pub refreshes : ℕ

-- `getElementById("nx").onclick = close` and that of nc: of the first dialog in the document.
abbrev pub bind_first : ℕ → List Overlay → List Overlay
bind_first k [] = []
bind_first k (o ∷ os) = record o { cancel = some k; create = some k } ∷ os

-- `getElementById("ne").textContent = text`; it throws where there is no dialog.
abbrev pub message_first : Text → List Overlay → List Overlay
message_first text [] = []
message_first text (o ∷ os) = record o { message = text } ∷ os

-- `overlay.remove()`
abbrev pub remove_overlay : ℕ → List Overlay → List Overlay
remove_overlay k os = filter (λ (o : Overlay). not (o.id == k)) os

abbrev pub new_overlay : ℕ → Overlay
new_overlay k = record { id = k; cancel = none; create = none; message = [] }

-- userModal(), which the button for a new user calls.
unfoldable pub user_modal : Dialogs → Dialogs
user_modal s = record s {
  overlays = bind_first s.next (s.overlays ++ (new_overlay s.next ∷ []));
  next = suc s.next;
}

-- What a handler does, where there is one.
abbrev pub close_bound : Option ℕ → Dialogs → Dialogs
close_bound none s = s
close_bound (some k) s = record s { overlays = remove_overlay k s.overlays }

abbrev pub ask_bound : Option ℕ → Dialogs → Dialogs
ask_bound none s = s
ask_bound (some k) s = record s { pending = s.pending ++ (k ∷ []) }

-- The buttons of a dialog.
unfoldable pub cancel_click : Overlay → Dialogs → Dialogs
cancel_click o s = close_bound o.cancel s

unfoldable pub create_click : Overlay → Dialogs → Dialogs
create_click o s = ask_bound o.create s

abbrev pub drop_first : ℕ → List ℕ → List ℕ
drop_first k [] = []
drop_first k (j ∷ ks) = let rest = drop_first k ks in if j == k then ks else j ∷ rest

abbrev pub settle : Modal → ℕ → Dialogs → Dialogs
settle shut k s = record s { overlays = remove_overlay k s.overlays; refreshes = suc s.refreshes }
settle (refused_with text) k s = record s { overlays = message_first text s.overlays }

-- The rest of the handler of Create, given the status of the answer.
unfoldable pub create_returns : ℕ → ℕ → Dialogs → Dialogs
create_returns k status s =
    settle (create_answered status) k (record s { pending = drop_first k s.pending })

pub data DialogEvent : Type 0 where
  add_user : DialogEvent
  cancelled : Overlay → DialogEvent
  created : Overlay → DialogEvent
  returned : ℕ → ℕ → DialogEvent

unfoldable pub dialog_step : DialogEvent → Dialogs → Dialogs
dialog_step add_user s = user_modal s
dialog_step (cancelled o) s = cancel_click o s
dialog_step (created o) s = create_click o s
dialog_step (returned k status) s = create_returns k status s

abbrev pub dialog_run : List DialogEvent → Dialogs → Dialogs
dialog_run [] s = s
dialog_run (e ∷ es) s = dialog_run es (dialog_step e s)

-- The Cancel of the first dialog.
abbrev pub cancel_of : List Overlay → Dialogs → Dialogs
cancel_of [] s = s
cancel_of (o ∷ os) s = cancel_click o s

abbrev pub cancel_shown : Dialogs → Dialogs
cancel_shown s = cancel_of s.overlays s
