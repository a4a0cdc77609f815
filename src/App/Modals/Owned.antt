-- ===== src/App/Modals/Owned.antt =====
-- Whose buttons close which dialog of userModal of web/src/main.js.
use claude_docker.Common.{
  ℕ, ◌<◌, false, Option, none, some, List, [], ◌∷◌, ◌++◌, ◌==◌, ==_refl, ◌≡◌, ◌⊎◌, inl, inr, refl,
  ap, ◌∙◌, arith, Bool-cases,
}
use claude_docker.Text.{Text}
use claude_docker.App.Accounts.{Modal, shut, refused_with, create_answered}
use claude_docker.App.Modals.{
  Overlay, Dialogs, DialogEvent, add_user, cancelled, created, returned, bind_first, message_first,
  remove_overlay, new_overlay, user_modal, cancel_click, create_click, create_returns, dialog_step,
  dialog_run, cancel_shown, cancel_of, close_bound, ask_bound, settle,
}

-- The button for a new user is pressed only while no dialog is shown.
abbrev pub OneAtATime : List DialogEvent → Dialogs → Type 0
OneAtATime [] s = Unit
OneAtATime (add_user ∷ es) s = (s.overlays ≡ []) × OneAtATime es (dialog_step add_user s)
OneAtATime (cancelled o ∷ es) s = OneAtATime es (dialog_step (cancelled o) s)
OneAtATime (created o ∷ es) s = OneAtATime es (dialog_step (created o) s)
OneAtATime (returned k status ∷ es) s = OneAtATime es (dialog_step (returned k status) s)

-- No dialog is shown, or one, whose buttons close itself.
abbrev pub IsOwned : List Overlay → Type 0
IsOwned os =
    (os ≡ []) ⊎ ((o : Overlay) × (os ≡ o ∷ []) × (o.cancel ≡ some o.id) × (o.create ≡ some o.id))

remove-IsOwned : (k : ℕ) (os : List Overlay) → IsOwned os → IsOwned (remove_overlay k os)
remove-IsOwned k os (inl e) = inl (ap (remove_overlay k) e)
remove-IsOwned k os (inr (o, e, c, d)) = elim (Bool-cases (o.id == k)) [
  | inl same ↦ inl (ap (remove_overlay k) e ∙ rw same refl)
  | inr other ↦ inr (o, ap (remove_overlay k) e ∙ rw other refl, c, d)
]

message-IsOwned : (text : Text) (os : List Overlay) → IsOwned os → IsOwned (message_first text os)
message-IsOwned text os (inl e) = inl (ap (message_first text) e)
message-IsOwned text os (inr (o, e, c, d)) =
    inr (record o { message = text }, ap (message_first text) e, c, d)

open-IsOwned : (s : Dialogs) → s.overlays ≡ [] → IsOwned (user_modal s).overlays
unfolding user_modal
open-IsOwned s e =
    inr (_, ap (λ os. bind_first s.next (os ++ (new_overlay s.next ∷ []))) e, refl, refl)

close-IsOwned :
    (c : Option ℕ) (s : Dialogs) → IsOwned s.overlays → IsOwned (close_bound c s).overlays
close-IsOwned none s v = v
close-IsOwned (some k) s v = remove-IsOwned k s.overlays v

ask-IsOwned : (c : Option ℕ) (s : Dialogs) → IsOwned s.overlays → IsOwned (ask_bound c s).overlays
ask-IsOwned none s v = v
ask-IsOwned (some k) s v = v

settle-IsOwned :
    (m : Modal) (k : ℕ) (s : Dialogs) → IsOwned s.overlays → IsOwned (settle m k s).overlays
settle-IsOwned shut k s v = remove-IsOwned k s.overlays v
settle-IsOwned (refused_with text) k s v = message-IsOwned text s.overlays v

step-IsOwned :
    (e : DialogEvent) (es : List DialogEvent) (s : Dialogs)
    → OneAtATime (e ∷ es) s
    → IsOwned s.overlays
    → IsOwned (dialog_step e s).overlays × OneAtATime es (dialog_step e s)
unfolding dialog_step cancel_click create_click create_returns
step-IsOwned add_user es s (e, p) v = (open-IsOwned s e, p)
step-IsOwned (cancelled o) es s p v = (close-IsOwned o.cancel s v, p)
step-IsOwned (created o) es s p v = (ask-IsOwned o.create s v, p)
step-IsOwned (returned k status) es s p v = (settle-IsOwned (create_answered status) k _ v, p)

cancel_of-owned :
    (os : List Overlay) (s : Dialogs)
    → s.overlays ≡ os
    → IsOwned os
    → (cancel_of os s).overlays ≡ []
unfolding cancel_click
cancel_of-owned os s e (inl f) = rw f (e ∙ f)
cancel_of-owned os s e (inr (o, f, c, d)) =
    rw (f, c) (ap (remove_overlay o.id) (e ∙ f) ∙ rw (==_refl o.id) refl)

-- From a page without a dialog, or with one whose buttons close itself, and through any events, if the
-- button for a new user is pressed only while no dialog is shown: then again no dialog is shown, or
-- one, whose Cancel and whose Create close itself; and its Cancel leaves no dialog.
pub dialog_run-IsOwned :
    (es : List DialogEvent) (s : Dialogs)
    → IsOwned s.overlays
    → OneAtATime es s
    → let t = dialog_run es s in IsOwned t.overlays × ((cancel_shown t).overlays ≡ [])
dialog_run-IsOwned [] s v p = (v, cancel_of-owned s.overlays s refl v)
dialog_run-IsOwned (e ∷ es) s v p =
    let (owned, later) = step-IsOwned e es s p v in
    dialog_run-IsOwned es (dialog_step e s) owned later

not_same : (a b : ℕ) → a < b → (a == b) ≡ false
not_same a b h = ground arith

-- If the button for a new user is pressed while a dialog is shown, as the keyboard can: the buttons of
-- the new dialog, which lies above, do nothing; Cancel of the old one closes the new one; and then
-- neither Cancel nor a success of Create closes the old one.
pub opened_twice :
    (s : Dialogs) (o : Overlay)
    → s.overlays ≡ o ∷ []
    → o.id < s.next
    → let t = user_modal s in
      let fresh = new_overlay s.next in
      let old = record o { cancel = some s.next; create = some s.next } in
      let u = cancel_click old t in
      (t.overlays ≡ old ∷ fresh ∷ [])
      × (cancel_click fresh t ≡ t)
      × (create_click fresh t ≡ t)
      × (u.overlays ≡ old ∷ [])
      × ((cancel_click old u).overlays ≡ old ∷ [])
      × ((create_returns s.next 200 u).overlays ≡ old ∷ [])
unfolding user_modal cancel_click create_click create_returns create_answered
opened_twice s o e h =
    let old = record o { cancel = some s.next; create = some s.next } in
    let fresh = new_overlay s.next in
    let both : (user_modal s).overlays ≡ old ∷ fresh ∷ [] =
      ap (λ os. bind_first s.next (os ++ (fresh ∷ []))) e in
    let gone : remove_overlay s.next (old ∷ fresh ∷ []) ≡ old ∷ [] =
      rw (not_same o.id s.next h, ==_refl s.next) refl in
    let stays : remove_overlay s.next (old ∷ []) ≡ old ∷ [] = rw (not_same o.id s.next h) refl in
    let once = ap (remove_overlay s.next) both ∙ gone in
    let again = ap (remove_overlay s.next) once ∙ stays in (both, refl, refl, once, again, again)
