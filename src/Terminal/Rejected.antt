-- ===== src/Terminal/Rejected.antt =====
-- When the page stops by itself: after the server has rejected the session, and after a restart that
-- failed.
use claude_docker.Common.{
  ℕ, subst, Bool, true, false, List, [], ◌∷◌, ◌≡◌, ◌≢◌, refl, ◌∙◌, sym, inl, inr, arith, Option,
  none, some,
}
use mathlib.Core.List.{Memᴰ}
use claude_docker.Terminal.State.{
  Term, Timer, Sent, Socket, Event, sessions_listed, opened, received, closed_with, timer_fires,
  kill_clicked, kill_returns, typed, pasted, resized, closed, opening, live, Phase, expired, input,
  resize, Status, disconnected,
}
use claude_docker.Terminal.Connection.{
  paste, handle, on_close, send, set_phase, is_open, run, kill, kill_answered, schedule_reconnect,
  is_confirmed, sid_text,
}
use claude_docker.Terminal.Closing.{not_1008, is_confirmed-set_phase}
use claude_docker.Text.{truthy}
use claude_docker.Terminal.Invariant.{Possible, HasPhase}

-- The connection is closed, nothing of the page is under way, and the status line says so.
pub record IsStalled (told : Status) (s : Term) : Type 0 where
  pub down : HasPhase closed s.ws
  pub no_timers : s.timers ≡ []
  pub no_kills : s.kills ≡ 0
  pub told_so : s.status ≡ told

-- The page is stalled after a rejection.
abbrev pub IsRejected : Term → Type 0
IsRejected = IsStalled expired

-- The user presses the restart button, or the page is loaded.
abbrev pub is_user_start : Event → Bool
is_user_start kill_clicked = true
is_user_start (sessions_listed _) = true
is_user_start _ = false

HasPhase-closed : (w : Option Socket) → HasPhase live w → HasPhase closed (set_phase closed w)
HasPhase-closed none p = absurd p
HasPhase-closed (some w) p = refl

closed_not : (w : Option Socket) (p : Phase) → p ≢ closed → HasPhase closed w → ¬ (HasPhase p w)
closed_not none p ne h k = h
closed_not (some w) p ne h k = ne (sym k ∙ h)

closed_not_open : (w : Option Socket) → HasPhase closed w → is_open w ≡ false
closed_not_open none h = absurd h
closed_not_open (some w) h = ground arith

send_closed : (m : Sent) (s : Term) → HasPhase closed s.ws → send m s ≡ s
unfolding send
send_closed m s h = simp (closed_not_open s.ws h)

on_close-IsRejected :
    (s : Term) → HasPhase live s.ws → s.timers ≡ [] → s.kills ≡ 0 → IsRejected (on_close 1008 s)
unfolding on_close
on_close-IsRejected s p none_left idle = record {
  down = HasPhase-closed s.ws p;
  no_timers = none_left;
  no_kills = idle;
  told_so = refl;
}

no_member : (t : Timer) (ts : List Timer) → ts ≡ [] → ¬ (Memᴰ t ts)
no_member t [] e m = elim m [ ]
no_member t (x ∷ ts) e m = cc

handle-IsStalled :
    (told : Status) (e : Event) (s : Term)
    → is_user_start e ≡ false
    → Possible e s
    → IsStalled told s
    → IsStalled told (handle e s)
unfolding handle paste
handle-IsStalled told (sessions_listed answer) s h p v = cc
handle-IsStalled told opened s h p v = absurd (closed_not s.ws opening (λ e. cc) v.down p)
handle-IsStalled told (received f) s h p v = absurd (closed_not s.ws live (λ e. cc) v.down p)
handle-IsStalled told (closed_with code) s h (inl p) v =
    absurd (closed_not s.ws opening (λ e. cc) v.down p)
handle-IsStalled told (closed_with code) s h (inr p) v =
    absurd (closed_not s.ws live (λ e. cc) v.down p)
handle-IsStalled told (timer_fires t) s h p v = absurd (no_member t s.timers v.no_timers p)
handle-IsStalled told kill_clicked s h p v = cc
handle-IsStalled told (kill_returns ok) s h p v = absurd (omega (arith, v.no_kills))
handle-IsStalled told (typed d) s h p v = rw (send_closed (input d) s v.down) v
handle-IsStalled told (pasted []) s h p v = v
handle-IsStalled told (pasted (c ∷ d)) s h p v = rw (send_closed (input (c ∷ d)) s v.down) v
handle-IsStalled told (resized c r) s h p v =
    rw (send_closed (resize c r) (record s { cols = c; rows = r }) v.down) (record {
      down = v.down;
      no_timers = v.no_timers;
      no_kills = v.no_kills;
      told_so = v.told_so;
    })

-- Steps that are neither a press of the restart button nor the start of the page.
pub data Quiet (s : Term) : Term → Type 0 where
  quiet_here : Quiet s s
  quiet_next :
      {t : Term}
      → Quiet s t
      → (e : Event) → is_user_start e ≡ false
      → Possible e t
      → Quiet s (handle e t)

-- A stalled page stays so.
pub Quiet-IsStalled :
    (told : Status) (s : Term) {t : Term} → IsStalled told s → Quiet s t → IsStalled told t
Quiet-IsStalled told s v quiet_here = v
Quiet-IsStalled told s v (quiet_next q e h possible) =
    handle-IsStalled told e _ h possible (Quiet-IsStalled told s v q)

-- After a rejection (close code 1008) of an open connection, with no timeout waiting and no request
-- of the restart button under way, the page never connects again by itself: until the user presses
-- that button or loads the page, the socket stays closed, no timeout waits, and the status line
-- asks to sign in.
pub IsRejected-stays :
    (s : Term) {t : Term}
    → HasPhase live s.ws
    → s.timers ≡ []
    → s.kills ≡ 0
    → Quiet (on_close 1008 s) t
    → IsRejected t
IsRejected-stays s p none_left idle q =
    Quiet-IsStalled expired _ (on_close-IsRejected s p none_left idle) q

-- A close while the restart button waits schedules nothing, since reconnecting is muted.
closed_while_killing :
    (s : Term) (code : ℕ)
    → code ≢ 1008
    → is_confirmed s.ws ≡ true
    → truthy (sid_text s.current_sid) ≡ true
    → let t = run (kill_clicked ∷ closed_with code ∷ kill_returns false ∷ []) s in
      (t.ws ≡ set_phase closed s.ws)
      × (t.timers ≡ s.timers)
      × (t.kills ≡ s.kills)
      × (t.status ≡ disconnected code)
unfolding handle kill on_close schedule_reconnect kill_answered
closed_while_killing s code ne ok has_sid =
    let still = is_confirmed-set_phase closed s.ws ∙ ok in ground (arith, not_1008 code ne, still)

-- If the connection of a confirmed session closes, not with 1008, while the request of the restart
-- button is under way, and that request then throws, with no timeout and no other request under way,
-- the page is left without a connection: until the user presses the button again or loads the page,
-- the socket stays closed, no timeout waits, and the status line shows the close code.
pub failed_restart-stalls :
    (s : Term) (code : ℕ) {t : Term}
    → code ≢ 1008
    → HasPhase live s.ws
    → is_confirmed s.ws ≡ true
    → truthy (sid_text s.current_sid) ≡ true
    → s.timers ≡ []
    → s.kills ≡ 0
    → Quiet (run (kill_clicked ∷ closed_with code ∷ kill_returns false ∷ []) s) t
    → IsStalled (disconnected code) t
failed_restart-stalls s code ne p ok has_sid idle none_killed q =
    let (w, ts, k, st) = closed_while_killing s code ne ok has_sid in
    Quiet-IsStalled (disconnected code) _
      (record {
        down = subst (HasPhase closed) (sym w) (HasPhase-closed s.ws p);
        no_timers = ts ∙ idle;
        no_kills = k ∙ none_killed;
        told_so = st;
      })
      q
