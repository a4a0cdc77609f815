-- ===== src/Examples/TerminalRuns.antt =====
-- Lives of a terminal page, and the theorems at them.
use claude_docker.Common.{
  ◌+◌, ◌-◌, ◌≤◌, true, false, List, [], ◌∷◌, ◌++◌, ◌≡◌, refl, arith, none, some, inl,
}
use claude_docker.Text.{codes, text_eq}
use claude_docker.Terminal.State.{
  Term, Timer, Socket, Message, Event, sessions_listed, opened, received, closed_with, timer_fires,
  kill_clicked, kill_returns, typed, resized, Frame, binary, json, not_json, new, opening, closed,
  live, resize, disconnected, reconnecting_in,
}
use claude_docker.Terminal.Connection.{
  handle, run, attach, clear_timer, send, on_open, on_message, on_json, on_close,
  schedule_reconnect, kill, kill_answered, backoff,
}
use claude_docker.Terminal.Budget.{reconnects_bounded}
use claude_docker.Terminal.Invariant.{
  IsCoherent, Reach-IsCoherent, new-IsCoherent, Reach, here, next, event,
}
use claude_docker.Terminal.Closing.{stale_session_once, restart_leaves_timeout}
use claude_docker.Terminal.Rejected.{
  IsRejected-stays, IsRejected, IsStalled, failed_restart-stalls, quiet_here, quiet_next,
}
use claude_docker.Terminal.Progress.{smooth_here, smooth_next}
use claude_docker.Terminal.Protocol.{Transition, link}
use claude_docker.Terminal.Protocol.Follows.{Reach-Transition}
use claude_docker.Terminal.Resize.{Resizer, ResizeEvent, window_event, timeout_event}
use claude_docker.Terminal.Recovery.{CanAttach, Smooth-recovers}

abbrev start : Term
start = new 80 24

abbrev session_message : Message
session_message = record { type = codes "session"; id = codes "0123456789ab"; exit_code = none }

abbrev exit_message : Message
exit_message = record { type = codes "pty-exit"; id = []; exit_code = some (codes "0") }

-- A page that is attached to a confirmed session.
abbrev attached : Term
attached = record {
  current_sid = some (codes "0123456789ab");
  ws = some (record { requested = []; confirmed = true; phase = live });
  reconnect_attempts = 0;
  reconnect_timer = none;
  intentional_close = false;
  status = claude_docker.Terminal.State.in_session (codes "01234567");
  timers = [];
  next_timer = 0;
  kills = 0;
  cols = 80;
  rows = 24;
  sent = resize 80 24 ∷ [];
  written = [];
}

first_connection :
    run (sessions_listed none ∷ opened ∷ received (json session_message) ∷ []) start ≡ attached
unfolding handle attach clear_timer on_open send on_message on_json new text_eq
first_connection = refl

reconnects_bounded_example :
    (run (closed_with 1006 ∷ closed_with 1006 ∷ []) attached).next_timer ≤ 0 + (6 - 0)
reconnects_bounded_example =
    reconnects_bounded (closed_with 1006 ∷ closed_with 1006 ∷ []) attached (omega arith)
      (refl, (refl, tt))

attached_by_steps : Reach start (handle (sessions_listed none) start)
attached_by_steps = next here (event (sessions_listed none) tt)

Reach-IsCoherent_example : IsCoherent (handle (sessions_listed none) start)
Reach-IsCoherent_example = Reach-IsCoherent (new-IsCoherent 80 24) attached_by_steps

-- The page has asked for a session that the server does not know.
abbrev stale : Term
stale = record attached {
  ws = some (record { requested = codes "0123456789ab"; confirmed = false; phase = opening });
}

stale_session_once_example :
    let t = on_close 1006 stale in
    let u = on_close 1006 t in
    (t.ws ≡ some (record { requested = []; confirmed = false; phase = opening }))
    × (t.next_timer ≡ stale.next_timer)
    × (u.ws ≡ some (record { requested = []; confirmed = false; phase = closed }))
    × (u.timers
        ≡ t.timers
          ++ (record { id = t.next_timer; sid = []; delay = backoff stale.reconnect_attempts }
              ∷ []))
stale_session_once_example =
    stale_session_once stale 1006 1006 (omega arith) (omega arith) refl (omega arith) refl

-- The first connection closes before it has opened: there was no session to ask for.
Reach-Transition_example :
    let first = handle (sessions_listed none) start in
    Transition (link first) (closed_with 1006) (link (on_close 1006 first))
unfolding handle attach
Reach-Transition_example = Reach-Transition 80 24 (closed_with 1006) attached_by_steps (inl refl)

IsRejected-stays_example : IsRejected (handle (typed (codes "ls")) (on_close 1008 attached))
IsRejected-stays_example =
    IsRejected-stays attached refl refl refl (quiet_next quiet_here (typed (codes "ls")) refl tt)

restart_leaves_timeout_example :
    let t = on_close 1000 (on_message (json exit_message) attached) in
    let left_over : Timer = record { id = 0; sid = []; delay = 1000 } in
    (t.timers ≡ left_over ∷ record { id = 1; sid = codes "0123456789ab"; delay = 2000 } ∷ [])
    × ((kill_answered true (kill t)).timers ≡ left_over ∷ [])
unfolding text_eq
restart_leaves_timeout_example =
    restart_leaves_timeout exit_message attached 1000 refl refl refl (omega arith) refl refl refl
      (omega arith) refl

abbrev output_events : List Event
output_events =
    received (binary (104 ∷ []))
    ∷ received not_json
    ∷ kill_clicked
    ∷ kill_returns true
    ∷ received (binary (105 ∷ []))
    ∷ []

failed_restart-stalls_example : IsStalled (disconnected 1006) (
    handle
      (typed (codes "ls"))
      (run (kill_clicked ∷ closed_with 1006 ∷ kill_returns false ∷ []) attached))
failed_restart-stalls_example =
    failed_restart-stalls attached 1006 (omega arith) refl refl refl refl refl
      (quiet_next quiet_here (typed (codes "ls")) refl tt)

Smooth-recovers_example :
    CanAttach
      (codes "0123456789ab")
      (handle (closed_with 1006) (handle (sessions_listed none) start))
unfolding text_eq handle on_close attach clear_timer new schedule_reconnect
Smooth-recovers_example =
    Smooth-recovers none start session_message (new-IsCoherent 80 24)
      (smooth_next smooth_here (closed_with 1006) (λ e. cc) (inl refl)) refl refl refl

abbrev calm : Resizer
calm = record { resize_timer = none; waiting = []; next = 1; fits = 0 }

abbrev drag : List ResizeEvent
drag = window_event ∷ window_event ∷ timeout_event 2 ∷ window_event ∷ []
