-- ===== src/Terminal/Backoff.antt =====
-- Reconnecting: bounded attempts and bounded delays.
use claude_docker.Common.{
  ℕ, zero, suc, ◌≤◌, ◌<◌, true, false, List, [], ◌∷◌, arith, none, some, if_ind, ◌==◌, All,
  All-append, leb,
}
use claude_docker.Text.{Text, truthy}
use claude_docker.Terminal.State.{
  Term, Timer, Sent, Event, sessions_listed, opened, received, closed_with, timer_fires,
  kill_clicked, kill_returns, typed, pasted, resized, binary, json, not_json, Message, closed,
  disconnected,
}
use claude_docker.Terminal.Connection.{
  paste, handle, run, schedule_reconnect, attach, clear_timer, on_open, on_message, on_close,
  on_json, on_timer, kill, kill_answered, send, backoff, without_timer, is_ping, is_session,
  is_exit, is_stale, sid_text, set_phase,
}

-- The delay is at least a second and at most thirty.
backoff_bounds : (n : ℕ) → n < 6 → (1000 ≤ backoff n) × (backoff n ≤ 30000)
backoff_bounds zero h = omega arith
backoff_bounds (suc zero) h = omega arith
backoff_bounds (suc (suc zero)) h = omega arith
backoff_bounds (suc (suc (suc zero))) h = omega arith
backoff_bounds (suc (suc (suc (suc zero)))) h = omega arith
backoff_bounds (suc (suc (suc (suc (suc zero))))) h = omega arith
backoff_bounds (suc (suc (suc (suc (suc (suc n)))))) h = absurd (omega arith)

abbrev pub InRange : Timer → Type 0
InRange t = (1000 ≤ t.delay) × (t.delay ≤ 30000)

pub record IsBounded (s : Term) : Type 0 where
  pub attempts : s.reconnect_attempts ≤ 6
  pub delays : All InRange s.timers

All-without_timer : (k : ℕ) (ts : List Timer) → All InRange ts → All InRange (without_timer k ts)
All-without_timer k [] h = tt
All-without_timer k (t ∷ ts) (p, h) = ground (arith, All-without_timer k ts h)

schedule-IsBounded : (sid : Text) (s : Term) → IsBounded s → IsBounded (schedule_reconnect sid s)
unfolding schedule_reconnect
schedule-IsBounded sid s v =
    if_ind IsBounded s.intentional_close (λ _. v)
      λ _.
        if_ind IsBounded (leb 6 s.reconnect_attempts)
          (λ _. record { attempts = v.attempts; delays = v.delays })
          λ left.
            let lt : s.reconnect_attempts < 6 = ground arith in
            record {
              attempts = omega arith;
              delays =
                  All-append InRange s.timers _ v.delays
                    (backoff_bounds s.reconnect_attempts lt, tt);
            }

clear_timer-IsBounded : (s : Term) → IsBounded s → IsBounded (clear_timer s)
unfolding clear_timer
clear_timer-IsBounded s v =
    elim s.reconnect_timer
      as (λ r. IsBounded (elim r [
        | none ↦ s
        | some k ↦ record s { timers = without_timer k s.timers; reconnect_timer = none }
      ])) [
        | none ↦ v
        | some k ↦ record { attempts = v.attempts; delays = All-without_timer k s.timers v.delays }
      ]

attach-IsBounded : (sid : Text) (s : Term) → IsBounded s → IsBounded (attach sid s)
unfolding attach
attach-IsBounded sid s v =
    let w = clear_timer-IsBounded s v in record { attempts = w.attempts; delays = w.delays }

send-IsBounded : (m : Sent) (s : Term) → IsBounded s → IsBounded (send m s)
unfolding send
send-IsBounded m s v = ground arith

on_json-IsBounded : (m : Message) (s : Term) → IsBounded s → IsBounded (on_json m s)
unfolding on_json
on_json-IsBounded m s v =
    if_ind IsBounded (is_ping m) (λ _. v)
      λ _.
        if_ind IsBounded (is_session m) (λ _. record { attempts = v.attempts; delays = v.delays })
          λ _.
            if_ind IsBounded (is_exit m)
              (λ _. schedule-IsBounded [] _ (record { attempts = v.attempts; delays = v.delays }))
              (λ _. v)

on_close-IsBounded : (code : ℕ) (s : Term) → IsBounded s → IsBounded (on_close code s)
unfolding on_close
on_close-IsBounded code s v =
    let t = record s { ws = set_phase closed s.ws; status = disconnected code } in
    let w : IsBounded t = record { attempts = v.attempts; delays = v.delays } in
    if_ind IsBounded (code == 1008) (λ _. record { attempts = v.attempts; delays = v.delays })
      λ _.
        if_ind IsBounded (is_stale t)
          (λ _. attach-IsBounded [] _ (record { attempts = v.attempts; delays = v.delays }))
          (λ _. schedule-IsBounded _ t w)

kill-IsBounded : (s : Term) → IsBounded s → IsBounded (kill s)
unfolding kill
kill-IsBounded s v =
    if_ind IsBounded (truthy (sid_text s.current_sid))
      (λ _. record { attempts = v.attempts; delays = v.delays }) (λ _. attach-IsBounded [] s v)

handle-IsBounded : (e : Event) (s : Term) → IsBounded s → IsBounded (handle e s)
unfolding handle on_open on_message on_timer kill_answered paste
handle-IsBounded (sessions_listed answer) s v = attach-IsBounded _ s v
handle-IsBounded opened s v =
    send-IsBounded _ _ (record { attempts = omega arith; delays = v.delays })
handle-IsBounded (received (binary bytes)) s v = record { attempts = v.attempts; delays = v.delays }
handle-IsBounded (received (json m)) s v = on_json-IsBounded m s v
handle-IsBounded (received not_json) s v = v
handle-IsBounded (closed_with code) s v = on_close-IsBounded code s v
handle-IsBounded (timer_fires t) s v =
    attach-IsBounded _ _
      (record { attempts = v.attempts; delays = All-without_timer t.id s.timers v.delays })
handle-IsBounded kill_clicked s v = kill-IsBounded s v
handle-IsBounded (kill_returns false) s v = record { attempts = v.attempts; delays = v.delays }
handle-IsBounded (kill_returns true) s v =
    attach-IsBounded [] _ (record { attempts = v.attempts; delays = v.delays })
handle-IsBounded (typed d) s v = send-IsBounded _ s v
handle-IsBounded (pasted []) s v = v
handle-IsBounded (pasted (c ∷ d)) s v = send-IsBounded _ s v
handle-IsBounded (resized c r) s v =
    send-IsBounded _ _ (record { attempts = v.attempts; delays = v.delays })

-- Whatever happens to the page: if at most six attempts are counted and every timeout that waits has
-- a delay from one second to thirty, this stays so.
pub run-IsBounded : (es : List Event) (s : Term) → IsBounded s → IsBounded (run es s)
run-IsBounded [] s v = v
run-IsBounded (e ∷ es) s v = run-IsBounded es (handle e s) (handle-IsBounded e s v)
