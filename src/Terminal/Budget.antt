-- ===== src/Terminal/Budget.antt =====
-- Reconnecting without an open connection ends: the timeouts that are scheduled are the attempts
-- that are counted.
use claude_docker.Common.{
  ℕ, ◌+◌, ◌-◌, ◌≤◌, Bool, true, false, List, [], ◌∷◌, ◌≡◌, refl, arith, some, if_ind, ◌==◌, All,
}
use claude_docker.Text.{Text, truthy}
use claude_docker.Terminal.State.{
  Term, Sent, Event, sessions_listed, opened, received, closed_with, timer_fires, kill_clicked,
  kill_returns, typed, pasted, resized, binary, json, not_json, Message, closed, disconnected,
}
use claude_docker.Terminal.Connection.{
  paste, handle, run, schedule_reconnect, attach, clear_timer, on_message, on_close, on_json,
  on_timer, kill, kill_answered, killed, send, without_timer, is_ping, is_session, is_exit,
  is_stale, sid_text, set_phase,
}
use claude_docker.Terminal.Backoff.{IsBounded, run-IsBounded}

-- From `s` to `t` as many timeouts were scheduled as attempts were counted.
abbrev SameBudget : Term → Term → Type 0
SameBudget s t = t.next_timer + s.reconnect_attempts ≡ s.next_timer + t.reconnect_attempts

schedule-SameBudget : (sid : Text) (s : Term) → SameBudget s (schedule_reconnect sid s)
unfolding schedule_reconnect
schedule-SameBudget sid s = ground arith

attach-SameBudget : (sid : Text) (s : Term) → SameBudget s (attach sid s)
unfolding attach clear_timer
attach-SameBudget sid s = ground arith

send-SameBudget : (m : Sent) (s : Term) → SameBudget s (send m s)
unfolding send
send-SameBudget m s = ground arith

on_json-SameBudget : (m : Message) (s : Term) → SameBudget s (on_json m s)
unfolding on_json
on_json-SameBudget m s =
    if_ind (SameBudget s) (is_ping m) (λ _. refl)
      λ _.
        if_ind (SameBudget s) (is_session m) (λ _. refl)
          λ _. if_ind (SameBudget s) (is_exit m) (λ _. schedule-SameBudget [] _) (λ _. refl)

on_close-SameBudget : (code : ℕ) (s : Term) → SameBudget s (on_close code s)
unfolding on_close
on_close-SameBudget code s =
    let t = record s { ws = set_phase closed s.ws; status = disconnected code } in
    if_ind (SameBudget s) (code == 1008) (λ _. refl)
      λ _.
        if_ind (SameBudget s) (is_stale t)
          (λ _. attach-SameBudget [] (record t { current_sid = some [] }))
          (λ _. schedule-SameBudget (sid_text t.current_sid) t)

kill-SameBudget : (s : Term) → SameBudget s (kill s)
unfolding kill
kill-SameBudget s =
    if_ind (SameBudget s) (truthy (sid_text s.current_sid)) (λ _. refl)
      (λ _. attach-SameBudget [] s)

abbrev pub is_opened : Event → Bool
is_opened opened = true
is_opened _ = false

handle-SameBudget : (e : Event) (s : Term) → is_opened e ≡ false → SameBudget s (handle e s)
unfolding handle on_message on_timer kill_answered paste
handle-SameBudget (sessions_listed answer) s h = attach-SameBudget _ s
handle-SameBudget opened s h = cc
handle-SameBudget (received (binary bytes)) s h = refl
handle-SameBudget (received (json m)) s h = on_json-SameBudget m s
handle-SameBudget (received not_json) s h = refl
handle-SameBudget (closed_with code) s h = on_close-SameBudget code s
handle-SameBudget (timer_fires t) s h =
    attach-SameBudget t.sid (record s { timers = without_timer t.id s.timers })
handle-SameBudget kill_clicked s h = kill-SameBudget s
handle-SameBudget (kill_returns false) s h = refl
handle-SameBudget (kill_returns true) s h = attach-SameBudget [] (killed s)
handle-SameBudget (typed d) s h = send-SameBudget _ s
handle-SameBudget (pasted []) s h = refl
handle-SameBudget (pasted (c ∷ d)) s h = send-SameBudget _ s
handle-SameBudget (resized c r) s h = send-SameBudget _ (record s { cols = c; rows = r })

run-SameBudget :
    (es : List Event) (s : Term) → All (λ e. is_opened e ≡ false) es → SameBudget s (run es s)
run-SameBudget [] s h = refl
run-SameBudget (e ∷ es) s (h, hs) =
    omega (arith, handle-SameBudget e s h, run-SameBudget es (handle e s) hs)

-- From a state with at most six attempts and with delays from one second to thirty, as long as no
-- connection opens, whatever else happens, at most as many timeouts are scheduled as attempts were
-- left of the six: reconnecting gives up.
pub reconnects_bounded :
    (es : List Event) (s : Term)
    → IsBounded s
    → All (λ e. is_opened e ≡ false) es
    → (run es s).next_timer ≤ s.next_timer + (6 - s.reconnect_attempts)
reconnects_bounded es s v h =
    omega (arith, run-SameBudget es s h, (run-IsBounded es s v).attempts, v.attempts)
