-- ===== src/Terminal/Output.antt =====
-- What reaches the terminal and what is sent to the server.
use claude_docker.Common.{
  ℕ, true, false, List, [], ◌∷◌, ◌++◌, ◌≡◌, refl, ap, ◌∙◌, sym, arith, some, if◌then◌else◌, if_ind,
  ◌==◌, append_assoc, append-nil,
}
use claude_docker.Text.{Text, truthy}
use claude_docker.Terminal.State.{
  Term, ScreenCall, wrote, was_reset, Sent, Socket, Event, sessions_listed, opened, received,
  closed_with, timer_fires, kill_clicked, kill_returns, typed, pasted, resized, binary, json,
  not_json, Message, closed, live, disconnected, resize,
}
use claude_docker.Terminal.Connection.{
  paste, handle, run, schedule_reconnect, attach, clear_timer, on_open, on_message, on_close,
  on_json, on_timer, kill, kill_answered, killed, send, without_timer, is_ping, is_session, is_exit,
  is_stale, sid_text, set_phase, is_open,
}

-- The bytes of the binary frames among the events, and a reset for each request of the restart
-- button that returns.
abbrev pub payloads : List Event → List ScreenCall
payloads [] = []
payloads (received (binary bytes) ∷ es) = wrote bytes ∷ payloads es
payloads (received (json m) ∷ es) = payloads es
payloads (received not_json ∷ es) = payloads es
payloads (sessions_listed _ ∷ es) = payloads es
payloads (opened ∷ es) = payloads es
payloads (closed_with _ ∷ es) = payloads es
payloads (timer_fires _ ∷ es) = payloads es
payloads (kill_clicked ∷ es) = payloads es
payloads (kill_returns true ∷ es) = was_reset ∷ payloads es
payloads (kill_returns false ∷ es) = payloads es
payloads (typed _ ∷ es) = payloads es
payloads (pasted _ ∷ es) = payloads es
payloads (resized _ _ ∷ es) = payloads es

abbrev Writes : List ScreenCall → Term → Term → Type 0
Writes bs s t = t.written ≡ s.written ++ bs

schedule-Writes : (sid : Text) (s : Term) → (schedule_reconnect sid s).written ≡ s.written
unfolding schedule_reconnect
schedule-Writes sid s = ground arith

attach-Writes : (sid : Text) (s : Term) → (attach sid s).written ≡ s.written
unfolding attach clear_timer
attach-Writes sid s = ground arith

send-Writes : (m : Sent) (s : Term) → (send m s).written ≡ s.written
unfolding send
send-Writes m s = ground arith

on_json-Writes : (m : Message) (s : Term) → (on_json m s).written ≡ s.written
unfolding on_json
on_json-Writes m s =
    let P = λ (t : Term). t.written ≡ s.written in
    if_ind P (is_ping m) (λ _. refl)
      λ _.
        if_ind P (is_session m) (λ _. refl)
          λ _. if_ind P (is_exit m) (λ _. schedule-Writes [] _) (λ _. refl)

on_close-Writes : (code : ℕ) (s : Term) → (on_close code s).written ≡ s.written
unfolding on_close
on_close-Writes code s =
    let P = λ (t : Term). t.written ≡ s.written in
    let t = record s { ws = set_phase closed s.ws; status = disconnected code } in
    if_ind P (code == 1008) (λ _. refl)
      λ _.
        if_ind P (is_stale t) (λ _. attach-Writes [] (record t { current_sid = some [] }))
          (λ _. schedule-Writes (sid_text t.current_sid) t)

kill-Writes : (s : Term) → (kill s).written ≡ s.written
unfolding kill
kill-Writes s =
    if_ind (λ (t : Term). t.written ≡ s.written) (truthy (sid_text s.current_sid)) (λ _. refl)
      (λ _. attach-Writes [] s)

run-append :
    (es : List Event) (s t : Term)
    → t.written ≡ s.written
    → (run es t).written ≡ t.written ++ payloads es
    → (run es t).written ≡ s.written ++ payloads es
run-append es s t e h = h ∙ ap (◌++ payloads es) e

-- The terminal is given the bytes of the binary frames, all of them, in the order in which they
-- come, and is reset whenever the request of the restart button returns; nothing else is written.
pub written-run : (es : List Event) (s : Term) → (run es s).written ≡ s.written ++ payloads es
unfolding handle on_open on_message on_timer kill_answered paste
written-run [] s = sym (append-nil s.written)
written-run (received (binary bytes) ∷ es) s =
    written-run es (record s { written = s.written ++ (wrote bytes ∷ []) })
    ∙ append_assoc s.written (wrote bytes ∷ []) (payloads es)
written-run (received (json m) ∷ es) s =
    run-append es s (on_json m s) (on_json-Writes m s) (written-run es (on_json m s))
written-run (received not_json ∷ es) s = written-run es s
written-run (sessions_listed answer ∷ es) s =
    run-append es s _ (attach-Writes _ s) (written-run es (handle (sessions_listed answer) s))
written-run (opened ∷ es) s =
    run-append es s _
      (send-Writes _ (record s { reconnect_attempts = 0; ws = set_phase live s.ws }))
      (written-run es (handle opened s))
written-run (closed_with code ∷ es) s =
    run-append es s _ (on_close-Writes code s) (written-run es (on_close code s))
written-run (timer_fires t ∷ es) s =
    run-append es s _ (attach-Writes t.sid (record s { timers = without_timer t.id s.timers }))
      (written-run es (handle (timer_fires t) s))
written-run (kill_clicked ∷ es) s = run-append es s _ (kill-Writes s) (written-run es (kill s))
written-run (kill_returns false ∷ es) s = written-run es (handle (kill_returns false) s)
written-run (kill_returns true ∷ es) s =
    written-run es (attach [] (killed s))
    ∙ ap (◌++ payloads es) (attach-Writes [] (killed s))
    ∙ append_assoc s.written (was_reset ∷ []) (payloads es)
written-run (typed d ∷ es) s =
    run-append es s _ (send-Writes _ s) (written-run es (handle (typed d) s))
written-run (pasted [] ∷ es) s = written-run es s
written-run (pasted (c ∷ d) ∷ es) s =
    run-append es s _ (send-Writes _ s) (written-run es (handle (pasted (c ∷ d)) s))
written-run (resized c r ∷ es) s =
    run-append es s _ (send-Writes _ (record s { cols = c; rows = r }))
      (written-run es (handle (resized c r) s))

send_lem :
    (m : Sent) (s : Term)
    → ((send m s).sent ≡ (if is_open s.ws then s.sent ++ (m ∷ []) else s.sent))
      × ((send m s).ws ≡ s.ws)
      × ((send m s).cols ≡ s.cols)
      × ((send m s).rows ≡ s.rows)
unfolding send
send_lem m s = ground arith

-- Once there is a socket, the server learns the size of the terminal: a change while the socket is open is sent at once; a
-- change at any other time is not sent; and in both cases, when the socket opens, the size that the
-- terminal has then is sent.
pub size_reaches_server :
    (s : Term) (w : Socket) (cols rows : ℕ)
    → s.ws ≡ some w
    → let t = handle (resized cols rows) s in
      (t.sent ≡ (if is_open s.ws then s.sent ++ (resize cols rows ∷ []) else s.sent))
      × ((handle opened t).sent ≡ t.sent ++ (resize cols rows ∷ []))
unfolding handle on_open
size_reaches_server s w cols rows e =
    let (now, ws, c, r) = send_lem (resize cols rows) (record s { cols = cols; rows = rows }) in
    let t = send (resize cols rows) (record s { cols = cols; rows = rows }) in
    let (later, _, _, _) =
      send_lem (resize t.cols t.rows)
        (record t { reconnect_attempts = 0; ws = set_phase live t.ws }) in
    (now, later ∙ simp (ws ∙ e, c, r))
