-- ===== src/Requests/Stream.antt =====
-- What the server reads from a terminal page over its life.
use claude_docker.Common.{
  ℕ, ◌^◌, ◌<◌, true, false, some, List, [], ◌∷◌, map, ◌≡◌, refl, ap₂, All, All-append, arith,
  if_ind, ◌==◌, leb,
}
use claude_docker.Text.{Text, truthy}
use claude_docker.Terminal.State.{
  Term, Sent, Event, sessions_listed, opened, received, closed_with, timer_fires, kill_clicked,
  kill_returns, typed, pasted, resized, binary, json, not_json, Message, closed, disconnected,
}
use claude_docker.Terminal.Connection.{
  paste, handle, run, schedule_reconnect, attach, clear_timer, on_open, on_message, on_close,
  on_json, on_timer, kill, kill_answered, send, is_ping, is_session, is_exit, is_stale, sid_text,
  set_phase, is_open,
}
use claude_docker.Url.Decode.{IsUnit}
use claude_docker.Json.Reader.{read_object}
use claude_docker.Requests.{sent_text, sent_fields}
use claude_docker.Requests.Laws.{IsMessage, sent_text-injective}

-- Typed and pasted text consists of 16-bit code units, and sizes are below 10^20.
abbrev pub IsSmall : Event → Type 0
IsSmall (typed d) = All IsUnit d
IsSmall (pasted d) = All IsUnit d
IsSmall (resized c r) = (c < 10 ^ 20) × (r < 10 ^ 20)
IsSmall _ = Unit

abbrev pub IsSendable : Term → Type 0
IsSendable s = All IsMessage s.sent × (s.cols < 10 ^ 20) × (s.rows < 10 ^ 20)

attach-IsSendable : (sid : Text) (s : Term) → IsSendable s → IsSendable (attach sid s)
unfolding attach clear_timer
attach-IsSendable sid s v = ground (arith, v.0, v.1, v.2)

schedule-IsSendable : (sid : Text) (s : Term) → IsSendable s → IsSendable (schedule_reconnect sid s)
unfolding schedule_reconnect
schedule-IsSendable sid s v =
    if_ind IsSendable s.intentional_close (λ _. v)
      λ _. if_ind IsSendable (leb 6 s.reconnect_attempts) (λ _. v) (λ _. v)

send-IsSendable : (m : Sent) (s : Term) → IsMessage m → IsSendable s → IsSendable (send m s)
unfolding send
send-IsSendable m s h v =
    if_ind IsSendable (is_open s.ws)
      (λ _. (All-append IsMessage s.sent (m ∷ []) v.0 (h, tt), v.1, v.2)) (λ _. v)

on_json-IsSendable : (m : Message) (s : Term) → IsSendable s → IsSendable (on_json m s)
unfolding on_json
on_json-IsSendable m s v =
    if_ind IsSendable (is_ping m) (λ _. v)
      λ _.
        if_ind IsSendable (is_session m) (λ _. v)
          λ _. if_ind IsSendable (is_exit m) (λ _. schedule-IsSendable [] _ v) (λ _. v)

on_close-IsSendable : (code : ℕ) (s : Term) → IsSendable s → IsSendable (on_close code s)
unfolding on_close
on_close-IsSendable code s v =
    let t = record s { ws = set_phase closed s.ws; status = disconnected code } in
    if_ind IsSendable (code == 1008) (λ _. v)
      λ _.
        if_ind IsSendable (is_stale t) (λ _. attach-IsSendable [] _ v)
          (λ _. schedule-IsSendable _ t v)

kill-IsSendable : (s : Term) → IsSendable s → IsSendable (kill s)
unfolding kill
kill-IsSendable s v =
    if_ind IsSendable (truthy (sid_text s.current_sid)) (λ _. v) (λ _. attach-IsSendable [] s v)

handle-IsSendable : (e : Event) (s : Term) → IsSmall e → IsSendable s → IsSendable (handle e s)
unfolding handle on_open on_message on_timer kill_answered paste
handle-IsSendable (sessions_listed answer) s h v = attach-IsSendable _ s v
handle-IsSendable opened s h v = send-IsSendable _ _ (v.1, v.2) v
handle-IsSendable (received (binary bytes)) s h v = v
handle-IsSendable (received (json m)) s h v = on_json-IsSendable m s v
handle-IsSendable (received not_json) s h v = v
handle-IsSendable (closed_with code) s h v = on_close-IsSendable code s v
handle-IsSendable (timer_fires t) s h v = attach-IsSendable _ _ v
handle-IsSendable kill_clicked s h v = kill-IsSendable s v
handle-IsSendable (kill_returns false) s h v = v
handle-IsSendable (kill_returns true) s h v = attach-IsSendable [] _ v
handle-IsSendable (typed d) s h v = send-IsSendable _ s h v
handle-IsSendable (pasted []) s h v = v
handle-IsSendable (pasted (c ∷ d)) s h v = send-IsSendable _ s h v
handle-IsSendable (resized c r) s (a, b) v = send-IsSendable _ _ (a, b) (v.0, a, b)

run-IsSendable :
    (es : List Event) (s : Term) → All IsSmall es → IsSendable s → IsSendable (run es s)
run-IsSendable [] s h v = v
run-IsSendable (e ∷ es) s (h, hs) v = run-IsSendable es (handle e s) hs (handle-IsSendable e s h v)

each_read :
    (ms : List Sent)
    → All IsMessage ms
    → map (λ m. read_object (sent_text m)) ms ≡ map (λ m. some (sent_fields m)) ms
each_read [] h = refl
each_read (m ∷ ms) (h, hs) = ap₂ ◌∷◌ (sent_text-injective m m h h).0 (each_read ms hs)

-- Whatever happens to a page whose messages so far were typed text of 16-bit code units and sizes
-- below 10^20, and with such text and sizes only: the texts that it has sent over all its connections
-- are read by the server as the messages that it meant, in their order.
pub server_understands :
    (es : List Event) (s : Term)
    → All IsSmall es
    → IsSendable s
    → map (λ m. read_object (sent_text m)) (run es s).sent
      ≡ map (λ m. some (sent_fields m)) (run es s).sent
server_understands es s h v = each_read (run es s).sent (run-IsSendable es s h v).0
