-- ===== src/Terminal/Protocol/Fresh.antt =====
-- A socket of web/src/terminal.js is confirmed only after it has opened.
use claude_docker.Common.{[], ◌∷◌, ℕ, true, false, refl, Option, none, some, if_ind, ◌==◌, leb}
use claude_docker.Text.{Text, truthy}
use claude_docker.Terminal.State.{
  Term, Sent, Socket, Event, sessions_listed, opened, received, closed_with, timer_fires,
  kill_clicked, kill_returns, typed, pasted, resized, binary, json, not_json, Message, closed, live,
  disconnected, ended, new,
}
use claude_docker.Terminal.Connection.{
  paste, handle, schedule_reconnect, attach, on_open, on_message, on_close, on_json, on_timer, kill,
  kill_answered, send, exit_text, is_ping, is_session, is_exit, is_stale, sid_text, set_phase,
  is_open, confirm,
}
use claude_docker.Terminal.Invariant.{HasPhase, Possible, Reach, here, next, event}
use claude_docker.Terminal.Protocol.{IsFresh}

attach-IsFresh : (sid : Text) (s : Term) → IsFresh (attach sid s).ws
unfolding attach
attach-IsFresh sid s = λ _. refl

live-IsFresh : (w : Option Socket) → IsFresh (set_phase live w)
live-IsFresh none = tt
live-IsFresh (some w) = λ h. cc

closed-IsFresh : (w : Option Socket) → IsFresh (set_phase closed w)
closed-IsFresh none = tt
closed-IsFresh (some w) = λ h. cc

confirm-IsFresh : (w : Option Socket) → HasPhase live w → IsFresh (confirm w)
confirm-IsFresh none h = absurd h
confirm-IsFresh (some w) h = λ o. cc

schedule-IsFresh : (sid : Text) (s : Term) → IsFresh s.ws → IsFresh (schedule_reconnect sid s).ws
unfolding schedule_reconnect
schedule-IsFresh sid s f =
    if_ind {A = Term} (λ t. IsFresh t.ws) s.intentional_close (λ _. f)
      (λ _. if_ind {A = Term} (λ t. IsFresh t.ws) (leb 6 s.reconnect_attempts) (λ _. f) (λ _. f))

send-IsFresh : (m : Sent) (s : Term) → IsFresh s.ws → IsFresh (send m s).ws
unfolding send
send-IsFresh m s f = if_ind {A = Term} (λ t. IsFresh t.ws) (is_open s.ws) (λ _. f) (λ _. f)

on_json-IsFresh :
    (m : Message) (s : Term) → HasPhase live s.ws → IsFresh s.ws → IsFresh (on_json m s).ws
unfolding on_json
on_json-IsFresh m s h f =
    if_ind {A = Term} (λ t. IsFresh t.ws) (is_ping m) (λ _. f)
      λ _.
        if_ind {A = Term} (λ t. IsFresh t.ws) (is_session m) (λ _. confirm-IsFresh s.ws h)
          λ _.
            if_ind {A = Term} (λ t. IsFresh t.ws) (is_exit m)
              (λ _. schedule-IsFresh [] (record s { status = ended (exit_text m.exit_code) }) f)
              (λ _. f)

on_close-IsFresh : (code : ℕ) (s : Term) → IsFresh (on_close code s).ws
unfolding on_close
on_close-IsFresh code s =
    let t = record s { ws = set_phase closed s.ws; status = disconnected code } in
    if_ind {A = Term} (λ u. IsFresh u.ws) (code == 1008) (λ _. closed-IsFresh s.ws)
      λ _.
        if_ind {A = Term} (λ u. IsFresh u.ws) (is_stale t)
          (λ _. attach-IsFresh [] (record t { current_sid = some [] }))
          (λ _. schedule-IsFresh (sid_text s.current_sid) t (closed-IsFresh s.ws))

kill-IsFresh : (s : Term) → IsFresh s.ws → IsFresh (kill s).ws
unfolding kill
kill-IsFresh s f =
    if_ind {A = Term} (λ t. IsFresh t.ws) (truthy (sid_text s.current_sid)) (λ _. f)
      (λ _. attach-IsFresh [] s)

handle-IsFresh : (e : Event) (s : Term) → Possible e s → IsFresh s.ws → IsFresh (handle e s).ws
unfolding handle on_open on_message on_timer kill_answered paste
handle-IsFresh (sessions_listed answer) s p f = attach-IsFresh _ s
handle-IsFresh opened s p f =
    send-IsFresh _ (record s { reconnect_attempts = 0; ws = set_phase live s.ws })
      (live-IsFresh s.ws)
handle-IsFresh (received (binary bytes)) s p f = f
handle-IsFresh (received (json m)) s p f = on_json-IsFresh m s p f
handle-IsFresh (received not_json) s p f = f
handle-IsFresh (closed_with code) s p f = on_close-IsFresh code s
handle-IsFresh (timer_fires t) s p f = attach-IsFresh t.sid _
handle-IsFresh kill_clicked s p f = kill-IsFresh s f
handle-IsFresh (kill_returns false) s p f = f
handle-IsFresh (kill_returns true) s p f = attach-IsFresh [] _
handle-IsFresh (typed d) s p f = send-IsFresh _ s f
handle-IsFresh (pasted []) s p f = f
handle-IsFresh (pasted (c ∷ d)) s p f = send-IsFresh _ s f
handle-IsFresh (resized c r) s p f = send-IsFresh _ (record s { cols = c; rows = r }) f

pub Reach-IsFresh : {s t : Term} → IsFresh s.ws → Reach s t → IsFresh t.ws
Reach-IsFresh f here = f
Reach-IsFresh f (next r (event e p)) = handle-IsFresh e _ p (Reach-IsFresh f r)

pub new-IsFresh : (cols rows : ℕ) → IsFresh (new cols rows).ws
unfolding new
new-IsFresh cols rows = tt
