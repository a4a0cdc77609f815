-- ===== src/Terminal/Closing.antt =====
-- What a closed connection leads to: stale sessions, and the timeouts left behind by a shell that
-- ended.
use claude_docker.Common.{
  ℕ, suc, ◌+◌, ◌/◌, ◌<◌, true, false, List, [], ◌∷◌, ◌++◌, ◌≡◌, ◌≢◌, refl, ap, ◌∙◌, arith, Option,
  none, some, ◌==◌, leb,
}
use claude_docker.Text.{Text, truthy}
use claude_docker.Terminal.State.{
  Term, Timer, Socket, json, Message, closed, opening, disconnected, Phase, reconnecting_in,
}
use claude_docker.Terminal.Connection.{
  killed, schedule_reconnect, attach, clear_timer, on_message, on_close, on_json, kill,
  kill_answered, backoff, without_timer, is_ping, is_session, is_exit, is_stale, sid_text,
  set_phase, is_confirmed,
}

pub not_1008 : (code : ℕ) → code ≢ 1008 → (code == 1008) ≡ false
not_1008 code ne = ground arith

pub is_confirmed-set_phase :
    (p : Phase) (w : Option Socket) → is_confirmed (set_phase p w) ≡ is_confirmed w
is_confirmed-set_phase p none = refl
is_confirmed-set_phase p (some w) = refl

pub attach_fields :
    (sid : Text) (s : Term)
    → ((attach sid s).ws ≡ some (record { requested = sid; confirmed = false; phase = opening }))
      × ((attach sid s).current_sid ≡ some sid)
      × ((attach sid s).next_timer ≡ s.next_timer)
      × ((attach sid s).reconnect_attempts ≡ s.reconnect_attempts)
      × ((attach sid s).intentional_close ≡ s.intentional_close)
unfolding attach clear_timer
attach_fields sid s = ground arith

pub on_close-attach :
    (code : ℕ) (s : Term)
    → code ≢ 1008
    → is_stale s ≡ true
    → on_close code s
      ≡ attach [] (record s {
        ws = set_phase closed s.ws;
        status = disconnected code;
        current_sid = some [];
      })
unfolding on_close
on_close-attach code s ne stale = simp (not_1008 code ne, is_confirmed-set_phase closed s.ws, stale)

-- A close that leads to waiting: one timeout is scheduled, for the id that the page keeps.
pub on_close-waits :
    (code : ℕ) (s : Term)
    → code ≢ 1008
    → is_stale s ≡ false
    → s.intentional_close ≡ false
    → s.reconnect_attempts < 6
    → ((on_close code s).ws ≡ set_phase closed s.ws)
      × ((on_close code s).timers
          ≡ s.timers
            ++ (record {
              id = s.next_timer;
              sid = sid_text s.current_sid;
              delay = backoff s.reconnect_attempts;
            }
                ∷ []))
      × ((on_close code s).reconnect_timer ≡ some s.next_timer)
      × ((on_close code s).current_sid ≡ s.current_sid)
unfolding on_close schedule_reconnect
on_close-waits code s ne fresh on left =
    let more : leb 6 s.reconnect_attempts ≡ false = ground arith in
    (
      simp (not_1008 code ne, is_confirmed-set_phase closed s.ws, fresh, on, more),
      simp (not_1008 code ne, is_confirmed-set_phase closed s.ws, fresh, on, more),
      simp (not_1008 code ne, is_confirmed-set_phase closed s.ws, fresh, on, more),
      simp (not_1008 code ne, is_confirmed-set_phase closed s.ws, fresh, on, more),
    )

-- While reconnecting is not muted and attempts are left, a connection that is not confirmed, while
-- the page keeps a session id, and closes with a code other than 1008, is replaced at once by one
-- that asks for a new session; if that closes unconfirmed too, again not with 1008, the page waits:
-- it schedules one timeout, for a new session again, and opens no socket.
pub stale_session_once :
    (s : Term) (code code' : ℕ)
    → code ≢ 1008
    → code' ≢ 1008
    → s.intentional_close ≡ false
    → s.reconnect_attempts < 6
    → is_stale s ≡ true
    → let t = on_close code s in
      let u = on_close code' t in
      (t.ws ≡ some (record { requested = []; confirmed = false; phase = opening }))
      × (t.next_timer ≡ s.next_timer)
      × (u.ws ≡ some (record { requested = []; confirmed = false; phase = closed }))
      × (u.timers
          ≡ t.timers
            ++ (record { id = t.next_timer; sid = []; delay = backoff s.reconnect_attempts } ∷ []))
stale_session_once s code code' ne ne' on left stale =
    let s' = record s {
      ws = set_phase closed s.ws;
      status = disconnected code;
      current_sid = some [];
    } in
    let (w, c, n, a, i) = attach_fields [] s' in
    let (w', ts, _, _) =
      on_close-waits code' (attach [] s') ne' (simp (w, c)) (i ∙ on) (rw a left) in
    rw (on_close-attach code s ne stale) (w, n, w' ∙ ap (set_phase closed) w, ts ∙ simp (c, a))

attach_timers :
    (sid : Text) (k : ℕ) (s : Term)
    → s.reconnect_timer ≡ some k
    → (attach sid s).timers ≡ without_timer k s.timers
unfolding attach clear_timer
attach_timers sid k s e = ground arith

-- The state after the message that the shell has ended.
abbrev after_exit : Message → Term → Term
after_exit m s = record s {
  reconnect_attempts = s.reconnect_attempts + 1;
  status = reconnecting_in ((backoff s.reconnect_attempts + 500) / 1000);
  timers =
      s.timers
      ++ (record { id = s.next_timer; sid = []; delay = backoff s.reconnect_attempts } ∷ []);
  reconnect_timer = some s.next_timer;
  next_timer = suc s.next_timer;
}

on_message_exit :
    (m : Message) (s : Term)
    → is_ping m ≡ false
    → is_session m ≡ false
    → is_exit m ≡ true
    → s.intentional_close ≡ false
    → s.reconnect_attempts < 5
    → on_message (json m) s ≡ after_exit m s
unfolding on_message on_json schedule_reconnect
on_message_exit m s np ns ex on left =
    let more : leb 6 s.reconnect_attempts ≡ false = ground arith in simp (np, ns, ex, on, more)

kill-attach :
    (s : Term)
    → truthy (sid_text s.current_sid) ≡ true
    → kill_answered true (kill s)
      ≡ attach [] (killed (record s { intentional_close = true; kills = suc s.kills }))
unfolding kill kill_answered
kill-attach s h = simp h

-- The shell of a confirmed session ends: the server says so and closes the connection, not with
-- 1008, while reconnecting is not muted, fewer than five attempts are counted and no timeout waits.
-- Two timeouts are then waiting, one for a new session and one for the session that ended; and
-- after the restart button is pressed and its request has returned, the first still waits.
pub restart_leaves_timeout :
    (m : Message) (s : Term) (code : ℕ)
    → is_ping m ≡ false
    → is_session m ≡ false
    → is_exit m ≡ true
    → code ≢ 1008
    → is_confirmed s.ws ≡ true
    → truthy (sid_text s.current_sid) ≡ true
    → s.intentional_close ≡ false
    → s.reconnect_attempts < 5
    → s.timers ≡ []
    → let t = on_close code (on_message (json m) s) in
      let left_over : Timer = record {
        id = s.next_timer;
        sid = [];
        delay = backoff s.reconnect_attempts;
      } in
      (t.timers
        ≡ left_over
          ∷ record {
            id = suc s.next_timer;
            sid = sid_text s.current_sid;
            delay = backoff (s.reconnect_attempts + 1);
          }
          ∷ [])
      × ((kill_answered true (kill t)).timers ≡ left_over ∷ [])
restart_leaves_timeout m s code np ns ex ne ok has_sid on left idle =
    let x = after_exit m s in
    let (_, ts, timer, sid) =
      on_close-waits code x ne (ground (arith, ok, has_sid)) on (omega arith) in
    let t = on_close code x in
    let stopped =
      attach_timers [] (suc s.next_timer)
        (killed (record t { intentional_close = true; kills = suc t.kills })) timer in
    let both : Timer → Timer → List Timer → List Timer = λ a b l. (l ++ (a ∷ [])) ++ (b ∷ []) in
    let two =
      ts
      ∙ ap
          (both (record { id = s.next_timer; sid = []; delay = backoff s.reconnect_attempts })
            (record {
              id = suc s.next_timer;
              sid = sid_text s.current_sid;
              delay = backoff (s.reconnect_attempts + 1);
            }))
          idle in
    rw (on_message_exit m s np ns ex on left) (
      two,
      rw (kill-attach t (rw sid has_sid))
          (stopped ∙ ap (without_timer (suc s.next_timer)) two ∙ ground arith),
    )
