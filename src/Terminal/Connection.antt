-- ===== src/Terminal/Connection.antt =====
-- The connection of the terminal, `mountTerminal` of web/src/terminal.js: attaching to a session,
-- the WebSocket's handlers, reconnecting with a delay, and restarting the session.
use claude_docker.Common.{
  ℕ, suc, ◌+◌, ◌*◌, ◌/◌, ◌^◌, min, pred, Bool, true, false, not, ◌&&◌, Option, none, some, List, [],
  ◌∷◌, ◌++◌, take, filter, if◌then◌else◌, leb, ◌==◌,
}
use claude_docker.Text.{Text, codes, truthy, text_eq}
use claude_docker.Terminal.State.{
  Event, Frame, Message, Phase, Sent, Session, Socket, Term, Timer, binary, closed, closed_with,
  connecting_status, disconnected, ended, expired, giving_up, in_session, input, json, kill_clicked,
  kill_returns, live, not_json, opened, opening, pasted, received, reconnecting_in, resize, resized,
  sessions_listed, timer_fires, typed, was_reset, wrote,
}

-- `sid || ""`
abbrev pub sid_text : Option Text → Text
sid_text none = []
sid_text (some sid) = sid

abbrev pub without_timer : ℕ → List Timer → List Timer
without_timer k ts = filter (λ (t : Timer). not (t.id == k)) ts

-- `if (reconnectTimer) { clearTimeout(reconnectTimer); reconnectTimer = null; }`
unfoldable pub clear_timer : Term → Term
clear_timer s = elim s.reconnect_timer [
  | none ↦ s
  | some k ↦ record s { timers = without_timer k s.timers; reconnect_timer = none }
]

-- attach(sid)
unfoldable pub attach : Text → Term → Term
attach sid s =
    let t = clear_timer s in
    record t {
      current_sid = some sid;
      ws = some (record { requested = sid; confirmed = false; phase = opening });
      status = connecting_status;
    }

-- `Math.min(30000, 1000 * Math.pow(2, reconnectAttempts))`
abbrev pub backoff : ℕ → ℕ
backoff attempts = min 30000 (1000 * 2 ^ attempts)

-- scheduleReconnect(sid)
unfoldable pub schedule_reconnect : Text → Term → Term
schedule_reconnect sid s =
    if s.intentional_close
    then s
    else if leb 6 s.reconnect_attempts
    then record s { status = giving_up }
    else record s {
      reconnect_attempts = s.reconnect_attempts + 1;
      status = reconnecting_in ((backoff s.reconnect_attempts + 500) / 1000);
      timers =
          s.timers
          ++ (record { id = s.next_timer; sid = sid; delay = backoff s.reconnect_attempts } ∷ []);
      reconnect_timer = some s.next_timer;
      next_timer = suc s.next_timer;
    }

-- `ws && ws.readyState === ws.OPEN`
abbrev pub is_open : Option Socket → Bool
is_open none = false
is_open (some w) = elim w.phase [ opening ↦ false | live ↦ true | closed ↦ false ]

unfoldable pub send : Sent → Term → Term
send m s = if is_open s.ws then record s { sent = s.sent ++ (m ∷ []) } else s

-- pasteClipboard(), when the clipboard has been read.
unfoldable pub paste : Text → Term → Term
paste text s = if truthy text then send (input text) s else s

abbrev pub set_phase : Phase → Option Socket → Option Socket
set_phase p none = none
set_phase p (some w) = some (record w { phase = p })

abbrev pub confirm : Option Socket → Option Socket
confirm none = none
confirm (some w) = some (record w { confirmed = true })

abbrev pub is_confirmed : Option Socket → Bool
is_confirmed none = false
is_confirmed (some w) = w.confirmed

-- ws.onopen, when the browser has made the socket open.
unfoldable pub on_open : Term → Term
on_open s =
    send (resize s.cols s.rows) (record s { reconnect_attempts = 0; ws = set_phase live s.ws })

-- `m.exitCode ?? "?"`
abbrev pub exit_text : Option Text → Text
exit_text none = codes "?"
exit_text (some code) = code

abbrev pub is_ping : Message → Bool
is_ping m = text_eq m.type (codes "ping")

abbrev pub is_session : Message → Bool
is_session m = text_eq m.type (codes "session") && truthy m.id

abbrev pub is_exit : Message → Bool
is_exit m = text_eq m.type (codes "pty-exit")

-- The branches of ws.onmessage for a text frame that parses.
unfoldable pub on_json : Message → Term → Term
on_json m s =
    if is_ping m
    then s
    else if is_session m
    then record s { ws = confirm s.ws; current_sid = some m.id; status = in_session (take 8 m.id) }
    else if is_exit m
    then schedule_reconnect [] (record s { status = ended (exit_text m.exit_code) })
    else s

-- ws.onmessage
unfoldable pub on_message : Frame → Term → Term
on_message (binary bytes) s = record s { written = s.written ++ (wrote bytes ∷ []) }
on_message (json m) s = on_json m s
on_message not_json s = s

-- `currentSID && !sessionConfirmed`
abbrev pub is_stale : Term → Bool
is_stale s = truthy (sid_text s.current_sid) && not (is_confirmed s.ws)

-- ws.onclose, given ev.code. (The browser has closed the socket before.)
unfoldable pub on_close : ℕ → Term → Term
on_close code s =
    let t = record s { ws = set_phase closed s.ws; status = disconnected code } in
    if code == 1008
    then record t { status = expired }
    else if is_stale t
    then attach [] (record t { current_sid = some [] })
    else schedule_reconnect (sid_text t.current_sid) t

-- The callback of a timeout.
unfoldable pub on_timer : Timer → Term → Term
on_timer t s = attach t.sid (record s { timers = without_timer t.id s.timers })

-- onclick of kill-sess up to its `await`.
unfoldable pub kill : Term → Term
kill s =
    if truthy (sid_text s.current_sid)
    then record s { intentional_close = true; kills = suc s.kills }
    else attach [] s

-- `currentSID = null; term.reset();` and `finally`.
abbrev pub killed : Term → Term
killed s = record s {
  intentional_close = false;
  current_sid = none;
  kills = pred s.kills;
  written = s.written ++ (was_reset ∷ []);
}

-- The rest of it: `fetch` returned (true), or threw (false) and the exception leaves the handler
-- through `finally`.
unfoldable pub kill_answered : Bool → Term → Term
kill_answered false s = record s { intentional_close = false; kills = pred s.kills }
kill_answered true s = attach [] (killed s)

-- The id with which the page attaches first: `none` is an answer that threw or was null.
unfoldable pub alive_id : List Session → Text
alive_id [] = []
alive_id (x ∷ xs) = let rest = alive_id xs in if x.alive then x.id else rest

abbrev pub first_sid : Option (List Session) → Text
first_sid none = []
first_sid (some xs) = alive_id xs

unfoldable pub handle : Event → Term → Term
handle (sessions_listed answer) s = attach (first_sid answer) s
handle opened s = on_open s
handle (received f) s = on_message f s
handle (closed_with code) s = on_close code s
handle (timer_fires t) s = on_timer t s
handle kill_clicked s = kill s
handle (kill_returns ok) s = kill_answered ok s
handle (typed d) s = send (input d) s
handle (pasted text) s = paste text s
handle (resized c r) s = send (resize c r) (record s { cols = c; rows = r })

abbrev pub run : List Event → Term → Term
run [] s = s
run (e ∷ es) s = run es (handle e s)
