-- ===== src/Terminal/Progress.antt =====
-- The page does not get stuck: it is connected or will connect by itself, unless it says that it has
-- given up or was rejected, or a restart has failed.
use claude_docker.Common.{
  ℕ, ◌<◌, Bool, true, false, ◌||◌, Option, none, some, List, [], ◌∷◌, ◌++◌, ◌≡◌, ◌≢◌, refl, arith,
  if_ind, ltb, leb, ◌==◌,
}
use claude_docker.Text.{Text, truthy}
use claude_docker.Terminal.State.{
  Term, Timer, Sent, Socket, Status, Event, sessions_listed, opened, received, closed_with,
  timer_fires, kill_clicked, kill_returns, typed, pasted, resized, binary, json, not_json, Message,
  closed, opening, live, giving_up, expired, disconnected,
}
use claude_docker.Terminal.Connection.{
  paste, handle, schedule_reconnect, attach, on_open, on_message, on_close, on_json, on_timer, kill,
  kill_answered, send, is_ping, is_session, is_exit, is_stale, sid_text, set_phase, confirm,
  backoff,
}
use claude_docker.Terminal.Invariant.{HasPhase, Possible, IsCoherent, handle-IsCoherent}

-- The socket is connecting or open.
abbrev pub is_up : Option Socket → Bool
is_up none = false
is_up (some w) = elim w.phase [ opening ↦ true | live ↦ true | closed ↦ false ]

abbrev pub any_timer : List Timer → Bool
any_timer [] = false
any_timer (t ∷ ts) = true

-- The status line says that the page will not connect again.
abbrev pub has_stopped : Status → Bool
has_stopped giving_up = true
has_stopped expired = true
has_stopped _ = false

-- Something is under way, or the page has said that it stops.
abbrev pub is_moving : Term → Bool
is_moving s = is_up s.ws || any_timer s.timers || ltb 0 s.kills || has_stopped s.status

abbrev pub Moves : Term → Type 0
Moves s = is_moving s ≡ true

any_timer-append : (ts : List Timer) (t : Timer) → any_timer (ts ++ (t ∷ [])) ≡ true
any_timer-append [] t = refl
any_timer-append (x ∷ ts) t = refl

pub attach-Moves : (sid : Text) (s : Term) → Moves (attach sid s)
unfolding attach
attach-Moves sid s = refl

schedule-Moves :
    (sid : Text) (s : Term)
    → (s.intentional_close ≡ true → 0 < s.kills)
    → Moves (schedule_reconnect sid s)
unfolding schedule_reconnect
schedule-Moves sid s muted =
    if_ind Moves s.intentional_close (λ on. ground (arith, muted on))
      λ _.
        if_ind Moves (leb 6 s.reconnect_attempts) (λ _. ground arith)
          (λ _. ground (
            arith,
            any_timer-append s.timers
                (record { id = s.next_timer; sid = sid; delay = backoff s.reconnect_attempts }),
          ))

send-Moves : (m : Sent) (s : Term) → Moves s → Moves (send m s)
unfolding send
send-Moves m s v = ground arith

on_close-Moves :
    (code : ℕ) (s : Term) → (s.intentional_close ≡ true → 0 < s.kills) → Moves (on_close code s)
unfolding on_close
on_close-Moves code s muted =
    let t = record s { ws = set_phase closed s.ws; status = disconnected code } in
    if_ind Moves (code == 1008) (λ _. ground arith)
      λ _.
        if_ind Moves (is_stale t) (λ _. attach-Moves [] (record t { current_sid = some [] }))
          (λ _. schedule-Moves (sid_text t.current_sid) t muted)

is_up-HasPhase : (w : Option Socket) → HasPhase live w → is_up w ≡ true
is_up-HasPhase none p = absurd p
is_up-HasPhase (some w) p = rw p

is_up-confirm : (w : Option Socket) → is_up (confirm w) ≡ is_up w
is_up-confirm none = refl
is_up-confirm (some w) = refl

is_up_live : (w : Option Socket) → HasPhase opening w → is_up (set_phase live w) ≡ true
is_up_live none p = absurd p
is_up_live (some w) p = refl

on_json-Moves :
    (m : Message) (s : Term)
    → is_up s.ws ≡ true
    → (s.intentional_close ≡ true → 0 < s.kills)
    → Moves (on_json m s)
unfolding on_json
on_json-Moves m s up muted =
    if_ind Moves (is_ping m) (λ _. ground arith)
      λ _.
        if_ind Moves (is_session m) (λ _. ground (arith, is_up-confirm s.ws))
          λ _. if_ind Moves (is_exit m) (λ _. schedule-Moves [] _ muted) (λ _. ground arith)

kill-Moves : (s : Term) → Moves (kill s)
unfolding kill
kill-Moves s =
    if_ind Moves (truthy (sid_text s.current_sid)) (λ _. ground arith) (λ _. attach-Moves [] s)

-- Every event but a restart whose request throws keeps the page moving.
pub handle-Moves :
    (e : Event) (s : Term)
    → e ≢ kill_returns false
    → Possible e s
    → IsCoherent s
    → Moves s
    → Moves (handle e s)
unfolding handle on_open on_message on_timer kill_answered paste
handle-Moves (sessions_listed answer) s ne p v m = attach-Moves _ s
handle-Moves opened s ne p v m = send-Moves _ _ (ground (arith, is_up_live s.ws p))
handle-Moves (received (binary bytes)) s ne p v m = m
handle-Moves (received (json msg)) s ne p v m = on_json-Moves msg s (is_up-HasPhase s.ws p) v.muted
handle-Moves (received not_json) s ne p v m = m
handle-Moves (closed_with code) s ne p v m = on_close-Moves code s v.muted
handle-Moves (timer_fires t) s ne p v m = attach-Moves t.sid _
handle-Moves kill_clicked s ne p v m = kill-Moves s
handle-Moves (kill_returns false) s ne p v m = absurd (ne refl)
handle-Moves (kill_returns true) s ne p v m = attach-Moves [] _
handle-Moves (typed d) s ne p v m = send-Moves _ s m
handle-Moves (pasted []) s ne p v m = m
handle-Moves (pasted (c ∷ d)) s ne p v m = send-Moves _ s m
handle-Moves (resized c r) s ne p v m = send-Moves _ _ m

-- Events that the browser can deliver, with no restart whose request throws.
pub data Smooth (s : Term) : Term → Type 0 where
  smooth_here : Smooth s s
  smooth_next :
      {t : Term}
      → Smooth s t
      → (e : Event) → e ≢ kill_returns false
      → Possible e t
      → Smooth s (handle e t)

pub Smooth-Moves : {s t : Term} → IsCoherent s → Moves s → Smooth s t → IsCoherent t × Moves t
Smooth-Moves v m smooth_here = (v, m)
Smooth-Moves v m (smooth_next q e ne p) =
    let (w, n) = Smooth-Moves v m q in (handle-IsCoherent e _ p w, handle-Moves e _ ne p w n)
