-- ===== src/Terminal/Invariant.antt =====
-- What holds in every state of the page that can be reached: the session id that the page keeps
-- belongs to its socket, and the close handler is muted only while the restart button waits.
use claude_docker.Common.{
  [], ◌∷◌, ℕ, ◌<◌, true, false, [], ◌≡◌, ◌⊎◌, arith, Option, none, some, if_ind, ◌==◌, leb,
}
use mathlib.Core.List.{Memᴰ}
use claude_docker.Text.{Text, truthy}
use claude_docker.Terminal.State.{
  Term, Sent, Socket, Event, sessions_listed, opened, received, closed_with, timer_fires,
  kill_clicked, kill_returns, typed, pasted, resized, binary, json, not_json, Message, new, closed,
  opening, live, disconnected, Phase,
}
use claude_docker.Terminal.Connection.{
  paste, handle, schedule_reconnect, attach, clear_timer, on_open, on_message, on_close, on_json,
  on_timer, kill, kill_answered, send, is_ping, is_session, is_exit, is_stale, sid_text, set_phase,
  is_open, confirm,
}

abbrev pub HasPhase : Phase → Option Socket → Type 0
HasPhase p none = ⊥
HasPhase p (some w) = w.phase ≡ p

-- When the browser can deliver an event: messages come from an open socket, a socket opens and
-- closes once, a timeout fires if it waits, and an answer belongs to a request.
abbrev pub Possible : Event → Term → Type 0
Possible (sessions_listed _) s = Unit
Possible opened s = HasPhase opening s.ws
Possible (received _) s = HasPhase live s.ws
Possible (closed_with _) s = HasPhase opening s.ws ⊎ HasPhase live s.ws
Possible (timer_fires t) s = Memᴰ t s.timers
Possible kill_clicked s = Unit
Possible (kill_returns _) s = 0 < s.kills
Possible (typed _) s = Unit
Possible (pasted _) s = Unit
Possible (resized _ _) s = Unit

pub data Step (s : Term) : Term → Type 0 where
  event : (e : Event) → Possible e s → Step s (handle e s)

pub data Reach (s : Term) : Term → Type 0 where
  here : Reach s s
  next : {t u : Term} → Reach s t → Step t u → Reach s u

-- The id of a page without socket is null; until the server confirms the session, it is the id that
-- the socket asked for; and from then on it is an id.
abbrev pub SidMatches : Option Socket → Option Text → Type 0
SidMatches none sid = sid ≡ none
SidMatches (some w) sid =
    (w.confirmed ≡ false → sid ≡ some w.requested)
    × (w.confirmed ≡ true → truthy (sid_text sid) ≡ true)

pub record IsCoherent (s : Term) : Type 0 where
  pub sid : SidMatches s.ws s.current_sid
  pub muted : s.intentional_close ≡ true → 0 < s.kills

attach-IsCoherent :
    (sid : Text) (s : Term) → (s.intentional_close ≡ true → 0 < s.kills) → IsCoherent (attach sid s)
unfolding attach clear_timer
attach-IsCoherent sid s h = ground arith

schedule-IsCoherent : (sid : Text) (s : Term) → IsCoherent s → IsCoherent (schedule_reconnect sid s)
unfolding schedule_reconnect
schedule-IsCoherent sid s v =
    if_ind IsCoherent s.intentional_close (λ _. v)
      λ _.
        if_ind IsCoherent (leb 6 s.reconnect_attempts)
          (λ _. record { sid = v.sid; muted = v.muted })
          (λ _. record { sid = v.sid; muted = v.muted })

send-IsCoherent : (m : Sent) (s : Term) → IsCoherent s → IsCoherent (send m s)
unfolding send
send-IsCoherent m s v =
    if_ind IsCoherent (is_open s.ws) (λ _. record { sid = v.sid; muted = v.muted }) (λ _. v)

set_phase-SidMatches :
    (p : Phase) (w : Option Socket) (sid : Option Text)
    → SidMatches w sid
    → SidMatches (set_phase p w) sid
set_phase-SidMatches p none sid h = h
set_phase-SidMatches p (some w) sid h = h

confirm-SidMatches :
    (w : Option Socket) (sid : Text)
    → HasPhase live w
    → truthy sid ≡ true
    → SidMatches (confirm w) (some sid)
confirm-SidMatches none sid p h = absurd p
confirm-SidMatches (some w) sid p h = (λ e. cc, λ _. h)

on_json-IsCoherent :
    (m : Message) (s : Term) → HasPhase live s.ws → IsCoherent s → IsCoherent (on_json m s)
unfolding on_json
on_json-IsCoherent m s p v =
    if_ind IsCoherent (is_ping m) (λ _. v)
      λ _.
        if_ind IsCoherent (is_session m)
          (λ h. record { sid = confirm-SidMatches s.ws m.id p (ground arith); muted = v.muted })
          λ _.
            if_ind IsCoherent (is_exit m)
              (λ _. schedule-IsCoherent [] _ (record { sid = v.sid; muted = v.muted })) (λ _. v)

on_close-IsCoherent : (code : ℕ) (s : Term) → IsCoherent s → IsCoherent (on_close code s)
unfolding on_close
on_close-IsCoherent code s v =
    let t = record s { ws = set_phase closed s.ws; status = disconnected code } in
    let sid = set_phase-SidMatches closed s.ws s.current_sid v.sid in
    let w : IsCoherent t = record { sid = sid; muted = v.muted } in
    if_ind IsCoherent (code == 1008) (λ _. record { sid = sid; muted = v.muted })
      λ _.
        if_ind IsCoherent (is_stale t) (λ _. attach-IsCoherent [] _ v.muted)
          (λ _. schedule-IsCoherent _ t w)

kill-IsCoherent : (s : Term) → IsCoherent s → IsCoherent (kill s)
unfolding kill
kill-IsCoherent s v =
    if_ind IsCoherent (truthy (sid_text s.current_sid))
      (λ _. record { sid = v.sid; muted = λ _. omega arith }) (λ _. attach-IsCoherent [] s v.muted)

pub handle-IsCoherent :
    (e : Event) (s : Term) → Possible e s → IsCoherent s → IsCoherent (handle e s)
unfolding handle on_open on_message on_timer kill_answered paste
handle-IsCoherent (sessions_listed answer) s p v = attach-IsCoherent _ s v.muted
handle-IsCoherent opened s p v =
    send-IsCoherent _ _
      (record { sid = set_phase-SidMatches live s.ws s.current_sid v.sid; muted = v.muted })
handle-IsCoherent (received (binary bytes)) s p v = record { sid = v.sid; muted = v.muted }
handle-IsCoherent (received (json m)) s p v = on_json-IsCoherent m s p v
handle-IsCoherent (received not_json) s p v = v
handle-IsCoherent (closed_with code) s p v = on_close-IsCoherent code s v
handle-IsCoherent (timer_fires t) s p v = attach-IsCoherent _ _ v.muted
handle-IsCoherent kill_clicked s p v = kill-IsCoherent s v
handle-IsCoherent (kill_returns false) s p v = record { sid = v.sid; muted = λ h. cc }
handle-IsCoherent (kill_returns true) s p v = attach-IsCoherent [] _ (λ h. cc)
handle-IsCoherent (typed d) s p v = send-IsCoherent _ s v
handle-IsCoherent (pasted []) s p v = v
handle-IsCoherent (pasted (c ∷ d)) s p v = send-IsCoherent _ s v
handle-IsCoherent (resized c r) s p v =
    send-IsCoherent _ _ (record { sid = v.sid; muted = v.muted })

-- In every state that the page can reach from a state with these properties, the id that the page
-- keeps is null without a socket, the id that the
-- socket asked for until the session is confirmed, and not empty from then on; and reconnecting is
-- muted only while a request of the restart button waits for its answer.
pub Reach-IsCoherent : {s t : Term} → IsCoherent s → Reach s t → IsCoherent t
Reach-IsCoherent v here = v
Reach-IsCoherent v (next r (event e p)) = handle-IsCoherent e _ p (Reach-IsCoherent v r)

pub new-IsCoherent : (cols rows : ℕ) → IsCoherent (new cols rows)
unfolding new
new-IsCoherent cols rows = ground arith
