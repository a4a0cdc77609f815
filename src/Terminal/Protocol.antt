-- ===== src/Terminal/Protocol.antt =====
-- What a connection of web/src/terminal.js may do, as a state machine.
pub mod Sockets
pub mod Fresh
pub mod Follows
use claude_docker.Common.{
  [], ◌∷◌, ℕ, ◌<◌, true, false, not, ◌&&◌, List, ◌≡◌, ◌≢◌, ◌⊎◌, inl, inr, refl, arith, Option, none,
  some, if_ind, if◌then◌else◌, ◌==◌, ==_iff, leb, Bool, Bool-cases, sym, ap, ◌∙◌, subst,
}
use claude_docker.Text.{Text, truthy}
use claude_docker.Terminal.State.{
  Term, Sent, Socket, Event, sessions_listed, opened, received, closed_with, timer_fires,
  kill_clicked, kill_returns, typed, pasted, resized, Frame, binary, json, not_json, Message,
  closed, opening, live, disconnected, Phase, ended, resize, expired, new,
}
use claude_docker.Terminal.Connection.{
  paste, handle, schedule_reconnect, attach, clear_timer, on_open, on_message, on_close, on_json,
  on_timer, kill, kill_answered, send, first_sid, exit_text, is_ping, is_session, is_exit, is_stale,
  sid_text, set_phase, is_open, confirm, is_confirmed,
}
use claude_docker.Terminal.Invariant.{
  HasPhase, Possible, IsCoherent, SidMatches, Reach, here, next, event, Reach-IsCoherent,
  new-IsCoherent,
}

-- Where a connection stands: none was made yet; one is being made or is open, for the session asked
-- for; the server has confirmed a session on it; or it is closed.
pub data Link : Type 0 where
  unlinked : Link
  opening_for : Text → Link
  open_for : Text → Link
  in_session : Text → Link
  lost : Link

abbrev pub link_of : Option Socket → Option Text → Link
link_of none sid = unlinked
link_of (some w) sid = elim w.phase [
  | opening ↦ opening_for w.requested
  | live ↦ if w.confirmed then in_session (sid_text sid) else open_for w.requested
  | closed ↦ lost
]

abbrev pub link : Term → Link
link s = link_of s.ws s.current_sid

-- The event makes a new connection, for this session: the first one that lives, the one that the
-- timeout was made with, or none after a restart.
abbrev pub AsksFor : Event → Text → Type 0
AsksFor (sessions_listed answer) sid = sid ≡ first_sid answer
AsksFor (timer_fires t) sid = sid ≡ t.sid
AsksFor kill_clicked sid = sid ≡ []
AsksFor (kill_returns true) sid = sid ≡ []
AsksFor _ sid = ⊥

-- Events that may leave the connection as it is: a restart does until its request returns.
abbrev pub LeavesLink : Event → Type 0
LeavesLink kill_clicked = Unit
LeavesLink (kill_returns false) = Unit
LeavesLink (typed _) = Unit
LeavesLink (pasted _) = Unit
LeavesLink (resized _ _) = Unit
LeavesLink (received (binary _)) = Unit
LeavesLink (received not_json) = Unit
LeavesLink (received (json m)) = (is_ping m ≡ true) ⊎ (is_session m ≡ false)
LeavesLink _ = ⊥

-- What may happen to a connection.
pub data Transition : Link → Event → Link → Type 0 where
  attaches : (l : Link) (e : Event) (sid : Text) → AsksFor e sid → Transition l e (opening_for sid)
  opens : (sid : Text) → Transition (opening_for sid) opened (open_for sid)
  confirms :
      (sid : Text) (m : Message)
      → is_session m ≡ true
      → Transition (open_for sid) (received (json m)) (in_session m.id)
  changes :
      (id : Text) (m : Message)
      → is_session m ≡ true
      → Transition (in_session id) (received (json m)) (in_session m.id)
  keeps : (l : Link) (e : Event) → LeavesLink e → Transition l e l
  retries :
      (sid : Text) (code : ℕ)
      → code ≢ 1008
      → truthy sid ≡ true
      → Transition (opening_for sid) (closed_with code) (opening_for [])
  retries_open :
      (sid : Text) (code : ℕ)
      → code ≢ 1008
      → truthy sid ≡ true
      → Transition (open_for sid) (closed_with code) (opening_for [])
  gives_up :
      (sid : Text) (code : ℕ)
      → (code ≡ 1008) ⊎ (truthy sid ≡ false)
      → Transition (opening_for sid) (closed_with code) lost
  gives_up_open :
      (sid : Text) (code : ℕ)
      → (code ≡ 1008) ⊎ (truthy sid ≡ false)
      → Transition (open_for sid) (closed_with code) lost
  loses : (id : Text) (code : ℕ) → Transition (in_session id) (closed_with code) lost

-- A socket that is opening has not been confirmed.
abbrev pub IsFresh : Option Socket → Type 0
IsFresh none = Unit
IsFresh (some w) = w.phase ≡ opening → w.confirmed ≡ false

-- The session id is to be dropped.
abbrev pub stale_at : Option Socket → Option Text → Bool
stale_at w sid = truthy (sid_text sid) && not (is_confirmed w)

abbrev pub IsUp : Option Socket → Type 0
IsUp w = HasPhase opening w ⊎ HasPhase live w
