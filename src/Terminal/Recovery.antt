-- ===== src/Terminal/Recovery.antt =====
-- A page that has not stopped gets a session again without the user, once the server answers.
use claude_docker.Common.{
  true, false, Option, none, some, List, [], ◌∷◌, ◌≡◌, ◌⊎◌, inl, inr, refl, arith, ◌<◌,
}
use mathlib.Core.List.{Memᴰ}
use claude_docker.Text.{Text}
use claude_docker.Terminal.State.{
  Term, Timer, Socket, Session, Event, sessions_listed, opened, received, timer_fires, kill_returns,
  json, Message, closed, opening, live, Phase,
}
use claude_docker.Terminal.Connection.{
  handle, attach, on_open, on_message, on_json, on_timer, kill_answered, send, is_ping, is_session,
  is_confirmed, confirm, set_phase,
}
use claude_docker.Terminal.Invariant.{HasPhase, IsCoherent, handle-IsCoherent}
use claude_docker.Terminal.Rejected.{Quiet, quiet_here, quiet_next}
use claude_docker.Terminal.Progress.{
  Moves, is_up, any_timer, has_stopped, Smooth, Smooth-Moves, attach-Moves,
}

-- The socket is open, and the server has confirmed this session on it.
pub record IsAttached (id : Text) (t : Term) : Type 0 where
  pub up : HasPhase live t.ws
  pub sure : is_confirmed t.ws ≡ true
  pub same : t.current_sid ≡ some id

-- The page can get to a session of this id by events that are not the user's.
abbrev pub CanAttach : Text → Term → Type 0
CanAttach id s = (t : Term) × Quiet s t × IsAttached id t

confirm-HasPhase : (p : Phase) (w : Option Socket) → HasPhase p w → HasPhase p (confirm w)
confirm-HasPhase p none h = absurd h
confirm-HasPhase p (some w) h = h

confirmed_confirm : (p : Phase) (w : Option Socket) → HasPhase p w → is_confirmed (confirm w) ≡ true
confirmed_confirm p none h = absurd h
confirmed_confirm p (some w) h = refl

live_set : (p : Phase) (w : Option Socket) → HasPhase p w → HasPhase live (set_phase live w)
live_set p none h = absurd h
live_set p (some w) h = refl

send-ws : (m : claude_docker.Terminal.State.Sent) (s : Term) → (send m s).ws ≡ s.ws
unfolding send
send-ws m s = ground arith

pub session-IsAttached :
    (m : Message) (s : Term)
    → is_ping m ≡ false
    → is_session m ≡ true
    → HasPhase live s.ws
    → IsAttached m.id (handle (received (json m)) s)
unfolding handle on_message on_json
session-IsAttached m s np is_s h =
    simp (np, is_s)
      (record {
        up = confirm-HasPhase live s.ws h;
        sure = confirmed_confirm live s.ws h;
        same = refl;
      })

pub opened-live : (s : Term) → HasPhase opening s.ws → HasPhase live (handle opened s).ws
unfolding handle on_open
opened-live s h =
    rw
      (send-ws (claude_docker.Terminal.State.resize s.cols s.rows)
        (record s { reconnect_attempts = 0; ws = set_phase live s.ws }))
      (live_set opening s.ws h)

attach-opening : (sid : Text) (s : Term) → HasPhase opening (attach sid s).ws
unfolding attach
attach-opening sid s = refl

up_phase :
    (p : Phase)
    → elim p [ opening ↦ true | live ↦ true | closed ↦ false ] ≡ true
    → (p ≡ opening) ⊎ (p ≡ live)
up_phase opening h = inl refl
up_phase live h = inr refl
up_phase closed h = cc

up_cases : (w : Option Socket) → is_up w ≡ true → HasPhase opening w ⊎ HasPhase live w
up_cases none h = cc
up_cases (some w) h = up_phase w.phase h

moving_cases :
    (t : Term)
    → has_stopped t.status ≡ false
    → Moves t
    → (is_up t.ws ≡ true) ⊎ (any_timer t.timers ≡ true) ⊎ (0 < t.kills)
moving_cases t going moves = ground arith

module _ (m : Message) (np : is_ping m ≡ false) (is_s : is_session m ≡ true) (s : Term) where
  from_live : {t : Term} → Quiet s t → HasPhase live t.ws → CanAttach m.id s
  from_live {t} q h = (
    handle (received (json m)) t,
    quiet_next q (received (json m)) refl h,
    session-IsAttached m t np is_s h,
  )

  from_opening : {t : Term} → Quiet s t → HasPhase opening t.ws → CanAttach m.id s
  from_opening {t} q h = from_live (quiet_next q opened refl h) (opened-live t h)

  from_timer : (ts : List Timer) → s.timers ≡ ts → any_timer ts ≡ true → CanAttach m.id s
  unfolding handle on_timer
  from_timer [] e h = cc
  from_timer (t ∷ ts) e h =
      from_opening (quiet_next quiet_here (timer_fires t) refl (rw e (Memᴰ.head refl)))
        (attach-opening t.sid _)

  from_kill : 0 < s.kills → CanAttach m.id s
  unfolding handle kill_answered
  from_kill h =
      from_opening (quiet_next quiet_here (kill_returns true) refl h) (attach-opening [] _)

  from_socket : is_up s.ws ≡ true → CanAttach m.id s
  from_socket up = elim (up_cases s.ws up) [
    | inl h ↦ from_opening quiet_here h
    | inr h ↦ from_live quiet_here h
  ]

-- Let the page be loaded in a state where its id and its socket belong together, and then live
-- through any events that the browser can deliver, but no restart whose request throws. In the state
-- that it is in then, unless the status line says that it gives up or is rejected, it can get a
-- session again without the user: for every session message that names an id and is no ping, there
-- are deliverable events, none of them the restart button or the start of the page, after which the
-- socket is open, confirmed, and the id kept is the message's.
pub Smooth-recovers :
    (answer : Option (List Session)) (s : Term) {t : Term} (m : Message)
    → IsCoherent s
    → Smooth (handle (sessions_listed answer) s) t
    → has_stopped t.status ≡ false
    → is_ping m ≡ false
    → is_session m ≡ true
    → CanAttach m.id t
unfolding handle
Smooth-recovers answer s {t} m v q going np is_s =
    let (_, moves) =
      Smooth-Moves (handle-IsCoherent (sessions_listed answer) s tt v) (attach-Moves _ s) q in
    elim (moving_cases t going moves) [
      | inl up ↦ from_socket m np is_s t up
      | inr (inl waits) ↦ from_timer m np is_s t t.timers refl waits
      | inr (inr asked) ↦ from_kill m np is_s t asked
    ]
