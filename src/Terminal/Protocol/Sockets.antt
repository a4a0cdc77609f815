-- ===== src/Terminal/Protocol/Sockets.antt =====
-- The transitions of one socket of web/src/terminal.js, by its phase and its id.
use claude_docker.Common.{
  [], ℕ, true, false, ◌≡◌, ◌≢◌, ◌⊎◌, inl, inr, refl, arith, Option, none, some, Bool-cases, sym,
  ◌∙◌,
}
use claude_docker.Text.{Text, truthy}
use claude_docker.Terminal.State.{
  Term, Sent, Socket, opened, received, closed_with, json, Message, closed, opening, live, Phase,
}
use claude_docker.Terminal.Connection.{
  schedule_reconnect, attach, send, is_session, sid_text, set_phase, confirm,
}
use claude_docker.Terminal.Invariant.{HasPhase, SidMatches}
use claude_docker.Terminal.Protocol.{
  opening_for, lost, link_of, link, Transition, opens, confirms, changes, retries, retries_open,
  gives_up, gives_up_open, loses, IsFresh, stale_at, IsUp,
}

attach-link : (sid : Text) (s : Term) → link (attach sid s) ≡ opening_for sid
unfolding attach
attach-link sid s = refl

pub schedule-link : (sid : Text) (s : Term) → link (schedule_reconnect sid s) ≡ link s
unfolding schedule_reconnect
schedule-link sid s = ground arith

pub send-link : (m : Sent) (s : Term) → link (send m s) ≡ link s
unfolding send
send-link m s = ground arith

closed-link :
    (w : Option Socket) (p : Phase) (sid : Option Text)
    → HasPhase p w
    → link_of (set_phase closed w) sid ≡ lost
closed-link none p sid h = absurd h
closed-link (some w) p sid h = refl

-- The id kept does not matter while the session is not confirmed, or the connection is closed.
pub opens-Transition :
    (w : Option Socket) (sid : Option Text)
    → IsFresh w
    → HasPhase opening w
    → Transition (link_of w sid) opened (link_of (set_phase live w) sid)
opens-Transition none sid f h = absurd h
opens-Transition (some w) sid f h = rw (h, f h) (opens w.requested)

pub session-Transition :
    (w : Option Socket) (sid : Option Text) (m : Message)
    → HasPhase live w
    → is_session m ≡ true
    → Transition (link_of w sid) (received (json m)) (link_of (confirm w) (some m.id))
session-Transition none sid m h ok = absurd h
session-Transition (some w) sid m h ok = elim (Bool-cases w.confirmed) [
  | inl sure ↦ rw (h, sure) (changes (sid_text sid) m ok)
  | inr fresh ↦ rw (h, fresh) (confirms w.requested m ok)
]

-- Until the session is confirmed, the id that is kept is the one asked for.
unconfirmed_stale :
    (w : Socket) (sid : Option Text)
    → SidMatches (some w) sid
    → w.confirmed ≡ false
    → stale_at (some w) sid ≡ truthy w.requested
unconfirmed_stale w sid v e = elim (Bool-cases (truthy w.requested)) [
  | inl y ↦ rw (v.0 e, e, y) refl
  | inr n ↦ rw (v.0 e, e, n) refl
]

why_lost :
    (w : Socket) (sid : Option Text) (code : ℕ)
    → SidMatches (some w) sid
    → w.confirmed ≡ false
    → (code ≡ 1008) ⊎ (stale_at (some w) sid ≡ false)
    → (code ≡ 1008) ⊎ (truthy w.requested ≡ false)
why_lost w sid code v e (inl bad) = inl bad
why_lost w sid code v e (inr st) = inr (sym (unconfirmed_stale w sid v e) ∙ st)

stale-unconfirmed :
    (w : Socket) (sid : Option Text) → stale_at (some w) sid ≡ true → w.confirmed ≡ false
stale-unconfirmed w sid st = ground arith

pub lost-Transition :
    (w : Option Socket) (sid : Option Text) (code : ℕ)
    → SidMatches w sid
    → IsFresh w
    → IsUp w
    → (code ≡ 1008) ⊎ (stale_at w sid ≡ false)
    → Transition (link_of w sid) (closed_with code) lost
lost-Transition none sid code v f (inl h) why = absurd h
lost-Transition none sid code v f (inr h) why = absurd h
lost-Transition (some w) sid code v f (inl h) why =
    rw h (gives_up w.requested code (why_lost w sid code v (f h) why))
lost-Transition (some w) sid code v f (inr h) why = elim (Bool-cases w.confirmed) [
  | inl sure ↦ rw (h, sure) (loses (sid_text sid) code)
  | inr fresh ↦ rw (h, fresh) (gives_up_open w.requested code (why_lost w sid code v fresh why))
]

pub retry-Transition :
    (w : Option Socket) (sid : Option Text) (code : ℕ)
    → SidMatches w sid
    → IsUp w
    → code ≢ 1008
    → stale_at w sid ≡ true
    → Transition (link_of w sid) (closed_with code) (opening_for [])
retry-Transition none sid code v (inl h) ne st = absurd h
retry-Transition none sid code v (inr h) ne st = absurd h
retry-Transition (some w) sid code v (inl h) ne st =
    let fresh = stale-unconfirmed w sid st in
    rw h (retries w.requested code ne (sym (unconfirmed_stale w sid v fresh) ∙ st))
retry-Transition (some w) sid code v (inr h) ne st =
    let fresh = stale-unconfirmed w sid st in
    rw (h, fresh) (retries_open w.requested code ne (sym (unconfirmed_stale w sid v fresh) ∙ st))

pub stale_at-set_phase :
    (p : Phase) (w : Option Socket) (sid : Option Text)
    → stale_at (set_phase p w) sid ≡ stale_at w sid
stale_at-set_phase p none sid = refl
stale_at-set_phase p (some w) sid = refl

pub up-closed :
    (w : Option Socket) (sid : Option Text) → IsUp w → link_of (set_phase closed w) sid ≡ lost
up-closed w sid (inl h) = closed-link w opening sid h
up-closed w sid (inr h) = closed-link w live sid h
