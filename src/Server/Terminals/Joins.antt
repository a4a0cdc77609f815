-- ===== src/Server/Terminals/Joins.antt =====
-- What handleTerminalWS of backend/internal/server/terminal.go gives a page that connects, and that two
-- attempts are enough.
use claude_docker.Common.{
  ℕ, true, false, some, [], ◌==◌, ◌≡◌, ◌⊎◌, inl, inr, refl, sym, subst, arith,
}
use claude_docker.Text.{Text, truthy}
use claude_docker.Terminal.State.{Term, opening, opened, closed_with}
use claude_docker.Terminal.Connection.{handle, attach, is_confirmed, is_stale}
use claude_docker.Terminal.Closing.{on_close-attach}
use claude_docker.Terminal.Invariant.{HasPhase}
use claude_docker.Terminal.Recovery.{IsAttached, session-IsAttached, opened-live}
use claude_docker.Server.Sessions.{connects}
use claude_docker.Server.Sessions.Steps.{IsMatched, Possible}
use claude_docker.Server.Terminals.{
  id_text, Ensured, ensure_session, World, requested, session_message, answered, handle_terminal,
  handshake_fails,
}
use claude_docker.Server.Terminals.Served.{
  IsServed, IsFull, ensure-Outcome, message_names, message_not_ping,
}

-- The page has asked for the session that it keeps, and has no answer yet.
pub record IsConnecting (t : Term) : Type 0 where
  pub phase : HasPhase opening t.ws
  pub unsure : is_confirmed t.ws ≡ false
  pub same : t.current_sid ≡ some (requested t.ws)

-- The page is attached to a session that the server serves.
pub record HasJoined (v : ℕ) (w : World) : Type 0 where
  pub id : ℕ
  pub attached : IsAttached (id_text id) w.page
  pub served : IsServed v id w.pool

pub accepted-IsAttached :
    (r : Ensured) (t : Term)
    → r.status ≡ 200
    → HasPhase opening t.ws
    → IsAttached (id_text r.id) (answered r t).page
accepted-IsAttached r t ok h = rw ok (
    session-IsAttached (session_message r.id) (handle opened t) (message_not_ping r.id)
      (message_names r.id) (opened-live t h))

pub IsConnecting-stale :
    (t : Term) → IsConnecting t → truthy (requested t.ws) ≡ true → is_stale t ≡ true
IsConnecting-stale t c named = rw (c.same, c.unsure, named) refl

pub attach-IsConnecting : (sid : Text) (t : Term) → IsConnecting (attach sid t)
unfolding attach
attach-IsConnecting sid t = record { phase = refl; unsure = refl; same = refl }

pub requested-attach : (sid : Text) (t : Term) → requested (attach sid t).ws ≡ sid
unfolding attach
requested-attach sid t = refl

-- A handshake that fails makes the page ask at once for a new session, if it asked for one before.
pub refused_once :
    (t : Term)
    → IsConnecting t
    → truthy (requested t.ws) ≡ true
    → IsConnecting (handle (closed_with 1006) t) × (requested (handle (closed_with 1006) t).ws ≡ [])
unfolding handle
refused_once t c named =
    rw (on_close-attach 1006 t (λ e. omega (arith, e)) (IsConnecting-stale t c named))
      (attach-IsConnecting [] _, requested-attach [] _)

pub refused_world :
    (r : Ensured) (w : World)
    → (r.status == 200) ≡ false
    → r.pool ≡ w.pool
    → answered r w.page ≡ handshake_fails w
unfolding handshake_fails
refused_world r w refused same = rw (refused, same) refl

joins_or_IsFull :
    (cap v fresh now : ℕ) (w : World)
    → IsConnecting w.page
    → requested w.page.ws ≡ []
    → IsMatched w.pool
    → Possible (connects v fresh now) w.pool
    → HasJoined v (handle_terminal (some v) cap fresh now w) ⊎ IsFull cap v w.pool
unfolding handle_terminal
joins_or_IsFull cap v fresh now w c nothing m p =
    let r = ensure_session cap v fresh now (requested w.page.ws) w.pool in
    elim (ensure-Outcome cap v fresh now (requested w.page.ws) w.pool p m) [
      | inl (ok, served) ↦ inl (record {
        id = r.id;
        attached = accepted-IsAttached r w.page ok c.phase;
        served = served;
      })
      | inr (refused, same, inr full) ↦ inr full
      | inr (refused, same, inl named) ↦ absurd (unnamed named)
    ]
  where
    unnamed : ¬ (truthy (requested w.page.ws) ≡ true)
    unnamed h = cc

-- A page that connects is attached to a session of the user, at the first attempt or at the one for a
-- new session that follows it, and then the session has a PTY in the map, its process runs and its row
-- is alive; or as many sessions of the user are alive as the limit allows. The map and the table are
-- to say the same at first, and the ids that the server draws are to be new.
pub connects_or_IsFull :
    (cap v fresh fresh' now now' : ℕ) (w : World)
    → IsConnecting w.page
    → IsMatched w.pool
    → Possible (connects v fresh now) w.pool
    → Possible (connects v fresh' now') w.pool
    → let first = handle_terminal (some v) cap fresh now w in
      let second = handle_terminal (some v) cap fresh' now' first in
      HasJoined v first ⊎ HasJoined v second ⊎ IsFull cap v w.pool
unfolding handle_terminal handshake_fails
connects_or_IsFull cap v fresh fresh' now now' w c m p p' =
    let r = ensure_session cap v fresh now (requested w.page.ws) w.pool in
    elim (ensure-Outcome cap v fresh now (requested w.page.ws) w.pool p m) [
      | inl (ok, served) ↦ inl (record {
        id = r.id;
        attached = accepted-IsAttached r w.page ok c.phase;
        served = served;
      })
      | inr (refused, same, inr full) ↦ inr (inr full)
      | inr (refused, same, inl named) ↦ inr (
          subst
            (λ (x : World).
              HasJoined v (handle_terminal (some v) cap fresh' now' x) ⊎ IsFull cap v w.pool)
            (sym (refused_world r w refused same)) (again named))
    ]
  where
    again :
        truthy (requested w.page.ws) ≡ true
        → HasJoined v (handle_terminal (some v) cap fresh' now' (handshake_fails w))
          ⊎ IsFull cap v w.pool
    again named =
        let (c', nothing) = refused_once w.page c named in
        joins_or_IsFull cap v fresh' now' (handshake_fails w) c' nothing m p'
