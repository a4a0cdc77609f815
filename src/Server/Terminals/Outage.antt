-- ===== src/Server/Terminals/Outage.antt =====
-- What one failed handshake costs a terminal page (web/src/terminal.js with
-- backend/internal/server/terminal.go).
use claude_docker.Common.{
  All, All-append, List, ◌∷◌, ℕ, true, false, Option, some, none, [], if_ind, leb, ◌≡◌, ◌≢◌, refl,
  sym, ap, ◌∙◌, arith,
}
use claude_docker.Text.{Text, truthy}
use claude_docker.Terminal.State.{
  Timer, Term, Socket, Phase, closed, opening, closed_with, disconnected, expired,
}
use claude_docker.Terminal.Connection.{
  clear_timer, sid_text, handle, on_close, schedule_reconnect, set_phase, is_stale,
}
use claude_docker.Terminal.Invariant.{HasPhase}
use claude_docker.Terminal.Closing.{on_close-attach}
use claude_docker.Server.Sessions.{Pool, attach, get_live, start}
use claude_docker.Server.Sessions.Views.{get_live-found}
use claude_docker.Server.Sessions.Steps.{IsMatched}
use claude_docker.Server.Sessions.Orphans.{runs-start}
use claude_docker.Server.Terminals.{
  id_text, find_id, known_ids, ensure_session, ensured, World, requested, handle_terminal,
  handshake_fails,
}
use claude_docker.Terminal.Recovery.{IsAttached}
use claude_docker.Server.Terminals.Served.{IsServed, IsFull, create_refused}
use claude_docker.Server.Terminals.Joins.{
  IsConnecting-stale, IsConnecting, accepted-IsAttached, refused_once,
}

-- Each timeout that waits will ask for a new session.
abbrev AsksAnew : List Timer → Type 0
AsksAnew = All (λ (t : Timer). t.sid ≡ [])

-- The connection is closed, and neither the page nor a timeout that waits keeps a session id.
abbrev pub IsForgetful : Term → Type 0
IsForgetful t = HasPhase closed t.ws × (t.current_sid ≡ some []) × AsksAnew t.timers

schedule-IsForgetful :
    (sid : Text) (t : Term) → sid ≡ [] → IsForgetful t → IsForgetful (schedule_reconnect sid t)
unfolding schedule_reconnect
schedule-IsForgetful sid t e (down, kept, anew) =
    if_ind IsForgetful t.intentional_close (λ _. (down, kept, anew))
      λ _.
        if_ind IsForgetful (leb 6 t.reconnect_attempts) (λ _. (down, kept, anew))
          (λ _. (down, kept, All-append (λ (t : Timer). t.sid ≡ []) t.timers _ anew (e, tt)))

closed_set : (p : Phase) (w : Option Socket) → HasPhase p w → HasPhase closed (set_phase closed w)
closed_set p none h = absurd h
closed_set p (some w) h = refl

-- A second handshake that fails leaves the page without an id.
refused_twice :
    (t : Term)
    → IsConnecting t
    → requested t.ws ≡ []
    → AsksAnew t.timers
    → IsForgetful (handle (closed_with 1006) t)
unfolding handle on_close
refused_twice t c nothing anew =
    let u = record t { ws = set_phase closed t.ws; status = disconnected 1006 } in
    let sid : t.current_sid ≡ some [] = c.same ∙ ap some nothing in
    let kept : is_stale u ≡ false = rw sid refl in
    rw kept
      (schedule-IsForgetful _ u (ap sid_text sid) (closed_set opening t.ws c.phase, sid, anew))

none-AsksAnew : (ts : List Timer) → ts ≡ [] → AsksAnew ts
none-AsksAnew [] e = tt
none-AsksAnew (t ∷ ts) e = cc

attach_no_timers :
    (sid : Text) (t : Term)
    → t.timers ≡ []
    → (claude_docker.Terminal.Connection.attach sid t).timers ≡ []
unfolding claude_docker.Terminal.Connection.attach clear_timer
attach_no_timers sid t e = ground (arith, e)

-- If no timeout waits when a handshake fails, none waits after it either, where the page had asked for a
-- session.
refused_no_timers :
    (t : Term)
    → IsConnecting t
    → truthy (requested t.ws) ≡ true
    → t.timers ≡ []
    → AsksAnew (handle (closed_with 1006) t).timers
unfolding handle
refused_no_timers t c named e =
    rw (on_close-attach 1006 t (λ h. omega (arith, h)) (IsConnecting-stale t c named))
      (none-AsksAnew _ (attach_no_timers [] _ e))

ensure_found :
    (cap v j k fresh now : ℕ) (sid : Text) (s : Pool)
    → truthy sid ≡ true
    → find_id sid (known_ids s) ≡ some j
    → get_live v j s.live ≡ some k
    → ensure_session cap v fresh now sid s
      ≡ ensured j (200, record s { running = start k s.running })
unfolding ensure_session attach
ensure_found cap v j k fresh now sid s named found there = rw (named, found, there) refl

ensure_full :
    (cap v fresh now : ℕ) (sid : Text) (s : Pool)
    → sid ≡ []
    → IsFull cap v s
    → ensure_session cap v fresh now sid s ≡ ensured fresh (409, s)
unfolding ensure_session
ensure_full cap v fresh now sid s nothing (pos, full) =
    rw (nothing, create_refused cap v fresh now s (ground arith)) refl

-- A page on which no timeout waits asks for its session, which has a PTY, while as many sessions of the
-- user are alive as the limit allows. If the handshake reaches the server, the page is attached to the
-- session. If it fails once, the page asks for a new session instead, and where the server has that
-- request next, it refuses it with the pool as it was: then the connection is closed, the page keeps no
-- session id, and the timeouts that wait, if any, ask for a new session again. (Loading the page again
-- is another matter.)
pub outage_locks_out :
    (cap v j k fresh now : ℕ) (w : World)
    → IsConnecting w.page
    → truthy (requested w.page.ws) ≡ true
    → w.page.timers ≡ []
    → find_id (requested w.page.ws) (known_ids w.pool) ≡ some j
    → get_live v j w.pool.live ≡ some k
    → IsMatched w.pool
    → IsFull cap v w.pool
    → let reached = handle_terminal (some v) cap fresh now w in
      let cut = handle_terminal (some v) cap fresh now (handshake_fails w) in
      IsAttached (id_text j) reached.page
      × IsServed v j reached.pool
      × IsForgetful cut.page
      × (cut.pool ≡ w.pool)
unfolding handle_terminal handshake_fails
outage_locks_out cap v j k fresh now w c named idle found there m full =
    let s = w.pool in
    let t = handle (closed_with 1006) w.page in
    let (c', nothing) = refused_once w.page c named in
    let served : IsServed v j (record s { running = start k s.running }) = record {
      key = k;
      found = there;
      running = runs-start k s.running;
      on = sym (m.matched v j) ∙ get_live-found v j s.live k there;
    } in
    rw
      (
        ensure_found cap v j k fresh now (requested w.page.ws) s named found there,
        ensure_full cap v fresh now (requested t.ws) s nothing full,
      )
      (
        accepted-IsAttached (ensured j (200, record s { running = start k s.running })) w.page refl
            c.phase,
        served,
        refused_twice t c' nothing (refused_no_timers w.page c named idle),
        refl,
      )

told_not_expired :
    (sid : Text) (t : Term)
    → t.status ≡ disconnected 1006
    → (schedule_reconnect sid t).status ≢ expired
unfolding schedule_reconnect
told_not_expired sid t e =
    if_ind (λ (u : Term). u.status ≢ expired) t.intentional_close (λ _. rw e (λ h. cc))
      λ _.
        if_ind (λ (u : Term). u.status ≢ expired) (leb 6 t.reconnect_attempts) (λ _. λ h. cc)
          (λ _. λ h. cc)

refused_not_expired :
    (t : Term)
    → IsConnecting t
    → requested t.ws ≡ []
    → (handle (closed_with 1006) t).status ≢ expired
unfolding handle on_close
refused_not_expired t c nothing =
    let u = record t { ws = set_phase closed t.ws; status = disconnected 1006 } in
    let sid : t.current_sid ≡ some [] = c.same ∙ ap some nothing in
    let kept : is_stale u ≡ false = rw sid refl in rw kept (told_not_expired _ u refl)

-- A user whom authWSUser refuses is not told to sign in: the refusal of the handshake is no close with
-- 1008. The page forgets its session, tries again, and then waits or gives up.
signed_out_not_told :
    (cap fresh now : ℕ) (w : World)
    → IsConnecting w.page
    → truthy (requested w.page.ws) ≡ true
    → w.page.timers ≡ []
    → let once = handle_terminal none cap fresh now w in
      let t = (handle_terminal none cap fresh now once).page in IsForgetful t × (t.status ≢ expired)
unfolding handle_terminal
signed_out_not_told cap fresh now w c named idle =
    let (c', nothing) = refused_once w.page c named in
    (
      refused_twice _ c' nothing (refused_no_timers w.page c named idle),
      refused_not_expired _ c' nothing,
    )
