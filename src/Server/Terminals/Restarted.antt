-- ===== src/Server/Terminals/Restarted.antt =====
-- The restart button of web/src/terminal.js with the server: the DELETE of the session, and the
-- connection that follows.
use claude_docker.Common.{
  ℕ, ◌≤◌, ◌<◌, true, false, ◌&&◌, some, List, [], ◌∷◌, ◌==◌, ==_iff, ==_refl, ltb, leb, ◌≡◌, ◌⊎◌,
  inl, inr, refl, sym, ◌∙◌, subst, arith, Bool-cases,
}
use claude_docker.Text.{Text, truthy}
use claude_docker.Terminal.State.{Term, kill_clicked, kill_returns}
use claude_docker.Terminal.Connection.{handle, kill_answered, sid_text}
use claude_docker.Terminal.Recovery.{IsAttached}
use claude_docker.Server.Sessions.{
  Row, Pool, mark_exited, delete_session, kill_found, get_live, owns, count_alive, connects,
  add_pty,
}
use claude_docker.Server.Sessions.Views.{
  row_on, get_live-found, row_on-exited, owns-exited, row_on-owns,
}
use claude_docker.Server.Sessions.Cap.{count_alive-exited}
use claude_docker.Server.Sessions.Steps.{IsMatched, Possible, create-IsMatched, delete-IsMatched}
use claude_docker.Server.Terminals.{
  id_text, find_id, known_ids, ensure_session, ensured, World, requested, handle_terminal,
  press_restart,
}
use claude_docker.Server.Terminals.Served.{IsServed, create_made, with_row, add_pty-IsServed}
use claude_docker.Server.Terminals.Joins.{
  IsConnecting, accepted-IsAttached, attach-IsConnecting, requested-attach,
}

count_alive-exited_less :
    (u j : ℕ) (rows : List Row)
    → row_on u j rows ≡ true
    → count_alive u (mark_exited j rows) < count_alive u rows
count_alive-exited_less u j [] h = cc
count_alive-exited_less u j (r ∷ rows) h =
    ground (arith, count_alive-exited_less u j rows, count_alive-exited u j rows)

-- The page after the button and the answer of its request.
restarted-IsConnecting :
    (t : Term)
    → let u = handle (kill_returns true) (handle kill_clicked t) in
      IsConnecting u × (requested u.ws ≡ [])
unfolding handle kill_answered
restarted-IsConnecting t = (attach-IsConnecting [] _, requested-attach [] _)

module _ (cap v j k fresh now : ℕ) (s : Pool) (there : get_live v j s.live ≡ some k)
    (m : IsMatched s) (p : Possible (connects v fresh now) s)
    (within : (cap ≡ 0) ⊎ (count_alive v s.rows ≤ cap)) where
  abbrev gone : Pool
  gone = kill_found (some k) v j s

  was_on : row_on v j s.rows ≡ true
  was_on = sym (m.matched v j) ∙ get_live-found v j s.live k there

  fewer : count_alive v gone.rows < count_alive v s.rows
  fewer = count_alive-exited_less v j s.rows was_on

  room : (ltb 0 cap && leb cap (count_alive v gone.rows)) ≡ false
  room = elim within [ inl none_set ↦ rw none_set refl | inr h ↦ ground (arith, fewer) ]

  gone-IsMatched : IsMatched gone
  gone-IsMatched = delete-IsMatched v j s (some k) there m

  new_id : Possible (connects v fresh now) gone
  new_id = ((λ u. owns-exited u fresh j s.rows ∙ p.0 u), p.1)

  apart : (fresh == j) ≡ false
  apart = elim (Bool-cases (fresh == j)) [
    | inr h ↦ h
    | inl h ↦
        let e : fresh ≡ j = (==_iff fresh j).0 h in
        let mine : owns v j s.rows ≡ true = row_on-owns v j s.rows was_on in
        let not_mine : owns v j s.rows ≡ false = subst (λ x. owns v x s.rows ≡ false) e (p.0 v) in
        cc
  ]

  served : IsServed v fresh (add_pty v fresh (with_row v fresh now gone))
  served = add_pty-IsServed v fresh (with_row v fresh now gone) (
      subst (λ (x : ℕ × Pool). IsMatched x.1) (create_made cap v fresh now gone room)
        (create-IsMatched cap v fresh now gone new_id gone-IsMatched))

  ended : row_on v j (with_row v fresh now gone).rows ≡ false
  ended = rw (apart, row_on-exited v j j s.rows) (rw (==_refl j) (ground arith))

  no_more : count_alive v (with_row v fresh now gone).rows ≤ count_alive v s.rows
  no_more = ground (arith, fewer)

ensure_new :
    (cap v fresh now : ℕ) (sid : Text) (s : Pool)
    → sid ≡ []
    → (ltb 0 cap && leb cap (count_alive v s.rows)) ≡ false
    → ensure_session cap v fresh now sid s
      ≡ ensured fresh (200, add_pty v fresh (with_row v fresh now s))
unfolding ensure_session
ensure_new cap v fresh now sid s nothing room =
    rw (nothing, create_made cap v fresh now s room) refl

deleted :
    (v j k : ℕ) (s : Pool)
    → get_live v j s.live ≡ some k
    → (delete_session v j s).1 ≡ kill_found (some k) v j s
unfolding delete_session
deleted v j k s there = rw there refl

-- The restart button on a page whose session has a PTY, for a user within the limit: if its request is
-- answered and the next connection reaches the server, the page is attached to a new session, which is
-- served, also where the limit is reached. The row of the old session is not alive any more, and no
-- more sessions of the user are alive than before. The id that the server draws is to be new.
pub restart_replaces :
    (cap v j k fresh now : ℕ) (w : World)
    → truthy (sid_text w.page.current_sid) ≡ true
    → find_id (sid_text w.page.current_sid) (known_ids w.pool) ≡ some j
    → get_live v j w.pool.live ≡ some k
    → IsMatched w.pool
    → Possible (connects v fresh now) w.pool
    → (cap ≡ 0) ⊎ (count_alive v w.pool.rows ≤ cap)
    → let t = handle_terminal (some v) cap fresh now (press_restart v w) in
      IsAttached (id_text fresh) t.page
      × IsServed v fresh t.pool
      × (row_on v j t.pool.rows ≡ false)
      × (count_alive v t.pool.rows ≤ count_alive v w.pool.rows)
unfolding handle_terminal press_restart
restart_replaces cap v j k fresh now w keeps named there m p within =
    let s = w.pool in
    let (c, nothing) = restarted-IsConnecting w.page in
    let r =
      ensured fresh (200, add_pty v fresh (with_row v fresh now (kill_found (some k) v j s))) in
    rw
      (
        keeps,
        named,
        deleted v j k s there,
        ensure_new cap v fresh now _ (kill_found (some k) v j s) nothing
            (room cap v j k fresh now s there m p within),
      )
      (
        accepted-IsAttached r _ refl c.phase,
        served cap v j k fresh now s there m p within,
        ended cap v j k fresh now s there m p within,
        no_more cap v j k fresh now s there m p within,
      )
