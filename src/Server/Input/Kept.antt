-- ===== src/Server/Input/Kept.antt =====
-- The reaper of backend/internal/sessions/manager.go spares a session in which something was typed.
use claude_docker.Common.{
  ℕ, ◌-◌, ◌≤◌, Bool, false, ◌&&◌, Option, none, some, List, [], ◌∷◌, map, All, if◌then◌else◌,
  if_ind, ◌==◌, ltb, ◌≡◌, refl, ◌∙◌, arith,
}
use claude_docker.Text.{Text}
use claude_docker.Terminal.State.{input}
use claude_docker.Server.Sessions.{
  Row, Entry, Pool, touched_row, drop_live, get_live, is_stale, kill_or_mark, reap_row, reap_rows,
  reap_idle, mark_exited, runs,
}
use claude_docker.Server.Sessions.Views.{row_on, row_on-exited, row_on-touched}
use claude_docker.Server.Input.{Desk, read_message, touch}

get_live-drop_other :
    (v j u i : ℕ) (es : List Entry)
    → (i == j) ≡ false
    → get_live v j (drop_live u i es) ≡ get_live v j es
unfolding get_live
get_live-drop_other v j u i [] h = refl
get_live-drop_other v j u i (e ∷ es) h = ground (arith, get_live-drop_other v j u i es h)

module _ (v j : ℕ) where
  -- The session has the PTY and the liveness that it had.
  abbrev Spared : Pool → Pool → Type 0
  Spared s t = (get_live v j t.live ≡ get_live v j s.live) × (row_on v j t.rows ≡ row_on v j s.rows)

  exited_other :
      (i : ℕ) (rows : List Row)
      → (i == j) ≡ false
      → row_on v j (mark_exited i rows) ≡ row_on v j rows
  exited_other i rows h = row_on-exited v j i rows ∙ ground (arith, h)

  kill_or_mark-Spared :
      (u i : ℕ) (s : Pool) (o : Option ℕ) → (i == j) ≡ false → Spared s (kill_or_mark o u i s)
  kill_or_mark-Spared u i s none h = (refl, exited_other i s.rows h)
  kill_or_mark-Spared u i s (some k) h =
      (get_live-drop_other v j u i s.live h, exited_other i s.rows h)

  reap_row-Spared :
      (known : ℕ → Bool) (r : Row) (s : Pool) → (r.id == j) ≡ false → Spared s (reap_row known r s)
  reap_row-Spared known r s h =
      if_ind {A = Pool} (λ t. Spared s t) (known r.user)
        (λ _. kill_or_mark-Spared r.user r.id s (get_live r.user r.id s.live) h)
        (λ _. (refl, exited_other r.id s.rows h))

  module _ (known : ℕ → Bool) (idle age now : ℕ) where
    -- No row of the session is stale.
    abbrev Fresh : List Row → Type 0
    Fresh = All (λ (r : Row). (r.id == j && is_stale idle age now r) ≡ false)

    reap_rows-Spared :
        (snapshot : List Row) (s : Pool)
        → Fresh snapshot
        → Spared s (reap_rows known idle age now snapshot s)
    reap_rows-Spared [] s h = (refl, refl)
    reap_rows-Spared (r ∷ snapshot) s (f, h) =
        let t = if r.alive && is_stale idle age now r then reap_row known r s else s in
        let (live, on) : Spared s t =
          if_ind {A = Pool} (λ t. Spared s t) (r.alive && is_stale idle age now r)
            (λ stale. reap_row-Spared known r s (ground (arith, f, stale))) (λ _. (refl, refl)) in
        let (live', on') = reap_rows-Spared snapshot t h in (live' ∙ live, on' ∙ on)

    -- Rows that were touched lately are fresh, if they are not too old.
    touched-Fresh :
        (typed_at : ℕ) (rows : List Row)
        → now - typed_at ≤ idle
        → All (λ (r : Row). (r.id == j && ltb 0 age && ltb age (now - r.started)) ≡ false) rows
        → Fresh (map (touched_row j typed_at) rows)
    touched-Fresh typed_at [] lately h = tt
    touched-Fresh typed_at (r ∷ rows) lately (young, h) =
        (ground (arith, young, lately), touched-Fresh typed_at rows lately h)

typed_pool :
    (now : ℕ) (s : Text) (d : Desk) → (read_message now (input s) d).pool ≡ (touch now d).pool
unfolding read_message
typed_pool now s d =
    if_ind {A = Desk} (λ x. (touch now x).pool ≡ (touch now d).pool) (runs d.key d.pool.running)
      (λ _. refl) (λ _. refl)

-- A user types into a session, and the reaper comes no later than the time that a session may be idle
-- after that, while the session is not older than a session may become. Then the session has the same
-- PTY in the map, and its row is alive if it was so before.
pub typing_keeps :
    (known : ℕ → Bool) (idle age typed_at now v : ℕ) (text : Text) (d : Desk)
    → now - typed_at ≤ idle
    → All
        (λ (r : Row). (r.id == d.id && ltb 0 age && ltb age (now - r.started)) ≡ false)
        d.pool.rows
    → let t = reap_idle known idle age now (read_message typed_at (input text) d).pool in
      (get_live v d.id t.live ≡ get_live v d.id d.pool.live)
      × (row_on v d.id t.rows ≡ row_on v d.id d.pool.rows)
unfolding reap_idle
typing_keeps known idle age typed_at now v text d lately young =
    let s = (touch typed_at d).pool in
    let (live, on) =
      reap_rows-Spared v d.id known idle age now s.rows s
        (touched-Fresh v d.id known idle age now typed_at d.pool.rows lately young) in
    rw (typed_pool typed_at text d) (live, on ∙ row_on-touched v d.id d.id typed_at d.pool.rows)
