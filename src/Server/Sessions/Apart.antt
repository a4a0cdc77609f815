-- ===== src/Server/Sessions/Apart.antt =====
-- What a user does leaves the sessions of the others alone (backend/internal/sessions/manager.go and
-- ensureSession of backend/internal/server/server.go).
use claude_docker.Common.{
  ℕ, true, false, not, ◌&&◌, Option, none, some, List, if_ind, ◌==◌, ==_iff, ltb, leb, ◌≡◌, inl,
  inr, refl, sym, ◌∙◌, subst, arith, Bool-cases,
}
use claude_docker.Server.Sessions.{
  Entry, Pool, drop_live, set_live, get_live, owns, count_alive, create, attach, attach_found,
  delete_found, delete_session, restart, restart_found, kill_all, Event, connects, attaches,
  deletes, restarts, suspends, reaps, touches, exits, reboots, step, ids_of, runs,
}
use claude_docker.Server.Sessions.Views.{
  live_has, row_on, live_has-drop, live_has-set, live_has-user, owns-exited, owns-alive,
  owns-delete, owns-mark_all,
}
use claude_docker.Server.Sessions.Keys.{has_key, Keyed}
use claude_docker.Server.Sessions.Steps.{IsMatched, Possible, step-IsMatched}
use claude_docker.Server.Sessions.Untouched.{IsBy, step-Untouched}

module _ (u i v : ℕ) (other : (u == v) ≡ false) where
  -- The map and the rows of the user `u` are as they were.
  abbrev Same : Pool → Pool → Type 0
  Same s t = (live_has u i t.live ≡ live_has u i s.live) × (owns u i t.rows ≡ owns u i s.rows)

  set_other : (j k : ℕ) (live : List Entry) → live_has u i (set_live v j k live) ≡ live_has u i live
  set_other j k live = live_has-set u i v j k live ∙ rw other refl

  drop_other : (j : ℕ) (live : List Entry) → live_has u i (drop_live v j live) ≡ live_has u i live
  drop_other j live = live_has-drop u i v j live ∙ ground (arith, other)

  create-Same : (cap fresh now : ℕ) (s : Pool) → Same s (create cap v fresh now s).1
  unfolding create owns
  create-Same cap fresh now s =
      if_ind {A = ℕ × Pool} (λ x. Same s x.1) (ltb 0 cap && leb cap (count_alive v s.rows))
        (λ _. (refl, refl)) (λ _. (set_other fresh s.next_key s.live, ground (arith, other)))

  attach-Same : (j now : ℕ) (s : Pool) (o : Option ℕ) → Same s (attach_found o v j now s).1
  attach-Same j now s (some k) = (refl, refl)
  attach-Same j now s none =
      if_ind {A = ℕ × Pool} (λ x. Same s x.1) (owns v j s.rows)
        (λ _. (set_other j s.next_key s.live, owns-alive u i j now s.rows)) (λ _. (refl, refl))

  not_mine :
      (j : ℕ) (s : Pool)
      → owns v j s.rows ≡ true
      → IsMatched s
      → (owns u i s.rows && not (i == j)) ≡ owns u i s.rows
  not_mine j s mine m = elim (Bool-cases (i == j)) [
    | inr apart ↦ ground (arith, apart)
    | inl same ↦
        let e : i ≡ j = (==_iff i j).0 same in
        elim (Bool-cases (owns u i s.rows)) [
          | inr foreign ↦ rw foreign refl
          | inl yes_mine ↦
              let who : u ≡ v =
                m.unique u v i yes_mine (subst (λ x. owns v x s.rows ≡ true) (sym e) mine) in
              ground (arith, other, who)
        ]
  ]

  delete-Same : (j : ℕ) (s : Pool) (o : Option ℕ) → IsMatched s → Same s (delete_found o v j s).1
  delete-Same j s (some k) m = (drop_other j s.live, owns-exited u i j s.rows)
  delete-Same j s none m =
      if_ind {A = ℕ × Pool} (λ x. Same s x.1) (owns v j s.rows)
        (λ mine. (drop_other j s.live, owns-delete u i j s.rows ∙ not_mine j s mine m))
        (λ _. (refl, refl))

  restart-Same : (s : Pool) (o : Option ℕ) → Same s (restart_found o s)
  restart-Same s none = (refl, refl)
  restart-Same s (some k) = (refl, refl)

  step-Same : (cap : ℕ → ℕ) (e : Event) (s : Pool) → IsBy v e → IsMatched s → Same s (step cap e s)
  unfolding step attach delete_session restart kill_all
  step-Same cap (connects w fresh now) s by m =
      subst (λ x. Same s (create (cap x) x fresh now s).1) (sym by)
        (create-Same (cap v) fresh now s)
  step-Same cap (attaches w j now) s by m =
      subst (λ x. Same s (attach_found (get_live x j s.live) x j now s).1) (sym by)
        (attach-Same j now s (get_live v j s.live))
  step-Same cap (deletes w j) s by m =
      subst (λ x. Same s (delete_found (get_live x j s.live) x j s).1) (sym by)
        (delete-Same j s (get_live v j s.live) m)
  step-Same cap (restarts w j) s by m = restart-Same s (get_live w j s.live)
  step-Same cap (suspends w) s by m =
      subst (λ x. Same s (kill_all x s)) (sym by)
        (
          live_has-user u i v s.live ∙ rw other (ground arith),
          owns-mark_all u i (ids_of v s.live) s.rows,
        )
  step-Same cap (reaps known idle age now) s by m = absurd by
  step-Same cap (touches j now) s by m = absurd by
  step-Same cap (exits q current) s by m = absurd by
  step-Same cap reboots s by m = absurd by

-- Where the map and the table say the same, and no two users have the same PTY in the map: whatever one
-- user requests, and also when that user is suspended, another user has for any session id the same
-- PTY in the map, or none as before, and its process runs if it ran before and only then; and the row
-- of the id is the other user's, and alive, if it was so before and only then.
pub users_apart :
    (cap : ℕ → ℕ) (e : Event) (s : Pool) (u v i : ℕ)
    → (u == v) ≡ false
    → IsBy v e
    → Possible e s
    → IsMatched s
    → Keyed s
    → let t = step cap e s in
      (get_live u i t.live ≡ get_live u i s.live)
      × ((k : ℕ) → has_key u k s.live ≡ true → runs k t.running ≡ runs k s.running)
      × (owns u i t.rows ≡ owns u i s.rows)
      × (row_on u i t.rows ≡ row_on u i s.rows)
users_apart cap e s u v i other by p m q =
    let (live, rows) = step-Same u i v other cap e s by m in
    let (same, running) = step-Untouched u i v other cap e s by q in
    let after = step-IsMatched cap e s p m in
    (same, running, rows, sym (after.matched u i) ∙ live ∙ m.matched u i)
