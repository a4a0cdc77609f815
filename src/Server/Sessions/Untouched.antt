-- ===== src/Server/Sessions/Untouched.antt =====
-- The PTYs of the others, where a user makes a request (backend/internal/sessions/manager.go and
-- ensureSession of backend/internal/server/server.go).
use claude_docker.Common.{
  ℕ, true, false, ◌&&◌, Option, none, some, if_ind, ◌==◌, ltb, leb, ◌≡◌, refl, sym, ◌∙◌, subst,
  arith,
}
use claude_docker.Server.Sessions.{
  Pool, get_live, owns, count_alive, create, attach, attach_found, delete_found, delete_session,
  restart, restart_found, kill_all, Event, connects, attaches, deletes, restarts, suspends, reaps,
  touches, exits, reboots, step, runs, start, stop,
}
use claude_docker.Server.Sessions.Keys.{
  has_key, Keyed, get_live-drop_user, get_live-set_user, get_live-filter_user, has_key-other,
  key-other, runs-stop_other, runs-start_other, runs-stop_all_other,
}

-- The event is a request of this user, or made for the user's account.
abbrev pub IsBy : ℕ → Event → Type 0
IsBy v (connects w fresh now) = w ≡ v
IsBy v (attaches w j now) = w ≡ v
IsBy v (deletes w j) = w ≡ v
IsBy v (restarts w j) = w ≡ v
IsBy v (suspends w) = w ≡ v
IsBy v (reaps known idle age now) = ⊥
IsBy v (touches j now) = ⊥
IsBy v (exits p current) = ⊥
IsBy v reboots = ⊥

module _ (u i v : ℕ) (other : (u == v) ≡ false) where
  -- The user's PTYs are the same, and each runs if it ran.
  abbrev Untouched : Pool → Pool → Type 0
  Untouched s t =
      (get_live u i t.live ≡ get_live u i s.live)
      × ((k : ℕ) → has_key u k s.live ≡ true → runs k t.running ≡ runs k s.running)

  start_new :
      (s : Pool)
      → Keyed s
      → (k : ℕ) → has_key u k s.live ≡ true
      → runs k (start s.next_key s.running) ≡ runs k s.running
  start_new s q k h = runs-start_other k s.next_key s.running (ground (arith, q.made u k h))

  create-Untouched :
      (cap fresh now : ℕ) (s : Pool) → Keyed s → Untouched s (create cap v fresh now s).1
  unfolding create
  create-Untouched cap fresh now s q =
      if_ind {A = ℕ × Pool} (λ x. Untouched s x.1) (ltb 0 cap && leb cap (count_alive v s.rows))
        (λ _. (refl, λ k h. refl))
        (λ _. (get_live-set_user u v other i fresh s.next_key s.live, start_new s q))

  attach-Untouched :
      (j now : ℕ) (s : Pool) (o : Option ℕ)
      → get_live v j s.live ≡ o
      → Keyed s
      → Untouched s (attach_found o v j now s).1
  attach-Untouched j now s (some k') e q = (
    refl,
    λ k h. runs-start_other k k' s.running (key-other u v other s.live s.next_key j k k' q h e),
  )
  attach-Untouched j now s none e q =
      if_ind {A = ℕ × Pool} (λ x. Untouched s x.1) (owns v j s.rows)
        (λ _. (get_live-set_user u v other i j s.next_key s.live, start_new s q))
        (λ _. (refl, λ k h. refl))

  delete-Untouched :
      (j : ℕ) (s : Pool) (o : Option ℕ)
      → get_live v j s.live ≡ o
      → Keyed s
      → Untouched s (delete_found o v j s).1
  delete-Untouched j s (some k') e q = (
    get_live-drop_user u v other i j s.live,
    λ k h. runs-stop_other k k' s.running (key-other u v other s.live s.next_key j k k' q h e),
  )
  delete-Untouched j s none e q =
      if_ind {A = ℕ × Pool} (λ x. Untouched s x.1) (owns v j s.rows)
        (λ _. (get_live-drop_user u v other i j s.live, λ k h. refl)) (λ _. (refl, λ k h. refl))

  restart-Untouched :
      (j : ℕ) (s : Pool) (o : Option ℕ)
      → get_live v j s.live ≡ o
      → Keyed s
      → Untouched s (restart_found o s)
  restart-Untouched j s none e q = (refl, λ k h. refl)
  restart-Untouched j s (some k') e q = (
    refl,
    λ k h.
        let apart = key-other u v other s.live s.next_key j k k' q h e in
        runs-start_other k k' (stop k' s.running) apart ∙ runs-stop_other k k' s.running apart,
  )

  pub step-Untouched :
      (cap : ℕ → ℕ) (e : Event) (s : Pool) → IsBy v e → Keyed s → Untouched s (step cap e s)
  unfolding step attach delete_session restart kill_all
  step-Untouched cap (connects w fresh now) s by q =
      subst (λ x. Untouched s (create (cap x) x fresh now s).1) (sym by)
        (create-Untouched (cap v) fresh now s q)
  step-Untouched cap (attaches w j now) s by q =
      subst (λ x. Untouched s (attach_found (get_live x j s.live) x j now s).1) (sym by)
        (attach-Untouched j now s (get_live v j s.live) refl q)
  step-Untouched cap (deletes w j) s by q =
      subst (λ x. Untouched s (delete_found (get_live x j s.live) x j s).1) (sym by)
        (delete-Untouched j s (get_live v j s.live) refl q)
  step-Untouched cap (restarts w j) s by q =
      subst (λ x. Untouched s (restart_found (get_live x j s.live) s)) (sym by)
        (restart-Untouched j s (get_live v j s.live) refl q)
  step-Untouched cap (suspends w) s by q =
      subst (λ x. Untouched s (kill_all x s)) (sym by)
        (
          get_live-filter_user u v other i s.live,
          λ k h.
              runs-stop_all_other v k s.live s.running
                (has_key-other u v other s.live s.next_key k q h),
        )
  step-Untouched cap (reaps known idle age now) s by q = absurd by
  step-Untouched cap (touches j now) s by q = absurd by
  step-Untouched cap (exits p current) s by q = absurd by
  step-Untouched cap reboots s by q = absurd by
