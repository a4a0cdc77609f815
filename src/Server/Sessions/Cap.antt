-- ===== src/Server/Sessions/Cap.antt =====
-- How many sessions of a user are alive, and where the limit of backend/internal/sessions/manager.go
-- holds.
use claude_docker.Common.{
  ℕ, ◌≤◌, ◌<◌, Bool, true, false, ◌&&◌, Option, none, some, List, [], ◌∷◌, map, if◌then◌else◌,
  if_ind, ◌==◌, ltb, leb, ◌≡◌, ◌≢◌, ◌⊎◌, inl, inr, refl, sym, arith, Bool-cases, ==_iff, subst,
}
use claude_docker.Server.Sessions.{
  Row, Pool, mark_exited, mark_alive, touched_row, delete_row, get_live, owns, count_alive, create,
  attach, attach_found, delete_found, delete_session, restart, restart_found, kill_all, is_stale,
  kill_or_mark, reap_row, reap_rows, reap_idle, process_exits, reboot, Event, connects, attaches,
  deletes, restarts, suspends, reaps, touches, exits, reboots, step, all_exited, mark_all, ids_of,
}
use claude_docker.Server.Sessions.Views.{row_on}

pub count_alive-exited :
    (u j : ℕ) (rows : List Row) → count_alive u (mark_exited j rows) ≤ count_alive u rows
count_alive-exited u j [] = omega arith
count_alive-exited u j (r ∷ rows) = ground (arith, count_alive-exited u j rows)

count_alive-delete :
    (u j : ℕ) (rows : List Row) → count_alive u (delete_row j rows) ≤ count_alive u rows
count_alive-delete u j [] = omega arith
count_alive-delete u j (r ∷ rows) = ground (arith, count_alive-delete u j rows)

count_alive-touched :
    (u j now : ℕ) (rows : List Row)
    → count_alive u (map (touched_row j now) rows) ≤ count_alive u rows
count_alive-touched u j now [] = omega arith
count_alive-touched u j now (r ∷ rows) = ground (arith, count_alive-touched u j now rows)

count_alive-all_exited :
    (u : ℕ) (rows : List Row) → count_alive u (all_exited rows) ≤ count_alive u rows
count_alive-all_exited u [] = omega arith
count_alive-all_exited u (r ∷ rows) = ground (arith, count_alive-all_exited u rows)

count_alive-mark_all :
    (u : ℕ) (js : List ℕ) (rows : List Row) → count_alive u (mark_all js rows) ≤ count_alive u rows
count_alive-mark_all u [] rows = omega arith
count_alive-mark_all u (j ∷ js) rows =
    omega (arith, count_alive-mark_all u js (mark_exited j rows), count_alive-exited u j rows)

count_alive-mark_alive :
    (u j now : ℕ) (rows : List Row) → count_alive u rows ≤ count_alive u (mark_alive j now rows)
count_alive-mark_alive u j now [] = omega arith
count_alive-mark_alive u j now (r ∷ rows) = ground (arith, count_alive-mark_alive u j now rows)

-- A row that was not alive counts when it is marked as alive.
count_alive-revived :
    (u j now : ℕ) (rows : List Row)
    → owns u j rows ≡ true
    → row_on u j rows ≡ false
    → count_alive u rows < count_alive u (mark_alive j now rows)
unfolding owns
count_alive-revived u j now [] o off = cc
count_alive-revived u j now (r ∷ rows) o off =
    ground (arith, count_alive-revived u j now rows, count_alive-mark_alive u j now rows)

-- No more sessions of the user are alive than before.
abbrev NoMore : ℕ → Pool → Pool → Type 0
NoMore u s t = count_alive u t.rows ≤ count_alive u s.rows

reap_row-NoMore : (u : ℕ) (known : ℕ → Bool) (r : Row) (s : Pool) → NoMore u s (reap_row known r s)
reap_row-NoMore u known r s =
    if_ind {A = Pool} (λ t. NoMore u s t) (known r.user) (λ _. found (get_live r.user r.id s.live))
      (λ _. count_alive-exited u r.id s.rows)
  where
    found : (o : Option ℕ) → NoMore u s (kill_or_mark o r.user r.id s)
    found none = count_alive-exited u r.id s.rows
    found (some k) = count_alive-exited u r.id s.rows

reap_rows-NoMore :
    (u : ℕ) (known : ℕ → Bool) (idle age now : ℕ) (snapshot : List Row) (s : Pool)
    → NoMore u s (reap_rows known idle age now snapshot s)
reap_rows-NoMore u known idle age now [] s = omega arith
reap_rows-NoMore u known idle age now (r ∷ snapshot) s =
    let t = if r.alive && is_stale idle age now r then reap_row known r s else s in
    let one : NoMore u s t =
      if_ind {A = Pool} (λ t. NoMore u s t) (r.alive && is_stale idle age now r)
        (λ _. reap_row-NoMore u known r s) (λ _. omega arith) in
    omega (arith, one, reap_rows-NoMore u known idle age now snapshot t)

create_own :
    (cap v fresh now : ℕ) (s : Pool)
    → 0 < cap
    → count_alive v s.rows ≤ cap
    → count_alive v (create cap v fresh now s).1.rows ≤ cap
unfolding create
create_own cap v fresh now s pos h =
    if_ind {A = ℕ × Pool} (λ x. count_alive v x.1.rows ≤ cap)
      (ltb 0 cap && leb cap (count_alive v s.rows)) (λ _. h) (λ room. ground arith)

create_other :
    (cap u v fresh now : ℕ) (s : Pool) → (v == u) ≡ false → NoMore u s (create cap v fresh now s).1
unfolding create
create_other cap u v fresh now s other =
    if_ind {A = ℕ × Pool} (λ x. NoMore u s x.1) (ltb 0 cap && leb cap (count_alive v s.rows))
      (λ _. omega arith) (λ _. rw other (omega arith))

create_within :
    (cap : ℕ → ℕ) (u v fresh now : ℕ) (s : Pool)
    → 0 < cap u
    → count_alive u s.rows ≤ cap u
    → count_alive u (create (cap v) v fresh now s).1.rows ≤ cap u
create_within cap u v fresh now s pos h = elim (Bool-cases (v == u)) [
  | inr other ↦ omega (arith, create_other (cap v) u v fresh now s other)
  | inl same ↦
      let e : v ≡ u = (==_iff v u).0 same in
      subst (λ x. count_alive u (create (cap x) x fresh now s).1.rows ≤ cap u) (sym e)
        (create_own (cap u) u fresh now s pos h)
]

-- The event does not revive a session: a session that is attached to has a PTY, or is not the user's.
abbrev pub NoRevival : Event → Pool → Type 0
NoRevival (attaches v j now) s = (get_live v j s.live ≢ none) ⊎ (owns v j s.rows ≡ false)
NoRevival _ s = Unit

attach_found-NoMore :
    (u v j now : ℕ) (s : Pool) (o : Option ℕ)
    → (o ≢ none) ⊎ (owns v j s.rows ≡ false)
    → NoMore u s (attach_found o v j now s).1
attach_found-NoMore u v j now s (some k) h = omega arith
attach_found-NoMore u v j now s none (inl n) = absurd (n refl)
attach_found-NoMore u v j now s none (inr foreign) = rw foreign (omega arith)

delete_found-NoMore : (u v j : ℕ) (s : Pool) (o : Option ℕ) → NoMore u s (delete_found o v j s).1
delete_found-NoMore u v j s (some k) = count_alive-exited u j s.rows
delete_found-NoMore u v j s none =
    if_ind {A = ℕ × Pool} (λ x. NoMore u s x.1) (owns v j s.rows)
      (λ _. count_alive-delete u j s.rows) (λ _. omega arith)

restart_found-NoMore : (u : ℕ) (s : Pool) (o : Option ℕ) → NoMore u s (restart_found o s)
restart_found-NoMore u s none = omega arith
restart_found-NoMore u s (some k) = omega arith

step_within :
    (cap : ℕ → ℕ) (u : ℕ) (e : Event) (s : Pool)
    → 0 < cap u
    → NoRevival e s
    → count_alive u s.rows ≤ cap u
    → count_alive u (step cap e s).rows ≤ cap u
unfolding step attach delete_session restart kill_all reap_idle process_exits reboot
step_within cap u (connects v fresh now) s pos n h = create_within cap u v fresh now s pos h
step_within cap u (attaches v j now) s pos n h =
    omega (arith, attach_found-NoMore u v j now s (get_live v j s.live) n)
step_within cap u (deletes v j) s pos n h =
    omega (arith, delete_found-NoMore u v j s (get_live v j s.live))
step_within cap u (restarts v j) s pos n h =
    omega (arith, restart_found-NoMore u s (get_live v j s.live))
step_within cap u (suspends v) s pos n h =
    omega (arith, count_alive-mark_all u (ids_of v s.live) s.rows)
step_within cap u (reaps known idle age now) s pos n h =
    omega (arith, reap_rows-NoMore u known idle age now s.rows s)
step_within cap u (touches j now) s pos n h = omega (arith, count_alive-touched u j now s.rows)
step_within cap u (exits q current) s pos n h = omega (arith, count_alive-exited u q.id s.rows)
step_within cap u reboots s pos n h = omega (arith, count_alive-all_exited u s.rows)

abbrev pub run : (ℕ → ℕ) → List Event → Pool → Pool
run cap [] s = s
run cap (e ∷ es) s = run cap es (step cap e s)

abbrev pub NoRevivals : (ℕ → ℕ) → List Event → Pool → Type 0
NoRevivals cap [] s = Unit
NoRevivals cap (e ∷ es) s = NoRevival e s × NoRevivals cap es (step cap e s)

-- Through any events in which no session is revived, a user with a limit never has more sessions alive
-- than the limit, if that is so at first.
pub run_within :
    (cap : ℕ → ℕ) (u : ℕ) (es : List Event) (s : Pool)
    → 0 < cap u
    → NoRevivals cap es s
    → count_alive u s.rows ≤ cap u
    → count_alive u (run cap es s).rows ≤ cap u
run_within cap u [] s pos n h = h
run_within cap u (e ∷ es) s pos (n, ns) h =
    run_within cap u es (step cap e s) pos ns (step_within cap u e s pos n h)

-- But a user with as many sessions alive as the limit allows, who attaches to an own session that has
-- exited, is let in and has more then.
pub revived_over_cap :
    (cap : ℕ → ℕ) (v j now : ℕ) (s : Pool)
    → count_alive v s.rows ≡ cap v
    → get_live v j s.live ≡ none
    → owns v j s.rows ≡ true
    → row_on v j s.rows ≡ false
    → ((attach v j now s).0 ≡ 200) × (cap v < count_alive v (attach v j now s).1.rows)
unfolding attach
revived_over_cap cap v j now s full missing mine off =
    rw (missing, mine) (refl, omega (arith, full, count_alive-revived v j now s.rows mine off))
