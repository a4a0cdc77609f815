-- ===== src/Examples/ServerSessions.antt =====
-- Sessions of two users, as the server keeps them.
use claude_docker.Common.{some, ℕ, ◌≤◌, true, false, List, [], ◌∷◌, ◌≡◌, refl, arith, subst}
use claude_docker.Server.Sessions.{
  Row, Pty, Pool, connects, deletes, suspends, runs, mark_row, unmap, step, create, attach,
  delete_session, restart, process_exits, owns, get_live, count_alive,
}
use claude_docker.Server.Sessions.Views.{row_on}
use claude_docker.Server.Sessions.Steps.{IsMatched, Reach, here, next, started, Reach-IsMatched}
use claude_docker.Server.Sessions.Keys.{Keyed, has_key, step-Keyed}
use claude_docker.Server.Sessions.Cap.{run, run_within}
use claude_docker.Server.Sessions.Apart.{users_apart}
use claude_docker.Server.Sessions.Orphans.{IsLost, late_exit_orphans, late_mark}

-- One session each.
abbrev one : ℕ → ℕ
one u = 1

-- User 7 has left a session 100.
abbrev table : List Row
table = record { id = 100; user = 7; started = 0; last_seen = 5; alive = true } ∷ []

table_unique : (u v i : ℕ) → owns u i table ≡ true → owns v i table ≡ true → u ≡ v
unfolding owns
table_unique u v i h k = ground arith

fresh_id : (u : ℕ) → owns u 200 (started table).rows ≡ false
unfolding owns
fresh_id u = refl

-- User 7 connects and gets the session 200.
connected : Reach one (started table) (step one (connects 7 200 9) (started table))
connected = next here (connects 7 200 9) (fresh_id, tt)

Reach-IsMatched_example : IsMatched (step one (connects 7 200 9) (started table))
Reach-IsMatched_example = Reach-IsMatched one table table_unique connected

run_within_example :
    count_alive 7
      (run one (connects 7 200 9 ∷ connects 7 201 9 ∷ deletes 7 200 ∷ []) (started table)).rows
    ≤ one 7
run_within_example =
    run_within one 7 (connects 7 200 9 ∷ connects 7 201 9 ∷ deletes 7 200 ∷ []) (started table)
      (omega arith) (tt, (tt, (tt, tt))) (omega arith)

-- The second connection is refused.
refused_at_cap : (create 1 7 201 9 (create 1 7 200 9 (started table)).1).0 ≡ 409
unfolding create
refused_at_cap = refl

-- The pool after user 7 has connected.
abbrev pub pool : Pool
pool = record {
  rows =
      record { id = 200; user = 7; started = 9; last_seen = 9; alive = true }
      ∷ record { id = 100; user = 7; started = 0; last_seen = 5; alive = false }
      ∷ [];
  live = record { user = 7; id = 200; key = 0 } ∷ [];
  ptys = record { key = 0; user = 7; id = 200 } ∷ [];
  running = 0 ∷ [];
  next_key = 1;
}

pool_after : step one (connects 7 200 9) (started table) ≡ pool
unfolding step create
pool_after = refl

pub pool-IsMatched : IsMatched pool
pool-IsMatched = subst IsMatched pool_after (Reach-IsMatched one table table_unique connected)

-- User 8 asks for the session of user 7 and is told that there is none.
foreign_session : (attach 8 200 10 pool).0 ≡ 404
unfolding attach get_live owns
foreign_session = refl

none_made : Keyed (started table)
none_made = record { one_user = λ u v k h g. cc; made = λ u k h. cc }

pool-Keyed : Keyed pool
pool-Keyed = subst Keyed pool_after (step-Keyed one (connects 7 200 9) (started table) none_made)

-- User 8 is suspended; the PTY of user 7 runs on.
users_apart_example :
    let t = step one (suspends 8) pool in
    (get_live 7 200 t.live ≡ get_live 7 200 pool.live)
    × ((k : ℕ) → has_key 7 k pool.live ≡ true → runs k t.running ≡ runs k pool.running)
    × (owns 7 200 t.rows ≡ owns 7 200 pool.rows)
    × (row_on 7 200 t.rows ≡ row_on 7 200 pool.rows)
users_apart_example =
    users_apart one (suspends 8) pool 7 8 200 refl refl tt pool-IsMatched pool-Keyed

-- Attached to an old session, the user has two.
two_alive : count_alive 7 (attach 7 100 10 pool).1.rows ≡ 2
unfolding attach get_live owns
two_alive = refl

late_exit_orphans_example :
    let deleted = (delete_session 7 200 pool).1 in
    let old : Pty = record { key = 0; user = 7; id = 200 } in
    IsLost 7 200 1 (process_exits old false (attach 7 200 10 deleted).1)
    × IsLost 7 200 0 (process_exits old false (restart 7 200 pool))
unfolding get_live owns
late_exit_orphans_example =
    late_exit_orphans pool (record { key = 0; user = 7; id = 200 }) 10 refl refl

late_mark_example :
    let t = mark_row 200 (attach 7 200 10 (unmap 7 200 0 pool)).1 in
    ((attach 7 200 10 (unmap 7 200 0 pool)).0 ≡ 200)
    × (get_live 7 200 t.live ≡ some 1)
    × (runs 1 t.running ≡ true)
    × (row_on 7 200 t.rows ≡ false)
unfolding owns
late_mark_example = late_mark pool 7 200 0 10 refl
