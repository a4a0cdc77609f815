-- ===== src/Server/Sessions/Orphans.antt =====
-- What the late end of a killed process does to its successor (backend/internal/pty/manager.go and
-- backend/internal/sessions/manager.go).
use claude_docker.Common.{ℕ, true, false, none, some, List, [], ◌∷◌, ==_refl, ◌≡◌, refl, ◌∙◌, arith}
use claude_docker.Server.Sessions.{
  Entry, Pty, Pool, drop_live, get_live, runs, stop, process_exits, restart, start, attach,
  delete_session, owns, unmap, mark_row, mark_alive,
}
use claude_docker.Server.Sessions.Views.{
  live_has, row_on, live_has-drop, row_on-exited, owns-exited,
}

get_live-drop : (v j : ℕ) (live : List Entry) → get_live v j (drop_live v j live) ≡ none
unfolding get_live
get_live-drop v j [] = refl
get_live-drop v j (e ∷ live) = ground (arith, get_live-drop v j live)

pub runs-start : (k : ℕ) (ks : List ℕ) → runs k (start k ks) ≡ true
runs-start k ks = ground (arith, ==_refl k)

-- The PTY runs, but neither is it in the map nor is its session alive in the table.
abbrev pub IsLost : ℕ → ℕ → ℕ → Pool → Type 0
IsLost v j k t =
    (runs k t.running ≡ true) × (live_has v j t.live ≡ false) × (row_on v j t.rows ≡ false)

exits-IsLost :
    (s : Pool) (old : Pty) (k : ℕ)
    → runs k s.running ≡ true
    → IsLost old.user old.id k (process_exits old false s)
unfolding process_exits
exits-IsLost s old k running = (
  running,
  live_has-drop old.user old.id old.user old.id s.live
      ∙ rw (==_refl old.user, ==_refl old.id) (ground arith),
  row_on-exited old.user old.id old.id s.rows ∙ rw (==_refl old.id) (ground arith),
)

revived_runs :
    (s : Pool) (v j k now : ℕ)
    → get_live v j s.live ≡ some k
    → owns v j s.rows ≡ true
    → runs s.next_key (attach v j now (delete_session v j s).1).1.running ≡ true
unfolding attach delete_session
revived_runs s v j k now there mine =
    rw (there, get_live-drop v j s.live, owns-exited v j j s.rows, mine)
      (runs-start s.next_key (stop k s.running))

restarted_runs :
    (s : Pool) (v j k : ℕ) → get_live v j s.live ≡ some k → runs k (restart v j s).running ≡ true
unfolding restart
restarted_runs s v j k there = rw there (runs-start k (stop k s.running))

-- A user deletes a session that has a PTY, and attaches to it again from another page before the old
-- process has ended; or the session is restarted. Then a process runs for it. When the old process
-- ends after that, its reaper takes the new PTY out of the map and marks the row as exited, so that the
-- new process runs on with no session.
pub late_exit_orphans :
    (s : Pool) (old : Pty) (now : ℕ)
    → get_live old.user old.id s.live ≡ some old.key
    → owns old.user old.id s.rows ≡ true
    → let deleted = (delete_session old.user old.id s).1 in
      IsLost old.user old.id s.next_key
        (process_exits old false (attach old.user old.id now deleted).1)
      × IsLost old.user old.id old.key (process_exits old false (restart old.user old.id s))
late_exit_orphans s old now there mine = (
  exits-IsLost _ old s.next_key (revived_runs s old.user old.id old.key now there mine),
  exits-IsLost _ old old.key (restarted_runs s old.user old.id old.key there),
)

-- Kill has stopped the PTY of a session and taken it out of the map, and before it marks the row, which
-- it does without the lock, another page of the user attaches to the session. Then the mark comes after
-- the revival: the new PTY is in the map and its process runs, but the row is not alive, so that the
-- session does not count for the limit and the reaper does not come to it.
pub late_mark :
    (s : Pool) (v j k now : ℕ)
    → owns v j s.rows ≡ true
    → let t = mark_row j (attach v j now (unmap v j k s)).1 in
      ((attach v j now (unmap v j k s)).0 ≡ 200)
      × (get_live v j t.live ≡ some s.next_key)
      × (runs s.next_key t.running ≡ true)
      × (row_on v j t.rows ≡ false)
unfolding attach get_live
late_mark s v j k now mine =
    rw (get_live-drop v j s.live, mine, ==_refl v, ==_refl j)
      (
        refl,
        refl,
        runs-start s.next_key (stop k s.running),
        row_on-exited v j j (mark_alive j now s.rows) ∙ rw (==_refl j) (ground arith),
      )
