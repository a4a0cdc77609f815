-- ===== src/Server/Sessions/Deleted.antt =====
-- What is left of the sessions of a deleted account: handleAdminDeleteUser of
-- backend/internal/server/admin_users.go deletes the account without KillAll, and ReapIdle of
-- backend/internal/sessions/manager.go finds no user for their rows.
use claude_docker.Common.{ℕ, Bool, true, false, not, ◌&&◌, some, List, All, ◌==◌, ◌≡◌}
use claude_docker.Server.Sessions.{Row, Pool, get_live, runs, is_stale}
use claude_docker.Server.Sessions.Keys.{Keyed}

-- Each row of the session is stale.
abbrev pub AllStale : ℕ → ℕ → ℕ → ℕ → List Row → Type 0
AllStale j idle age now = All (λ (r : Row). (r.id == j && not (is_stale idle age now r)) ≡ false)

module _ (v j k : ℕ) (known : ℕ → Bool) (deleted : known v ≡ false) where
  -- The session has this PTY in the map, and its process runs.
  record RunsOn (s : Pool) : Type 0 where
    found : get_live v j s.live ≡ some k
    running : runs k s.running ≡ true
    keyed : Keyed s
