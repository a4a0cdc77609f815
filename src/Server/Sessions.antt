-- ===== src/Server/Sessions.antt =====
-- The pool of terminals of backend/internal/sessions/manager.go on the rows of
-- backend/internal/store/sessions.go, with ensureSession and the handlers that call it, and the end of
-- a process in backend/internal/pty/manager.go. A user is known by the number, which the name
-- determines; a session id, 16 random bytes, is a number. An operation is one step, but a process
-- that was killed ends later, and calls the callbacks of its PTY then; and Kill is given also in two
-- parts, unmap under the lock and mark_row after it. Deleting an account (handleAdminDeleteUser of
-- backend/internal/server/admin_users.go) leaves the pool as it is: after it, `known` of the reaper
-- does not have the user.
pub mod Views
pub mod Owners
pub mod Matched
pub mod Steps
pub mod Cap
pub mod Keys
pub mod Untouched
pub mod Deleted
pub mod Apart
pub mod Orphans
use claude_docker.Common.{
  ℕ, suc, ◌+◌, ◌-◌, Bool, true, false, not, ◌||◌, ◌&&◌, Option, none, some, List, [], ◌∷◌, map,
  filter, if◌then◌else◌, ◌==◌, ltb, leb,
}

-- A row of the table of sessions; the name and the address of the client are left out.
pub record Row : Type 0 where
  pub id : ℕ
  pub user : ℕ
  pub started : ℕ
  pub last_seen : ℕ
  pub alive : Bool

-- An entry of the map of live PTYs: `sessions[user][id]`.
pub record Entry : Type 0 where
  pub user : ℕ
  pub id : ℕ
  pub key : ℕ

-- A PTY, with the user and the id that its reaper was registered with.
pub record Pty : Type 0 where
  pub key : ℕ
  pub user : ℕ
  pub id : ℕ

-- `running` has the PTYs whose `cmd` is set.
pub record Pool : Type 0 where
  pub rows : List Row
  pub live : List Entry
  pub ptys : List Pty
  pub running : List ℕ
  pub next_key : ℕ

-- MarkSessionExited
abbrev pub exited_row : ℕ → Row → Row
exited_row j r = if r.id == j then record r { alive = false } else r

abbrev pub mark_exited : ℕ → List Row → List Row
mark_exited j rows = map (exited_row j) rows

-- MarkSessionAlive
abbrev pub alive_row : ℕ → ℕ → Row → Row
alive_row j now r = if r.id == j then record r { alive = true; last_seen = now } else r

abbrev pub mark_alive : ℕ → ℕ → List Row → List Row
mark_alive j now rows = map (alive_row j now) rows

-- TouchSession
abbrev pub touched_row : ℕ → ℕ → Row → Row
touched_row j now r = if r.id == j then record r { last_seen = now } else r

-- DeleteSession
abbrev pub delete_row : ℕ → List Row → List Row
delete_row j rows = filter (λ (r : Row). not (r.id == j)) rows

-- CountAliveSessionsForUser
abbrev pub counts : ℕ → Row → Bool
counts u r = r.user == u && r.alive

abbrev pub count_alive : ℕ → List Row → ℕ
count_alive u [] = 0
count_alive u (r ∷ rows) = (if counts u r then 1 else 0) + count_alive u rows

-- `delete(m.sessions[user], id)`
abbrev pub is_at : ℕ → ℕ → Entry → Bool
is_at v j e = e.user == v && e.id == j

abbrev pub drop_live : ℕ → ℕ → List Entry → List Entry
drop_live v j live = filter (λ (e : Entry). not (is_at v j e)) live

-- `m.sessions[user][id] = p`
abbrev pub set_live : ℕ → ℕ → ℕ → List Entry → List Entry
set_live v j k live = record { user = v; id = j; key = k } ∷ drop_live v j live

-- Get(user, id)
unfoldable pub get_live : ℕ → ℕ → List Entry → Option ℕ
get_live v j [] = none
get_live v j (e ∷ live) = let rest = get_live v j live in if is_at v j e then some e.key else rest

-- GetSession(id), and whether the row is the user's.
abbrev pub is_row : ℕ → ℕ → Row → Bool
is_row u j r = r.id == j && r.user == u

unfoldable pub owns : ℕ → ℕ → List Row → Bool
owns u j [] = false
owns u j (r ∷ rows) = is_row u j r || owns u j rows

abbrev pub runs : ℕ → List ℕ → Bool
runs k [] = false
runs k (j ∷ ks) = j == k || runs k ks

-- Stop(), and Start(), which does nothing while the process runs.
abbrev pub stop : ℕ → List ℕ → List ℕ
stop k ks = filter (λ (j : ℕ). not (j == k)) ks

abbrev pub start : ℕ → List ℕ → List ℕ
start k ks = if runs k ks then ks else k ∷ ks

-- A new PTY for (user, id), with its reaper, in the map and started.
abbrev pub add_pty : ℕ → ℕ → Pool → Pool
add_pty v j s = record s {
  live = set_live v j s.next_key s.live;
  ptys = record { key = s.next_key; user = v; id = j } ∷ s.ptys;
  running = start s.next_key s.running;
  next_key = suc s.next_key;
}

-- Create, and Start, given what EffectiveMaxSessions and crypto/rand return.
unfoldable pub create : ℕ → ℕ → ℕ → ℕ → Pool → ℕ × Pool
create cap v fresh now s = if ltb 0 cap && leb cap (count_alive v s.rows) then (409, s) else (
  200,
  add_pty v fresh (record s {
    rows = record { id = fresh; user = v; started = now; last_seen = now; alive = true } ∷ s.rows;
  }),
)

-- Revive, and Start.
abbrev pub revive : ℕ → ℕ → ℕ → Pool → Pool
revive v j now s = add_pty v j (record s { rows = mark_alive j now s.rows })

abbrev pub attach_found : Option ℕ → ℕ → ℕ → ℕ → Pool → ℕ × Pool
attach_found (some k) v j now s = (200, record s { running = start k s.running })
attach_found none v j now s = if owns v j s.rows then (200, revive v j now s) else (404, s)

-- ensureSession with an id.
unfoldable pub attach : ℕ → ℕ → ℕ → Pool → ℕ × Pool
attach v j now s = attach_found (get_live v j s.live) v j now s

-- Kill(user, id), with the PTY that the map has there: what it does under the lock, with Stop, and the
-- row after it.
abbrev pub unmap : ℕ → ℕ → ℕ → Pool → Pool
unmap v j k s = record s { live = drop_live v j s.live; running = stop k s.running }

abbrev pub mark_row : ℕ → Pool → Pool
mark_row j s = record s { rows = mark_exited j s.rows }

abbrev pub kill_found : Option ℕ → ℕ → ℕ → Pool → Pool
kill_found none v j s = s
kill_found (some k) v j s = mark_row j (unmap v j k s)

-- DeleteOrphan(user, id)
abbrev pub delete_orphan : ℕ → ℕ → Pool → ℕ × Pool
delete_orphan v j s =
    if owns v j s.rows
    then (200, record s { rows = delete_row j s.rows; live = drop_live v j s.live })
    else (404, s)

abbrev pub delete_found : Option ℕ → ℕ → ℕ → Pool → ℕ × Pool
delete_found (some k) v j s = (200, kill_found (some k) v j s)
delete_found none v j s = delete_orphan v j s

-- handleDeleteSession
unfoldable pub delete_session : ℕ → ℕ → Pool → ℕ × Pool
delete_session v j s = delete_found (get_live v j s.live) v j s

-- Restart(user, id)
abbrev pub restart_found : Option ℕ → Pool → Pool
restart_found none s = s
restart_found (some k) s = record s { running = start k (stop k s.running) }

unfoldable pub restart : ℕ → ℕ → Pool → Pool
restart v j s = restart_found (get_live v j s.live) s

-- KillAll(user)
abbrev pub ids_of : ℕ → List Entry → List ℕ
ids_of v [] = []
ids_of v (e ∷ live) = let rest = ids_of v live in if e.user == v then e.id ∷ rest else rest

abbrev pub mark_all : List ℕ → List Row → List Row
mark_all [] rows = rows
mark_all (j ∷ js) rows = mark_all js (mark_exited j rows)

abbrev pub stop_all : ℕ → List Entry → List ℕ → List ℕ
stop_all v [] ks = ks
stop_all v (e ∷ live) ks = stop_all v live (if e.user == v then stop e.key ks else ks)

unfoldable pub kill_all : ℕ → Pool → Pool
kill_all v s = record s {
  live = filter (λ (e : Entry). not (e.user == v)) s.live;
  running = stop_all v s.live s.running;
  rows = mark_all (ids_of v s.live) s.rows;
}

-- `stale`, of ReapIdle
abbrev pub is_stale : ℕ → ℕ → ℕ → Row → Bool
is_stale idle age now r =
    (ltb 0 idle && ltb idle (now - r.last_seen)) || (ltb 0 age && ltb age (now - r.started))

-- Kill, and the row where the map has nothing there.
abbrev pub kill_or_mark : Option ℕ → ℕ → ℕ → Pool → Pool
kill_or_mark (some k) v j s = kill_found (some k) v j s
kill_or_mark none v j s = record s { rows = mark_exited j s.rows }

-- The round of ReapIdle for one row; `known` tells the users that exist.
abbrev pub reap_row : (ℕ → Bool) → Row → Pool → Pool
reap_row known r s =
    if known r.user
    then kill_or_mark (get_live r.user r.id s.live) r.user r.id s
    else record s { rows = mark_exited r.id s.rows }

abbrev pub reap_rows : (ℕ → Bool) → ℕ → ℕ → ℕ → List Row → Pool → Pool
reap_rows known idle age now [] s = s
reap_rows known idle age now (r ∷ rows) s =
    reap_rows known idle age now rows
      (if r.alive && is_stale idle age now r then reap_row known r s else s)

-- ReapIdle(maxIdle, maxAge), in seconds
unfoldable pub reap_idle : (ℕ → Bool) → ℕ → ℕ → ℕ → Pool → Pool
reap_idle known idle age now s = reap_rows known idle age now s.rows s

-- waitExit of a process of a PTY, and the reaper, which is among the callbacks; `current` tells
-- whether it is the PTY's process still.
unfoldable pub process_exits : Pty → Bool → Pool → Pool
process_exits p current s = record s {
  running = if current then stop p.key s.running else s.running;
  live = drop_live p.user p.id s.live;
  rows = mark_exited p.id s.rows;
}

-- The server starts again: ReapStaleSessions, and an empty map.
abbrev pub all_exited : List Row → List Row
all_exited rows = map (λ (r : Row). record r { alive = false }) rows

unfoldable pub reboot : Pool → Pool
reboot s = record s { rows = all_exited s.rows; live = []; ptys = []; running = [] }

pub data Event : Type 0 where
  connects : ℕ → ℕ → ℕ → Event
  attaches : ℕ → ℕ → ℕ → Event
  deletes : ℕ → ℕ → Event
  restarts : ℕ → ℕ → Event
  suspends : ℕ → Event
  reaps : (ℕ → Bool) → ℕ → ℕ → ℕ → Event
  touches : ℕ → ℕ → Event
  exits : Pty → Bool → Event
  reboots : Event

-- `cap` is EffectiveMaxSessions.
unfoldable pub step : (ℕ → ℕ) → Event → Pool → Pool
step cap (connects v fresh now) s = (create (cap v) v fresh now s).1
step cap (attaches v j now) s = (attach v j now s).1
step cap (deletes v j) s = (delete_session v j s).1
step cap (restarts v j) s = restart v j s
step cap (suspends v) s = kill_all v s
step cap (reaps known idle age now) s = reap_idle known idle age now s
step cap (touches j now) s = record s { rows = map (touched_row j now) s.rows }
step cap (exits p current) s = process_exits p current s
step cap reboots s = reboot s
