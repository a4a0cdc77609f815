-- ===== src/Examples/ServerTerminals.antt =====
-- Terminal pages that connect to a server with sessions.
use claude_docker.Common.{ℕ, ◌-◌, ◌^◌, ◌<◌, ◌≤◌, true, false, some, ◌≡◌, ◌⊎◌, [], inr, refl, arith}
use claude_docker.Text.{codes, truthy, text_eq}
use claude_docker.Terminal.State.{Term, new}
use claude_docker.Terminal.Connection.{attach, clear_timer, sid_text}
use claude_docker.Terminal.Recovery.{IsAttached}
use claude_docker.Server.Sessions.{connects, owns, get_live, count_alive}
use claude_docker.Server.Sessions.Views.{row_on}
use claude_docker.Server.Sessions.Steps.{Possible}
use claude_docker.Server.Terminals.{
  id_text, find_id, known_ids, World, requested, handle_terminal, handshake_fails, press_restart,
}
use claude_docker.Server.Terminals.Served.{IsServed, IsFull}
use claude_docker.Server.Terminals.Joins.{HasJoined, attach-IsConnecting, connects_or_IsFull}
use claude_docker.Server.Terminals.Outage.{IsForgetful, outage_locks_out}
use claude_docker.Server.Terminals.Restarted.{restart_replaces}
use claude_docker.Examples.ServerSessions.{pool, pool-IsMatched}

-- The bytes 0 ... 0 1: base64 has "AAAAAAAAAAAAAAAAAAAAAQ" for them.
id_one : id_text 1 ≡ codes "AAAAAAAAAAAAAAAAAAAAAQ"
unfolding id_text
id_one = refl

id_ends : id_text (2 ^ 128 - 1) ≡ codes "_____________________w"
unfolding id_text
id_ends = refl

-- A page that asks for the session 300, which does not exist, and one that asks for the session 200.
abbrev page_of : ℕ → Term
page_of j = attach (id_text j) (new 80 24)

abbrev lost : World
lost = record { page = page_of 300; pool = pool }

abbrev kept : World
kept = record { page = page_of 200; pool = pool }

new_id : (fresh : ℕ) → 200 < fresh → Possible (connects 7 fresh 20) pool
unfolding owns
new_id fresh h = ((λ u. ground arith), (ground arith, tt))

connects_or_IsFull_example :
    let first = handle_terminal (some 7) 2 201 20 lost in
    let second = handle_terminal (some 7) 2 202 20 first in
    HasJoined 7 first ⊎ HasJoined 7 second ⊎ IsFull 2 7 pool
connects_or_IsFull_example =
    connects_or_IsFull 2 7 201 202 20 20 lost (attach-IsConnecting (id_text 300) (new 80 24))
      pool-IsMatched (new_id 201 (omega arith)) (new_id 202 (omega arith))

asked : requested (page_of 200).ws ≡ id_text 200
unfolding attach
asked = refl

found : find_id (id_text 200) (known_ids pool) ≡ some 200
unfolding find_id text_eq id_text
found = refl

named : truthy (id_text 200) ≡ true
unfolding id_text
named = refl

there : get_live 7 200 pool.live ≡ some 0
unfolding get_live
there = refl

still : (page_of 200).timers ≡ []
unfolding attach clear_timer new
still = refl

outage_locks_out_example :
    let reached = handle_terminal (some 7) 1 201 20 kept in
    let cut = handle_terminal (some 7) 1 201 20 (handshake_fails kept) in
    IsAttached (id_text 200) reached.page
    × IsServed 7 200 reached.pool
    × IsForgetful cut.page
    × (cut.pool ≡ pool)
outage_locks_out_example =
    outage_locks_out 1 7 200 0 201 20 kept (attach-IsConnecting (id_text 200) (new 80 24))
      (rw asked named) still (rw asked found) there pool-IsMatched (omega arith, omega arith)

kept_sid : sid_text (page_of 200).current_sid ≡ id_text 200
unfolding attach
kept_sid = refl

restart_replaces_example :
    let t = handle_terminal (some 7) 1 201 20 (press_restart 7 kept) in
    IsAttached (id_text 201) t.page
    × IsServed 7 201 t.pool
    × (row_on 7 200 t.pool.rows ≡ false)
    × (count_alive 7 t.pool.rows ≤ count_alive 7 pool.rows)
restart_replaces_example =
    restart_replaces 1 7 200 0 201 20 kept (rw kept_sid named) (rw kept_sid found) there
      pool-IsMatched (new_id 201 (omega arith)) (inr (omega arith))
