-- ===== src/Server/Input.antt =====
-- The messages of a terminal page as the server reads them: the loop of handleTerminalWS in
-- backend/internal/server/terminal.go, and Write and Resize of backend/internal/pty/manager.go.
pub mod Kept
pub mod Typed
use claude_docker.Common.{
  ℕ, ◌^◌, Bool, true, false, ◌&&◌, Option, none, some, List, [], ◌∷◌, ◌++◌, map, if◌then◌else◌, ltb,
  leb, length,
}
use claude_docker.Text.{Text}
use claude_docker.Url.{utf8, is_high, is_low, pair_point}
use claude_docker.Requests.{sent_text}
use claude_docker.Terminal.State.{Sent, input, resize}
use claude_docker.Server.Sessions.{Row, Pool, runs, touched_row}

-- The runes of a string of JavaScript, as Go reads it in a JSON text: a surrogate that stands alone,
-- which JSON.stringify escapes, becomes U+FFFD. The first argument is a high surrogate that waits for
-- its low one.
unfoldable pub runes_after : Option ℕ → Text → List ℕ
runes_after none [] = []
runes_after (some h) [] = 65533 ∷ []
runes_after none (c ∷ s) =
    let waiting = runes_after (some c) s in
    let rest = runes_after none s in
    if is_high c then waiting else if is_low c then 65533 ∷ rest else c ∷ rest
runes_after (some h) (c ∷ s) =
    let waiting = runes_after (some c) s in
    let rest = runes_after none s in
    if is_low c then pair_point h c ∷ rest else 65533 ∷ (if is_high c then waiting else c ∷ rest)

abbrev pub utf8_all : List ℕ → List ℕ
utf8_all [] = []
utf8_all (p ∷ ps) = utf8 p ++ utf8_all ps

-- `[]byte(msg.Data)`, of the string that the page has sent.
unfoldable pub data_bytes : Text → List ℕ
data_bytes s = utf8_all (runes_after none s)

-- What the loop acts on: the pool, and the PTY of the connection with what it was given.
pub record Desk : Type 0 where
  pub pool : Pool
  pub key : ℕ  -- the PTY
  pub id : ℕ  -- its session, `effSID`
  pub written : List ℕ  -- bytes
  pub size : ℕ × ℕ
  pub reading : Bool  -- the loop has not returned

-- Write of the PTY, which does nothing without a process.
abbrev pub write : List ℕ → Desk → Desk
write bytes d = if runs d.key d.pool.running then record d { written = d.written ++ bytes } else d

-- TouchSession
abbrev pub touch : ℕ → Desk → Desk
touch now d = record d { pool = record d.pool { rows = map (touched_row d.id now) d.pool.rows } }

-- Resize of the PTY
abbrev pub set_size : ℕ → ℕ → Desk → Desk
set_size cols rows d = if runs d.key d.pool.running then record d { size = (cols, rows) } else d

-- json.Unmarshal fails on a number that is no uint16.
abbrev pub is_uint16 : ℕ → Bool
is_uint16 n = ltb n (2 ^ 16)

-- One round of the loop, for a message that c.Read returns.
unfoldable pub read_message : ℕ → Sent → Desk → Desk
read_message now (input s) d = touch now (write (data_bytes s) d)
read_message now (resize cols rows) d =
    if is_uint16 cols && is_uint16 rows
    then if ltb 0 cols && ltb 0 rows then set_size cols rows d else d
    else d

-- Whether c.Read returns a message: one with more bytes than the limit of the WebSocket library, which
-- the handler leaves as it is, closes the connection, and c.Read returns an error.
unfoldable pub fits : ℕ → Sent → Bool
fits limit m = leb (length (data_bytes (sent_text m))) limit

-- The loop, on the messages that arrive.
abbrev pub read_messages : ℕ → ℕ → List Sent → Desk → Desk
read_messages limit now [] d = d
read_messages limit now (m ∷ ms) d =
    let rest = read_messages limit now ms (read_message now m d) in
    if fits limit m then rest else record d { reading = false }
