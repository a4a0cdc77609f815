-- ===== src/Server/Terminals.antt =====
-- A terminal page and the pool of sessions together: handleTerminalWS of
-- backend/internal/server/terminal.go with ensureSession of backend/internal/server/server.go, and what
-- the page of web/src/terminal.js does on its answer. The session id of a PTY is a number of 128 bits,
-- of which the text is the encoding in base64.
pub mod Ids
pub mod Served
pub mod Joins
pub mod Outage
pub mod Restarted
use claude_docker.Common.{
  ℕ, zero, suc, ◌+◌, ◌-◌, ◌*◌, ◌/◌, ◌%◌, Bool, true, false, Option, none, some, List, [], ◌∷◌, ◌++◌,
  map, if◌then◌else◌, ◌==◌, ltb,
}
use claude_docker.Text.{Text, codes, truthy, text_eq}
use claude_docker.Terminal.State.{
  Term, Socket, Message, json, opened, received, closed_with, kill_clicked, kill_returns,
}
use claude_docker.Terminal.Connection.{handle, sid_text}
use claude_docker.Server.Sessions.{Row, Entry, Pool, create, attach, delete_session}

-- base64.RawURLEncoding of 16 bytes: 22 digits, the last of which has four bits to spare.
abbrev pub base64_unit : ℕ → ℕ
base64_unit n =
    if ltb n 26
    then 65 + n
    else if ltb n 52
    then 71 + n
    else if ltb n 62
    then n - 4
    else if n == 62
    then 45
    else 95

abbrev pub base64_units : ℕ → ℕ → Text
base64_units zero n = []
base64_units (suc k) n = base64_units k (n / 64) ++ (base64_unit (n % 64) ∷ [])

unfoldable pub id_text : ℕ → Text
id_text id = base64_units 22 (id * 16)

-- The id that a text names, among those that the server knows.
unfoldable pub find_id : Text → List ℕ → Option ℕ
find_id x [] = none
find_id x (j ∷ js) = let rest = find_id x js in if text_eq (id_text j) x then some j else rest

abbrev pub known_ids : Pool → List ℕ
known_ids s = map (λ (e : Entry). e.id) s.live ++ map (λ (r : Row). r.id) s.rows

-- What ensureSession returns: the status, the id, and the pool after it.
pub record Ensured : Type 0 where
  pub status : ℕ
  pub id : ℕ
  pub pool : Pool

abbrev pub ensured : ℕ → ℕ × Pool → Ensured
ensured id (status, pool) = record { status = status; id = id; pool = pool }

-- The path to a session that the client names.
abbrev pub ensure_named : Option ℕ → ℕ → ℕ → Pool → Ensured
ensure_named none v now s = record { status = 404; id = 0; pool = s }
ensure_named (some j) v now s = ensured j (attach v j now s)

-- ensureSession
unfoldable pub ensure_session : ℕ → ℕ → ℕ → ℕ → Text → Pool → Ensured
ensure_session cap v fresh now sid s =
    if truthy sid
    then ensure_named (find_id sid (known_ids s)) v now s
    else ensured fresh (create cap v fresh now s)

pub record World : Type 0 where
  pub page : Term
  pub pool : Pool

-- The query of the address that the page has opened.
abbrev pub requested : Option Socket → Text
requested none = []
requested (some w) = w.requested

abbrev pub session_message : ℕ → Message
session_message j = record { type = codes "session"; id = id_text j; exit_code = none }

-- The page after the answer: a socket that is accepted opens, and the message with the id follows;
-- for a handshake that is refused the browser reports 1006.
abbrev pub answered : Ensured → Term → World
answered r page = record {
  page =
      if r.status == 200
      then handle (received (json (session_message r.id))) (handle opened page)
      else handle (closed_with 1006) page;
  pool = r.pool;
}

-- handleTerminalWS; the user is none where authWSUser refuses.
unfoldable pub handle_terminal : Option ℕ → ℕ → ℕ → ℕ → World → World
handle_terminal none cap fresh now w =
    answered (record { status = 401; id = 0; pool = w.pool }) w.page
handle_terminal (some v) cap fresh now w =
    answered (ensure_session cap v fresh now (requested w.page.ws) w.pool) w.page

-- The handshake does not reach the server.
unfoldable pub handshake_fails : World → World
handshake_fails w = record w { page = handle (closed_with 1006) w.page }

-- handleDeleteSession for the id that a text names.
abbrev pub delete_named : Option ℕ → ℕ → Pool → Pool
delete_named none v s = s
delete_named (some j) v s = (delete_session v j s).1

-- The restart button; if the page keeps an id, its request, and the answer.
unfoldable pub press_restart : ℕ → World → World
press_restart v w =
    let x = sid_text w.page.current_sid in
    if truthy x
    then record {
      page = handle (kill_returns true) (handle kill_clicked w.page);
      pool = delete_named (find_id x (known_ids w.pool)) v w.pool;
    }
    else record w { page = handle kill_clicked w.page }
