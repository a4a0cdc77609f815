-- ===== src/Examples/ServerInput.antt =====
-- Typing into a session, and the reaper.
use claude_docker.Common.{true, false, List, [], ◌∷◌, ◌≡◌, refl, arith}
use claude_docker.Text.{codes}
use claude_docker.Terminal.State.{Term, new, opened, typed, pasted, resized, Event, input}
use claude_docker.Terminal.Connection.{handle, attach, clear_timer}
use claude_docker.Json.{stringify, fields_text, field_text, quote_after, quote_unit}
use claude_docker.Requests.{sent_text}
use claude_docker.Url.{utf8}
use claude_docker.Server.Sessions.{reap_idle, get_live}
use claude_docker.Server.Sessions.Views.{row_on}
use claude_docker.Server.Input.{Desk, fits, data_bytes, runes_after, read_message, read_messages}
use claude_docker.Server.Input.Kept.{typing_keeps}
use claude_docker.Examples.ServerSessions.{pool}

abbrev desk : Desk
desk = record { pool = pool; key = 0; id = 200; written = []; size = (80, 24); reading = true }

-- A page with an open connection.
abbrev page : Term
page = handle opened (attach (codes "x") (new 80 24))

-- The container is collapsed for a moment, and then larger.
abbrev busy : List Event
busy = typed (codes "l") ∷ resized 0 0 ∷ pasted (codes "s\r") ∷ resized 100 30 ∷ []

-- An umlaut is two bytes, and a surrogate that stands alone becomes U+FFFD.
read_size :
    (read_messages 32768 9 (input (252 ∷ 55357 ∷ []) ∷ []) desk).written
    ≡ 195 ∷ 188 ∷ 239 ∷ 191 ∷ 189 ∷ []
unfolding read_message fits data_bytes runes_after sent_text stringify utf8 fields_text field_text
    quote_after quote_unit
read_size = refl

-- Typed at 100, and 130 seconds later, with half an hour to be idle and a day to live.
typing_keeps_example :
    let t = reap_idle (λ u. true) 1800 86400 230 (read_message 100 (input (codes "a")) desk).pool in
    (get_live 7 200 t.live ≡ get_live 7 200 pool.live)
    × (row_on 7 200 t.rows ≡ row_on 7 200 pool.rows)
typing_keeps_example =
    typing_keeps (λ u. true) 1800 86400 100 230 7 (codes "a") desk (omega arith) (refl, (refl, tt))

-- Without the typing the session ends after half an hour.
reaped : row_on 7 200 (reap_idle (λ u. true) 1800 86400 1810 pool).rows ≡ false
unfolding reap_idle get_live
reaped = refl
