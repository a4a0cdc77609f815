-- ===== src/Terminal/Wording.antt =====
-- The texts of the status line of the terminal (web/src/terminal.js).
use claude_docker.Common.{ℕ, [], ◌++◌, if◌then◌else◌, ◌==◌}
use claude_docker.Text.{Text, codes}
use claude_docker.Size.{decimal}
use claude_docker.Terminal.State.{
  Status, blank, connecting_status, giving_up, expired, reconnecting_in, disconnected, in_session,
  ended,
}

-- `CLOSE_REASONS[ev.code] || "closed (…)"`
abbrev pub close_reason : ℕ → Text
close_reason code =
    if code == 1000
    then codes "closed"
    else if code == 1006
    then codes "aborted (network/proxy)"
    else if code == 1008
    then codes "rejected (policy/auth)"
    else if code == 1011
    then codes "server error"
    else codes "closed (" ++ (decimal code ++ codes ")")

unfoldable pub status_text : Status → Text
status_text blank = []
status_text connecting_status = codes "connecting…"
status_text giving_up = codes "giving up — reload or sign in again"
status_text expired = codes "session expired — reload to sign in"
status_text (reconnecting_in seconds) = codes "reconnecting in " ++ (decimal seconds ++ codes "s…")
status_text (disconnected code) = codes "disconnected — " ++ close_reason code
status_text (in_session id) = codes "session " ++ id
status_text (ended code) = codes "session ended (exit " ++ (code ++ codes ") — restarting")
