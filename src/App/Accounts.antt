-- ===== src/App/Accounts.antt =====
-- What administrators do on the page of users (refreshUsers, userModal, loadAnthropic of
-- web/src/main.js), and the meters of the page of traffic (refreshTraffic).
use claude_docker.Common.{
  ℕ, ◌+◌, Bool, Option, none, some, List, [], ◌∷◌, ◌++◌, length, if◌then◌else◌, ltb,
}
use claude_docker.Text.{Text, codes, truthy, concat}
use claude_docker.Escape.{esc}
use claude_docker.Size.{decimal, fmt_bytes}
use claude_docker.Api.{Answer, failed, responded, get_json, ok, is_ok}
use claude_docker.App.Tables.{Account}
use claude_docker.Terminal.State.{Session}

-- The users that the table shows: none if the request fails.
unfoldable pub listed_users : Answer (List Account) → List Account
listed_users answer = elim (get_json answer) [ ok accounts ↦ accounts | _ ↦ [] ]

abbrev pub account_path : Account → Text
account_path u = codes "/api/admin/users/" ++ decimal u.id

-- The path to which the first button of a row posts.
unfoldable pub suspend_path : Account → Text
suspend_path u =
    account_path u ++ (codes "/" ++ (if u.suspended then codes "unsuspend" else codes "suspend"))

-- The path that the second button deletes, given whether the user confirms.
unfoldable pub delete_path : Bool → Account → Option Text
delete_path confirmed u = if confirmed then some (account_path u) else none

-- The answer of …/usage.
pub record Usage : Type 0 where
  pub used : Option ℕ
  pub limit : Option ℕ
  pub over : Bool
  pub rx : Option ℕ
  pub tx : Option ℕ
  pub alive : ℕ
  pub total : ℕ

-- The cells `d-…`, `t-…` and `s-…`.
unfoldable pub disk_cell : Usage → Text
disk_cell us = concat (
    fmt_bytes us.used
    ∷ codes " / "
    ∷ fmt_bytes us.limit
    ∷ (if us.over then codes " <span class=\"pill suspended\">over</span>" else [])
    ∷ [])

unfoldable pub traffic_cell : Usage → Text
traffic_cell us = concat (codes "↓" ∷ fmt_bytes us.rx ∷ codes " ↑" ∷ fmt_bytes us.tx ∷ [])

unfoldable pub sessions_cell : Usage → Text
sessions_cell us = concat (decimal us.alive ∷ codes "/" ∷ decimal us.total ∷ [])

-- The cell `ll-…`, given the time of the last login in seconds, the date that the browser writes
-- for it, and the address.
unfoldable pub login_cell : Option ℕ → Text → Text → Text
login_cell at date ip =
    let when : Text = elim at [
      | none ↦ codes "never"
      | some seconds ↦ if ltb 0 seconds then date else codes "never"
    ] in
    esc when
    ++ (if truthy ip
        then concat (codes " <span class=\"faint tiny\">" ∷ esc ip ∷ codes "</span>" ∷ [])
        else [])

-- userModal: whether the form stays, and with which message.
pub data Modal : Type 0 where
  shut : Modal
  refused_with : Text → Modal

unfoldable pub create_answered : ℕ → Modal
create_answered status =
    if is_ok status then shut else refused_with (codes "Failed (" ++ (decimal status ++ codes ")"))

-- The field of loadAnthropic, given `auth_token` of the answer, and the alert after saving.
unfoldable pub token_field : Answer (Option Text) → Text
token_field answer = elim (get_json answer) [ ok (some token) ↦ token | _ ↦ [] ]

unfoldable pub save_alert : Answer (List ℕ) → Option Text
save_alert failed = some (codes "Save failed (network)")
save_alert (responded status _) =
    if is_ok status then none else some (codes "Save failed (" ++ (decimal status ++ codes ")"))

abbrev pub count_alive : List Session → ℕ
count_alive [] = 0
count_alive (x ∷ xs) = (if x.alive then 1 else 0) + count_alive xs

-- The meters of refreshTraffic: the sessions, and those that are alive; `none` is an answer that is
-- no list.
unfoldable pub meters : Option (List Session) → Option (ℕ × ℕ)
meters none = none
meters (some sessions) = some (length sessions, count_alive sessions)
