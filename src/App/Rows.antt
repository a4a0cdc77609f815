-- ===== src/App/Rows.antt =====
-- The rows of the tables of users and of logins as they are put together (refreshUsers and viewAudit
-- of web/src/main.js), and the meters of refreshTraffic as they are shown.
use claude_docker.Common.{Option, none, some, List, [], ◌∷◌, ◌++◌, map, if◌then◌else◌}
use claude_docker.Text.{Text, codes, concat}
use claude_docker.Size.{decimal}
use claude_docker.Dom.{Node, el, string, node}
use claude_docker.Api.{Answer, get_json, ok}
use claude_docker.Terminal.State.{Session}
use claude_docker.App.Tables.{Account, user_row, LoginEvent, audit_row}
use claude_docker.App.Accounts.{listed_users, meters}

-- What a button of a row calls.
pub data RowAction : Type 0 where
  switch_suspended : Account → RowAction
  delete_user : Account → RowAction

abbrev row_button : RowAction → List (Text × Text) → Text → Node RowAction
row_button act attrs text = el (codes "button") (some act) attrs (string text ∷ [])

-- The cell `act` of a row.
unfoldable pub action_cell : Account → Node RowAction
action_cell u = el (codes "td") none [] (
    node (
      row_button (switch_suspended u)
        ((
          codes "class",
          codes "btn tiny " ++ (if u.suspended then codes "ghost" else codes "danger"),
        )
          ∷ [])
        (if u.suspended then codes "Unsuspend" else codes "Suspend"))
    ∷ node (
        row_button (delete_user u)
          ((codes "class", codes "btn tiny danger")
            ∷ (codes "style", codes "margin-left: 4px;")
            ∷ [])
          (codes "Delete"))
    ∷ [])

-- A row: the innerHTML of its first cells, and the cell that is appended.
pub record UserRow : Type 0 where
  pub html : Text
  pub actions : Node RowAction

abbrev pub row_of : Account → UserRow
row_of u = record { html = user_row u; actions = action_cell u }

-- The rows of refreshUsers, given the answer.
unfoldable pub user_rows : Answer (List Account) → List UserRow
user_rows answer = map row_of (listed_users answer)

abbrev no_events : Text
no_events = codes "<tr><td class=\"muted\" colspan=\"5\">No login events yet.</td></tr>"

-- What `tb` of viewAudit holds in the end: the innerHTML of each row, or its own.
pub data AuditBody : Type 0 where
  rows : List Text → AuditBody
  html_of : Text → AuditBody

abbrev audit_body_of : (LoginEvent → Text) → List LoginEvent → AuditBody
audit_body_of when [] = html_of no_events
audit_body_of when (e ∷ events) = rows (map (λ e. audit_row (when e) e) (e ∷ events))

unfoldable pub audit_body : (LoginEvent → Text) → Answer (List LoginEvent) → AuditBody
audit_body when answer = elim (get_json answer) [
  | ok events ↦ audit_body_of when events
  | _ ↦ html_of no_events
]

-- The innerHTML of `meters`.
unfoldable pub meters_html : Option (List Session) → Text
meters_html answer = elim (meters answer) [
  | none ↦ codes "<span class=\"muted\">—</span>"
  | some (total, alive) ↦ concat (
      codes "<div class=\"meter\">Sessions <b>"
      ∷ decimal total
      ∷ codes "</b></div><div class=\"meter\">Alive <b>"
      ∷ decimal alive
      ∷ codes "</b></div>"
      ∷ [])
]
