-- ===== src/App/Tables.antt =====
-- The HTML of the rows in the tables of users and of logins (refreshUsers and viewAudit of
-- web/src/main.js). Dates are written by the browser: the text `when` is an argument.
pub mod Markup
use claude_docker.Common.{
  ℕ, suc, ◌+◌, Bool, true, false, List, [], ◌∷◌, ◌++◌, if◌then◌else◌, take, ◌==◌,
}
use claude_docker.Text.{concat, Text, codes, text_eq, truthy}
use claude_docker.Escape.{esc}
use claude_docker.Size.{decimal}

-- `x || "—"`
abbrev pub or_dash : Text → Text
or_dash [] = codes "—"
or_dash (c ∷ s) = c ∷ s

-- An element of the answer of /api/admin/login-events.
pub record LoginEvent : Type 0 where
  pub username : Text
  pub ip : Text
  pub user_agent : Text
  pub success : Bool

abbrev pub result_pill : Bool → Text
result_pill success =
    if success
    then codes "<span class=\"pill online\">ok</span>"
    else codes "<span class=\"pill suspended\">fail</span>"

abbrev pub audit_parts : Text → LoginEvent → List Text
audit_parts when e =
    codes "<td class=\"muted\">"
    ∷ esc when
    ∷ codes "</td><td><b>"
    ∷ esc e.username
    ∷ codes "</b></td><td class=\"muted\">"
    ∷ esc (or_dash e.ip)
    ∷ codes "</td><td>"
    ∷ result_pill e.success
    ∷ codes "</td><td class=\"muted tiny\">"
    ∷ esc (take 60 (or_dash e.user_agent))
    ∷ codes "</td>"
    ∷ []

-- The innerHTML of a row of viewAudit.
unfoldable pub audit_row : Text → LoginEvent → Text
audit_row when e = concat (audit_parts when e)

-- An element of the answer of /api/admin/users.
pub record Account : Type 0 where
  pub id : ℕ
  pub username : Text
  pub role : Text
  pub suspended : Bool

abbrev pub status_pill : Bool → Text
status_pill suspended =
    if suspended
    then codes "<span class=\"pill suspended\">suspended</span>"
    else codes "<span class=\"pill online\">active</span>"

-- `<td class="muted" id="d-${u.id}">—</td>`, for each of the letters
abbrev pub id_cell : Text → ℕ → Text
id_cell letter id =
    concat
      (codes "<td class=\"muted\" id=\"" ∷ letter ∷ codes "-" ∷ decimal id ∷ codes "\">—</td>" ∷ [])

-- The innerHTML of a row of refreshUsers: the role is written as it is.
abbrev pub user_parts : Account → List Text
user_parts u =
    codes "<td><b>"
    ∷ esc u.username
    ∷ codes "</b></td><td><span class=\"pill "
    ∷ (if text_eq u.role (codes "admin") then codes "admin" else [])
    ∷ codes "\">"
    ∷ u.role
    ∷ codes "</span></td><td>"
    ∷ status_pill u.suspended
    ∷ codes "</td>"
    ∷ id_cell (codes "d") u.id
    ∷ id_cell (codes "t") u.id
    ∷ id_cell (codes "s") u.id
    ∷ id_cell (codes "ll") u.id
    ∷ []

unfoldable pub user_row : Account → Text
user_row u = concat (user_parts u)
