-- ===== src/Examples/AppRuns.antt =====
-- Lives of the application shell, and the theorems at them.
use claude_docker.Common.{true, false, none, some, [], ◌∷◌, ◌≡◌, refl}
use claude_docker.Text.{codes, text_eq}
use claude_docker.Api.{failed, responded, get_json, broken, upload_result, ws_calls}
use claude_docker.App.{
  User, terminal, files, users, audit, starting, login, shell, App, apply_theme, load, boot,
  show_user, nav, sign_in, sign_out, sidebar, sidebar_pages, theme_buttons, step, signed_in,
  page_clicked, booted, role_of, set_password, password_request,
}
use claude_docker.App.Shell.{here, next, IsSound, Reach-IsSound}
use claude_docker.App.Tables.{LoginEvent, audit_row, Account}
use claude_docker.App.Tables.Markup.{audit_row-markup}
use claude_docker.Escape.Markup.{count}

abbrev boss : User
boss = record { username = codes "root"; role = codes "admin"; must_change_password = false }

abbrev fresh : App
fresh = record {
  self = none;
  screen = starting;
  current = terminal;
  sidebar_open = false;
  stored_theme = some (codes "dark");
  theme_attribute = some (codes "dark");
}

fresh_loaded : load (some (codes "dark")) ≡ fresh
unfolding load apply_theme text_eq
fresh_loaded = refl

abbrev on_audit : App
on_audit = record fresh { self = some boss; screen = shell; current = audit }

audit_shown :
    step 1280 (page_clicked audit) (
      step 1280
        (signed_in true (responded 200 (some boss)))
        (step 1280 (booted (responded 401 none)) fresh))
    ≡ on_audit
unfolding step boot get_json sign_in show_user nav
audit_shown = refl

short_password :
    (set_password 1280 (codes "eve") (codes "12345") true failed fresh).screen
    ≡ claude_docker.App.change_password (codes "eve") (codes "At least 6 characters.")
unfolding set_password password_request
short_password = refl

broken_upload : (upload_result broken).ok ≡ false
unfolding upload_result
broken_upload = refl

called_twice : ws_calls (λ v. v) (some true) ≡ some true ∷ none ∷ []
unfolding ws_calls
called_twice = refl

Reach-IsSound_example :
    IsSound (step 1280 (page_clicked files) (step 1280 (booted (responded 200 (some boss))) fresh))
unfolding step boot get_json show_user nav sidebar_pages
Reach-IsSound_example =
    Reach-IsSound fresh refl
      (next (next here 1280 (booted (responded 200 (some boss))) tt) 1280 (page_clicked files) refl)

abbrev intruder : LoginEvent
intruder = record {
  username = codes "<script>";
  ip = [];
  user_agent = codes "\"><img src=x>";
  success = false;
}

audit_row-markup_example :
    (count b'<' (audit_row (codes "1/1/2026") intruder) ≡ 14)
    × (count b'"' (audit_row (codes "1/1/2026") intruder) ≡ 8)
audit_row-markup_example = audit_row-markup (codes "1/1/2026") intruder

abbrev somebody : Account
somebody = record { id = 7; username = codes "<b>"; role = codes "user"; suspended = true }
