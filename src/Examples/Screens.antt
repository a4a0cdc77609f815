-- ===== src/Examples/Screens.antt =====
-- Screens as they are drawn, and the theorems at them.
use claude_docker.Common.{ℕ, false, List, [], ◌∷◌, ◌≡◌, refl, arith, none, some}
use mathlib.Core.List.{Memᴰ}
use claude_docker.Text.{codes}
use claude_docker.Dom.Laws.{clicks_all}
use claude_docker.App.{User, App, files, load, apply_theme, theme_buttons}
use claude_docker.App.Pages.{who_html, title_of}
use claude_docker.App.Pages.Drawn.{Click, to_page, to_menu, to_theme, render_app, run_clicks}
use claude_docker.App.Pages.Laws.{shell_in_sync, expected_clicks}
use claude_docker.App.Tables.{Account}
use claude_docker.App.Accounts.{Usage}
use claude_docker.App.UsageCells.{fill_all, draw_rows}
use claude_docker.App.UsageCells.Order.{ShowsUsage, usage_in_any_order}
use claude_docker.Files.View.{list_view}
use claude_docker.App.{users, terminal}
use claude_docker.App.Mounted.{MountEvent, visited, files_loaded, mount_step, mount_run, fresh}
use claude_docker.Files.Sort.{by_name}
use claude_docker.Files.Keys.{KeyDown}

abbrev root : User
root = record { username = codes "root"; role = codes "admin"; must_change_password = false }

abbrev shown : App
shown = record (load none) { self = some root; screen = claude_docker.App.shell }

abbrev some_clicks : List Click
some_clicks = to_page files ∷ to_theme (codes "dark") ∷ to_menu ∷ []

shell_in_sync_example :
    let (t, d) = run_clicks 1200 some_clicks shown (render_app root shown) in
    (d.title ≡ title_of t.current)
    × (d.view ≡ some t.current)
    × (d.who ≡ who_html root)
    × (clicks_all d.side ≡ expected_clicks t)
shell_in_sync_example = shell_in_sync 1200 some_clicks root shown

abbrev account : ℕ → Account
account n = record { id = n; username = codes "u"; role = codes "user"; suspended = false }

abbrev usage : ℕ → Usage
usage n = record {
  used = some n;
  limit = some 1024;
  over = false;
  rx = none;
  tx = none;
  alive = 1;
  total = 2;
}

-- The answer for the second user comes first.
usage_in_any_order_example : ShowsUsage (account 1) (usage 10) (
    fill_all
      ((account 2, usage 20) ∷ (account 1, usage 10) ∷ [])
      (draw_rows (λ _. codes "never") (account 1 ∷ account 2 ∷ [])))
usage_in_any_order_example =
    usage_in_any_order (λ _. codes "never") (account 1 ∷ account 2 ∷ [])
      ((account 2, usage 20) ∷ (account 1, usage 10) ∷ []) (account 1) (usage 10) (ground arith)
      (Memᴰ.head refl) (Memᴰ.tail (Memᴰ.head refl))

abbrev visits : List MountEvent
visits = visited files ∷ files_loaded ∷ visited terminal ∷ visited files ∷ files_loaded ∷ []

abbrev delete_key : KeyDown
delete_key = record {
  tag_name = codes "DIV";
  target_type = [];
  alt = false;
  ctrl = false;
  meta = false;
  key = codes "Delete";
}

-- The module of the files arrives when the user has gone on to the terminal.
late_module :
    (mount_run 80 24 list_view by_name
      (visited files ∷ visited terminal ∷ files_loaded ∷ [])
      fresh).content
    ≡ some files
unfolding mount_step fresh
late_module = refl
