-- ===== src/App/Pages/Drawn.antt =====
-- What the shell shows while the user clicks: renderApp, renderSidebar and nav of web/src/main.js, and
-- the handlers of the menu button and of the theme buttons.
use claude_docker.Common.{ℕ, Option, none, some, List, [], ◌∷◌}
use claude_docker.Text.{Text, codes}
use claude_docker.Dom.{Nodes, end}
use claude_docker.App.{App, User, Page, Event, page_clicked, menu_clicked, theme_clicked, step}
use claude_docker.App.Pages.{Action, render_sidebar, title_of, who_html}

-- The contents of `title`, `who` and `sb`, as they were set last, and the page whose function was
-- called on `view` last.
pub record Drawn : Type 0 where
  pub title : Text
  pub who : Text
  pub side : Nodes Action
  pub view : Option Page

abbrev pub redraw_sidebar : App → Drawn → Drawn
redraw_sidebar s d = record d { side = render_sidebar s }

-- What nav(view) draws, for the state after it.
unfoldable pub draw_nav : App → Drawn → Drawn
draw_nav s d = redraw_sidebar s (record d { title = title_of s.current; view = some s.current })

-- renderApp()
unfoldable pub render_app : User → App → Drawn
unfolding draw_nav
render_app u s =
    let fresh : Drawn = record { title = codes "Terminal"; who = []; side = end; view = none } in
    draw_nav s (record (redraw_sidebar s fresh) { who = who_html u })

pub data Click : Type 0 where
  to_page : Page → Click
  to_menu : Click
  to_theme : Text → Click

abbrev pub event_of : Click → Event
event_of (to_page p) = page_clicked p
event_of to_menu = menu_clicked
event_of (to_theme t) = theme_clicked t

-- What is drawn after a click that has led to this state.
unfoldable pub draw_click : Click → App → Drawn → Drawn
unfolding draw_nav
draw_click (to_page p) s d = draw_nav s d
draw_click to_menu s d = d
draw_click (to_theme t) s d = redraw_sidebar s d

unfoldable pub run_clicks : ℕ → List Click → App → Drawn → App × Drawn
unfolding draw_click
run_clicks width [] s d = (s, d)
run_clicks width (c ∷ cs) s d =
    let t = step width (event_of c) s in run_clicks width cs t (draw_click c t d)
