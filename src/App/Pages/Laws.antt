-- ===== src/App/Pages/Laws.antt =====
-- The sidebar that is drawn shows the state.
use claude_docker.Common.{
  ℕ, ◌+◌, Bool, true, false, some, List, [], ◌∷◌, ◌++◌, map, if◌then◌else◌, ◌≡◌, refl, ap, ◌∙◌,
  arith, Bool-cases, inl, inr,
}
use claude_docker.Text.{Text, codes, text_eq, truthy}
use claude_docker.Dom.{el, append, set_entry, set_entries, add_kids}
use claude_docker.Dom.Laws.{clicks, clicks_all, elements, pieces}
use claude_docker.Escape.Markup.{count, count-concat}
use claude_docker.App.{
  App, User, load, step, nav, apply_theme, toggle_menu, NavButton, sidebar, sidebar_pages,
  theme_buttons, role_of,
}
use claude_docker.App.Pages.{
  Action, go_to, pick_theme, leave, nav_button, theme_toggle, add_theme_buttons, add_nav_buttons,
  render_sidebar, title_of, who_html, who_parts, change_password_page, login_page,
}
use claude_docker.App.Pages.Drawn.{
  Drawn, Click, to_page, to_menu, to_theme, draw_nav, draw_click, render_app, run_clicks,
}

abbrev nav_click : NavButton → Action × Text
nav_click b = (go_to b.page, codes "nav-item" ++ (if b.active then codes " active" else []))

abbrev theme_click : Text × Bool → Action × Text
theme_click (t, chosen) = (pick_theme t, if chosen then codes "active" else [])

-- What the sidebar of a state is to offer.
abbrev pub expected_clicks : App → List (Action × Text)
expected_clicks s =
    map nav_click (sidebar s)
    ++ (map theme_click (theme_buttons s) ++ ((leave, codes "nav-item") ∷ []))

render_sidebar-clicks : (s : App) → clicks_all (render_sidebar s) ≡ expected_clicks s
unfolding clicks render_sidebar add_nav_buttons append el set_entry set_entries add_kids nav_button
    theme_toggle add_theme_buttons sidebar sidebar_pages theme_buttons text_eq
render_sidebar-clicks s = elim (Bool-cases (text_eq (role_of s.self) (codes "admin"))) [
  | inl admin ↦ rw admin refl
  | inr other ↦ rw other refl
]

-- What is drawn is the state.
record IsInSync (s : App) (d : Drawn) : Type 0 where
  titled : d.title ≡ title_of s.current
  viewed : d.view ≡ some s.current
  sided : d.side ≡ render_sidebar s

render_app-IsInSync : (u : User) (s : App) → IsInSync s (render_app u s)
unfolding render_app draw_nav
render_app-IsInSync u s = record { titled = refl; viewed = refl; sided = refl }

run_clicks-IsInSync :
    (width : ℕ) (cs : List Click) (s : App) (d : Drawn)
    → IsInSync s d
    → IsInSync (run_clicks width cs s d).0 (run_clicks width cs s d).1
      × ((run_clicks width cs s d).1.who ≡ d.who)
unfolding run_clicks draw_click draw_nav step nav apply_theme toggle_menu render_sidebar
run_clicks-IsInSync width [] s d v = (v, refl)
run_clicks-IsInSync width (to_page p ∷ cs) s d v =
    run_clicks-IsInSync width cs _ _ (record { titled = refl; viewed = refl; sided = refl })
run_clicks-IsInSync width (to_menu ∷ cs) s d v =
    run_clicks-IsInSync width cs _ _
      (record { titled = v.titled; viewed = v.viewed; sided = v.sided })
run_clicks-IsInSync width (to_theme t ∷ cs) s d v =
    run_clicks-IsInSync width cs _ _ (record { titled = v.titled; viewed = v.viewed; sided = refl })

-- After renderApp and any clicks on the sidebar, the theme buttons and the menu button, the title is
-- that of the current page, the function of that page is the one called last on the element of the
-- view, the header is that of the user, and what can be clicked in the sidebar that was drawn last,
-- with its marks, is what the state asks for: the pages that the role is offered, the current one
-- marked, the three themes, the stored one marked, and signing out.
pub shell_in_sync :
    (width : ℕ) (cs : List Click) (u : User) (s : App)
    → let (t, d) = run_clicks width cs s (render_app u s) in
      (d.title ≡ title_of t.current)
      × (d.view ≡ some t.current)
      × (d.who ≡ who_html u)
      × (clicks_all d.side ≡ expected_clicks t)
unfolding render_app draw_nav
shell_in_sync width cs u s =
    let (v, who) = run_clicks-IsInSync width cs s (render_app u s) (render_app-IsInSync u s) in
    (v.titled, v.viewed, who, ap clicks_all v.sided ∙ render_sidebar-clicks _)

-- A theme that is picked, if it is not the empty text, is still there after the page has been loaded
-- again: the element html has the same attribute, and the toggle marks a button exactly if it is that
-- theme's, both before and after.
pub theme_persists :
    (t : Text) (s : App)
    → truthy t ≡ true
    → let u = apply_theme t s in
      ((load u.stored_theme).theme_attribute ≡ u.theme_attribute)
      × (theme_buttons u
          ≡ map (λ b. (b, text_eq b t)) (codes "light" ∷ codes "dark" ∷ codes "system" ∷ []))
      × (theme_buttons (load u.stored_theme) ≡ theme_buttons u)
unfolding apply_theme load theme_buttons
theme_persists [] s h = cc
theme_persists (c ∷ t) s h = (refl, refl, refl)

-- The login page and the page for a new password have no HTML but the elements that the code makes,
-- whatever the message and the user name hold.
pub pages_plain :
    (username message : Text)
    → (pieces (login_page message) ≡ 0)
      × (pieces (change_password_page username message) ≡ 0)
      × (elements (login_page message) ≡ 12)
      × (elements (change_password_page username message) ≡ 8)
unfolding login_page change_password_page el set_entry set_entries add_kids append pieces elements
    text_eq
pages_plain username [] = (refl, refl, refl, refl)
pages_plain username (c ∷ message) = (refl, refl, refl, refl)

-- The header has the four tags and the two quotes of its template, and besides them every bracket and
-- quote that the user name and the role hold: they are written as they are.
pub who_html-markup :
    (u : User)
    → (count b'<' (who_html u) ≡ 4 + count b'<' u.username + count b'<' u.role)
      × (count b'"' (who_html u) ≡ 2 + count b'"' u.username + count b'"' u.role)
unfolding who_html
who_html-markup u =
    let (a, b) = class_free (text_eq u.role (codes "admin")) in
    (
      omega (arith, count-concat b'<' (who_parts u), a),
      omega (arith, count-concat b'"' (who_parts u), b),
    )
  where
    class_free :
        (admin : Bool)
        → let s = if admin then codes "pill admin" else codes "faint" in
          (count b'<' s ≡ 0) × (count b'"' s ≡ 0)
    class_free true = (refl, refl)
    class_free false = (refl, refl)
