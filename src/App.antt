-- ===== src/App.antt =====
-- The application shell, web/src/main.js: boot, login, change of password, navigation, sidebar and
-- theme.
pub mod Tables
pub mod Shell
pub mod Pages
pub mod Accounts
pub mod Modals
pub mod Rows
pub mod UsageCells
pub mod Templates
pub mod Mounted
use claude_docker.Common.{
  ℕ, ◌≤◌, Bool, true, false, not, ◌&&◌, ◌||◌, Option, none, some, List, [], ◌∷◌, ◌++◌, map, length,
  if◌then◌else◌, ltb, leb,
}
use claude_docker.Text.{Text, codes, text_eq}
use claude_docker.Api.{Answer, get_json, Result, ok}

-- The answer of /api/me.
pub record User : Type 0 where
  pub username : Text
  pub role : Text
  pub must_change_password : Bool

-- The views: the keys of TITLES and VIEWS.
pub data Page : Type 0 where
  terminal files traffic users audit : Page

-- What the element `app` shows. A message is the text of the element `err`.
pub data Screen : Type 0 where
  starting : Screen
  login : Text → Screen
  change_password : Text → Text → Screen
  shell : Screen

pub record App : Type 0 where
  pub self : Option User
  pub screen : Screen
  pub current : Page
  pub sidebar_open : Bool
  pub stored_theme : Option Text
  pub theme_attribute : Option Text

-- applyTheme(t)
unfoldable pub apply_theme : Text → App → App
apply_theme t s = record s {
  theme_attribute = if text_eq t (codes "system") then none else some t;
  stored_theme = some t;
}

-- `localStorage.getItem("theme") || "system"`
abbrev pub theme_or_system : Option Text → Text
theme_or_system none = codes "system"
theme_or_system (some []) = codes "system"
theme_or_system (some (c ∷ t)) = c ∷ t

-- The page as it is loaded, with what localStorage holds, before boot() has its answer.
unfoldable pub load : Option Text → App
unfolding apply_theme
load stored = apply_theme (theme_or_system stored) (record {
  self = none;
  screen = starting;
  current = terminal;
  sidebar_open = false;
  stored_theme = stored;
  theme_attribute = none;
})

-- nav(view) on a window of the given width.
unfoldable pub nav : ℕ → Page → App → App
nav width page s = record s {
  current = page;
  sidebar_open = if leb width 760 then false else s.sidebar_open;
}

-- The rest of boot() when the user is known.
unfoldable pub show_user : ℕ → User → App → App
show_user width u s =
    let t = record s { self = some u } in
    if u.must_change_password
    then record t { screen = change_password u.username [] }
    else nav width t.current (record t { screen = shell; sidebar_open = false })

-- boot(), given the answer of /api/me.
unfoldable pub boot : ℕ → Answer User → App → App
boot width answer s = elim (get_json answer) [
  | ok u ↦ show_user width u s
  | _ ↦ record s { screen = login [] }
]

-- onclick of the login button, when /auth has answered; `answer` is that of /api/me.
unfoldable pub sign_in : ℕ → Bool → Answer User → App → App
sign_in width accepted answer s =
    if accepted
    then boot width answer s
    else record s { screen = login (codes "Invalid username or password.") }

-- The request that the button of the password screen sends: none if the password is too short.
unfoldable pub password_request : Text → Option Text
password_request new_password = if ltb (length new_password) 6 then none else some new_password

-- onclick of that button; `accepted` is the answer of /auth/change-password.
unfoldable pub set_password : ℕ → Text → Text → Bool → Answer User → App → App
set_password width username new_password accepted answer s = elim (password_request new_password) [
  | none ↦ record s { screen = change_password username (codes "At least 6 characters.") }
  | some _ ↦
      if accepted
      then boot width answer s
      else record s { screen = change_password username (codes "Failed.") }
]

abbrev pub role_of : Option User → Text
role_of none = []
role_of (some u) = u.role

-- The pages that renderSidebar offers to a role, in order.
unfoldable pub sidebar_pages : Text → List Page
sidebar_pages role =
    terminal ∷ files ∷ traffic ∷ []
    ++ (if text_eq role (codes "admin") then users ∷ audit ∷ [] else [])

abbrev pub page_eq : Page → Page → Bool
page_eq terminal terminal = true
page_eq files files = true
page_eq traffic traffic = true
page_eq users users = true
page_eq audit audit = true
page_eq _ _ = false

-- A button of the sidebar, and whether navBtn marks it.
pub record NavButton : Type 0 where
  pub page : Page
  pub active : Bool

unfoldable pub sidebar : App → List NavButton
sidebar s =
    map (λ p. record { page = p; active = page_eq s.current p }) (sidebar_pages (role_of s.self))

-- themeToggle(): the three buttons, and whether each is marked.
unfoldable pub theme_buttons : App → List (Text × Bool)
theme_buttons s =
    map (λ t. (t, text_eq t (theme_or_system s.stored_theme)))
      (codes "light" ∷ codes "dark" ∷ codes "system" ∷ [])

-- onclick of the menu button
unfoldable pub toggle_menu : App → App
toggle_menu s = record s { sidebar_open = not s.sidebar_open }

-- Signing out, when /auth/logout has answered: the page is loaded again, and localStorage stays.
unfoldable pub sign_out : App → App
unfolding load
sign_out s = load s.stored_theme

-- What the user and the answers do to the page.
pub data Event : Type 0 where
  booted : Answer User → Event
  signed_in : Bool → Answer User → Event
  password_set : Text → Bool → Answer User → Event
  page_clicked : Page → Event
  menu_clicked : Event
  theme_clicked : Text → Event
  signed_out : Event

abbrev pub username_of : Screen → Text
username_of (change_password username _) = username
username_of _ = []

unfoldable pub step : ℕ → Event → App → App
step width (booted answer) s = boot width answer s
step width (signed_in accepted answer) s = sign_in width accepted answer s
step width (password_set p accepted answer) s =
    set_password width (username_of s.screen) p accepted answer s
step width (page_clicked page) s = nav width page s
step width menu_clicked s = toggle_menu s
step width (theme_clicked t) s = apply_theme t s
step width signed_out s = sign_out s
