-- ===== src/App/Pages.antt =====
-- The elements that web/src/main.js makes for its screens. (The widths that are set on the first
-- child afterwards are left out.)
pub mod Drawn
pub mod Laws
use claude_docker.Common.{
  ℕ, ◌-◌, Bool, Option, none, some, List, [], ◌∷◌, ◌++◌, if◌then◌else◌, leb, ◌&&◌,
}
use claude_docker.Text.{Text, codes, text_eq, concat}
use claude_docker.Dom.{Node, Nodes, end, el, append, Kid, string, node}
use claude_docker.App.{
  User, Page, terminal, files, traffic, users, audit, App, page_eq, role_of, theme_or_system,
}

-- What a click calls.
pub data Action : Type 0 where
  submit : Action
  go_to : Page → Action
  pick_theme : Text → Action
  leave : Action

abbrev plain : Text → List (Text × Text) → List (Kid Action) → Node Action
plain tag attrs kids = el tag none attrs kids

abbrev label : Text → Kid Action
label text = node (plain (codes "label") ((codes "class", codes "lbl") ∷ []) (string text ∷ []))

abbrev gap : Text → Kid Action
gap style = node (plain (codes "div") ((codes "style", style) ∷ []) [])

-- The children that `textContent` gives an element.
abbrev text_kids : Text → List (Kid Action)
text_kids [] = []
text_kids (c ∷ s) = string (c ∷ s) ∷ []

-- The element `err` with the text that it was given last.
abbrev err : Text → Kid Action
err message = node (
    plain (codes "p") ((codes "class", codes "muted") ∷ (codes "id", codes "err") ∷ [])
      (text_kids message))

-- shell(cls, kids): the only child of `app`.
abbrev shell : Text → List (Kid Action) → Node Action
shell cls kids = plain (codes "div") ((codes "class", cls) ∷ []) kids

-- renderLogin()
unfoldable pub login_page : Text → Node Action
login_page message = shell (codes "login-card") (
    node (
      plain (codes "h1")
        ((codes "style", codes "color:var(--accent);margin:0 0 4px;font-size:20px") ∷ [])
        (string (codes "Claude") ∷ []))
    ∷ node (
        plain (codes "p")
          ((codes "class", codes "muted") ∷ (codes "style", codes "margin:0 0 22px") ∷ [])
          (string (codes "Sign in") ∷ []))
    ∷ label (codes "Username")
    ∷ node (
        plain (codes "input")
          ((codes "class", codes "field")
            ∷ (codes "id", codes "u")
            ∷ (codes "placeholder", codes "Username")
            ∷ (codes "autofocus", codes "true")
            ∷ [])
          [])
    ∷ gap (codes "height:10px")
    ∷ label (codes "Password")
    ∷ node (
        plain (codes "input")
          ((codes "class", codes "field")
            ∷ (codes "id", codes "p")
            ∷ (codes "type", codes "password")
            ∷ (codes "placeholder", codes "Password")
            ∷ [])
          [])
    ∷ gap (codes "height:16px")
    ∷ node (
        el (codes "button") (some submit) ((codes "class", codes "btn") ∷ [])
          (string (codes "Sign in") ∷ []))
    ∷ gap (codes "height:10px")
    ∷ err message
    ∷ [])

-- renderChangePassword(username)
unfoldable pub change_password_page : Text → Text → Node Action
change_password_page username message = shell (codes "login-card") (
    node (
      plain (codes "h1") ((codes "style", codes "color:var(--accent);margin:0 0 4px") ∷ [])
        (string (codes "Welcome, " ++ username) ∷ []))
    ∷ node (
        plain (codes "p")
          ((codes "class", codes "muted") ∷ (codes "style", codes "margin:0 0 18px") ∷ [])
          (string (codes "Set a new password to continue") ∷ []))
    ∷ label (codes "New password")
    ∷ node (
        plain (codes "input")
          ((codes "class", codes "field")
            ∷ (codes "id", codes "np")
            ∷ (codes "type", codes "password")
            ∷ (codes "placeholder", codes "New password")
            ∷ (codes "autofocus", codes "true")
            ∷ [])
          [])
    ∷ gap (codes "height:14px")
    ∷ node (
        el (codes "button") (some submit) ((codes "class", codes "btn") ∷ [])
          (string (codes "Set password") ∷ []))
    ∷ err message
    ∷ [])

-- The innerHTML of the element `who`.
abbrev pub who_parts : User → List Text
who_parts u =
    codes "● <b>"
    ∷ u.username
    ∷ codes "</b> <span class=\""
    ∷ (if text_eq u.role (codes "admin") then codes "pill admin" else codes "faint")
    ∷ codes "\">"
    ∷ u.role
    ∷ codes "</span>"
    ∷ []

unfoldable pub who_html : User → Text
who_html u = concat (who_parts u)

-- TITLES
abbrev pub title_of : Page → Text
title_of terminal = codes "Terminal"
title_of files = codes "Files"
title_of traffic = codes "Traffic"
title_of users = codes "Users"
title_of audit = codes "Audit"

-- navBtn(k, label), where the label of a page is its title.
unfoldable pub nav_button : Page → Page → Node Action
nav_button current p =
    el (codes "button") (some (go_to p))
      ((codes "class", codes "nav-item" ++ (if page_eq current p then codes " active" else []))
        ∷ [])
      (string (title_of p) ∷ [])

-- `t[0].toUpperCase() + t.slice(1)`, for the themes, which are in small letters.
abbrev pub capitalised : Text → Text
capitalised [] = []
capitalised (c ∷ t) = (if leb b'a' c && leb c b'z' then c - 32 else c) ∷ t

abbrev pub theme_button : Text → Text → Node Action
theme_button cur t =
    el (codes "button") (some (pick_theme t))
      ((codes "class", if text_eq t cur then codes "active" else []) ∷ [])
      (string (capitalised t) ∷ [])

unfoldable pub add_theme_buttons : Text → List Text → List (Kid Action)
add_theme_buttons cur [] = []
add_theme_buttons cur (t ∷ ts) = node (theme_button cur t) ∷ add_theme_buttons cur ts

-- themeToggle(), given what localStorage holds.
unfoldable pub theme_toggle : Option Text → Node Action
unfolding add_theme_buttons
theme_toggle stored = plain (codes "div") ((codes "class", codes "theme-toggle") ∷ []) (
    add_theme_buttons (theme_or_system stored) (codes "light" ∷ codes "dark" ∷ codes "system" ∷ []))

-- `for (const [k, label] of items) sb.appendChild(navBtn(k, label));`
unfoldable pub add_nav_buttons : Page → List Page → Nodes Action → Nodes Action
unfolding append
add_nav_buttons current [] sb = sb
add_nav_buttons current (p ∷ pages) sb =
    add_nav_buttons current pages (append sb (nav_button current p))

abbrev admin_group : Page → Nodes Action → Nodes Action
admin_group current sb = add_nav_buttons current (users ∷ audit ∷ []) (
    append sb (
      plain (codes "div") ((codes "class", codes "nav-group-label") ∷ [])
        (string (codes "Admin") ∷ [])))

-- renderSidebar(): the children of the element `sb`.
unfoldable pub render_sidebar : App → Nodes Action
unfolding append
render_sidebar s =
    let brand =
      plain (codes "div") ((codes "class", codes "brand") ∷ []) (string (codes "Claude") ∷ []) in
    let items = add_nav_buttons s.current (terminal ∷ files ∷ traffic ∷ []) (append end brand) in
    let all =
      if text_eq (role_of s.self) (codes "admin") then admin_group s.current items else items in
    append
      (append (append all (plain (codes "div") ((codes "class", codes "nav-spacer") ∷ []) []))
        (theme_toggle s.stored_theme))
      (el (codes "button") (some leave) ((codes "class", codes "nav-item") ∷ [])
        (string (codes "⎋ Sign out") ∷ []))
