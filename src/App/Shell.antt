-- ===== src/App/Shell.antt =====
-- Who sees what: the pages of the shell, and the theme.
use claude_docker.Common.{
  ℕ, ◌+◌, Bool, true, false, not, ◌||◌, Option, none, some, Option-cases, List, [], ◌∷◌, map,
  if◌then◌else◌, if_ind, ◌≡◌, inl, inr, refl,
}
use claude_docker.Text.{Text, codes, text_eq}
use claude_docker.Api.{Answer, get_json, Result, ok, auth, bad_status, network, bad_body}
use claude_docker.App.{
  User, Page, terminal, files, traffic, users, audit, Screen, starting, login, change_password,
  shell, App, apply_theme, load, nav, show_user, boot, sign_in, password_request, set_password,
  role_of, sidebar_pages, page_eq, NavButton, sidebar, toggle_menu, sign_out, Event, booted,
  signed_in, password_set, page_clicked, menu_clicked, theme_clicked, signed_out, step,
}

abbrev pub offers : List Page → Page → Bool
offers [] p = false
offers (q ∷ pages) p = page_eq q p || offers pages p

-- An event is possible on the screen that has its button; /api/me is answered first of all.
abbrev pub Possible : Event → Screen → Option User → Type 0
Possible (booted _) starting u = Unit
Possible (signed_in _ _) (login _) u = Unit
Possible (password_set _ _ _) (change_password _ _) u = Unit
Possible (page_clicked p) shell u = offers (sidebar_pages (role_of u)) p ≡ true
Possible menu_clicked shell u = Unit
Possible (theme_clicked _) shell u = Unit
Possible signed_out shell u = Unit
Possible _ _ _ = ⊥

pub data Reach (s : App) : App → Type 0 where
  here : Reach s s
  next :
      {t : App}
      → Reach s t
      → (width : ℕ) (e : Event) → Possible e t.screen t.self
      → Reach s (step width e t)

-- The shell is shown to a known user who need not change the password, on a page that the sidebar
-- offers to the role; before that the page is the terminal.
abbrev pub SoundAt : Screen → Option User → Page → Type 0
SoundAt shell none p = ⊥
SoundAt shell (some u) p =
    (u.must_change_password ≡ false) × (offers (sidebar_pages u.role) p ≡ true)
SoundAt starting u p = p ≡ terminal
SoundAt (login _) u p = p ≡ terminal
SoundAt (change_password _ _) u p = p ≡ terminal

abbrev pub IsSound : App → Type 0
IsSound s = SoundAt s.screen s.self s.current

terminal_offered : (role : Text) → offers (sidebar_pages role) terminal ≡ true
unfolding sidebar_pages
terminal_offered role = refl

show_user-IsSound :
    (width : ℕ) (u : User) (s : App) → s.current ≡ terminal → IsSound (show_user width u s)
unfolding show_user nav
show_user-IsSound width u s t =
    if_ind IsSound u.must_change_password (λ _. t)
      (λ known. (known, rw t (terminal_offered u.role)))

boot-IsSound :
    (width : ℕ) (answer : Answer User) (s : App)
    → s.current ≡ terminal
    → IsSound (boot width answer s)
unfolding boot
boot-IsSound width answer s t = by_result (get_json answer) refl
  where
    by_result : (r : Result User) → get_json answer ≡ r → IsSound (boot width answer s)
    by_result (ok u) e = rw (e, boot) (show_user-IsSound width u s t)
    by_result auth e = rw (e, boot) t
    by_result (bad_status n) e = rw (e, boot) t
    by_result network e = rw (e, boot) t
    by_result bad_body e = rw (e, boot) t

sign_in-IsSound :
    (width : ℕ) (accepted : Bool) (answer : Answer User) (s : App)
    → s.current ≡ terminal
    → IsSound (sign_in width accepted answer s)
unfolding sign_in
sign_in-IsSound width accepted answer s t =
    if_ind IsSound accepted (λ _. boot-IsSound width answer s t) (λ _. t)

set_password-IsSound :
    (width : ℕ) (username p : Text) (accepted : Bool) (answer : Answer User) (s : App)
    → s.current ≡ terminal
    → IsSound (set_password width username p accepted answer s)
unfolding set_password
set_password-IsSound width username p accepted answer s t =
    elim (Option-cases (password_request p)) [
      | inl e ↦ rw (e, set_password) t
      | inr (q, e) ↦
          rw (e, set_password)
            (if_ind IsSound accepted (λ _. boot-IsSound width answer s t) (λ _. t))
    ]

abbrev app : Screen → Option User → Page → Bool → Option Text → Option Text → App
app sc self cur sb stored attribute = record {
  self = self;
  screen = sc;
  current = cur;
  sidebar_open = sb;
  stored_theme = stored;
  theme_attribute = attribute;
}

step-IsSound :
    (width : ℕ) (e : Event) (sc : Screen) (self : Option User) (cur : Page) (sb : Bool)
    (stored attribute : Option Text)
    → Possible e sc self
    → SoundAt sc self cur
    → IsSound (step width e (app sc self cur sb stored attribute))
unfolding step nav toggle_menu apply_theme sign_out load
step-IsSound width (booted answer) starting self cur sb st th p v =
    boot-IsSound width answer (app starting self cur sb st th) v
step-IsSound width (signed_in accepted answer) (login m) self cur sb st th p v =
    sign_in-IsSound width accepted answer (app (login m) self cur sb st th) v
step-IsSound width (password_set q accepted answer) (change_password u m) self cur sb st th p v =
    set_password-IsSound width u q accepted answer (app (change_password u m) self cur sb st th) v
step-IsSound width (page_clicked page) shell none cur sb st th p v = v
step-IsSound width (page_clicked page) shell (some u) cur sb st th p v = (v.0, p)
step-IsSound width menu_clicked shell self cur sb st th p v = v
step-IsSound width (theme_clicked t) shell self cur sb st th p v = v
step-IsSound width signed_out shell self cur sb st th p v = refl
step-IsSound width _ _ self cur sb st th p v = absurd p

-- In every state that the page can reach from a sound one, by answers and clicks that come while
-- the screen with their button is shown, the shell is shown only to a user whom /api/me has named
-- and who need not change the password, and the page shown is one that the sidebar offers to the
-- user's role; while another screen is shown the page is the terminal.
pub Reach-IsSound : (s : App) {t : App} → IsSound s → Reach s t → IsSound t
Reach-IsSound s v here = v
Reach-IsSound s v (next {t = t} r width e p) =
    step-IsSound width e t.screen t.self t.current t.sidebar_open t.stored_theme t.theme_attribute p
      (Reach-IsSound s v r)

pub load-IsSound : (stored : Option Text) → IsSound (load stored)
unfolding load apply_theme
load-IsSound stored = refl

abbrev pub count_active : List NavButton → ℕ
count_active [] = 0
count_active (b ∷ bs) = (if b.active then 1 else 0) + count_active bs

abbrev pub is_admin_page : Page → Bool
is_admin_page users = true
is_admin_page audit = true
is_admin_page _ = false

abbrev pub is_admin : Option User → Bool
is_admin u = text_eq (role_of u) (codes "admin")

one_active_at :
    (u : User) (p : Page) (admin : Bool)
    → offers (terminal ∷ files ∷ traffic ∷ (if admin then users ∷ audit ∷ [] else [])) p ≡ true
    → (count_active (
          map
            (λ (q : Page). record { page = q; active = page_eq p q })
            (terminal ∷ files ∷ traffic ∷ (if admin then users ∷ audit ∷ [] else [])))
        ≡ 1)
      × ((not (is_admin_page p) || admin) ≡ true)
one_active_at u terminal true h = (refl, refl)
one_active_at u terminal false h = (refl, refl)
one_active_at u files true h = (refl, refl)
one_active_at u files false h = (refl, refl)
one_active_at u traffic true h = (refl, refl)
one_active_at u traffic false h = (refl, refl)
one_active_at u users true h = (refl, refl)
one_active_at u users false h = cc
one_active_at u audit true h = (refl, refl)
one_active_at u audit false h = cc

-- While the shell is shown in a sound state, that is to a known user and on a page that the sidebar
-- offers to the user's role, exactly one button of the sidebar is marked as active,
-- and a page for administrators is shown only if the role of the user is "admin".
pub one_active :
    (s : App)
    → s.screen ≡ shell
    → IsSound s
    → (count_active (sidebar s) ≡ 1) × ((not (is_admin_page s.current) || is_admin s.self) ≡ true)
unfolding sidebar sidebar_pages
one_active s e v = at_self s.self (rw e at v)
  where
    at_self :
        (u : Option User)
        → SoundAt shell u s.current
        → (count_active (
              map
                (λ (q : Page). record { page = q; active = page_eq s.current q })
                (sidebar_pages (role_of u)))
            ≡ 1)
          × ((not (is_admin_page s.current) || is_admin u) ≡ true)
    at_self none h = absurd h
    at_self (some u) (_, h) = one_active_at u s.current (is_admin (some u)) h
