-- ===== src/App/Templates/Lookups.antt =====
-- Which elements `document.getElementById` finds on which page.
use claude_docker.Common.{
  ℕ, ◌+◌, List, [], ◌∷◌, ◌++◌, if◌then◌else◌, ◌≡◌, refl, sym, subst, Bool-cases, inl, inr, All,
}
use claude_docker.Text.{Text, codes, text_eq, is_prefix, concat}
use claude_docker.Files.View.{ViewMode, list_view, grid_view}
use claude_docker.App.{Page, terminal, files, traffic, users, audit, page_eq}
use claude_docker.App.Templates.{
  shell_html, traffic_html, users_html, audit_html, terminal_html, files_html,
}

-- A text up to a double quote.
unfoldable pub up_to_quote : Text → Text
up_to_quote [] = []
up_to_quote (c ∷ s) =
    let rest = up_to_quote s in if text_eq (c ∷ []) (codes "\"") then [] else c ∷ rest

-- The ids of the elements of an HTML text, in order: what stands in ` id="…"`.
unfoldable pub ids_of : Text → List Text
unfolding up_to_quote
ids_of [] = []
ids_of (c ∷ s) =
    let rest = ids_of s in
    if is_prefix (codes " id=\"") (c ∷ s) then up_to_quote (drop_four s) ∷ rest else rest
  where
    drop_four : Text → Text
    drop_four (_ ∷ _ ∷ _ ∷ _ ∷ s) = s
    drop_four s = s

-- The HTML of a page in the element `view`. (The module of files has been loaded.)
abbrev pub page_html : Text → ViewMode → Page → Text
page_html role mode terminal = terminal_html role
page_html role mode files = files_html mode
page_html role mode traffic = traffic_html
page_html role mode users = users_html
page_html role mode audit = audit_html

abbrev pub times : Text → List Text → ℕ
times id [] = 0
times id (k ∷ ids) = (if text_eq k id then 1 else 0) + times id ids

-- The ids that the code of a page looks up.
abbrev pub looked_up : Page → List Text
looked_up terminal = codes "termroot" ∷ codes "kill-sess" ∷ codes "term-status" ∷ []
looked_up files =
    codes "fm-tree"
    ∷ codes "fm-back"
    ∷ codes "fm-fwd"
    ∷ codes "fm-up"
    ∷ codes "fm-crumbs"
    ∷ codes "fm-search"
    ∷ codes "fm-view"
    ∷ codes "fm-mkdir"
    ∷ codes "fm-upload"
    ∷ codes "fm-status"
    ∷ codes "fm-drop"
    ∷ codes "fm-file-input"
    ∷ []
looked_up traffic = codes "meters" ∷ codes "trows" ∷ []
looked_up users =
    codes "anth-auth-token" ∷ codes "anth-save" ∷ codes "add-user" ∷ codes "utbody" ∷ []
looked_up audit = codes "abody" ∷ []

-- Those that the shell looks up on every page.
abbrev pub shell_ids : List Text
shell_ids = codes "sb" ∷ codes "menu" ∷ codes "title" ∷ codes "who" ∷ codes "view" ∷ []

abbrev pub document : Text → ViewMode → Page → Text
document role mode p = shell_html ++ page_html role mode p

ids_of-document :
    (role : Text) (mode : ViewMode) (p : Page)
    → ids_of (document role mode p) ≡ shell_ids ++ looked_up p
unfolding ids_of shell_html terminal_html files_html traffic_html users_html audit_html concat
    text_eq
ids_of-document role mode terminal = elim (Bool-cases (text_eq role (codes "admin"))) [
  | inl admin ↦ rw admin refl
  | inr other ↦ rw other refl
]
ids_of-document role grid_view files = refl
ids_of-document role list_view files = refl
ids_of-document role mode traffic = refl
ids_of-document role mode users = refl
ids_of-document role mode audit = refl

abbrev Found : Page → Page → Type 0
Found p q =
    All (λ id. times id (shell_ids ++ looked_up q) ≡ (if page_eq p q then 1 else 0)) (looked_up p)

times_in : (p q : Page) → Found p q
unfolding text_eq
times_in terminal terminal = (refl, (refl, (refl, tt)))
times_in terminal files = (refl, (refl, (refl, tt)))
times_in terminal traffic = (refl, (refl, (refl, tt)))
times_in terminal users = (refl, (refl, (refl, tt)))
times_in terminal audit = (refl, (refl, (refl, tt)))
times_in files terminal = (
  refl,
  (refl, (refl, (refl, (refl, (refl, (refl, (refl, (refl, (refl, (refl, (refl, tt))))))))))),
)
times_in files files = (
  refl,
  (refl, (refl, (refl, (refl, (refl, (refl, (refl, (refl, (refl, (refl, (refl, tt))))))))))),
)
times_in files traffic = (
  refl,
  (refl, (refl, (refl, (refl, (refl, (refl, (refl, (refl, (refl, (refl, (refl, tt))))))))))),
)
times_in files users = (
  refl,
  (refl, (refl, (refl, (refl, (refl, (refl, (refl, (refl, (refl, (refl, (refl, tt))))))))))),
)
times_in files audit = (
  refl,
  (refl, (refl, (refl, (refl, (refl, (refl, (refl, (refl, (refl, (refl, (refl, tt))))))))))),
)
times_in traffic terminal = (refl, (refl, tt))
times_in traffic files = (refl, (refl, tt))
times_in traffic traffic = (refl, (refl, tt))
times_in traffic users = (refl, (refl, tt))
times_in traffic audit = (refl, (refl, tt))
times_in users terminal = (refl, (refl, (refl, (refl, tt))))
times_in users files = (refl, (refl, (refl, (refl, tt))))
times_in users traffic = (refl, (refl, (refl, (refl, tt))))
times_in users users = (refl, (refl, (refl, (refl, tt))))
times_in users audit = (refl, (refl, (refl, (refl, tt))))
times_in audit terminal = (refl, tt)
times_in audit files = (refl, tt)
times_in audit traffic = (refl, tt)
times_in audit users = (refl, tt)
times_in audit audit = (refl, tt)

shell_times : (q : Page) → All (λ id. times id (shell_ids ++ looked_up q) ≡ 1) shell_ids
unfolding text_eq
shell_times terminal = (refl, (refl, (refl, (refl, (refl, tt)))))
shell_times files = (refl, (refl, (refl, (refl, (refl, tt)))))
shell_times traffic = (refl, (refl, (refl, (refl, (refl, tt)))))
shell_times users = (refl, (refl, (refl, (refl, (refl, tt)))))
shell_times audit = (refl, (refl, (refl, (refl, (refl, tt)))))

-- On every page, for every role and both ways to show files: an id that the shell looks up stands
-- once in the HTML of the shell and the page; and so does an id that the code of a page looks up if
-- that page is shown, and it does not stand there if another page is shown, so that looking it up
-- gives null once the user has left the page.
pub lookups :
    (role : Text) (mode : ViewMode) (p q : Page)
    → let ids = ids_of (document role mode q) in
      All (λ id. times id ids ≡ 1) shell_ids
      × All (λ id. times id ids ≡ (if page_eq p q then 1 else 0)) (looked_up p)
lookups role mode p q =
    let here = ids_of-document role mode q in
    (
      subst (λ ids. All (λ id. times id ids ≡ 1) shell_ids) (sym here) (shell_times q),
      subst (λ ids. All (λ id. times id ids ≡ (if page_eq p q then 1 else 0)) (looked_up p))
          (sym here) (times_in p q),
    )
