-- ===== src/Files/Session/Growth.antt =====
-- The directories that are open in the tree, over a whole session.
use claude_docker.Common.{
  ℕ, ◌+◌, Bool, true, false, ◌||◌, Option, none, some, List, [], ◌∷◌, ◌≡◌, refl, ap, ◌∙◌, inl, inr,
  arith, Bool-cases, if_ind, ltb, length,
}
use claude_docker.Text.{Text, truthy, text_eq, has}
use claude_docker.Text.Laws.{eq_of_text_eq, text_eq_refl}
use claude_docker.Files.FilePath.{join, parent}
use claude_docker.Files.Kind.{Entry}
use claude_docker.Files.View.{
  View, go, back, fwd, up, listed, click_tree_row, toggle_view, open_preview, close_overlay,
  close_preview, tree_key, set_add, set_delete,
}
use claude_docker.Files.Selection.{Click, on_item_click, select_all, escape, select_for_menu}
use claude_docker.Files.Selection.Laws.{has-set_add, has-set_delete}
use claude_docker.Files.Actions.{delete_done, rename_done, mkdir_done}
use claude_docker.Files.Session.{
  Action, go_back, go_forward, go_up, open_crumb, open_directory, open_tree_row, answer, click,
  choose_all, clear_selection, context_menu, toggle_mode, show_preview, close_button, deleted,
  renamed, made_folder, uploaded, step, Reach, here, next,
}

go_tree :
    (p : Text) (push : Bool) (s : View) → (go p push s).tree_open ≡ set_add (tree_key p) s.tree_open
unfolding go close_preview close_overlay
go_tree p push s = ground arith

listed_tree :
    (to_lower : Text → Text) (a : Option (Option (List Entry))) (s : View)
    → (listed to_lower a s).tree_open ≡ s.tree_open
unfolding listed
listed_tree to_lower none s = refl
listed_tree to_lower (some body) s = refl

click_tree : (ev : Click) (e : Entry) (s : View) → (on_item_click ev e s).tree_open ≡ s.tree_open
unfolding on_item_click
click_tree ev e s = ground arith

menu_tree : (e : Entry) (s : View) → (select_for_menu e s).tree_open ≡ s.tree_open
unfolding select_for_menu
menu_tree e s = ground arith

preview_tree : (s : View) → (open_preview s).tree_open ≡ s.tree_open
unfolding open_preview close_preview close_overlay
preview_tree s = ground arith

no_name : (c : ℕ) (x : Text) → text_eq (c ∷ x) [] ≡ false
unfolding text_eq
no_name c x = refl

readded_there :
    (x path : Text) (ps : List Text)
    → has ps x ≡ true
    → (has (set_delete path ps) x || text_eq path x) ≡ true
readded_there x path ps h = elim (Bool-cases (text_eq x path)) [
  | inr other ↦ ground (arith, has-set_delete path ps x, h, other)
  | inl same ↦
      let back : text_eq path x ≡ true =
        ap (λ y. text_eq path y) (eq_of_text_eq x path same) ∙ text_eq_refl path in
      ground (arith, back)
]

-- A path that is taken out and put in again is there, and so are the others.
readded :
    (x path : Text) (ps : List Text)
    → truthy x ≡ true
    → has ps x ≡ true
    → has (set_add (tree_key path) (set_delete path ps)) x ≡ true
readded x [] ps named h =
    has-set_add (b'/' ∷ []) (set_delete [] ps) x ∙ ground (arith, readded_root x ps named h)
  where
    readded_root :
        (x : Text) (ps : List Text)
        → truthy x ≡ true
        → has ps x ≡ true
        → has (set_delete [] ps) x ≡ true
    readded_root [] ps named h = cc
    readded_root (c ∷ x) ps named h = has-set_delete [] ps (c ∷ x) ∙ ground (arith, h, no_name c x)
readded x (b ∷ path) ps named h =
    has-set_add (b ∷ path) (set_delete (b ∷ path) ps) x ∙ readded_there x (b ∷ path) ps h

module _ (x : Text) (named : truthy x ≡ true) where
  abbrev Open : View → Type 0
  Open s = has s.tree_open x ≡ true

  go-Open : (p : Text) (push : Bool) (s : View) → Open s → Open (go p push s)
  go-Open p push s h =
      ap (λ ps. has ps x) (go_tree p push s)
      ∙ ground (arith, has-set_add (tree_key p) s.tree_open x, h)

  back-Open : (s : View) → Open s → Open (back s)
  unfolding back
  back-Open s h = if_ind Open (ltb 0 s.hist_idx) (λ _. go-Open _ false _ h) (λ _. h)

  fwd-Open : (s : View) → Open s → Open (fwd s)
  unfolding fwd
  fwd-Open s h =
      if_ind Open (ltb (s.hist_idx + 1) (length s.history)) (λ _. go-Open _ false _ h) (λ _. h)

  up-Open : (s : View) → Open s → Open (up s)
  unfolding up
  up-Open s h = if_ind Open (truthy s.cwd) (λ _. go-Open (parent s.cwd) true s h) (λ _. h)

  -- A click that closes the directory leaves the rest to `go`, which opens it again.
  click-Open :
      (path : Text) (is_root : Bool) (s : View) → Open s → Open (click_tree_row path is_root s)
  unfolding click_tree_row
  click-Open path true s h = go-Open path true s h
  click-Open path false s h =
      if_ind (λ ps. Open (go path true (record s { tree_open = ps }))) (has s.tree_open path)
        (λ _.
          ap (λ ps. has ps x)
            (go_tree path true (record s { tree_open = set_delete path s.tree_open }))
          ∙ readded x path s.tree_open named h)
        (λ _.
          go-Open path true (record s { tree_open = set_add path s.tree_open })
            (ground (arith, has-set_add path s.tree_open x, h)))

  same-Open : (s t : View) → t.tree_open ≡ s.tree_open → Open s → Open t
  same-Open s t e h = ap (λ ps. has ps x) e ∙ h

  step-Open : (to_lower : Text → Text) (a : Action) (s : View) → Open s → Open (step to_lower a s)
  unfolding step select_all escape toggle_view delete_done rename_done mkdir_done close_overlay
  step-Open to_lower go_back s h = back-Open s h
  step-Open to_lower go_forward s h = fwd-Open s h
  step-Open to_lower go_up s h = up-Open s h
  step-Open to_lower (open_crumb p) s h = go-Open p true s h
  step-Open to_lower (open_directory e) s h = go-Open (join s.cwd e.name) true s h
  step-Open to_lower (open_tree_row p is_root) s h = click-Open p is_root s h
  step-Open to_lower (answer a) s h = same-Open s (listed to_lower a s) (listed_tree to_lower a s) h
  step-Open to_lower (click ev e) s h = same-Open s (on_item_click ev e s) (click_tree ev e s) h
  step-Open to_lower choose_all s h = h
  step-Open to_lower clear_selection s h = h
  step-Open to_lower (context_menu e) s h = same-Open s (select_for_menu e s) (menu_tree e s) h
  step-Open to_lower toggle_mode s h = h
  step-Open to_lower show_preview s h = same-Open s (open_preview s) (preview_tree s) h
  step-Open to_lower (close_button k) s h = h
  step-Open to_lower deleted s h = go-Open s.cwd false (record s { selected = [] }) h
  step-Open to_lower (renamed to) s h = go-Open s.cwd false (record s { selected = to ∷ [] }) h
  step-Open to_lower made_folder s h = go-Open s.cwd false s h
  step-Open to_lower uploaded s h = go-Open s.cwd false s h

  -- A path, not empty, that is open in the tree stays open for the rest of the session, whatever the
  -- user does: no click closes it.
  pub Reach-Open :
      (to_lower : Text → Text) (s : View) {t : View}
      → has s.tree_open x ≡ true
      → Reach to_lower s t
      → has t.tree_open x ≡ true
  Reach-Open to_lower s h here = h
  Reach-Open to_lower s h (next r a shown) = step-Open to_lower a _ (Reach-Open to_lower s h r)
