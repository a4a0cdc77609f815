-- ===== src/Files/Tree/Drawn.antt =====
-- Which rows the tree has, and that drawing it ends.
use claude_docker.Common.{
  ℕ, zero, suc, ◌+◌, ◌≤◌, ◌<◌, Bool, true, false, ◌||◌, List, [], ◌∷◌, ◌++◌, map, length, max,
  subst, ◌≡◌, ◌↔◌, inl, inr, refl, ap, ap₂, ◌∙◌, arith, Bool-cases, length-append,
}
use claude_docker.Text.{Text, text_eq, truthy, has}
use claude_docker.Text.Laws.{eq_of_text_eq, text_eq_refl}
use claude_docker.Files.FilePath.{join}
use claude_docker.Files.Selection.Laws.{has-append}
use claude_docker.Files.Tree.{Row, opens, row_of, rows_below, kids, tree_node}

-- The length of the longest text of a list.
abbrev pub longest : List Text → ℕ
longest [] = 0
longest (s ∷ ss) = max (length s) (longest ss)

length-has : (ss : List Text) (s : Text) → has ss s ≡ true → length s ≤ longest ss
unfolding has
length-has [] s h = cc
length-has (r ∷ ss) s h = elim (Bool-cases (text_eq r s)) [
  | inl same ↦ let e : r ≡ s = eq_of_text_eq r s same in rw e (omega arith)
  | inr other ↦ omega (arith, length-has ss s (rw other at h))
]

length-join : (path name : Text) → truthy name ≡ true → length path < length (join path name)
unfolding join
length-join path [] h = cc
length-join [] (c ∷ name) h = omega arith
length-join (b ∷ path) (c ∷ name) h = omega (arith, length-append {0} path (b'/' ∷ c ∷ name))

or_right : (b c : Bool) → c ≡ true → (b || c) ≡ true
or_right true c h = refl
or_right false c h = h

abbrev pub paths : List Row → List Text
paths rows = map (λ (r : Row). r.path) rows

paths-append : (xs ys : List Row) → paths (xs ++ ys) ≡ paths xs ++ paths ys
paths-append [] ys = refl
paths-append (x ∷ xs) ys = ap (x.path ∷◌) (paths-append xs ys)

has-paths_append :
    (xs ys : List Row) (t : Text)
    → has (paths (xs ++ ys)) t ≡ (has (paths xs) t || has (paths ys) t)
has-paths_append xs ys t =
    ap (λ ps. has ps t) (paths-append xs ys) ∙ has-append (paths xs) (paths ys) t

module _ (dirs : Text → List Text) (tree_open : List Text) (cwd : Text) where
  -- What a node shows, told without fuel: its own path, and what its directories show if it is open
  -- or the root.
  pub data Shows : Bool → Text → Text → Type 0 where
    itself : {is_root : Bool} {path : Text} → Shows is_root path path
    below :
        {is_root : Bool} {path target : Text} (d : Text)
        → opens dirs tree_open cwd is_root path ≡ true
        → has (dirs path) d ≡ true
        → Shows false (join path d) target
        → Shows is_root path target

  -- Names are not empty.
  abbrev pub Named : Type 0
  Named = (path d : Text) → has (dirs path) d ≡ true → truthy d ≡ true

  has-rows_below :
      (child : Text → List Row) (ds : List Text) (t : Text)
      → has (paths (rows_below dirs tree_open cwd child ds)) t ≡ true
      → (d : Text) × (has ds d ≡ true) × (has (paths (child d)) t ≡ true)
  unfolding has
  has-rows_below child [] t h = cc
  has-rows_below child (d ∷ ds) t h =
      let rest = rows_below dirs tree_open cwd child ds in
      elim (Bool-cases (has (paths (child d)) t)) [
        | inl first ↦ (d, ground (arith, text_eq_refl d), first)
        | inr other ↦
            let (d', m, c) =
              has-rows_below child ds t (ground (arith, has-paths_append (child d) rest t)) in
            (d', ground arith, c)
      ]

  has-rows_below_of :
      (child : Text → List Row) (ds : List Text) (d t : Text)
      → has ds d ≡ true
      → has (paths (child d)) t ≡ true
      → has (paths (rows_below dirs tree_open cwd child ds)) t ≡ true
  unfolding has
  has-rows_below_of child [] d t m h = cc
  has-rows_below_of child (d' ∷ ds) d t m h =
      let rest = rows_below dirs tree_open cwd child ds in
      elim (Bool-cases (text_eq d' d)) [
        | inl same ↦
            let e : d' ≡ d = eq_of_text_eq d' d same in
            has-paths_append (child d') rest t ∙ (rw e (rw h refl))
        | inr other ↦
            let ih = has-rows_below_of child ds d t (rw other at m) h in
            has-paths_append (child d') rest t ∙ ground (arith, ih)
      ]

  has-kids :
      (b : Bool) (child : Text → List Row) (ds : List Text) (t : Text)
      → has (paths (kids dirs tree_open cwd b child ds)) t ≡ true
      → (b ≡ true) × (d : Text) × (has ds d ≡ true) × (has (paths (child d)) t ≡ true)
  unfolding has
  has-kids true child ds t h = let (d, m, c) = has-rows_below child ds t h in (refl, d, m, c)
  has-kids false child ds t h = cc

  -- Every row that is drawn is shown.
  has-Shows :
      (fuel depth : ℕ) (label path : Text) (is_root : Bool) (t : Text)
      → has (paths (tree_node dirs tree_open cwd fuel depth label path is_root)) t ≡ true
      → Shows is_root path t
  unfolding tree_node has row_of
  has-Shows zero depth label path is_root t h = cc
  has-Shows (suc fuel) depth label path is_root t h = elim (Bool-cases (text_eq path t)) [
    | inl same ↦ subst (Shows is_root path) (eq_of_text_eq path t same) itself
    | inr other ↦
        let (o, d, m, c) =
          has-kids (opens dirs tree_open cwd is_root path) _ (dirs path) t (rw other at h) in
        below d o m (has-Shows fuel (suc depth) d (join path d) false t c)
  ]

  -- A node that is not the root is closed if its path is longer than every open one.
  fuel_left :
      (n : ℕ) (is_root : Bool) (path : Text)
      → longest tree_open + 1 ≤ n + length path
      → (is_root ≡ true → path ≡ [])
      → opens dirs tree_open cwd is_root path ≡ true
      → 0 < n
  fuel_left n true path enough root o = omega (arith, ap (λ (p : Text). length p) (root refl))
  fuel_left n false [] enough root o = omega arith
  fuel_left n false (c ∷ path) enough root o =
      omega (arith, length-has tree_open (c ∷ path) (ground arith))

  has-kids_of :
      (b : Bool) (child : Text → List Row) (ds : List Text) (d t : Text)
      → b ≡ true
      → has ds d ≡ true
      → has (paths (child d)) t ≡ true
      → has (paths (kids dirs tree_open cwd b child ds)) t ≡ true
  has-kids_of true child ds d t e m h = has-rows_below_of child ds d t m h
  has-kids_of false child ds d t e m h = cc

  Shows-has :
      (n depth : ℕ) (label path : Text) (is_root : Bool) (t : Text)
      → Named
      → longest tree_open + 1 ≤ n + length path
      → (is_root ≡ true → path ≡ [])
      → Shows is_root path t
      → has (paths (tree_node dirs tree_open cwd (suc n) depth label path is_root)) t ≡ true
  unfolding tree_node has row_of
  Shows-has n depth label path is_root t named enough root itself =
      ground (arith, text_eq_refl path)
  Shows-has zero depth label path is_root t named enough root (below d o m s) =
      absurd (omega (arith, fuel_left zero is_root path enough root o))
  Shows-has (suc n) depth label path is_root t named enough root (below d o m s) =
      let deeper = length-join path d (named path d m) in
      let ih =
        Shows-has n (suc depth) d (join path d) false t named (omega (arith, deeper)) (λ e. cc) s in
      or_right (text_eq path t) _
        (has-kids_of (opens dirs tree_open cwd is_root path) _ (dirs path) d t o m ih)

  rows_below-ext :
      (f g : Text → List Row) (ds : List Text)
      → ((d : Text) → has ds d ≡ true → f d ≡ g d)
      → rows_below dirs tree_open cwd f ds ≡ rows_below dirs tree_open cwd g ds
  unfolding has
  rows_below-ext f g [] h = refl
  rows_below-ext f g (d ∷ ds) h =
      ap₂ ◌++◌ (h d (ground (arith, text_eq_refl d)))
        (rows_below-ext f g ds (λ d' m. h d' (or_right (text_eq d d') _ m)))

  kids-ext :
      (b : Bool) (f g : Text → List Row) (ds : List Text)
      → (b ≡ true → (d : Text) → has ds d ≡ true → f d ≡ g d)
      → kids dirs tree_open cwd b f ds ≡ kids dirs tree_open cwd b g ds
  kids-ext false f g ds h = refl
  kids-ext true f g ds h = rows_below-ext f g ds (h refl)

  -- More fuel draws no more.
  tree_node-stable :
      (n k depth : ℕ) (label path : Text) (is_root : Bool)
      → Named
      → longest tree_open + 1 ≤ n + length path
      → (is_root ≡ true → path ≡ [])
      → tree_node dirs tree_open cwd (suc (n + k)) depth label path is_root
        ≡ tree_node dirs tree_open cwd (suc n) depth label path is_root
  unfolding tree_node
  tree_node-stable zero k depth label path is_root named enough root =
      ap (row_of dirs tree_open cwd depth label path is_root ∷◌) (
        kids-ext (opens dirs tree_open cwd is_root path) _ _ (dirs path)
          (λ o. absurd (omega (arith, fuel_left zero is_root path enough root o))))
  tree_node-stable (suc n) k depth label path is_root named enough root =
      let more : suc n + k ≡ suc (n + k) = omega arith in
      ap (row_of dirs tree_open cwd depth label path is_root ∷◌) (
        kids-ext (opens dirs tree_open cwd is_root path) _ _ (dirs path) (λ o d m.
          ap (λ f. tree_node dirs tree_open cwd f (suc depth) d (join path d) false) more
          ∙ tree_node-stable n k (suc depth) d (join path d) false named
              (omega (arith, length-join path d (named path d m))) (λ e. cc)))

  -- Drawing the tree ends: if no listing has an empty name, fuel for two levels more than the longest
  -- open path is long draws what any larger amount draws, and there is a row for a path exactly if it
  -- is shown, which means that it is the root's or that of a directory of the root or of an open
  -- directory that is shown.
  pub tree_rows :
      (label target : Text) (k : ℕ)
      → Named
      → let rows = tree_node dirs tree_open cwd (longest tree_open + 2) 0 label [] true in
        (tree_node dirs tree_open cwd (longest tree_open + 2 + k) 0 label [] true ≡ rows)
        × ((has (paths rows) target ≡ true) ↔ Shows true [] target)
  tree_rows label target k named =
      let one : longest tree_open + 2 ≡ suc (longest tree_open + 1) = omega arith in
      let more : suc (longest tree_open + 1) + k ≡ suc (longest tree_open + 1 + k) = omega arith in
      let enough : longest tree_open + 1 ≤ longest tree_open + 1 + length {A = ℕ} [] =
        omega arith in
      rw one (
        ap (λ f. tree_node dirs tree_open cwd f 0 label [] true) more
            ∙ tree_node-stable (longest tree_open + 1) k 0 label [] true named enough (λ _. refl),
        (
          has-Shows (suc (longest tree_open + 1)) 0 label [] true target,
          Shows-has (longest tree_open + 1) 0 label [] true target named enough (λ _. refl),
        ),
      )
