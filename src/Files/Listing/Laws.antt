-- ===== src/Files/Listing/Laws.antt =====
-- Which entries the list shows.
use mathlib.Core.List.{Memᴰ}
use mathlib.Core.List.Memᴰ
use claude_docker.Common.{
  ℕ, Bool, true, List, [], ◌∷◌, ◌++◌, map, filter, ◌≡◌, ◌↔◌, refl, ap, ap₂, ◌∙◌, sym, inl, inr,
  arith, Bool-cases, ==_iff, ==_refl,
}
use claude_docker.Text.{Text, is_prefix, includes}
use claude_docker.Files.Kind.{Entry}
use claude_docker.Files.View.{View}
use claude_docker.Files.Listing.{Node, matches, node_of, shown_from, render_list}

-- A text in two pieces around another one.
abbrev pub Contains : Text → Text → Type 0
Contains q s = (before : Text) × (after : Text) × (s ≡ before ++ (q ++ after))

is_prefix_lem : (q s : Text) → is_prefix q s ≡ true → (after : Text) × (s ≡ q ++ after)
is_prefix_lem [] s h = (s, refl)
is_prefix_lem (c ∷ q) [] h = cc
is_prefix_lem (c ∷ q) (d ∷ s) h =
    let (after, e) = is_prefix_lem q s (ground arith) in
    let same : d ≡ c = ground (arith, ==_iff c d) in (after, ap₂ ◌∷◌ same e)

is_prefix-append : (q after : Text) → is_prefix q (q ++ after) ≡ true
is_prefix-append [] after = refl
is_prefix-append (c ∷ q) after = rw (==_refl c) (is_prefix-append q after)

includes-Contains : (q s : Text) → includes q s ≡ true → Contains q s
unfolding includes
includes-Contains q [] h = let (after, e) = is_prefix_lem q [] h in ([], after, e)
includes-Contains q (d ∷ s) h = elim (Bool-cases (is_prefix q (d ∷ s))) [
  | inl first ↦ let (after, e) = is_prefix_lem q (d ∷ s) first in ([], after, e)
  | inr later ↦
      let (before, after, e) = includes-Contains q s (rw later at h) in
      (d ∷ before, after, ap (d ∷◌) e)
]

includes_of_prefix : (q s : Text) → is_prefix q s ≡ true → includes q s ≡ true
unfolding includes
includes_of_prefix q [] h = h
includes_of_prefix q (d ∷ s) h = ground (arith, h)

includes-append : (q before after : Text) → includes q (before ++ (q ++ after)) ≡ true
unfolding includes
includes-append q [] after = includes_of_prefix q (q ++ after) (is_prefix-append q after)
includes-append q (d ∷ before) after = ground (arith, includes-append q before after)

module _ {ℓ} {A : Type ℓ} (P : A → Bool) where
  mem_of_filter : (x : A) (xs : List A) → Memᴰ x (filter P xs) → Memᴰ x xs × (P x ≡ true)
  mem_of_filter x [] m = elim m [ ]
  mem_of_filter x (y ∷ xs) m = elim (Bool-cases (P y)) [
    | inr drop ↦ let (m', h) = mem_of_filter x xs (rw drop at m) in (Memᴰ.tail m', h)
    | inl keep ↦ elim (Memᴰ.cases_cons (rw keep at m)) [
      | inl e ↦ (Memᴰ.head e, ap P e ∙ keep)
      | inr rest ↦ let (m', h) = mem_of_filter x xs rest in (Memᴰ.tail m', h)
    ]
  ]

  mem_filter : (x : A) (xs : List A) → Memᴰ x xs → P x ≡ true → Memᴰ x (filter P xs)
  mem_filter x [] m h = elim m [ ]
  mem_filter x (y ∷ xs) (Memᴰ.head e) h =
      let keep : P y ≡ true = ap P (sym e) ∙ h in rw keep (Memᴰ.head e)
  mem_filter x (y ∷ xs) (Memᴰ.tail m) h = elim (Bool-cases (P y)) [
    | inl keep ↦ rw keep (Memᴰ.tail (mem_filter x xs m h))
    | inr drop ↦ rw drop (mem_filter x xs m h)
  ]

module _ (to_lower : Text → Text) (to_locale : ℕ → Text) where
  matches_iff :
      (q : Text) (e : Entry)
      → (matches to_lower to_locale q e ≡ true) ↔ Contains q (to_lower e.name)
  unfolding matches
  matches_iff [] e = (λ _. ([], to_lower e.name, refl), λ _. refl)
  matches_iff (c ∷ q) e = (
    includes-Contains (c ∷ q) (to_lower e.name),
    λ (before, after, eq). ap (includes (c ∷ q)) eq ∙ includes-append (c ∷ q) before after,
  )

  node_of-entry : (s : View) (e : Entry) → (node_of to_lower to_locale s e).entry ≡ e
  unfolding node_of
  node_of-entry s e = ground arith

  map-entry :
      (s : View) (es : List Entry)
      → map (λ (n : Node). n.entry) (map (node_of to_lower to_locale s) es) ≡ es
  map-entry s [] = refl
  map-entry s (e ∷ es) = ap₂ ◌∷◌ (node_of-entry s e) (map-entry s es)

  shown_from-entries :
      (s : View) (es : List Entry)
      → map (λ (n : Node). n.entry) (shown_from to_lower to_locale s es).nodes ≡ es
  unfolding shown_from
  shown_from-entries s [] = refl
  shown_from-entries s (e ∷ es) = map-entry s (e ∷ es)

  -- The list shows an entry exactly if the directory has it and its lower-cased name contains the
  -- lower-cased text of the filter.
  pub shown_lem :
      (search : Text) (s : View) (e : Entry)
      → Memᴰ e (map (λ (n : Node). n.entry) (render_list to_lower to_locale search s).nodes)
        ↔ (Memᴰ e s.entries × Contains (to_lower search) (to_lower e.name))
  unfolding render_list
  shown_lem search s e =
      let P = matches to_lower to_locale (to_lower search) in
      let (f, g) = matches_iff (to_lower search) e in
      rw (shown_from-entries s (filter P s.entries)) (
        λ m. let (m', h) = mem_of_filter P e s.entries m in (m', f h),
        λ (m, c). mem_filter P e s.entries m (g c),
      )
