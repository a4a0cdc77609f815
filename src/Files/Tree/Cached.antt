-- ===== src/Files/Tree/Cached.antt =====
-- The cache of the tree's listings.
use claude_docker.Common.{
  Bool, true, false, Option, none, some, List, [], ◌∷◌, ◌++◌, filter, ◌≡◌, refl, ◌∙◌, inl, inr,
  arith, Bool-cases, Option-cases, All,
}
use claude_docker.Text.{Text, text_eq}
use claude_docker.Text.Laws.{eq_of_text_eq}
use claude_docker.Api.{Answer, get_json, Result, ok, auth, bad_status, network, bad_body}
use claude_docker.Files.Kind.{Entry}
use claude_docker.Files.Tree.{
  Cache, Tree, cache_get, cache_set, tree_asked, tree_answered, TreeEvent, asked, answered,
  refreshed, tree_step, tree_run,
}

abbrev pub is_some {ℓ} : {A : Type ℓ} → Option A → Bool
is_some none = false
is_some (some _) = true

abbrev pub is_refresh : TreeEvent → Bool
is_refresh refreshed = true
is_refresh _ = false

-- The requests for a path.
abbrev pub requests_for : Text → Tree → List Text
requests_for path t = filter (λ q. text_eq q path) t.sent

is_some-cache_set :
    (p q : Text) (dirs : List Entry) (cache : Cache)
    → is_some (cache_get p cache) ≡ true
    → is_some (cache_get p (cache_set q dirs cache)) ≡ true
unfolding cache_get
is_some-cache_set p q dirs cache h = ground arith

-- As long as it is not refreshed.
abbrev Settled : Text → Tree → Tree → Type 0
Settled p t u = (is_some (cache_get p u.cache) ≡ true) × (requests_for p u ≡ requests_for p t)

filter-append_other :
    (p q : Text) (s : List Text)
    → text_eq q p ≡ false
    → filter (λ r. text_eq r p) (s ++ (q ∷ [])) ≡ filter (λ r. text_eq r p) s
filter-append_other p q [] h = ground arith
filter-append_other p q (r ∷ s) h = ground (arith, filter-append_other p q s h)

tree_asked-Settled :
    (p q : Text) (t : Tree) → is_some (cache_get p t.cache) ≡ true → Settled p t (tree_asked q t)
unfolding tree_asked
tree_asked-Settled p q t h = elim (Option-cases (cache_get q t.cache)) [
  | inr (dirs, e) ↦ rw (e, tree_asked) (h, refl)
  | inl e ↦
      let other : text_eq q p ≡ false = elim (Bool-cases (text_eq q p)) [
        | inr other ↦ other
        | inl same ↦ let eq : q ≡ p = eq_of_text_eq q p same in absurd (cc)
      ] in
      rw (e, tree_asked) (h, filter-append_other p q t.sent other)
]

tree_answered-Settled :
    (p q : Text) (answer : Answer (Option (List Entry))) (t : Tree)
    → is_some (cache_get p t.cache) ≡ true
    → Settled p t (tree_answered q answer t)
unfolding tree_answered
tree_answered-Settled p q answer t h = by_result (get_json answer) refl
  where
    by_result :
        (r : Result (Option (List Entry)))
        → get_json answer ≡ r
        → Settled p t (tree_answered q answer t)
    by_result (ok body) e = rw (e, tree_answered) (is_some-cache_set p q _ t.cache h, refl)
    by_result auth e = rw (e, tree_answered) (is_some-cache_set p q [] t.cache h, refl)
    by_result (bad_status n) e = rw (e, tree_answered) (is_some-cache_set p q [] t.cache h, refl)
    by_result network e = rw (e, tree_answered) (is_some-cache_set p q [] t.cache h, refl)
    by_result bad_body e = rw (e, tree_answered) (is_some-cache_set p q [] t.cache h, refl)

-- A path whose listing is in the cache stays there and is not asked for again, whatever is asked and
-- answered, until the tree is refreshed.
pub run-Settled :
    (p : Text) (es : List TreeEvent) (t : Tree)
    → All (λ e. is_refresh e ≡ false) es
    → is_some (cache_get p t.cache) ≡ true
    → (is_some (cache_get p (tree_run es t).cache) ≡ true)
      × (requests_for p (tree_run es t) ≡ requests_for p t)
unfolding tree_step
run-Settled p [] t _ h = (h, refl)
run-Settled p (asked q ∷ es) t (_, hs) h =
    let (c, r) = tree_asked-Settled p q t h in
    let (c', r') = run-Settled p es (tree_asked q t) hs c in (c', r' ∙ r)
run-Settled p (answered q answer ∷ es) t (_, hs) h =
    let (c, r) = tree_answered-Settled p q answer t h in
    let (c', r') = run-Settled p es (tree_answered q answer t) hs c in (c', r' ∙ r)
run-Settled p (refreshed ∷ es) t (fresh, _) h = cc
