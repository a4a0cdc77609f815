-- ===== src/Text/Laws.antt =====
-- The laws of the string methods.
use claude_docker.Common.{
  ℕ, true, false, List, [], ◌∷◌, ◌++◌, ◌≡◌, refl, ap, ap₂, ◌↔◌, inl, inr, arith, ==_iff, ==_refl,
  ◌==◌, Bool-cases, All, append_assoc, sym, ◌∙◌,
}
use claude_docker.Text.{
  Text, text_eq, text_lt, split, join_with, drop_last, pop, includes_unit, add_to_head,
}

pub text_eq_refl : (s : Text) → text_eq s s ≡ true
unfolding text_eq
text_eq_refl [] = refl
text_eq_refl (c ∷ s) = rw (==_refl c) (text_eq_refl s)

pub eq_of_text_eq : (s t : Text) → text_eq s t ≡ true → s ≡ t
unfolding text_eq
eq_of_text_eq [] [] h = refl
eq_of_text_eq [] (d ∷ t) h = cc
eq_of_text_eq (c ∷ s) [] h = cc
eq_of_text_eq (c ∷ s) (d ∷ t) h = ground (arith, eq_of_text_eq s t)

pub text_eq_iff : (s t : Text) → (text_eq s t ≡ true) ↔ (s ≡ t)
text_eq_iff s t = (eq_of_text_eq s t, λ e. rw e (text_eq_refl t))

-- Distinct code units compare one way or the other, so `<` is a strict total order.
pub text_lt_irrefl : (s : Text) → text_lt s s ≡ false
unfolding text_lt
text_lt_irrefl [] = refl
text_lt_irrefl (c ∷ s) = ground (arith, text_lt_irrefl s)

pub text_lt_trans : (s t u : Text) → text_lt s t ≡ true → text_lt t u ≡ true → text_lt s u ≡ true
unfolding text_lt
text_lt_trans [] [] u h k = cc
text_lt_trans [] (d ∷ t) [] h k = cc
text_lt_trans [] (d ∷ t) (e ∷ u) h k = refl
text_lt_trans (c ∷ s) [] u h k = cc
text_lt_trans (c ∷ s) (d ∷ t) [] h k = cc
text_lt_trans (c ∷ s) (d ∷ t) (e ∷ u) h k = ground (arith, text_lt_trans s t u)

pub text_lt_tri : (s t : Text) → text_lt s t ≡ false → text_lt t s ≡ false → s ≡ t
unfolding text_lt
text_lt_tri [] [] h k = refl
text_lt_tri [] (d ∷ t) h k = cc
text_lt_tri (c ∷ s) [] h k = cc
text_lt_tri (c ∷ s) (d ∷ t) h k = ground (arith, text_lt_tri s t)

module _ (sep : ℕ) where
  pub split-cons : (s : Text) → (w : Text) × (ws : List Text) × (split sep s ≡ w ∷ ws)
  unfolding split
  split-cons [] = ([], [], refl)
  split-cons (c ∷ s) =
      let (w, ws, e) = split-cons s in
      elim (Bool-cases (c == sep)) [
        | inl same ↦ ([], split sep s, rw same)
        | inr other ↦ (c ∷ w, ws, rw (other, e))
      ]

  join_with-add_to_head :
      (c : ℕ) (w : Text) (ws : List Text)
      → join_with sep (add_to_head c (w ∷ ws)) ≡ c ∷ join_with sep (w ∷ ws)
  unfolding join_with
  join_with-add_to_head c w [] = refl
  join_with-add_to_head c w (v ∷ ws) = refl

  -- Joining what was split gives the text back.
  pub join_with-split : (s : Text) → join_with sep (split sep s) ≡ s
  unfolding split join_with
  join_with-split [] = refl
  join_with-split (c ∷ s) =
      let (w, ws, e) = split-cons s in
      let ih : join_with sep (w ∷ ws) ≡ s = rw e at (join_with-split s) in
      elim (Bool-cases (c == sep)) [
        | inl same ↦ rw (same, e) (ap₂ ◌∷◌ (sym ((==_iff c sep).0 same)) ih)
        | inr other ↦ rw (other, e) (join_with-add_to_head c w ws ∙ ap (c ∷◌) ih)
      ]

  -- A text without the separator is its only part.
  pub split_of_free : (s : Text) → includes_unit sep s ≡ false → split sep s ≡ s ∷ []
  unfolding split includes_unit
  split_of_free [] h = refl
  split_of_free (c ∷ s) h = ground (arith, split_of_free s)

  add_to_head-append :
      (c : ℕ) (s : Text) (vs : List Text)
      → add_to_head c (split sep s ++ vs) ≡ add_to_head c (split sep s) ++ vs
  add_to_head-append c s vs = let (w, ws, e) = split-cons s in rw e

  -- A separator between two texts splits them apart.
  pub split-append : (s t : Text) → split sep (s ++ (sep ∷ t)) ≡ split sep s ++ split sep t
  unfolding split
  split-append [] t = rw (==_refl sep)
  split-append (c ∷ s) t = elim (Bool-cases (c == sep)) [
    | inl same ↦ rw same (ap ([] ∷◌) (split-append s t))
    | inr other ↦ rw (other, split-append s t) (add_to_head-append c s (split sep t))
  ]

  -- Splitting what was joined gives the parts back, if there is one and none holds the separator.
  pub split-join_with :
      (w : Text) (ws : List Text)
      → All (λ v. includes_unit sep v ≡ false) (w ∷ ws)
      → split sep (join_with sep (w ∷ ws)) ≡ w ∷ ws
  unfolding join_with
  split-join_with w [] (h, _) = split_of_free w h
  split-join_with w (v ∷ ws) (h, hs) =
      split-append w (join_with sep (v ∷ ws))
      ∙ ap₂ ◌++◌ (split_of_free w h) (split-join_with v ws hs)

pub drop_last-append : (ws : List Text) (w : Text) → drop_last (ws ++ (w ∷ [])) ≡ ws
unfolding drop_last
drop_last-append [] w = refl
drop_last-append (v ∷ []) w = refl
drop_last-append (v ∷ u ∷ ws) w = ap (v ∷◌) (drop_last-append (u ∷ ws) w)

pub pop-append : (ws : List Text) (w : Text) → pop (ws ++ (w ∷ [])) ≡ w
unfolding pop
pop-append [] w = refl
pop-append (v ∷ []) w = refl
pop-append (v ∷ u ∷ ws) w = pop-append (u ∷ ws) w

-- Joining one more part.
pub join_with-append_last :
    (sep : ℕ) (v : Text) (ws : List Text) (w : Text)
    → join_with sep ((v ∷ ws) ++ (w ∷ [])) ≡ join_with sep (v ∷ ws) ++ (sep ∷ w)
unfolding join_with
join_with-append_last sep v [] w = refl
join_with-append_last sep v (u ∷ ws) w =
    ap (v ++◌) (ap (sep ∷◌) (join_with-append_last sep u ws w))
    ∙ sym (append_assoc v (sep ∷ join_with sep (u ∷ ws)) (sep ∷ w))
