-- ===== src/Escape/Markup.antt =====
-- How often the units of markup stand in a text.
use claude_docker.Common.{
  ℕ, zero, suc, ◌+◌, ◌%◌, ◌/◌, ◌*◌, ◌^◌, if_ind, List, [], ◌∷◌, ◌++◌, if◌then◌else◌, ◌==◌, ltb, ◌≡◌,
  refl, arith, All, All-append, Bool-cases, inl, inr,
}
use claude_docker.Text.{Text, concat}
use claude_docker.Escape.{esc}
use claude_docker.Escape.Laws.{IsInert, esc-IsInert}
use claude_docker.Size.{digits_onto, decimal, to_fixed, fmt_size, unit_at, round_div, unit_index}

-- How often a unit stands in a text.
abbrev pub count : ℕ → Text → ℕ
count c [] = 0
count c (d ∷ s) = (if d == c then 1 else 0) + count c s

count-append : (c : ℕ) (s t : Text) → count c (s ++ t) ≡ count c s + count c t
count-append c [] t = omega arith
count-append c (d ∷ s) t = omega (arith, count-append c s t)

pub count_of_IsInert : (s : Text) → All IsInert s → (count b'<' s ≡ 0) × (count b'"' s ≡ 0)
count_of_IsInert [] h = (refl, refl)
count_of_IsInert (c ∷ s) ((l, g, q), h) = ground (arith, count_of_IsInert s h)

pub count-esc : (s : Text) → (count b'<' (esc s) ≡ 0) × (count b'"' (esc s) ≡ 0)
count-esc s = count_of_IsInert (esc s) (esc-IsInert s)

abbrev pub counts : ℕ → List Text → ℕ
counts c [] = 0
counts c (s ∷ parts) = count c s + counts c parts

pub count-concat : (c : ℕ) (parts : List Text) → count c (concat parts) ≡ counts c parts
unfolding concat
count-concat c [] = refl
count-concat c (s ∷ parts) = omega (arith, count-append c s (concat parts), count-concat c parts)

digits_onto-IsInert :
    (fuel n : ℕ) (acc : Text) → All IsInert acc → All IsInert (digits_onto fuel n acc)
unfolding digits_onto
digits_onto-IsInert zero n acc h = h
digits_onto-IsInert (suc fuel) n acc h =
    let digit : IsInert (b'0' + n % 10) = (ground arith, ground arith, ground arith) in
    elim (Bool-cases (ltb n 10)) [
      | inl last ↦ rw last (digit, h)
      | inr more ↦ rw more (digits_onto-IsInert fuel (n / 10) _ (digit, h))
    ]

pub decimal-IsInert : (n : ℕ) → All IsInert (decimal n)
unfolding decimal
decimal-IsInert n = digits_onto-IsInert 20 n [] tt

to_fixed-IsInert : (n i : ℕ) → All IsInert (to_fixed n i)
unfolding to_fixed
to_fixed-IsInert n i =
    let tenths = round_div (10 * n) (1024 ^ i) in
    if_ind (All IsInert) (ltb i 2) (λ _. decimal-IsInert (round_div n (1024 ^ i)))
      (λ _.
        All-append IsInert (decimal (tenths / 10)) (b'.' ∷ decimal (tenths % 10))
          (decimal-IsInert (tenths / 10))
          ((ground arith, ground arith, ground arith), decimal-IsInert (tenths % 10)))

unit_at-IsInert : (i : ℕ) → All IsInert (unit_at i)
unit_at-IsInert zero = ground arith
unit_at-IsInert (suc zero) = ground arith
unit_at-IsInert (suc (suc zero)) = ground arith
unit_at-IsInert (suc (suc (suc zero))) = ground arith
unit_at-IsInert (suc (suc (suc (suc zero)))) = ground arith
unit_at-IsInert (suc (suc (suc (suc (suc i))))) = ground arith

-- The text of a size has no markup.
pub fmt_size-IsInert : (n : ℕ) → All IsInert (fmt_size n)
unfolding fmt_size
fmt_size-IsInert n =
    let i = unit_index 4 n 0 in
    if_ind (All IsInert) (n == 0) (λ _. ((ground arith, ground arith, ground arith), tt))
      (λ _.
        All-append IsInert (to_fixed n i) (b' ' ∷ unit_at i) (to_fixed-IsInert n i)
          ((ground arith, ground arith, ground arith), unit_at-IsInert i))
