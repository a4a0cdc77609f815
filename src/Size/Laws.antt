-- ===== src/Size/Laws.antt =====
-- The unit and the number that are shown.
use claude_docker.Common.{
  ℕ, zero, suc, ◌+◌, ◌-◌, ◌*◌, ◌/◌, ◌%◌, ◌^◌, ◌≤◌, ◌<◌, [], ◌∷◌, ◌≡◌, ◌⊎◌, ap, ◌∙◌, lt→ltb, ltb→lt,
  ltb, arith, Bool-cases, inl, inr,
}
use native.Mathlib.Nat.{pow-suc, div-add-mod, mod-lt}
use native.Mathlib.Numerals.{add-one}
use claude_docker.Text.{Text}
use claude_docker.Size.{unit_index, digits_onto, decimal, round_div}

-- The unit is the largest of the five that fits: the size is below 1024 of it, unless it is the
-- last one, and at least one of it, unless it is the first one.
pub unit_index_lem :
    (n : ℕ)
    → (unit_index 4 n 0 ≤ 4)
      × ((n < 1024 ^ (unit_index 4 n 0 + 1)) ⊎ (unit_index 4 n 0 ≡ 4))
      × ((1024 ^ unit_index 4 n 0 ≤ n) ⊎ (unit_index 4 n 0 ≡ 0))
unfolding unit_index
unit_index_lem n = ground arith

-- The digits that `decimal` writes, read back.
abbrev pub value_from : ℕ → Text → ℕ
value_from n [] = n
value_from n (c ∷ s) = value_from (n * 10 + (c - b'0')) s

value_from-digits_onto :
    (fuel n : ℕ) (acc : Text)
    → n < 10 ^ suc fuel
    → value_from 0 (digits_onto (suc fuel) n acc) ≡ value_from n acc
unfolding digits_onto
value_from-digits_onto zero n acc h =
    rw (lt→ltb n 10 h) (ap (λ (m : ℕ). value_from m acc) (omega arith))
value_from-digits_onto (suc fuel) n acc h = elim (Bool-cases (ltb n 10)) [
  | inl last ↦ let lt = ltb→lt n 10 last in rw last (ap (λ (m : ℕ). value_from m acc) (omega arith))
  | inr more ↦ rw more (
      value_from-digits_onto fuel (n / 10) ((b'0' + n % 10) ∷ acc)
        (omega (arith, pow-suc 10 (suc fuel)))
      ∙ ap (λ (m : ℕ). value_from m acc) (omega arith))
]

-- Twenty rounds write every number below 10^20 in full: its digits read back are the number.
pub value_from-decimal : (n : ℕ) → n < 10 ^ 20 → value_from 0 (decimal n) ≡ n
unfolding decimal
value_from-decimal n h = value_from-digits_onto 19 n [] h

-- The nearest whole number.
pub round_div-nearest :
    (a b : ℕ)
    → 0 < b
    → (2 * a ≤ 2 * (b * round_div a b) + b) × (2 * (b * round_div a b) ≤ 2 * a + b)
unfolding round_div
round_div-nearest a b h = grind (arith, div-add-mod (2 * a + b) (2 * b), mod-lt)

pub pow-pos : (i : ℕ) → 0 < 1024 ^ i
pow-pos zero = omega arith
pow-pos (suc i) = omega (arith, pow-suc 1024 i, pow-pos i)

-- A quotient below k rounds to k at most.
pub round_div-le : (a b k : ℕ) → 0 < b → a < b * k → round_div a b ≤ k
round_div-le a b k pos lt = grind (arith, round_div-nearest a b pos)

-- The number that is shown, whole below a megabyte and in tenths from there on, is the one nearest
-- to the size in the unit that is shown; and unless the unit is the last one, it is at most 1024.
pub nearest_in_unit :
    (n : ℕ)
    → let i = unit_index 4 n 0 in
      let unit = 1024 ^ i in
      let whole = round_div n unit in
      let tenths = round_div (10 * n) unit in
      (2 * n ≤ 2 * (unit * whole) + unit)
      × (2 * (unit * whole) ≤ 2 * n + unit)
      × (2 * (10 * n) ≤ 2 * (unit * tenths) + unit)
      × (2 * (unit * tenths) ≤ 2 * (10 * n) + unit)
      × (((whole ≤ 1024) × (tenths ≤ 10240)) ⊎ (i ≡ 4))
nearest_in_unit n =
    let i = unit_index 4 n 0 in
    let pos = pow-pos i in
    let (w1, w2) = round_div-nearest n (1024 ^ i) pos in
    let (t1, t2) = round_div-nearest (10 * n) (1024 ^ i) pos in
    let (_, below, _) = unit_index_lem n in
    (
      w1,
      w2,
      t1,
      t2,
      elim below [
        | inr last ↦ inr last
        | inl lt ↦
            let step : 1024 ^ (i + 1) ≡ 1024 ^ i * 1024 = rw add-one (pow-suc 1024 i) in
            inl (
              round_div-le n (1024 ^ i) 1024 pos (omega (arith, step)),
              round_div-le (10 * n) (1024 ^ i) 10240 pos (omega (arith, step)),
            )
      ],
    )
