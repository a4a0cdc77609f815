-- ===== src/Size/Shown.antt =====
-- The text that fmtSize of web/src/files.js shows, read back by a person.
use claude_docker.Common.{
  ℕ, zero, suc, ◌+◌, ◌-◌, ◌*◌, ◌/◌, ◌%◌, ◌^◌, ◌≤◌, ◌<◌, List, [], ◌∷◌, ◌++◌, if◌then◌else◌, ◌==◌,
  ◌≡◌, ◌⊎◌, refl, sym, ap, ◌∙◌, lt→ltb, ltb→lt, ltb, leb, subst, arith, Bool-cases, inl, inr,
}
use mathlib.Core.List.{Memᴰ}
use native.Mathlib.Nat.{pow-suc}
use native.Mathlib.Numerals.{add-one}
use claude_docker.Text.{Text, codes}
use claude_docker.Size.{unit_index, digits_onto, decimal, round_div, to_fixed, unit_at, fmt_size}
use claude_docker.Size.Laws.{unit_index_lem, nearest_in_unit}

-- A number in tenths, from its digits and at most one digit after a point.
abbrev pub tenths_from : ℕ → Text → ℕ
tenths_from n [] = n * 10
tenths_from n (c ∷ []) = if c == b'.' then n * 10 else (n * 10 + (c - b'0')) * 10
tenths_from n (c ∷ d ∷ s) =
    if c == b'.' then n * 10 + (d - b'0') else tenths_from (n * 10 + (c - b'0')) (d ∷ s)

-- The units of a size, in bytes.
abbrev pub size_units : List (ℕ × Text)
size_units =
    (1, codes "B")
    ∷ (1024, codes "KB")
    ∷ (1048576, codes "MB")
    ∷ (1073741824, codes "GB")
    ∷ (1099511627776, codes "TB")
    ∷ []

digit_read :
    (n c : ℕ) (s : Text) → c < 10 → tenths_from n ((b'0' + c) ∷ s) ≡ tenths_from (n * 10 + c) s
digit_read n c [] h = ground arith
digit_read n c (d ∷ s) h = ground arith

tenths_from-digits_onto :
    (fuel n : ℕ) (acc : Text)
    → n < 10 ^ suc fuel
    → tenths_from 0 (digits_onto (suc fuel) n acc) ≡ tenths_from n acc
unfolding digits_onto
tenths_from-digits_onto zero n acc h =
    rw (lt→ltb n 10 h)
      (digit_read 0 (n % 10) acc (omega arith) ∙ ap (λ (m : ℕ). tenths_from m acc) (omega arith))
tenths_from-digits_onto (suc fuel) n acc h = elim (Bool-cases (ltb n 10)) [
  | inl last ↦
      let lt = ltb→lt n 10 last in
      rw last
        (digit_read 0 (n % 10) acc (omega arith) ∙ ap (λ (m : ℕ). tenths_from m acc) (omega arith))
  | inr more ↦ rw more (
      tenths_from-digits_onto fuel (n / 10) ((b'0' + n % 10) ∷ acc)
        (omega (arith, pow-suc 10 (suc fuel)))
      ∙ digit_read (n / 10) (n % 10) acc (omega arith)
      ∙ ap (λ (m : ℕ). tenths_from m acc) (omega arith))
]

digits_onto-append :
    (fuel n : ℕ) (acc rest : Text)
    → digits_onto fuel n acc ++ rest ≡ digits_onto fuel n (acc ++ rest)
unfolding digits_onto
digits_onto-append zero n acc rest = refl
digits_onto-append (suc fuel) n acc rest = elim (Bool-cases (ltb n 10)) [
  | inl last ↦ rw last refl
  | inr more ↦ rw more (digits_onto-append fuel (n / 10) ((b'0' + n % 10) ∷ acc) rest)
]

whole_read : (n : ℕ) → n < 10 ^ 20 → tenths_from 0 (decimal n) ≡ n * 10
unfolding decimal
whole_read n h = tenths_from-digits_onto 19 n [] h

one_digit : (d : ℕ) → d < 10 → decimal d ≡ (b'0' + d) ∷ []
unfolding decimal digits_onto
one_digit d h = rw (lt→ltb d 10 h) (ap (λ (c : ℕ). c ∷ []) (omega arith))

tenths_read :
    (n : ℕ) → n < 10 ^ 20 → tenths_from 0 (decimal (n / 10) ++ (b'.' ∷ decimal (n % 10))) ≡ n
unfolding decimal
tenths_read n h =
    ap (λ s. tenths_from 0 (decimal (n / 10) ++ (b'.' ∷ s))) (one_digit (n % 10) (omega arith))
    ∙ ap (tenths_from 0) (digits_onto-append 20 (n / 10) [] _)
    ∙ tenths_from-digits_onto 19 (n / 10) _ (omega arith)
    ∙ omega arith

unit_listed : (i : ℕ) → i ≤ 4 → Memᴰ (1024 ^ i, unit_at i) size_units
unit_listed zero h = Memᴰ.head refl
unit_listed (suc zero) h = Memᴰ.tail (Memᴰ.head refl)
unit_listed (suc (suc zero)) h = Memᴰ.tail (Memᴰ.tail (Memᴰ.head refl))
unit_listed (suc (suc (suc zero))) h = Memᴰ.tail (Memᴰ.tail (Memᴰ.tail (Memᴰ.head refl)))
unit_listed (suc (suc (suc (suc zero)))) h =
    Memᴰ.tail (Memᴰ.tail (Memᴰ.tail (Memᴰ.tail (Memᴰ.head refl))))
unit_listed (suc (suc (suc (suc (suc i))))) h = absurd (omega (arith, h))

-- How far twice a number in tenths may be from what it stands for: half of the last digit that is
-- shown, which is whole up to kilobytes and in tenths from there on.
abbrev pub slack : ℕ → ℕ
slack unit = if leb unit 1024 then 10 * unit else unit

slack_at : (i : ℕ) → i ≤ 4 → slack (1024 ^ i) ≡ (if ltb i 2 then 10 * 1024 ^ i else 1024 ^ i)
slack_at zero h = refl
slack_at (suc zero) h = refl
slack_at (suc (suc zero)) h = refl
slack_at (suc (suc (suc zero))) h = refl
slack_at (suc (suc (suc (suc zero)))) h = refl
slack_at (suc (suc (suc (suc (suc i))))) h = absurd (omega (arith, h))

last_small :
    (n i w : ℕ) → n < 2 ^ 53 → i ≡ 4 → 2 * (1024 ^ i * w) ≤ 2 * (10 * n) + 1024 ^ i → w < 10 ^ 20
last_small n i w h e le =
    let le' : 2 * (1024 ^ 4 * w) ≤ 2 * (10 * n) + 1024 ^ 4 =
      subst (λ i. 2 * (1024 ^ i * w) ≤ 2 * (10 * n) + 1024 ^ i) e le in
    omega (arith, le', h)

-- A number that reads as the size, in this unit.
pub record Reads (n unit : ℕ) (number : Text) : Type 0 where
  pub low : 2 * (10 * n) ≤ 2 * (unit * tenths_from 0 number) + slack unit
  pub high : 2 * (unit * tenths_from 0 number) ≤ 2 * (10 * n) + slack unit
  pub least : unit ≤ n
  pub most : ((n < 1024 * unit) × (tenths_from 0 number ≤ 10240)) ⊎ (unit ≡ 1099511627776)

times_ten : (u w : ℕ) → u * (w * 10) ≡ 10 * (u * w)
times_ten u w = grind arith

-- The number that is shown, read in tenths.
fixed_read :
    (n i : ℕ)
    → round_div n (1024 ^ i) < 10 ^ 20
    → round_div (10 * n) (1024 ^ i) < 10 ^ 20
    → tenths_from 0 (to_fixed n i)
      ≡ (if ltb i 2 then round_div n (1024 ^ i) * 10 else round_div (10 * n) (1024 ^ i))
unfolding to_fixed
fixed_read n i w t = elim (Bool-cases (ltb i 2)) [
  | inl whole ↦ rw whole (whole_read (round_div n (1024 ^ i)) w)
  | inr tenths ↦ rw tenths (tenths_read (round_div (10 * n) (1024 ^ i)) t)
]

Reads-from :
    (n unit v sl : ℕ) (number : Text)
    → tenths_from 0 number ≡ v
    → slack unit ≡ sl
    → 2 * (10 * n) ≤ 2 * (unit * v) + sl
    → 2 * (unit * v) ≤ 2 * (10 * n) + sl
    → unit ≤ n
    → ((n < 1024 * unit) × (v ≤ 10240)) ⊎ (unit ≡ 1099511627776)
    → Reads n unit number
Reads-from n unit v sl number read gap low high least most = record {
  low = rw (read, gap) low;
  high = rw (read, gap) high;
  least = least;
  most = rw read most;
}

module _ (n : ℕ) (pos : 0 < n) (small : n < 2 ^ 53) where
  abbrev index : ℕ
  index = unit_index 4 n 0

  abbrev whole : ℕ
  whole = round_div n (1024 ^ index)

  abbrev tenths : ℕ
  tenths = round_div (10 * n) (1024 ^ index)

  sizes_small : (whole < 10 ^ 20) × (tenths < 10 ^ 20)
  sizes_small =
      let (w1, w2, t1, t2, top) = nearest_in_unit n in
      elim top [
        | inl (w, t) ↦ (omega (arith, w), omega (arith, t))
        | inr e ↦ (
          last_small n index whole small e (omega (arith, w2)),
          last_small n index tenths small e t2,
        )
      ]

  unit_least : 1024 ^ index ≤ n
  unit_least = elim (unit_index_lem n).2 [
    | inl h ↦ h
    | inr e ↦ subst (λ i. 1024 ^ i ≤ n) (sym e) (omega (arith, pos))
  ]

  unit_most : (n < 1024 * 1024 ^ index) ⊎ (1024 ^ index ≡ 1099511627776)
  unit_most = elim (unit_index_lem n).1 [
    | inl h ↦
        let step : 1024 ^ (index + 1) ≡ 1024 ^ index * 1024 = rw add-one (pow-suc 1024 index) in
        inl (omega (arith, h, step))
    | inr e ↦ inr (ap (λ i. 1024 ^ i) e)
  ]

  both_most :
      (v : ℕ)
      → (v ≤ 10240) ⊎ (index ≡ 4)
      → ((n < 1024 * 1024 ^ index) × (v ≤ 10240)) ⊎ (1024 ^ index ≡ 1099511627776)
  both_most v (inr e) = inr (ap (λ i. 1024 ^ i) e)
  both_most v (inl h) = elim unit_most [ inl m ↦ inl (m, h) | inr e ↦ inr e ]

  Reads-fixed : Reads n (1024 ^ index) (to_fixed n index)
  Reads-fixed =
      let (w1, w2, t1, t2, top) = nearest_in_unit n in
      let (at_most, below, above) = unit_index_lem n in
      let value = fixed_read n index sizes_small.0 sizes_small.1 in
      let gap = slack_at index at_most in
      let ten = times_ten (1024 ^ index) whole in
      elim (Bool-cases (ltb index 2)) [
        | inl coarse ↦
            Reads-from n (1024 ^ index) (whole * 10) (10 * 1024 ^ index) (to_fixed n index)
              (value ∙ rw coarse refl) (gap ∙ rw coarse refl) (omega (arith, w1, ten))
              (omega (arith, w2, ten)) unit_least
              (both_most (whole * 10)
                (elim top [ inl h ↦ inl (omega (arith, h.0)) | inr e ↦ inr e ]))
        | inr fine ↦
            Reads-from n (1024 ^ index) tenths (1024 ^ index) (to_fixed n index)
              (value ∙ rw fine refl) (gap ∙ rw fine refl) t1 t2 unit_least
              (both_most tenths (elim top [ inl h ↦ inl h.1 | inr e ↦ inr e ]))
      ]

-- The text that is shown for a size from 1 to 2^53 is a number, a space and the name of a unit. Read in
-- that unit, the number is as near to the size as a number can be that is whole, for bytes and
-- kilobytes, or has one digit after the point. The size is at least one of the unit; and unless the
-- unit is the largest, it is less than 1024 of it, and the number is at most 1024.
pub size_accuracy :
    (n : ℕ)
    → 0 < n
    → n < 2 ^ 53
    → (number name : Text) × (unit : ℕ) × (fmt_size n ≡ number ++ (b' ' ∷ name))
      × Memᴰ (unit, name) size_units
      × Reads n unit number
unfolding fmt_size
size_accuracy n pos small =
    let i = unit_index 4 n 0 in
    (
      to_fixed n i,
      unit_at i,
      1024 ^ i,
      ground (arith, pos),
      unit_listed i (unit_index_lem n).0,
      Reads-fixed n pos small,
    )
