-- ===== src/Size.antt =====
-- `fmtBytes` of web/src/main.js and `fmtSize` of web/src/files.js: sizes for people. A size is a
-- whole number of bytes below 2^53, where a JavaScript number holds it exactly; dividing by 1024
-- then loses nothing, so that the number in the loop is n / 1024^i exactly.
pub mod Laws
pub mod Shown
use claude_docker.Common.{
  ℕ, zero, suc, ◌+◌, ◌-◌, ◌*◌, ◌/◌, ◌%◌, ◌^◌, Bool, true, false, ◌&&◌, Option, none, some, List, [],
  ◌∷◌, ◌++◌, get_elem?, if◌then◌else◌, ltb, leb, ◌==◌,
}
use claude_docker.Text.{Text, codes}

-- ["B","KB","MB","GB","TB"]
abbrev pub units : List Text
units = codes "B" ∷ codes "KB" ∷ codes "MB" ∷ codes "GB" ∷ codes "TB" ∷ []

-- `while (n >= 1024 && i < u.length - 1) { n /= 1024; i++; }`, from i on, with the rounds left
-- until the last unit counted: n / 1024^i is at least 1024 exactly if n is at least 1024^(i + 1).
unfoldable pub unit_index : ℕ → ℕ → ℕ → ℕ
unit_index zero n i = i
unit_index (suc rounds) n i =
    let rest = unit_index rounds n (i + 1) in if leb (1024 ^ (i + 1)) n then rest else i

-- The digits of a number, the last one first put in front of `acc`; with as many rounds as the
-- number has digits.
unfoldable pub digits_onto : ℕ → ℕ → Text → Text
digits_onto zero n acc = acc
digits_onto (suc fuel) n acc =
    let digit = b'0' + n % 10 in
    let rest = digits_onto fuel (n / 10) (digit ∷ acc) in if ltb n 10 then digit ∷ acc else rest

unfoldable pub decimal : ℕ → Text
unfolding digits_onto
decimal n = digits_onto 20 n []

-- The quotient a / b rounded to the nearest whole number, a half up, as toFixed rounds.
unfoldable pub round_div : ℕ → ℕ → ℕ
round_div a b = (2 * a + b) / (2 * b)

-- `(n / 1024^i).toFixed(i < 2 ? 0 : 1)`
unfoldable pub to_fixed : ℕ → ℕ → Text
unfolding round_div decimal
to_fixed n i =
    if ltb i 2
    then decimal (round_div n (1024 ^ i))
    else (let tenths = round_div (10 * n) (1024 ^ i) in
        decimal (tenths / 10) ++ (b'.' ∷ decimal (tenths % 10)))

abbrev pub unit_at : ℕ → Text
unit_at i = elim (get_elem? units i) [ none ↦ codes "undefined" | some u ↦ u ]

-- fmtSize(n)
unfoldable pub fmt_size : ℕ → Text
unfolding unit_index to_fixed
fmt_size n =
    if n == 0 then codes "0" else (let i = unit_index 4 n 0 in to_fixed n i ++ (b' ' ∷ unit_at i))

-- fmtBytes(n), where `none` is a missing value; a number that is not positive gives "0" too.
unfoldable pub fmt_bytes : Option ℕ → Text
unfolding fmt_size
fmt_bytes none = codes "0"
fmt_bytes (some n) = fmt_size n
