-- ===== src/Url/Escapes.antt =====
-- What encodeURIComponent writes, and what a server reads back from it.
use claude_docker.Common.{
  ℕ, ◌+◌, ◌-◌, ◌*◌, ◌/◌, ◌%◌, ◌<◌, true, false, List, [], ◌∷◌, ◌++◌, if◌then◌else◌, if_ind, ltb,
  lt→ltb, ◌==◌, ◌≡◌, ◌⊎◌, inl, inr, Bool-cases, sym, ◌≢◌, refl, ap, ◌∙◌, arith, All, All-append,
}
use claude_docker.Text.{Text, includes_unit}
use claude_docker.Url.{is_kept, utf8, hex_digit, percent, encode_point, encode_points}

-- The value of a hexadecimal digit.
abbrev pub hex_value : ℕ → ℕ
hex_value c = if ltb c 58 then c - 48 else if ltb c 71 then c - 55 else c - 87

-- Percent-decoding, of a text whose escapes are complete: the bytes that a server reads.
unfoldable pub unescape : Text → List ℕ
unescape [] = []
unescape (c ∷ []) = c ∷ []
unescape (c ∷ d ∷ []) = c ∷ d ∷ []
unescape (c ∷ d ∷ e ∷ s) =
    let far = unescape s in
    let near = unescape (d ∷ e ∷ s) in
    if c == b'%' then (16 * hex_value d + hex_value e) ∷ far else c ∷ near

abbrev pub IsByte : ℕ → Type 0
IsByte b = b < 256

hex_value-hex_digit : (d : ℕ) → d < 16 → hex_value (hex_digit d) ≡ d
hex_value-hex_digit d h = ground arith

unescape-percent :
    (bytes : List ℕ) (t : Text)
    → All IsByte bytes
    → unescape (percent bytes ++ t) ≡ bytes ++ unescape t
unfolding unescape
unescape-percent [] t h = refl
unescape-percent (b ∷ bytes) t (h, hs) =
    let q : 16 * hex_value (hex_digit (b / 16)) + hex_value (hex_digit (b % 16)) ≡ b = omega (
      arith,
      hex_value-hex_digit (b / 16) (omega arith),
      hex_value-hex_digit (b % 16) (omega arith),
    ) in
    rw q (ap (b ∷◌) (unescape-percent bytes t hs))

unescape-cons : (c : ℕ) (t : Text) → c ≢ b'%' → unescape (c ∷ t) ≡ c ∷ unescape t
unfolding unescape
unescape-cons c [] ne = refl
unescape-cons c (d ∷ []) ne = refl
unescape-cons c (d ∷ e ∷ s) ne = ground arith

-- A code point of Unicode.
abbrev pub IsPoint : ℕ → Type 0
IsPoint p = p < 1114112

utf8-IsByte : (p : ℕ) → IsPoint p → All IsByte (utf8 p)
unfolding utf8
utf8-IsByte p h =
    if_ind (All IsByte) (ltb p 128) (λ a. ground arith)
      λ _.
        if_ind (All IsByte) (ltb p 2048) (λ b. ground arith)
          λ _. if_ind (All IsByte) (ltb p 65536) (λ c. ground arith) (λ d. ground arith)

is_kept-ascii : (c : ℕ) → is_kept c ≡ true → c < 128
unfolding is_kept includes_unit
is_kept-ascii c h = ground arith

utf8-ascii : (c : ℕ) → c < 128 → utf8 c ≡ c ∷ []
unfolding utf8
utf8-ascii c h = rw (lt→ltb c 128 h)

-- The bytes of a list of code points.
abbrev pub utf8_all : List ℕ → List ℕ
utf8_all [] = []
utf8_all (p ∷ ps) = utf8 p ++ utf8_all ps

percent_free : ¬ (is_kept b'%' ≡ true)
unfolding is_kept includes_unit
percent_free k = cc

unescape-encode_point :
    (p : ℕ) (t : Text) → IsPoint p → unescape (encode_point p ++ t) ≡ utf8 p ++ unescape t
unfolding encode_point
unescape-encode_point p t h = elim (Bool-cases (is_kept p)) [
  | inl kept ↦
      rw (kept, utf8-ascii p (is_kept-ascii p kept))
        (unescape-cons p t (λ e. percent_free (rw e at kept)))
  | inr other ↦ rw other (unescape-percent (utf8 p) t (utf8-IsByte p h))
]

-- A server that decodes the escapes reads the UTF-8 form of the code points.
pub unescape-encode_points :
    (ps : List ℕ) → All IsPoint ps → unescape (encode_points ps) ≡ utf8_all ps
unfolding encode_points unescape
unescape-encode_points [] h = refl
unescape-encode_points (p ∷ ps) (h, hs) =
    unescape-encode_point p (encode_points ps) h ∙ ap (utf8 p ++◌) (unescape-encode_points ps hs)

-- A unit that encodeURIComponent keeps, or the one with which an escape begins.
abbrev pub IsPlain : ℕ → Type 0
IsPlain c = (is_kept c ≡ true) ⊎ (c ≡ b'%')

hex_digit-IsPlain : (d : ℕ) → d < 16 → IsPlain (hex_digit d)
unfolding is_kept
hex_digit-IsPlain d h = inl (ground arith)

percent-IsPlain : (bytes : List ℕ) → All IsByte bytes → All IsPlain (percent bytes)
percent-IsPlain [] h = tt
percent-IsPlain (b ∷ bytes) (h, hs) =
    let high = hex_digit-IsPlain (b / 16) (omega arith) in
    let low = hex_digit-IsPlain (b % 16) (omega arith) in
    (inr refl, (high, (low, percent-IsPlain bytes hs)))

encode_point-IsPlain : (p : ℕ) → IsPoint p → All IsPlain (encode_point p)
unfolding encode_point
encode_point-IsPlain p h =
    if_ind (All IsPlain) (is_kept p) (λ kept. (inl kept, tt))
      (λ _. percent-IsPlain (utf8 p) (utf8-IsByte p h))

pub encode_points-IsPlain : (ps : List ℕ) → All IsPoint ps → All IsPlain (encode_points ps)
unfolding encode_points
encode_points-IsPlain [] h = tt
encode_points-IsPlain (p ∷ ps) (h, hs) =
    All-append IsPlain (encode_point p) (encode_points ps) (encode_point-IsPlain p h)
      (encode_points-IsPlain ps hs)

-- No other unit stands in what it writes.
pub plain_ne : (c x : ℕ) → is_kept x ≡ false → x ≢ b'%' → IsPlain c → c ≢ x
plain_ne c x no_kept no_percent (inl kept) e = cc
plain_ne c x no_kept no_percent (inr p) e = no_percent (sym e ∙ p)
