-- ===== src/Url/Utf8.antt =====
-- Reading UTF-8.
use claude_docker.Common.{
  ℕ, zero, suc, ◌+◌, ◌-◌, ◌*◌, ◌<◌, true, List, [], ◌∷◌, ◌++◌, if◌then◌else◌, if_ind, ltb, ltb→lt,
  ◌≡◌, refl, ap, ◌∙◌, arith, All,
}
use claude_docker.Url.{utf8}
use claude_docker.Url.Escapes.{utf8_all, IsPoint}

-- Bytes as UTF-8, with the number of further bytes of the code point that is being read and its value
-- so far. (What it does on bytes that are no UTF-8 does not matter here.)
unfoldable pub from_utf8 : ℕ → ℕ → List ℕ → List ℕ
from_utf8 left acc [] = []
from_utf8 zero acc (b ∷ bytes) =
    let one = from_utf8 0 0 bytes in
    let two = from_utf8 1 (b - 192) bytes in
    let three = from_utf8 2 (b - 224) bytes in
    let four = from_utf8 3 (b - 240) bytes in
    if ltb b 128 then b ∷ one else if ltb b 224 then two else if ltb b 240 then three else four
from_utf8 (suc zero) acc (b ∷ bytes) = (64 * acc + (b - 128)) ∷ from_utf8 0 0 bytes
from_utf8 (suc (suc left)) acc (b ∷ bytes) = from_utf8 (suc left) (64 * acc + (b - 128)) bytes

reads_ascii : (p : ℕ) (t : List ℕ) → ltb p 128 ≡ true → from_utf8 0 0 (p ∷ t) ≡ p ∷ from_utf8 0 0 t
unfolding from_utf8
reads_ascii p t a = rw a

module _ (x : ℕ) (bytes : List ℕ) where
  first_of_two : x < 32 → from_utf8 0 0 ((192 + x) ∷ bytes) ≡ from_utf8 1 x bytes
  unfolding from_utf8
  first_of_two h = ground arith

  first_of_three : x < 16 → from_utf8 0 0 ((224 + x) ∷ bytes) ≡ from_utf8 2 x bytes
  unfolding from_utf8
  first_of_three h = ground arith

  first_of_four : from_utf8 0 0 ((240 + x) ∷ bytes) ≡ from_utf8 3 x bytes
  unfolding from_utf8
  first_of_four = ground arith

  further :
      (left acc : ℕ)
      → from_utf8 (suc (suc left)) acc ((128 + x) ∷ bytes)
        ≡ from_utf8 (suc left) (64 * acc + x) bytes
  unfolding from_utf8
  further left acc = ap (λ v. from_utf8 (suc left) v bytes) (omega arith)

  last_byte :
      (acc p : ℕ) → 64 * acc + x ≡ p → from_utf8 1 acc ((128 + x) ∷ bytes) ≡ p ∷ from_utf8 0 0 bytes
  unfolding from_utf8
  last_byte acc p e = ap (λ v. v ∷ from_utf8 0 0 bytes) (omega arith)

from_utf8-utf8 :
    (p : ℕ) (t : List ℕ) → IsPoint p → from_utf8 0 0 (utf8 p ++ t) ≡ p ∷ from_utf8 0 0 t
unfolding utf8
from_utf8-utf8 p t h =
    let Reads : List ℕ → Type 0 = λ bytes. from_utf8 0 0 (bytes ++ t) ≡ p ∷ from_utf8 0 0 t in
    if_ind Reads (ltb p 128) (reads_ascii p t) λ a.
      if_ind Reads (ltb p 2048)
        (λ b. first_of_two _ _ (omega (arith, ltb→lt p 2048 b)) ∙ last_byte _ _ _ p (omega arith))
        λ b.
          if_ind Reads (ltb p 65536)
            (λ c.
              first_of_three _ _ (omega (arith, ltb→lt p 65536 c))
              ∙ further _ _ 0 _
              ∙ last_byte _ _ _ p (omega arith))
            (λ c.
              first_of_four _ _
              ∙ further _ _ 1 _
              ∙ further _ _ 0 _
              ∙ last_byte _ _ _ p (omega arith))

pub from_utf8-utf8_all : (ps : List ℕ) → All IsPoint ps → from_utf8 0 0 (utf8_all ps) ≡ ps
unfolding from_utf8
from_utf8-utf8_all [] h = refl
from_utf8-utf8_all (p ∷ ps) (h, hs) =
    from_utf8-utf8 p (utf8_all ps) h ∙ ap (p ∷◌) (from_utf8-utf8_all ps hs)
