-- ===== src/Escape/Laws.antt =====
-- What a browser reads back from escaped text.
use claude_docker.Common.{
  ℕ, zero, suc, [], ◌∷◌, ◌++◌, ◌≡◌, refl, ap, ◌≢◌, arith, ◌==◌, All, All-append, ◌∙◌, if◌then◌else◌,
}
use claude_docker.Text.{Text, codes, is_prefix}
use claude_docker.Escape.{escape_unit, esc}

-- The unit that stands at the head of an HTML text, and the number of further units it takes up:
-- a browser replaces the four named references, and keeps any other unit.
unit_at : ℕ → Text → ℕ × ℕ
unit_at c s =
    if c == b'&'
    then (if is_prefix (codes "amp;") s
        then (b'&', 4)
        else if is_prefix (codes "lt;") s
        then (b'<', 3)
        else if is_prefix (codes "gt;") s
        then (b'>', 3)
        else if is_prefix (codes "quot;") s
        then (b'"', 5)
        else (c, 0))
    else (c, 0)

-- HTML text as the browser decodes it, after `skip` units that are used up.
decode_from : ℕ → Text → Text
decode_from skip [] = []
decode_from (suc skip) (c ∷ s) = decode_from skip s
decode_from zero (c ∷ s) = let (unit, skip) = unit_at c s in unit ∷ decode_from skip s

unfoldable pub decode : Text → Text
unfolding decode_from unit_at
decode s = decode_from 0 s

decode_from-escape_unit :
    (c : ℕ) (s : Text) → decode_from 0 (escape_unit c ++ s) ≡ c ∷ decode_from 0 s
unfolding decode_from unit_at escape_unit
decode_from-escape_unit c s = ground arith

pub decode-esc : (s : Text) → decode (esc s) ≡ s
unfolding decode esc
decode-esc [] = refl
decode-esc (c ∷ s) = decode_from-escape_unit c (esc s) ∙ ap (c ∷◌) (decode-esc s)

-- A unit that cannot open a tag, close one, or end a double-quoted attribute.
abbrev pub IsInert : ℕ → Type 0
IsInert c = (c ≢ b'<') × (c ≢ b'>') × (c ≢ b'"')

escape_unit-IsInert : (c : ℕ) → All IsInert (escape_unit c)
unfolding escape_unit
escape_unit-IsInert c = ground arith

-- Escaped text has no angle bracket and no double quote.
pub esc-IsInert : (s : Text) → All IsInert (esc s)
unfolding esc
esc-IsInert [] = tt
esc-IsInert (c ∷ s) =
    All-append IsInert (escape_unit c) (esc s) (escape_unit-IsInert c) (esc-IsInert s)
