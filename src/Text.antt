-- ===== src/Text.antt =====
-- JavaScript strings as lists of UTF-16 code units, with the methods that web/src calls on them:
-- split, join, includes, the relational operators, and `===`. (Those belong to the language.)
pub mod Laws
use Prim.Native.Char.{code}
use claude_docker.Common.{
  ℕ, String, Bool, true, false, ◌&&◌, ◌||◌, List, [], ◌∷◌, ◌++◌, ltb, ◌==◌, if◌then◌else◌,
}

abbrev pub Text : Type 0
Text = List ℕ

-- The code units of a literal, which is ASCII wherever it is used.
abbrev pub codes : String → Text
codes String.[] = []
codes (String.◌∷◌ c s) = code c ∷ codes s

-- `a === b`
unfoldable pub text_eq : Text → Text → Bool
text_eq [] [] = true
text_eq (c ∷ s) (d ∷ t) = c == d && text_eq s t
text_eq _ _ = false

-- `a < b`
unfoldable pub text_lt : Text → Text → Bool
text_lt [] [] = false
text_lt [] (d ∷ t) = true
text_lt (c ∷ s) [] = false
text_lt (c ∷ s) (d ∷ t) = ltb c d || (c == d && text_lt s t)

-- The truth value of a string.
abbrev pub truthy : Text → Bool
truthy [] = false
truthy (_ ∷ _) = true

abbrev pub add_to_head : ℕ → List Text → List Text
add_to_head c [] = (c ∷ []) ∷ []
add_to_head c (w ∷ ws) = (c ∷ w) ∷ ws

-- `s.split(sep)` for a separator of one code unit
unfoldable pub split : ℕ → Text → List Text
split sep [] = [] ∷ []
split sep (c ∷ s) = let rest = split sep s in if c == sep then [] ∷ rest else add_to_head c rest

-- `parts.join(sep)`
unfoldable pub join_with : ℕ → List Text → Text
join_with sep [] = []
join_with sep (w ∷ []) = w
join_with sep (w ∷ v ∷ ws) = w ++ (sep ∷ join_with sep (v ∷ ws))

-- `parts.slice(0, -1)`
unfoldable pub drop_last : List Text → List Text
drop_last [] = []
drop_last (w ∷ []) = []
drop_last (w ∷ v ∷ ws) = w ∷ drop_last (v ∷ ws)

-- `parts.pop()`, of a list that is not empty
unfoldable pub pop : List Text → Text
pop [] = []
pop (w ∷ []) = w
pop (w ∷ v ∷ ws) = pop (v ∷ ws)

-- `s.includes(c)` for one code unit
unfoldable pub includes_unit : ℕ → Text → Bool
includes_unit c [] = false
includes_unit c (d ∷ s) = d == c || includes_unit c s

abbrev pub is_prefix : Text → Text → Bool
is_prefix [] s = true
is_prefix (c ∷ p) [] = false
is_prefix (c ∷ p) (d ∷ s) = c == d && is_prefix p s

-- `s.includes(q)`
unfoldable pub includes : Text → Text → Bool
includes q [] = is_prefix q []
includes q (d ∷ s) = is_prefix q (d ∷ s) || includes q s

-- `set.has(s)`, `list.includes(s)`
unfoldable pub has : List Text → Text → Bool
has [] s = false
has (w ∷ ws) s = text_eq w s || has ws s

-- The pieces of a template literal, put together.
unfoldable pub concat : List Text → Text
concat [] = []
concat (s ∷ parts) = s ++ concat parts
