-- ===== src/Json/Reader.antt =====
-- A reader of such objects, as a server has one.
use claude_docker.Common.{
  ℕ, zero, suc, ◌+◌, ◌-◌, ◌*◌, Bool, ◌&&◌, Option, none, some, [], ◌∷◌, length, if◌then◌else◌, ltb,
  leb, ◌==◌,
}
use claude_docker.Text.{Text}
use claude_docker.Json.{Value, words, number, Object}

-- Where the reader of a string stands: at a unit, after a backslash, or with some digits of a unicode
-- escape to come and the value of those before them.
pub data Place : Type 0 where
  plain escaped : Place
  digits : ℕ → ℕ → Place

abbrev pub hex_value : ℕ → ℕ
hex_value c = if ltb c 58 then c - 48 else if ltb c 71 then c - 55 else c - 87

abbrev pub unescaped : ℕ → ℕ
unescaped c =
    if c == b'b'
    then 8
    else if c == b't'
    then 9
    else if c == b'n'
    then 10
    else if c == b'f'
    then 12
    else if c == b'r'
    then 13
    else c

abbrev pub add_unit : ℕ → Option (Text × Text) → Option (Text × Text)
add_unit c none = none
add_unit c (some (s, rest)) = some (c ∷ s, rest)

-- A string up to the quote that ends it, and what follows.
unfoldable pub read_string : Place → Text → Option (Text × Text)
read_string p [] = none
read_string plain (c ∷ s) =
    let after_backslash = read_string escaped s in
    let rest = read_string plain s in
    if c == b'"' then some ([], s) else if c == b'\\' then after_backslash else add_unit c rest
read_string escaped (c ∷ s) =
    let hex = read_string (digits 4 0) s in
    let rest = read_string plain s in if c == b'u' then hex else add_unit (unescaped c) rest
read_string (digits zero v) (c ∷ s) = none
read_string (digits (suc zero) v) (c ∷ s) = add_unit (16 * v + hex_value c) (read_string plain s)
read_string (digits (suc (suc k)) v) (c ∷ s) = read_string (digits (suc k) (16 * v + hex_value c)) s

abbrev pub is_digit : ℕ → Bool
is_digit c = leb b'0' c && leb c b'9'

-- The value of the digits at the head of a text, and what follows them.
unfoldable pub read_number : ℕ → Text → ℕ × Text
read_number v [] = (v, [])
read_number v (c ∷ s) =
    let rest = read_number (v * 10 + (c - b'0')) s in if is_digit c then rest else (v, c ∷ s)

abbrev as_words : Option (Text × Text) → Option (Value × Text)
as_words none = none
as_words (some (s, rest)) = some (words s, rest)

unfoldable pub read_value : Text → Option (Value × Text)
read_value [] = none
read_value (c ∷ s) =
    let (n, rest) = read_number 0 (c ∷ s) in
    if c == b'"' then as_words (read_string plain s) else some (number n, rest)

abbrev pub name_value : Text → Option (Value × Text) → Option ((Text × Value) × Text)
name_value name none = none
name_value name (some (v, rest)) = some ((name, v), rest)

-- A field from its opening quote on.
abbrev read_after_name : Option (Text × Text) → Option ((Text × Value) × Text)
read_after_name none = none
read_after_name (some (name, [])) = none
read_after_name (some (name, c ∷ s)) = if c == b':' then name_value name (read_value s) else none

unfoldable pub read_field : Text → Option ((Text × Value) × Text)
read_field [] = none
read_field (c ∷ s) = if c == b'"' then read_after_name (read_string plain s) else none

abbrev pub add_field : (Text × Value) → Option Object → Option Object
add_field f none = none
add_field f (some fields) = some (f ∷ fields)

-- What follows a field: a comma and more fields, or the end of the object.
abbrev pub after_field : (Text → Option Object) → Option ((Text × Value) × Text) → Option Object
after_field more none = none
after_field more (some (f, [])) = none
after_field more (some (f, c ∷ rest)) =
    let others = more rest in
    if c == b',' then add_field f others else if c == b'}' then some (f ∷ []) else none

-- The fields from one on, with as many rounds as there can be fields.
unfoldable pub read_fields : ℕ → Text → Option Object
read_fields zero s = none
read_fields (suc rounds) s = after_field (read_fields rounds) (read_field s)

unfoldable pub read_object : Text → Option Object
read_object [] = none
read_object (c ∷ []) = none
read_object (c ∷ d ∷ s) =
    let fields = read_fields (length s) (d ∷ s) in
    if c == b'{' then (if d == b'}' then some [] else fields) else none
