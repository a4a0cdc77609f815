-- ===== src/Json.antt =====
-- The bodies and messages of web/src, and JSON.stringify, which belongs to the language, on what they
-- are: objects whose values are strings and whole numbers.
pub mod Reader
pub mod Strings
pub mod Laws
use claude_docker.Common.{
  ℕ, ◌+◌, ◌/◌, ◌%◌, Bool, ◌||◌, Option, none, some, List, [], ◌∷◌, ◌++◌, if◌then◌else◌, ltb, ◌==◌,
}
use claude_docker.Text.{Text, codes}
use claude_docker.Size.{decimal}
use claude_docker.Url.{is_high, is_low}

pub data Value : Type 0 where
  words : Text → Value
  number : ℕ → Value

abbrev pub Object : Type 0
Object = List (Text × Value)

abbrev pub hex_lower : ℕ → ℕ
hex_lower d = if ltb d 10 then b'0' + d else b'W' + d

abbrev pub unicode_escape : ℕ → Text
unicode_escape c =
    b'\\'
    ∷ b'u'
    ∷ hex_lower (c / 4096)
    ∷ hex_lower ((c / 256) % 16)
    ∷ hex_lower ((c / 16) % 16)
    ∷ hex_lower (c % 16)
    ∷ []

-- A unit that is no surrogate, inside quotes.
unfoldable pub quote_unit : ℕ → Text
quote_unit c =
    if c == b'"' || c == b'\\'
    then b'\\' ∷ c ∷ []
    else if c == 8
    then codes "\\b"
    else if c == 9
    then codes "\\t"
    else if c == 10
    then codes "\\n"
    else if c == 12
    then codes "\\f"
    else if c == 13
    then codes "\\r"
    else if ltb c 32
    then unicode_escape c
    else c ∷ []

-- A string inside quotes: a surrogate that stands alone is escaped. The first argument is a high
-- surrogate that has been read.
unfoldable pub quote_after : Option ℕ → Text → Text
quote_after none [] = []
quote_after (some h) [] = unicode_escape h
quote_after none (c ∷ s) =
    let waiting = quote_after (some c) s in
    let rest = quote_after none s in
    if is_high c
    then waiting
    else if is_low c
    then unicode_escape c ++ rest
    else quote_unit c ++ rest
quote_after (some h) (c ∷ s) =
    let waiting = quote_after (some c) s in
    let rest = quote_after none s in
    if is_low c
    then h ∷ c ∷ rest
    else (unicode_escape h ++ (if is_high c then waiting else quote_unit c ++ rest))

abbrev pub quote : Text → Text
quote s = b'"' ∷ quote_after none s ++ (b'"' ∷ [])

abbrev pub value_text : Value → Text
value_text (words s) = quote s
value_text (number n) = decimal n

unfoldable pub field_text : Text × Value → Text
field_text (name, v) = quote name ++ (b':' ∷ value_text v)

unfoldable pub fields_text : Object → Text
fields_text [] = []
fields_text (f ∷ []) = field_text f
fields_text (f ∷ g ∷ fields) = field_text f ++ (b',' ∷ fields_text (g ∷ fields))

-- JSON.stringify(o)
unfoldable pub stringify : Object → Text
stringify o = b'{' ∷ fields_text o ++ (b'}' ∷ [])
