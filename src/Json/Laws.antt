-- ===== src/Json/Laws.antt =====
-- A server that reads what the page writes gets the strings and the numbers.
use claude_docker.Common.{
  ℕ, zero, suc, ◌+◌, ◌-◌, ◌*◌, ◌/◌, ◌%◌, ◌^◌, ◌<◌, ◌≤◌, true, false, none, some, [], ◌∷◌, ◌++◌,
  length, length-append, if_ind, ltb, ◌==◌, ◌≡◌, refl, ap, ◌∙◌, arith, All, append_assoc,
}
use claude_docker.Text.{Text, truthy}
use claude_docker.Size.{decimal, digits_onto}
use claude_docker.Size.Laws.{value_from, value_from-decimal}
use claude_docker.Json.{
  Value, words, number, Object, quote_after, quote, value_text, field_text, fields_text, stringify,
}
use claude_docker.Json.Reader.{
  is_digit, name_value, after_field, read_number, read_value, add_field, read_field, read_fields,
  read_object,
}
use claude_docker.Url.Decode.{IsUnit}
use claude_docker.Json.Strings.{read_quoted}

-- A text does not begin with a digit.
abbrev Stops : Text → Type 0
Stops [] = Unit
Stops (c ∷ t) = is_digit c ≡ false

read_stop : (v : ℕ) (t : Text) → Stops t → read_number v t ≡ (v, t)
unfolding read_number
read_stop v [] h = refl
read_stop v (c ∷ t) h = rw h refl

read_digits :
    (v : ℕ) (s t : Text)
    → All (λ c. is_digit c ≡ true) s
    → Stops t
    → read_number v (s ++ t) ≡ (value_from v s, t)
unfolding read_number
read_digits v [] t h stop = read_stop v t stop
read_digits v (c ∷ s) t (h, hs) stop = rw h (read_digits (v * 10 + (c - b'0')) s t hs stop)

digits_onto-digits :
    (fuel n : ℕ) (acc : Text)
    → All (λ c. is_digit c ≡ true) acc
    → All (λ c. is_digit c ≡ true) (digits_onto fuel n acc)
unfolding digits_onto
digits_onto-digits zero n acc h = h
digits_onto-digits (suc fuel) n acc h =
    let digit : is_digit (b'0' + n % 10) ≡ true = ground arith in
    if_ind (All (λ c. is_digit c ≡ true)) (ltb n 10) (λ _. (digit, h))
      (λ _. digits_onto-digits fuel (n / 10) _ (digit, h))

read_decimal : (n : ℕ) (t : Text) → n < 10 ^ 20 → Stops t → read_number 0 (decimal n ++ t) ≡ (n, t)
unfolding decimal
read_decimal n t h stop =
    read_digits 0 (digits_onto 20 n []) t (digits_onto-digits 20 n [] tt) stop
    ∙ ap (λ v. (v, t)) (value_from-decimal n h)

digits_onto-truthy : (fuel n : ℕ) (acc : Text) → truthy (digits_onto (suc fuel) n acc) ≡ true
unfolding digits_onto
digits_onto-truthy zero n acc = if_ind (λ s. truthy s ≡ true) (ltb n 10) (λ _. refl) (λ _. refl)
digits_onto-truthy (suc fuel) n acc =
    if_ind (λ s. truthy s ≡ true) (ltb n 10) (λ _. refl)
      (λ _. digits_onto-truthy fuel (n / 10) ((b'0' + n % 10) ∷ acc))

read_value-digits :
    (s t : Text)
    → truthy s ≡ true
    → All (λ c. is_digit c ≡ true) s
    → read_value (s ++ t) ≡ some (number (read_number 0 (s ++ t)).0, (read_number 0 (s ++ t)).1)
unfolding read_value
read_value-digits [] t ne h = cc
read_value-digits (c ∷ s) t ne (h, _) =
    let other : (c == b'"') ≡ false = ground arith in rw other refl

abbrev pub IsValue : Value → Type 0
IsValue (words s) = All IsUnit s
IsValue (number n) = n < 10 ^ 20

-- The reader of values gets the value, if the text goes on with no digit.
read_value-value_text :
    (v : Value) (t : Text) → IsValue v → Stops t → read_value (value_text v ++ t) ≡ some (v, t)
unfolding read_value decimal
read_value-value_text (words s) t h stop =
    rw (append_assoc (quote_after none s) (b'"' ∷ []) t, read_quoted s t h) refl
read_value-value_text (number n) t h stop =
    read_value-digits (decimal n) t (digits_onto-truthy 19 n []) (digits_onto-digits 20 n [] tt)
    ∙ ap (λ (v : ℕ × Text). some (number v.0, v.1)) (read_decimal n t h stop)

abbrev pub IsField : Text × Value → Type 0
IsField (name, v) = All IsUnit name × IsValue v

read_field_parts :
    (name : Text) (v : Value) (t : Text)
    → All IsUnit name
    → IsValue v
    → Stops t
    → read_field (quote name ++ (b':' ∷ value_text v ++ t)) ≡ some ((name, v), t)
unfolding read_field
read_field_parts name v t h hv stop =
    rw
      (
        append_assoc (quote_after none name) (b'"' ∷ []) (b':' ∷ value_text v ++ t),
        read_quoted name (b':' ∷ value_text v ++ t) h,
      )
      (ap (name_value name) (read_value-value_text v t hv stop))

read_field-field_text :
    (f : Text × Value) (t : Text)
    → IsField f
    → Stops t
    → read_field (field_text f ++ t) ≡ some (f, t)
unfolding field_text
read_field-field_text (name, v) t (h, hv) stop =
    ap read_field (append_assoc (quote name) (b':' ∷ value_text v) t)
    ∙ read_field_parts name v t h hv stop

-- As many rounds as there are fields are enough.
read_fields-fields_text :
    (f : Text × Value) (fields : Object) (rounds : ℕ)
    → length fields < rounds
    → All IsField (f ∷ fields)
    → read_fields rounds (fields_text (f ∷ fields) ++ (b'}' ∷ [])) ≡ some (f ∷ fields)
unfolding read_fields fields_text
read_fields-fields_text f fields zero lt hs = absurd (omega arith)
read_fields-fields_text f [] (suc rounds) lt (h, _) =
    ap (after_field (read_fields rounds)) (read_field-field_text f (b'}' ∷ []) h refl)
read_fields-fields_text f (g ∷ fields) (suc rounds) lt (h, hs) =
    let end = fields_text (g ∷ fields) ++ (b'}' ∷ []) in
    ap (λ s. after_field (read_fields rounds) (read_field s))
      (append_assoc (field_text f) (b',' ∷ fields_text (g ∷ fields)) (b'}' ∷ []))
    ∙ ap (after_field (read_fields rounds)) (read_field-field_text f (b',' ∷ end) h refl)
    ∙ ap (add_field f) (read_fields-fields_text g fields rounds (omega arith) hs)

field_long : (f : Text × Value) → 2 ≤ length (field_text f)
unfolding field_text
field_long (name, v) = omega (
  arith,
  length-append (quote name) (b':' ∷ value_text v),
  length-append (quote_after none name) (b'"' ∷ []),
)

fields_long :
    (f : Text × Value) (fields : Object) → 2 + length fields ≤ length (fields_text (f ∷ fields))
unfolding fields_text
fields_long f [] = field_long f
fields_long f (g ∷ fields) = omega (
  arith,
  field_long f,
  fields_long g fields,
  length-append (field_text f) (b',' ∷ fields_text (g ∷ fields)),
)

fields_head :
    (f : Text × Value) (fields : Object) → (s : Text) × (fields_text (f ∷ fields) ≡ b'"' ∷ s)
unfolding fields_text field_text
fields_head (name, v) [] = (_, refl)
fields_head (name, v) (g ∷ fields) = (_, refl)

-- Reading an object that JSON.stringify has written gives the object back, if its strings consist of
-- 16-bit code units and its numbers are below 10^20: no quote, backslash, control character or
-- surrogate that stands alone is lost, in names or in values.
pub read_object-stringify : (o : Object) → All IsField o → read_object (stringify o) ≡ some o
unfolding read_object stringify fields_text
read_object-stringify [] h = refl
read_object-stringify (f ∷ o) h =
    let (s, e) = fields_head f o in
    let enough : length o < length (s ++ (b'}' ∷ [])) =
      omega (arith, length-append s (b'}' ∷ []), fields_long f o, ap length e) in
    rw e (rw e at (read_fields-fields_text f o (length (s ++ (b'}' ∷ []))) enough h))
