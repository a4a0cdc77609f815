-- ===== src/Url/Decode.antt =====
-- Reading an encoded string back, as UTF-16 code units, and the strings that can be encoded.
use claude_docker.Common.{
  ℕ, ◌+◌, ◌-◌, ◌/◌, ◌%◌, ◌<◌, true, false, Option, none, some, List, [], ◌∷◌, ◌++◌, if◌then◌else◌,
  if_ind, ltb, lt→ltb, ◌≡◌, ◌↔◌, refl, ap, ap₂, ◌∙◌, sym, inl, inr, arith, All, Option-cases,
}
use mathlib.Core.Option
use mathlib.Core.Option.{some-injective}
use claude_docker.Text.{Text}
use claude_docker.Url.{encode_points, points, points_after, is_high, is_low, pair_point, encode}
use claude_docker.Url.Utf8.{from_utf8, from_utf8-utf8_all}
use claude_docker.Url.Escapes.{unescape, unescape-encode_points, utf8_all, IsPoint}

-- A code point as UTF-16.
unfoldable pub to_units : ℕ → Text
to_units p =
    if ltb p 65536 then p ∷ [] else (55296 + (p - 65536) / 1024) ∷ (56320 + (p - 65536) % 1024) ∷ []

abbrev pub units : List ℕ → Text
units [] = []
units (p ∷ ps) = to_units p ++ units ps

-- decodeURIComponent, of what encodeURIComponent writes
abbrev pub decode : Text → Text
decode s = units (from_utf8 0 0 (unescape s))

-- A code unit.
abbrev pub IsUnit : ℕ → Type 0
IsUnit c = c < 65536

-- What has been read before.
abbrev pub pending : Option ℕ → Text
pending none = []
pending (some h) = h ∷ []

abbrev pub HighUnit : Option ℕ → Type 0
HighUnit none = Unit
HighUnit (some h) = is_high h ≡ true

-- A code point that is no surrogate.
abbrev pub IsScalar : ℕ → Type 0
IsScalar p = IsPoint p × (is_high p ≡ false) × (is_low p ≡ false)

pub scalars_are_points : (ps : List ℕ) → All IsScalar ps → All IsPoint ps
scalars_are_points [] h = tt
scalars_are_points (p ∷ ps) ((h, _, _), hs) = (h, scalars_are_points ps hs)

-- Code points, if there are any, that write this text in UTF-16.
abbrev Spells : Text → Option (List ℕ) → Type 0
Spells t none = Unit
Spells t (some ps) = All IsScalar ps × (units ps ≡ t)

map-Spells :
    (p : ℕ) (t u : Text) (o : Option (List ℕ))
    → IsScalar p
    → to_units p ++ t ≡ u
    → Spells t o
    → Spells u (Option.map (p ∷◌) o)
map-Spells p t u none h e v = tt
map-Spells p t u (some ps) h e (hs, q) = ((h, hs), ap (to_units p ++◌) q ∙ e)

to_units-unit : (c : ℕ) → IsUnit c → to_units c ≡ c ∷ []
unfolding to_units
to_units-unit c h = rw (lt→ltb c 65536 h)

to_units-pair :
    (h l : ℕ)
    → is_high h ≡ true
    → is_low l ≡ true
    → IsScalar (pair_point h l) × (to_units (pair_point h l) ≡ h ∷ l ∷ [])
unfolding to_units
to_units-pair h l hi lo =
    let p = pair_point h l in
    let far : ltb p 65536 ≡ false = ground arith in
    (
      (ground arith, ground arith, ground arith),
      rw far (ap₂ (λ a b. a ∷ b ∷ []) (ground arith) (ground arith)),
    )

points_after-Spells :
    (w : Option ℕ) (s : Text)
    → HighUnit w
    → All IsUnit s
    → Spells (pending w ++ s) (points_after w s)
unfolding points_after
points_after-Spells none [] hw h = (tt, refl)
points_after-Spells (some c) [] hw h = tt
points_after-Spells none (c ∷ s) hw (h, hs) =
    if_ind (Spells (c ∷ s)) (is_high c) (λ hi. points_after-Spells (some c) s hi hs)
      λ not_high.
        if_ind (Spells (c ∷ s)) (is_low c) (λ _. tt)
          (λ not_low.
            map-Spells c s _ _ (omega arith, not_high, not_low) (ap (◌++ s) (to_units-unit c h))
              (points_after-Spells none s tt hs))
points_after-Spells (some c) (d ∷ s) hw (h, hs) =
    if_ind (Spells (c ∷ d ∷ s)) (is_low d)
      (λ lo.
        let (point, pair) = to_units-pair c d hw lo in
        map-Spells _ s _ _ point (ap (◌++ s) pair) (points_after-Spells none s tt hs))
      (λ _. tt)

-- What is encoded are the code points of the string.
pub encode-points :
    (s enc : Text)
    → All IsUnit s
    → encode s ≡ some enc
    → (ps : List ℕ) × (points s ≡ some ps)
      × All IsScalar ps
      × (units ps ≡ s)
      × (enc ≡ encode_points ps)
encode-points s enc h e = elim (Option-cases (points s)) [
  | inl q ↦ cc
  | inr (ps, q) ↦
      let spelt : Spells s (some ps) = rw q at (points_after-Spells none s tt h) in
      (ps, q, spelt.0, spelt.1, some-injective _ _ (sym e ∙ ap (Option.map encode_points) q))
]

-- What encodeURIComponent writes for a string of 16-bit code units is read back as that string by
-- decodeURIComponent; and a server that decodes the escapes alone reads the UTF-8 form of the
-- string's code points.
pub decode-encode :
    (s enc : Text)
    → All IsUnit s
    → encode s ≡ some enc
    → (decode enc ≡ s) × ((ps : List ℕ) × (points s ≡ some ps) × (unescape enc ≡ utf8_all ps))
decode-encode s enc h e =
    let (ps, q, hs, same, wrote) = encode-points s enc h e in
    let read = ap unescape wrote ∙ unescape-encode_points ps (scalars_are_points ps hs) in
    (
      ap (λ bytes. units (from_utf8 0 0 bytes)) read
          ∙ ap units (from_utf8-utf8_all ps (scalars_are_points ps hs))
          ∙ same,
      (ps, q, read),
    )

points_after-to_units :
    (p : ℕ) (s : Text)
    → IsScalar p
    → points_after none (to_units p ++ s) ≡ Option.map (p ∷◌) (points_after none s)
unfolding points_after to_units
points_after-to_units p s (h, not_high, not_low) =
    if_ind (λ u. points_after none (u ++ s) ≡ Option.map (p ∷◌) (points_after none s)) (ltb p 65536)
      (λ _. rw (not_high, not_low) refl)
      (λ far.
        let h1 : is_high (55296 + (p - 65536) / 1024) ≡ true = ground arith in
        let l1 : is_low (56320 + (p - 65536) % 1024) ≡ true = ground arith in
        let q : pair_point (55296 + (p - 65536) / 1024) (56320 + (p - 65536) % 1024) ≡ p =
          ground arith in
        rw (h1, l1, q) refl)

points-units : (ps : List ℕ) → All IsScalar ps → points (units ps) ≡ some ps
unfolding points_after
points-units [] h = refl
points-units (p ∷ ps) (h, hs) =
    points_after-to_units p (units ps) h ∙ ap (Option.map (p ∷◌)) (points-units ps hs)

-- A string of 16-bit code units can be encoded exactly if it is the UTF-16 form of code points none
-- of which is a surrogate; on any other string encodeURIComponent throws.
pub encode_iff :
    (s : Text)
    → All IsUnit s
    → ((enc : Text) × (encode s ≡ some enc)) ↔ ((ps : List ℕ) × All IsScalar ps × (units ps ≡ s))
encode_iff s h = (
  λ (enc, e). let (ps, _, hs, same, _) = encode-points s enc h e in (ps, hs, same),
  λ (ps, hs, same).
      (encode_points ps, ap encode (sym same) ∙ ap (Option.map encode_points) (points-units ps hs)),
)
