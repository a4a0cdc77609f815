-- ===== src/Url/Address.antt =====
-- How a server reads an address.
use claude_docker.Common.{
  ℕ, true, false, some, List, [], ◌∷◌, ◌++◌, if◌then◌else◌, ◌==◌, ==_refl, ◌≡◌, ◌≢◌, refl, ap, ◌∙◌,
  arith, All,
}
use claude_docker.Text.{Text, split, includes_unit, truthy}
use claude_docker.Text.Laws.{split_of_free}
use claude_docker.Url.{encode, points, encode, encode_points, is_kept}
use claude_docker.Url.Escapes.{unescape, utf8_all, IsPlain, encode_points-IsPlain, plain_ne}
use claude_docker.Url.Decode.{decode-encode, encode-points, scalars_are_points, IsUnit}

-- A text before the first unit of a kind, and what comes after that unit.
unfoldable pub cut : ℕ → Text → Text × Text
cut c [] = ([], [])
cut c (d ∷ s) = let (before, after) = cut c s in if d == c then ([], s) else (d ∷ before, after)

-- How a server reads an address: the part before `#`, cut at the first `?` into the path and the
-- query, and the query into the parameters, each with the bytes of its value.
abbrev pub parameter : Text → Text × List ℕ
parameter s = let (name, value) = cut b'=' s in (name, unescape value)

abbrev pub parameters : List Text → List (Text × List ℕ)
parameters [] = []
parameters ([] ∷ rest) = parameters rest
parameters ((c ∷ s) ∷ rest) = parameter (c ∷ s) ∷ parameters rest

abbrev pub Address : Type 0
Address = Text × List (Text × List ℕ)

unfoldable pub read_address : Text → Address
unfolding cut split
read_address url =
    let (resource, _) = cut b'#' url in
    let (path, query) = cut b'?' resource in (path, parameters (split b'&' query))

free_of_plain :
    (x : ℕ) (s : Text) → is_kept x ≡ false → x ≢ b'%' → All IsPlain s → includes_unit x s ≡ false
unfolding includes_unit
free_of_plain x [] nk np h = refl
free_of_plain x (c ∷ s) nk np (h, hs) =
    let ne = plain_ne c x nk np h in ground (arith, free_of_plain x s nk np hs)

cut_of_free : (x : ℕ) (s : Text) → includes_unit x s ≡ false → cut x s ≡ (s, [])
unfolding cut includes_unit
cut_of_free x [] h = refl
cut_of_free x (c ∷ s) h =
    let other : (c == x) ≡ false = ground arith in
    let rest : includes_unit x s ≡ false = ground arith in rw (other, cut_of_free x s rest)

cut_at : (x : ℕ) (s t : Text) → includes_unit x s ≡ false → cut x (s ++ (x ∷ t)) ≡ (s, t)
unfolding cut includes_unit
cut_at x [] t h = rw (==_refl x)
cut_at x (c ∷ s) t h =
    let other : (c == x) ≡ false = ground arith in
    let rest : includes_unit x s ≡ false = ground arith in rw (other, cut_at x s t rest)

includes_unit-append :
    (x : ℕ) (s t : Text)
    → includes_unit x s ≡ false
    → includes_unit x t ≡ false
    → includes_unit x (s ++ t) ≡ false
unfolding includes_unit
includes_unit-append x [] t h k = k
includes_unit-append x (c ∷ s) t h k = ground (arith, includes_unit-append x s t)

-- An address of a path and one parameter.
read_one :
    (path name enc : Text)
    → includes_unit b'#' (path ++ (b'?' ∷ name ++ (b'=' ∷ enc))) ≡ false
    → includes_unit b'?' path ≡ false
    → includes_unit b'&' (name ++ (b'=' ∷ enc)) ≡ false
    → includes_unit b'=' name ≡ false
    → truthy name ≡ true
    → read_address (path ++ (b'?' ∷ name ++ (b'=' ∷ enc))) ≡ (path, (name, unescape enc) ∷ [])
unfolding read_address
read_one path [] enc a b c d ne = cc
read_one path (n ∷ name) enc a b c d ne =
    rw
      (
        cut_of_free b'#' _ a,
        cut_at b'?' path _ b,
        split_of_free b'&' _ c,
        cut_at b'=' (n ∷ name) enc d,
      )
      refl

-- What an encoded text cannot hold.
pub encoded_free :
    (x : ℕ) (s enc : Text)
    → is_kept x ≡ false
    → x ≢ b'%'
    → All IsUnit s
    → encode s ≡ some enc
    → includes_unit x enc ≡ false
encoded_free x s enc nk np h e =
    let (ps, _, hs, _, wrote) = encode-points s enc h e in
    rw wrote (
      free_of_plain x (encode_points ps) nk np
        (encode_points-IsPlain ps (scalars_are_points ps hs)))

-- An address of a fixed path and a fixed name is read back.
pub read_encoded :
    (path name s enc : Text)
    → All IsUnit s
    → encode s ≡ some enc
    → includes_unit b'#' path ≡ false
    → includes_unit b'?' path ≡ false
    → includes_unit b'#' name ≡ false
    → includes_unit b'&' name ≡ false
    → includes_unit b'=' name ≡ false
    → truthy name ≡ true
    → (ps : List ℕ) × (points s ≡ some ps)
      × (read_address (path ++ (b'?' ∷ name ++ (b'=' ∷ enc))) ≡ (path, (name, utf8_all ps) ∷ []))
unfolding is_kept includes_unit
read_encoded path name s enc h e a b c d g ne =
    let (ps, found, bytes) = (decode-encode s enc h e).1 in
    let hash = encoded_free b'#' s enc refl (λ e. omega arith) h e in
    let ampersand = encoded_free b'&' s enc refl (λ e. omega arith) h e in
    (
      ps,
      found,
      read_one path name enc
            (includes_unit-append b'#' path _ a (includes_unit-append b'#' name _ c hash)) b
            (includes_unit-append b'&' name _ d ampersand) g ne
          ∙ ap (λ v. (path, (name, v) ∷ [])) bytes,
    )
