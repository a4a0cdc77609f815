-- ===== src/Json/Strings.antt =====
-- A string inside quotes is read back.
use claude_docker.Common.{
  ℕ, ◌/◌, ◌%◌, ◌<◌, true, false, ◌||◌, Option, none, some, [], ◌∷◌, ◌++◌, if_ind, ltb, ◌==◌, ==_iff,
  ◌≡◌, refl, ap, ◌∙◌, sym, arith, All, append_assoc,
}
use claude_docker.Text.{Text}
use claude_docker.Json.{hex_lower, unicode_escape, quote_unit, quote_after}
use claude_docker.Json.Reader.{plain, hex_value, unescaped, add_unit, read_string}
use claude_docker.Url.{is_high, is_low}
use claude_docker.Url.Decode.{IsUnit, pending, HighUnit}

hex_value-hex_lower : (d : ℕ) → d < 16 → hex_value (hex_lower d) ≡ d
hex_value-hex_lower d h = ground arith

read_string-unicode_escape :
    (c : ℕ) (t : Text)
    → IsUnit c
    → read_string plain (unicode_escape c ++ t) ≡ add_unit c (read_string plain t)
unfolding read_string
read_string-unicode_escape c t h =
    ap (λ v. add_unit v (read_string plain t))
      (omega (
        arith,
        hex_value-hex_lower (c / 4096) (omega arith),
        hex_value-hex_lower ((c / 256) % 16) (omega arith),
        hex_value-hex_lower ((c / 16) % 16) (omega arith),
        hex_value-hex_lower (c % 16) (omega arith),
      ))

-- A short escape is read as its unit.
short_escape :
    (c d k : ℕ) (t : Text)
    → (c == k) ≡ true
    → (d == b'u') ≡ false
    → unescaped d ≡ k
    → read_string plain (b'\\' ∷ d ∷ t) ≡ add_unit c (read_string plain t)
unfolding read_string
short_escape c d k t e not_u v =
    rw not_u (ap (λ x. add_unit x (read_string plain t)) (v ∙ sym ((==_iff c k).0 e)))

-- A unit that is neither a quote nor a backslash is read as it stands.
read_kept :
    (c : ℕ) (t : Text)
    → (c == b'"') ≡ false
    → (c == b'\\') ≡ false
    → read_string plain (c ∷ t) ≡ add_unit c (read_string plain t)
unfolding read_string
read_kept c t h k = rw (h, k) refl

self_escaped :
    (c : ℕ) (t : Text)
    → (c == b'"' || c == b'\\') ≡ true
    → read_string plain (b'\\' ∷ c ∷ t) ≡ add_unit c (read_string plain t)
unfolding read_string
self_escaped c t e = ground arith

read_string-quote_unit :
    (c : ℕ) (t : Text)
    → IsUnit c
    → read_string plain (quote_unit c ++ t) ≡ add_unit c (read_string plain t)
unfolding quote_unit
read_string-quote_unit c t h =
    let P : Text → Type 0 = λ u. read_string plain (u ++ t) ≡ add_unit c (read_string plain t) in
    if_ind P (c == b'"' || c == b'\\') (λ e. self_escaped c t e)
      λ n.
        if_ind P (c == 8) (λ e. short_escape c b'b' 8 t e refl refl)
          λ _.
            if_ind P (c == 9) (λ e. short_escape c b't' 9 t e refl refl)
              λ _.
                if_ind P (c == 10) (λ e. short_escape c b'n' 10 t e refl refl)
                  λ _.
                    if_ind P (c == 12) (λ e. short_escape c b'f' 12 t e refl refl)
                      λ _.
                        if_ind P (c == 13) (λ e. short_escape c b'r' 13 t e refl refl)
                          λ _.
                            if_ind P (ltb c 32) (λ _. read_string-unicode_escape c t h)
                              (λ _. read_kept c t (ground arith) (ground arith))

-- A text that is read as a string, up to the quote that ends it.
abbrev Reads : Text → Text → Text → Type 0
Reads s t u = read_string plain (u ++ (b'"' ∷ t)) ≡ some (s, t)

module _ (c : ℕ) {s t : Text} (u : Text) (h : IsUnit c) (v : Reads s t u) where
  escape-Reads : Reads (c ∷ s) t (unicode_escape c ++ u)
  escape-Reads = read_string-unicode_escape c (u ++ (b'"' ∷ t)) h ∙ ap (add_unit c) v

  unit-Reads : Reads (c ∷ s) t (quote_unit c ++ u)
  unit-Reads =
      ap (read_string plain) (append_assoc (quote_unit c) u (b'"' ∷ t))
      ∙ read_string-quote_unit c (u ++ (b'"' ∷ t)) h
      ∙ ap (add_unit c) v

surrogates-Reads :
    (c d : ℕ) {s t : Text} (u : Text)
    → is_high c ≡ true
    → is_low d ≡ true
    → Reads s t u
    → Reads (c ∷ d ∷ s) t (c ∷ d ∷ u)
surrogates-Reads c d u hi lo v =
    read_kept c _ (ground arith) (ground arith)
    ∙ ap (add_unit c) (read_kept d _ (ground arith) (ground arith) ∙ ap (add_unit d) v)

quote_end : (t : Text) → Reads [] t []
unfolding read_string
quote_end t = refl

-- A string inside quotes is read up to the quote that ends it.
quote_after-Reads :
    (w : Option ℕ) (s t : Text)
    → All IsUnit (pending w)
    → HighUnit w
    → All IsUnit s
    → Reads (pending w ++ s) t (quote_after w s)
unfolding quote_after
quote_after-Reads none [] t hw hi h = quote_end t
quote_after-Reads (some c) [] t (hc, _) hi h = escape-Reads c [] hc (quote_end t)
quote_after-Reads none (c ∷ s) t hw hi (h, hs) =
    let ih = quote_after-Reads none s t tt tt hs in
    if_ind (Reads (c ∷ s) t) (is_high c) (λ high. quote_after-Reads (some c) s t (h, tt) high hs)
      λ _.
        if_ind (Reads (c ∷ s) t) (is_low c) (λ _. escape-Reads c _ h ih) (λ _. unit-Reads c _ h ih)
quote_after-Reads (some c) (d ∷ s) t (hc, _) hi (h, hs) =
    let ih = quote_after-Reads none s t tt tt hs in
    if_ind (Reads (c ∷ d ∷ s) t) (is_low d) (λ lo. surrogates-Reads c d _ hi lo ih)
      λ _. escape-Reads c _ hc (
        if_ind (Reads (d ∷ s) t) (is_high d)
          (λ high. quote_after-Reads (some d) s t (h, tt) high hs) (λ _. unit-Reads d _ h ih))

-- A name or a string with its quotes, after the first one.
pub read_quoted :
    (s t : Text) → All IsUnit s → read_string plain (quote_after none s ++ (b'"' ∷ t)) ≡ some (s, t)
read_quoted s t h = quote_after-Reads none s t tt tt h
