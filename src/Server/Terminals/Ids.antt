-- ===== src/Server/Terminals/Ids.antt =====
-- The texts of session ids, as backend/internal/sessions/manager.go encodes them, tell the ids apart.
use claude_docker.Common.{
  ℕ, zero, suc, ◌*◌, ◌/◌, ◌%◌, ◌^◌, ◌<◌, false, some, none, List, [], ◌∷◌, ◌++◌, All, if◌then◌else◌,
  ◌==◌, ==_iff, ◌≡◌, inl, inr, refl, sym, arith, Bool-cases,
}
use native.Mathlib.Nat.{pow-suc}
use claude_docker.Text.{Text, text_eq}
use claude_docker.Text.Laws.{text_eq_refl, eq_of_text_eq}
use claude_docker.Server.Sessions.Views.{mem}
use claude_docker.Server.Terminals.{base64_unit, base64_units, id_text, find_id}

base64_unit-injective : (m n : ℕ) → m < 64 → n < 64 → base64_unit m ≡ base64_unit n → m ≡ n
base64_unit-injective m n hm hn e = ground arith

snoc_injective : (s t : Text) (c d : ℕ) → s ++ (c ∷ []) ≡ t ++ (d ∷ []) → (s ≡ t) × (c ≡ d)
snoc_injective [] [] c d e = (refl, cc)
snoc_injective [] (y ∷ []) c d e = cc
snoc_injective [] (y ∷ z ∷ t) c d e = cc
snoc_injective (x ∷ []) [] c d e = cc
snoc_injective (x ∷ z ∷ s) [] c d e = cc
snoc_injective (x ∷ s) (y ∷ t) c d e =
    let tails : s ++ (c ∷ []) ≡ t ++ (d ∷ []) = cc in
    let heads : x ≡ y = cc in let (same, last) = snoc_injective s t c d tails in (cc, last)

base64_units-injective :
    (k m n : ℕ) → m < 64 ^ k → n < 64 ^ k → base64_units k m ≡ base64_units k n → m ≡ n
base64_units-injective zero m n hm hn e = omega arith
base64_units-injective (suc k) m n hm hn e =
    let (high, low) =
      snoc_injective (base64_units k (m / 64)) (base64_units k (n / 64)) (base64_unit (m % 64))
        (base64_unit (n % 64)) e in
    let low' : m % 64 ≡ n % 64 =
      base64_unit-injective (m % 64) (n % 64) (omega arith) (omega arith) low in
    let high' : m / 64 ≡ n / 64 =
      base64_units-injective k (m / 64) (n / 64) (omega (arith, pow-suc 64 k))
        (omega (arith, pow-suc 64 k)) high in
    omega (arith, low', high')

pub id_text-injective : (i j : ℕ) → i < 2 ^ 128 → j < 2 ^ 128 → id_text i ≡ id_text j → i ≡ j
unfolding id_text
id_text-injective i j hi hj e =
    let wide : i * 16 ≡ j * 16 =
      base64_units-injective 22 (i * 16) (j * 16) (omega arith) (omega arith) e in
    omega (arith, wide)

-- Among ids of 128 bits, the text of an id finds it exactly if it is there.
pub find_id-id_text :
    (j : ℕ) (js : List ℕ)
    → j < 2 ^ 128
    → All (λ (i : ℕ). i < 2 ^ 128) js
    → find_id (id_text j) js ≡ (if mem j js then some j else none)
unfolding find_id
find_id-id_text j [] hj h = refl
find_id-id_text j (i ∷ js) hj (hi, h) = elim (Bool-cases (j == i)) [
  | inl same ↦ let e : j ≡ i = (==_iff j i).0 same in rw (same, e, text_eq_refl (id_text i)) refl
  | inr apart ↦ elim (Bool-cases (text_eq (id_text i) (id_text j))) [
    | inl equal ↦
        let e : i ≡ j = id_text-injective i j hi hj (eq_of_text_eq (id_text i) (id_text j) equal) in
        absurd (ne_of j i apart (sym e))
    | inr differ ↦ rw (apart, differ) (find_id-id_text j js hj h)
  ]
]
  where
    ne_of : (a b : ℕ) → (a == b) ≡ false → ¬ (a ≡ b)
    ne_of a b h e = ground (arith, (==_iff a b).1 e)
