-- ===== src/Files/View/Trail.antt =====
-- An array of places with an index into it, as a browser's history.
use claude_docker.Common.{
  ℕ, zero, suc, ◌+◌, ◌-◌, ◌≤◌, ◌<◌, false, List, [], ◌∷◌, ◌++◌, ◌≡◌, refl, ◌∙◌, arith, some, take,
  get_elem?, length, length-append, length-take, lt-length_of_get_elem?, ltb,
}
use claude_docker.Text.{Text}
use claude_docker.Files.View.{history_at}

-- A browser's history: the places before the current one, the nearest first, and those after it.
pub record Trail : Type 0 where
  pub past : List Text
  pub here : Text
  pub future : List Text

abbrev pub visit : Text → Trail → Trail
visit p t = record { past = t.here ∷ t.past; here = p; future = [] }

abbrev pub step_back : Trail → Trail
step_back t = elim t.past [
  | [] ↦ t
  | p ∷ past ↦ record { past = past; here = p; future = t.here ∷ t.future }
]

abbrev pub step_forward : Trail → Trail
step_forward t = elim t.future [
  | [] ↦ t
  | p ∷ future ↦ record { past = t.here ∷ t.past; here = p; future = future }
]

-- The first n elements, the last of them first, in front of `acc`.
abbrev pub rev_take : ℕ → List Text → List Text → List Text
rev_take zero xs acc = acc
rev_take (suc n) [] acc = acc
rev_take (suc n) (x ∷ xs) acc = rev_take n xs (x ∷ acc)

abbrev pub drop : ℕ → List Text → List Text
drop zero xs = xs
drop (suc n) [] = []
drop (suc n) (x ∷ xs) = drop n xs

pub history_at-some : (h : List Text) (i : ℕ) → i < length h → get_elem? h i ≡ some (history_at h i)
history_at-some [] i lt = elim lt [ ]
history_at-some (p ∷ h) zero lt = refl
history_at-some (p ∷ h) (suc i) lt = history_at-some h i (omega arith)

length-kept :
    (h : List Text) (i : ℕ) {c : Text} → get_elem? h i ≡ some c → length (take (suc i) h) ≡ suc i
length-kept h i e = omega (arith, length-take {0} (suc i) h, lt-length_of_get_elem? h i e)

rev_take-suc :
    (n : ℕ) (xs acc : List Text) (y : Text)
    → get_elem? xs n ≡ some y
    → rev_take (suc n) xs acc ≡ y ∷ rev_take n xs acc
rev_take-suc n [] acc y e = cc
rev_take-suc zero (x ∷ xs) acc y e = cc
rev_take-suc (suc n) (x ∷ xs) acc y e = rev_take-suc n xs (x ∷ acc) y e

drop-suc :
    (n : ℕ) (xs : List Text) (y : Text) → get_elem? xs n ≡ some y → drop n xs ≡ y ∷ drop (suc n) xs
drop-suc n [] y e = cc
drop-suc zero (x ∷ xs) y e = cc
drop-suc (suc n) (x ∷ xs) y e = drop-suc n xs y e

rev_take-append :
    (n : ℕ) (xs ys acc : List Text)
    → n ≤ length xs
    → rev_take n (take n xs ++ ys) acc ≡ rev_take n xs acc
rev_take-append zero xs ys acc h = refl
rev_take-append (suc n) [] ys acc h = absurd (omega arith)
rev_take-append (suc n) (x ∷ xs) ys acc h = rev_take-append n xs ys (x ∷ acc) (omega arith)

drop-past : (n : ℕ) (xs : List Text) → length xs ≤ n → drop n xs ≡ []
drop-past zero [] h = refl
drop-past zero (x ∷ xs) h = absurd (omega arith)
drop-past (suc n) [] h = refl
drop-past (suc n) (x ∷ xs) h = drop-past n xs (omega arith)

abbrev pub trail_of : List Text → ℕ → Text → Trail
trail_of h i c = record { past = rev_take i h []; here = c; future = drop (suc i) h }

pub trail_of-push :
    (h : List Text) (i : ℕ) (c p : Text)
    → get_elem? h i ≡ some c
    → trail_of (take (suc i) h ++ (p ∷ [])) (length (take (suc i) h ++ (p ∷ [])) - 1) p
      ≡ visit p (trail_of h i c)
trail_of-push h i c p e =
    let size : length (take (suc i) h ++ (p ∷ [])) ≡ suc (suc i) =
      omega (arith, length-append {0} (take (suc i) h) (p ∷ []), length-kept h i e) in
    let last : length (take (suc i) h ++ (p ∷ [])) - 1 ≡ suc i = omega (arith, size) in
    let past =
      rev_take-append (suc i) h (p ∷ []) [] (lt-length_of_get_elem? h i e)
      ∙ rev_take-suc i h [] c e in
    let future = drop-past (suc (suc i)) (take (suc i) h ++ (p ∷ [])) (omega (arith, size)) in
    rw last (λ j. record { past = past j; here = p; future = future j })

pub trail_of-back :
    (h : List Text) (i : ℕ) (c : Text)
    → get_elem? h i ≡ some c
    → 0 < i
    → trail_of h (i - 1) (history_at h (i - 1)) ≡ step_back (trail_of h i c)
trail_of-back h zero c e lt = elim lt [ ]
trail_of-back h (suc k) c e lt =
    let one : suc k - 1 ≡ k = omega arith in
    let before =
      rev_take-suc k h [] (history_at h k)
        (history_at-some h k (omega (arith, lt-length_of_get_elem? h (suc k) e))) in
    rw (one, before)
      (λ j. record {
        past = rev_take k h [];
        here = history_at h k;
        future = drop-suc (suc k) h c e j;
      })

pub trail_of-no_past :
    (h : List Text) (i : ℕ) (c : Text)
    → ltb 0 i ≡ false
    → trail_of h i c ≡ step_back (trail_of h i c)
trail_of-no_past h zero c e = refl
trail_of-no_past h (suc i) c e = absurd (ground arith)

pub trail_of-no_future :
    (h : List Text) (i : ℕ) (c : Text)
    → ltb (i + 1) (length h) ≡ false
    → trail_of h i c ≡ step_forward (trail_of h i c)
trail_of-no_future h i c e = rw (drop-past (suc i) h (ground arith))

pub trail_of-forward :
    (h : List Text) (i : ℕ) (c : Text)
    → get_elem? h i ≡ some c
    → i + 1 < length h
    → trail_of h (i + 1) (history_at h (i + 1)) ≡ step_forward (trail_of h i c)
trail_of-forward h i c e lt =
    let next : i + 1 ≡ suc i = omega arith in
    let after =
      drop-suc (suc i) h (history_at h (suc i)) (history_at-some h (suc i) (omega arith)) in
    rw (next, after)
      (λ j. record {
        past = rev_take-suc i h [] c e j;
        here = history_at h (suc i);
        future = drop (suc (suc i)) h;
      })
