-- ===== src/Files/Sort/Stable.antt =====
-- The laws of a stable sort by any consistent comparison function.
use mathlib.Core.List.{Perm}
use mathlib.Core.List.Perm
use claude_docker.Common.{
  Bool, true, false, ◌&&◌, not, List, [], ◌∷◌, ◌≡◌, refl, ◌∙◌, inl, inr, arith, Bool-cases, All,
  filter,
}
use claude_docker.Files.Sort.{Sign, is_pos, insert_sorted, array_sort}

-- Of two elements at least one does not come after the other, and "not after" is transitive.
pub record IsConsistent {ℓ} {A : Type ℓ} (comparator : A → A → Sign) : Type ℓ where
  pub total : (a b : A) → is_pos (comparator a b) ≡ true → is_pos (comparator b a) ≡ false
  pub trans :
      (a b c : A)
      → is_pos (comparator a b) ≡ false
      → is_pos (comparator b c) ≡ false
      → is_pos (comparator a c) ≡ false

module _ {ℓ} {A : Type ℓ} (comparator : A → A → Sign) where
  abbrev pub NotAfter : A → A → Type 0
  NotAfter a b = is_pos (comparator a b) ≡ false

  -- No element comes after a later one.
  abbrev pub IsSorted : List A → Type 0
  IsSorted [] = Unit
  IsSorted (x ∷ xs) = All (NotAfter x) xs × IsSorted xs

  -- Neither of the two comes after the other.
  abbrev pub ties : A → A → Bool
  ties a b = not (is_pos (comparator a b)) && not (is_pos (comparator b a))

  insert_sorted-perm : (x : A) (ys : List A) → Perm (insert_sorted comparator x ys) (x ∷ ys)
  unfolding insert_sorted
  insert_sorted-perm x [] = Perm.refl _
  insert_sorted-perm x (y ∷ ys) = elim (Bool-cases (is_pos (comparator x y))) [
    | inl later ↦ rw later (Perm.trans (Perm.cons y (insert_sorted-perm x ys)) (Perm.swap x y ys))
    | inr first ↦ rw first (Perm.refl _)
  ]

  pub array_sort-perm : (xs : List A) → Perm (array_sort comparator xs) xs
  unfolding array_sort
  array_sort-perm [] = Perm.refl _
  array_sort-perm (x ∷ xs) =
      Perm.trans (insert_sorted-perm x (array_sort comparator xs))
        (Perm.cons x (array_sort-perm xs))

  All-insert {κ} :
      (P : A → Type κ) (x : A) (ys : List A)
      → P x
      → All P ys
      → All P (insert_sorted comparator x ys)
  unfolding insert_sorted
  All-insert P x [] h k = (h, tt)
  All-insert P x (y ∷ ys) h (p, k) = elim (Bool-cases (is_pos (comparator x y))) [
    | inl later ↦ rw later (p, All-insert P x ys h k)
    | inr first ↦ rw first (h, (p, k))
  ]

  pub All-array_sort {κ} :
      (P : A → Type κ) (xs : List A) → All P xs → All P (array_sort comparator xs)
  unfolding array_sort
  All-array_sort P [] h = tt
  All-array_sort P (x ∷ xs) (h, hs) =
      All-insert P x (array_sort comparator xs) h (All-array_sort P xs hs)

  module _ (ok : IsConsistent comparator) where
    All-NotAfter_trans :
        (x y : A) (ys : List A) → NotAfter x y → All (NotAfter y) ys → All (NotAfter x) ys
    All-NotAfter_trans x y [] h k = tt
    All-NotAfter_trans x y (z ∷ ys) h (p, k) = (ok.trans x y z h p, All-NotAfter_trans x y ys h k)

    insert_sorted-IsSorted :
        (x : A) (ys : List A) → IsSorted ys → IsSorted (insert_sorted comparator x ys)
    unfolding insert_sorted
    insert_sorted-IsSorted x [] s = (tt, tt)
    insert_sorted-IsSorted x (y ∷ ys) (h, s) = elim (Bool-cases (is_pos (comparator x y))) [
      | inl later ↦
          rw later
            (All-insert (NotAfter y) x ys (ok.total x y later) h, insert_sorted-IsSorted x ys s)
      | inr first ↦ rw first ((first, All-NotAfter_trans x y ys first h), (h, s))
    ]

    pub array_sort-IsSorted : (xs : List A) → IsSorted (array_sort comparator xs)
    unfolding array_sort
    array_sort-IsSorted [] = tt
    array_sort-IsSorted (x ∷ xs) =
        insert_sorted-IsSorted x (array_sort comparator xs) (array_sort-IsSorted xs)

    filter-insert_sorted :
        (t x : A) (ys : List A)
        → filter (ties t) (insert_sorted comparator x ys) ≡ filter (ties t) (x ∷ ys)
    unfolding insert_sorted
    filter-insert_sorted t x [] = refl
    filter-insert_sorted t x (y ∷ ys) = elim (Bool-cases (is_pos (comparator x y))) [
      | inl later ↦ rw later (ground (arith, filter-insert_sorted t x ys, ok.trans x t y))
      | inr first ↦ rw first
    ]

    -- Elements that tie stay in the order in which they came.
    pub filter-array_sort :
        (t : A) (xs : List A) → filter (ties t) (array_sort comparator xs) ≡ filter (ties t) xs
    unfolding array_sort
    filter-array_sort t [] = refl
    filter-array_sort t (x ∷ xs) =
        filter-insert_sorted t x (array_sort comparator xs) ∙ ground (arith, filter-array_sort t xs)
