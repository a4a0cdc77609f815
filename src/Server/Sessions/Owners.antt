-- ===== src/Server/Sessions/Owners.antt =====
-- To whom the rows of backend/internal/sessions/manager.go belong, and what follows for those alive.
use claude_docker.Common.{
  ℕ, true, false, not, ◌||◌, ◌&&◌, List, ◌==◌, ==_iff, ◌≡◌, inl, inr, refl, sym, subst, arith,
  Bool-cases,
}
use claude_docker.Server.Sessions.{Row, owns}
use claude_docker.Server.Sessions.Views.{row_on, same_at, row_on-owns}

-- Rows with this id are the user's.
abbrev pub IsOwner : ℕ → ℕ → List Row → Type 0
IsOwner v j rows = (u : ℕ) → owns u j rows ≡ true → u ≡ v

pub dropped_one :
    (u v i j : ℕ) (rows : List Row)
    → IsOwner v j rows
    → (row_on u i rows && not (same_at u i v j)) ≡ (row_on u i rows && not (i == j))
dropped_one u v i j rows o = elim (Bool-cases (i == j)) [
  | inr other ↦ ground (arith, other)
  | inl same ↦ elim (Bool-cases (row_on u i rows)) [
    | inr off ↦ rw off refl
    | inl on ↦
        let e : i ≡ j = (==_iff i j).0 same in
        let who : u ≡ v = o u (subst (λ x. owns u x rows ≡ true) e (row_on-owns u i rows on)) in
        ground (arith, on, who, e)
  ]
]

-- A row that is alive at this id is the owner's.
pub on_at :
    (u v i j : ℕ) (rows : List Row)
    → IsOwner v j rows
    → (i == j) ≡ true
    → row_on u i rows ≡ true
    → row_on v j rows ≡ true
on_at u v i j rows o same on =
    let e : i ≡ j = (==_iff i j).0 same in
    let who : u ≡ v = o u (subst (λ x. owns u x rows ≡ true) e (row_on-owns u i rows on)) in
    subst (λ x. row_on x j rows ≡ true) who (subst (λ x. row_on u x rows ≡ true) e on)

pub nothing_there :
    (u v i j : ℕ) (rows : List Row)
    → IsOwner v j rows
    → row_on v j rows ≡ false
    → row_on u i rows ≡ (row_on u i rows && not (i == j))
nothing_there u v i j rows o gone = elim (Bool-cases (i == j)) [
  | inr other ↦ ground (arith, other)
  | inl same ↦ elim (Bool-cases (row_on u i rows)) [
    | inr off ↦ rw off refl
    | inl on ↦ let there = on_at u v i j rows o same on in cc
  ]
]

pub all_of_user :
    (u v i : ℕ) (rows : List Row)
    → ((a b : ℕ) → owns a i rows ≡ true → owns b i rows ≡ true → a ≡ b)
    → (row_on u i rows && not (u == v)) ≡ (row_on u i rows && not (row_on v i rows))
all_of_user u v i rows unique = elim (Bool-cases (row_on u i rows)) [
  | inr off ↦ rw off refl
  | inl on ↦ elim (Bool-cases (row_on v i rows)) [
    | inl too ↦
        let who : u ≡ v = unique u v (row_on-owns u i rows on) (row_on-owns v i rows too) in
        ground (arith, on, too, who)
    | inr none_there ↦ elim (Bool-cases (u == v)) [
      | inr other ↦ ground (arith, other, none_there)
      | inl same ↦
          let e : u ≡ v = (==_iff u v).0 same in
          let there = subst (λ x. row_on x i rows ≡ true) e on in cc
    ]
  ]
]

pub one_more :
    (u v i j : ℕ) (rows : List Row)
    → ((a b : ℕ) → owns a j rows ≡ true → owns b j rows ≡ true → a ≡ b)
    → owns v j rows ≡ true
    → (same_at u i v j || row_on u i rows) ≡ (row_on u i rows || (i == j && owns u j rows))
one_more u v i j rows unique o = elim (Bool-cases (u == v)) [
  | inl same ↦
      let e : u ≡ v = (==_iff u v).0 same in
      let mine : owns u j rows ≡ true = subst (λ x. owns x j rows ≡ true) (sym e) o in
      ground (arith, same, mine)
  | inr other ↦ elim (Bool-cases (owns u j rows)) [
    | inl too ↦ let e : u ≡ v = unique u v too o in ground (arith, other, e)
    | inr foreign ↦ ground (arith, other, foreign)
  ]
]
