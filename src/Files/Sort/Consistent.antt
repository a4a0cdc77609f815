-- ===== src/Files/Sort/Consistent.antt =====
-- The comparison function of sort in web/src/files.js is consistent, since its keys are ordered.
use claude_docker.Common.{Bool, true, false, ◌≡◌, refl, inl, inr, arith, Bool-cases, ltb}
use claude_docker.Text.{Text, text_lt}
use claude_docker.Text.Laws.{text_lt_irrefl, text_lt_trans, text_lt_tri}
use claude_docker.Files.Sort.{
  SortKey, by_name, by_size, by_mtime, SortDir, forward, backward, Sign, is_pos, compare_values,
  compare_key, dirs_first,
}
use claude_docker.Files.Sort.Stable.{IsConsistent}

-- A strict total order.
pub record IsOrder {ℓ} {K : Type ℓ} (lt : K → K → Bool) : Type ℓ where
  pub irrefl : (a : K) → lt a a ≡ false
  pub trans : (a b c : K) → lt a b ≡ true → lt b c ≡ true → lt a c ≡ true
  pub tri : (a b : K) → lt a b ≡ false → lt b a ≡ false → a ≡ b

ltb-IsOrder : IsOrder ltb
ltb-IsOrder = record {
  irrefl = λ a. ground arith;
  trans = λ a b c h k. ground arith;
  tri = λ a b h k. ground arith;
}

pub text_lt-IsOrder : IsOrder text_lt
text_lt-IsOrder = record { irrefl = text_lt_irrefl; trans = text_lt_trans; tri = text_lt_tri }

module _ {ℓ} {K : Type ℓ} (lt : K → K → Bool) (o : IsOrder lt) where
  pub asym : (a b : K) → lt a b ≡ true → lt b a ≡ false
  asym a b h = elim (Bool-cases (lt b a)) [ inl k ↦ cc (o.trans a b a h k, o.irrefl a) | inr k ↦ k ]

  not_lt_trans : (a b c : K) → lt b a ≡ false → lt c b ≡ false → lt c a ≡ false
  not_lt_trans a b c h k = elim (Bool-cases (lt c a)) [
    | inr r ↦ r
    | inl l ↦ elim (Bool-cases (lt a b)) [
      | inl m ↦ cc (o.trans c a b l m)
      | inr n ↦ cc (o.tri a b n h)
    ]
  ]

  compare_values-IsConsistent : (dir : SortDir) → IsConsistent (compare_values lt dir)
  compare_values-IsConsistent forward = record {
    total = λ a b h. ground (arith, asym a b, asym b a);
    trans = λ a b c h k. ground (arith, asym b a, asym c b, asym a c, not_lt_trans a b c);
  }
  compare_values-IsConsistent backward = record {
    total = λ a b h. ground (arith, asym a b, asym b a);
    trans = λ a b c h k. ground (arith, asym a b, asym b c, asym a c, not_lt_trans c b a);
  }

pub compare_key-IsConsistent :
    (to_lower : Text → Text) (key : SortKey) (dir : SortDir)
    → IsConsistent (compare_key to_lower key dir)
compare_key-IsConsistent to_lower by_size dir =
    let c = compare_values-IsConsistent ltb ltb-IsOrder dir in
    record { total = λ a b. c.total a.size b.size; trans = λ a b d. c.trans a.size b.size d.size }
compare_key-IsConsistent to_lower by_mtime dir =
    let c = compare_values-IsConsistent ltb ltb-IsOrder dir in
    record {
      total = λ a b. c.total a.mod_time b.mod_time;
      trans = λ a b d. c.trans a.mod_time b.mod_time d.mod_time;
    }
compare_key-IsConsistent to_lower by_name dir =
    let c = compare_values-IsConsistent text_lt text_lt-IsOrder dir in
    record {
      total = λ a b. c.total (to_lower a.name) (to_lower b.name);
      trans = λ a b d. c.trans (to_lower a.name) (to_lower b.name) (to_lower d.name);
    }

pub dirs_first_total :
    (p q : Bool) (s t : Sign)
    → (is_pos s ≡ true → is_pos t ≡ false)
    → is_pos (dirs_first p q s) ≡ true
    → is_pos (dirs_first q p t) ≡ false
dirs_first_total true true s t f h = f h
dirs_first_total false false s t f h = f h
dirs_first_total true false s t f h = cc
dirs_first_total false true s t f h = refl

pub dirs_first_trans :
    (p q r : Bool) (s t u : Sign)
    → (is_pos s ≡ false → is_pos t ≡ false → is_pos u ≡ false)
    → is_pos (dirs_first p q s) ≡ false
    → is_pos (dirs_first q r t) ≡ false
    → is_pos (dirs_first p r u) ≡ false
dirs_first_trans true true true s t u f h k = f h k
dirs_first_trans true true false s t u f h k = refl
dirs_first_trans true false true s t u f h k = cc
dirs_first_trans true false false s t u f h k = refl
dirs_first_trans false true true s t u f h k = cc
dirs_first_trans false true false s t u f h k = cc
dirs_first_trans false false true s t u f h k = k
dirs_first_trans false false false s t u f h k = f h k
