-- ===== src/Files/Sort/Order.antt =====
-- The order of the file list, in its own words, and that the comparison function of sort in
-- web/src/files.js gives it.
use claude_docker.Common.{
  Bool, true, false, not, List, [], ◌∷◌, ◌≡◌, refl, inl, inr, arith, Bool-cases, All, ◌≤◌, ◌&&◌,
  ◌==◌, ap, if◌then◌else◌,
}
use claude_docker.Text.{Text, text_lt, text_eq}
use claude_docker.Text.Laws.{eq_of_text_eq, text_eq_refl, text_lt_irrefl, text_lt_tri}
use claude_docker.Files.Kind.{Entry}
use claude_docker.Files.Sort.{
  SortKey, by_name, by_size, by_mtime, SortDir, forward, backward, neg, nil, pos, times, is_pos,
  compare_values, compare_key, dirs_first, compare_entries,
}
use claude_docker.Files.Sort.Stable.{IsSorted, NotAfter}
use claude_docker.Files.Sort.Consistent.{asym, text_lt-IsOrder}

-- What the header of the list promises for two entries of one kind, the first above the second.
abbrev pub KeysInOrder : (Text → Text) → SortKey → SortDir → Entry → Entry → Type 0
KeysInOrder to_lower by_size forward a b = a.size ≤ b.size
KeysInOrder to_lower by_size backward a b = b.size ≤ a.size
KeysInOrder to_lower by_mtime forward a b = a.mod_time ≤ b.mod_time
KeysInOrder to_lower by_mtime backward a b = b.mod_time ≤ a.mod_time
KeysInOrder to_lower by_name forward a b = text_lt (to_lower b.name) (to_lower a.name) ≡ false
KeysInOrder to_lower by_name backward a b = text_lt (to_lower a.name) (to_lower b.name) ≡ false

-- Directories are above files, and entries of one kind are in the order of the key.
abbrev pub InOrder : (Text → Text) → SortKey → SortDir → Entry → Entry → Type 0
InOrder to_lower key dir a b =
    (b.is_dir ≡ true → a.is_dir ≡ true) × (a.is_dir ≡ b.is_dir → KeysInOrder to_lower key dir a b)

-- Each entry is in order with all that are below it.
abbrev pub ListInOrder : (Text → Text) → SortKey → SortDir → List Entry → Type 0
ListInOrder to_lower key dir [] = Unit
ListInOrder to_lower key dir (e ∷ es) =
    All (InOrder to_lower key dir e) es × ListInOrder to_lower key dir es

abbrev pub same_key : (Text → Text) → SortKey → Entry → Entry → Bool
same_key to_lower by_size a b = a.size == b.size
same_key to_lower by_mtime a b = a.mod_time == b.mod_time
same_key to_lower by_name a b = text_eq (to_lower a.name) (to_lower b.name)

abbrev pub same_kind : Bool → Bool → Bool
same_kind true q = q
same_kind false q = not q

-- Entries of one kind with the same key.
abbrev pub alike : (Text → Text) → SortKey → Entry → Entry → Bool
alike to_lower key a b = same_kind a.is_dir b.is_dir && same_key to_lower key a b

keys_in_order :
    (to_lower : Text → Text) (key : SortKey) (dir : SortDir) (a b : Entry)
    → is_pos (compare_key to_lower key dir a b) ≡ false
    → KeysInOrder to_lower key dir a b
keys_in_order to_lower by_size forward a b h = ground (arith, h)
keys_in_order to_lower by_size backward a b h = ground (arith, h)
keys_in_order to_lower by_mtime forward a b h = ground (arith, h)
keys_in_order to_lower by_mtime backward a b h = ground (arith, h)
keys_in_order to_lower by_name forward a b h =
    ground (arith, h, asym text_lt text_lt-IsOrder (to_lower a.name) (to_lower b.name))
keys_in_order to_lower by_name backward a b h = ground (arith, h)

in_order :
    (to_lower : Text → Text) (key : SortKey) (dir : SortDir) (a b : Entry)
    → is_pos (compare_entries to_lower key dir a b) ≡ false
    → InOrder to_lower key dir a b
unfolding compare_entries
in_order to_lower key dir a b h = go a.is_dir b.is_dir refl refl h
  where
    go :
        (p q : Bool)
        → a.is_dir ≡ p
        → b.is_dir ≡ q
        → is_pos (dirs_first p q (compare_key to_lower key dir a b)) ≡ false
        → InOrder to_lower key dir a b
    go true true e f h = ((λ _. e), (λ _. keys_in_order to_lower key dir a b h))
    go true false e f h = ((λ _. e), (λ g. cc))
    go false true e f h = cc
    go false false e f h = ((λ g. cc), (λ _. keys_in_order to_lower key dir a b h))

pub list_in_order :
    (to_lower : Text → Text) (key : SortKey) (dir : SortDir) (es : List Entry)
    → IsSorted (compare_entries to_lower key dir) es
    → ListInOrder to_lower key dir es
list_in_order to_lower key dir [] h = tt
list_in_order to_lower key dir (e ∷ es) (h, hs) = (each es h, list_in_order to_lower key dir es hs)
  where
    each :
        (xs : List Entry)
        → All (NotAfter (compare_entries to_lower key dir) e) xs
        → All (InOrder to_lower key dir e) xs
    each [] h = tt
    each (x ∷ xs) (h, hs) = (in_order to_lower key dir e x h, each xs hs)

ties_text_eq :
    (dir : SortDir) (s t : Text)
    → (not (is_pos (compare_values text_lt dir s t))
        && not (is_pos (compare_values text_lt dir t s)))
      ≡ text_eq s t
ties_text_eq dir s t = elim (Bool-cases (text_eq s t)) [
  | inl same ↦
      rw (eq_of_text_eq s t same, text_eq_refl t) (both dir (text_lt t t) (text_lt_irrefl t))
  | inr differ ↦ apart dir differ
]
  where
    both :
        (dir : SortDir) (b : Bool)
        → b ≡ false
        → (not (is_pos (if b then times neg dir else if b then times pos dir else nil))
            && not (is_pos (if b then times neg dir else if b then times pos dir else nil)))
          ≡ true
    both dir true h = cc
    both dir false h = refl

    unequal : text_eq s t ≡ false → ¬ (s ≡ t)
    unequal h e = cc (h, text_eq_refl t, ap (λ x. text_eq x t) e)

    no_eq : text_lt s t ≡ true → text_eq s t ≡ false
    no_eq h = elim (Bool-cases (text_eq s t)) [
      | inr differ ↦ differ
      | inl same ↦ cc (h, text_lt_irrefl t, ap (λ x. text_lt x t) (eq_of_text_eq s t same))
    ]

    no_eq' : text_lt t s ≡ true → text_eq s t ≡ false
    no_eq' h = elim (Bool-cases (text_eq s t)) [
      | inr differ ↦ differ
      | inl same ↦ cc (h, text_lt_irrefl t, ap (λ x. text_lt t x) (eq_of_text_eq s t same))
    ]

    less_way :
        (dir : SortDir)
        → text_lt s t ≡ true
        → (not (is_pos (compare_values text_lt dir s t))
            && not (is_pos (compare_values text_lt dir t s)))
          ≡ text_eq s t
    less_way forward h = ground (arith, h, asym text_lt text_lt-IsOrder s t, no_eq h)
    less_way backward h = ground (arith, h, asym text_lt text_lt-IsOrder s t, no_eq h)

    more_way :
        (dir : SortDir)
        → text_lt t s ≡ true
        → (not (is_pos (compare_values text_lt dir s t))
            && not (is_pos (compare_values text_lt dir t s)))
          ≡ text_eq s t
    more_way forward h = ground (arith, h, asym text_lt text_lt-IsOrder t s, no_eq' h)
    more_way backward h = ground (arith, h, asym text_lt text_lt-IsOrder t s, no_eq' h)

    apart :
        (dir : SortDir)
        → text_eq s t ≡ false
        → (not (is_pos (compare_values text_lt dir s t))
            && not (is_pos (compare_values text_lt dir t s)))
          ≡ text_eq s t
    apart dir differ = elim (Bool-cases (text_lt s t)) [
      | inl less ↦ less_way dir less
      | inr not_less ↦ elim (Bool-cases (text_lt t s)) [
        | inl more ↦ more_way dir more
        | inr not_more ↦ absurd (unequal differ (text_lt_tri s t not_less not_more))
      ]
    ]

pub ties_same_key :
    (to_lower : Text → Text) (key : SortKey) (dir : SortDir) (a b : Entry)
    → (not (is_pos (compare_key to_lower key dir a b))
        && not (is_pos (compare_key to_lower key dir b a)))
      ≡ same_key to_lower key a b
ties_same_key to_lower by_size forward a b = ground arith
ties_same_key to_lower by_size backward a b = ground arith
ties_same_key to_lower by_mtime forward a b = ground arith
ties_same_key to_lower by_mtime backward a b = ground arith
ties_same_key to_lower by_name dir a b = ties_text_eq dir (to_lower a.name) (to_lower b.name)
