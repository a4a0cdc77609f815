-- ===== src/Files/Sort/Laws.antt =====
-- The order of the file list: the comparison function is consistent, so the list is sorted and ties
-- keep their order, and directories come before files.
use mathlib.Core.List.{Perm}
use claude_docker.Common.{
  Bool, true, false, not, List, [], ◌∷◌, ◌++◌, ◌≡◌, refl, inl, inr, arith, Bool-cases, All,
  All-filter, filter, ◌&&◌, sym, ◌∙◌,
}
use claude_docker.Text.{Text}
use claude_docker.Files.Kind.{Entry}
use claude_docker.Files.Sort.{
  SortKey, SortDir, is_pos, compare_key, dirs_first, compare_entries, insert_sorted, array_sort,
  sort_entries,
}
use claude_docker.Files.Sort.Stable.{
  IsConsistent, ties, array_sort-perm, array_sort-IsSorted, filter-array_sort, All-array_sort,
}
use claude_docker.Files.Sort.Consistent.{
  compare_key-IsConsistent, dirs_first_total, dirs_first_trans,
}
use claude_docker.Files.Sort.Order.{
  ListInOrder, list_in_order, alike, same_key, same_kind, ties_same_key,
}

module _ (to_lower : Text → Text) (key : SortKey) (dir : SortDir) where
  pub compare_entries-IsConsistent : IsConsistent (compare_entries to_lower key dir)
  unfolding compare_entries
  compare_entries-IsConsistent =
      let c = compare_key-IsConsistent to_lower key dir in
      record {
        total = λ a b. dirs_first_total a.is_dir b.is_dir _ _ (c.total a b);
        trans = λ a b d. dirs_first_trans a.is_dir b.is_dir d.is_dir _ _ _ (c.trans a b d);
      }

  ties-alike : (t e : Entry) → ties (compare_entries to_lower key dir) t e ≡ alike to_lower key t e
  unfolding compare_entries
  ties-alike t e = go t.is_dir e.is_dir
    where
      go :
          (p q : Bool)
          → (not (is_pos (dirs_first p q (compare_key to_lower key dir t e)))
              && not (is_pos (dirs_first q p (compare_key to_lower key dir e t))))
            ≡ (same_kind p q && same_key to_lower key t e)
      go true true = ties_same_key to_lower key dir t e
      go true false = refl
      go false true = refl
      go false false = ties_same_key to_lower key dir t e

  filter-ties :
      (t : Entry) (es : List Entry)
      → filter (ties (compare_entries to_lower key dir) t) es ≡ filter (alike to_lower key t) es
  filter-ties t [] = refl
  filter-ties t (e ∷ es) = rw (ties-alike t e, filter-ties t es) refl

  -- Sorting the file list rearranges it. In the result, directories are above files, and among the
  -- directories as among the files sizes, times of change or names in lower case, as the key says, do
  -- not decrease, or do not increase where the direction is backward. And entries of one kind whose
  -- keys are the same stay in the order in which the server sent them.
  pub sort_entries_lem :
      (es : List Entry)
      → Perm (sort_entries to_lower key dir es) es
        × ListInOrder to_lower key dir (sort_entries to_lower key dir es)
        × ((t : Entry)
            → filter (alike to_lower key t) (sort_entries to_lower key dir es)
              ≡ filter (alike to_lower key t) es)
  unfolding sort_entries
  sort_entries_lem es = (
    array_sort-perm _ es,
    list_in_order to_lower key dir _ (array_sort-IsSorted _ compare_entries-IsConsistent es),
    λ t.
        sym (filter-ties t (array_sort (compare_entries to_lower key dir) es))
        ∙ filter-array_sort _ compare_entries-IsConsistent t es
        ∙ filter-ties t es,
  )

  abbrev IsDir : Entry → Type 0
  IsDir e = e.is_dir ≡ true

  abbrev IsFile : Entry → Type 0
  IsFile e = e.is_dir ≡ false

  insert_dir :
      (x : Entry) (ds fs : List Entry)
      → IsDir x
      → All IsFile fs
      → insert_sorted (compare_entries to_lower key dir) x (ds ++ fs)
        ≡ insert_sorted (compare_entries to_lower key dir) x ds ++ fs
  unfolding insert_sorted compare_entries
  insert_dir x [] [] h k = refl
  insert_dir x [] (f ∷ fs) h (k, ks) = rw (h, k)
  insert_dir x (d ∷ ds) fs h k = ground (arith, insert_dir x ds fs h k)

  insert_file :
      (x : Entry) (ds fs : List Entry)
      → IsFile x
      → All IsDir ds
      → insert_sorted (compare_entries to_lower key dir) x (ds ++ fs)
        ≡ ds ++ insert_sorted (compare_entries to_lower key dir) x fs
  unfolding insert_sorted compare_entries
  insert_file x [] fs h k = refl
  insert_file x (d ∷ ds) fs h (k, ks) = ground (arith, insert_file x ds fs h ks)

  abbrev pub is_file : Entry → Bool
  is_file e = not e.is_dir

  array_sort-filter :
      (es : List Entry)
      → array_sort (compare_entries to_lower key dir) es
        ≡ array_sort (compare_entries to_lower key dir) (filter (λ (e : Entry). e.is_dir) es)
          ++ array_sort (compare_entries to_lower key dir) (filter is_file es)
  unfolding array_sort
  array_sort-filter [] = refl
  array_sort-filter (x ∷ xs) = elim (Bool-cases x.is_dir) [
    | inl d ↦
        simp (d, array_sort-filter xs)
          (insert_dir x _ _ d (
            All-array_sort _ IsFile (filter is_file xs)
              (All-filter is_file (λ (e : Entry) h. ground arith) xs)))
    | inr f ↦
        simp (f, array_sort-filter xs)
          (insert_file x _ _ f (
            All-array_sort _ IsDir (filter (λ (e : Entry). e.is_dir) xs)
              (All-filter (λ (e : Entry). e.is_dir) (λ (e : Entry) h. h) xs)))
  ]

  -- The sorted list is the sorted directories followed by the sorted files, under every sort key
  -- and in both directions.
  pub sort_entries-dirs_first :
      (es : List Entry)
      → sort_entries to_lower key dir es
        ≡ sort_entries to_lower key dir (filter (λ (e : Entry). e.is_dir) es)
          ++ sort_entries to_lower key dir (filter is_file es)
  unfolding sort_entries
  sort_entries-dirs_first es = array_sort-filter es
