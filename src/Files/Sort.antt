-- ===== src/Files/Sort.antt =====
-- `sort` of web/src/files.js: the order of the entries in the right pane.
pub mod Stable
pub mod Consistent
pub mod Order
pub mod Laws
use claude_docker.Common.{
  ℕ, String, Bool, true, false, ◌||◌, List, [], ◌∷◌, ◌++◌, map, if◌then◌else◌, ltb,
}
use claude_docker.Text.{Text, text_lt}
use claude_docker.Files.Kind.{Entry}

-- this.sortKey: any stored value but "size" and "mtime" sorts by name.
pub data SortKey : Type 0 where
  by_name by_size by_mtime : SortKey

-- this.sortDir, 1 or -1.
pub data SortDir : Type 0 where
  forward backward : SortDir

-- What a comparison function returns: a negative number, 0 or a positive number.
pub data Sign : Type 0 where
  neg nil pos : Sign

-- `-1 * dir` and `1 * dir`
abbrev pub times : Sign → SortDir → Sign
times s forward = s
times neg backward = pos
times nil backward = nil
times pos backward = neg

abbrev pub is_pos : Sign → Bool
is_pos pos = true
is_pos _ = false

-- `if (av < bv) return -1 * dir; if (av > bv) return 1 * dir; return 0;`
abbrev pub compare_values {ℓ} : {K : Type ℓ} → (K → K → Bool) → SortDir → K → K → Sign
compare_values lt dir av bv =
    if lt av bv then times neg dir else if lt bv av then times pos dir else nil

abbrev pub compare_key : (Text → Text) → SortKey → SortDir → Entry → Entry → Sign
compare_key to_lower by_size dir a b = compare_values ltb dir a.size b.size
compare_key to_lower by_mtime dir a b = compare_values ltb dir a.mod_time b.mod_time
compare_key to_lower by_name dir a b =
    compare_values text_lt dir (to_lower a.name) (to_lower b.name)

-- `if (a.isDir !== b.isDir) return a.isDir ? -1 : 1;`
abbrev pub dirs_first : Bool → Bool → Sign → Sign
dirs_first true false key = neg
dirs_first false true key = pos
dirs_first true true key = key
dirs_first false false key = key

-- The comparison function that `sort` passes to Array.prototype.sort.
unfoldable pub compare_entries : (Text → Text) → SortKey → SortDir → Entry → Entry → Sign
compare_entries to_lower key dir a b =
    dirs_first a.is_dir b.is_dir (compare_key to_lower key dir a b)

-- Array.prototype.sort is stable, so what it returns is determined by the comparison function where
-- that is consistent; insertion from the right computes it.
module _ {ℓ} {A : Type ℓ} (comparator : A → A → Sign) where
  unfoldable pub insert_sorted : A → List A → List A
  insert_sorted x [] = x ∷ []
  insert_sorted x (y ∷ ys) =
      let rest = insert_sorted x ys in if is_pos (comparator x y) then y ∷ rest else x ∷ y ∷ ys

  unfoldable pub array_sort : List A → List A
  unfolding insert_sorted
  array_sort [] = []
  array_sort (x ∷ xs) = insert_sorted x (array_sort xs)

-- sort()
unfoldable pub sort_entries : (Text → Text) → SortKey → SortDir → List Entry → List Entry
unfolding array_sort compare_entries
sort_entries to_lower key dir = array_sort (compare_entries to_lower key dir)
