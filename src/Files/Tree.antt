-- ===== src/Files/Tree.antt =====
-- The directory tree at the left of class FileView (web/src/files.js): the cache of its listings and
-- the rows that are drawn.
pub mod Drawn
pub mod Cached
use claude_docker.Common.{
  ℕ, zero, suc, Bool, true, false, not, ◌&&◌, ◌||◌, Option, none, some, List, [], ◌∷◌, ◌++◌, map,
  filter, if◌then◌else◌,
}
use claude_docker.Text.{Text, codes, text_eq, truthy, has}
use claude_docker.Api.{Answer, get_json, Result, ok}
use claude_docker.Files.FilePath.{join}
use claude_docker.Files.Kind.{Entry}
use claude_docker.Files.View.{tree_key, or_empty}

-- `this.tree`, a map from paths to the directories in them; the first pair of a path counts.
abbrev pub Cache : Type 0
Cache = List (Text × List Entry)

-- `this.tree.get(path)`
unfoldable pub cache_get : Text → Cache → Option (List Entry)
cache_get path [] = none
cache_get path ((p, dirs) ∷ cache) =
    let rest = cache_get path cache in if text_eq p path then some dirs else rest

-- `this.tree.set(path, dirs)`
abbrev pub cache_set : Text → List Entry → Cache → Cache
cache_set path dirs cache = (path, dirs) ∷ cache

-- The cache, and the paths that were asked for.
pub record Tree : Type 0 where
  pub cache : Cache
  pub sent : List Text

-- treeEntries(path) up to its `await`.
unfoldable pub tree_asked : Text → Tree → Tree
tree_asked path t = elim (cache_get path t.cache) [
  | some _ ↦ t
  | none ↦ record t { sent = t.sent ++ (path ∷ []) }
]

-- What it stores when the answer is there.
unfoldable pub tree_answered : Text → Answer (Option (List Entry)) → Tree → Tree
tree_answered path answer t = elim (get_json answer) [
  | ok body ↦ record t {
    cache = cache_set path (filter (λ (e : Entry). e.is_dir) (or_empty body)) t.cache;
  }
  | _ ↦ record t { cache = cache_set path [] t.cache }
]

-- The value of treeEntries(path), when it returns.
unfoldable pub tree_value : Text → Tree → List Entry
tree_value path t = or_empty (cache_get path t.cache)

-- refreshTreeAncestors(path) before it draws.
unfoldable pub refresh : Tree → Tree
refresh t = record t { cache = [] }

pub data TreeEvent : Type 0 where
  asked : Text → TreeEvent
  answered : Text → Answer (Option (List Entry)) → TreeEvent
  refreshed : TreeEvent

unfoldable pub tree_step : TreeEvent → Tree → Tree
tree_step (asked path) t = tree_asked path t
tree_step (answered path answer) t = tree_answered path answer t
tree_step refreshed t = refresh t

abbrev pub tree_run : List TreeEvent → Tree → Tree
tree_run [] t = t
tree_run (e ∷ es) t = tree_run es (tree_step e t)

-- The little triangle of a row.
pub data Twist : Type 0 where
  no_twist expanded collapsed : Twist

abbrev pub twist_of : Bool → Bool → Twist
twist_of is_root is_open =
    if is_open && not is_root then expanded else if is_root then no_twist else collapsed

-- A row of the tree, at its depth.
pub record Row : Type 0 where
  pub depth : ℕ
  pub label : Text
  pub path : Text
  pub twist : Twist
  pub here : Bool

-- The directories in `dirs path`, as treeEntries answers, are drawn if the row is open or the root.
module _ (dirs : Text → List Text) (tree_open : List Text) (cwd : Text) where
  abbrev pub opens : Bool → Text → Bool
  opens is_root path = has tree_open (tree_key path) || is_root

  unfoldable pub row_of : ℕ → Text → Text → Bool → Row
  row_of depth label path is_root = record {
    depth = depth;
    label = label;
    path = path;
    twist = twist_of is_root (has tree_open (tree_key path));
    here = text_eq path cwd;
  }

  -- The rows of the children, `child` drawing one of them.
  abbrev pub rows_below : (Text → List Row) → List Text → List Row
  rows_below child [] = []
  rows_below child (d ∷ ds) = child d ++ rows_below child ds

  abbrev pub kids : Bool → (Text → List Row) → List Text → List Row
  kids true child ds = rows_below child ds
  kids false child ds = []

  -- treeNode(label, path, isRoot), once every listing is there: the rows from top to bottom. The
  -- first argument is fuel.
  unfoldable pub tree_node : ℕ → ℕ → Text → Text → Bool → List Row
  tree_node zero depth label path is_root = []
  tree_node (suc fuel) depth label path is_root =
      row_of depth label path is_root
      ∷ kids (opens is_root path) (λ d. tree_node fuel (suc depth) d (join path d) false)
          (dirs path)
