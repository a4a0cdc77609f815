-- ===== src/Server/Paths.antt =====
-- `Resolve` of backend/internal/files/resolve.go, which maps a path of a request to a path below the
-- workspace of the user, with filepath.Clean and filepath.Join of Go on Unix. Paths are lists of bytes.
-- filepath.EvalSymlinks asks the file system: it is the parameter `eval`.
pub mod Cleaned
pub mod Confined
pub mod Named
use claude_docker.Common.{ℕ, Bool, true, false, not, ◌||◌, List, [], ◌∷◌, ◌++◌, if◌then◌else◌, ◌==◌}
use claude_docker.Text.{Text, codes, text_eq, truthy, split, join_with, drop_last, pop, is_prefix}

abbrev pub dot : Text
dot = 46 ∷ []

abbrev pub dot_dot : Text
dot_dot = 46 ∷ 46 ∷ []

-- Whether `..` after these elements has none to take away.
abbrev pub at_top : List Text → Bool
at_top [] = true
at_top (w ∷ ws) = text_eq (pop (w ∷ ws)) dot_dot

abbrev pub go_up : Bool → List Text → List Text
go_up rooted out =
    if at_top out then (if rooted then out else out ++ (dot_dot ∷ [])) else drop_last out

-- One round of filepath.Clean: the next element of the path.
unfoldable pub clean_element : Bool → List Text → Text → List Text
clean_element rooted out w =
    if not (truthy w) || text_eq w dot
    then out
    else if text_eq w dot_dot
    then go_up rooted out
    else out ++ (w ∷ [])

abbrev pub clean_elements : Bool → List Text → List Text → List Text
clean_elements rooted out [] = out
clean_elements rooted out (w ∷ ws) = clean_elements rooted (clean_element rooted out w) ws

-- filepath.IsAbs
abbrev pub is_abs : Text → Bool
is_abs [] = false
is_abs (c ∷ s) = c == b'/'

-- An absolute path of these elements, and a relative one.
abbrev pub absolute : List Text → Text
absolute ws = b'/' ∷ join_with b'/' ws

abbrev pub relative : List Text → Text
relative [] = dot
relative (w ∷ ws) = join_with b'/' (w ∷ ws)

-- filepath.Clean
unfoldable pub clean : Text → Text
clean s =
    let out = clean_elements (is_abs s) [] (split b'/' s) in
    if is_abs s then absolute out else relative out

-- filepath.Join, of two paths that are not empty
unfoldable pub join_paths : Text → Text → Text
join_paths a b = clean (a ++ (b'/' ∷ b))

-- `strings.HasSuffix(root, "/")`
abbrev pub ends_in_slash : Text → Bool
ends_in_slash [] = false
ends_in_slash (c ∷ []) = c == b'/'
ends_in_slash (c ∷ d ∷ s) = ends_in_slash (d ∷ s)

-- isUnder(path, root)
unfoldable pub is_under : Text → Text → Bool
is_under path root =
    text_eq path root || is_prefix (if ends_in_slash root then root else root ++ (b'/' ∷ [])) path

-- What filepath.EvalSymlinks returns: the real path, an error of which os.IsNotExist holds, or another.
pub data Looked : Type 0 where
  real : Text → Looked
  missing : Looked
  unreadable : Looked

pub data Resolved : Type 0 where
  resolved : Text → Resolved
  is_absolute : Resolved
  escapes : Resolved
  cannot_resolve : Resolved
  is_outside : Resolved

-- `strings.HasPrefix(rel, "/") || strings.HasPrefix(rel, "\\")`
abbrev pub windows_abs : Text → Bool
windows_abs [] = false
windows_abs (c ∷ s) = c == b'/' || c == 92

-- What is done with the answer of EvalSymlinks on `joined`.
abbrev pub looked_up : Looked → Text → Text → Resolved
looked_up (real path) joined root = if is_under path root then resolved joined else is_outside
looked_up missing joined root = resolved joined
looked_up unreadable joined root = cannot_resolve

module _ (eval : Text → Looked) where
  abbrev pub check_joined : Text → Text → Resolved
  check_joined joined root =
      if is_under joined root then looked_up (eval joined) joined root else escapes

  -- Resolve(root, rel)
  unfoldable pub resolve : Text → Text → Resolved
  resolve root rel =
      let clean_root = clean root in
      let r = clean rel in
      if text_eq r dot || not (truthy r)
      then resolved clean_root
      else if is_abs r || windows_abs r
      then (if text_eq r clean_root then check_joined clean_root clean_root else is_absolute)
      else check_joined (join_paths clean_root r) clean_root
