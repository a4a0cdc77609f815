-- ===== src/Server/FilesApi.antt =====
-- The handlers of backend/internal/server/files_api.go on the operations of
-- backend/internal/files/ops.go: the calls of the operating system that a request leads to, its status
-- and the traffic recorded. Texts are lists of bytes.
pub mod Inside
pub mod Header
use claude_docker.Common.{
  ℕ, Bool, true, false, not, ◌||◌, ◌&&◌, Option, none, some, List, [], ◌∷◌, ◌++◌, if◌then◌else◌,
  ◌==◌, filter, leb, length, map,
}
use claude_docker.Text.{Text, codes, text_eq, truthy, split, pop, concat}
use claude_docker.Server.Paths.{
  Looked, Resolved, resolved, is_absolute, escapes, cannot_resolve, is_outside, resolve, dot, clean,
  join_paths,
}

-- The characters of usernameRe: `[a-z_]` first, then `[a-z0-9_-]`.
abbrev pub is_first_unit : ℕ → Bool
is_first_unit c = (leb b'a' c && leb c b'z') || c == b'_'

abbrev pub is_name_unit : ℕ → Bool
is_name_unit c = (leb b'a' c && leb c b'z') || (leb b'0' c && leb c b'9') || c == b'_' || c == b'-'

abbrev pub all_name_units : Text → Bool
all_name_units [] = true
all_name_units (c ∷ s) = is_name_unit c && all_name_units s

-- validateUsername: usernameRe matches, which has one to 31 characters after the first.
unfoldable pub is_user_name : Text → Bool
is_user_name [] = false
is_user_name (c ∷ s) = is_first_unit c && all_name_units s && leb 1 (length s) && leb (length s) 31

-- os.Open and Readdirnames, os.Lstat of an entry, os.MkdirAll, os.Rename, os.RemoveAll, os.WriteFile,
-- os.Open for reading; and os.MkdirAll of a parent and os.Create, with io.Copy.
pub data Call : Type 0 where
  read_dir : Text → Call
  stat_entry : Text → Call
  make_dirs : Text → Call
  rename_path : Text → Text → Call
  remove_all : Text → Call
  write_file : Text → Text → Call
  open_file : Text → Call
  make_parent : Text → Call
  create_file : Text → Call

-- What a form holds: it is too large or malformed, has no file, or a file of this name and size.
pub data Form : Type 0 where
  bad_form : Form
  no_file : Form
  has_file : Text → ℕ → Form

-- A request, with its query parameter or the fields of its body. (`none` is a body that is no JSON.)
pub data Request : Type 0 where
  list_of : Text → Request
  download_of : Text → Request
  upload_to : Text → Form → Request
  mkdir_of : Option Text → Request
  rename_of : Option (Text × Text) → Request
  edit_of : Option (Text × Text) → Request
  delete_of : Text → Request

pub record Reply : Type 0 where
  pub status : ℕ
  pub calls : List Call
  pub received : ℕ
  pub sent : ℕ

abbrev pub refuse : ℕ → Reply
refuse status = record { status = status; calls = []; received = 0; sent = 0 }

-- workspaceRoot(username)
abbrev pub workspace_root : Text → Text
workspace_root user = codes "/home/" ++ (user ++ codes "/workspace")

-- What the operating system does with a call: the bytes copied or the size, or an error.
abbrev pub System : Type 0
System = Call → Option ℕ

abbrev pub status_of : Option ℕ → ℕ
status_of none = 400
status_of (some _) = 200

abbrev pub amount : Option ℕ → ℕ
amount none = 0
amount (some n) = n

abbrev pub plain_reply : System → Call → Reply
plain_reply sys call = record {
  status = status_of (sys call);
  calls = call ∷ [];
  received = 0;
  sent = 0;
}

-- List, given whether the directory could be read and the names that Readdirnames returns; an entry that Lstat does not find is skipped.
abbrev pub listed : Option ℕ → List Text → Text → Reply
listed none names p = record { status = 400; calls = read_dir p ∷ []; received = 0; sent = 0 }
listed (some _) names p = record {
  status = 200;
  calls = read_dir p ∷ map (λ n. stat_entry (join_paths p n)) names;
  received = 0;
  sent = 0;
}

-- filepath.Dir, of what is in front of the last slash.
abbrev pub upto_slash : Text → Text
upto_slash [] = []
upto_slash (c ∷ s) =
    let rest = upto_slash s in if truthy rest then c ∷ rest else if c == b'/' then b'/' ∷ [] else []

unfoldable pub dir_name : Text → Text
dir_name p = clean (upto_slash p)

-- CopyToStream, with CreateStream, given whether the parent could be made.
abbrev pub uploaded : Option ℕ → System → Text → Reply
uploaded none sys p = record {
  status = 400;
  calls = make_parent (dir_name p) ∷ [];
  received = 0;
  sent = 0;
}
uploaded (some _) sys p = record {
  status = status_of (sys (create_file p));
  calls = make_parent (dir_name p) ∷ create_file p ∷ [];
  received = 0;
  sent = amount (sys (create_file p));
}

-- An operation on one path.
abbrev pub on_path : (Text → Reply) → Resolved → Reply
on_path act (resolved p) = act p
on_path act is_absolute = refuse 400
on_path act escapes = refuse 400
on_path act cannot_resolve = refuse 400
on_path act is_outside = refuse 400

-- `dest`
abbrev pub destination : Text → Text → Text
destination rel name = if truthy rel then rel ++ (b'/' ∷ name) else name

-- `names` is what Readdirnames returns for a directory.
module _ (eval : Text → Looked) (sys : System) (names : Text → List Text) where
  abbrev pub at_path : (Text → Reply) → Text → Text → Reply
  at_path act root rel = on_path act (resolve eval root rel)

  abbrev pub upload : Text → Text → Form → Reply
  upload root rel bad_form = refuse 413
  upload root rel no_file = refuse 400
  upload root rel (has_file name size) =
      at_path (λ p. uploaded (sys (make_parent (dir_name p))) sys p) root (destination rel name)

  abbrev pub rename_both : Text → Text → Text → Reply
  rename_both root from to =
      at_path (λ p. at_path (λ q. plain_reply sys (rename_path p q)) root to) root from

  abbrev pub mkdir : Text → Option Text → Reply
  mkdir root none = refuse 400
  mkdir root (some path) =
      if truthy path then at_path (λ p. plain_reply sys (make_dirs p)) root path else refuse 400

  abbrev pub rename : Text → Option (Text × Text) → Reply
  rename root none = refuse 400
  rename root (some (from, to)) =
      if truthy from && truthy to then rename_both root from to else refuse 400

  abbrev pub edit : Text → Option (Text × Text) → Reply
  edit root none = refuse 400
  edit root (some (path, content)) =
      if truthy path
      then at_path (λ p. plain_reply sys (write_file p content)) root path
      else refuse 400

  abbrev pub delete : Text → Text → Reply
  delete root rel =
      if truthy rel then at_path (λ p. plain_reply sys (remove_all p)) root rel else refuse 400

  unfoldable pub answer : Text → Request → Reply
  answer root (list_of rel) = at_path (λ p. listed (sys (read_dir p)) (names p) p) root rel
  answer root (download_of rel) =
      at_path
        (λ p. record {
          status = status_of (sys (open_file p));
          calls = open_file p ∷ [];
          received = amount (sys (open_file p));
          sent = 0;
        })
        root rel
  answer root (upload_to rel form) = upload root rel form
  answer root (mkdir_of path) = mkdir root path
  answer root (rename_of paths) = rename root paths
  answer root (edit_of body) = edit root body
  answer root (delete_of rel) = delete root rel

  -- The handlers, given the name of the user that the session cookie shows, if it shows one.
  unfoldable pub handle_files : Option Text → Request → Reply
  handle_files none request = refuse 401
  handle_files (some user) request = answer (workspace_root user) request

-- filepath.Base, of what follows the last slash, given that trailing slashes are gone.
abbrev pub strip_slashes : Text → Text
strip_slashes [] = []
strip_slashes (c ∷ s) =
    let rest = strip_slashes s in if not (truthy rest) && c == b'/' then [] else c ∷ rest

unfoldable pub base_name : Text → Text
base_name [] = dot
base_name (c ∷ s) =
    let last = pop (split b'/' (strip_slashes (c ∷ s))) in if truthy last then last else b'/' ∷ []

abbrev pub without_unit : ℕ → Text → Text
without_unit x s = filter (λ (c : ℕ). not (c == x)) s

abbrev pub cleaned_name : Text → Text
cleaned_name base = without_unit b'"' (without_unit 10 (without_unit 13 base))

-- safeFilename(rel)
unfoldable pub safe_filename : Text → Text
safe_filename rel =
    let base = base_name rel in
    if text_eq base dot || text_eq base (b'/' ∷ [])
    then codes "download"
    else if truthy (cleaned_name base)
    then cleaned_name base
    else codes "download"

-- The value of the header Content-Disposition of a download.
unfoldable pub disposition : Text → Text
disposition rel = concat (codes "attachment; filename=\"" ∷ safe_filename rel ∷ codes "\"" ∷ [])
