-- ===== src/Server/FilesApi/Inside.antt =====
-- The handlers of backend/internal/server/files_api.go stay in the workspace of the user.
use claude_docker.Common.{
  true, false, ◌&&◌, ℕ, Option, map, none, some, List, [], ◌∷◌, ◌≡◌, refl, sym, ap, ◌∙◌, arith, All,
  if_ind,
}
use mathlib.Core.List.{Memᴰ}
use claude_docker.Text.{Text, codes, text_eq, truthy, includes_unit, join_with}
use claude_docker.Server.Paths.{
  join_paths, Looked, Resolved, resolved, is_absolute, escapes, cannot_resolve, is_outside, resolve,
  dot, absolute, clean,
}
use claude_docker.Server.Paths.Cleaned.{IsPlain, clean-absolute}
use claude_docker.Server.Paths.Confined.{IsInside, IsKept, resolve-IsInside}
use claude_docker.Server.FilesApi.{
  Call, read_dir, make_dirs, rename_path, remove_all, write_file, open_file, create_file, Form,
  bad_form, no_file, has_file, Request, list_of, download_of, upload_to, mkdir_of, rename_of,
  edit_of, delete_of, stat_entry, make_parent, listed, dir_name, uploaded, Reply, refuse,
  workspace_root, System, on_path, at_path, plain_reply, answer, handle_files, is_user_name,
  all_name_units, destination, rename_both, upload,
}

name_units :
    (s : Text) → all_name_units s ≡ true → (includes_unit b'/' s ≡ false) × (text_eq s dot ≡ false)
unfolding includes_unit text_eq
name_units [] h = (refl, refl)
name_units (c ∷ s) h = let (free, _) = name_units s (ground arith) in ground (arith, free)

user-IsPlain : (user : Text) → is_user_name user ≡ true → IsPlain user
unfolding is_user_name includes_unit text_eq
user-IsPlain [] h = cc
user-IsPlain (c ∷ s) h =
    let (free, no_dot) = name_units s (ground arith) in
    (refl, ground (arith, free), ground arith, ground arith)

-- The names of the root.
abbrev pub root_names : Text → List Text
root_names user = user ∷ codes "workspace" ∷ []

pub root-IsPlain :
    (user : Text) → is_user_name user ≡ true → All IsPlain (codes "home" ∷ root_names user)
unfolding includes_unit text_eq
root-IsPlain user h =
    ((refl, refl, refl, refl), (user-IsPlain user h, ((refl, refl, refl, refl), tt)))

pub root-absolute : (user : Text) → workspace_root user ≡ absolute (codes "home" ∷ root_names user)
unfolding join_with
root-absolute user = refl

-- A user with a name that validateUsername accepts.
module _ (eval : Text → Looked) (sys : System) (names : Text → List Text) (user : Text)
    (named : is_user_name user ≡ true) where
  -- The path is the workspace, or that of plain names below it; and it is the workspace itself, or
  -- does not exist, or really lies below it.
  abbrev pub IsSafe : Text → Type 0
  IsSafe p =
      IsInside (codes "home") (root_names user) (root-IsPlain user named) p
      × IsKept (codes "home") (root_names user) (root-IsPlain user named) eval p

  -- What a call is given: safe paths; for the parent that an upload makes, the parent of a safe path;
  -- and for an entry of a listing, a name that was read in a directory whose path is safe.
  abbrev pub IsSafeCall : Call → Type 0
  IsSafeCall (read_dir p) = IsSafe p
  IsSafeCall (stat_entry q) = (p n : Text) × IsSafe p × Memᴰ n (names p) × (q ≡ join_paths p n)
  IsSafeCall (make_dirs p) = IsSafe p
  IsSafeCall (rename_path p q) = IsSafe p × IsSafe q
  IsSafeCall (remove_all p) = IsSafe p
  IsSafeCall (write_file p content) = IsSafe p
  IsSafeCall (open_file p) = IsSafe p
  IsSafeCall (make_parent q) = (p : Text) × IsSafe p × (q ≡ dir_name p)
  IsSafeCall (create_file p) = IsSafe p

  abbrev pub AllSafe : List Call → Type 0
  AllSafe calls = All IsSafeCall calls

  at_path-AllSafe :
      (act : Text → Reply) (rel : Text)
      → ((p : Text) → IsSafe p → AllSafe (act p).calls)
      → AllSafe (at_path eval sys names act (workspace_root user) rel).calls
  at_path-AllSafe act rel h = go (resolve eval (workspace_root user) rel) refl
    where
      go :
          (x : Resolved)
          → resolve eval (workspace_root user) rel ≡ x
          → AllSafe (on_path act x).calls
      go (resolved p) e = h p (
          resolve-IsInside (codes "home") (root_names user) (root-IsPlain user named) eval rel p
            (ap (λ r. resolve eval r rel) (sym (root-absolute user)) ∙ e))
      go is_absolute e = tt
      go escapes e = tt
      go cannot_resolve e = tt
      go is_outside e = tt

  one_path :
      (call : Text → Call) (rel : Text)
      → ((p : Text) → IsSafe p → IsSafeCall (call p))
      → AllSafe
          (at_path eval sys names (λ p. plain_reply sys (call p)) (workspace_root user) rel).calls
  one_path call rel same = at_path-AllSafe _ rel (λ p safe. (same p safe, tt))

  stats-AllSafe :
      (p : Text) (ns : List Text)
      → IsSafe p
      → ((n : Text) → Memᴰ n ns → Memᴰ n (names p))
      → AllSafe (map (λ n. stat_entry (join_paths p n)) ns)
  stats-AllSafe p [] safe there = tt
  stats-AllSafe p (n ∷ ns) safe there = (
    (p, n, safe, there n (Memᴰ.head refl), refl),
    stats-AllSafe p ns safe (λ m h. there m (Memᴰ.tail h)),
  )

  listed-AllSafe : (o : Option ℕ) (p : Text) → IsSafe p → AllSafe (listed o (names p) p).calls
  listed-AllSafe none p safe = (safe, tt)
  listed-AllSafe (some n) p safe = (safe, stats-AllSafe p (names p) safe (λ m h. h))

  uploaded-AllSafe : (o : Option ℕ) (p : Text) → IsSafe p → AllSafe (uploaded o sys p).calls
  uploaded-AllSafe none p safe = ((p, safe, refl), tt)
  uploaded-AllSafe (some n) p safe = ((p, safe, refl), (safe, tt))

  upload-AllSafe :
      (rel : Text) (form : Form)
      → AllSafe (upload eval sys names (workspace_root user) rel form).calls
  upload-AllSafe rel bad_form = tt
  upload-AllSafe rel no_file = tt
  upload-AllSafe rel (has_file name size) =
      at_path-AllSafe _ (destination rel name)
        (λ p safe. uploaded-AllSafe (sys (make_parent (dir_name p))) p safe)

  rename-AllSafe :
      (from to : Text) → AllSafe (rename_both eval sys names (workspace_root user) from to).calls
  rename-AllSafe from to =
      at_path-AllSafe _ from (λ p safe. at_path-AllSafe _ to (λ q safe'. ((safe, safe'), tt)))

  answer-AllSafe :
      (request : Request) → AllSafe (answer eval sys names (workspace_root user) request).calls
  unfolding answer
  answer-AllSafe (list_of rel) =
      at_path-AllSafe _ rel (λ p safe. listed-AllSafe (sys (read_dir p)) p safe)
  answer-AllSafe (download_of rel) = at_path-AllSafe _ rel (λ p safe. (safe, tt))
  answer-AllSafe (upload_to rel form) = upload-AllSafe rel form
  answer-AllSafe (mkdir_of none) = tt
  answer-AllSafe (mkdir_of (some path)) =
      if_ind {A = Reply} (λ r. AllSafe r.calls) (truthy path)
        (λ _. one_path make_dirs path (λ p safe. safe)) (λ _. tt)
  answer-AllSafe (rename_of none) = tt
  answer-AllSafe (rename_of (some (from, to))) =
      if_ind {A = Reply} (λ r. AllSafe r.calls) (truthy from && truthy to)
        (λ _. rename-AllSafe from to) (λ _. tt)
  answer-AllSafe (edit_of none) = tt
  answer-AllSafe (edit_of (some (path, content))) =
      if_ind {A = Reply} (λ r. AllSafe r.calls) (truthy path)
        (λ _. one_path (λ p. write_file p content) path (λ p safe. safe)) (λ _. tt)
  answer-AllSafe (delete_of rel) =
      if_ind {A = Reply} (λ r. AllSafe r.calls) (truthy rel)
        (λ _. one_path remove_all rel (λ p safe. safe)) (λ _. tt)

  -- Whatever a user with a valid name requests, whatever links are in the file system and whatever
  -- the calls return: each path that the operating system is asked to read, write, create, move or
  -- remove is the workspace of the user or consists of it and names below it, none of them `.` or `..`;
  -- and it is the workspace, or does not exist, or really lies below it. Besides these, an upload makes
  -- the parent of such a path, and a listing asks about names that it has read in such a directory.
  -- Without a user there is no call, and the status is 401.
  pub handle_files-AllSafe :
      (request : Request)
      → AllSafe (handle_files eval sys names (some user) request).calls
        × (handle_files eval sys names none request ≡ refuse 401)
  unfolding handle_files
  handle_files-AllSafe request = (answer-AllSafe request, refl)

root_clean :
    (user : Text) → is_user_name user ≡ true → clean (workspace_root user) ≡ workspace_root user
root_clean user named =
    ap clean (root-absolute user)
    ∙ clean-absolute (codes "home" ∷ root_names user) (root-IsPlain user named)
    ∙ sym (root-absolute user)

-- A delete whose path is not empty but cleans to `.` removes the whole workspace.
pub delete_everything :
    (eval : Text → Looked) (sys : System) (names : Text → List Text) (user rel : Text)
    → is_user_name user ≡ true
    → truthy rel ≡ true
    → text_eq (clean rel) dot ≡ true
    → (handle_files eval sys names (some user) (delete_of rel)).calls
      ≡ remove_all (workspace_root user) ∷ []
unfolding handle_files answer resolve
delete_everything eval sys names user rel named some_path is_dot =
    rw (some_path, is_dot, root_clean user named) refl
