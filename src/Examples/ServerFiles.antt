-- ===== src/Examples/ServerFiles.antt =====
-- Requests for files, as the server answers them.
use claude_docker.Common.{true, none, some, List, [], ◌∷◌, ◌≡◌, refl, arith, if◌then◌else◌}
use claude_docker.Text.{Text, codes, text_eq, join_with, split, drop_last, pop, includes_unit}
use claude_docker.Url.{
  downloading, route, file_url, points_after, encode_points, encode_point, is_kept, utf8,
}
use claude_docker.Url.Address.{read_address}
use claude_docker.Files.FilePath.{join}
use claude_docker.Server.Paths.{
  Looked, real, missing, resolved, is_outside, escapes, absolute, resolve, clean, clean_element,
  join_paths, is_under, looked_up,
}
use claude_docker.Server.Paths.Named.{missing-accepted}
use claude_docker.Server.FilesApi.{
  System, answer, remove_all, upload_to, has_file, make_parent, create_file, dir_name, delete_of,
  handle_files, refuse, workspace_root, is_user_name, base_name, safe_filename,
}
use claude_docker.Server.FilesApi.Inside.{AllSafe, handle_files-AllSafe}
use claude_docker.Server.Reached.{Name, entry_reached, all_bytes, way}

abbrev amy : Text
amy = codes "amy"

amy_named : is_user_name amy ≡ true
unfolding is_user_name
amy_named = refl

-- A link `out` to /etc in the workspace of amy, and no `new` there.
abbrev links : Text → Looked
links p =
    if text_eq p (codes "/home/amy/workspace/out")
    then real (codes "/etc")
    else if text_eq p (codes "/home/amy/workspace/out/new")
    then missing
    else real p

abbrev works : System
works call = some 5

abbrev one_name : Text → List Text
one_name p = codes "a" ∷ []

handle_files-AllSafe_example :
    AllSafe links works one_name amy amy_named
      (handle_files links works one_name
        (some amy)
        (upload_to (codes "d") (has_file (codes "b") 5))).calls
    × (handle_files links works one_name none (upload_to (codes "d") (has_file (codes "b") 5))
        ≡ refuse 401)
handle_files-AllSafe_example =
    handle_files-AllSafe links works one_name amy amy_named
      (upload_to (codes "d") (has_file (codes "b") 5))

missing-accepted_example :
    (resolve links (absolute (codes "home" ∷ amy ∷ codes "workspace" ∷ [])) (codes "out")
      ≡ is_outside)
    × (resolve links (absolute (codes "home" ∷ amy ∷ codes "workspace" ∷ [])) (codes "out/new")
        ≡ resolved
            (absolute (codes "home" ∷ amy ∷ codes "workspace" ∷ codes "out" ∷ codes "new" ∷ [])))
unfolding includes_unit text_eq join_with is_under
missing-accepted_example =
    missing-accepted (codes "home") (amy ∷ codes "workspace" ∷ [])
      ((refl, refl, refl, refl), ((refl, refl, refl, refl), ((refl, refl, refl, refl), tt))) links
      (codes "out") (codes "new") (codes "/etc") (refl, refl, refl, refl) (refl, refl, refl, refl)
      refl refl refl refl

-- An upload whose name is the parent of its directory asks for the directory above the workspace.
made_above :
    (handle_files links works one_name
      (some amy)
      (upload_to (codes "d") (has_file (codes "..") 5))).calls
    ≡ make_parent (codes "/home/amy") ∷ create_file (workspace_root amy) ∷ []
unfolding handle_files answer resolve clean clean_element split drop_last pop text_eq join_with
    dir_name
made_above = refl

-- The path `a/..` deletes the workspace.
all_deleted :
    (handle_files links works one_name (some amy) (delete_of (codes "a/.."))).calls
    ≡ remove_all (workspace_root amy) ∷ []
unfolding handle_files answer resolve clean clean_element split drop_last pop text_eq join_with
all_deleted = refl

quote_dropped : safe_filename (codes "d/a\"b") ≡ codes "ab"
unfolding safe_filename base_name split pop text_eq
quote_dropped = refl

-- A path that goes up and out of the workspace is refused.
up_and_out : resolve links (workspace_root amy) (codes "a/../../x") ≡ escapes
unfolding resolve clean clean_element split drop_last pop text_eq join_with join_paths is_under
up_and_out = refl

-- The directory and the file "é&".
abbrev directory : Name
directory = record { text = codes "my dir"; codepoints = codes "my dir" }

abbrev accented : Name
accented = record { text = 233 ∷ b'&' ∷ []; codepoints = 233 ∷ b'&' ∷ [] }

abbrev accented_url : Text
accented_url = codes "/api/files/download?path=my%20dir%2F%C3%A9%26"

entry_reached_example :
    (path : Text) × (read_address accented_url ≡ (route downloading, (codes "path", path) ∷ []))
    × (resolve links (workspace_root amy) path ≡ (
        let p =
          absolute
            (codes "home" ∷ amy ∷ codes "workspace" ∷ all_bytes (way (directory ∷ []) accented)) in
        looked_up (links p) p (workspace_root amy)))
unfolding is_user_name includes_unit text_eq utf8 points_after join_with join file_url encode_points
    encode_point is_kept
entry_reached_example =
    entry_reached downloading links amy (directory ∷ []) accented accented_url refl
      ((omega arith, refl, (refl, refl), (refl, refl, refl, refl)), tt)
      (omega arith, refl, (refl, refl), (refl, refl, refl, refl)) refl refl
