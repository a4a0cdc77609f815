-- ===== src/Files/FilePath.antt =====
-- `join`, `parent` and the breadcrumbs of `renderToolbar` (class FileView of web/src/files.js).
pub mod Laws
use claude_docker.Common.{ℕ, List, [], ◌∷◌, ◌++◌, if◌then◌else◌}
use claude_docker.Text.{Text, codes, truthy, split, join_with, drop_last}
use claude_docker.Escape.{esc}

-- join(dir, name)
unfoldable pub join : Text → Text → Text
join dir name = if truthy dir then dir ++ (b'/' ∷ name) else name

-- parent(dir)
unfoldable pub parent : Text → Text
parent dir = if truthy dir then join_with b'/' (drop_last (split b'/' dir)) else []

-- A crumb, as its attribute data-path and its text are written into the HTML.
pub record Crumb : Type 0 where
  pub data_path : Text
  pub label : Text

-- The loop over `parts`, with the path so far in `acc`.
unfoldable pub crumbs_from : Text → List Text → List Crumb
crumbs_from acc [] = []
crumbs_from acc (p ∷ parts) =
    let acc' = if truthy acc then acc ++ (b'/' ∷ p) else p in
    record { data_path = esc acc'; label = esc p } ∷ crumbs_from acc' parts

-- this.cwd ? this.cwd.split("/") : []
unfoldable pub path_parts : Text → List Text
path_parts cwd = if truthy cwd then split b'/' cwd else []

unfoldable pub crumbs : Text → List Crumb
unfolding crumbs_from path_parts
crumbs cwd = record { data_path = []; label = codes "workspace" } ∷ crumbs_from [] (path_parts cwd)
