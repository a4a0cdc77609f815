-- ===== src/Files/Kind.antt =====
-- `isText`, `isImage`, `iconFor`, and what `open` and `openMenu` offer for an entry
-- (web/src/files.js). Lower-casing is that of the browser, whose tables are not modelled: it is the
-- parameter `to_lower`.
pub mod Laws
use claude_docker.Common.{
  ℕ, String, Bool, true, false, ◌||◌, List, [], ◌∷◌, ◌++◌, map, if◌then◌else◌,
}
use claude_docker.Text.{Text, codes, split, pop, includes_unit, has}

-- An element of the array that /api/files/list returns.
pub record Entry : Type 0 where
  pub name : Text
  pub is_dir : Bool
  pub size : ℕ
  pub mod_time : ℕ

pub text_ext : List Text
text_ext = map codes (
    "txt" ∷ "log" ∷ "md" ∷ "markdown" ∷ "json" ∷ "js" ∷ "mjs" ∷ "cjs" ∷ "ts" ∷ "tsx" ∷ "jsx" ∷ "go"
    ∷ "py" ∷ "rb" ∷ "rs" ∷ "java" ∷ "c" ∷ "cc" ∷ "cpp" ∷ "h" ∷ "hpp" ∷ "cs" ∷ "php" ∷ "sh" ∷ "bash"
    ∷ "zsh" ∷ "yml" ∷ "yaml" ∷ "toml" ∷ "ini" ∷ "conf" ∷ "cfg" ∷ "xml" ∷ "html" ∷ "htm" ∷ "css"
    ∷ "scss" ∷ "less" ∷ "sql" ∷ "env" ∷ "gitignore" ∷ "dockerfile" ∷ "makefile" ∷ "csv" ∷ "tsv"
    ∷ [])

pub img_ext : List Text
img_ext = map codes ("png" ∷ "jpg" ∷ "jpeg" ∷ "gif" ∷ "webp" ∷ "svg" ∷ "bmp" ∷ "ico" ∷ [])

-- The names without an extension that are text.
pub text_names : List Text
text_names = map codes ("dockerfile" ∷ "makefile" ∷ "license" ∷ "readme" ∷ [])

-- The pictures of IMG_ICON.
pub data Icon : Type 0 where
  folder image_icon text_icon binary : Icon

-- What a double click on an entry starts.
pub data Opening : Type 0 where
  go_to : Text → Opening
  preview : Entry → Opening
  download : List Text → Opening

-- A line of the context menu.
pub data Item : Type 0 where
  open_item preview_item download_item rename_item delete_item : Item

module _ (to_lower : Text → Text) where
  unfoldable pub is_text : Text → Bool
  unfolding text_ext text_names
  is_text name =
      let base = pop (split b'/' name) in
      if includes_unit b'.' base
      then has text_ext (to_lower (pop (split b'.' base)))
      else has text_names (to_lower base)

  unfoldable pub is_image : Text → Bool
  unfolding img_ext
  is_image name = has img_ext (to_lower (pop (split b'.' name)))

  unfoldable pub icon_for : Entry → Icon
  icon_for e =
      if e.is_dir
      then folder
      else if is_image e.name
      then image_icon
      else if is_text e.name
      then text_icon
      else binary

  -- open(e), where `join` is given the current directory.
  unfoldable pub open_entry : (Text → Text) → Entry → Opening
  open_entry join_cwd e =
      if e.is_dir
      then go_to (join_cwd e.name)
      else if is_image e.name || is_text e.name
      then preview e
      else download (e.name ∷ [])

  -- The list `items` of openMenu(ev, e).
  unfoldable pub menu_items : Entry → List Item
  menu_items e =
      let first =
        if e.is_dir
        then open_item ∷ []
        else if is_image e.name || is_text e.name
        then preview_item ∷ download_item ∷ []
        else download_item ∷ [] in
      first ++ (rename_item ∷ delete_item ∷ [])
