-- ===== src/Files/Listing.antt =====
-- The list of class FileView (web/src/files.js): filterText and renderList.
pub mod Laws
pub mod Markup
use claude_docker.Common.{
  ℕ, Bool, true, false, not, ◌||◌, Option, none, some, List, [], ◌∷◌, ◌++◌, map, filter,
  if◌then◌else◌, ◌*◌, ◌==◌,
}
use claude_docker.Text.{concat, Text, codes, truthy, includes, has}
use claude_docker.Escape.{esc}
use claude_docker.Size.{fmt_size}
use claude_docker.Files.FilePath.{join}
use claude_docker.Files.Kind.{Entry, Icon, folder, image_icon, text_icon, binary, icon_for}
use claude_docker.Files.View.{ViewMode, list_view, grid_view, View}

-- The pictures, as UTF-16 code units.
abbrev pub glyph : Icon → Text
glyph folder = 55357 ∷ 56513 ∷ []
glyph image_icon = 55357 ∷ 56764 ∷ []
glyph text_icon = 55357 ∷ 56516 ∷ []
glyph binary = 55357 ∷ 56550 ∷ []

abbrev pub dash : Text
dash = 8212 ∷ []

-- The element of an entry: its class, its innerHTML, whether a file can be dragged from it, and
-- whether one can be dropped on it.
pub record Node : Type 0 where
  pub entry : Entry
  pub full : Text
  pub class_name : Text
  pub html : Text
  pub draggable : Bool
  pub takes_drop : Bool

-- What the list shows: a message, or the elements.
pub record Shown : Type 0 where
  pub class_name : Text
  pub message : Option Text
  pub nodes : List Node

-- fmtTime(unix), where the browser writes a date of so many milliseconds.
abbrev pub fmt_time : (ℕ → Text) → ℕ → Text
fmt_time to_locale unix = if unix == 0 then dash else to_locale (unix * 1000)

module _ (to_lower : Text → Text) (to_locale : ℕ → Text) where
  -- `!q || e.name.toLowerCase().includes(q)`
  unfoldable pub matches : Text → Entry → Bool
  matches q e = not (truthy q) || includes q (to_lower e.name)

  abbrev pub marked : Bool → Text → Text
  marked sel name = name ++ (if sel then codes " sel" else [])

  -- The innerHTML of a cell of the grid, and of a row of the list.
  unfoldable pub cell_html : Entry → Text
  cell_html e = concat (
      codes "<div class=\"fm-glyph\">"
      ∷ glyph (icon_for to_lower e)
      ∷ codes "</div><div class=\"fm-label\">"
      ∷ esc e.name
      ∷ codes "</div>"
      ∷ [])

  abbrev pub row_parts : Bool → Entry → List Text
  row_parts sel e =
      codes "<span class=\"fm-check\"><input type=\"checkbox\" "
      ∷ (if sel then codes "checked" else [])
      ∷ codes "></span><span class=\"fm-glyph sm\">"
      ∷ glyph (icon_for to_lower e)
      ∷ codes "</span><span class=\"fm-name\">"
      ∷ esc e.name
      ∷ codes "</span><span class=\"fm-meta muted\">"
      ∷ (if e.is_dir then dash else fmt_size e.size)
      ∷ codes "</span><span class=\"fm-meta muted\">"
      ∷ fmt_time to_locale e.mod_time
      ∷ codes "</span>"
      ∷ []

  unfoldable pub row_html : Bool → Entry → Text
  row_html sel e = concat (row_parts sel e)

  unfoldable pub node_of : View → Entry → Node
  unfolding cell_html row_html
  node_of s e =
      let sel = has s.selected e.name in
      elim s.view_mode [
        | grid_view ↦ record {
          entry = e;
          full = join s.cwd e.name;
          class_name = marked sel (codes "fm-cell");
          html = cell_html e;
          draggable = not e.is_dir;
          takes_drop = e.is_dir;
        }
        | list_view ↦ record {
          entry = e;
          full = join s.cwd e.name;
          class_name = marked sel (codes "fm-row");
          html = row_html sel e;
          draggable = not e.is_dir;
          takes_drop = e.is_dir;
        }
      ]

  abbrev pub class_of : ViewMode → Text
  class_of grid_view = codes "fm-drop fm-grid"
  class_of list_view = codes "fm-drop fm-list"

  -- The message for an empty list, given whether the directory has entries.
  abbrev pub no_items : List Entry → Text
  no_items [] = codes "empty — drag files here"
  no_items (e ∷ es) = codes "no match"

  unfoldable pub shown_from : View → List Entry → Shown
  unfolding node_of
  shown_from s [] = record {
    class_name = class_of s.view_mode;
    message = some (no_items s.entries);
    nodes = [];
  }
  shown_from s (e ∷ items) = record {
    class_name = class_of s.view_mode;
    message = none;
    nodes = map (node_of s) (e ∷ items);
  }

  -- renderList(), given the text of the field fm-search.
  unfoldable pub render_list : Text → View → Shown
  unfolding matches shown_from
  render_list search s = shown_from s (filter (matches (to_lower search)) s.entries)
