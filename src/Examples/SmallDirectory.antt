-- ===== src/Examples/SmallDirectory.antt =====
-- A small directory as the file manager shows it.
use claude_docker.Common.{
  ℕ, ◌+◌, Bool, true, false, List, [], ◌∷◌, map, none, some, if◌then◌else◌, leb,
}
use claude_docker.Text.{Text, codes}
use claude_docker.Files.Kind.{Entry}
use claude_docker.Files.Sort.{by_name, forward}
use claude_docker.Files.View.{
  View, list_view, new, go, back, fwd, up, listed, click_tree_row, tree_key,
}

-- toLowerCase on ASCII.
abbrev lower_unit : ℕ → ℕ
lower_unit c = if leb b'A' c then (if leb c b'Z' then c + 32 else c) else c

abbrev pub lower : Text → Text
lower s = map lower_unit s

abbrev pub entry : Text → Bool → ℕ → Entry
entry name is_dir size = record { name = name; is_dir = is_dir; size = size; mod_time = 0 }

abbrev pub readme : Entry
readme = entry (codes "README.md") false 10

abbrev pub picture : Entry
picture = entry (codes "a.png") false 20

abbrev pub src : Entry
src = entry (codes "src") true 0

abbrev pub files : List Entry
files = readme ∷ picture ∷ src ∷ []

abbrev pub view : View
view = record {
  cwd = codes "p";
  history = [] ∷ codes "p" ∷ codes "q" ∷ [];
  hist_idx = 1;
  entries = src ∷ picture ∷ readme ∷ [];
  selected = codes "src" ∷ [];
  last_anchor = some (codes "src");
  view_mode = list_view;
  sort_key = by_name;
  sort_dir = forward;
  tree_open = [];
  preview = none;
  overlays = [];
  next_overlay = 0;
  status = claude_docker.Files.View.blank;
  pending = [];
}
