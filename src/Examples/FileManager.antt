-- ===== src/Examples/FileManager.antt =====
-- A small directory in the file manager, and the theorems at it.
use mathlib.Core.List.{Perm}
use claude_docker.Common.{true, false, [], ◌∷◌, filter, ◌≡◌, refl, none, some, All, if◌then◌else◌}
use claude_docker.Text.{codes, truthy, text_eq, text_lt, has, includes_unit, split, join_with, pop}
use claude_docker.Files.FilePath.{parent}
use claude_docker.Files.FilePath.Laws.{IsName, descend}
use claude_docker.Files.Kind.{Entry, is_image}
use claude_docker.Files.Sort.{by_name, forward, sort_entries}
use claude_docker.Files.Sort.Order.{ListInOrder, alike}
use claude_docker.Files.Sort.Laws.{sort_entries_lem}
use claude_docker.Files.View.{list_view, go, back, fwd, up, listed}
use claude_docker.Files.View.Nav.{trail, history-refines}
use claude_docker.Files.View.Trail.{visit, step_back, step_forward}
use claude_docker.Files.View.Races.{listed_late}
use claude_docker.Files.Selection.{Click}
use claude_docker.Files.Session.{mount, here, next, open_tree_row, show_preview, step}
use claude_docker.Files.Session.Growth.{Reach-Open}
use claude_docker.Files.Session.Laws.{IsValid, Reach-IsValid, mount-IsValid}
use claude_docker.Examples.SmallDirectory.{lower, readme, picture, src, files, view}

a_b-IsName : All IsName (codes "a" ∷ codes "b" ∷ [])
unfolding includes_unit
a_b-IsName = ((refl, refl), ((refl, refl), tt))

a_b_path : descend [] (codes "a" ∷ codes "b" ∷ []) ≡ codes "a" ∷ codes "a/b" ∷ []
unfolding join_with
a_b_path = refl

-- A file named `ico`, with no extension, is taken for an image.
image_without_extension : is_image lower (codes "ico") ≡ true
unfolding is_image split pop has text_eq
image_without_extension = refl

sorted_files : sort_entries lower by_name forward files ≡ src ∷ picture ∷ readme ∷ []
unfolding sort_entries text_lt
sorted_files = refl

sort_entries_lem_example :
    Perm (sort_entries lower by_name forward files) files
    × ListInOrder lower by_name forward (sort_entries lower by_name forward files)
    × ((t : Entry)
        → filter (alike lower by_name t) (sort_entries lower by_name forward files)
          ≡ filter (alike lower by_name t) files)
sort_entries_lem_example = sort_entries_lem lower by_name forward files

history-refines_example :
    (trail (go (codes "r") true view) ≡ visit (codes "r") (trail view))
    × (trail (back view) ≡ step_back (trail view))
    × (trail (fwd view) ≡ step_forward (trail view))
    × (trail (up view)
        ≡ (if truthy view.cwd then visit (parent view.cwd) (trail view) else trail view))
history-refines_example = history-refines (codes "r") view refl

Reach-IsValid_example : IsValid (step lower show_preview (mount list_view by_name))
Reach-IsValid_example =
    Reach-IsValid lower (mount list_view by_name) (mount-IsValid list_view by_name)
      (next here show_preview tt)

-- A second click on an open row does not close it.
Reach-Open_example :
    has
      (step lower
        (open_tree_row (codes "p") false)
        (record view { tree_open = codes "p" ∷ [] })).tree_open
      (codes "p")
    ≡ true
unfolding has text_eq
Reach-Open_example =
    Reach-Open (codes "p") refl lower (record view { tree_open = codes "p" ∷ [] }) refl
      (next here (open_tree_row (codes "p") false) tt)

listed_late_example :
    let late =
      listed lower
        (some (some files))
        (listed lower (some none) (go (codes "b") true (go (codes "a") true view))) in
    (late.cwd ≡ codes "b")
    × (late.entries ≡ (listed lower (some (some files)) (go (codes "a") true view)).entries)
listed_late_example = listed_late lower (codes "a") (codes "b") view (some (some files)) (some none)

abbrev shift_click : Click
shift_click = record { shift = true; ctrl = false; meta = false; checkbox = false }

abbrev ctrl_click : Click
ctrl_click = record { shift = false; ctrl = true; meta = false; checkbox = false }
