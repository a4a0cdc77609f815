-- ===== src/Files/Menu.antt =====
-- The context menu of the file list: `openMenu`, its lines, and the listener that closes it (class
-- FileView of web/src/files.js). Coordinates are whole pixels.
pub mod Closing
pub mod Placed
use claude_docker.Common.{
  ℕ, suc, ◌+◌, ◌-◌, ◌*◌, min, Bool, true, false, not, Option, none, some, List, [], ◌∷◌, ◌++◌, map,
  filter, length, if◌then◌else◌, ◌==◌, leb,
}
use claude_docker.Text.{Text, codes}
use claude_docker.Files.Kind.{
  Entry, Item, open_item, preview_item, download_item, rename_item, delete_item, menu_items,
}
use claude_docker.Files.View.{View}
use claude_docker.Files.Selection.{select_for_menu}

-- negsuc n is -(n + 1).
pub data ℤ : Type 0 where
  pos : ℕ → ℤ
  negsuc : ℕ → ℤ

-- The difference of two natural numbers.
abbrev pub difference : ℕ → ℕ → ℤ
difference a b = if leb b a then pos (a - b) else negsuc (b - a - 1)

-- Math.min(x, z), where x is not negative.
abbrev pub min_with : ℕ → ℤ → ℤ
min_with x (pos n) = pos (min x n)
min_with x (negsuc n) = negsuc n

-- `Math.min(ev.clientX, window.innerWidth - 180)`
unfoldable pub menu_left : ℕ → ℕ → ℤ
menu_left x width = min_with x (difference width 180)

-- `Math.min(ev.clientY, window.innerHeight - items.length * 34 - 10)`
unfoldable pub menu_top : ℕ → ℕ → ℕ → ℤ
menu_top count y height = min_with y (difference height (count * 34 + 10))

-- The text and the class of the button of a line.
abbrev pub label_of : Item → Text
label_of open_item = codes "Open"
label_of preview_item = codes "Preview"
label_of download_item = codes "Download"
label_of rename_item = codes "Rename (F2)"
label_of delete_item = codes "Delete (Del)"

abbrev pub line_class : Item → Text
line_class delete_item = codes "fm-menu-item danger"
line_class _ = codes "fm-menu-item"

-- An element of class fm-menu; `id` tells the menus of one page apart.
pub record Menu : Type 0 where
  pub id : ℕ
  pub entry : Entry
  pub left : ℤ
  pub top : ℤ
  pub lines : List (Item × Text × Text)

-- The menus in the document, the timeouts that add an `onDown`, the `onDown` that listen (each by
-- its menu), the calls of `act`, and the object.
pub record Screen : Type 0 where
  pub menus : List Menu
  pub waiting : List ℕ
  pub listening : List ℕ
  pub next : ℕ
  pub acts : List (Item × Entry)
  pub view : View

abbrev pub drop_id : ℕ → List ℕ → List ℕ
drop_id k ids = filter (λ (i : ℕ). not (i == k)) ids

-- `menu.remove()`
abbrev pub remove_menu : ℕ → List Menu → List Menu
remove_menu k ms = filter (λ (m : Menu). not (m.id == k)) ms

abbrev pub line_of : Item → Item × Text × Text
line_of i = (i, label_of i, line_class i)

-- openMenu(ev, e), given ev.clientX, ev.clientY and the size of the window. (renderList only draws
-- what the view has.)
unfoldable pub open_menu : (Text → Text) → Entry → ℕ → ℕ → ℕ → ℕ → Screen → Screen
open_menu to_lower e x y width height s =
    let items = menu_items to_lower e in
    let menu : Menu = record {
      id = s.next;
      entry = e;
      left = menu_left x width;
      top = menu_top (length items) y height;
      lines = map line_of items;
    } in
    record s {
      menus = menu ∷ [];
      waiting = s.waiting ++ (s.next ∷ []);
      next = suc s.next;
      view = select_for_menu e s.view;
    }

-- The callback of the timeout: `document.addEventListener("mousedown", onDown)`.
unfoldable pub listen : ℕ → Screen → Screen
listen k s = record s { waiting = drop_id k s.waiting; listening = s.listening ++ (k ∷ []) }

-- close()
unfoldable pub close_menu : ℕ → Screen → Screen
close_menu k s = record s { menus = remove_menu k s.menus; listening = drop_id k s.listening }

-- `menu.contains(de.target)`, given the menu that the target lies in.
abbrev pub contains : Option ℕ → ℕ → Bool
contains none k = false
contains (some j) k = j == k

-- onDown(de)
unfoldable pub on_down : Option ℕ → ℕ → Screen → Screen
on_down target k s = if contains target k then s else close_menu k s

-- A mouse-down calls each onDown that listens.
abbrev pub on_downs : Option ℕ → List ℕ → Screen → Screen
on_downs target [] s = s
on_downs target (k ∷ ks) s = on_downs target ks (on_down target k s)

abbrev pub mouse_down : Option ℕ → Screen → Screen
mouse_down target s = on_downs target s.listening s

-- onclick of a line.
unfoldable pub item_click : Menu → Item → Screen → Screen
item_click m i s = record s {
  menus = remove_menu m.id s.menus;
  acts = s.acts ++ ((i, m.entry) ∷ []);
}

pub data MenuEvent : Type 0 where
  asked : Entry → ℕ → ℕ → ℕ → ℕ → MenuEvent
  timeout : ℕ → MenuEvent
  mouse : Option ℕ → MenuEvent
  clicked : Menu → Item → MenuEvent

unfoldable pub menu_step : (Text → Text) → MenuEvent → Screen → Screen
menu_step to_lower (asked e x y width height) s = open_menu to_lower e x y width height s
menu_step to_lower (timeout k) s = listen k s
menu_step to_lower (mouse target) s = mouse_down target s
menu_step to_lower (clicked m i) s = item_click m i s

abbrev pub menu_run : (Text → Text) → List MenuEvent → Screen → Screen
menu_run to_lower [] s = s
menu_run to_lower (e ∷ es) s = menu_run to_lower es (menu_step to_lower e s)
