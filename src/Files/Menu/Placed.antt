-- ===== src/Files/Menu/Placed.antt =====
-- Where openMenu of web/src/files.js puts the menu.
use claude_docker.Common.{ℕ, ◌+◌, ◌-◌, ◌*◌, ◌≤◌, min, length, ◌≡◌, arith}
use claude_docker.Text.{Text}
use claude_docker.Files.Kind.{Entry, menu_items}
use claude_docker.Files.Menu.{pos, menu_left, menu_top, difference, min_with}

menu_items-few : (to_lower : Text → Text) (e : Entry) → length (menu_items to_lower e) ≤ 4
unfolding menu_items
menu_items-few to_lower e = ground arith

-- A number that is moved down to leave room stays in the window.
fits_in :
    (x size room : ℕ)
    → room ≤ size
    → (n : ℕ) × (min_with x (difference size room) ≡ pos n) × (n ≤ x) × (n + room ≤ size)
fits_in x size room h = (min x (size - room), ground arith, omega arith, omega arith)

-- In a window at least 180 pixels wide and 146 high, the menu of any entry, asked for at any point,
-- is not right of or below that point, and leaves 180 pixels to the right of its left edge and,
-- below its top edge, 34 for each of its lines and ten more.
pub menu_in_window :
    (to_lower : Text → Text) (e : Entry) (x y width height : ℕ)
    → 180 ≤ width
    → 146 ≤ height
    → let count = length (menu_items to_lower e) in
      (l : ℕ) × (t : ℕ) × (menu_left x width ≡ pos l)
      × (menu_top count y height ≡ pos t)
      × (l ≤ x)
      × (l + 180 ≤ width)
      × (t ≤ y)
      × (t + (count * 34 + 10) ≤ height)
unfolding menu_left menu_top
menu_in_window to_lower e x y width height wide high =
    let few = menu_items-few to_lower e in
    let (l, at_l, lx, lw) = fits_in x width 180 wide in
    let (t, at_t, ty, th) =
      fits_in y height (length (menu_items to_lower e) * 34 + 10) (omega (arith, few, high)) in
    (l, t, at_l, at_t, lx, lw, ty, th)
