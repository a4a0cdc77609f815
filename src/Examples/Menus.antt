-- ===== src/Examples/Menus.antt =====
-- The context menu of a small directory, and the theorems at it.
use claude_docker.Common.{◌≤◌, List, [], ◌∷◌, ◌≡◌, refl, none, length}
use claude_docker.Files.Menu.{
  pos, negsuc, Screen, MenuEvent, asked, timeout, mouse, menu_run, menu_step, open_menu, mouse_down,
  menu_left, menu_top, listen, on_down, close_menu,
}
use claude_docker.Files.Menu.Closing.{one_menu}
use claude_docker.Examples.SmallDirectory.{lower, picture, src, view}

abbrev empty : Screen
empty = record { menus = []; waiting = []; listening = []; next = 0; acts = []; view = view }

-- A second menu is asked for before the first one's timeout; then the mouse is pressed outside.
abbrev two_menus : List MenuEvent
two_menus = asked picture 10 20 800 600 ∷ asked src 790 590 800 600 ∷ timeout 0 ∷ timeout 1 ∷ []

one_menu_example :
    let t = menu_run lower two_menus empty in
    (length t.menus ≤ 1)
    × ((mouse_down none t).listening ≡ [])
    × (length (mouse_down none t).menus ≤ length t.waiting)
one_menu_example = one_menu lower two_menus empty refl

-- A menu asked for in a corner is moved into the window, and left of a narrow one.
corner : (menu_left 790 800 ≡ pos 620) × (menu_top 3 590 600 ≡ pos 488)
unfolding menu_left menu_top
corner = (refl, refl)

narrow : menu_left 50 100 ≡ negsuc 79
unfolding menu_left
narrow = refl

-- Both timeouts fire, the listener of the menu that is gone too.
both_listen : (menu_run lower two_menus empty).listening ≡ 0 ∷ 1 ∷ []
unfolding menu_step open_menu listen
both_listen = refl

closed_outside : (menu_run lower (mouse none ∷ []) (menu_run lower two_menus empty)).menus ≡ []
unfolding menu_step open_menu listen on_down close_menu
closed_outside = refl
