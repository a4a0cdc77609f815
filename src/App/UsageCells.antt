-- ===== src/App/UsageCells.antt =====
-- The cells of the table of users while the answers to the requests for the usage come in
-- (refreshUsers of web/src/main.js).
pub mod Lookup
pub mod Order
use claude_docker.Common.{ℕ, Option, none, some, List, [], ◌∷◌, ◌++◌, if◌then◌else◌}
use claude_docker.Text.{Text, codes, text_eq}
use claude_docker.Size.{decimal}
use claude_docker.App.Tables.{Account}
use claude_docker.App.Accounts.{Usage, disk_cell, traffic_cell, sessions_cell}

-- What a cell was given: `innerHTML` or `textContent`.
pub data Content : Type 0 where
  html : Text → Content
  text : Text → Content

-- The cells of the document with their ids, in document order.
abbrev pub Cells : Type 0
Cells = List (Text × Content)

abbrev pub cell_id : Text → ℕ → Text
cell_id letter n = letter ++ (b'-' ∷ decimal n)

-- `document.getElementById(id)`: the first cell of this id.
unfoldable pub cell_of : Text → Cells → Option Content
cell_of id [] = none
cell_of id ((k, c) ∷ cells) = let rest = cell_of id cells in if text_eq k id then some c else rest

-- `if (e) e.innerHTML = …`, `if (e) e.textContent = …`
unfoldable pub set_cell : Text → Content → Cells → Cells
set_cell id v [] = []
set_cell id v ((k, c) ∷ cells) =
    let rest = set_cell id v cells in if text_eq k id then (k, v) ∷ cells else (k, c) ∷ rest

-- The cells of the rows when the loop has run, given the HTML of each last login.
unfoldable pub draw_rows : (Account → Text) → List Account → Cells
draw_rows login [] = []
draw_rows login (u ∷ accounts) =
    (cell_id (codes "d") u.id, html (codes "—"))
    ∷ (cell_id (codes "t") u.id, html (codes "—"))
    ∷ (cell_id (codes "s") u.id, html (codes "—"))
    ∷ (cell_id (codes "ll") u.id, html (login u))
    ∷ draw_rows login accounts

-- The answer for the usage of a user.
unfoldable pub fill : Account → Usage → Cells → Cells
unfolding set_cell
fill u us cells = set_cell (cell_id (codes "s") u.id) (text (sessions_cell us)) (
    set_cell (cell_id (codes "t") u.id) (text (traffic_cell us))
      (set_cell (cell_id (codes "d") u.id) (html (disk_cell us)) cells))

-- The answers in the order in which they come.
unfoldable pub fill_all : List (Account × Usage) → Cells → Cells
unfolding fill
fill_all [] cells = cells
fill_all ((u, us) ∷ answers) cells = fill_all answers (fill u us cells)
