-- ===== src/Server/Sessions/Views.antt =====
-- The map and the table of backend/internal/sessions/manager.go as questions: is there a PTY for a
-- user and an id, is there a row that is alive, and what the changes answer.
use claude_docker.Common.{
  ℕ, Bool, true, false, not, ◌||◌, ◌&&◌, none, some, List, [], ◌∷◌, map, filter, ◌==◌, ◌≡◌, refl,
  ◌∙◌, arith,
}
use claude_docker.Server.Sessions.{
  Row, Entry, mark_exited, mark_alive, touched_row, delete_row, is_at, drop_live, set_live,
  get_live, is_row, owns, ids_of, mark_all, all_exited,
}

abbrev pub live_has : ℕ → ℕ → List Entry → Bool
live_has u i [] = false
live_has u i (e ∷ live) = is_at u i e || live_has u i live

abbrev pub row_on : ℕ → ℕ → List Row → Bool
row_on u i [] = false
row_on u i (r ∷ rows) = (is_row u i r && r.alive) || row_on u i rows

-- The user and the id are these.
abbrev pub same_at : ℕ → ℕ → ℕ → ℕ → Bool
same_at u i v j = u == v && i == j

pub live_has-drop :
    (u i v j : ℕ) (live : List Entry)
    → live_has u i (drop_live v j live) ≡ (live_has u i live && not (same_at u i v j))
live_has-drop u i v j [] = refl
live_has-drop u i v j (e ∷ live) = ground (arith, live_has-drop u i v j live)

pub live_has-set :
    (u i v j k : ℕ) (live : List Entry)
    → live_has u i (set_live v j k live) ≡ (same_at u i v j || live_has u i live)
live_has-set u i v j k live = ground (arith, live_has-drop u i v j live)

pub live_has-user :
    (u i v : ℕ) (live : List Entry)
    → live_has u i (filter (λ (e : Entry). not (e.user == v)) live)
      ≡ (live_has u i live && not (u == v))
live_has-user u i v [] = refl
live_has-user u i v (e ∷ live) = ground (arith, live_has-user u i v live)

pub row_on-exited :
    (u i j : ℕ) (rows : List Row)
    → row_on u i (mark_exited j rows) ≡ (row_on u i rows && not (i == j))
row_on-exited u i j [] = refl
row_on-exited u i j (r ∷ rows) = ground (arith, row_on-exited u i j rows)

pub row_on-alive :
    (u i j now : ℕ) (rows : List Row)
    → row_on u i (mark_alive j now rows) ≡ (row_on u i rows || (i == j && owns u j rows))
unfolding owns
row_on-alive u i j now [] = ground arith
row_on-alive u i j now (r ∷ rows) = ground (arith, row_on-alive u i j now rows)

pub row_on-touched :
    (u i j now : ℕ) (rows : List Row) → row_on u i (map (touched_row j now) rows) ≡ row_on u i rows
row_on-touched u i j now [] = refl
row_on-touched u i j now (r ∷ rows) = ground (arith, row_on-touched u i j now rows)

pub row_on-delete :
    (u i j : ℕ) (rows : List Row)
    → row_on u i (delete_row j rows) ≡ (row_on u i rows && not (i == j))
row_on-delete u i j [] = refl
row_on-delete u i j (r ∷ rows) = ground (arith, row_on-delete u i j rows)

pub row_on-all_exited : (u i : ℕ) (rows : List Row) → row_on u i (all_exited rows) ≡ false
row_on-all_exited u i [] = refl
row_on-all_exited u i (r ∷ rows) = ground (arith, row_on-all_exited u i rows)

abbrev pub mem : ℕ → List ℕ → Bool
mem i [] = false
mem i (j ∷ js) = i == j || mem i js

pub row_on-mark_all :
    (u i : ℕ) (js : List ℕ) (rows : List Row)
    → row_on u i (mark_all js rows) ≡ (row_on u i rows && not (mem i js))
row_on-mark_all u i [] rows = ground arith
row_on-mark_all u i (j ∷ js) rows =
    ground (arith, row_on-mark_all u i js (mark_exited j rows), row_on-exited u i j rows)

pub mem-ids_of : (i v : ℕ) (live : List Entry) → mem i (ids_of v live) ≡ live_has v i live
mem-ids_of i v [] = refl
mem-ids_of i v (e ∷ live) = ground (arith, mem-ids_of i v live)

-- The marks leave it to whom a row belongs.
pub owns-exited : (u i j : ℕ) (rows : List Row) → owns u i (mark_exited j rows) ≡ owns u i rows
unfolding owns
owns-exited u i j [] = refl
owns-exited u i j (r ∷ rows) = ground (arith, owns-exited u i j rows)

pub owns-alive :
    (u i j now : ℕ) (rows : List Row) → owns u i (mark_alive j now rows) ≡ owns u i rows
unfolding owns
owns-alive u i j now [] = refl
owns-alive u i j now (r ∷ rows) = ground (arith, owns-alive u i j now rows)

pub owns-touched :
    (u i j now : ℕ) (rows : List Row) → owns u i (map (touched_row j now) rows) ≡ owns u i rows
unfolding owns
owns-touched u i j now [] = refl
owns-touched u i j now (r ∷ rows) = ground (arith, owns-touched u i j now rows)

pub owns-all_exited : (u i : ℕ) (rows : List Row) → owns u i (all_exited rows) ≡ owns u i rows
unfolding owns
owns-all_exited u i [] = refl
owns-all_exited u i (r ∷ rows) = ground (arith, owns-all_exited u i rows)

pub owns-mark_all :
    (u i : ℕ) (js : List ℕ) (rows : List Row) → owns u i (mark_all js rows) ≡ owns u i rows
owns-mark_all u i [] rows = refl
owns-mark_all u i (j ∷ js) rows = owns-mark_all u i js (mark_exited j rows) ∙ owns-exited u i j rows

pub owns-delete :
    (u i j : ℕ) (rows : List Row) → owns u i (delete_row j rows) ≡ (owns u i rows && not (i == j))
unfolding owns
owns-delete u i j [] = refl
owns-delete u i j (r ∷ rows) = ground (arith, owns-delete u i j rows)

-- A row that is alive belongs to the user.
pub row_on-owns : (u i : ℕ) (rows : List Row) → row_on u i rows ≡ true → owns u i rows ≡ true
unfolding owns
row_on-owns u i [] h = cc
row_on-owns u i (r ∷ rows) h = ground (arith, row_on-owns u i rows)

-- Get finds a PTY exactly if there is one.
pub get_live-found :
    (v j : ℕ) (live : List Entry) (k : ℕ) → get_live v j live ≡ some k → live_has v j live ≡ true
unfolding get_live
get_live-found v j [] k h = cc
get_live-found v j (e ∷ live) k h = ground (arith, get_live-found v j live k)

pub get_live-missing :
    (v j : ℕ) (live : List Entry) → get_live v j live ≡ none → live_has v j live ≡ false
unfolding get_live
get_live-missing v j [] h = refl
get_live-missing v j (e ∷ live) h = ground (arith, get_live-missing v j live)
