-- ===== src/App/UsageCells/Order.antt =====
-- The answers may come in any order.
use claude_docker.Common.{
  ℕ, ◌<◌, ◌^◌, some, List, [], ◌∷◌, ◌≡◌, ◌≢◌, refl, ap, ◌∙◌, sym, subst, inl, inr, All, Bool-cases,
  arith,
}
use mathlib.Core.List.{Memᴰ}
use claude_docker.Text.{Text, codes, text_eq}
use claude_docker.Text.Laws.{text_eq_refl}
use claude_docker.Size.{decimal}
use claude_docker.Size.Laws.{value_from, value_from-decimal}
use claude_docker.App.Tables.{Account}
use claude_docker.App.Accounts.{Usage, disk_cell, traffic_cell, sessions_cell}
use claude_docker.App.UsageCells.{
  Content, html, text, Cells, cell_id, cell_of, draw_rows, fill, fill_all,
}
use claude_docker.App.UsageCells.Lookup.{
  IsThere, cell_of-set_cell, cell_of-set_other, set_cell-IsThere,
}

-- The number of a user that fits in twenty digits.
abbrev pub IsId : Account → Type 0
IsId u = u.id < 10 ^ 20

abbrev number_in : Text → ℕ
number_in (_ ∷ _ ∷ s) = value_from 0 s
number_in _ = 0

-- Cells of distinct users have distinct ids.
cell_id-ne :
    (c d : ℕ) (u v : Account)
    → IsId u
    → IsId v
    → u.id ≢ v.id
    → (c ∷ b'-' ∷ decimal u.id) ≢ (d ∷ b'-' ∷ decimal v.id)
cell_id-ne c d u v h k ne e =
    ne (sym (value_from-decimal u.id h) ∙ ap number_in e ∙ value_from-decimal v.id k)

first_ne : (c d : ℕ) (s t : Text) → c ≢ d → (c ∷ s) ≢ (d ∷ t)
first_ne c d s t ne e = ne (ap head_of e)
  where
    head_of : Text → ℕ
    head_of [] = 0
    head_of (c ∷ _) = c

-- The cells of a user are there.
record HasCells (u : Account) (cells : Cells) : Type 0 where
  disk : IsThere (cell_id (codes "d") u.id) cells
  traffic : IsThere (cell_id (codes "t") u.id) cells
  sessions : IsThere (cell_id (codes "s") u.id) cells

-- The cells of a user show this usage.
pub record ShowsUsage (u : Account) (us : Usage) (cells : Cells) : Type 0 where
  pub disk : cell_of (cell_id (codes "d") u.id) cells ≡ some (html (disk_cell us))
  pub traffic : cell_of (cell_id (codes "t") u.id) cells ≡ some (text (traffic_cell us))
  pub sessions : cell_of (cell_id (codes "s") u.id) cells ≡ some (text (sessions_cell us))

fill-IsThere :
    (j : Text) (u : Account) (us : Usage) (cells : Cells)
    → IsThere j cells
    → IsThere j (fill u us cells)
unfolding fill
fill-IsThere j u us cells h =
    set_cell-IsThere _ j _ _ (set_cell-IsThere _ j _ _ (set_cell-IsThere _ j _ cells h))

fill-HasCells :
    (u v : Account) (us : Usage) (cells : Cells) → HasCells u cells → HasCells u (fill v us cells)
fill-HasCells u v us cells h = record {
  disk = fill-IsThere _ v us cells h.disk;
  traffic = fill-IsThere _ v us cells h.traffic;
  sessions = fill-IsThere _ v us cells h.sessions;
}

-- A cell of another user stays.
fill_other :
    (c : ℕ) (u v : Account) (us : Usage) (cells : Cells)
    → IsId u
    → IsId v
    → v.id ≢ u.id
    → cell_of (c ∷ b'-' ∷ decimal u.id) (fill v us cells) ≡ cell_of (c ∷ b'-' ∷ decimal u.id) cells
unfolding fill
fill_other c u v us cells h k ne =
    cell_of-set_other _ _ _ _ (cell_id-ne b's' c v u k h ne)
    ∙ cell_of-set_other _ _ _ _ (cell_id-ne b't' c v u k h ne)
    ∙ cell_of-set_other _ _ _ cells (cell_id-ne b'd' c v u k h ne)

fill-ShowsUsage :
    (u : Account) (us : Usage) (cells : Cells)
    → HasCells u cells
    → ShowsUsage u us (fill u us cells)
unfolding fill
fill-ShowsUsage u us cells h = record {
  disk =
      cell_of-set_other _ _ _ _ (first_ne b's' b'd' _ _ (λ e. omega arith))
      ∙ cell_of-set_other _ _ _ _ (first_ne b't' b'd' _ _ (λ e. omega arith))
      ∙ cell_of-set_cell _ _ cells h.disk;
  traffic =
      cell_of-set_other _ _ _ _ (first_ne b's' b't' _ _ (λ e. omega arith))
      ∙ cell_of-set_cell _ _ _ (set_cell-IsThere _ _ _ cells h.traffic);
  sessions =
      cell_of-set_cell _ _ _ (set_cell-IsThere _ _ _ _ (set_cell-IsThere _ _ _ cells h.sessions));
}

fill_other-ShowsUsage :
    (u v : Account) (us vs : Usage) (cells : Cells)
    → IsId u
    → IsId v
    → v.id ≢ u.id
    → ShowsUsage u us cells
    → ShowsUsage u us (fill v vs cells)
fill_other-ShowsUsage u v us vs cells h k ne w = record {
  disk = fill_other b'd' u v vs cells h k ne ∙ w.disk;
  traffic = fill_other b't' u v vs cells h k ne ∙ w.traffic;
  sessions = fill_other b's' u v vs cells h k ne ∙ w.sessions;
}

-- The answers are for distinct users, with numbers that fit.
abbrev pub AreDistinct : List (Account × Usage) → Type 0
AreDistinct [] = Unit
AreDistinct ((u, us) ∷ answers) =
    IsId u × All (λ (a : Account × Usage). a.0.id ≢ u.id) answers × AreDistinct answers

others-ShowsUsage :
    (u : Account) (us : Usage) (answers : List (Account × Usage)) (cells : Cells)
    → IsId u
    → All (λ (a : Account × Usage). a.0.id ≢ u.id) answers
    → AreDistinct answers
    → ShowsUsage u us cells
    → ShowsUsage u us (fill_all answers cells)
unfolding fill_all
others-ShowsUsage u us [] cells h ne d w = w
others-ShowsUsage u us ((v, vs) ∷ answers) cells h (n, ne) (k, _, d) w =
    others-ShowsUsage u us answers (fill v vs cells) h ne d
      (fill_other-ShowsUsage u v us vs cells h k n w)

fill_all-ShowsUsage :
    (u : Account) (us : Usage) (answers : List (Account × Usage)) (cells : Cells)
    → Memᴰ (u, us) answers
    → AreDistinct answers
    → HasCells u cells
    → ShowsUsage u us (fill_all answers cells)
unfolding fill_all
fill_all-ShowsUsage u us [] cells m d h = elim m [ ]
fill_all-ShowsUsage u us ((v, vs) ∷ answers) cells (Memᴰ.head e) (k, ne, d) h =
    let first =
      subst (λ (a : Account × Usage). ShowsUsage u us (fill a.0 a.1 cells)) e
        (fill-ShowsUsage u us cells h) in
    let same = ap (λ (a : Account × Usage). a.0.id) e in
    others-ShowsUsage u us answers (fill v vs cells) (subst (λ (n : ℕ). n < 10 ^ 20) (sym same) k)
      (subst (λ (n : ℕ). All (λ (a : Account × Usage). a.0.id ≢ n) answers) (sym same) ne) d first
fill_all-ShowsUsage u us ((v, vs) ∷ answers) cells (Memᴰ.tail m) (_, _, d) h =
    fill_all-ShowsUsage u us answers (fill v vs cells) m d (fill-HasCells u v vs cells h)

first_cell-IsThere : (k : Text) (c : Content) (cells : Cells) → IsThere k ((k, c) ∷ cells)
unfolding cell_of
first_cell-IsThere k c cells = (c, rw (text_eq_refl k) refl)

later_cell-IsThere :
    (j k : Text) (c : Content) (cells : Cells) → IsThere j cells → IsThere j ((k, c) ∷ cells)
unfolding cell_of
later_cell-IsThere j k c cells (d, h) = elim (Bool-cases (text_eq k j)) [
  | inl same ↦ (c, rw same refl)
  | inr other ↦ (d, rw other h)
]

-- What is there in the rows that follow is there in the table.
row_keeps :
    (j : Text) (login : Account → Text) (v : Account) (accounts : List Account)
    → IsThere j (draw_rows login accounts)
    → IsThere j (draw_rows login (v ∷ accounts))
unfolding draw_rows
row_keeps j login v accounts h =
    later_cell-IsThere j _ _ _
      (later_cell-IsThere j _ _ _ (later_cell-IsThere j _ _ _ (later_cell-IsThere j _ _ _ h)))

draw_rows-HasCells :
    (login : Account → Text) (u : Account) (accounts : List Account)
    → Memᴰ u accounts
    → HasCells u (draw_rows login accounts)
unfolding draw_rows
draw_rows-HasCells login u [] m = elim m [ ]
draw_rows-HasCells login u (v ∷ accounts) (Memᴰ.head e) = rw e (record {
  disk = first_cell-IsThere _ _ _;
  traffic = later_cell-IsThere _ _ _ _ (first_cell-IsThere _ _ _);
  sessions = later_cell-IsThere _ _ _ _ (later_cell-IsThere _ _ _ _ (first_cell-IsThere _ _ _));
})
draw_rows-HasCells login u (v ∷ accounts) (Memᴰ.tail m) =
    let h = draw_rows-HasCells login u accounts m in
    record {
      disk = row_keeps _ login v accounts h.disk;
      traffic = row_keeps _ login v accounts h.traffic;
      sessions = row_keeps _ login v accounts h.sessions;
    }

-- When the table of users has been drawn, and the answers for the usage of distinct users have come
-- in, in any order, then the three cells of every user of the table whose answer has come show the
-- usage of that user.
pub usage_in_any_order :
    (login : Account → Text) (accounts : List Account) (answers : List (Account × Usage))
    (u : Account) (us : Usage)
    → AreDistinct answers
    → Memᴰ u accounts
    → Memᴰ (u, us) answers
    → ShowsUsage u us (fill_all answers (draw_rows login accounts))
usage_in_any_order login accounts answers u us d listed came =
    fill_all-ShowsUsage u us answers (draw_rows login accounts) came d
      (draw_rows-HasCells login u accounts listed)
