-- ===== src/Server/Sessions/Matched.antt =====
-- The map of live PTYs and the table of backend/internal/sessions/manager.go say the same, and which
-- changes keep that so.
use claude_docker.Common.{
  ℕ, true, false, not, ◌||◌, ◌&&◌, List, [], ◌∷◌, map, filter, All, ◌==◌, ◌≡◌, sym, ap, ◌∙◌, arith,
}
use claude_docker.Server.Sessions.{
  Row, Entry, Pty, mark_exited, mark_alive, touched_row, delete_row, drop_live, set_live, owns,
  ids_of, mark_all, all_exited,
}
use claude_docker.Server.Sessions.Views.{
  live_has, row_on, same_at, live_has-drop, live_has-set, live_has-user, row_on-exited,
  row_on-alive, row_on-touched, row_on-delete, row_on-all_exited, row_on-mark_all, mem-ids_of,
  owns-exited, owns-alive, owns-touched, owns-all_exited, owns-mark_all, owns-delete,
}
use claude_docker.Server.Sessions.Owners.{
  IsOwner, dropped_one, nothing_there, all_of_user, one_more,
}

-- A user has a live PTY for an id exactly if the user's row of that id is alive; an id belongs to one
-- user; and each reaper was registered with the user to whom the rows of its id belong.
pub record Fits (rows : List Row) (live : List Entry) (ptys : List Pty) : Type 0 where
  pub matched : (u i : ℕ) → live_has u i live ≡ row_on u i rows
  pub unique : (u v i : ℕ) → owns u i rows ≡ true → owns v i rows ≡ true → u ≡ v
  pub reapers : All (λ (p : Pty). IsOwner p.user p.id rows) ptys

-- Fewer rows, or the same ones, in the eyes of `owns`.
abbrev pub Within : List Row → List Row → Type 0
Within rows' rows = (u i : ℕ) → owns u i rows' ≡ true → owns u i rows ≡ true

reapers-Within :
    (rows rows' : List Row) (ptys : List Pty)
    → Within rows' rows
    → All (λ (p : Pty). IsOwner p.user p.id rows) ptys
    → All (λ (p : Pty). IsOwner p.user p.id rows') ptys
reapers-Within rows rows' [] w h = tt
reapers-Within rows rows' (p ∷ ptys) w (o, h) =
    (λ u e. o u (w u p.id e), reapers-Within rows rows' ptys w h)

-- The rows change, but not whom they belong to, or some are gone.
pub Fits-Within :
    {rows rows' : List Row} {live live' : List Entry} {ptys : List Pty}
    → Within rows' rows
    → ((u i : ℕ) → live_has u i live' ≡ row_on u i rows')
    → Fits rows live ptys
    → Fits rows' live' ptys
Fits-Within {rows} {rows'} {live} {live'} {ptys} w m f = record {
  matched = m;
  unique = λ u v i h k. f.unique u v i (w u i h) (w v i k);
  reapers = reapers-Within rows rows' ptys w f.reapers;
}

-- The entry goes, and the row is marked as exited.
pub drop_exit-Fits :
    (v j : ℕ) {rows : List Row} {live : List Entry} {ptys : List Pty}
    → IsOwner v j rows
    → Fits rows live ptys
    → Fits (mark_exited j rows) (drop_live v j live) ptys
drop_exit-Fits v j {rows} {live} {ptys} o f =
    Fits-Within (λ u i h. sym (owns-exited u i j rows) ∙ h)
      (λ u i.
        live_has-drop u i v j live
        ∙ ap (λ b. b && not (same_at u i v j)) (f.matched u i)
        ∙ dropped_one u v i j rows o
        ∙ sym (row_on-exited u i j rows))
      f

-- The entry goes, and the row too.
pub drop_delete-Fits :
    (v j : ℕ) {rows : List Row} {live : List Entry} {ptys : List Pty}
    → IsOwner v j rows
    → Fits rows live ptys
    → Fits (delete_row j rows) (drop_live v j live) ptys
drop_delete-Fits v j {rows} {live} {ptys} o f =
    Fits-Within (λ u i h. ground (arith, owns-delete u i j rows, h))
      (λ u i.
        live_has-drop u i v j live
        ∙ ap (λ b. b && not (same_at u i v j)) (f.matched u i)
        ∙ dropped_one u v i j rows o
        ∙ sym (row_on-delete u i j rows))
      f

-- A row is marked as exited where there is no entry.
pub exit-Fits :
    (v j : ℕ) {rows : List Row} {live : List Entry} {ptys : List Pty}
    → IsOwner v j rows
    → live_has v j live ≡ false
    → Fits rows live ptys
    → Fits (mark_exited j rows) live ptys
exit-Fits v j {rows} {live} {ptys} o gone f =
    Fits-Within (λ u i h. sym (owns-exited u i j rows) ∙ h)
      (λ u i.
        f.matched u i
        ∙ nothing_there u v i j rows o (sym (f.matched v j) ∙ gone)
        ∙ sym (row_on-exited u i j rows))
      f

pub touch-Fits :
    (j now : ℕ) {rows : List Row} {live : List Entry} {ptys : List Pty}
    → Fits rows live ptys
    → Fits (map (touched_row j now) rows) live ptys
touch-Fits j now {rows} {live} {ptys} f =
    Fits-Within (λ u i h. sym (owns-touched u i j now rows) ∙ h)
      (λ u i. f.matched u i ∙ sym (row_on-touched u i j now rows)) f

pub reboot-Fits :
    {rows : List Row} {live : List Entry} {ptys : List Pty}
    → Fits rows live ptys
    → Fits (all_exited rows) [] []
reboot-Fits {rows} {live} {ptys} f = record {
  matched = λ u i. sym (row_on-all_exited u i rows);
  unique = λ u v i h k.
      f.unique u v i (sym (owns-all_exited u i rows) ∙ h) (sym (owns-all_exited v i rows) ∙ k);
  reapers = tt;
}

-- All entries of a user go, and their rows are marked.
pub kill_all-Fits :
    (v : ℕ) {rows : List Row} {live : List Entry} {ptys : List Pty}
    → Fits rows live ptys
    → Fits (mark_all (ids_of v live) rows) (filter (λ (e : Entry). not (e.user == v)) live) ptys
kill_all-Fits v {rows} {live} {ptys} f =
    Fits-Within (λ u i h. sym (owns-mark_all u i (ids_of v live) rows) ∙ h)
      (λ u i.
        live_has-user u i v live
        ∙ ap (λ b. b && not (u == v)) (f.matched u i)
        ∙ all_of_user u v i rows (λ a b. f.unique a b i)
        ∙ ap (λ b. row_on u i rows && not b) (sym (f.matched v i) ∙ sym (mem-ids_of i v live))
        ∙ sym (row_on-mark_all u i (ids_of v live) rows))
      f

-- A PTY for a row that the user owns is added, and the row is marked as alive.
pub revive-Fits :
    (v j k now : ℕ) {rows : List Row} {live : List Entry} {ptys : List Pty}
    → owns v j rows ≡ true
    → Fits rows live ptys
    → Fits
        (mark_alive j now rows)
        (set_live v j k live)
        (record { key = k; user = v; id = j } ∷ ptys)
revive-Fits v j k now {rows} {live} {ptys} o f =
    let w : Within (mark_alive j now rows) rows = λ u i h. sym (owns-alive u i j now rows) ∙ h in
    record {
      matched = λ u i.
          live_has-set u i v j k live
          ∙ ap (same_at u i v j ||◌) (f.matched u i)
          ∙ one_more u v i j rows (λ a b. f.unique a b j) o
          ∙ sym (row_on-alive u i j now rows);
      unique = λ u x i h g. f.unique u x i (w u i h) (w x i g);
      reapers = (
        λ u e. f.unique u v j (w u j e) o,
        reapers-Within rows (mark_alive j now rows) ptys w f.reapers,
      );
    }

abbrev pub new_row : ℕ → ℕ → ℕ → Row
new_row v j now = record { id = j; user = v; started = now; last_seen = now; alive = true }

other_reapers :
    (v j now : ℕ) (rows : List Row) (ptys : List Pty)
    → All (λ (p : Pty). (p.id == j) ≡ false) ptys
    → All (λ (p : Pty). IsOwner p.user p.id rows) ptys
    → All (λ (p : Pty). IsOwner p.user p.id (new_row v j now ∷ rows)) ptys
unfolding owns
other_reapers v j now rows [] apart h = tt
other_reapers v j now rows (p ∷ ptys) (other, apart) (o, h) =
    (λ u e. o u (ground arith), other_reapers v j now rows ptys apart h)

-- A PTY for a new row is added.
pub create-Fits :
    (v j k now : ℕ) {rows : List Row} {live : List Entry} {ptys : List Pty}
    → ((u : ℕ) → owns u j rows ≡ false)
    → All (λ (p : Pty). (p.id == j) ≡ false) ptys
    → Fits rows live ptys
    → Fits
        (new_row v j now ∷ rows)
        (set_live v j k live)
        (record { key = k; user = v; id = j } ∷ ptys)
unfolding owns
create-Fits v j k now {rows} {live} {ptys} new apart f = record {
  matched = λ u i. ground (arith, live_has-set u i v j k live, f.matched u i);
  unique = λ a b i h g. ground (arith, f.unique a b i, new a, new b);
  reapers = (λ u e. ground (arith, new u), other_reapers v j now rows ptys apart f.reapers);
}
