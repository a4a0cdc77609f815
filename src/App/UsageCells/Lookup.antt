-- ===== src/App/UsageCells/Lookup.antt =====
-- Cells that are looked up and set by their ids.
use claude_docker.Common.{
  false, some, [], ◌∷◌, if_ind, ◌≡◌, ◌≢◌, refl, ◌∙◌, sym, inl, inr, Bool-cases,
}
use claude_docker.Text.{Text, text_eq}
use claude_docker.Text.Laws.{text_eq_iff}
use claude_docker.App.UsageCells.{Content, Cells, cell_of, set_cell}

different_texts : (s t : Text) → s ≢ t → text_eq s t ≡ false
different_texts s t ne = elim (Bool-cases (text_eq s t)) [
  | inl same ↦ absurd (ne ((text_eq_iff s t).0 same))
  | inr other ↦ other
]

abbrev pub IsThere : Text → Cells → Type 0
IsThere id cells = (c : Content) × (cell_of id cells ≡ some c)

-- A cell that is there takes the value.
pub cell_of-set_cell :
    (id : Text) (v : Content) (cells : Cells)
    → IsThere id cells
    → cell_of id (set_cell id v cells) ≡ some v
unfolding cell_of set_cell
cell_of-set_cell id v [] (c, h) = cc
cell_of-set_cell id v ((k, d) ∷ cells) (c, h) = elim (Bool-cases (text_eq k id)) [
  | inl same ↦ rw same (rw same refl)
  | inr other ↦ rw other (rw other (cell_of-set_cell id v cells (c, rw other at h)))
]

-- The other cells stay.
pub cell_of-set_other :
    (id j : Text) (v : Content) (cells : Cells)
    → id ≢ j
    → cell_of j (set_cell id v cells) ≡ cell_of j cells
unfolding cell_of set_cell
cell_of-set_other id j v [] ne = refl
cell_of-set_other id j v ((k, d) ∷ cells) ne = elim (Bool-cases (text_eq k id)) [
  | inl same ↦
      let other = different_texts k j (λ e. ne (sym ((text_eq_iff k id).0 same) ∙ e)) in
      rw (same, other) refl
  | inr other ↦ rw (other, cell_of-set_other id j v cells ne) refl
]

pub set_cell-IsThere :
    (id j : Text) (v : Content) (cells : Cells) → IsThere j cells → IsThere j (set_cell id v cells)
unfolding cell_of set_cell
set_cell-IsThere id j v [] (c, h) = cc
set_cell-IsThere id j v ((k, d) ∷ cells) (c, h) =
    if_ind (IsThere j) (text_eq k id)
      (λ _. elim (Bool-cases (text_eq k j)) [
        | inl same ↦ rw same (v, refl)
        | inr other ↦ rw other (c, rw other at h)
      ])
      (λ _. elim (Bool-cases (text_eq k j)) [
        | inl same ↦ rw same (d, refl)
        | inr other ↦ rw other (set_cell-IsThere id j v cells (c, rw other at h))
      ])
