-- ===== src/Files/View/Races.antt =====
-- The preview overlay, and listings that arrive late.
use claude_docker.Common.{ℕ, Bool, true, List, [], ◌∷◌, ◌≡◌, refl, ◌∙◌, arith, Option, none, some}
use claude_docker.Text.{Text}
use claude_docker.Files.Kind.{Entry}
use claude_docker.Files.Sort.{sort_entries}
use claude_docker.Files.View.{
  or_empty, View, go, listed, open_preview, close_overlay, close_preview,
}

-- The overlays in the document: the one that `previewController` closes, and no other.
abbrev pub shown : Option ℕ → List ℕ
shown none = []
shown (some k) = k ∷ []

abbrev pub PreviewMatches : View → Type 0
PreviewMatches s = s.overlays ≡ shown s.preview

close_preview_lem :
    (s : View)
    → PreviewMatches s
    → ((close_preview s).preview ≡ none)
      × ((close_preview s).overlays ≡ [])
      × ((close_preview s).next_overlay ≡ s.next_overlay)
unfolding close_preview close_overlay
close_preview_lem s v = ground arith

-- `go` closes the overlay if there is one.
pub go-no_preview :
    (p : Text) (push : Bool) (s : View)
    → PreviewMatches s
    → ((go p push s).preview ≡ none) × ((go p push s).overlays ≡ [])
unfolding go
go-no_preview p push s v = ground (arith, close_preview_lem s)

pub open_preview-PreviewMatches :
    (s : View)
    → PreviewMatches s
    → PreviewMatches (open_preview s) × ((open_preview s).preview ≡ some s.next_overlay)
unfolding open_preview
open_preview-PreviewMatches s v = ground (arith, close_preview_lem s)

go_order :
    (p : Text) (s : View)
    → ((go p true s).cwd ≡ p)
      × ((go p true s).sort_key ≡ s.sort_key)
      × ((go p true s).sort_dir ≡ s.sort_dir)
unfolding go close_preview
go_order p s = ground arith

abbrev answered : Option (Option (List Entry)) → List Entry
answered none = []
answered (some body) = or_empty body

listed_fields :
    (to_lower : Text → Text) (answer : Option (Option (List Entry))) (s : View)
    → ((listed to_lower answer s).cwd ≡ s.cwd)
      × ((listed to_lower answer s).sort_key ≡ s.sort_key)
      × ((listed to_lower answer s).sort_dir ≡ s.sort_dir)
      × ((listed to_lower answer s).entries
          ≡ sort_entries to_lower s.sort_key s.sort_dir (answered answer))
unfolding listed
listed_fields to_lower none s = (refl, refl, refl, refl)
listed_fields to_lower (some body) s = (refl, refl, refl, refl)

-- An answer is shown whichever directory it lists: if the answer for `p` comes after the user has
-- gone on to `q` and after the answer for `q`, the view stands in `q` and shows the entries of `p`.
pub listed_late :
    (to_lower : Text → Text) (p q : Text) (s : View) (of_p of_q : Option (Option (List Entry)))
    → let late = listed to_lower of_p (listed to_lower of_q (go q true (go p true s))) in
      (late.cwd ≡ q) × (late.entries ≡ (listed to_lower of_p (go p true s)).entries)
listed_late to_lower p q s of_p of_q =
    let (_, kp, dp) = go_order p s in
    let (cq, kq, dq) = go_order q (go p true s) in
    let (c1, k1, d1, e1) = listed_fields to_lower of_q (go q true (go p true s)) in
    let (c2, k2, d2, e2) =
      listed_fields to_lower of_p (listed to_lower of_q (go q true (go p true s))) in
    let (c3, k3, d3, e3) = listed_fields to_lower of_p (go p true s) in
    (c2 ∙ c1 ∙ cq, rw (e2, e3, k1, d1, kq, dq))
