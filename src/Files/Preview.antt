-- ===== src/Files/Preview.antt =====
-- What a preview shows (class FileView of web/src/files.js, openPreview).
use claude_docker.Common.{
  ℕ, zero, suc, ap, ◌*◌, ◌≤◌, none, some, [], ◌∷◌, ◌++◌, take, length, if◌then◌else◌, ltb, ◌≡◌,
  refl, arith, Bool-cases, inl, inr,
}
use claude_docker.Text.{Text, codes}
use claude_docker.Size.{decimal, round_div}
use claude_docker.Api.{Answer, failed, responded, is_ok}
use claude_docker.Files.FilePath.{join}
use claude_docker.Files.Kind.{Entry, is_image}

-- PREVIEW_MAX
abbrev pub preview_max : ℕ
preview_max = 2 * 1024 * 1024

-- The text of a file, which is cut at `max` units; a message says so.
unfoldable pub cut_text : ℕ → Text → Text
cut_text max text =
    if ltb max (length text)
    then take max text
      ++ (10 ∷ 10 ∷ codes "…[truncated "
          ++ (decimal (round_div (length text) 1024)
              ++ (codes "KB shown " ++ (decimal (round_div max 1024) ++ codes "KB]"))))
    else text

-- The text of `pv-pre` in the end, given the answer to the download.
unfoldable pub preview_text : Answer Text → Text
unfolding cut_text
preview_text failed = codes "load failed"
preview_text (responded status body) =
    if is_ok status
    then elim body [ none ↦ codes "load failed" | some text ↦ cut_text preview_max text ]
    else codes "load failed"

-- The body of the overlay: the picture at a path, or the text.
pub data Body : Type 0 where
  picture_at : Text → Body
  text_of : Text → Body

unfoldable pub preview_body : (Text → Text) → Text → Entry → Answer Text → Body
unfolding preview_text
preview_body to_lower cwd e answer =
    if is_image to_lower e.name then picture_at (join cwd e.name) else text_of (preview_text answer)

take-take : (n : ℕ) (s t : Text) → n ≤ length s → take n (take n s ++ t) ≡ take n s
take-take zero s t h = refl
take-take (suc n) [] t h = absurd (omega arith)
take-take (suc n) (c ∷ s) t h = ap (c ∷◌) (take-take n s t (omega arith))

-- Up to the limit a preview shows the file itself.
cut_text-take : (max : ℕ) (text : Text) → take max (cut_text max text) ≡ take max text
unfolding cut_text
cut_text-take max text = elim (Bool-cases (ltb max (length text))) [
  | inl long ↦ rw long (take-take max text _ (ground arith))
  | inr short ↦ rw short refl
]
