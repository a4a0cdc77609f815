-- ===== src/Server/FilesApi/Header.antt =====
-- What a file name can do in the header that backend/internal/server/files_api.go writes.
use claude_docker.Common.{ℕ, ◌||◌, [], ◌∷◌, ◌≡◌, refl, arith, if_ind}
use claude_docker.Text.{Text, codes, text_eq, truthy}
use claude_docker.Escape.Markup.{count, count-concat}
use claude_docker.Server.Paths.{dot}
use claude_docker.Server.FilesApi.{
  base_name, without_unit, cleaned_name, safe_filename, disposition,
}

count_without : (x : ℕ) (s : Text) → count x (without_unit x s) ≡ 0
count_without x [] = refl
count_without x (c ∷ s) = ground (arith, count_without x s)

count_other : (x y : ℕ) (s : Text) → count x s ≡ 0 → count x (without_unit y s) ≡ 0
count_other x y [] h = refl
count_other x y (c ∷ s) h = ground (arith, count_other x y s)

-- No carriage return, line feed or quote.
abbrev pub IsQuotable : Text → Type 0
IsQuotable s = (count 13 s ≡ 0) × (count 10 s ≡ 0) × (count b'"' s ≡ 0)

cleaned_name-IsQuotable : (base : Text) → IsQuotable (cleaned_name base)
cleaned_name-IsQuotable base =
    let one = without_unit 13 base in
    let two = without_unit 10 one in
    (
      count_other 13 b'"' two (count_other 13 10 one (count_without 13 base)),
      count_other 10 b'"' two (count_without 10 one),
      count_without b'"' two,
    )

safe_filename-IsQuotable : (rel : Text) → IsQuotable (safe_filename rel)
unfolding safe_filename
safe_filename-IsQuotable rel =
    let base = base_name rel in
    if_ind IsQuotable (text_eq base dot || text_eq base (b'/' ∷ [])) (λ _. (refl, refl, refl))
      λ _.
        if_ind IsQuotable (truthy (cleaned_name base)) (λ _. cleaned_name-IsQuotable base)
          (λ _. (refl, refl, refl))

-- Whatever the path is, the header of a download has no line break and just the two quotes around
-- the file name.
pub disposition_lem :
    (rel : Text)
    → (count 13 (disposition rel) ≡ 0)
      × (count 10 (disposition rel) ≡ 0)
      × (count b'"' (disposition rel) ≡ 2)
unfolding disposition
disposition_lem rel =
    let (cr, lf, quotes) = safe_filename-IsQuotable rel in
    let parts = codes "attachment; filename=\"" ∷ safe_filename rel ∷ codes "\"" ∷ [] in
    (
      omega (arith, count-concat 13 parts, cr),
      omega (arith, count-concat 10 parts, lf),
      omega (arith, count-concat b'"' parts, quotes),
    )
