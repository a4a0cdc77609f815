-- ===== src/Files/Listing/Markup.antt =====
-- What the names of a directory can do to the markup of the list.
use claude_docker.Common.{ℕ, ◌+◌, Bool, true, false, [], if◌then◌else◌, ◌≡◌, refl, arith}
use claude_docker.Text.{Text, codes}
use claude_docker.Escape.Markup.{count, count-concat, count-esc, count_of_IsInert, fmt_size-IsInert}
use claude_docker.Size.{fmt_size}
use claude_docker.Files.Kind.{Entry, Icon, folder, image_icon, text_icon, binary, icon_for}
use claude_docker.Files.Listing.{glyph, dash, fmt_time, row_parts, row_html}

glyph-no_markup : (i : Icon) → (count b'<' (glyph i) ≡ 0) × (count b'"' (glyph i) ≡ 0)
glyph-no_markup folder = (refl, refl)
glyph-no_markup image_icon = (refl, refl)
glyph-no_markup text_icon = (refl, refl)
glyph-no_markup binary = (refl, refl)

size-no_markup :
    (is_dir : Bool) (n : ℕ)
    → let s = if is_dir then dash else fmt_size n in (count b'<' s ≡ 0) × (count b'"' s ≡ 0)
size-no_markup true n = (refl, refl)
size-no_markup false n = count_of_IsInert (fmt_size n) (fmt_size-IsInert n)

checked-no_markup :
    (sel : Bool)
    → let s = if sel then codes "checked" else [] in (count b'<' s ≡ 0) × (count b'"' s ≡ 0)
checked-no_markup true = (refl, refl)
checked-no_markup false = (refl, refl)

-- Whatever the name of an entry, its row in the list has the eleven tags and the twelve quotes of
-- the template, besides those that the browser's text for its date may have.
pub row_html-markup :
    (to_lower : Text → Text) (to_locale : ℕ → Text) (sel : Bool) (e : Entry)
    → (count b'<' (row_html to_lower to_locale sel e)
        ≡ 11 + count b'<' (fmt_time to_locale e.mod_time))
      × (count b'"' (row_html to_lower to_locale sel e)
          ≡ 12 + count b'"' (fmt_time to_locale e.mod_time))
unfolding row_html
row_html-markup to_lower to_locale sel e =
    let parts = row_parts to_lower to_locale sel e in
    let (g1, g2) = glyph-no_markup (icon_for to_lower e) in
    let (n1, n2) = count-esc e.name in
    let (s1, s2) = size-no_markup e.is_dir e.size in
    let (c1, c2) = checked-no_markup sel in
    (
      omega (arith, count-concat b'<' parts, g1, n1, s1, c1),
      omega (arith, count-concat b'"' parts, g2, n2, s2, c2),
    )
