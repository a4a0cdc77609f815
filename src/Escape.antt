-- ===== src/Escape.antt =====
-- The helper `esc` of web/src/main.js and web/src/files.js: text for innerHTML.
pub mod Laws
pub mod Markup
use claude_docker.Common.{ℕ, List, [], ◌∷◌, ◌++◌, ◌==◌, if◌then◌else◌}
use claude_docker.Text.{Text, codes}

-- The callback of `replace`, on the units that /[&<>"]/g matches; the others stay.
unfoldable pub escape_unit : ℕ → Text
escape_unit c =
    if c == b'&'
    then codes "&amp;"
    else if c == b'<'
    then codes "&lt;"
    else if c == b'>'
    then codes "&gt;"
    else if c == b'"'
    then codes "&quot;"
    else c ∷ []

unfoldable pub esc : Text → Text
unfolding escape_unit
esc [] = []
esc (c ∷ s) = escape_unit c ++ esc s
