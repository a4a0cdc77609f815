-- ===== src/Examples/TextForms.antt =====
-- Escaping and sizes: tests, and the theorems at concrete inputs.
use claude_docker.Common.{ℕ, ◌++◌, ◌∷◌, arith, ◌≡◌, refl, none}
use claude_docker.Text.{Text, codes}
use claude_docker.Escape.{esc}
use claude_docker.Size.{fmt_size, fmt_bytes}
use mathlib.Core.List.{Memᴰ}
use claude_docker.Size.Shown.{size_units, Reads, size_accuracy}

escaped_tag : esc (codes "<b a=\"x\">&") ≡ codes "&lt;b a=&quot;x&quot;&gt;&amp;"
unfolding esc
escaped_tag = refl

size_bytes : fmt_size 1023 ≡ codes "1023 B"
unfolding fmt_size
size_bytes = refl

size_tenths : fmt_size 1572864 ≡ codes "1.5 MB"
unfolding fmt_size
size_tenths = refl

-- Just below the next unit.
size_edge : fmt_size 1048575 ≡ codes "1024 KB"
unfolding fmt_size
size_edge = refl

size_missing : fmt_bytes none ≡ codes "0"
unfolding fmt_bytes
size_missing = refl

size_accuracy_example :
    (number name : Text) × (unit : ℕ) × (fmt_size 1572864 ≡ number ++ (b' ' ∷ name))
    × Memᴰ (unit, name) size_units
    × Reads 1572864 unit number
size_accuracy_example = size_accuracy 1572864 (omega arith) (omega arith)
