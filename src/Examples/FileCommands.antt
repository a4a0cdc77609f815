-- ===== src/Examples/FileCommands.antt =====
-- The commands that change files at a small directory.
use claude_docker.Common.{◌+◌, ℕ, [], ◌∷◌, get_elem?, ◌≡◌, refl, some, if◌then◌else◌, leb}
use claude_docker.Text.{Text, codes}
use claude_docker.Files.FilePath.{join}
use claude_docker.Files.Actions.{Round, delete_loop, Upload}
use claude_docker.Files.Actions.Laws.{Explains, delete_loop-Explains, delete_follows_user}

-- The user stays in `p`; the second request is refused.
abbrev in_p : ℕ → Round
in_p k = record { cwd = codes "p"; status = some (if leb k 0 then 204 else 404) }

delete_loop-Explains_example :
    let l = delete_loop in_p 0 (codes "x" ∷ codes "y" ∷ codes "z" ∷ []) in
    Explains (codes "p") (codes "x" ∷ codes "y" ∷ codes "z" ∷ []) l.requests l.ending
delete_loop-Explains_example =
    delete_loop-Explains in_p (codes "p") 0 (codes "x" ∷ codes "y" ∷ codes "z" ∷ []) (λ j. refl)

-- The user goes from `p` to `q` after the first request.
abbrev from_p_to_q : ℕ → Round
from_p_to_q k = record { cwd = if leb k 0 then codes "p" else codes "q"; status = some 204 }

delete_follows_user_example :
    (n : Text) × (get_elem? (codes "x" ∷ codes "y" ∷ []) 1 ≡ some n)
    × (join (codes "q") (codes "y") ≡ join (from_p_to_q (0 + 1)).cwd n)
unfolding delete_loop
delete_follows_user_example = delete_follows_user from_p_to_q 0 (codes "x" ∷ codes "y" ∷ []) 1 refl

-- The upload of the second file fails.
abbrev second_fails : ℕ → Upload
second_fails k = record { cwd = codes "p"; status = if leb k 0 then 200 else 0 }
