-- ===== src/App/Mounted/Keys.antt =====
-- What is left of the pages that were visited, and what a key does then.
use claude_docker.Common.{ℕ, zero, suc, List, [], ◌∷◌}
use claude_docker.Files.View.{View}
use claude_docker.Terminal.State
use claude_docker.App.{terminal}
use claude_docker.App.Mounted.{Mounted, MountEvent, visited, files_loaded}

abbrev pub loads : List MountEvent → ℕ
loads [] = 0
loads (visited p ∷ es) = loads es
loads (files_loaded ∷ es) = suc (loads es)

abbrev pub terminal_visits : List MountEvent → ℕ
terminal_visits [] = 0
terminal_visits (visited terminal ∷ es) = suc (terminal_visits es)
terminal_visits (_ ∷ es) = terminal_visits es

abbrev pub repeat : {A : Type 0} → ℕ → A → List A
repeat zero a = []
repeat (suc n) a = a ∷ repeat n a
