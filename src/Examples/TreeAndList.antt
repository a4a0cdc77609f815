-- ===== src/Examples/TreeAndList.antt =====
-- A small tree, a small list, keys and previews, and the theorems at them.
use claude_docker.Common.{
  false, ◌++◌, none, some, ℕ, ◌+◌, true, List, [], ◌∷◌, if◌then◌else◌, ◌≡◌, ◌↔◌, refl, arith,
}
use claude_docker.Text.{Text, codes, text_eq, has}
use claude_docker.Api.{failed, get_json}
use claude_docker.Files.FilePath.{join}
use claude_docker.Files.Tree.{
  Tree, TreeEvent, asked, answered, cache_get, row_of, tree_node, tree_run, tree_step, tree_asked,
  tree_answered,
}
use claude_docker.Files.Tree.Drawn.{longest, paths, Shows, Named, tree_rows}
use claude_docker.Files.Keys.{KeyDown, command_of, act}
use claude_docker.Files.Session.{go_up}
use claude_docker.Files.Preview.{cut_text}
use claude_docker.Size.{decimal, round_div}
use claude_docker.Examples.SmallDirectory.{src}

-- The directories a and a/b, of which a is open.
abbrev subdirs : Text → List Text
subdirs path =
    if text_eq path []
    then codes "a" ∷ []
    else if text_eq path (codes "a")
    then codes "b" ∷ codes "c" ∷ []
    else []

abbrev opened : List Text
opened = codes "/" ∷ codes "a" ∷ []

subdirs-Named : Named subdirs opened []
unfolding has text_eq
subdirs-Named path [] h = absurd (ground arith)
subdirs-Named path (c ∷ d) h = refl

drawn_paths :
    paths (tree_node subdirs opened [] 3 0 (codes "workspace") [] true)
    ≡ [] ∷ codes "a" ∷ codes "a/b" ∷ codes "a/c" ∷ []
unfolding tree_node row_of has text_eq join
drawn_paths = refl

tree_rows_example :
    let rows = tree_node subdirs opened [] (longest opened + 2) 0 (codes "workspace") [] true in
    (tree_node subdirs opened [] (longest opened + 2 + 5) 0 (codes "workspace") [] true ≡ rows)
    × ((has (paths rows) (codes "a/b") ≡ true) ↔ Shows subdirs opened [] true [] (codes "a/b"))
tree_rows_example = tree_rows subdirs opened [] (codes "workspace") (codes "a/b") 5 subdirs-Named

abbrev loaded : Tree
loaded = record { cache = (codes "p", src ∷ []) ∷ []; sent = codes "p" ∷ [] }

abbrev tree_events : List TreeEvent
tree_events =
    asked (codes "p") ∷ asked (codes "q") ∷ answered (codes "q") failed ∷ asked (codes "q") ∷ []

q_asked_once : (tree_run tree_events loaded).sent ≡ codes "p" ∷ codes "q" ∷ []
unfolding tree_step tree_asked tree_answered cache_get get_json text_eq
q_asked_once = refl

abbrev no_date : ℕ → Text
no_date t = []

-- Backspace in the filter is left to the field; elsewhere it goes up.
abbrev backspace_in : Text → KeyDown
backspace_in tag = record {
  tag_name = tag;
  target_type = codes "text";
  alt = false;
  ctrl = false;
  meta = false;
  key = codes "Backspace";
}

backspace :
    (command_of (backspace_in (codes "INPUT")) ≡ none)
    × (command_of (backspace_in (codes "DIV")) ≡ some (act go_up, true))
unfolding command_of text_eq
backspace = (refl, refl)

cut_short : cut_text 2 (codes "abc") ≡ codes "ab" ++ (10 ∷ 10 ∷ codes "…[truncated 0KB shown 0KB]")
unfolding cut_text decimal round_div
cut_short = refl
