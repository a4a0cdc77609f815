-- ===== src/Dom.antt =====
-- Elements of the page, and `el` of web/src/main.js, which makes them. What a click calls is a value
-- of a type of the caller's.
pub mod Laws
use claude_docker.Common.{ℕ, ◌+◌, Bool, Option, none, some, List, [], ◌∷◌, ◌++◌, if◌then◌else◌}
use claude_docker.Text.{Text, codes, text_eq}

-- A child is an element (with its tag, its attributes, `class` among them, its click handler and its
-- children), a text, or what the browser makes of a text given as innerHTML.
mutual
  pub data Node (A : Type 0) : Type 0 where
    element : Text → List (Text × Text) → Option A → Nodes A → Node A
    words : Text → Node A
    markup : Text → Node A

  pub data Nodes (A : Type 0) : Type 0 where
    end : Nodes A
    child : Node A → Nodes A → Nodes A

unfoldable pub append : {A : Type 0} → Nodes A → Node A → Nodes A
append end n = child n end
append (child m ns) n = child m (append ns n)

-- An element that is being made.
pub record Made (A : Type 0) : Type 0 where
  pub attributes : List (Text × Text)
  pub onclick : Option A
  pub kids : Nodes A

-- `e.setAttribute(k, v)`
abbrev pub set_attribute : Text → Text → List (Text × Text) → List (Text × Text)
set_attribute k v [] = (k, v) ∷ []
set_attribute k v ((j, w) ∷ attrs) =
    let rest = set_attribute k v attrs in if text_eq j k then (j, v) ∷ attrs else (j, w) ∷ rest

-- A round of the loop over `attrs`, for a value that is a string. (A string as `onclick` takes the
-- handler off.)
unfoldable pub set_entry : {A : Type 0} → Text × Text → Made A → Made A
set_entry (k, v) e =
    if text_eq k (codes "class")
    then record e { attributes = set_attribute (codes "class") v e.attributes }
    else if text_eq k (codes "onclick")
    then record e { onclick = none }
    else if text_eq k (codes "html")
    then record e { kids = child (markup v) end }
    else record e { attributes = set_attribute k v e.attributes }

unfoldable pub set_entries : {A : Type 0} → List (Text × Text) → Made A → Made A
set_entries [] e = e
set_entries (a ∷ attrs) e = set_entries attrs (set_entry a e)

-- An argument of `kids`.
pub data Kid (A : Type 0) : Type 0 where
  absent : Kid A
  string : Text → Kid A
  node : Node A → Kid A

unfoldable pub add_kids : {A : Type 0} → List (Kid A) → Nodes A → Nodes A
add_kids [] ns = ns
add_kids (absent ∷ kids) ns = add_kids kids ns
add_kids (string s ∷ kids) ns = add_kids kids (append ns (words s))
add_kids (node n ∷ kids) ns = add_kids kids (append ns n)

-- el(tag, attrs, ...kids), where a handler that `attrs` has as `onclick` stands before the other
-- attributes.
unfoldable pub el : {A : Type 0} → Text → Option A → List (Text × Text) → List (Kid A) → Node A
unfolding set_entry set_entries add_kids append
el tag onclick attrs kids =
    let made = set_entries attrs (record { attributes = []; onclick = onclick; kids = end }) in
    element tag made.attributes made.onclick (add_kids kids made.kids)
