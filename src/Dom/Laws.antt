-- ===== src/Dom/Laws.antt =====
-- What is read off elements, and that texts stay texts.
use claude_docker.Common.{
  ℕ, suc, ◌+◌, false, Option, none, some, List, [], ◌∷◌, ◌++◌, if◌then◌else◌, if_ind, ◌≡◌, refl, ap,
  ◌∙◌, arith,
}
use claude_docker.Text.{Text, codes, text_eq}
use claude_docker.Dom.{
  Node, Nodes, element, words, markup, end, child, append, Made, set_entry, set_entries, Kid,
  absent, string, node, add_kids, el,
}

-- `class` of an element.
abbrev pub class_of : List (Text × Text) → Text
class_of [] = []
class_of ((k, v) ∷ attrs) =
    let rest = class_of attrs in if text_eq k (codes "class") then v else rest

-- What can be clicked, in the order of the document: the handlers, with the classes of the elements.
unfoldable mutual
  pub clicks : {A : Type 0} → Node A → List (A × Text)
  clicks (element tag attrs none kids) = clicks_all kids
  clicks (element tag attrs (some act) kids) = (act, class_of attrs) ∷ clicks_all kids
  clicks (words s) = []
  clicks (markup s) = []

  pub clicks_all : {A : Type 0} → Nodes A → List (A × Text)
  clicks_all end = []
  clicks_all (child n ns) = clicks n ++ clicks_all ns

-- The elements of a tree, those counted that are made by `el`, and the pieces of innerHTML.
unfoldable mutual
  pub elements : {A : Type 0} → Node A → ℕ
  elements (element tag attrs act kids) = suc (elements_all kids)
  elements (words s) = 0
  elements (markup s) = 0

  pub elements_all : {A : Type 0} → Nodes A → ℕ
  elements_all end = 0
  elements_all (child n ns) = elements n + elements_all ns

unfoldable mutual
  pub pieces : {A : Type 0} → Node A → ℕ
  pieces (element tag attrs act kids) = pieces_all kids
  pieces (words s) = 0
  pieces (markup s) = 1

  pub pieces_all : {A : Type 0} → Nodes A → ℕ
  pieces_all end = 0
  pieces_all (child n ns) = pieces n + pieces_all ns

abbrev kid_elements : {A : Type 0} → List (Kid A) → ℕ
kid_elements [] = 0
kid_elements (absent ∷ kids) = kid_elements kids
kid_elements (string s ∷ kids) = kid_elements kids
kid_elements (node n ∷ kids) = elements n + kid_elements kids

abbrev kid_pieces : {A : Type 0} → List (Kid A) → ℕ
kid_pieces [] = 0
kid_pieces (absent ∷ kids) = kid_pieces kids
kid_pieces (string s ∷ kids) = kid_pieces kids
kid_pieces (node n ∷ kids) = pieces n + kid_pieces kids

-- No attribute is `html`.
abbrev pub IsPlain : List (Text × Text) → Type 0
IsPlain [] = Unit
IsPlain ((k, v) ∷ attrs) = (text_eq k (codes "html") ≡ false) × IsPlain attrs

module _ {A : Type 0} where
  append-elements :
      (ns : Nodes A) (n : Node A) → elements_all (append ns n) ≡ elements_all ns + elements n
  unfolding append elements
  append-elements end n = omega arith
  append-elements (child m ns) n = omega (arith, append-elements ns n)

  append-pieces : (ns : Nodes A) (n : Node A) → pieces_all (append ns n) ≡ pieces_all ns + pieces n
  unfolding append pieces
  append-pieces end n = omega arith
  append-pieces (child m ns) n = omega (arith, append-pieces ns n)

  add_kids-count :
      (kids : List (Kid A)) (ns : Nodes A)
      → (elements_all (add_kids kids ns) ≡ elements_all ns + kid_elements kids)
        × (pieces_all (add_kids kids ns) ≡ pieces_all ns + kid_pieces kids)
  unfolding add_kids elements pieces
  add_kids-count [] ns = (omega arith, omega arith)
  add_kids-count (absent ∷ kids) ns = add_kids-count kids ns
  add_kids-count (string s ∷ kids) ns =
      let (e, p) = add_kids-count kids (append ns (words s)) in
      (omega (arith, e, append-elements ns (words s)), omega (arith, p, append-pieces ns (words s)))
  add_kids-count (node n ∷ kids) ns =
      let (e, p) = add_kids-count kids (append ns n) in
      (omega (arith, e, append-elements ns n), omega (arith, p, append-pieces ns n))

  set_entries-kids :
      (attrs : List (Text × Text)) (e : Made A)
      → IsPlain attrs
      → (set_entries attrs e).kids ≡ e.kids
  unfolding set_entries set_entry
  set_entries-kids [] e h = refl
  set_entries-kids ((k, v) ∷ attrs) e (h, hs) =
      set_entries-kids attrs (set_entry (k, v) e) hs
      ∙ if_ind (λ (m : Made A). m.kids ≡ e.kids) (text_eq k (codes "class")) (λ _. refl)
          λ _.
            if_ind (λ (m : Made A). m.kids ≡ e.kids) (text_eq k (codes "onclick")) (λ _. refl)
              λ _.
                if_ind (λ (m : Made A). m.kids ≡ e.kids) (text_eq k (codes "html")) (λ html. cc)
                  (λ _. refl)

-- An element that `el` makes without the attribute `html` has the elements that are its children and
-- no other, and no HTML that is not theirs: a child that is a string, and an attribute's value, stay
-- text, whatever they hold.
pub el-counts :
    {A : Type 0} (tag : Text) (onclick : Option A) (attrs : List (Text × Text))
    (kids : List (Kid A))
    → IsPlain attrs
    → (elements (el tag onclick attrs kids) ≡ suc (kid_elements kids))
      × (pieces (el tag onclick attrs kids) ≡ kid_pieces kids)
unfolding el elements pieces
el-counts {A} tag onclick attrs kids h =
    let fresh : Made A = record { attributes = []; onclick = onclick; kids = end } in
    let none_yet = set_entries-kids attrs fresh h in
    let (e, p) = add_kids-count kids (set_entries attrs fresh).kids in
    (
      ap suc (e ∙ ap (λ ns. elements_all ns + kid_elements kids) none_yet ∙ omega arith),
      p ∙ ap (λ ns. pieces_all ns + kid_pieces kids) none_yet ∙ omega arith,
    )
