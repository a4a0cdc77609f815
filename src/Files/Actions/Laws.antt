-- ===== src/Files/Actions/Laws.antt =====
-- Which paths the commands send, and in which directory.
use claude_docker.Common.{
  ℕ, suc, Bool, true, false, not, ◌||◌, Option, none, some, List, [], ◌∷◌, ◌++◌, map, take,
  get_elem?, ◌≡◌, refl, ap, sym, ◌∙◌, inl, inr, arith, Bool-cases, ◌+◌, zero, ◌⊎◌, if◌then◌else◌,
}
use claude_docker.Text.{Text, truthy, text_eq, split, pop}
use claude_docker.Text.Laws.{split_of_free, split-append, pop-append}
use claude_docker.Api.{is_ok}
use claude_docker.Files.FilePath.{join, parent}
use claude_docker.Files.FilePath.Laws.{NoSlash, parent-join}
use claude_docker.Files.Kind.{Entry}
use claude_docker.Files.View.{View, go}
use claude_docker.Files.Actions.{
  Round, Ending, finished, refused, threw, Loop, after_answer, delete_loop, rename_first,
  rename_selected, rename_done, move_onto, dragged, Upload, Sent, upload_loop, drop_loop,
}

-- The requests and the end of a loop over `names` in the directory `d`: if it finished, the path of
-- every name was sent; otherwise the names up to one, and this one was refused by an answer that is
-- no success, or threw.
abbrev pub Explains : Text → List Text → List Text → Ending → Type 0
Explains d names requests finished = requests ≡ map (join d) names
Explains d names requests (refused n status) =
    (done : List Text) × (left : List Text) × (names ≡ done ++ (n ∷ left))
    × (requests ≡ map (join d) (done ++ (n ∷ [])))
    × (is_ok status ≡ false)
Explains d names requests threw =
    (done : List Text) × (n : Text) × (left : List Text) × (names ≡ done ++ (n ∷ left))
    × (requests ≡ map (join d) (done ++ (n ∷ [])))

Explains-cons :
    (d n : Text) (names requests : List Text) (e : Ending)
    → Explains d names requests e
    → Explains d (n ∷ names) (join d n ∷ requests) e
Explains-cons d n names requests finished h = ap (join d n ∷◌) h
Explains-cons d n names requests (refused m status) (done, left, a, b, c) =
    (n ∷ done, left, ap (n ∷◌) a, ap (join d n ∷◌) b, c)
Explains-cons d n names requests threw (done, m, left, a, b) =
    (n ∷ done, m, left, ap (n ∷◌) a, ap (join d n ∷◌) b)

after_answer-Explains :
    (d n : Text) (names : List Text) (status : Option ℕ) (rest : Loop)
    → Explains d names rest.requests rest.ending
    → let l = after_answer (join d n) n status rest in Explains d (n ∷ names) l.requests l.ending
after_answer-Explains d n names none rest h = ([], n, names, refl, refl)
after_answer-Explains d n names (some status) rest h = elim (Bool-cases (is_ok status)) [
  | inl ok ↦ rw ok (Explains-cons d n names rest.requests rest.ending h)
  | inr bad ↦ rw bad ([], names, refl, refl, bad)
]

-- As long as the user stays in the directory `d`, the loop of the delete command sends the paths of
-- the selected names in `d`, in order, up to the end or to the first that fails.
pub delete_loop-Explains :
    (rounds : ℕ → Round) (d : Text) (k : ℕ) (names : List Text)
    → ((j : ℕ) → (rounds j).cwd ≡ d)
    → let l = delete_loop rounds k names in Explains d names l.requests l.ending
unfolding delete_loop
delete_loop-Explains rounds d k [] stay = refl
delete_loop-Explains rounds d k (n ∷ names) stay = rw (stay k) (
    after_answer-Explains d n names (rounds k).status (delete_loop rounds (suc k) names)
      (delete_loop-Explains rounds d (suc k) names stay))

after_answer-get :
    (path n : Text) (status : Option ℕ) (rest : Loop) (k : ℕ) {r : Text}
    → get_elem? (after_answer path n status rest).requests k ≡ some r
    → ((k ≡ 0) × (r ≡ path)) ⊎ ((j : ℕ) × (k ≡ suc j) × (get_elem? rest.requests j ≡ some r))
after_answer-get path n none rest zero e = inl (refl, cc)
after_answer-get path n none rest (suc k) e = cc
after_answer-get path n (some status) rest zero e = inl (refl, ground arith)
after_answer-get path n (some status) rest (suc k) e = inr (k, refl, ground arith)

-- Every request of a delete is for the selected name at its place, in the directory in which the
-- user is at that moment, which need not be the one in which the names were selected.
pub delete_follows_user :
    (rounds : ℕ → Round) (i : ℕ) (names : List Text) (k : ℕ) {r : Text}
    → get_elem? (delete_loop rounds i names).requests k ≡ some r
    → (n : Text) × (get_elem? names k ≡ some n) × (r ≡ join (rounds (i + k)).cwd n)
unfolding delete_loop
delete_follows_user rounds i [] k e = cc
delete_follows_user rounds i (n ∷ names) k {r} e =
    let rest = delete_loop rounds (suc i) names in
    elim (after_answer-get (join (rounds i).cwd n) n (rounds i).status rest k e) [
      | inl (z, p) ↦
          let same : i + k ≡ i = omega (arith, z) in
          (n, rw z refl, p ∙ ap (λ q. join (rounds q).cwd n) (sym same))
      | inr (j, s, m) ↦
          let (n', g, p) = delete_follows_user rounds (suc i) names j m in
          let same : suc i + j ≡ i + k = omega (arith, s) in
          (n', rw s g, p ∙ ap (λ q. join (rounds q).cwd n') same)
    ]

-- Renaming the first selected entry, whose name is not empty and has no slash, to a name without a
-- slash sends two paths of the current directory, unless the new name is the old one, or empty, or
-- the prompt was cancelled; and after the rest of the command nothing is selected.
pub rename_in_directory :
    (s : View) (name to : Text) (more : List Text)
    → s.selected ≡ name ∷ more
    → NoSlash name
    → NoSlash to
    → truthy name ≡ true
    → (rename_selected (some to) s ≡ (
        if not (truthy to) || text_eq to name
        then none
        else some (record { source = join s.cwd name; target = join s.cwd to })))
      × (rename_selected none s ≡ none)
      × (parent (join s.cwd name) ≡ s.cwd)
      × (parent (join s.cwd to) ≡ s.cwd)
      × ((rename_done to s).selected ≡ [])
unfolding rename_selected rename_done go
rename_in_directory s name to more sel hn ht t = (
  rw sel (unfold rename_first in rw t),
  rw sel (unfold rename_first in refl),
  parent-join s.cwd name hn,
  parent-join s.cwd to ht,
  refl,
)

truthy-join : (dir name : Text) → truthy name ≡ true → truthy (join dir name) ≡ true
unfolding join
truthy-join [] name h = h
truthy-join (c ∷ dir) name h = refl

pop-join : (dir name : Text) → NoSlash name → pop (split b'/' (join dir name)) ≡ name
unfolding join
pop-join [] name h = rw (split_of_free b'/' name h) (unfold pop in refl)
pop-join (c ∷ dir) name h =
    rw (split-append b'/' (c ∷ dir) name, split_of_free b'/' name h)
      (pop-append (split b'/' (c ∷ dir)) name)

-- Dropping an entry, whose name is not empty and has no slash, on a directory of the same list moves
-- it into that directory under its name.
pub move_into_directory :
    (cwd : Text) (e f : Entry)
    → NoSlash f.name
    → truthy f.name ≡ true
    → (move_onto cwd e (dragged cwd f)
        ≡ some (record { source = join cwd f.name; target = join (join cwd e.name) f.name }))
      × (parent (join (join cwd e.name) f.name) ≡ join cwd e.name)
unfolding move_onto
move_into_directory cwd e f h t =
    (rw (truthy-join cwd f.name t, pop-join cwd f.name h), parent-join (join cwd e.name) f.name h)

-- The files whose upload fails.
abbrev pub failing : (ℕ → Upload) → ℕ → List Text → List Text
failing rounds k [] = []
failing rounds k (f ∷ files) =
    let rest = failing rounds (suc k) files in if is_ok (rounds k).status then rest else f ∷ rest

abbrev pub is_empty : List Text → Bool
is_empty [] = true
is_empty (_ ∷ _) = false

-- The files up to the first whose upload fails, and that one.
abbrev pub upto_failing : (ℕ → Upload) → ℕ → List Text → List Text
upto_failing rounds k [] = []
upto_failing rounds k (f ∷ files) =
    let rest = upto_failing rounds (suc k) files in
    if is_ok (rounds k).status then f ∷ rest else f ∷ []

-- The two ways to upload differ after a failure. The toolbar's stops there: it sends the files up to
-- the first that fails, shows that failure alone, and loads the list again only if none fails. A
-- drop sends every file, shows every failure, and loads the list again in any case.
pub upload_policies :
    (rounds : ℕ → Upload) (k : ℕ) (files : List Text)
    → (map (λ (x : Sent). x.file) (upload_loop rounds k files).sent ≡ upto_failing rounds k files)
      × ((upload_loop rounds k files).alerts ≡ take 1 (failing rounds k files))
      × ((upload_loop rounds k files).refreshed ≡ is_empty (failing rounds k files))
      × (map (λ (x : Sent). x.file) (drop_loop rounds k files).sent ≡ files)
      × ((drop_loop rounds k files).alerts ≡ failing rounds k files)
      × ((drop_loop rounds k files).refreshed ≡ true)
unfolding upload_loop drop_loop
upload_policies rounds k [] = (refl, refl, refl, refl, refl, refl)
upload_policies rounds k (f ∷ files) =
    let (a, b, c, d, e, g) = upload_policies rounds (suc k) files in
    elim (Bool-cases (is_ok (rounds k).status)) [
      | inl ok ↦ rw ok (ap (f ∷◌) a, b, c, ap (f ∷◌) d, e, g)
      | inr bad ↦ rw bad (refl, refl, refl, ap (f ∷◌) d, ap (f ∷◌) e, g)
    ]
