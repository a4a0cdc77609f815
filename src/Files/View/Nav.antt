-- ===== src/Files/View/Nav.antt =====
-- History: the invariant, and the browser's history that the index and the array stand for.
use claude_docker.Common.{
  suc, ◌+◌, ◌-◌, true, false, List, [], ◌∷◌, ◌++◌, ◌≡◌, ap, ◌∙◌, inl, inr, arith, Bool-cases, some,
  take, get_elem?, length, length-append, get_elem?-append_last, lt-length_of_get_elem?,
  if◌then◌else◌, ltb, ltb→lt,
}
use claude_docker.Text.{Text, truthy}
use claude_docker.Files.FilePath.{parent}
use claude_docker.Files.View.Trail.{
  Trail, visit, step_back, step_forward, rev_take, drop, trail_of, history_at-some, trail_of-push,
  trail_of-back, trail_of-no_past, trail_of-no_future, trail_of-forward,
}
use claude_docker.Files.View.{View, go, back, fwd, up}

-- The history has the current directory at its index.
abbrev pub AtCwd : View → Type 0
AtCwd s = get_elem? s.history s.hist_idx ≡ some s.cwd

go_push_fields :
    (p : Text) (s : View)
    → ((go p true s).cwd ≡ p)
      × ((go p true s).history ≡ take (suc s.hist_idx) s.history ++ (p ∷ []))
      × ((go p true s).hist_idx ≡ length (take (suc s.hist_idx) s.history ++ (p ∷ [])) - 1)
unfolding go
go_push_fields p s = ground arith

go_keep_fields :
    (p : Text) (s : View)
    → ((go p false s).cwd ≡ p)
      × ((go p false s).history ≡ s.history)
      × ((go p false s).hist_idx ≡ s.hist_idx)
unfolding go
go_keep_fields p s = ground arith

get_elem?-last :
    (xs : List Text) (y : Text) → get_elem? (xs ++ (y ∷ [])) (length (xs ++ (y ∷ [])) - 1) ≡ some y
get_elem?-last xs y =
    let last : length (xs ++ (y ∷ [])) - 1 ≡ length xs =
      omega (arith, length-append {0} xs (y ∷ [])) in
    rw last (get_elem?-append_last xs y)

pub go_push-AtCwd : (p : Text) (s : View) → AtCwd (go p true s)
go_push-AtCwd p s =
    let (c, h, i) = go_push_fields p s in
    rw (c, h, i) (get_elem?-last (take (suc s.hist_idx) s.history) p)

pub go_keep-AtCwd :
    (p : Text) (s : View) → get_elem? s.history s.hist_idx ≡ some p → AtCwd (go p false s)
go_keep-AtCwd p s e = let (c, h, i) = go_keep_fields p s in rw (c, h, i) e

pub back-AtCwd : (s : View) → AtCwd s → AtCwd (back s)
unfolding back
back-AtCwd s v = elim (Bool-cases (ltb 0 s.hist_idx)) [
  | inr no_past ↦ rw no_past v
  | inl past ↦ rw past (
      go_keep-AtCwd _ (record s { hist_idx = s.hist_idx - 1 })
        (history_at-some s.history (s.hist_idx - 1)
          (omega (arith, lt-length_of_get_elem? s.history s.hist_idx v))))
]

pub fwd-AtCwd : (s : View) → AtCwd s → AtCwd (fwd s)
unfolding fwd
fwd-AtCwd s v = elim (Bool-cases (ltb (s.hist_idx + 1) (length s.history))) [
  | inr no_future ↦ rw no_future v
  | inl future ↦ rw future (
      go_keep-AtCwd _ (record s { hist_idx = s.hist_idx + 1 })
        (history_at-some s.history (s.hist_idx + 1) (ltb→lt _ _ future)))
]

pub up-AtCwd : (s : View) → AtCwd s → AtCwd (up s)
unfolding up
up-AtCwd s v = elim (Bool-cases (truthy s.cwd)) [
  | inl below ↦ rw below (go_push-AtCwd _ s)
  | inr root ↦ rw root v
]

-- What the index and the array of FileView stand for.
unfoldable pub trail : View → Trail
trail s = record {
  past = rev_take s.hist_idx s.history [];
  here = s.cwd;
  future = drop (suc s.hist_idx) s.history;
}

trail-go_keep : (p : Text) (s : View) → trail (go p false s) ≡ trail_of s.history s.hist_idx p
unfolding trail
trail-go_keep p s = let (c, h, i) = go_keep_fields p s in rw (c, h, i)

-- Opening a directory visits it.
trail-go_push : (p : Text) (s : View) → AtCwd s → trail (go p true s) ≡ visit p (trail s)
unfolding trail
trail-go_push p s v =
    let (c, h, i) = go_push_fields p s in
    rw (c, h, i) (trail_of-push s.history s.hist_idx s.cwd p v)

-- Going back steps back, and does nothing at the first place.
trail-back : (s : View) → AtCwd s → trail (back s) ≡ step_back (trail s)
unfolding back
trail-back s v = elim (Bool-cases (ltb 0 s.hist_idx)) [
  | inr no_past ↦ rw no_past (unfold trail in trail_of-no_past s.history s.hist_idx s.cwd no_past)
  | inl past ↦
      rw (past, trail-go_keep)
        (unfold trail in trail_of-back s.history s.hist_idx s.cwd v (ltb→lt 0 s.hist_idx past))
]

trail-fwd : (s : View) → AtCwd s → trail (fwd s) ≡ step_forward (trail s)
unfolding fwd
trail-fwd s v = elim (Bool-cases (ltb (s.hist_idx + 1) (length s.history))) [
  | inr no_future ↦
      rw no_future (unfold trail in trail_of-no_future s.history s.hist_idx s.cwd no_future)
  | inl future ↦
      rw (future, trail-go_keep)
        (unfold trail in trail_of-forward s.history s.hist_idx s.cwd v (ltb→lt _ _ future))
]

-- If the history has the current directory at its index, the index and the array implement a
-- browser's history: opening a directory visits it and drops
-- the places after the current one, `back` and `fwd` step along it and do nothing at its ends, and
-- `up` visits the parent, except at the root, where it does nothing.
pub history-refines :
    (p : Text) (s : View)
    → AtCwd s
    → (trail (go p true s) ≡ visit p (trail s))
      × (trail (back s) ≡ step_back (trail s))
      × (trail (fwd s) ≡ step_forward (trail s))
      × (trail (up s) ≡ (if truthy s.cwd then visit (parent s.cwd) (trail s) else trail s))
unfolding up
history-refines p s v = (
  trail-go_push p s v,
  trail-back s v,
  trail-fwd s v,
  elim (Bool-cases (truthy s.cwd)) [
    | inl below ↦ rw below (trail-go_push (parent s.cwd) s v)
    | inr root ↦ rw root
  ],
)

-- Back from a directory just opened is where one was, and forward from there is the directory again.
pub fwd-back-go :
    (p : Text) (s : View)
    → AtCwd s
    → ((back (go p true s)).cwd ≡ s.cwd) × ((fwd (back (go p true s))).cwd ≡ p)
fwd-back-go p s v =
    let opened = go_push-AtCwd p s in
    let returned = back-AtCwd (go p true s) opened in
    let there = trail-go_push p s v in
    let home = trail-back (go p true s) opened ∙ ap step_back there in
    let again = trail-fwd (back (go p true s)) returned ∙ ap step_forward home in
    (
      unfold trail in ap (λ (t : Trail). t.here) home,
      unfold trail in ap (λ (t : Trail). t.here) again,
    )
