-- ===== src/Server/Paths/Cleaned.antt =====
-- What filepath.Clean and filepath.Join leave of a path.
use claude_docker.Common.{
  Bool, true, false, not, ◌||◌, List, [], ◌∷◌, ◌++◌, ◌≡◌, refl, sym, ap, ◌∙◌, arith, All,
  All-append, append_assoc, append-nil, Bool-cases, if_ind, ◌==◌, inl, inr,
}
use claude_docker.Text.{Text, text_eq, truthy, split, join_with, drop_last, includes_unit}
use claude_docker.Text.Laws.{split-cons, split-append, split-join_with}
use claude_docker.Server.Paths.{
  dot, dot_dot, at_top, go_up, clean_element, clean_elements, is_abs, absolute, clean, join_paths,
}

-- A name of a directory entry: not empty, without a slash, and neither `.` nor `..`.
abbrev pub IsPlain : Text → Type 0
IsPlain w =
    (truthy w ≡ true)
    × (includes_unit b'/' w ≡ false)
    × (text_eq w dot ≡ false)
    × (text_eq w dot_dot ≡ false)

abbrev pub HasNoSlash : Text → Type 0
HasNoSlash w = includes_unit b'/' w ≡ false

split-HasNoSlash : (s : Text) → All HasNoSlash (split b'/' s)
unfolding split includes_unit
split-HasNoSlash [] = (refl, tt)
split-HasNoSlash (c ∷ s) =
    let (w, ws, e) = split-cons b'/' s in
    let (free, later) : HasNoSlash w × All HasNoSlash ws = rw e at (split-HasNoSlash s) in
    elim (Bool-cases (c == b'/')) [
      | inl same ↦ rw (same, e) (refl, (free, later))
      | inr other ↦ rw (other, e) (rw other free, later)
    ]

All-drop_last : (ws : List Text) → All IsPlain ws → All IsPlain (drop_last ws)
unfolding drop_last
All-drop_last [] h = tt
All-drop_last (w ∷ []) h = tt
All-drop_last (w ∷ v ∷ ws) (p, h) = (p, All-drop_last (v ∷ ws) h)

go_up-IsPlain : (out : List Text) → All IsPlain out → All IsPlain (go_up true out)
go_up-IsPlain out h = if_ind (All IsPlain) (at_top out) (λ _. h) (λ _. All-drop_last out h)

clean_element-IsPlain :
    (out : List Text) (w : Text)
    → All IsPlain out
    → HasNoSlash w
    → All IsPlain (clean_element true out w)
unfolding clean_element
clean_element-IsPlain out w h free =
    if_ind (All IsPlain) (not (truthy w) || text_eq w dot) (λ _. h)
      λ named.
        if_ind (All IsPlain) (text_eq w dot_dot) (λ _. go_up-IsPlain out h)
          λ other. All-append IsPlain out (w ∷ []) h ((ground arith, free, ground arith, other), tt)

clean_elements-IsPlain :
    (out ws : List Text)
    → All IsPlain out
    → All HasNoSlash ws
    → All IsPlain (clean_elements true out ws)
clean_elements-IsPlain out [] h k = h
clean_elements-IsPlain out (w ∷ ws) h (free, k) =
    clean_elements-IsPlain (clean_element true out w) ws (clean_element-IsPlain out w h free) k

-- A path that is absolute is cleaned to one of plain names.
pub clean-IsPlain :
    (s : Text) → is_abs s ≡ true → (ws : List Text) × All IsPlain ws × (clean s ≡ absolute ws)
unfolding clean
clean-IsPlain s h = (
  clean_elements true [] (split b'/' s),
  clean_elements-IsPlain [] (split b'/' s) tt (split-HasNoSlash s),
  rw h refl,
)

clean_element-plain :
    (rooted : Bool) (out : List Text) (w : Text)
    → IsPlain w
    → clean_element rooted out w ≡ out ++ (w ∷ [])
unfolding clean_element
clean_element-plain rooted out w (named, free, one, two) = rw (named, one, two) refl

-- Plain names are kept.
pub clean_elements-plain :
    (rooted : Bool) (out ws : List Text) → All IsPlain ws → clean_elements rooted out ws ≡ out ++ ws
clean_elements-plain rooted out [] h = sym (append-nil out)
clean_elements-plain rooted out (w ∷ ws) (p, h) =
    rw (clean_element-plain rooted out w p)
      (clean_elements-plain rooted (out ++ (w ∷ [])) ws h ∙ append_assoc out (w ∷ []) ws)

All-HasNoSlash : (ws : List Text) → All IsPlain ws → All HasNoSlash ws
All-HasNoSlash [] h = tt
All-HasNoSlash (w ∷ ws) ((_, free, _, _), h) = (free, All-HasNoSlash ws h)

-- The elements of a joined list of names.
abbrev pub elements : List Text → List Text
elements [] = [] ∷ []
elements (w ∷ ws) = w ∷ ws

pub split-names : (ws : List Text) → All IsPlain ws → split b'/' (join_with b'/' ws) ≡ elements ws
split-names [] h = unfold split join_with in refl
split-names (w ∷ ws) h = split-join_with b'/' w ws (All-HasNoSlash (w ∷ ws) h)

pub split-absolute : (ws : List Text) → All IsPlain ws → split b'/' (absolute ws) ≡ [] ∷ elements ws
split-absolute ws h =
    split-append b'/' [] (join_with b'/' ws) ∙ (unfold split in ap ([] ∷◌) (split-names ws h))

skip_empty :
    (rooted : Bool) (out ws : List Text)
    → clean_elements rooted out ([] ∷ ws) ≡ clean_elements rooted out ws
unfolding clean_element
skip_empty rooted out ws = refl

clean_elements-elements :
    (rooted : Bool) (out ws : List Text)
    → All IsPlain ws
    → clean_elements rooted out (elements ws) ≡ out ++ ws
clean_elements-elements rooted out [] h = skip_empty rooted out [] ∙ sym (append-nil out)
clean_elements-elements rooted out (w ∷ ws) h = clean_elements-plain rooted out (w ∷ ws) h

-- A path of plain names is clean.
pub clean-absolute : (ws : List Text) → All IsPlain ws → clean (absolute ws) ≡ absolute ws
unfolding clean
clean-absolute ws h =
    rw (split-absolute ws h)
      (ap absolute (skip_empty true [] (elements ws) ∙ clean_elements-elements true [] ws h))

pub is_abs-names :
    (w : Text) (ws : List Text) → IsPlain w → is_abs (join_with b'/' (w ∷ ws)) ≡ false
unfolding join_with includes_unit
is_abs-names [] ws (named, _, _, _) = cc
is_abs-names (c ∷ w) [] (_, free, _, _) = ground arith
is_abs-names (c ∷ w) (v ∷ ws) (_, free, _, _) = ground arith

pub clean-names :
    (w : Text) (ws : List Text)
    → All IsPlain (w ∷ ws)
    → clean (join_with b'/' (w ∷ ws)) ≡ join_with b'/' (w ∷ ws)
unfolding clean
clean-names w ws h =
    rw (is_abs-names w ws h.0, split-names (w ∷ ws) h, clean_elements-plain false [] (w ∷ ws) h)
      refl

clean_elements-append :
    (rooted : Bool) (out ws vs : List Text)
    → clean_elements rooted out (ws ++ vs) ≡ clean_elements rooted (clean_elements rooted out ws) vs
clean_elements-append rooted out [] vs = refl
clean_elements-append rooted out (w ∷ ws) vs =
    clean_elements-append rooted (clean_element rooted out w) ws vs

-- Joining two paths of plain names.
pub join_paths-names :
    (rs ws : List Text)
    → All IsPlain rs
    → All IsPlain ws
    → join_paths (absolute rs) (join_with b'/' ws) ≡ absolute (rs ++ ws)
unfolding join_paths clean
join_paths-names rs ws h k =
    let both : clean_elements true [] (elements rs ++ elements ws) ≡ rs ++ ws =
      clean_elements-append true [] (elements rs) (elements ws)
      ∙ ap (λ out. clean_elements true out (elements ws)) (clean_elements-elements true [] rs h)
      ∙ clean_elements-elements true rs ws k in
    rw (split-append b'/' (absolute rs) (join_with b'/' ws), split-absolute rs h, split-names ws k)
      (ap absolute (skip_empty true [] (elements rs ++ elements ws) ∙ both))
