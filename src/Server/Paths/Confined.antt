-- ===== src/Server/Paths/Confined.antt =====
-- What Resolve of backend/internal/files/resolve.go accepts lies below the workspace.
use claude_docker.Common.{
  true, false, not, ◌||◌, List, [], ◌∷◌, ◌++◌, ◌≡◌, ◌≢◌, ◌⊎◌, inl, inr, refl, sym, ap, ◌∙◌, arith,
  All, append_assoc, append-nil, Bool-cases, if_ind, subst,
}
use claude_docker.Text.{Text, text_eq, truthy, split, pop, is_prefix}
use claude_docker.Text.Laws.{split-append, eq_of_text_eq, pop-append}
use claude_docker.Server.Paths.{
  dot, is_abs, absolute, clean, join_paths, ends_in_slash, is_under, Looked, real, missing,
  unreadable, Resolved, resolved, is_absolute, escapes, is_outside, windows_abs, looked_up,
  check_joined, resolve,
}
use claude_docker.Server.Paths.Cleaned.{
  IsPlain, elements, split-absolute, clean-IsPlain, clean-absolute,
}

after_prefix : (p s : Text) → is_prefix p s ≡ true → (t : Text) × (s ≡ p ++ t)
after_prefix [] s h = (s, refl)
after_prefix (c ∷ p) [] h = cc
after_prefix (c ∷ p) (d ∷ s) h =
    let (t, e) = after_prefix p s (ground arith) in (t, ground (arith, e))

slash_last : (s : Text) → ends_in_slash s ≡ true → (t : Text) × (s ≡ t ++ (b'/' ∷ []))
slash_last [] h = cc
slash_last (c ∷ []) h = ([], ground arith)
slash_last (c ∷ d ∷ s) h = let (t, e) = slash_last (d ∷ s) h in (c ∷ t, ap (c ∷◌) e)

pop-plain : (r : Text) (rs : List Text) → All IsPlain (r ∷ rs) → truthy (pop (r ∷ rs)) ≡ true
unfolding pop
pop-plain r [] ((named, _, _, _), h) = named
pop-plain r (q ∷ rs) (p, h) = pop-plain q rs h

-- A path of plain names, one at least, does not end in a slash.
pub no_slash_last :
    (r : Text) (rs : List Text) → All IsPlain (r ∷ rs) → ends_in_slash (absolute (r ∷ rs)) ≡ false
unfolding pop split
no_slash_last r rs h = elim (Bool-cases (ends_in_slash (absolute (r ∷ rs)))) [
  | inr other ↦ other
  | inl ends ↦
      let (t, e) = slash_last (absolute (r ∷ rs)) ends in
      let parts : [] ∷ r ∷ rs ≡ split b'/' t ++ ([] ∷ []) =
        sym (split-absolute (r ∷ rs) h) ∙ ap (split b'/') e ∙ split-append b'/' t [] in
      let last : pop (r ∷ rs) ≡ [] = ap pop parts ∙ pop-append (split b'/' t) [] in
      absurd (true_false (sym (pop-plain r rs h) ∙ ap truthy last))
]
  where
    true_false : true ≡ false → ⊥
    true_false e = cc

-- The names below the root.
below :
    (r : Text) (rs out : List Text) (vs : List Text)
    → truthy r ≡ true
    → elements out ≡ (r ∷ rs) ++ vs
    → out ≡ (r ∷ rs) ++ vs
below r rs [] vs named e = cc
below r rs (w ∷ out) vs named e = e

resolved_same : {p q : Text} → resolved p ≡ resolved q → p ≡ q
resolved_same e = cc

refused_not : {p : Text} {R : Type 0} (x : Resolved) → x ≢ resolved p → x ≡ resolved p → R
refused_not x n e = absurd (n e)

tail_of : {xs ys : List Text} → [] ∷ xs ≡ [] ∷ ys → xs ≡ ys
tail_of e = cc

All-suffix : (xs ys : List Text) → All IsPlain (xs ++ ys) → All IsPlain ys
All-suffix [] ys h = h
All-suffix (x ∷ xs) ys (p, h) = All-suffix xs ys h

-- Below a root of plain names, one at least.
module _ (r : Text) (rs : List Text) (plain : All IsPlain (r ∷ rs)) where
  -- The path is the root's, or that of plain names below it.
  abbrev pub IsInside : Text → Type 0
  IsInside p = (ws : List Text) × All IsPlain ws × (p ≡ absolute ((r ∷ rs) ++ ws))

  under-IsInside :
      (out : List Text)
      → All IsPlain out
      → is_under (absolute out) (absolute (r ∷ rs)) ≡ true
      → IsInside (absolute out)
  unfolding is_under
  under-IsInside out h u = elim (Bool-cases (text_eq (absolute out) (absolute (r ∷ rs)))) [
    | inl same ↦ ([], tt, eq_of_text_eq _ _ same ∙ ap absolute (sym (append-nil (r ∷ rs))))
    | inr other ↦
        let (t, e) =
          after_prefix (absolute (r ∷ rs) ++ (b'/' ∷ [])) (absolute out)
            (rw (other, no_slash_last r rs plain) at u) in
        let rest = split b'/' t in
        let parts : [] ∷ elements out ≡ [] ∷ ((r ∷ rs) ++ rest) =
          sym (split-absolute out h)
          ∙ ap (split b'/') (e ∙ append_assoc (absolute (r ∷ rs)) (b'/' ∷ []) t)
          ∙ split-append b'/' (absolute (r ∷ rs)) t
          ∙ ap (◌++ rest) (split-absolute (r ∷ rs) plain) in
        let same = below r rs out rest plain.0.0 (tail_of parts) in
        (rest, All-suffix (r ∷ rs) rest (subst (All IsPlain) same h), ap absolute same)
  ]

  -- The root itself, a path that does not exist, or one that is really below the root.
  abbrev pub IsKept : (Text → Looked) → Text → Type 0
  IsKept eval p =
      (p ≡ absolute (r ∷ rs))
      ⊎ (eval p ≡ missing)
      ⊎ ((q : Text) × (eval p ≡ real q) × (is_under q (absolute (r ∷ rs)) ≡ true))

  looked_up-IsKept :
      (eval : Text → Looked) (l : Looked) (joined p : Text)
      → eval joined ≡ l
      → looked_up l joined (absolute (r ∷ rs)) ≡ resolved p
      → (joined ≡ p) × IsKept eval joined
  looked_up-IsKept eval unreadable joined p e h = cc
  looked_up-IsKept eval missing joined p e h = (cc, inr (inl e))
  looked_up-IsKept eval (real q) joined p e h = elim (Bool-cases (is_under q (absolute (r ∷ rs)))) [
    | inl u ↦ (resolved_same (rw u at h), inr (inr (q, e, u)))
    | inr out ↦ refused_not is_outside (λ k. cc) (rw out at h)
  ]

  checked-IsInside :
      (eval : Text → Looked) (out : List Text) (p : Text)
      → All IsPlain out
      → check_joined eval (absolute out) (absolute (r ∷ rs)) ≡ resolved p
      → IsInside p × IsKept eval p
  checked-IsInside eval out p h c =
      elim (Bool-cases (is_under (absolute out) (absolute (r ∷ rs)))) [
        | inl u ↦
            let (same, kept) =
              looked_up-IsKept eval (eval (absolute out)) (absolute out) p refl (rw u at c) in
            (subst IsInside same (under-IsInside out h u), subst (IsKept eval) same kept)
        | inr other ↦ refused_not escapes (λ k. cc) (rw other at c)
      ]

  -- Whatever path a request names, and whatever links there are: a path that Resolve returns has the
  -- names of the root and then names of directory entries, none of them `.` or `..`, and it is the
  -- root, or does not exist, or really lies below the root.
  pub resolve-IsInside :
      (eval : Text → Looked) (rel p : Text)
      → resolve eval (absolute (r ∷ rs)) rel ≡ resolved p
      → IsInside p × IsKept eval p
  unfolding resolve join_paths
  resolve-IsInside eval rel p h =
      let root = absolute (r ∷ rs) in
      let at_root : root ≡ p → IsInside p × IsKept eval p =
        λ same. (([], tt, sym same ∙ ap absolute (sym (append-nil (r ∷ rs)))), inl (sym same)) in
      let (out, h_out, joined) = clean-IsPlain (root ++ (b'/' ∷ clean rel)) refl in
      let lower : check_joined eval (clean (root ++ (b'/' ∷ clean rel))) root ≡ resolved p
          → IsInside p × IsKept eval p =
        λ c. checked-IsInside eval out p h_out (rw joined at c) in
      if_ind {A = Resolved} (λ x. x ≡ resolved p → IsInside p × IsKept eval p)
        (text_eq (clean rel) dot || not (truthy (clean rel))) (λ _ e. at_root (resolved_same e))
        (λ _.
          if_ind {A = Resolved} (λ x. x ≡ resolved p → IsInside p × IsKept eval p)
            (is_abs (clean rel) || windows_abs (clean rel))
            (λ _.
              if_ind {A = Resolved} (λ x. x ≡ resolved p → IsInside p × IsKept eval p)
                (text_eq (clean rel) root) (λ _. checked-IsInside eval (r ∷ rs) p plain)
                (λ _. refused_not is_absolute (λ k. cc)))
            (λ _. lower))
        (rw (clean-absolute (r ∷ rs) plain) at h)
