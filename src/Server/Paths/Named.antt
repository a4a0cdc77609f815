-- ===== src/Server/Paths/Named.antt =====
-- What Resolve of backend/internal/files/resolve.go makes of the paths that the page sends, and of a
-- path below a link.
use claude_docker.Common.{
  Bool, true, false, not, ◌||◌, List, [], ◌∷◌, ◌++◌, ◌≡◌, refl, sym, ap, ◌∙◌, arith, All,
  append_assoc, ==_refl,
}
use claude_docker.Text.{Text, text_eq, truthy, join_with, is_prefix}
use claude_docker.Server.Paths.{
  dot, absolute, ends_in_slash, is_under, Looked, real, missing, resolved, is_outside, windows_abs,
  looked_up, resolve,
}
use claude_docker.Server.Paths.Cleaned.{
  IsPlain, clean-absolute, clean-names, join_paths-names, is_abs-names,
}
use claude_docker.Server.Paths.Confined.{no_slash_last}

is_prefix-append : (p t : Text) → is_prefix p (p ++ t) ≡ true
is_prefix-append [] t = refl
is_prefix-append (c ∷ p) t = rw (==_refl c) (is_prefix-append p t)

join_with-append :
    (r w : Text) (rs ws : List Text)
    → join_with b'/' ((r ∷ rs) ++ (w ∷ ws))
      ≡ join_with b'/' (r ∷ rs) ++ (b'/' ∷ join_with b'/' (w ∷ ws))
unfolding join_with
join_with-append r w [] ws = refl
join_with-append r w (q ∷ rs) ws =
    ap (r ++◌) (ap (b'/' ∷◌) (join_with-append q w rs ws))
    ∙ sym (append_assoc r (b'/' ∷ join_with b'/' (q ∷ rs)) (b'/' ∷ join_with b'/' (w ∷ ws)))

-- More names make a longer path.
absolute-append :
    (r w : Text) (rs ws : List Text)
    → absolute ((r ∷ rs) ++ (w ∷ ws))
      ≡ (absolute (r ∷ rs) ++ (b'/' ∷ [])) ++ join_with b'/' (w ∷ ws)
absolute-append r w rs ws = ap (b'/' ∷◌) (
    join_with-append r w rs ws
    ∙ sym (append_assoc (join_with b'/' (r ∷ rs)) (b'/' ∷ []) (join_with b'/' (w ∷ ws))))

first_unit :
    (w : Text) (ws : List Text)
    → IsPlain w
    → windows_abs w ≡ false
    → windows_abs (join_with b'/' (w ∷ ws)) ≡ false
unfolding join_with
first_unit [] ws (named, _, _, _) h = cc
first_unit (c ∷ w) [] p h = h
first_unit (c ∷ w) (v ∷ ws) p h = h

no_dot_path :
    (w : Text) (ws : List Text)
    → IsPlain w
    → (text_eq (join_with b'/' (w ∷ ws)) dot || not (truthy (join_with b'/' (w ∷ ws)))) ≡ false
unfolding join_with text_eq
no_dot_path [] ws (named, _, _, _) = cc
no_dot_path (c ∷ w) [] (_, _, d, _) = rw d refl
no_dot_path (c ∷ []) (v ∷ ws) p = ground arith
no_dot_path (c ∷ b ∷ w) (v ∷ ws) p = ground arith

or_right : (b : Bool) {c : Bool} → c ≡ true → (b || c) ≡ true
or_right true h = refl
or_right false h = h

under_prefix :
    (root t p : Text)
    → ends_in_slash root ≡ false
    → p ≡ (root ++ (b'/' ∷ [])) ++ t
    → is_under p root ≡ true
unfolding is_under
under_prefix root t p e same =
    rw (e, same)
      (or_right (text_eq ((root ++ (b'/' ∷ [])) ++ t) root)
        (is_prefix-append (root ++ (b'/' ∷ [])) t))

module _ (r : Text) (rs : List Text) (plain : All IsPlain (r ∷ rs)) where
  is_under-below :
      (w : Text) (ws : List Text)
      → is_under (absolute ((r ∷ rs) ++ (w ∷ ws))) (absolute (r ∷ rs)) ≡ true
  is_under-below w ws =
      under_prefix (absolute (r ∷ rs)) (join_with b'/' (w ∷ ws)) _ (no_slash_last r rs plain)
        (absolute-append r w rs ws)

  -- A path of plain names that does not begin with a backslash is looked up below the root, name by
  -- name.
  pub resolve-names :
      (eval : Text → Looked) (w : Text) (ws : List Text)
      → All IsPlain (w ∷ ws)
      → windows_abs w ≡ false
      → let p = absolute ((r ∷ rs) ++ (w ∷ ws)) in
        resolve eval (absolute (r ∷ rs)) (join_with b'/' (w ∷ ws))
        ≡ looked_up (eval p) p (absolute (r ∷ rs))
  unfolding resolve
  resolve-names eval w ws h first =
      rw
        (
          clean-absolute (r ∷ rs) plain,
          clean-names w ws h,
          no_dot_path w ws h.0,
          is_abs-names w ws h.0,
          first_unit w ws h.0 first,
          join_paths-names (r ∷ rs) (w ∷ ws) plain h,
          is_under-below w ws,
        )
        refl

  -- Below a directory that is a link to a place outside, a path that is there is refused, but one
  -- that is not there is accepted, though what is created at it is created outside.
  pub missing-accepted :
      (eval : Text → Looked) (link name : Text) (target : Text)
      → IsPlain link
      → IsPlain name
      → windows_abs link ≡ false
      → eval (absolute ((r ∷ rs) ++ (link ∷ []))) ≡ real target
      → is_under target (absolute (r ∷ rs)) ≡ false
      → eval (absolute ((r ∷ rs) ++ (link ∷ name ∷ []))) ≡ missing
      → (resolve eval (absolute (r ∷ rs)) link ≡ is_outside)
        × (resolve eval (absolute (r ∷ rs)) (link ++ (b'/' ∷ name))
            ≡ resolved (absolute ((r ∷ rs) ++ (link ∷ name ∷ []))))
  unfolding join_with
  missing-accepted eval link name target pl pn first there out gone = (
    resolve-names eval link [] (pl, tt) first
        ∙ ap (λ l. looked_up l (absolute ((r ∷ rs) ++ (link ∷ []))) (absolute (r ∷ rs))) there
        ∙ rw out refl,
    resolve-names eval link (name ∷ []) (pl, (pn, tt)) first
        ∙ ap (λ l. looked_up l (absolute ((r ∷ rs) ++ (link ∷ name ∷ []))) (absolute (r ∷ rs)))
            gone,
  )
