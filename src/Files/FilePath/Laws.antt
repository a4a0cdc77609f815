-- ===== src/Files/FilePath/Laws.antt =====
-- Paths: going up undoes going down, and the breadcrumbs are the directories on the way.
use claude_docker.Common.{
  ◌<◌, true, false, List, [], ◌∷◌, ◌++◌, ◌≡◌, refl, ap, length, arith, All, All-append,
  length-append, sym, map,
}
use claude_docker.Text.{Text, truthy, split, join_with, drop_last, includes_unit}
use claude_docker.Text.Laws.{
  join_with-split, split_of_free, split-append, split-join_with, drop_last-append,
  join_with-append_last,
}
use claude_docker.Escape.Laws.{decode, decode-esc}
use claude_docker.Files.FilePath.{join, parent, Crumb, crumbs_from, path_parts, crumbs}

-- A name of a directory entry: it has no slash.
abbrev pub NoSlash : Text → Type 0
NoSlash s = includes_unit b'/' s ≡ false

-- The parent of the path of an entry, whose name has no slash, is the directory of the entry.
pub parent-join : (dir name : Text) → NoSlash name → parent (join dir name) ≡ dir
unfolding parent join
parent-join [] [] h = refl
parent-join [] (c ∷ name) h =
    rw (split_of_free b'/' (c ∷ name) h) (unfold drop_last join_with in refl)
parent-join (d ∷ dir) name h =
    rw (split-append b'/' (d ∷ dir) name, split_of_free b'/' name h, drop_last-append)
      (join_with-split b'/' (d ∷ dir))

-- A name that can stand in a path: not empty, and with no slash.
abbrev pub IsName : Text → Type 0
IsName s = (truthy s ≡ true) × NoSlash s

-- The directories on the way from `pre` down through `names`: each is the path of one more name.
abbrev pub descend : List Text → List Text → List Text
descend pre [] = []
descend pre (w ∷ ws) = join_with b'/' (pre ++ (w ∷ [])) ∷ descend (pre ++ (w ∷ [])) ws

truthy-join_with :
    (w : Text) (ws : List Text) → truthy w ≡ true → truthy (join_with b'/' (w ∷ ws)) ≡ true
unfolding join_with
truthy-join_with (c ∷ w) [] h = refl
truthy-join_with (c ∷ w) (v ∷ ws) h = refl
truthy-join_with [] ws h = cc

pub join-join_with :
    (pre : List Text) (w : Text)
    → All IsName pre
    → join (join_with b'/' pre) w ≡ join_with b'/' (pre ++ (w ∷ []))
unfolding join
join-join_with [] w h = unfold join_with in refl
join-join_with (v ∷ pre) w ((t, _), _) =
    rw (truthy-join_with v pre t) (sym (join_with-append_last b'/' v pre w))

crumbs_from-descend :
    (pre ws : List Text)
    → All IsName pre
    → All IsName ws
    → map (λ (c : Crumb). decode c.data_path) (crumbs_from (join_with b'/' pre) ws) ≡ descend pre ws
unfolding crumbs_from join
crumbs_from-descend pre [] h k = refl
crumbs_from-descend pre (w ∷ ws) h (k, ks) =
    rw (join-join_with pre w h, decode-esc)
      (ap (◌∷◌ (join_with b'/' (pre ++ (w ∷ []))))
        (crumbs_from-descend (pre ++ (w ∷ [])) ws (All-append IsName pre (w ∷ []) h (k, tt)) ks))

All-NoSlash : (ws : List Text) → All IsName ws → All NoSlash ws
All-NoSlash [] h = tt
All-NoSlash (w ∷ ws) ((_, n), h) = (n, All-NoSlash ws h)

path_parts-join_with : (ws : List Text) → All IsName ws → path_parts (join_with b'/' ws) ≡ ws
unfolding path_parts
path_parts-join_with [] h = unfold join_with in refl
path_parts-join_with (w ∷ ws) h =
    rw (truthy-join_with w ws h.0.0) (split-join_with b'/' w ws (All-NoSlash (w ∷ ws) h))

-- In a directory whose path is made of names that are not empty and have no slash, the paths that
-- the crumbs carry, as a browser reads them back from the HTML, are the root and then each
-- directory on the way down, the last one the directory itself.
pub crumbs-descend :
    (ws : List Text)
    → All IsName ws
    → map (λ (c : Crumb). decode c.data_path) (crumbs (join_with b'/' ws)) ≡ [] ∷ descend [] ws
unfolding crumbs decode
crumbs-descend ws h =
    rw (path_parts-join_with ws h)
      (ap (◌∷◌ []) (unfold join_with in crumbs_from-descend [] ws tt h))

length-join_with-drop_last :
    (v u : Text) (ws : List Text)
    → length (join_with b'/' (drop_last (v ∷ u ∷ ws))) < length (join_with b'/' (v ∷ u ∷ ws))
unfolding join_with drop_last
length-join_with-drop_last v u [] = omega (arith, length-append {0} v (b'/' ∷ u))
length-join_with-drop_last v u (x ∷ ws) = omega (
  arith,
  length-join_with-drop_last u x ws,
  length-append {0} v (b'/' ∷ join_with b'/' (drop_last (u ∷ x ∷ ws))),
  length-append {0} v (b'/' ∷ join_with b'/' (u ∷ x ∷ ws)),
)

length-parts :
    (ws : List Text)
    → 0 < length (join_with b'/' ws)
    → length (join_with b'/' (drop_last ws)) < length (join_with b'/' ws)
unfolding join_with drop_last
length-parts [] h = h
length-parts (w ∷ []) h = h
length-parts (w ∷ v ∷ ws) h = length-join_with-drop_last w v ws

-- Going up from a directory other than the root gives a shorter path, so repeated `up` ends at the
-- root.
pub length-parent : (dir : Text) → truthy dir ≡ true → length (parent dir) < length dir
unfolding parent
length-parent [] h = cc
length-parent (c ∷ s) h =
    let same = join_with-split b'/' (c ∷ s) in
    let shorter = length-parts (split b'/' (c ∷ s)) (rw same (omega arith)) in rw same at shorter
