-- ===== src/Server/Reached.antt =====
-- From the file manager, web/src/files.js, to the file, backend/internal/files/resolve.go.
use claude_docker.Common.{
  ℕ, true, false, Option, none, some, List, [], ◌∷◌, ◌++◌, map, ◌≡◌, refl, sym, ap, ◌∙◌, arith, All,
  All-append, append_assoc, Bool-cases, inl, inr,
}
use mathlib.Core.Option.{some-injective}
use claude_docker.Text.{Text, codes, join_with}
use claude_docker.Url.{Endpoint, route, file_url, points, points_after, is_high, is_low, utf8}
use claude_docker.Url.Escapes.{utf8_all}
use claude_docker.Url.Decode.{IsUnit}
use claude_docker.Url.Address.{read_address}
use claude_docker.Url.Query.{read_address-file_url, mapped_from}
use claude_docker.Files.FilePath.{join}
use claude_docker.Files.FilePath.Laws.{IsName, join-join_with}
use claude_docker.Server.Paths.{Looked, resolve, looked_up, absolute, windows_abs}
use claude_docker.Server.Paths.Cleaned.{IsPlain}
use claude_docker.Server.Paths.Named.{resolve-names}
use claude_docker.Server.FilesApi.{workspace_root, is_user_name}
use claude_docker.Server.FilesApi.Inside.{root-IsPlain, root-absolute, root_names}

utf8_all-append : (ps qs : List ℕ) → utf8_all (ps ++ qs) ≡ utf8_all ps ++ utf8_all qs
utf8_all-append [] qs = refl
utf8_all-append (p ∷ ps) qs =
    ap (utf8 p ++◌) (utf8_all-append ps qs)
    ∙ sym (append_assoc (utf8 p) (utf8_all ps) (utf8_all qs))

not_some : {x : List ℕ} {R : Type 0} → none ≡ some x → R
not_some e = cc

-- A slash between two strings stands between their code points.
points_after-slash :
    (o : Option ℕ) (s t : Text) (ps qs : List ℕ)
    → points_after o s ≡ some ps
    → points t ≡ some qs
    → points_after o (s ++ (b'/' ∷ t)) ≡ some (ps ++ (b'/' ∷ qs))
unfolding points_after
points_after-slash none [] t ps qs h k =
    rw k (ap (λ x. some (x ++ (b'/' ∷ qs))) (some-injective _ _ h))
points_after-slash (some c) [] t ps qs h k = cc
points_after-slash none (c ∷ s) t ps qs h k = elim (Bool-cases (is_high c)) [
  | inl high ↦ rw high (points_after-slash (some c) s t ps qs (rw high at h) k)
  | inr other ↦ elim (Bool-cases (is_low c)) [
    | inl low ↦ not_some (rw (other, low) at h)
    | inr plain ↦
        let (rest, e, wrote) = mapped_from (points_after none s) (rw (other, plain) at h) in
        rw (other, plain, points_after-slash none s t rest qs e k, wrote) refl
  ]
]
points_after-slash (some c) (d ∷ s) t ps qs h k = elim (Bool-cases (is_low d)) [
  | inr other ↦ not_some (rw other at h)
  | inl low ↦
      let (rest, e, wrote) = mapped_from (points_after none s) (rw low at h) in
      rw (low, points_after-slash none s t rest qs e k, wrote) refl
]

-- A name of an entry: its code units, its code points, and its bytes, which can stand in a path.
pub record Name : Type 0 where
  pub text : Text
  pub codepoints : List ℕ

abbrev pub bytes : Name → Text
bytes n = utf8_all n.codepoints

abbrev pub IsSound : Name → Type 0
IsSound n =
    All IsUnit n.text × (points n.text ≡ some n.codepoints) × IsName n.text × IsPlain (bytes n)

abbrev pub texts : List Name → List Text
texts ns = map (λ (n : Name). n.text) ns

abbrev pub all_bytes : List Name → List Text
all_bytes ns = map (λ (n : Name). bytes n) ns

-- The code points of the path of some names.
path_points :
    (n : Name) (ns : List Name)
    → All IsSound (n ∷ ns)
    → (ps : List ℕ) × (points (join_with b'/' (texts (n ∷ ns))) ≡ some ps)
      × (utf8_all ps ≡ join_with b'/' (all_bytes (n ∷ ns)))
unfolding join_with utf8
path_points n [] ((_, e, _, _), _) = (n.codepoints, e, refl)
path_points n (m ∷ ns) ((_, e, _, _), h) =
    let (ps, found, same) = path_points m ns h in
    (
      n.codepoints ++ (b'/' ∷ ps),
      points_after-slash none n.text (join_with b'/' (texts (m ∷ ns))) n.codepoints ps e found,
      utf8_all-append n.codepoints (b'/' ∷ ps) ∙ ap (λ r. bytes n ++ (b'/' ∷ r)) same,
    )

texts-IsUnit : (ns : List Name) → All IsSound ns → All IsUnit (join_with b'/' (texts ns))
unfolding join_with
texts-IsUnit [] h = tt
texts-IsUnit (n ∷ []) ((u, _, _, _), h) = u
texts-IsUnit (n ∷ m ∷ ns) ((u, _, _, _), h) =
    All-append IsUnit n.text (b'/' ∷ join_with b'/' (texts (m ∷ ns))) u
      (omega arith, texts-IsUnit (m ∷ ns) h)

texts-IsName : (ns : List Name) → All IsSound ns → All IsName (texts ns)
texts-IsName [] h = tt
texts-IsName (n ∷ ns) ((_, _, name, _), h) = (name, texts-IsName ns h)

all_bytes-IsPlain : (ns : List Name) → All IsSound ns → All IsPlain (all_bytes ns)
all_bytes-IsPlain [] h = tt
all_bytes-IsPlain (n ∷ ns) ((_, _, _, plain), h) = (plain, all_bytes-IsPlain ns h)

-- The names on the way to an entry: those of the directory, and its own.
abbrev pub way : List Name → Name → List Name
way [] n = n ∷ []
way (d ∷ ds) n = d ∷ (ds ++ (n ∷ []))

texts-way : (ds : List Name) (n : Name) → texts (way ds n) ≡ texts ds ++ (n.text ∷ [])
texts-way [] n = refl
texts-way (d ∷ ds) n = ap (d.text ∷◌) (after ds)
  where
    after : (ds : List Name) → texts (ds ++ (n ∷ [])) ≡ texts ds ++ (n.text ∷ [])
    after [] = refl
    after (d ∷ ds) = ap (d.text ∷◌) (after ds)

joined :
    (ds : List Name) (n : Name)
    → All IsSound ds
    → join (join_with b'/' (texts ds)) n.text ≡ join_with b'/' (texts (way ds n))
joined ds n h =
    join-join_with (texts ds) n.text (texts-IsName ds h)
    ∙ ap (join_with b'/') (sym (texts-way ds n))

module _ (r : Text) (rs : List Text) (plain : All IsPlain (r ∷ rs)) where
  one_request :
      (e : Endpoint) (eval : Text → Looked) (n : Name) (ns : List Name) (url : Text)
      → All IsSound (n ∷ ns)
      → windows_abs (bytes n) ≡ false
      → file_url e (join_with b'/' (texts (n ∷ ns))) ≡ some url
      → (path : Text) × (read_address url ≡ (route e, (codes "path", path) ∷ []))
        × (resolve eval (absolute (r ∷ rs)) path ≡ (
            let p = absolute ((r ∷ rs) ++ all_bytes (n ∷ ns)) in
            looked_up (eval p) p (absolute (r ∷ rs))))
  one_request e eval n ns url h first wrote =
      let (ps, found, same) = path_points n ns h in
      let (qs, found', reads) =
        read_address-file_url e (join_with b'/' (texts (n ∷ ns))) url (texts-IsUnit (n ∷ ns) h)
          wrote in
      (
        utf8_all qs,
        reads,
        ap (resolve eval (absolute (r ∷ rs)))
              (ap utf8_all (some-injective _ _ (sym found' ∙ found)) ∙ same)
            ∙ resolve-names r rs plain eval (bytes n) (all_bytes ns) (all_bytes-IsPlain (n ∷ ns) h)
                first,
      )

abbrev pub first_of : List Name → Name → Name
first_of [] n = n
first_of (d ∷ ds) n = d

way-IsSound : (ds : List Name) (n : Name) → All IsSound ds → IsSound n → All IsSound (way ds n)
way-IsSound [] n h k = (k, tt)
way-IsSound (d ∷ ds) n (p, h) k = (p, All-append IsSound ds (n ∷ []) h (k, tt))

-- For an entry of a directory that the user has gone down to, all names being strings that the server
-- has sent as UTF-8 and the first not beginning with a backslash: the query parameter that the
-- server reads from the address of any request for the path that the page joins is looked up below
-- the workspace of the user, at the names of the directories and of the entry, byte by byte.
pub entry_reached :
    (e : Endpoint) (eval : Text → Looked) (user : Text) (ds : List Name) (n : Name) (url : Text)
    → is_user_name user ≡ true
    → All IsSound ds
    → IsSound n
    → windows_abs (bytes (first_of ds n)) ≡ false
    → file_url e (join (join_with b'/' (texts ds)) n.text) ≡ some url
    → (path : Text) × (read_address url ≡ (route e, (codes "path", path) ∷ []))
      × (resolve eval (workspace_root user) path ≡ (
          let p = absolute (codes "home" ∷ user ∷ codes "workspace" ∷ all_bytes (way ds n)) in
          looked_up (eval p) p (workspace_root user)))
entry_reached e eval user [] n url named h k first wrote = rw (root-absolute user) (
    one_request (codes "home") (root_names user) (root-IsPlain user named) e eval n [] url (k, tt)
      first (sym (ap (file_url e) (joined [] n h)) ∙ wrote))
entry_reached e eval user (d ∷ ds) n url named h k first wrote = rw (root-absolute user) (
    one_request (codes "home") (root_names user) (root-IsPlain user named) e eval d (ds ++ (n ∷ []))
      url (way-IsSound (d ∷ ds) n h k) first (sym (ap (file_url e) (joined (d ∷ ds) n h)) ∙ wrote))
