-- ===== src/Url/Query.antt =====
-- What a server finds in the addresses, and what an address can do in the HTML of the preview.
use claude_docker.Common.{
  ℕ, true, false, Option, none, some, List, [], ◌∷◌, ◌++◌, ◌≡◌, ◌≢◌, refl, sym, arith, All,
}
use mathlib.Core.Option
use mathlib.Core.Option.{some-injective}
use claude_docker.Text.{Text, codes, split, includes_unit, truthy}
use claude_docker.Text.Laws.{split_of_free}
use claude_docker.Escape.Markup.{count, count-concat}
use claude_docker.Url.{
  Endpoint, listing, downloading, uploading, deleting, route, file_url, terminal_url, encode,
  session_url, image_html, points, encode, is_kept,
}
use claude_docker.Url.Escapes.{unescape, utf8_all}
use claude_docker.Url.Address.{read_address, read_encoded, encoded_free}
use claude_docker.Url.Decode.{decode-encode, IsUnit}

pub mapped_from :
    {f : Text → Text} (o : Option Text) {y : Text}
    → Option.map f o ≡ some y
    → (x : Text) × (o ≡ some x) × (y ≡ f x)
mapped_from none h = cc
mapped_from (some x) h = (x, refl, sym (some-injective _ _ h))

-- Whatever a path of 16-bit code units holds, if its address can be written, a server that splits the
-- address reads the endpoint's own path and no parameter but `path`, whose bytes are the UTF-8 form
-- of the path: no `&`, `=`, `#`, `?`, `+` or `%` of a file name reaches the server as syntax.
pub read_address-file_url :
    (e : Endpoint) (path url : Text)
    → All IsUnit path
    → file_url e path ≡ some url
    → (ps : List ℕ) × (points path ≡ some ps)
      × (read_address url ≡ (route e, (codes "path", utf8_all ps) ∷ []))
unfolding file_url includes_unit
read_address-file_url e path url h q =
    let (enc, k, wrote) = mapped_from (encode path) q in rw wrote (by_route e enc k)
  where
    by_route :
        (e : Endpoint) (enc : Text)
        → encode path ≡ some enc
        → (ps : List ℕ) × (points path ≡ some ps)
          × (read_address (route e ++ (codes "?path=" ++ enc))
              ≡ (route e, (codes "path", utf8_all ps) ∷ []))
    by_route listing enc k =
        read_encoded (route listing) (codes "path") path enc h k refl refl refl refl refl refl
    by_route downloading enc k =
        read_encoded (route downloading) (codes "path") path enc h k refl refl refl refl refl refl
    by_route uploading enc k =
        read_encoded (route uploading) (codes "path") path enc h k refl refl refl refl refl refl
    by_route deleting enc k =
        read_encoded (route deleting) (codes "path") path enc h k refl refl refl refl refl refl

-- The same of the address of the terminal: a session id that is not empty is the only parameter.
pub read_address-terminal_url :
    (sid url : Text)
    → All IsUnit sid
    → truthy sid ≡ true
    → terminal_url sid ≡ some url
    → (ps : List ℕ) × (points sid ≡ some ps)
      × (read_address url ≡ (codes "/ws/terminal", (codes "session", utf8_all ps) ∷ []))
unfolding terminal_url includes_unit
read_address-terminal_url [] url h ne q = cc
read_address-terminal_url (c ∷ sid) url h ne q =
    let (enc, k, wrote) = mapped_from (encode (c ∷ sid)) q in
    rw wrote (
      read_encoded (codes "/ws/terminal") (codes "session") (c ∷ sid) enc h k refl refl refl refl
        refl refl)

-- The address that the restart button deletes has four segments, the last of which a server decodes
-- to the UTF-8 form of the id, and neither a query nor a fragment.
pub split-session_url :
    (sid url : Text)
    → All IsUnit sid
    → session_url sid ≡ some url
    → (ps : List ℕ) × (enc : Text) × (points sid ≡ some ps)
      × (split b'/' url ≡ [] ∷ codes "api" ∷ codes "sessions" ∷ enc ∷ [])
      × (unescape enc ≡ utf8_all ps)
      × (includes_unit b'?' url ≡ false)
      × (includes_unit b'#' url ≡ false)
unfolding session_url split includes_unit is_kept
split-session_url sid url h q =
    let (enc, k, wrote) = mapped_from (encode sid) q in
    let (ps, found, bytes) = (decode-encode sid enc h k).1 in
    let free : (x : ℕ) → is_kept x ≡ false → x ≢ b'%' → includes_unit x enc ≡ false =
      λ x nk np. encoded_free x sid enc nk np h k in
    (
      ps,
      enc,
      found,
      rw (wrote, split_of_free b'/' enc (free b'/' refl (λ e. omega arith))) refl,
      bytes,
      rw wrote (free b'?' refl (λ e. omega arith)),
      rw wrote (free b'#' refl (λ e. omega arith)),
    )

count_of_free : (x : ℕ) (s : Text) → includes_unit x s ≡ false → count x s ≡ 0
unfolding includes_unit
count_of_free x [] h = refl
count_of_free x (c ∷ s) h = ground (arith, count_of_free x s)

-- Though the preview writes the address of an image into its HTML as it is, the HTML has the one tag
-- and the four quotes of the template, whatever the path.
pub image_html-markup :
    (path html : Text)
    → All IsUnit path
    → image_html path ≡ some html
    → (count b'<' html ≡ 1) × (count b'>' html ≡ 1) × (count b'"' html ≡ 4)
unfolding image_html file_url includes_unit is_kept
image_html-markup path html h q =
    let (url, r, wrote) = mapped_from (file_url downloading path) q in
    let (enc, k, address) = mapped_from (encode path) r in
    let none_of : (x : ℕ) → is_kept x ≡ false → x ≢ b'%' → count x enc ≡ 0 =
      λ x nk np. count_of_free x enc (encoded_free x path enc nk np h k) in
    let parts =
      codes "<img style=\"display:block;max-width:100%;max-height:80vh;margin:auto\" src=\""
      ∷ (route downloading ++ (codes "?path=" ++ enc))
      ∷ codes "\">"
      ∷ [] in
    rw (wrote, address)
      (
        omega (arith, count-concat b'<' parts, none_of b'<' refl (λ e. omega arith)),
        omega (arith, count-concat b'>' parts, none_of b'>' refl (λ e. omega arith)),
        omega (arith, count-concat b'"' parts, none_of b'"' refl (λ e. omega arith)),
      )
