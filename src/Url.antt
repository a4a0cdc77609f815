-- ===== src/Url.antt =====
-- The addresses of the requests of web/src/files.js and web/src/terminal.js, with
-- encodeURIComponent, which belongs to the language.
pub mod Escapes
pub mod Utf8
pub mod Decode
pub mod Address
pub mod Query
use claude_docker.Common.{
  ℕ, ◌+◌, ◌-◌, ◌*◌, ◌/◌, ◌%◌, Bool, true, false, ◌&&◌, ◌||◌, Option, none, some, List, [], ◌∷◌,
  ◌++◌, if◌then◌else◌, ltb, leb, ◌==◌,
}
use mathlib.Core.Option
use claude_docker.Text.{Text, codes, includes_unit, concat}

-- The units that encodeURIComponent keeps.
unfoldable pub is_kept : ℕ → Bool
unfolding includes_unit
is_kept c =
    (leb b'A' c && leb c b'Z')
    || (leb b'a' c && leb c b'z')
    || (leb b'0' c && leb c b'9')
    || includes_unit c (codes "-_.!~*'()")

-- The UTF-8 form of a code point.
unfoldable pub utf8 : ℕ → List ℕ
utf8 p =
    if ltb p 128
    then p ∷ []
    else if ltb p 2048
    then (192 + p / 64) ∷ (128 + p % 64) ∷ []
    else if ltb p 65536
    then (224 + p / 4096) ∷ (128 + (p / 64) % 64) ∷ (128 + p % 64) ∷ []
    else (240 + p / 262144) ∷ (128 + (p / 4096) % 64) ∷ (128 + (p / 64) % 64) ∷ (128 + p % 64) ∷ []

abbrev pub hex_digit : ℕ → ℕ
hex_digit d = if ltb d 10 then b'0' + d else (b'A' - 10) + d

abbrev pub percent : List ℕ → Text
percent [] = []
percent (b ∷ bytes) = b'%' ∷ hex_digit (b / 16) ∷ hex_digit (b % 16) ∷ percent bytes

unfoldable pub encode_point : ℕ → Text
encode_point p = if is_kept p then p ∷ [] else percent (utf8 p)

abbrev pub is_high : ℕ → Bool
is_high c = leb 55296 c && ltb c 56320

abbrev pub is_low : ℕ → Bool
is_low c = leb 56320 c && ltb c 57344

-- The code point of a surrogate pair.
abbrev pub pair_point : ℕ → ℕ → ℕ
pair_point h l = 65536 + (h - 55296) * 1024 + (l - 56320)

-- The code points of a string; `none` where a surrogate stands alone. The first argument is a high
-- surrogate that has been read and waits for its low one.
unfoldable pub points_after : Option ℕ → Text → Option (List ℕ)
points_after none [] = some []
points_after (some h) [] = none
points_after none (c ∷ s) =
    let waiting = points_after (some c) s in
    let rest = points_after none s in
    if is_high c then waiting else if is_low c then none else Option.map (c ∷◌) rest
points_after (some h) (c ∷ s) =
    let rest = points_after none s in if is_low c then Option.map (pair_point h c ∷◌) rest else none

abbrev pub points : Text → Option (List ℕ)
points s = points_after none s

unfoldable pub encode_points : List ℕ → Text
encode_points [] = []
encode_points (p ∷ ps) = encode_point p ++ encode_points ps

-- encodeURIComponent(s); `none` is the URIError that it throws.
abbrev pub encode : Text → Option Text
encode s = Option.map encode_points (points s)

-- The requests that name a path in their query.
pub data Endpoint : Type 0 where
  listing downloading uploading deleting : Endpoint

abbrev pub route : Endpoint → Text
route listing = codes "/api/files/list"
route downloading = codes "/api/files/download"
route uploading = codes "/api/files/upload"
route deleting = codes "/api/files"

unfoldable pub file_url : Endpoint → Text → Option Text
file_url e path = Option.map (λ enc. route e ++ (codes "?path=" ++ enc)) (encode path)

-- The address of the WebSocket that attach(sid) makes, after the host.
unfoldable pub terminal_url : Text → Option Text
terminal_url [] = some (codes "/ws/terminal")
terminal_url (c ∷ sid) =
    Option.map (λ enc. codes "/ws/terminal" ++ (codes "?session=" ++ enc)) (encode (c ∷ sid))

-- The address that the restart button deletes.
unfoldable pub session_url : Text → Option Text
session_url sid = Option.map (λ enc. codes "/api/sessions/" ++ enc) (encode sid)

-- The innerHTML with which the preview shows an image.
unfoldable pub image_html : Text → Option Text
image_html path =
    Option.map
      (λ url. concat (
        codes "<img style=\"display:block;max-width:100%;max-height:80vh;margin:auto\" src=\""
        ∷ url
        ∷ codes "\">"
        ∷ []))
      (file_url downloading path)
