-- ===== src/Examples/Wire.antt =====
-- Addresses, bodies and messages as they are sent, and the theorems at them.
use claude_docker.Common.{true, ℕ, List, [], ◌∷◌, ◌++◌, ◌≡◌, refl, arith, none, some, All}
use claude_docker.Text.{Text, codes, includes_unit}
use claude_docker.Url.{
  encode, encode_points, encode_point, is_kept, utf8, points, points_after, file_url, downloading,
}
use claude_docker.Url.Escapes.{utf8_all}
use claude_docker.Url.Decode.{IsUnit}
use claude_docker.Url.Address.{read_address}
use claude_docker.Url.Query.{read_address-file_url}
use claude_docker.Json.{words, number, Object}
use claude_docker.Terminal.State.{Event, Term, typed, resized, closed_with, live, new}

-- "a&é😀"
abbrev odd_name : Text
odd_name = 97 ∷ 38 ∷ 233 ∷ 55357 ∷ 56832 ∷ []

abbrev odd_name_encoded : Text
odd_name_encoded = codes "a%26%C3%A9%F0%9F%98%80"

encoded : encode odd_name ≡ some odd_name_encoded
unfolding points_after encode_points encode_point is_kept utf8 includes_unit
encoded = refl

odd_name-units : All IsUnit odd_name
odd_name-units = ground arith

encode_throws : encode (97 ∷ 55357 ∷ []) ≡ none
unfolding points_after
encode_throws = refl

abbrev odd_url : Text
odd_url = codes "/api/files/download?path=" ++ odd_name_encoded

read_address-file_url_example :
    (ps : List ℕ) × (points odd_name ≡ some ps)
    × (read_address odd_url ≡ (codes "/api/files/download", (codes "path", utf8_all ps) ∷ []))
unfolding file_url points_after encode_points encode_point is_kept utf8 includes_unit
read_address-file_url_example =
    read_address-file_url downloading odd_name odd_url odd_name-units refl

-- {"a\"": "line\nbreak", "n": 80}
abbrev odd_object : Object
odd_object =
    (97 ∷ 34 ∷ [], words (codes "line" ++ (10 ∷ codes "break"))) ∷ (codes "n", number 80) ∷ []

-- The user types, resizes the window and types again.
abbrev life : List Event
life = typed (codes "ls") ∷ resized 100 30 ∷ closed_with 1006 ∷ typed (codes "pwd") ∷ []

abbrev connected : Term
connected = record (new 80 24) {
  ws = some (record { requested = []; confirmed = true; phase = live });
}
