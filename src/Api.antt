-- ===== src/Api.antt =====
-- What web/src/api.js makes of the answers to its requests.
pub mod Laws
use claude_docker.Common.{
  ℕ, Bool, true, false, ◌&&◌, Option, none, some, List, [], ◌∷◌, if◌then◌else◌, leb, ltb, ◌==◌,
}

-- How `fetch` and `r.json()` end: the request fails; or there is a status, and a body that parses or
-- does not.
pub data Answer {ℓ} (A : Type ℓ) : Type ℓ where
  failed : Answer A
  responded : ℕ → Option A → Answer A

-- `r.ok`
abbrev pub is_ok : ℕ → Bool
is_ok status = leb 200 status && ltb status 300

-- What getJson returns or throws.
pub data Result {ℓ} (A : Type ℓ) : Type ℓ where
  ok : A → Result A
  auth : Result A
  bad_status : ℕ → Result A
  network : Result A
  bad_body : Result A

unfoldable pub get_json {ℓ} : {A : Type ℓ} → Answer A → Result A
get_json failed = network
get_json (responded status body) =
    if status == 401
    then auth
    else if is_ok status
    then elim body [ none ↦ bad_body | some value ↦ ok value ]
    else bad_status status

-- How the request of uploadFile ends: `onload` with a status, or `onerror`.
pub data Transfer : Type 0 where
  loaded : ℕ → Transfer
  broken : Transfer

-- The value with which uploadFile resolves.
pub record Uploaded : Type 0 where
  pub ok : Bool
  pub status : ℕ

unfoldable pub upload_result : Transfer → Uploaded
upload_result (loaded status) = record { ok = is_ok status; status = status }
upload_result broken = record { ok = false; status = 0 }

-- The calls of `onMsg` for one message of openWs, where `throws` says on which arguments it throws:
-- `catch` stands around the parsing and around the first call.
unfoldable pub ws_calls {ℓ} : {A : Type ℓ} → (A → Bool) → Option A → List (Option A)
ws_calls throws none = none ∷ []
ws_calls throws (some value) = if throws value then some value ∷ none ∷ [] else some value ∷ []
