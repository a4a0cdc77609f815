-- ===== src/Api/Laws.antt =====
-- When getJson returns, and when it throws AUTH.
use claude_docker.Common.{ℕ, true, Option, none, some, ◌≡◌, ◌↔◌, ap, arith}
use claude_docker.Api.{Answer, failed, responded, is_ok, ok, auth, get_json}

-- getJson returns a value exactly for an answer with a status from 200 to 299 and a body that parses
-- to that value, and it throws AUTH exactly for the status 401, whatever the body.
pub get_json_lem :
    {A : Type 0} (answer : Answer A) (value : A)
    → ((get_json answer ≡ ok value)
        ↔ ((status : ℕ) × (answer ≡ responded status (some value)) × (is_ok status ≡ true)))
      × ((get_json answer ≡ auth) ↔ ((body : Option A) × (answer ≡ responded 401 body)))
unfolding get_json
get_json_lem failed value = ((λ h. cc, λ h. cc h.1), (λ h. cc, λ h. cc h.1))
get_json_lem (responded status none) value = (
  (λ h. absurd (ground arith), λ h. absurd (cc h.1)),
  (λ h. (none, ap (λ k. responded k none) (ground arith)), λ h. ground (arith, h.1)),
)
get_json_lem (responded status (some v)) value = (
  (λ h. (status, ground arith, ground arith), λ h. ground (arith, h.1, h.2)),
  (λ h. (some v, ground arith), λ h. ground (arith, h.1)),
)
