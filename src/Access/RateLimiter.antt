-- ===== src/Access/RateLimiter.antt =====
-- `RateLimiter` of src/api/rate_limiter.py. A time is a number of clock ticks; `hit > now - window`
-- is written `now < hit + window`, since a difference of natural numbers stops at 0.
pub mod Window
use ai_pmo_copilot.Common.{
  ℕ, ◌+◌, String, Option, none, some, Bool, true, false, List, [], ◌∷◌, ◌++◌, Result, ok, err, ltb,
  leb, str_eq, if◌then◌else◌, select, length,
}

-- `RateLimiter.__init__`
pub record Limits : Type 0 where
  pub max_requests : ℕ
  pub window : ℕ

-- `defaultdict(list)`
abbrev pub Hits : Type 0
Hits = String → List ℕ

abbrev pub set_hits : String → List ℕ → Hits → Hits
set_hits identifier times hits key = if str_eq identifier key then times else hits key

abbrev pub fresh : ℕ → ℕ → ℕ → Bool
fresh window now hit = ltb now (hit + window)

abbrev pub decide_allow : Limits → ℕ → String → List ℕ → Hits → Bool × Hits
decide_allow limits now identifier recent hits =
    if leb limits.max_requests (length recent)
    then (false, set_hits identifier recent hits)
    else (true, set_hits identifier (recent ++ now ∷ []) hits)

-- `RateLimiter.allow`, at the time that the clock gives
unfoldable pub allow : Limits → ℕ → String → Hits → Bool × Hits
allow limits now identifier hits =
    decide_allow limits now identifier (select (fresh limits.window now) (hits identifier)) hits

-- HTTP 429
pub data HttpError : Type 0 where
  too_many_requests : HttpError

abbrev pub identifier_of : Option String → String
identifier_of none = "unknown"
identifier_of (some key) = if str_eq key "" then "unknown" else key

abbrev pub admit : Bool × Hits → Result {0, 0} HttpError Unit × Hits
admit (true, hits) = (ok tt, hits)
admit (false, hits) = (err too_many_requests, hits)

-- `enforce_rate_limit`: the answer, and the limiter that later requests find
unfoldable pub enforce_rate_limit :
    Limits → ℕ → Option String → Hits → Result {0, 0} HttpError Unit × Hits
unfolding allow
enforce_rate_limit limits now x_api_key hits =
    admit (allow limits now (identifier_of x_api_key) hits)
