-- ===== src/Access/LoginGuard.antt =====
-- `LoginBruteForceGuard` of src/api/rate_limiter.py. Times are ticks, as in RateLimiter.
pub mod Lockout
use ai_pmo_copilot.Common.{
  ℕ, ◌+◌, String, Option, none, some, List, [], ◌∷◌, ◌++◌, Result, ok, err, ltb, leb, str_eq,
  if◌then◌else◌, select, length,
}
use ai_pmo_copilot.Access.RateLimiter.{Hits, set_hits, fresh}

-- `LoginBruteForceGuard.__init__`
pub record Policy : Type 0 where
  pub max_attempts : ℕ
  pub window : ℕ
  pub lockout : ℕ

pub record Guard : Type 0 where
  pub failures : Hits
  pub locked_until : String → Option ℕ

abbrev pub new_guard : Guard
new_guard = record { failures = λ key. []; locked_until = λ key. none }

pub data LoginLocked : Type 0 where
  login_locked : LoginLocked

abbrev pub set_lock : String → Option ℕ → (String → Option ℕ) → String → Option ℕ
set_lock identity_key until locks key = if str_eq identity_key key then until else locks key

-- `_failures.pop(key, None)` and `_locked_until.pop(key, None)`
unfoldable pub record_success : String → Guard → Guard
record_success identity_key guard = record {
  failures = set_hits identity_key [] guard.failures;
  locked_until = set_lock identity_key none guard.locked_until;
}

abbrev pub check_lock : ℕ → String → Option ℕ → Guard → Result LoginLocked Guard
check_lock now identity_key none guard = ok guard
check_lock now identity_key (some until) guard =
    if ltb now until
    then err login_locked
    else ok (record {
      failures = set_hits identity_key [] guard.failures;
      locked_until = set_lock identity_key none guard.locked_until;
    })

-- `check`: it raises and changes nothing, or returns with the guard that it leaves.
unfoldable pub check : ℕ → String → Guard → Result LoginLocked Guard
check now identity_key guard = check_lock now identity_key (guard.locked_until identity_key) guard

abbrev pub with_failures : Policy → ℕ → String → List ℕ → Guard → Guard
with_failures policy now identity_key hits guard = record {
  failures = set_hits identity_key hits guard.failures;
  locked_until =
      if leb policy.max_attempts (length hits)
      then set_lock identity_key (some (now + policy.lockout)) guard.locked_until
      else guard.locked_until;
}

unfoldable pub record_failure : Policy → ℕ → String → Guard → Guard
record_failure policy now identity_key guard =
    with_failures policy now identity_key
      (select (fresh policy.window now) (guard.failures identity_key) ++ now ∷ []) guard
