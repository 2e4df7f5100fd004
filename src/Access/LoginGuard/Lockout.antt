-- ===== src/Access/LoginGuard/Lockout.antt =====
-- When `LoginBruteForceGuard` locks an identity out, and for how long.
use ai_pmo_copilot.Common.{
  str_eq_refl, ℕ, suc, ◌+◌, ◌≤◌, ◌<◌, String, ◌≡◌, refl, ◌∙◌, inl, inr, Bool, true, false, Option,
  none, some, List, ◌&&◌, [], ◌∷◌, ◌++◌, Result, ok, err, Ensures, ltb, leb, str_eq, if◌then◌else◌,
  select, length, length-append, All, arith, Bool-cases,
}
use ai_pmo_copilot.Access.RateLimiter.{set_hits, fresh}
use ai_pmo_copilot.Access.LoginGuard.{
  Policy, Guard, check_lock, LoginLocked, login_locked, set_lock, check, record_success,
  record_failure,
}

-- Failed attempts of one identity, at these times.
unfoldable pub fail_at : Policy → String → List ℕ → Guard → Guard
unfolding record_failure
fail_at policy key [] guard = guard
fail_at policy key (now ∷ times) guard =
    fail_at policy key times (record_failure policy now key guard)

abbrev pub last_of : ℕ → List ℕ → ℕ
last_of time [] = time
last_of time (now ∷ times) = last_of now times

-- The clock does not go back, and the last time is less than `window` after `first`.
abbrev pub IsBurst : ℕ → ℕ → ℕ → List ℕ → Type 0
IsBurst window first now [] = now < first + window
IsBurst window first now (t ∷ times) = (now ≤ t) × IsBurst window first t times

select-all :
    (window now first : ℕ) (hits : List ℕ)
    → now < first + window
    → All (λ hit. first ≤ hit) hits
    → select (fresh window now) hits ≡ hits
select-all window now first [] h a = refl
select-all window now first (hit ∷ hits) h (late, a) =
    let ih = select-all window now first hits h a in ground arith

IsBurst-now :
    (window first now : ℕ) (times : List ℕ) → IsBurst window first now times → now < first + window
IsBurst-now window first now [] h = h
IsBurst-now window first now (t ∷ times) (later, h) =
    let ih = IsBurst-now window first t times h in omega arith

abbrev lock_of : Policy → ℕ → ℕ → Option ℕ
lock_of policy count now =
    if leb policy.max_attempts count then some (now + policy.lockout) else none

-- What the guard holds of the identity after `hits`, the last of them at `now`.
abbrev Holds : Policy → String → List ℕ → ℕ → Guard → Type 0
Holds policy key hits now guard =
    (guard.failures key ≡ hits) × (guard.locked_until key ≡ lock_of policy (length hits) now)

lock_of-next :
    (policy : Policy) (count now later : ℕ)
    → (if leb policy.max_attempts (count + 1)
        then some (later + policy.lockout)
        else lock_of policy count now)
      ≡ lock_of policy (count + 1) later
lock_of-next policy count now later = ground arith

set_lock-if :
    (key : String) (b : Bool) (until : Option ℕ) (locks : String → Option ℕ)
    → (if b then set_lock key until locks else locks) key ≡ (if b then until else locks key)
set_lock-if key true until locks = rw (str_eq_refl key)
set_lock-if key false until locks = refl

set_hits-at :
    (key : String) (hits : List ℕ) (all : String → List ℕ) → set_hits key hits all key ≡ hits
set_hits-at key hits all = rw (str_eq_refl key)

record_failure-Holds :
    (policy : Policy) (key : String) (first now later : ℕ) (hits : List ℕ) (guard : Guard)
    → later < first + policy.window
    → All (λ hit. first ≤ hit) hits
    → Holds policy key hits now guard
    → Holds policy key (hits ++ later ∷ []) later (record_failure policy later key guard)
unfolding record_failure
record_failure-Holds policy key first now later hits guard late a (same, lock) =
    let kept : select (fresh policy.window later) (guard.failures key) ≡ hits =
      rw same (select-all policy.window later first hits late a) in
    let counted : length (hits ++ later ∷ []) ≡ length hits + 1 = length-append hits (later ∷ []) in
    rw kept (
      set_hits-at key (hits ++ later ∷ []) guard.failures,
      set_lock-if key (leb policy.max_attempts (length (hits ++ later ∷ [])))
            (some (later + policy.lockout)) guard.locked_until
          ∙ rw (counted, lock) (lock_of-next policy (length hits) now later),
    )

All-snoc :
    (first later : ℕ) (hits : List ℕ)
    → first ≤ later
    → All (λ hit. first ≤ hit) hits
    → All (λ hit. first ≤ hit) (hits ++ later ∷ [])
All-snoc first later [] h a = (h, tt)
All-snoc first later (hit ∷ hits) h (x, a) = (x, All-snoc first later hits h a)

fail_at-Holds :
    (policy : Policy) (key : String) (first now : ℕ) (times hits : List ℕ) (guard : Guard)
    → first ≤ now
    → IsBurst policy.window first now times
    → All (λ hit. first ≤ hit) hits
    → Holds policy key hits now guard
    → (fail_at policy key times guard).locked_until key
      ≡ lock_of policy (length hits + length times) (last_of now times)
unfolding fail_at
fail_at-Holds policy key first now [] hits guard f b a (same, lock) = ground (arith, lock)
fail_at-Holds policy key first now (t ∷ times) hits guard f (later, b) a h =
    let next =
      fail_at-Holds policy key first t times (hits ++ t ∷ []) (record_failure policy t key guard)
        (omega arith) b (All-snoc first t hits (omega arith) a)
        (record_failure-Holds policy key first now t hits guard
          (IsBurst-now policy.window first t times b) a h) in
    let counted : length (hits ++ t ∷ []) ≡ length hits + 1 = length-append hits (t ∷ []) in
    let sum : length hits + 1 + length times ≡ length hits + suc (length times) = omega arith in
    next ∙ rw (counted, sum)

abbrev pub is_locked_out : Result LoginLocked Guard → Bool
is_locked_out (ok guard) = false
is_locked_out (err login_locked) = true

is_locked_out-check_lock :
    (policy : Policy) (t count last : ℕ) (key : String) (guard : Guard)
    → is_locked_out (check_lock t key (lock_of policy count last) guard)
      ≡ (leb policy.max_attempts count && ltb t (last + policy.lockout))
is_locked_out-check_lock policy t count last key guard = ground arith

-- For a policy of at least one attempt: after a success of an identity, let its attempts fail at
-- `times`, the clock not going back and all of them less than `window` after `first`. Then `check` at a
-- time `t` raises exactly if there were at least `max_attempts` of them and `t` is before the last of
-- them plus the lockout.
pub check-fail_at :
    (policy : Policy) (key : String) (first t : ℕ) (times : List ℕ) (guard : Guard)
    → 1 ≤ policy.max_attempts
    → IsBurst policy.window first first times
    → is_locked_out (check t key (fail_at policy key times (record_success key guard)))
      ≡ (leb policy.max_attempts (length times) && ltb t (last_of first times + policy.lockout))
unfolding check record_success
check-fail_at policy key first t times guard positive burst =
    let lock =
      fail_at-Holds policy key first first times [] (record_success key guard) (omega arith) burst
        tt (set_hits-at key [] guard.failures, rw (str_eq_refl key) (ground arith)) in
    let sum : 0 + length times ≡ length times = omega arith in
    rw (lock, sum)
      (is_locked_out-check_lock policy t (length times) (last_of first times) key
        (fail_at policy key times (record_success key guard)))

-- What the guard holds of one identity.
abbrev pub SameFor : String → Guard → Guard → Type 0
SameFor key g h = (g.failures key ≡ h.failures key) × (g.locked_until key ≡ h.locked_until key)

check_lock-frame :
    (now : ℕ) (key other : String) (lock : Option ℕ) (guard : Guard)
    → str_eq key other ≡ false
    → Ensures (λ left. SameFor other left guard) (check_lock now key lock guard)
check_lock-frame now key other none guard apart = (refl, refl)
check_lock-frame now key other (some until) guard apart = elim (Bool-cases (ltb now until)) [
  | inl locked ↦ rw locked tt
  | inr over ↦ rw (over, apart) (refl, refl)
]

set_lock-other :
    (key other : String) (b : Bool) (until : Option ℕ) (locks : String → Option ℕ)
    → str_eq key other ≡ false
    → (if b then set_lock key until locks else locks) other ≡ locks other
set_lock-other key other true until locks apart = rw apart
set_lock-other key other false until locks apart = refl

-- No operation on one identity changes what the guard holds of another: its failures and its
-- lockout stay as they are, whether `check` raises, returns or clears an expired lockout.
pub operations_frame :
    (policy : Policy) (now : ℕ) (key other : String) (guard : Guard)
    → str_eq key other ≡ false
    → SameFor other (record_failure policy now key guard) guard
      × SameFor other (record_success key guard) guard
      × Ensures (λ left. SameFor other left guard) (check now key guard)
unfolding check record_success record_failure
operations_frame policy now key other guard apart = (
  (
    rw apart,
    set_lock-other key other
        (leb policy.max_attempts
          (length (select (fresh policy.window now) (guard.failures key) ++ now ∷ [])))
        (some (now + policy.lockout)) guard.locked_until apart,
  ),
  rw apart (refl, refl),
  check_lock-frame now key other (guard.locked_until key) guard apart,
)
