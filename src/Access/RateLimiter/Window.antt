-- ===== src/Access/RateLimiter/Window.antt =====
-- The sliding window of `RateLimiter`, over any sequence of calls.
use ai_pmo_copilot.Common.{
  ℕ, ◌+◌, ◌≤◌, ◌<◌, String, ◌≡◌, refl, ap, ◌∙◌, inl, inr, Bool, true, false, ◌&&◌, List, [], ◌∷◌,
  ◌++◌, ltb, leb, str_eq, select, length, arith, Bool-cases, leb→le, eq_iff,
}
use mathlib.Core.Path.{subst}
use ai_pmo_copilot.Access.RateLimiter.{Limits, Hits, set_hits, fresh, allow}

-- What a client of the limiter sees: the limiter itself, and the times at which it let each
-- identifier through, newest first.
pub record Observed : Type 0 where
  pub hits : Hits
  pub admitted : String → List ℕ

abbrev note_answer : ℕ → String → (String → List ℕ) → Bool × Hits → Observed
note_answer now identifier admitted (true, hits) = record {
  hits = hits;
  admitted = set_hits identifier (now ∷ admitted identifier) admitted;
}
note_answer now identifier admitted (false, hits) = record { hits = hits; admitted = admitted }

-- One call, by the identifier, at the time.
unfoldable pub call : Limits → ℕ → String → Observed → Observed
unfolding allow
call limits now identifier o =
    note_answer now identifier o.admitted (allow limits now identifier o.hits)

unfoldable pub calls : Limits → List (String × ℕ) → Observed → Observed
unfolding call
calls limits [] o = o
calls limits ((identifier, now) ∷ cs) o = calls limits cs (call limits now identifier o)

-- The clock never goes back.
abbrev pub IsMonotone : ℕ → List (String × ℕ) → Type 0
IsMonotone start [] = Unit
IsMonotone start ((identifier, now) ∷ cs) = (start ≤ now) × IsMonotone now cs

abbrev pub fresh_observed : Observed
fresh_observed = record { hits = λ key. []; admitted = λ key. [] }

abbrev pub in_window : ℕ → ℕ → ℕ → Bool
in_window window t hit = ltb t (hit + window) && leb hit t

abbrev pub admitted_in : ℕ → ℕ → List ℕ → ℕ
admitted_in window t times = length (select (in_window window t) times)

abbrev pub recent_count : ℕ → ℕ → List ℕ → ℕ
recent_count window t times = length (select (fresh window t) times)

recent_count-select :
    (w now t : ℕ) (xs : List ℕ)
    → now ≤ t
    → recent_count w t (select (fresh w now) xs) ≡ recent_count w t xs
recent_count-select w now t [] h = refl
recent_count-select w now t (x ∷ xs) h = let ih = recent_count-select w now t xs h in ground arith

recent_count-later :
    (w now t : ℕ) (xs : List ℕ) → now ≤ t → recent_count w t xs ≤ recent_count w now xs
recent_count-later w now t [] h = ground arith
recent_count-later w now t (x ∷ xs) h = let ih = recent_count-later w now t xs h in ground arith

admitted_in-recent : (w t : ℕ) (xs : List ℕ) → admitted_in w t xs ≤ recent_count w t xs
admitted_in-recent w t [] = ground arith
admitted_in-recent w t (x ∷ xs) = let ih = admitted_in-recent w t xs in ground arith

recent_count-snoc :
    (w t now : ℕ) (xs : List ℕ) → recent_count w t (xs ++ now ∷ []) ≡ recent_count w t (now ∷ xs)
recent_count-snoc w t now [] = refl
recent_count-snoc w t now (x ∷ xs) = let ih = recent_count-snoc w t now xs in ground arith

-- The limiter remembers what the window needs, and no window held too much.
abbrev HasWindow : Limits → ℕ → List ℕ → List ℕ → Type 0
HasWindow limits start remembered admitted =
    ((t : ℕ)
      → start ≤ t
      → recent_count limits.window t remembered ≡ recent_count limits.window t admitted)
    × ((t : ℕ) → admitted_in limits.window t admitted ≤ limits.max_requests)

admitted_in-∷ :
    (w t now bound : ℕ) (xs : List ℕ)
    → admitted_in w t xs ≤ bound
    → (now ≤ t → recent_count w t xs < bound)
    → admitted_in w t (now ∷ xs) ≤ bound
admitted_in-∷ w t now bound xs h k =
    let small = admitted_in-recent w t xs in
    elim (Bool-cases (leb now t)) [
      | inl past ↦ let room = k (leb→le now t past) in ground arith
      | inr future ↦ ground arith
    ]

HasWindow-denied :
    (limits : Limits) (start now : ℕ) (hs seen : List ℕ)
    → start ≤ now
    → HasWindow limits start hs seen
    → HasWindow limits now (select (fresh limits.window now) hs) seen
HasWindow-denied limits start now hs seen later (same, bound) =
    (λ t after. recent_count-select limits.window now t hs after ∙ same t (omega arith), bound)

HasWindow-allowed :
    (limits : Limits) (start now : ℕ) (hs seen : List ℕ)
    → start ≤ now
    → HasWindow limits start hs seen
    → length (select (fresh limits.window now) hs) < limits.max_requests
    → HasWindow limits now (select (fresh limits.window now) hs ++ now ∷ []) (now ∷ seen)
HasWindow-allowed limits start now hs seen later (same, bound) room = (
  λ t after.
      let snoc = recent_count-snoc limits.window t now (select (fresh limits.window now) hs) in
      let kept = recent_count-select limits.window now t hs after in
      let before = same t (omega arith) in ground arith,
  λ t. admitted_in-∷ limits.window t now limits.max_requests seen (bound t) (λ past.
      let older = recent_count-later limits.window now t seen past in
      let before = same now later in ground arith),
)

HasWindow-later :
    (limits : Limits) (start now : ℕ) (hs seen : List ℕ)
    → start ≤ now
    → HasWindow limits start hs seen
    → HasWindow limits now hs seen
HasWindow-later limits start now hs seen later (same, bound) =
    (λ t after. same t (omega arith), bound)

-- Every identifier's remembered hits.
abbrev HasWindows : Limits → ℕ → Observed → Type 0
HasWindows limits start o = (key : String) → HasWindow limits start (o.hits key) (o.admitted key)

HasWindow-set :
    (limits : Limits) (now : ℕ) (identifier key : String) (xs ys : List ℕ)
    (hits admitted : String → List ℕ)
    → HasWindow limits now xs ys
    → HasWindow limits now (hits key) (admitted key)
    → HasWindow limits now (set_hits identifier xs hits key) (set_hits identifier ys admitted key)
HasWindow-set limits now identifier key xs ys hits admitted h k =
    elim (Bool-cases (str_eq identifier key)) [ inl same ↦ rw same h | inr other ↦ rw other k ]

set_hits-same :
    (identifier key : String) (hits : Hits)
    → set_hits identifier (hits identifier) hits key ≡ hits key
set_hits-same identifier key hits = elim (Bool-cases (str_eq identifier key)) [
  | inl same ↦ rw same (ap hits ((eq_iff identifier key).0 same))
  | inr other ↦ rw other
]

call-HasWindows :
    (limits : Limits) (start now : ℕ) (identifier : String) (o : Observed)
    → start ≤ now
    → HasWindows limits start o
    → HasWindows limits now (call limits now identifier o)
unfolding call allow
call-HasWindows limits start now identifier o later h key =
    let rest = HasWindow-later limits start now (o.hits key) (o.admitted key) later (h key) in
    let recent = select (fresh limits.window now) (o.hits identifier) in
    elim (Bool-cases (leb limits.max_requests (length recent))) [
      | inl full ↦ rw full (
          subst (λ ys. HasWindow limits now (set_hits identifier recent o.hits key) ys)
            (set_hits-same identifier key o.admitted)
            (HasWindow-set limits now identifier key recent (o.admitted identifier) o.hits
              o.admitted
              (HasWindow-denied limits start now (o.hits identifier) (o.admitted identifier) later
                (h identifier))
              rest))
      | inr room ↦ rw room (
          HasWindow-set limits now identifier key (recent ++ now ∷ []) (now ∷ o.admitted identifier)
            o.hits o.admitted
            (HasWindow-allowed limits start now (o.hits identifier) (o.admitted identifier) later
              (h identifier) (ground arith))
            rest)
    ]

-- The time of the last call.
abbrev last_time : ℕ → List (String × ℕ) → ℕ
last_time start [] = start
last_time start ((identifier, now) ∷ cs) = last_time now cs

calls-HasWindows :
    (limits : Limits) (cs : List (String × ℕ)) (start : ℕ) (o : Observed)
    → IsMonotone start cs
    → HasWindows limits start o
    → HasWindows limits (last_time start cs) (calls limits cs o)
unfolding calls
calls-HasWindows limits [] start o m h = h
calls-HasWindows limits ((identifier, now) ∷ cs) start o (later, m) h =
    calls-HasWindows limits cs now (call limits now identifier o) m
      (call-HasWindows limits start now identifier o later h)

HasWindows-new : (limits : Limits) (start : ℕ) → HasWindows limits start fresh_observed
HasWindows-new limits start key = (λ u h. refl, λ u. ground arith)

-- Whatever the calls of `allow` on a new limiter, by whatever identifiers, as long as the clock does
-- not go back: of each identifier, at most `max_requests` calls were let through within any window
-- `(t - window, t]`.
pub calls-window_bound :
    (limits : Limits) (cs : List (String × ℕ)) (start : ℕ) (key : String) (t : ℕ)
    → IsMonotone start cs
    → admitted_in limits.window t ((calls limits cs fresh_observed).admitted key)
      ≤ limits.max_requests
calls-window_bound limits cs start key t m =
    (calls-HasWindows limits cs start fresh_observed m (HasWindows-new limits start) key).1 t

-- After any calls on a new limiter under a clock that does not go back, a call is let through
-- exactly if fewer than `max_requests` calls of the same identifier were let through after
-- `now - window`: what the limiter forgets never changes an answer.
pub allow-answer :
    (limits : Limits) (cs : List (String × ℕ)) (start now : ℕ) (key : String)
    → IsMonotone start cs
    → last_time start cs ≤ now
    → (allow limits now key (calls limits cs fresh_observed).hits).0
      ≡ ltb
          (recent_count limits.window now ((calls limits cs fresh_observed).admitted key))
          limits.max_requests
unfolding allow
allow-answer limits cs start now key m later =
    let h = calls-HasWindows limits cs start fresh_observed m (HasWindows-new limits start) key in
    let same = h.0 now later in ground (arith, same)
