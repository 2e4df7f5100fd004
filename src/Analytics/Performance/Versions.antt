-- ===== src/Analytics/Performance/Versions.antt =====
-- The largest version and the next one.
use ai_pmo_copilot.Common.{
  ℕ, ◌+◌, ◌≤◌, ◌<◌, ◌≡◌, refl, ap, none, some, true, List, [], ◌∷◌, ◌++◌, leb, All, All-imp,
  if◌then◌else◌, arith, Option-cases, inl, inr,
}
use ai_pmo_copilot.Analytics.Performance.{max_of, next_version}

max_of-none : (ns : List ℕ) → max_of ns ≡ none → ns ≡ []
unfolding max_of
max_of-none [] h = refl
max_of-none (n ∷ ns) h = elim (Option-cases (max_of ns)) [
  | inl nothing ↦ let bad : some n ≡ none = rw nothing at h in cc
  | inr (k, e) ↦ let bad : some (if leb n k then k else n) ≡ none = rw e at h in cc
]

max_of-upper : (ns : List ℕ) (m : ℕ) → max_of ns ≡ some m → All (λ n. n ≤ m) ns
unfolding max_of
max_of-upper [] m h = tt
max_of-upper (n ∷ ns) m h = elim (Option-cases (max_of ns)) [
  | inl nothing ↦
      let only : some n ≡ some m = rw nothing at h in
      let same : n ≡ m = cc in rw (max_of-none ns nothing) (omega arith, tt)
  | inr (k, e) ↦
      let largest : some (if leb n k then k else n) ≡ some m = rw e at h in
      let same : (if leb n k then k else n) ≡ m = cc in
      (
        ground arith,
        All-imp (λ x. x ≤ k) (λ x. x ≤ m) ns (λ x le. ground arith) (max_of-upper ns k e),
      )
]

-- the next version is above all that there are
pub next_version-above : (ns : List ℕ) → All (λ n. n < next_version (max_of ns)) ns
next_version-above ns = elim (Option-cases (max_of ns)) [
  | inl nothing ↦ rw (max_of-none ns nothing) tt
  | inr (m, e) ↦
      rw e (All-imp (λ n. n ≤ m) (λ n. n < m + 1) ns (λ n le. omega arith) (max_of-upper ns m e))
]

pub max_of-append :
    (v : ℕ) (ns rs : List ℕ) → All (λ n. n < v) ns → max_of rs ≡ some v → max_of (ns ++ rs) ≡ some v
unfolding max_of
max_of-append v [] rs h e = e
max_of-append v (n ∷ ns) rs h e =
    let below : leb n v ≡ true = let less = h.0 in ground arith in
    rw (max_of-append v ns rs h.1 e) (rw below refl)

pub max_of-same : (v n : ℕ) (ns : List ℕ) → All (λ m. m ≡ v) (n ∷ ns) → max_of (n ∷ ns) ≡ some v
unfolding max_of
max_of-same v n [] h = ap some h.0
max_of-same v n (m ∷ ns) h =
    let within : leb n v ≡ true = let same = h.0 in ground arith in
    rw (max_of-same v m ns h.1) (rw within refl)
