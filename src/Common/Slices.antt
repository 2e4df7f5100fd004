-- ===== src/Common/Slices.antt =====
-- Slices of texts by characters, and their laws.
use Prim.Native.Nat.{ℕ, zero, suc, ◌+◌, ◌-◌, ◌≤◌}
use Prim.Native.String.{String, [], ◌∷◌, ◌++◌, count}
use Prim.Native.String.count
use native.Mathlib.Omega.{arith}
use mathlib.Core.Path.{◌≡◌, refl, ap, ◌∙◌, sym}
use text.Mathlib.TextLemmas.{nil-append, cons-append}
use ai_pmo_copilot.Common.Text.{truncate}

-- `text[n:]`
abbrev pub drop_chars : ℕ → String → String
drop_chars zero s = s
drop_chars (suc n) [] = []
drop_chars (suc n) (c ∷ s) = drop_chars n s

-- `text[start:end]`
abbrev pub slice_chars : ℕ → ℕ → String → String
slice_chars start end s = truncate (end - start) (drop_chars start s)

pub truncate-append-drop_chars : (n : ℕ) (s : String) → truncate n s ++ drop_chars n s ≡ s
truncate-append-drop_chars zero s = nil-append s
truncate-append-drop_chars (suc n) [] = nil-append []
truncate-append-drop_chars (suc n) (c ∷ s) =
    cons-append c (truncate n s) (drop_chars n s) ∙ ap (λ t. c ∷ t) (truncate-append-drop_chars n s)

drop_chars-[] : (n : ℕ) → drop_chars n [] ≡ []
drop_chars-[] zero = refl
drop_chars-[] (suc n) = refl

pub drop_chars-drop_chars :
    (m n : ℕ) (s : String) → drop_chars n (drop_chars m s) ≡ drop_chars (m + n) s
drop_chars-drop_chars zero n s = rw (zero_add n)
  where
    zero_add : (k : ℕ) → 0 + k ≡ k
    zero_add k = omega arith
drop_chars-drop_chars (suc m) n [] = drop_chars-[] n ∙ sym (drop_chars-[] (suc m + n))
drop_chars-drop_chars (suc m) n (c ∷ s) =
    let sum : suc m + n ≡ suc (m + n) = omega arith in rw sum (drop_chars-drop_chars m n s)

pub count-drop_chars : (n : ℕ) (s : String) → count (drop_chars n s) ≡ count s - n
count-drop_chars zero s = omega arith
count-drop_chars (suc n) [] = rw count.nil (omega arith)
count-drop_chars (suc n) (c ∷ s) = let ih = count-drop_chars n s in rw count.cons (omega arith)

-- the text up to its own length, or past it
pub truncate_all : (n : ℕ) (s : String) → count s ≤ n → truncate n s ≡ s
truncate_all zero [] h = refl
truncate_all zero (c ∷ s) h = absurd_count (rw count.cons at h)
  where
    absurd_count : {n : ℕ} {A : Type 0} → suc n ≤ 0 → A
    absurd_count e = elim e [ ]
truncate_all (suc n) [] h = refl
truncate_all (suc n) (c ∷ s) h =
    ap (λ t. c ∷ t) (truncate_all n s (let k = rw count.cons at h in omega arith))

pub count-truncate_eq : (n : ℕ) (s : String) → n ≤ count s → count (truncate n s) ≡ n
count-truncate_eq zero s h = count.nil
count-truncate_eq (suc n) [] h = let k = rw count.nil at h in omega arith
count-truncate_eq (suc n) (c ∷ s) h =
    let k = rw count.cons at h in
    let ih = count-truncate_eq n s (omega arith) in rw count.cons (omega arith)

-- what is dropped lies within the first of two texts
pub drop_chars-append :
    (n : ℕ) (s t : String) → n ≤ count s → drop_chars n (s ++ t) ≡ drop_chars n s ++ t
drop_chars-append zero s t h = refl
drop_chars-append (suc n) [] t h =
    let k = rw count.nil at h in let bad : ⊥ = omega arith in elim bad [ ]
drop_chars-append (suc n) (c ∷ s) t h =
    let k = rw count.cons at h in rw cons-append (drop_chars-append n s t (omega arith))

pub text_without_chars : (s : String) → count s ≡ 0 → s ≡ []
text_without_chars [] h = refl
text_without_chars (c ∷ s) h =
    let k = rw count.cons at h in let bad : ⊥ = omega arith in elim bad [ ]
