-- ===== src/Common/Lists.antt =====
-- Lists measured by native numbers, Boolean filters, and predicates on the elements of a list.
use Prim.Native.Nat.{ℕ, zero, suc, ◌+◌, ◌≤◌, ◌<◌}
use mathlib.Core.Path.{◌≡◌, refl, sym, ap, subst, ◌∙◌}
use mathlib.Core.Logic.{◌≢◌}
use mathlib.Core.Bool.{Bool, true, false, ◌||◌}
use mathlib.Core.Option.{Option, none, some}
use mathlib.Core.List.{List, [], ◌∷◌, ◌++◌, map}
use native.Mathlib.Omega.{arith}
use ai_pmo_copilot.Common.Tests.{if◌then◌else◌, ◌==◌}

module _ {ℓ} {A : Type ℓ} where
  abbrev pub length : List A → ℕ
  length [] = 0
  length (x ∷ xs) = suc (length xs)

  -- `[x for x in xs if p(x)]`
  abbrev pub select : (A → Bool) → List A → List A
  select p [] = []
  select p (x ∷ xs) = if p x then x ∷ select p xs else select p xs

  -- `any(p(x) for x in xs)`
  abbrev pub any_of : (A → Bool) → List A → Bool
  any_of p [] = false
  any_of p (x ∷ xs) = p x || any_of p xs

  -- `.first()` of a filtered query
  abbrev pub find_first : (A → Bool) → List A → Option A
  find_first p [] = none
  find_first p (x ∷ xs) = if p x then some x else find_first p xs

  abbrev pub first_of_list : List A → Option A
  first_of_list [] = none
  first_of_list (x ∷ xs) = some x

  -- `xs[-1]`
  abbrev pub last_of_list : List A → Option A
  last_of_list [] = none
  last_of_list (x ∷ []) = some x
  last_of_list (x ∷ y ∷ xs) = last_of_list (y ∷ xs)

  -- `.limit(n)`
  abbrev pub limited : ℕ → List A → List A
  limited zero xs = []
  limited (suc n) [] = []
  limited (suc n) (x ∷ xs) = x ∷ limited n xs

  -- A predicate by recursion computes to tuples, which the tactics read and build.
  abbrev pub All {κ} : (A → Type κ) → List A → Type κ
  All P [] = Unit
  All P (x ∷ xs) = P x × All P xs

  -- `x` stands somewhere in the list.
  pub data IsElem (x : A) : List A → Type ℓ where
    at_head : {y : A} {ys : List A} → x ≡ y → IsElem x (y ∷ ys)
    in_tail : {y : A} {ys : List A} → IsElem x ys → IsElem x (y ∷ ys)

module _ {ℓ} {A : Type ℓ} where
  pub length-append : (xs ys : List A) → length (xs ++ ys) ≡ length xs + length ys
  length-append [] ys = omega arith
  length-append (x ∷ xs) ys = omega (arith, length-append xs ys)

  pub length-select-le : (p : A → Bool) (xs : List A) → length (select p xs) ≤ length xs
  length-select-le p [] = omega arith
  length-select-le p (x ∷ xs) = ground (arith, length-select-le p xs)

  pub select-append :
      (p : A → Bool) (xs ys : List A) → select p (xs ++ ys) ≡ select p xs ++ select p ys
  select-append p [] ys = refl
  select-append p (x ∷ xs) ys = ground (arith, select-append p xs ys)

  pub All-append {κ} : (P : A → Type κ) (xs ys : List A) → All P xs → All P ys → All P (xs ++ ys)
  All-append P [] ys hx hy = hy
  All-append P (x ∷ xs) ys hx hy = (hx.0, All-append P xs ys hx.1 hy)

  pub All-select {κ} :
      (P : A → Type κ) (p : A → Bool) (xs : List A) → All P xs → All P (select p xs)
  All-select P p [] h = tt
  All-select P p (x ∷ xs) h = go (p x) (All-select P p xs h.1)
    where
      go : (b : Bool) → All P (select p xs) → All P (if b then x ∷ select p xs else select p xs)
      go true rest = (h.0, rest)
      go false rest = rest

  pub All-map {κ μ} :
      {B : Type μ} (P : B → Type κ) (f : A → B) (xs : List A)
      → All (λ x. P (f x)) xs
      → All P (map f xs)
  All-map P f [] h = tt
  All-map P f (x ∷ xs) h = (h.0, All-map P f xs h.1)

  pub All-of_forall {κ} : (P : A → Type κ) (xs : List A) → ((x : A) → P x) → All P xs
  All-of_forall P [] h = tt
  All-of_forall P (x ∷ xs) h = (h x, All-of_forall P xs h)

  pub All-imp {κ μ} :
      (P : A → Type κ) (Q : A → Type μ) (xs : List A) → ((x : A) → P x → Q x) → All P xs → All Q xs
  All-imp P Q [] f h = tt
  All-imp P Q (x ∷ xs) f h = (f x h.0, All-imp P Q xs f h.1)

module _ {ℓ} {A : Type ℓ} where
  -- A non-empty list has a last element, which satisfies what all of its elements do.
  pub last_of_list-All {κ} :
      (P : A → Type κ) (x : A) (xs : List A)
      → All P (x ∷ xs)
      → (y : A) × (last_of_list (x ∷ xs) ≡ some y) × P y
  last_of_list-All P x [] h = (x, refl, h.0)
  last_of_list-All P x (y ∷ ys) h = last_of_list-All P y ys h.1

  pub last_of_list-ne_none : (x : A) (xs : List A) → last_of_list (x ∷ xs) ≢ none
  last_of_list-ne_none x [] = ground arith
  last_of_list-ne_none x (y ∷ ys) = last_of_list-ne_none y ys

  pub All-of_select {κ} :
      (P : A → Type κ) (p : A → Bool) (xs : List A)
      → All P (select p xs)
      → All (λ x. p x ≡ true → P x) xs
  All-of_select P p [] h = tt
  All-of_select P p (x ∷ xs) h = go (p x) refl (All-of_select P p xs) h
    where
      go :
          (b : Bool)
          → p x ≡ b
          → (All P (select p xs) → All (λ y. p y ≡ true → P y) xs)
          → All P (if b then x ∷ select p xs else select p xs)
          → All (λ y. p y ≡ true → P y) (x ∷ xs)
      go true e ih k = (λ _. k.0, ih k.1)
      go false e ih k = ((λ t. cc), ih k)

  pub IsElem-of_select :
      (a : A) (p : A → Bool) (xs : List A) → IsElem a (select p xs) → IsElem a xs × (p a ≡ true)
  IsElem-of_select a p [] h = elim h [ ]
  IsElem-of_select a p (x ∷ xs) h = go (p x) refl (IsElem-of_select a p xs) h
    where
      go :
          (b : Bool)
          → p x ≡ b
          → (IsElem a (select p xs) → IsElem a xs × (p a ≡ true))
          → IsElem a (if b then x ∷ select p xs else select p xs)
          → IsElem a (x ∷ xs) × (p a ≡ true)
      go true e ih (at_head q) = (at_head q, ap p q ∙ e)
      go true e ih (in_tail m) = let k = ih m in (in_tail k.0, k.1)
      go false e ih m = let k = ih m in (in_tail k.0, k.1)

  -- A filter that drops everything at the end.
  pub select-append_none :
      (p : A → Bool) (xs ys : List A)
      → All (λ y. p y ≡ false) ys
      → select p (xs ++ ys) ≡ select p xs
  select-append_none p [] [] h = refl
  select-append_none p [] (y ∷ ys) h = ground (arith, select-append_none p [] ys h.1)
  select-append_none p (x ∷ xs) ys h = ground (arith, select-append_none p xs ys h)

module _ {ℓ} {A : Type ℓ} where
  pub find_first-append :
      (p : A → Bool) (xs ys : List A) (a : A)
      → find_first p xs ≡ some a
      → find_first p (xs ++ ys) ≡ some a
  find_first-append p [] ys a h = cc
  find_first-append p (x ∷ xs) ys a h = ground (arith, find_first-append p xs ys a)

  pub find_first-append_none :
      (p : A → Bool) (xs ys : List A)
      → find_first p xs ≡ none
      → find_first p (xs ++ ys) ≡ find_first p ys
  find_first-append_none p [] ys h = refl
  find_first-append_none p (x ∷ xs) ys h = ground (arith, find_first-append_none p xs ys)

  -- What is found is an element that passes the test.
  pub find_first-IsElem :
      (p : A → Bool) (xs : List A) (a : A) → find_first p xs ≡ some a → IsElem a xs × (p a ≡ true)
  find_first-IsElem p [] a h = cc
  find_first-IsElem p (x ∷ xs) a h = go (p x) refl (find_first-IsElem p xs a) h
    where
      go :
          (b : Bool)
          → p x ≡ b
          → (find_first p xs ≡ some a → IsElem a xs × (p a ≡ true))
          → (if b then some x else find_first p xs) ≡ some a
          → IsElem a (x ∷ xs) × (p a ≡ true)
      go true e ih q = let same : x ≡ a = cc in (at_head (sym same), ap p (sym same) ∙ e)
      go false e ih q = let k = ih q in (in_tail k.0, k.1)

  -- An element that satisfies what all do.
  pub All-at {κ} : (P : A → Type κ) (a : A) (xs : List A) → All P xs → IsElem a xs → P a
  All-at P a [] h m = elim m [ ]
  All-at P a (x ∷ xs) h (at_head e) = subst P (sym e) h.0
  All-at P a (x ∷ xs) h (in_tail m) = All-at P a xs h.1 m

  pub All-of_elem {κ} : (P : A → Type κ) (xs : List A) → ((a : A) → IsElem a xs → P a) → All P xs
  All-of_elem P [] h = tt
  All-of_elem P (x ∷ xs) h = (h x (at_head refl), All-of_elem P xs (λ a m. h a (in_tail m)))

  pub last_of_list-IsElem : (xs : List A) (a : A) → last_of_list xs ≡ some a → IsElem a xs
  last_of_list-IsElem [] a h = cc
  last_of_list-IsElem (x ∷ []) a h = let same : x ≡ a = cc in at_head (sym same)
  last_of_list-IsElem (x ∷ y ∷ xs) a h = in_tail (last_of_list-IsElem (y ∷ xs) a h)

  pub last_of_list-append : (xs : List A) (a : A) → last_of_list (xs ++ a ∷ []) ≡ some a
  last_of_list-append [] a = refl
  last_of_list-append (x ∷ []) a = refl
  last_of_list-append (x ∷ y ∷ xs) a = last_of_list-append (y ∷ xs) a

  -- A row with a fresh key, at the end of a table: it is found, and no other row is lost.
  pub All-found_append :
      (key : A → ℕ) (next : ℕ) (xs : List A) (a : A)
      → All (λ x. key x < next) xs
      → All (λ x. find_first (λ y. key y == key x) xs ≡ some x) xs
      → key a ≡ next
      → All (λ x. find_first (λ y. key y == key x) (xs ++ a ∷ []) ≡ some x) (xs ++ a ∷ [])
  All-found_append key next xs a fresh found new =
      All-append (λ x. find_first (λ y. key y == key x) (xs ++ a ∷ []) ≡ some x) xs (a ∷ [])
        (All-imp (λ x. find_first (λ y. key y == key x) xs ≡ some x)
          (λ x. find_first (λ y. key y == key x) (xs ++ a ∷ []) ≡ some x) xs
          (λ x h. find_first-append (λ y. key y == key x) xs (a ∷ []) x h) found)
        (
          find_first-append_none (λ y. key y == key a) xs (a ∷ []) (none_found xs fresh)
              ∙ first_found,
          tt,
        )
    where
      first_found : find_first (λ y. key y == key a) (a ∷ []) ≡ some a
      first_found = ground arith

      none_found :
          (ys : List A) → All (λ x. key x < next) ys → find_first (λ y. key y == key a) ys ≡ none
      none_found [] h = refl
      none_found (y ∷ ys) h = let rest = none_found ys h.1 in ground arith

  pub IsElem-select :
      (a : A) (p : A → Bool) (xs : List A) → IsElem a xs → p a ≡ true → IsElem a (select p xs)
  IsElem-select a p [] h k = elim h [ ]
  IsElem-select a p (x ∷ xs) (at_head e) k = rw (ap p (sym e) ∙ k) (at_head e)
  IsElem-select a p (x ∷ xs) (in_tail m) k = go (p x) (IsElem-select a p xs m k)
    where
      go :
          (b : Bool)
          → IsElem a (select p xs)
          → IsElem a (if b then x ∷ select p xs else select p xs)
      go true rest = in_tail rest
      go false rest = rest

  pub IsElem-last : (xs : List A) (a : A) → IsElem a (xs ++ a ∷ [])
  IsElem-last [] a = at_head refl
  IsElem-last (x ∷ xs) a = in_tail (IsElem-last xs a)

module _ {ℓ} {A : Type ℓ} where
  pub select_none : (p : A → Bool) (xs : List A) → All (λ x. p x ≡ false) xs → select p xs ≡ []
  select_none p [] h = refl
  select_none p (x ∷ xs) h = let rest = select_none p xs h.1 in rw h.0 rest

  pub select_all : (p : A → Bool) (xs : List A) → All (λ x. p x ≡ true) xs → select p xs ≡ xs
  select_all p [] h = refl
  select_all p (x ∷ xs) h = let rest = select_all p xs h.1 in rw h.0 (ap (λ ys. x ∷ ys) rest)

  pub All-select_of {κ} :
      (P : A → Type κ) (p : A → Bool) (xs : List A)
      → All (λ x. p x ≡ true → P x) xs
      → All P (select p xs)
  All-select_of P p [] h = tt
  All-select_of P p (x ∷ xs) h = go (p x) refl (All-select_of P p xs h.1)
    where
      go :
          (b : Bool)
          → p x ≡ b
          → All P (select p xs)
          → All P (if b then x ∷ select p xs else select p xs)
      go true e rest = (h.0 e, rest)
      go false e rest = rest

  pub All-of_map {κ μ} :
      {B : Type μ} (P : B → Type κ) (f : A → B) (xs : List A)
      → All P (map f xs)
      → All (λ x. P (f x)) xs
  All-of_map P f [] h = tt
  All-of_map P f (x ∷ xs) h = (h.0, All-of_map P f xs h.1)

  pub map-append {μ} :
      {B : Type μ} (f : A → B) (xs ys : List A) → map f (xs ++ ys) ≡ map f xs ++ map f ys
  map-append f [] ys = refl
  map-append f (x ∷ xs) ys = ap (λ zs. f x ∷ zs) (map-append f xs ys)
