-- ===== src/Common/Sorting.antt =====
-- Python's `sorted(xs, key=...)` and SQL's `ORDER BY` on a numeric key: a stable insertion sort.
use ai_pmo_copilot.Common.Tests.{leb, if◌then◌else◌, Bool-cases}
use ai_pmo_copilot.Common.Lists.{
  All, length, All-imp, All-select, IsElem, at_head, in_tail, last_of_list, select,
}
use Prim.Native.Nat.{ℕ, suc, ◌≤◌}
use mathlib.Core.Path.{◌≡◌, refl, ap, ◌∙◌}
use mathlib.Core.Logic.{◌⊎◌, inl, inr}
use mathlib.Core.Bool.{Bool}
use mathlib.Core.Option.{some}
use mathlib.Core.List.{List, [], ◌∷◌, ◌++◌, Perm}
use mathlib.Core.List.Perm
use native.Mathlib.Omega.{arith}

module _ {ℓ} {A : Type ℓ} (key : A → ℕ) where
  -- Before the first element whose key is as large: equal keys keep their order.
  abbrev pub insert_by : A → List A → List A
  insert_by x [] = x ∷ []
  insert_by x (y ∷ ys) = if leb (key x) (key y) then x ∷ y ∷ ys else y ∷ insert_by x ys

  abbrev pub sort_by : List A → List A
  sort_by [] = []
  sort_by (x ∷ xs) = insert_by x (sort_by xs)

  -- Every key is at most the keys behind it.
  abbrev pub IsSortedBy : List A → Type 0
  IsSortedBy [] = Unit
  IsSortedBy (x ∷ xs) = All (λ y. key x ≤ key y) xs × IsSortedBy xs

  insert_by-perm : (x : A) (xs : List A) → Perm (insert_by x xs) (x ∷ xs)
  insert_by-perm x [] = Perm.refl _
  insert_by-perm x (y ∷ ys) = elim (Bool-cases (leb (key x) (key y))) [
    | inl le ↦ rw le (Perm.refl _)
    | inr gt ↦ rw gt (Perm.trans (Perm.cons y (insert_by-perm x ys)) (Perm.swap x y ys))
  ]

  pub sort_by-perm : (xs : List A) → Perm (sort_by xs) xs
  sort_by-perm [] = Perm.refl _
  sort_by-perm (x ∷ xs) = Perm.trans (insert_by-perm x (sort_by xs)) (Perm.cons x (sort_by-perm xs))

  pub length-insert_by : (x : A) (xs : List A) → length (insert_by x xs) ≡ suc (length xs)
  length-insert_by x [] = omega arith
  length-insert_by x (y ∷ ys) = ground (arith, length-insert_by x ys)

  pub length-sort_by : (xs : List A) → length (sort_by xs) ≡ length xs
  length-sort_by [] = omega arith
  length-sort_by (x ∷ xs) = length-insert_by x (sort_by xs) ∙ ap suc (length-sort_by xs)

  pub All-insert_by {κ} :
      (P : A → Type κ) (x : A) (xs : List A) → P x → All P xs → All P (insert_by x xs)
  All-insert_by P x [] h hs = (h, tt)
  All-insert_by P x (y ∷ ys) h hs = elim (Bool-cases (leb (key x) (key y))) [
    | inl le ↦ rw le (h, hs)
    | inr gt ↦ rw gt (hs.0, All-insert_by P x ys h hs.1)
  ]

  pub All-sort_by {κ} : (P : A → Type κ) (xs : List A) → All P xs → All P (sort_by xs)
  All-sort_by P [] h = tt
  All-sort_by P (x ∷ xs) h = All-insert_by P x (sort_by xs) h.0 (All-sort_by P xs h.1)

  insert_by-IsSortedBy : (x : A) (xs : List A) → IsSortedBy xs → IsSortedBy (insert_by x xs)
  insert_by-IsSortedBy x [] h = (tt, tt)
  insert_by-IsSortedBy x (y ∷ ys) h = elim (Bool-cases (leb (key x) (key y))) [
    | inl le ↦ rw le (
      (
        ground arith,
        All-imp (λ z. key y ≤ key z) (λ z. key x ≤ key z) ys (λ z p. ground arith) h.0,
      ),
      h,
    )
    | inr gt ↦
        rw gt (
          All-insert_by (λ z. key y ≤ key z) x ys (ground arith) h.0,
          insert_by-IsSortedBy x ys h.1,
        )
  ]

  pub sort_by-IsSortedBy : (xs : List A) → IsSortedBy (sort_by xs)
  sort_by-IsSortedBy [] = tt
  sort_by-IsSortedBy (x ∷ xs) = insert_by-IsSortedBy x (sort_by xs) (sort_by-IsSortedBy xs)

  -- Sorting what is sorted changes nothing.
  insert_by-eq_of_le : (x : A) (xs : List A) → All (λ y. key x ≤ key y) xs → insert_by x xs ≡ x ∷ xs
  insert_by-eq_of_le x [] h = refl
  insert_by-eq_of_le x (y ∷ ys) h = ground arith

  pub sort_by-eq_of_IsSortedBy : (xs : List A) → IsSortedBy xs → sort_by xs ≡ xs
  sort_by-eq_of_IsSortedBy [] h = refl
  sort_by-eq_of_IsSortedBy (x ∷ xs) h =
      rw (sort_by-eq_of_IsSortedBy xs h.1) (insert_by-eq_of_le x xs h.0)

  All-of_insert_by {κ} :
      (P : A → Type κ) (x : A) (xs : List A) → All P (insert_by x xs) → P x × All P xs
  All-of_insert_by P x [] h = h
  All-of_insert_by P x (y ∷ ys) h = elim (Bool-cases (leb (key x) (key y))) [
    | inl le ↦ rw le at h
    | inr gt ↦
        let h' : P y × All P (insert_by x ys) = rw gt at h in
        let rest = All-of_insert_by P x ys h'.1 in (rest.0, (h'.0, rest.1))
  ]

  pub All-of_sort_by {κ} : (P : A → Type κ) (xs : List A) → All P (sort_by xs) → All P xs
  All-of_sort_by P [] h = tt
  All-of_sort_by P (x ∷ xs) h =
      let parts = All-of_insert_by P x (sort_by xs) h in (parts.0, All-of_sort_by P xs parts.1)

  IsElem-of_insert_by : (a x : A) (xs : List A) → IsElem a (insert_by x xs) → (a ≡ x) ⊎ IsElem a xs
  IsElem-of_insert_by a x [] (at_head e) = inl e
  IsElem-of_insert_by a x [] (in_tail m) = elim m [ ]
  IsElem-of_insert_by a x (y ∷ ys) h = elim (Bool-cases (leb (key x) (key y))) [
    | inl le ↦ from_cons (rw le at h)
    | inr gt ↦ from_rest (IsElem-of_insert_by a x ys) (rw gt at h)
  ]
    where
      from_cons : IsElem a (x ∷ y ∷ ys) → (a ≡ x) ⊎ IsElem a (y ∷ ys)
      from_cons (at_head e) = inl e
      from_cons (in_tail m) = inr m

      from_rest :
          (IsElem a (insert_by x ys) → (a ≡ x) ⊎ IsElem a ys)
          → IsElem a (y ∷ insert_by x ys)
          → (a ≡ x) ⊎ IsElem a (y ∷ ys)
      from_rest ih (at_head e) = inr (at_head e)
      from_rest ih (in_tail m) = elim (ih m) [ inl e ↦ inl e | inr k ↦ inr (in_tail k) ]

  pub IsElem-of_sort_by : (a : A) (xs : List A) → IsElem a (sort_by xs) → IsElem a xs
  IsElem-of_sort_by a [] h = h
  IsElem-of_sort_by a (x ∷ xs) h = elim (IsElem-of_insert_by a x (sort_by xs) h) [
    | inl e ↦ at_head e
    | inr m ↦ in_tail (IsElem-of_sort_by a xs m)
  ]

  IsElem-insert_by : (a x : A) (xs : List A) → (a ≡ x) ⊎ IsElem a xs → IsElem a (insert_by x xs)
  IsElem-insert_by a x [] (inl e) = at_head e
  IsElem-insert_by a x [] (inr m) = elim m [ ]
  IsElem-insert_by a x (y ∷ ys) h = elim (Bool-cases (leb (key x) (key y))) [
    | inl le ↦ rw le (before h)
    | inr gt ↦ rw gt (behind (IsElem-insert_by a x ys) h)
  ]
    where
      before : (a ≡ x) ⊎ IsElem a (y ∷ ys) → IsElem a (x ∷ y ∷ ys)
      before (inl e) = at_head e
      before (inr m) = in_tail m

      behind :
          ((a ≡ x) ⊎ IsElem a ys → IsElem a (insert_by x ys))
          → (a ≡ x) ⊎ IsElem a (y ∷ ys)
          → IsElem a (y ∷ insert_by x ys)
      behind ih (inl e) = in_tail (ih (inl e))
      behind ih (inr (at_head e)) = at_head e
      behind ih (inr (in_tail m)) = in_tail (ih (inr m))

  pub IsElem-sort_by : (a : A) (xs : List A) → IsElem a xs → IsElem a (sort_by xs)
  IsElem-sort_by a [] h = h
  IsElem-sort_by a (x ∷ xs) (at_head e) = IsElem-insert_by a x (sort_by xs) (inl e)
  IsElem-sort_by a (x ∷ xs) (in_tail m) =
      IsElem-insert_by a x (sort_by xs) (inr (IsElem-sort_by a xs m))

  -- The last of a sorted list is an element of it with the largest key.
  pub last_of_list-largest :
      (x : A) (xs : List A)
      → IsSortedBy (x ∷ xs)
      → (y : A) × (last_of_list (x ∷ xs) ≡ some y)
        × IsElem y (x ∷ xs)
        × All (λ z. key z ≤ key y) (x ∷ xs)
  last_of_list-largest x [] h = (x, refl, at_head refl, (omega arith, tt))
  last_of_list-largest x (x' ∷ xs) h =
      let (y, e, m, le) = last_of_list-largest x' xs h.1 in (y, e, in_tail m, (omega arith, le))

  pub select-IsSortedBy : (p : A → Bool) (xs : List A) → IsSortedBy xs → IsSortedBy (select p xs)
  select-IsSortedBy p [] h = tt
  select-IsSortedBy p (x ∷ xs) h = elim (Bool-cases (p x)) [
    | inl keep ↦ rw keep (All-select (λ y. key x ≤ key y) p xs h.0, select-IsSortedBy p xs h.1)
    | inr drop ↦ rw drop (select-IsSortedBy p xs h.1)
  ]

  insert_by-append_last :
      (x s : A) (ys : List A)
      → key x ≤ key s
      → insert_by x (ys ++ s ∷ []) ≡ insert_by x ys ++ s ∷ []
  insert_by-append_last x s [] h = ground arith
  insert_by-append_last x s (y ∷ ys) h = ground (arith, insert_by-append_last x s ys h)

  -- What has the largest key stays last.
  pub sort_by-append_last :
      (xs : List A) (s : A)
      → All (λ x. key x ≤ key s) xs
      → sort_by (xs ++ s ∷ []) ≡ sort_by xs ++ s ∷ []
  sort_by-append_last [] s h = refl
  sort_by-append_last (x ∷ xs) s h =
      rw (sort_by-append_last xs s h.1) (insert_by-append_last x s (sort_by xs) h.0)
