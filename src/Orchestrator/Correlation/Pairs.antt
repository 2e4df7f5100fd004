-- ===== src/Orchestrator/Correlation/Pairs.antt =====
-- Which pairs are correlated.
use ai_pmo_copilot.Common.{
  ℕ, zero, suc, ◌+◌, String, ◌≡◌, ◌≢◌, refl, ap, ◌↔◌, ◌⊎◌, inl, inr, Bool-cases, true, false, List,
  [], ◌∷◌, ◌++◌, map, length, length-append, select, All, All-append, All-map, All-imp, All-at,
  All-of_elem, IsElem, at_head, in_tail, IsElem-of_select, IsElem-select, arith, any_of, eq_iff,
  str_leb,
}
use ai_pmo_copilot.Orchestrator.Types.{AttributedExplanation, CorrelationFinding, Evidence}
use ai_pmo_copilot.Orchestrator.Correlation.{
  is_cited, has_real_evidence, sorted_pair, finding_of, pair_findings, correlate, same_pair,
  structural_pairs,
}

-- 0 + 1 + ... + (n - 1)
abbrev pub pairs : ℕ → ℕ
pairs zero = 0
pairs (suc n) = n + pairs n

same_pair_iff : (n t : String × String) → (same_pair n t ≡ true) ↔ ((n ≡ t) ⊎ ((n.1, n.0) ≡ t))
same_pair_iff (a, b) (c, d) = (
  λ h. ground (arith, eq_iff a c, eq_iff b d, eq_iff a d, eq_iff b c, h),
  λ h. elim h [
    | inl e ↦
        let first : a ≡ c = ap (λ (p : String × String). p.0) e in
        let second : b ≡ d = ap (λ (p : String × String). p.1) e in
        ground (arith, eq_iff a c, eq_iff b d, eq_iff a d, eq_iff b c)
    | inr e ↦
        let first : b ≡ c = ap (λ (p : String × String). p.0) e in
        let second : a ≡ d = ap (λ (p : String × String). p.1) e in
        ground (arith, eq_iff a c, eq_iff b d, eq_iff a d, eq_iff b c)
  ],
)

any_of-same_pair :
    (n : String × String) (table : List (String × String))
    → (any_of (same_pair n) table ≡ true) ↔ (IsElem n table ⊎ IsElem (n.1, n.0) table)
any_of-same_pair n [] = (λ h. cc, λ h. elim h [ inl m ↦ elim m [ ] | inr m ↦ elim m [ ] ])
any_of-same_pair n (t ∷ ts) = (
  λ h. elim (Bool-cases (same_pair n t)) [
    | inl same ↦ elim ((same_pair_iff n t).0 same) [
      | inl e ↦ inl (at_head e)
      | inr e ↦ inr (at_head e)
    ]
    | inr other ↦
        let rest : any_of (same_pair n) ts ≡ true = ground (arith, h) in
        elim ((any_of-same_pair n ts).0 rest) [ inl m ↦ inl (in_tail m) | inr m ↦ inr (in_tail m) ]
  ],
  λ h. elim h [
    | inl (at_head e) ↦ let s = (same_pair_iff n t).1 (inl e) in ground arith
    | inl (in_tail m) ↦ let r = (any_of-same_pair n ts).1 (inl m) in ground arith
    | inr (at_head e) ↦ let s = (same_pair_iff n t).1 (inr e) in ground arith
    | inr (in_tail m) ↦ let r = (any_of-same_pair n ts).1 (inr m) in ground arith
  ],
)

-- The names of two advisors in the order of texts.
abbrev pub AreSorted : String → String → String × String → Type 0
AreSorted a b names =
    ((str_leb a b ≡ true) × (names ≡ (a, b))) ⊎ ((str_leb a b ≡ false) × (names ≡ (b, a)))

sorted_pair-AreSorted : (a b : String) → AreSorted a b (sorted_pair a b)
sorted_pair-AreSorted a b = elim (Bool-cases (str_leb a b)) [
  | inl before ↦ rw before (inl (refl, refl))
  | inr after ↦ rw after (inr (refl, refl))
]

module _ {D : Type 0} where
  length-map :
      (f : AttributedExplanation D → CorrelationFinding D) (xs : List (AttributedExplanation D))
      → length (map f xs) ≡ length xs
  length-map f [] = refl
  length-map f (x ∷ xs) = omega (arith, length-map f xs)

  length-pair_findings :
      (xs : List (AttributedExplanation D)) → length (pair_findings xs) ≡ pairs (length xs)
  unfolding pair_findings
  length-pair_findings [] = refl
  length-pair_findings (x ∷ xs) =
      let joined = length-append (map (finding_of x) xs) (pair_findings xs) in
      let mapped = length-map (finding_of x) xs in let ih = length-pair_findings xs in omega arith

  -- `a` stands before `b` in the list.
  abbrev pub IsBefore :
      AttributedExplanation D → AttributedExplanation D → List (AttributedExplanation D) → Type 0
  IsBefore a b [] = ⊥
  IsBefore a b (x ∷ xs) = ((a ≡ x) × IsElem b xs) ⊎ IsBefore a b xs

  abbrev pub Cites : AttributedExplanation D → Type 0
  Cites x = x.explanation.recommendation.cited_evidence ≢ []

  -- A finding is about two explanations of the list that both cite evidence, and names their
  -- advisors; it is structural exactly if the two names are a pair of the table, in either order.
  abbrev pub IsFinding : List (AttributedExplanation D) → CorrelationFinding D → Type 0
  IsFinding explanations finding =
      IsBefore finding.explanations.0 finding.explanations.1 explanations
      × Cites finding.explanations.0
      × Cites finding.explanations.1
      × AreSorted finding.explanations.0.advisor_name finding.explanations.1.advisor_name
          finding.advisor_names
      × ((finding.is_structural_pair ≡ true) ↔ (
          IsElem finding.advisor_names structural_pairs
          ⊎ IsElem (finding.advisor_names.1, finding.advisor_names.0) structural_pairs))

  has_real_evidence-Cites : (x : AttributedExplanation D) → has_real_evidence x ≡ true → Cites x
  unfolding has_real_evidence
  has_real_evidence-Cites x h none_cited =
      let e : is_cited {D = D} [] ≡ true = rw none_cited at h in cc

  Cites-has_real_evidence : (x : AttributedExplanation D) → Cites x → has_real_evidence x ≡ true
  unfolding has_real_evidence
  Cites-has_real_evidence x h = go x.explanation.recommendation.cited_evidence h
    where
      go : (es : List (Evidence D)) → es ≢ [] → is_cited es ≡ true
      go [] k = elim (k refl) [ ]
      go (e ∷ es) k = refl

  IsBefore-of_select :
      (a b : AttributedExplanation D) (xs : List (AttributedExplanation D))
      → IsBefore a b (select has_real_evidence xs)
      → IsBefore a b xs
  IsBefore-of_select a b [] h = h
  IsBefore-of_select a b (x ∷ xs) h = elim (Bool-cases (has_real_evidence x)) [
    | inl cites ↦
        let k : ((a ≡ x) × IsElem b (select has_real_evidence xs))
            ⊎ IsBefore a b (select has_real_evidence xs) =
          rw cites at h in
        elim k [
          | inl (e, m) ↦ inl (e, (IsElem-of_select b has_real_evidence xs m).0)
          | inr m ↦ inr (IsBefore-of_select a b xs m)
        ]
    | inr silent ↦
        let k : IsBefore a b (select has_real_evidence xs) = rw silent at h in
        inr (IsBefore-of_select a b xs k)
  ]

  IsBefore-select :
      (a b : AttributedExplanation D) (xs : List (AttributedExplanation D))
      → has_real_evidence a ≡ true
      → has_real_evidence b ≡ true
      → IsBefore a b xs
      → IsBefore a b (select has_real_evidence xs)
  IsBefore-select a b [] ha hb h = h
  IsBefore-select a b (x ∷ xs) ha hb (inl (e, m)) =
      let here : has_real_evidence x ≡ true = rw e at ha in
      rw here (inl (e, IsElem-select b has_real_evidence xs m hb))
  IsBefore-select a b (x ∷ xs) ha hb (inr m) =
      let rest = IsBefore-select a b xs ha hb m in
      elim (Bool-cases (has_real_evidence x)) [
        | inl cites ↦ rw cites (inr rest)
        | inr silent ↦ rw silent rest
      ]

  IsElem-append_left :
      (xs ys : List (CorrelationFinding D)) (a : CorrelationFinding D)
      → IsElem a xs
      → IsElem a (xs ++ ys)
  IsElem-append_left [] ys a m = elim m [ ]
  IsElem-append_left (x ∷ xs) ys a (at_head e) = at_head e
  IsElem-append_left (x ∷ xs) ys a (in_tail m) = in_tail (IsElem-append_left xs ys a m)

  IsElem-append_right :
      (xs ys : List (CorrelationFinding D)) (a : CorrelationFinding D)
      → IsElem a ys
      → IsElem a (xs ++ ys)
  IsElem-append_right [] ys a m = m
  IsElem-append_right (x ∷ xs) ys a m = in_tail (IsElem-append_right xs ys a m)

  finding_of-IsFinding :
      (a b : AttributedExplanation D) (xs : List (AttributedExplanation D))
      → IsBefore a b xs
      → has_real_evidence a ≡ true
      → has_real_evidence b ≡ true
      → IsFinding xs (finding_of a b)
  finding_of-IsFinding a b xs h ha hb = (
    h,
    has_real_evidence-Cites a ha,
    has_real_evidence-Cites b hb,
    sorted_pair-AreSorted a.advisor_name b.advisor_name,
    any_of-same_pair (sorted_pair a.advisor_name b.advisor_name) structural_pairs,
  )

  pair_findings-IsFinding :
      (xs : List (AttributedExplanation D))
      → All (λ x. has_real_evidence x ≡ true) xs
      → All (IsFinding xs) (pair_findings xs)
  unfolding pair_findings
  pair_findings-IsFinding [] h = tt
  pair_findings-IsFinding (x ∷ xs) (e, h) =
      All-append (IsFinding (x ∷ xs)) (map (finding_of x) xs) (pair_findings xs)
        (All-map (IsFinding (x ∷ xs)) (finding_of x) xs (
          All-of_elem (λ y. IsFinding (x ∷ xs) (finding_of x y)) xs
            λ y m.
              finding_of-IsFinding x y (x ∷ xs) (inl (refl, m)) e
                (All-at (λ z. has_real_evidence z ≡ true) y xs h m)))
        (All-imp (IsFinding xs) (IsFinding (x ∷ xs)) (pair_findings xs)
          (λ f k. (inr k.0, k.1, k.2, k.3, k.4)) (pair_findings-IsFinding xs h))

  IsElem-map :
      (f : AttributedExplanation D → CorrelationFinding D) (x : AttributedExplanation D)
      (xs : List (AttributedExplanation D))
      → IsElem x xs
      → IsElem (f x) (map f xs)
  IsElem-map f x [] m = elim m [ ]
  IsElem-map f x (y ∷ ys) (at_head e) = at_head (ap f e)
  IsElem-map f x (y ∷ ys) (in_tail m) = in_tail (IsElem-map f x ys m)

  pair_findings_complete :
      (a b : AttributedExplanation D) (xs : List (AttributedExplanation D))
      → IsBefore a b xs
      → IsElem (finding_of a b) (pair_findings xs)
  unfolding pair_findings
  pair_findings_complete a b [] h = elim h [ ]
  pair_findings_complete a b (x ∷ xs) (inl (e, m)) =
      IsElem-append_left (map (finding_of x) xs) (pair_findings xs) (finding_of a b)
        (rw e (IsElem-map (finding_of x) b xs m))
  pair_findings_complete a b (x ∷ xs) (inr h) =
      IsElem-append_right (map (finding_of x) xs) (pair_findings xs) (finding_of a b)
        (pair_findings_complete a b xs h)

  -- Of `n` explanations that cite evidence there are `n (n - 1) / 2` findings. Each is about two
  -- explanations of the list that cite evidence, one before the other, names their two advisors in the
  -- order of texts, and is structural exactly if the table has the pair of names, in either order; and
  -- of any two explanations that cite evidence, one before the other in the list, there is a finding.
  pub correlate-pairs :
      (explanations : List (AttributedExplanation D))
      → (length (correlate explanations) ≡ pairs (length (select has_real_evidence explanations)))
        × All (IsFinding explanations) (correlate explanations)
        × ((a b : AttributedExplanation D)
            → IsBefore a b explanations
            → Cites a
            → Cites b
            → (finding : CorrelationFinding D) × IsElem finding (correlate explanations)
              × (finding.explanations ≡ (a, b)))
  unfolding correlate
  correlate-pairs explanations =
      let grounded = select has_real_evidence explanations in
      (
        length-pair_findings grounded,
        All-imp (IsFinding grounded) (IsFinding explanations) (pair_findings grounded)
            (λ f k. (
              IsBefore-of_select f.explanations.0 f.explanations.1 explanations k.0,
              k.1,
              k.2,
              k.3,
              k.4,
            ))
            (pair_findings-IsFinding grounded (
              All-of_elem (λ x. has_real_evidence x ≡ true) grounded
                (λ x m. (IsElem-of_select x has_real_evidence explanations m).1))),
        λ a b h ha hb.
            let before =
              IsBefore-select a b explanations (Cites-has_real_evidence a ha)
                (Cites-has_real_evidence b hb) h in
            (finding_of a b, pair_findings_complete a b grounded before, refl),
      )
