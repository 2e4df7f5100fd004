-- ===== src/Orchestrator/Selection/Soundness.antt =====
-- Which advisors the selection rule lets through.
use ai_pmo_copilot.Common.{
  All-of_elem, ◌↔◌, ℕ, String, ◌≡◌, ◌≢◌, refl, sym, ap, ◌∙◌, Bool, true, false, Option, none, some,
  List, [], ◌∷◌, ◌&&◌, map, Result, ok, err, ◌>>=◌, Ensures, All, IsElem, at_head, in_tail, is_none,
  if◌then◌else◌, or_raise,
}
use ai_pmo_copilot.Orchestrator.Types.{
  Exn, key_error, AdvisorIdentity, OrchestrationScope, SelectionSignals, SelectionOutcome,
}
use ai_pmo_copilot.Orchestrator.Catalog.{
  advisor_identity_catalog, vocabulary, advisor_eligible_scopes,
  advisor_names_requiring_portfolio_id,
}
use ai_pmo_copilot.Orchestrator.Selection.{
  is_in, entry_of, matches_vocabulary, matches_question_text, scope_type,
  meets_structural_precondition, is_selected, filtered, evaluate_selection_rule, traced_signals,
}

-- A call that returns.
abbrev pub IsOk : {B : Type 0} → Result Exn B → Type 0
IsOk {B} r = (b : B) × (r ≡ ok b)

pub IsOk-bind :
    {A B : Type 0} (m : Result Exn A) (f : A → Result Exn B)
    → IsOk m
    → ((a : A) → IsOk (f a))
    → IsOk (m >>= f)
IsOk-bind m f (a, e) h = rw e (h a)

IsOk-or_raise : {A : Type 0} (e : Exn) (o : Option A) → o ≢ none → IsOk (or_raise e o)
IsOk-or_raise e none h = elim (h refl) [ ]
IsOk-or_raise e (some a) h = (a, refl)

pub IsOk-if :
    {A : Type 0} (b : Bool) (x y : Result Exn A) → IsOk x → IsOk y → IsOk (if b then x else y)
IsOk-if true x y hx hy = hx
IsOk-if false x y hx hy = hy

module _ {A : Type 0} (test : A → Result Exn Bool) where
  -- What a comprehension that returns holds: the elements that passed, and no other.
  abbrev pub IsFilter : List A → List A → Type 0
  IsFilter xs ys =
      ((x : A) → IsElem x ys → IsElem x xs × (test x ≡ ok true))
      × ((x : A) → IsElem x xs → test x ≡ ok true → IsElem x ys)

  absurd : {B : Type 0} (r : Result Exn Bool) → r ≡ ok false → r ≡ ok true → B
  absurd r e t = cc

  IsFilter-[] : IsFilter [] []
  IsFilter-[] = (λ x m. elim m [ ], λ x m. elim m [ ])

  IsFilter-∷ :
      (x : A) (keep : Bool) (xs ys : List A)
      → test x ≡ ok keep
      → IsFilter xs ys
      → IsFilter (x ∷ xs) (if keep then x ∷ ys else ys)
  IsFilter-∷ x true xs ys e (sound, full) = (
    λ y m. elim m [
      | at_head same ↦ (at_head same, ap test same ∙ e)
      | in_tail rest ↦ let r = sound y rest in (in_tail r.0, r.1)
    ],
    λ y m t. elim m [ at_head same ↦ at_head same | in_tail rest ↦ in_tail (full y rest t) ],
  )
  IsFilter-∷ x false xs ys e (sound, full) = (
    λ y m. let r = sound y m in (in_tail r.0, r.1),
    λ y m t. elim m [
      | at_head same ↦ absurd (test y) (ap test same ∙ e) t
      | in_tail rest ↦ full y rest t
    ],
  )

  step-IsFilter :
      (x : A) (xs : List A) (r : Result Exn Bool) (rs : Result Exn (List A))
      → test x ≡ r
      → Ensures (IsFilter xs) rs
      → Ensures
          (IsFilter (x ∷ xs))
          (r >>= λ keep. rs >>= λ rest. ok (if keep then x ∷ rest else rest))
  step-IsFilter x xs (err e) rs t h = tt
  step-IsFilter x xs (ok keep) (err e) t h = tt
  step-IsFilter x xs (ok keep) (ok ys) t h = IsFilter-∷ x keep xs ys t h

  filtered-IsFilter : (xs : List A) → Ensures (IsFilter xs) (filtered test xs)
  filtered-IsFilter [] = IsFilter-[]
  filtered-IsFilter (x ∷ xs) =
      step-IsFilter x xs (test x) (filtered test xs) refl (filtered-IsFilter xs)

  filtered-IsOk : (xs : List A) → All (λ x. IsOk (test x)) xs → IsOk (filtered test xs)
  filtered-IsOk [] h = ([], refl)
  filtered-IsOk (x ∷ xs) ((b, e), h) = let (ys, es) = filtered-IsOk xs h in rw (e, es) (_, refl)

-- The scope is one that the advisor is eligible under, and has the portfolio that the advisor needs.
abbrev pub IsEligible : OrchestrationScope → String → Type 0
IsEligible scope name =
    ((scopes : List String) × (entry_of name advisor_eligible_scopes ≡ some scopes)
      × (is_in scopes (scope_type scope) ≡ true))
    × ((is_in advisor_names_requiring_portfolio_id name && is_none scope.portfolio_id) ≡ false)

scopes_pass :
    (o : Option (List String)) (kind : String)
    → (or_raise key_error o >>= λ scopes. ok (is_in scopes kind)) ≡ ok true
    → (scopes : List String) × (o ≡ some scopes) × (is_in scopes kind ≡ true)
scopes_pass none kind e = cc
scopes_pass (some scopes) kind e = (scopes, refl, cc)

guard_pass :
    (guard : Bool) (rest : Result Exn Bool)
    → (if guard then ok false else rest) ≡ ok true
    → (guard ≡ false) × (rest ≡ ok true)
guard_pass true rest e = cc
guard_pass false rest e = (refl, e)

meets-IsEligible :
    (name : String) (scope : OrchestrationScope)
    → meets_structural_precondition name scope ≡ ok true
    → IsEligible scope name
unfolding meets_structural_precondition
meets-IsEligible name scope e =
    let (open_to, rest) =
      guard_pass (is_in advisor_names_requiring_portfolio_id name && is_none scope.portfolio_id) _
        e in
    (scopes_pass (entry_of name advisor_eligible_scopes) (scope_type scope) rest, open_to)

both_pass :
    (r rest : Result Exn Bool)
    → (r >>= λ matching. if matching then rest else ok false) ≡ ok true
    → (r ≡ ok true) × (rest ≡ ok true)
both_pass (err x) rest e = cc
both_pass (ok true) rest e = (refl, e)
both_pass (ok false) rest e = cc

is_selected-IsEligible :
    (lower : String → String) (signals : SelectionSignals) (name : String)
    → is_selected lower signals name ≡ ok true
    → IsEligible signals.scope name
unfolding is_selected
is_selected-IsEligible lower signals name e =
    meets-IsEligible name signals.scope (both_pass _ _ e).1

abbrev of_identity : (String → String) → SelectionSignals → AdvisorIdentity → Result Exn Bool
of_identity lower signals identity = is_selected lower signals identity.name

-- A selection of the catalog: exactly the identities that pass the rule's condition, in which each is
-- eligible under the scope.
abbrev pub IsSelection :
    (String → String) → SelectionSignals → List AdvisorIdentity → SelectionOutcome → Type 0
IsSelection lower signals catalog outcome =
    ((identity : AdvisorIdentity)
      → IsElem identity outcome.selected
        ↔ (IsElem identity catalog × (of_identity lower signals identity ≡ ok true)))
    × All (λ (identity : AdvisorIdentity). IsEligible signals.scope identity.name) outcome.selected

IsSelection-filtered :
    (lower : String → String) (signals : SelectionSignals) (catalog : List AdvisorIdentity)
    (r : Result Exn (List AdvisorIdentity))
    → Ensures (IsFilter (of_identity lower signals) catalog) r
    → Ensures (IsSelection lower signals catalog) (
        r >>= λ selected. ok (record {
          selected = selected;
          trace_entry = record {
            signals = traced_signals signals.explicit signals.question;
            selected_advisor_names = map (λ (identity : AdvisorIdentity). identity.name) selected;
          };
        }))
IsSelection-filtered lower signals catalog (err e) h = tt
IsSelection-filtered lower signals catalog (ok selected) h = (
  λ identity. (h.0 identity, λ passed. h.1 identity passed.0 passed.1),
  All-of_elem _ selected
      λ identity m. is_selected-IsEligible lower signals identity.name (h.0 identity m).1,
)

-- If the rule returns, on any catalog: it selects exactly the identities of the catalog that pass its
-- condition, each of them eligible under the declared scope and with the portfolio that it requires.
pub evaluate_selection_rule_sound :
    (lower : String → String) (signals : SelectionSignals) (catalog : List AdvisorIdentity)
    → Ensures (IsSelection lower signals catalog) (evaluate_selection_rule lower signals catalog)
unfolding evaluate_selection_rule
evaluate_selection_rule_sound lower signals catalog =
    IsSelection-filtered lower signals catalog (filtered (of_identity lower signals) catalog)
      (filtered-IsFilter (of_identity lower signals) catalog)

is_selected-IsOk :
    (lower : String → String) (signals : SelectionSignals) (name : String)
    → entry_of name vocabulary ≢ none
    → entry_of name advisor_eligible_scopes ≢ none
    → (b : Bool) × (is_selected lower signals name ≡ ok b)
unfolding is_selected matches_vocabulary matches_question_text meets_structural_precondition
is_selected-IsOk lower signals name v s =
    IsOk-bind _ _
      (IsOk-if _ _ _ (IsOk-bind _ _ (IsOk-or_raise key_error _ v) (λ terms. (_, refl)))
        (IsOk-bind _ _ (IsOk-or_raise key_error _ v) (λ terms. (_, refl))))
      λ matching.
        IsOk-if matching _ _
          (IsOk-if _ _ _ (false, refl)
            (IsOk-bind _ _ (IsOk-or_raise key_error _ s) (λ scopes. (_, refl))))
          (false, refl)

-- On its own catalog the rule always returns: no lookup misses a key, whatever the signals.
pub evaluate_selection_rule_total :
    (lower : String → String) (signals : SelectionSignals)
    → IsOk (evaluate_selection_rule lower signals advisor_identity_catalog)
unfolding evaluate_selection_rule
evaluate_selection_rule_total lower signals =
    IsOk-bind (filtered (of_identity lower signals) advisor_identity_catalog) _
      (filtered-IsOk (of_identity lower signals) advisor_identity_catalog (
        known "risk_advisor" (cc) (cc),
        (
          known "delivery_advisor" (cc) (cc),
          (
            known "portfolio_advisor" (cc) (cc),
            (
              known "pmo_advisor" (cc) (cc),
              (
                known "executive_advisor" (cc) (cc),
                (
                  known "strategy_advisor" (cc) (cc),
                  (known "document_advisor" (cc) (cc), (known "governance_advisor" (cc) (cc), tt)),
                ),
              ),
            ),
          ),
        ),
      ))
      λ selected. (_, refl)
  where
    known :
        (name : String)
        → entry_of name vocabulary ≢ none
        → entry_of name advisor_eligible_scopes ≢ none
        → IsOk (is_selected lower signals name)
    known name v s = is_selected-IsOk lower signals name v s

in_project :
    (project : Option String) (portfolio : Option ℕ) (scopes : List String)
    → some ("portfolio" ∷ "organization" ∷ []) ≡ some scopes
    → is_in scopes (scope_type (record { project_name = project; portfolio_id = portfolio })) ≡ true
    → project ≡ none
unfolding scope_type
in_project none portfolio scopes e h = refl
in_project (some p) portfolio scopes e h =
    let same : is_in ("portfolio" ∷ "organization" ∷ []) "project" ≡ true =
      ap (λ ks. is_in ks "project") (some-inj e) ∙ h in
    cc
  where
    some-inj :
        {ks : List String}
        → some ("portfolio" ∷ "organization" ∷ []) ≡ some ks
        → "portfolio" ∷ "organization" ∷ [] ≡ ks
    some-inj e = cc

in_organization :
    (project : Option String) (portfolio : Option ℕ)
    → is_in
        ("organization" ∷ [])
        (scope_type (record { project_name = project; portfolio_id = portfolio }))
      ≡ true
    → (portfolio ≡ none) × (project ≡ none)
unfolding scope_type
in_organization none none h = (refl, refl)
in_organization none (some q) h = cc
in_organization (some p) q h = cc

has_portfolio :
    (portfolio : Option ℕ)
    → (is_in advisor_names_requiring_portfolio_id "portfolio_advisor" && is_none portfolio) ≡ false
    → portfolio ≢ none
has_portfolio none h = cc
has_portfolio (some q) h = cc

-- The portfolio advisor is selected only under a scope with a portfolio and without a project.
pub is_selected-portfolio :
    (lower : String → String) (signals : SelectionSignals)
    → is_selected lower signals "portfolio_advisor" ≡ ok true
    → (signals.scope.portfolio_id ≢ none) × (signals.scope.project_name ≡ none)
is_selected-portfolio lower signals selected =
    let e = is_selected-IsEligible lower signals "portfolio_advisor" selected in
    let (scopes, found, open_to) = e.0 in
    (
      has_portfolio signals.scope.portfolio_id e.1,
      in_project signals.scope.project_name signals.scope.portfolio_id scopes found open_to,
    )

same_scopes : (ks js : List String) → some ks ≡ some js → ks ≡ js
same_scopes ks js e = cc

-- An advisor whose table entry is the organization alone is selected only under a scope with neither a
-- portfolio nor a project.
pub is_selected-organization :
    (lower : String → String) (signals : SelectionSignals) (name : String)
    → entry_of name advisor_eligible_scopes ≡ some ("organization" ∷ [])
    → is_selected lower signals name ≡ ok true
    → (signals.scope.portfolio_id ≡ none) × (signals.scope.project_name ≡ none)
is_selected-organization lower signals name only selected =
    let e = is_selected-IsEligible lower signals name selected in
    let (scopes, found, open_to) = e.0 in
    in_organization signals.scope.project_name signals.scope.portfolio_id (
      ap (λ ks. is_in ks (scope_type signals.scope))
        (same_scopes ("organization" ∷ []) scopes (sym only ∙ found))
      ∙ open_to)
