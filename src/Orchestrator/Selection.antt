-- ===== src/Orchestrator/Selection.antt =====
-- src/services/executive_orchestrator/selection_rule.py. `lower` is Python's `str.lower`.
pub mod Soundness
use ai_pmo_copilot.Common.{
  String, Bool, true, false, not, ◌&&◌, ◌||◌, Option, none, some, List, [], ◌∷◌, map, Result, ok,
  err, ◌>>=◌, or_raise, any_of, is_none, str_eq, str_leb, contains, if◌then◌else◌,
}
use ai_pmo_copilot.Orchestrator.Types.{
  Exn, key_error, AdvisorIdentity, OrchestrationScope, SelectionSignals, SelectionTraceEntry,
  SelectionOutcome,
}
use ai_pmo_copilot.Orchestrator.Catalog.{
  advisor_identity_catalog, vocabulary, advisor_names_requiring_portfolio_id,
  advisor_eligible_scopes,
}

-- `name in names`
abbrev pub is_in : List String → String → Bool
is_in names name = any_of (str_eq name) names

-- `entries[key]`
abbrev pub entry_of : String → List (String × List String) → Option (List String)
entry_of key [] = none
entry_of key ((name, elements) ∷ entries) =
    if str_eq name key then some elements else entry_of key entries

abbrev pub at_key : String → List (String × List String) → Result Exn (List String)
at_key key entries = or_raise key_error (entry_of key entries)

unfoldable pub matches_vocabulary : String → List String → Result Exn Bool
matches_vocabulary advisor_name explicit = at_key advisor_name vocabulary >>= λ terms.
    ok (any_of (is_in terms) explicit || is_in explicit advisor_name)

unfoldable pub matches_question_text : (String → String) → String → String → Result Exn Bool
matches_question_text lower advisor_name question =
    at_key advisor_name vocabulary >>= λ terms. ok (any_of (contains (lower question)) terms)

unfoldable pub scope_type : OrchestrationScope → String
scope_type scope =
    if not (is_none scope.project_name)
    then "project"
    else if not (is_none scope.portfolio_id)
    then "portfolio"
    else "organization"

unfoldable pub meets_structural_precondition : String → OrchestrationScope → Result Exn Bool
unfolding scope_type
meets_structural_precondition advisor_name scope =
    if is_in advisor_names_requiring_portfolio_id advisor_name && is_none scope.portfolio_id
    then ok false
    else at_key advisor_name advisor_eligible_scopes >>= λ scopes.
        ok (is_in scopes (scope_type scope))

-- the condition of the comprehension; `and` looks at its second part only if the first is true
unfoldable pub is_selected : (String → String) → SelectionSignals → String → Result Exn Bool
unfolding matches_vocabulary matches_question_text meets_structural_precondition
is_selected lower signals name =
    (if is_explicit signals.explicit
      then matches_vocabulary name signals.explicit
      else matches_question_text lower name signals.question)
    >>= λ matching. if matching then meets_structural_precondition name signals.scope else ok false
  where
    is_explicit : List String → Bool
    is_explicit [] = false
    is_explicit (term ∷ terms) = true

-- a comprehension whose condition may raise
abbrev pub filtered {ℓ} : {A : Type ℓ} → (A → Result Exn Bool) → List A → Result Exn (List A)
filtered test [] = ok []
filtered test (x ∷ xs) = do
  keep ← test x
  rest ← filtered test xs
  ok (if keep then x ∷ rest else rest)

-- `sorted` on texts
abbrev pub insert_name : String → List String → List String
insert_name name [] = name ∷ []
insert_name name (n ∷ names) =
    if str_leb name n then name ∷ n ∷ names else n ∷ insert_name name names

abbrev pub sort_names : List String → List String
sort_names [] = []
sort_names (n ∷ names) = insert_name n (sort_names names)

abbrev pub traced_signals : List String → String → List String
traced_signals [] question = question ∷ []
traced_signals (term ∷ terms) question = sort_names (term ∷ terms)

unfoldable pub evaluate_selection_rule :
    (String → String) → SelectionSignals → List AdvisorIdentity → Result Exn SelectionOutcome
unfolding is_selected
evaluate_selection_rule lower signals catalog =
    filtered (λ (identity : AdvisorIdentity). is_selected lower signals identity.name) catalog
    >>= λ selected. ok (record {
      selected = selected;
      trace_entry = record {
        signals = traced_signals signals.explicit signals.question;
        selected_advisor_names = map (λ (identity : AdvisorIdentity). identity.name) selected;
      };
    })
