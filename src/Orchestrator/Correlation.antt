-- ===== src/Orchestrator/Correlation.antt =====
-- src/services/executive_orchestrator/correlation.py.
pub mod Pairs
use ai_pmo_copilot.Common.{
  String, Bool, true, false, ◌&&◌, ◌||◌, List, [], ◌∷◌, ◌++◌, map, select, any_of, str_eq, str_leb,
  if◌then◌else◌,
}
use ai_pmo_copilot.Orchestrator.Types.{AttributedExplanation, CorrelationFinding, Evidence}

abbrev pub structural_pairs : List (String × String)
structural_pairs =
    ("delivery_advisor", "risk_advisor")
    ∷ ("strategy_advisor", "risk_advisor")
    ∷ ("strategy_advisor", "executive_advisor")
    ∷ ("governance_advisor", "delivery_advisor")
    ∷ []

-- equality of the sets of two names
abbrev pub same_pair : String × String → String × String → Bool
same_pair (a, b) (c, d) = str_eq a c && str_eq b d || str_eq a d && str_eq b c

-- `tuple(sorted((first, second)))`
abbrev pub sorted_pair : String → String → String × String
sorted_pair first second = if str_leb first second then (first, second) else (second, first)

module _ {D : Type 0} where
  -- `bool(evidence)`
  abbrev pub is_cited : List (Evidence D) → Bool
  is_cited [] = false
  is_cited (e ∷ es) = true

  unfoldable pub has_real_evidence : AttributedExplanation D → Bool
  has_real_evidence item = is_cited item.explanation.recommendation.cited_evidence

  abbrev pub finding_of : AttributedExplanation D → AttributedExplanation D → CorrelationFinding D
  finding_of first second = record {
    advisor_names = sorted_pair first.advisor_name second.advisor_name;
    is_structural_pair =
        any_of (same_pair (sorted_pair first.advisor_name second.advisor_name)) structural_pairs;
    explanations = (first, second);
  }

  -- the loop over `combinations(grounded, 2)`
  unfoldable pub pair_findings : List (AttributedExplanation D) → List (CorrelationFinding D)
  pair_findings [] = []
  pair_findings (first ∷ rest) = map (finding_of first) rest ++ pair_findings rest

  unfoldable pub correlate : List (AttributedExplanation D) → List (CorrelationFinding D)
  unfolding has_real_evidence pair_findings
  correlate explanations = pair_findings (select has_real_evidence explanations)
