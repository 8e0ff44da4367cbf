-- ===== src/Evaluator/Tests.antt =====
-- The theorems on logic/evaluator.py at a small artifact and context.
use flight_recorder.Base.{◌*◌, ◌≡◌, refl, true, false, some, none, List, [], ◌∷◌, ok, ◌↔◌, Pairs}
use flight_recorder.Base.Int.{pos, negsuc, ◌+ℤ◌, ◌≤ℤ◌}
use flight_recorder.Base.Text.{span}
use flight_recorder.Base.Dict.{Dict}
use flight_recorder.Base.Datetime.{Datetime, day_micros}
use flight_recorder.Rules.{
  int_value, str_value, null_value, parse_rule, matches, require_aware_boundary,
}
use flight_recorder.Rules.Digits.{decimal, int, digits_value}
use flight_recorder.Rules.Pattern.{between, equals, at_least}
use flight_recorder.Rules.Window.{aware}
use flight_recorder.Evaluator.{
  Factor, LogicArtifact, ContextInput, EvaluationResult, evaluate, index, consumed, absent, ignored,
  unavailable, positive_weight_score_bound, threshold_exceeds_positive_weight_bound,
  supported_missing_value_behavior, evaluator_version,
}
use flight_recorder.Evaluator.Keys.{HasUniqueKeys, index-iff_HasUniqueKeys}
use flight_recorder.Evaluator.Explained.{Explained, evaluate-Explained}
use flight_recorder.Evaluator.Bound.{score-le-positive_weight_score_bound, unreachable_threshold}
use flight_recorder.Evaluator.Locality.{SameDecision, evaluate_local}
use flight_recorder.Evaluator.States.{HasStates, evaluate-states}
use flight_recorder.Evaluator.Totality.{CanEvaluate, evaluate-iff_CanEvaluate}

abbrev size_factor : Factor
size_factor = record { key = "employees"; rule = "employees at least 50"; weight = pos 10 }

abbrev industry_factor : Factor
industry_factor = record { key = "industry"; rule = "industry equals 'retail'"; weight = negsuc 4 }

abbrev sample : LogicArtifact
sample = record {
  artifact_schema_version = "1";
  artifact_id = "prioritization";
  logic_version = "v1";
  decision_class = "account_prioritization";
  evaluator_version = evaluator_version;
  factors = size_factor ∷ industry_factor ∷ [];
  missing_value_behavior = supported_missing_value_behavior;
  threshold = pos 12;
  output_mapping = record { at_or_above_threshold = "prioritize"; below_threshold = "hold" };
  activation = record {
    activated_at = "2024-01-01T00:00:00.000000Z";
    deactivated_at = none;
    status = "active";
  };
}

abbrev size_input : ContextInput
size_input = record {
  key = "employees";
  availability = "available";
  value = int_value (pos 80);
  evidence_version_id = some "ev-1";
  observed_at = none;
}

abbrev region_input : ContextInput
region_input = record {
  key = "region";
  availability = "available";
  value = str_value "north";
  evidence_version_id = some "ev-2";
  observed_at = none;
}

abbrev intent_input : ContextInput
intent_input = record {
  key = "intent";
  availability = "unavailable";
  value = null_value;
  evidence_version_id = none;
  observed_at = none;
}

abbrev preserved : List ContextInput
preserved = region_input ∷ size_input ∷ intent_input ∷ []

abbrev boundary : Datetime
boundary = aware (pos (700000 * day_micros)) (pos 0)

abbrev sample_result : EvaluationResult
sample_result = record {
  score = pos 10;
  threshold = pos 12;
  output = "hold";
  factors =
      record {
        key = "employees";
        rule = "employees at least 50";
        weight = pos 10;
        input_state = consumed;
        matched = true;
        contribution = pos 10;
        evidence_version_id = some "ev-1";
      }
      ∷ record {
        key = "industry";
        rule = "industry equals 'retail'";
        weight = negsuc 4;
        input_state = absent;
        matched = false;
        contribution = pos 0;
        evidence_version_id = none;
      }
      ∷ [];
  ignored_inputs = "region" ∷ [];
  context_states = ("region", ignored) ∷ ("employees", consumed) ∷ ("intent", unavailable) ∷ [];
}

evaluate-sample : evaluate sample preserved boundary ≡ ok sample_result
unfolding evaluate require_aware_boundary parse_rule between span equals at_least decimal int
    digits_value matches ◌+ℤ◌
evaluate-sample = refl

index-iff_HasUniqueKeys_example :
    ((d : Dict ContextInput) × (index preserved ≡ ok d)) ↔ HasUniqueKeys preserved
index-iff_HasUniqueKeys_example = index-iff_HasUniqueKeys preserved

evaluate-Explained_example :
    Pairs (Explained preserved boundary) sample.factors sample_result.factors
evaluate-Explained_example =
    evaluate-Explained sample preserved boundary sample_result evaluate-sample

evaluate-states_example : HasStates sample preserved sample_result
evaluate-states_example = evaluate-states sample preserved boundary sample_result evaluate-sample

score-le-positive_weight_score_bound_example :
    sample_result.score ≤ℤ positive_weight_score_bound sample
score-le-positive_weight_score_bound_example =
    score-le-positive_weight_score_bound sample preserved boundary sample_result evaluate-sample

sample_exceeds : threshold_exceeds_positive_weight_bound sample ≡ true
unfolding threshold_exceeds_positive_weight_bound ◌+ℤ◌
sample_exceeds = refl

unreachable_threshold_example : sample_result.output ≡ sample.output_mapping.below_threshold
unreachable_threshold_example =
    unreachable_threshold sample preserved boundary sample_result evaluate-sample sample_exceeds

-- Another order, and without the region.
abbrev reordered : List ContextInput
reordered = intent_input ∷ size_input ∷ []

evaluate_local_example :
    (r' : EvaluationResult) × (evaluate sample reordered boundary ≡ ok r')
    × SameDecision sample_result r'
evaluate_local_example =
    evaluate_local sample preserved reordered boundary sample_result evaluate-sample
      ((refl, tt), (tt, tt)) (refl, (refl, tt))

evaluate-iff_CanEvaluate_example :
    ((result : EvaluationResult) × (evaluate sample preserved boundary ≡ ok result))
    ↔ CanEvaluate sample preserved boundary
evaluate-iff_CanEvaluate_example = evaluate-iff_CanEvaluate sample preserved boundary
