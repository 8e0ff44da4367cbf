-- ===== src/Evaluator.antt =====
-- logic/evaluator.py: the evaluation of a logic artifact over a preserved context, and the record
-- types of collector/schema.py that it reads.
pub mod Run
pub mod Keys
pub mod Bound
pub mod Explained
pub mod Locality
pub mod States
pub mod Totality
mod Tests
use flight_recorder.Base.{
  ℕ, Bool, true, false, ◌||◌, not, Option, none, some, List, [], ◌∷◌, map, String, str_eq,
  if◌then◌else◌, Result, ok, err, map_err, raise_if, ◌>>=◌, ◌>>◌, select,
}
use flight_recorder.Base.Int.{ℤ, pos, ◌+ℤ◌, leb_ℤ, ltb_ℤ}
use flight_recorder.Base.Datetime.{Datetime}
use flight_recorder.Base.Dict.{Dict, lookup, contains, insert, insert_all}
use flight_recorder.Rules.{
  ScalarValue, Observed, Rule, RuleError, parse_rule, matches, require_aware_boundary,
}

pub record Factor : Type 0 where
  pub key : String
  pub rule : String
  pub weight : ℤ

pub record OutputMapping : Type 0 where
  pub at_or_above_threshold : String
  pub below_threshold : String

pub record Activation : Type 0 where
  pub activated_at : String
  pub deactivated_at : Option String
  pub status : String

pub record LogicArtifact : Type 0 where
  pub artifact_schema_version : String
  pub artifact_id : String
  pub logic_version : String
  pub decision_class : String
  pub evaluator_version : String
  pub factors : List Factor
  pub missing_value_behavior : String
  pub threshold : ℤ
  pub output_mapping : OutputMapping
  pub activation : Activation

abbrev pub evaluator_version : String
evaluator_version = "evaluator-v1"

abbrev pub supported_missing_value_behavior : String
supported_missing_value_behavior = "no_match_contributes_zero"

pub data InputState : Type 0 where
  consumed ignored unavailable absent : InputState

pub data EvaluationError : Type 0 where
  unsupported_missing_value_behavior : String → EvaluationError
  duplicate_context_key : String → EvaluationError
  -- An exception of logic/rules.py that goes through.
  rule_failure : RuleError → EvaluationError
  -- The `ValueError` of `zip(..., strict=True)`.
  zip_length_mismatch : EvaluationError

pub record ContextInput : Type 0 where
  pub key : String
  pub availability : String
  pub value : ScalarValue
  pub evidence_version_id : Option String
  pub observed_at : Option Observed

abbrev pub is_available : ContextInput → Bool
is_available entry = str_eq entry.availability "available"

pub record FactorResult : Type 0 where
  pub key : String
  pub rule : String
  pub weight : ℤ
  pub input_state : InputState
  pub matched : Bool
  pub contribution : ℤ
  pub evidence_version_id : Option String

pub record EvaluationResult : Type 0 where
  pub score : ℤ
  pub threshold : ℤ
  pub output : String
  pub factors : List FactorResult
  pub ignored_inputs : List String
  pub context_states : Dict InputState

abbrev is_consumed : InputState → Bool
is_consumed consumed = true
is_consumed _ = false

abbrev is_ignored : InputState → Bool
is_ignored ignored = true
is_ignored _ = false

-- The elements of the frozen set; a comparison of two such lists is one of sets.
unfoldable pub consumed_triples : EvaluationResult → List (String × Option String × ℤ)
consumed_triples result =
    map (λ f. (f.key, f.evidence_version_id, f.contribution))
      (select (λ f. is_consumed f.input_state) result.factors)

-- The loop of `_index`, behind the entries that it has seen.
pub index_from : Dict ContextInput → List ContextInput → Result EvaluationError (Dict ContextInput)
index_from indexed [] = ok indexed
index_from indexed (entry ∷ rest) =
    let indexed' = index_from (insert entry.key entry indexed) rest in
    if contains entry.key indexed then err (duplicate_context_key entry.key) else indexed'

-- `_index`
unfoldable pub index : List ContextInput → Result EvaluationError (Dict ContextInput)
unfolding index_from
index context = index_from [] context

-- `[parse_rule(factor.key, factor.rule) for factor in artifact.factors]`
unfoldable pub parse_rules : List Factor → Result EvaluationError (List Rule)
parse_rules [] = ok []
parse_rules (factor ∷ factors) = do
  rule ← map_err rule_failure (parse_rule factor.key factor.rule)
  rules ← parse_rules factors
  ok (rule ∷ rules)

-- `FactorResult(...)` at the end of a round of the loop of `evaluate`.
pub factor_result : Factor → InputState → Bool → Option String → FactorResult
factor_result factor state matched evidence_version_id = record {
  key = factor.key;
  rule = factor.rule;
  weight = factor.weight;
  input_state = state;
  matched = matched;
  contribution = if matched then factor.weight else pos 0;
  evidence_version_id = evidence_version_id;
}

-- One round of the loop, by what the context holds for the factor's key.
pub evaluate_entry :
    Datetime → Factor → Rule → Option ContextInput → Result EvaluationError FactorResult
unfolding factor_result
evaluate_entry boundary factor rule none = ok (factor_result factor absent false none)
evaluate_entry boundary factor rule (some entry) =
    if not (is_available entry) then ok (factor_result factor unavailable false none) else do
      matched ← map_err rule_failure (matches rule entry.value entry.observed_at boundary)
      ok (factor_result factor consumed matched entry.evidence_version_id)

-- The loop over `zip(artifact.factors, rules, strict=True)`.
pub evaluate_factors :
    Dict ContextInput
    → Datetime
    → List Factor
    → List Rule
    → Result EvaluationError (List FactorResult)
unfolding evaluate_entry
evaluate_factors preserved boundary [] [] = ok []
evaluate_factors preserved boundary (factor ∷ factors) (rule ∷ rules) = do
  result ← evaluate_entry boundary factor rule (lookup factor.key preserved)
  results ← evaluate_factors preserved boundary factors rules
  ok (result ∷ results)
evaluate_factors preserved boundary _ _ = err zip_length_mismatch

-- `sum(result.contribution for result in results)`
unfoldable pub total : List FactorResult → ℤ
total [] = pos 0
total (result ∷ results) = result.contribution +ℤ total results

-- `key in referenced`
abbrev pub is_referenced : String → List Factor → Bool
is_referenced key [] = false
is_referenced key (factor ∷ factors) = str_eq factor.key key || is_referenced key factors

abbrev pub state_of : List Factor → ContextInput → InputState
state_of factors entry =
    if not (is_available entry)
    then unavailable
    else if is_referenced entry.key factors
    then consumed
    else ignored

-- The dict comprehension of `context_states`.
pub states_of : List Factor → List ContextInput → Dict InputState
states_of factors context =
    insert_all [] (map (λ entry. (entry.key, state_of factors entry)) context)

-- The keys whose state is `IGNORED`.
pub ignored_of : Dict InputState → List String
ignored_of states = map (λ item. item.0) (select (λ item. is_ignored item.1) states)

-- What `evaluate` returns once the factors are evaluated.
pub conclude : LogicArtifact → List ContextInput → List FactorResult → EvaluationResult
unfolding total states_of ignored_of
conclude artifact context results = record {
  score = total results;
  threshold = artifact.threshold;
  output =
      if leb_ℤ artifact.threshold (total results)
      then artifact.output_mapping.at_or_above_threshold
      else artifact.output_mapping.below_threshold;
  factors = results;
  ignored_inputs = ignored_of (states_of artifact.factors context);
  context_states = states_of artifact.factors context;
}

unfoldable pub evaluate :
    LogicArtifact → List ContextInput → Datetime → Result EvaluationError EvaluationResult
unfolding index parse_rules evaluate_factors conclude
evaluate artifact context boundary = do
  utc ← map_err rule_failure (require_aware_boundary boundary)
  raise_if (not (str_eq artifact.missing_value_behavior supported_missing_value_behavior))
      (unsupported_missing_value_behavior artifact.missing_value_behavior)
  preserved ← index context
  rules ← parse_rules artifact.factors
  results ← evaluate_factors preserved utc artifact.factors rules
  ok (conclude artifact context results)

-- The sum over the factors of `positive_weight_score_bound`.
pub positive_weights : List Factor → ℤ
positive_weights [] = pos 0
positive_weights (factor ∷ factors) =
    let rest = positive_weights factors in
    if ltb_ℤ (pos 0) factor.weight then factor.weight +ℤ rest else rest

unfoldable pub positive_weight_score_bound : LogicArtifact → ℤ
unfolding positive_weights
positive_weight_score_bound artifact = positive_weights artifact.factors

unfoldable pub threshold_exceeds_positive_weight_bound : LogicArtifact → Bool
unfolding positive_weight_score_bound
threshold_exceeds_positive_weight_bound artifact =
    ltb_ℤ (positive_weight_score_bound artifact) artifact.threshold
