-- ===== src/Replay/Compare.antt =====
-- The structured comparison of replay/counterfactual.py.
pub mod Sums
pub mod Delta
use flight_recorder.Base.{
  Bool, true, false, ◌&&◌, ◌||◌, not, Option, none, some, List, [], ◌∷◌, ◌++◌, map, String, str_eq,
  if◌then◌else◌, select,
}
use flight_recorder.Base.Int.{ℤ, pos, ◌-ℤ◌, ◌+ℤ◌, eqb_ℤ}
use flight_recorder.Base.Text.{sort_by}
use flight_recorder.Base.Dict.{Dict, lookup, contains, insert_all}
use flight_recorder.Base.Datetime.{Datetime}
use flight_recorder.Evaluator.{
  FactorResult, EvaluationResult, InputState, consumed, ignored, unavailable, absent,
}
use flight_recorder.Replay.Records.{Reconstruction}

abbrev pub original_label : String
original_label = "original"

abbrev pub counterfactual_label : String
counterfactual_label = "counterfactual"

-- `label` is always `counterfactual_label`: `__post_init__` refuses any other.
pub record Counterfactual : Type 0 where
  pub label : String
  pub decision_event_id : String
  pub decision_boundary : Datetime
  pub original : Reconstruction
  pub current_artifact_hash : String
  pub current_logic_version : String
  pub current_evaluator_version : String
  pub result : EvaluationResult
  pub stored_artifact_hash : String
  pub recomputed_artifact_hash : String
  pub runtime_evaluator_version : String

pub record LogicIdentity : Type 0 where
  pub logic_version : String
  pub artifact_hash : String
  pub evaluator_version : String

-- The five texts of `change`.
pub data Change : Type 0 where
  added removed unchanged reweighted changed : Change

pub record ContributionChange : Type 0 where
  pub key : String
  pub evidence_version_id : Option String
  pub original : Option FactorResult
  pub counterfactual : Option FactorResult
  pub original_state : Option InputState
  pub counterfactual_state : Option InputState
  pub original_contribution : ℤ
  pub counterfactual_contribution : ℤ
  pub contribution_delta : ℤ
  pub change : Change

pub record MissingInput : Type 0 where
  pub key : String
  pub state : InputState

pub record Comparison : Type 0 where
  pub decision_event_id : String
  pub decision_boundary : Datetime
  pub original_label : String
  pub counterfactual_label : String
  pub historical_logic : LogicIdentity
  pub current_logic : LogicIdentity
  pub original_score : ℤ
  pub counterfactual_score : ℤ
  pub score_delta : ℤ
  pub original_threshold : ℤ
  pub counterfactual_threshold : ℤ
  pub original_output : String
  pub counterfactual_output : String
  pub output_changed : Bool
  pub contributions : List ContributionChange
  pub missing_inputs : List MissingInput
  pub ignored_by_historical : List String
  pub ignored_by_current : List String

abbrev pub same_state : InputState → InputState → Bool
same_state consumed consumed = true
same_state ignored ignored = true
same_state unavailable unavailable = true
same_state absent absent = true
same_state _ _ = false

abbrev pub same_bool : Bool → Bool → Bool
same_bool true b = b
same_bool false b = not b

-- `_classify` on two factors.
unfoldable pub classify_both : FactorResult → FactorResult → Change
classify_both original counterfactual =
    let same_rule = str_eq original.rule counterfactual.rule in
    let same_verdict =
      same_state original.input_state counterfactual.input_state
      && same_bool original.matched counterfactual.matched in
    let same_weight = eqb_ℤ original.weight counterfactual.weight in
    let same_contribution = eqb_ℤ original.contribution counterfactual.contribution in
    if same_rule && (same_verdict && (same_weight && same_contribution))
    then unchanged
    else if same_rule && (same_verdict && not same_weight)
    then reweighted
    else changed

unfoldable pub classify : Option FactorResult → Option FactorResult → Change
unfolding classify_both
classify none counterfactual = added
classify (some original) none = removed
classify (some original) (some counterfactual) = classify_both original counterfactual

-- `_state`
abbrev pub state : Option FactorResult → EvaluationResult → String → Option InputState
state (some factor) result key = some factor.input_state
state none result key = lookup key result.context_states

-- `{f.key: f for f in factors}`
abbrev pub factors_by_key : List FactorResult → Dict FactorResult
factors_by_key factors = insert_all [] (map (λ (f : FactorResult). (f.key, f)) factors)

abbrev pub contribution_of : Option FactorResult → ℤ
contribution_of none = pos 0
contribution_of (some f) = f.contribution

-- The first evidence named by either side.
abbrev pub evidence_of : Option FactorResult → Option String
evidence_of none = none
evidence_of (some f) = f.evidence_version_id

abbrev pub either_evidence : Option String → Option String → Option String
either_evidence none after = after
either_evidence (some id) after = some id

-- The keys of both dicts, each once, before they are sorted.
abbrev pub keys : {V : Type 0} → Dict V → List String
keys d = map (λ item. item.0) d

abbrev pub union_keys : Dict FactorResult → Dict FactorResult → List String
union_keys historical current =
    keys historical ++ select (λ k. not (contains k historical)) (keys current)

-- One round of the loop of `compare`.
unfoldable pub contribution_change :
    EvaluationResult
    → EvaluationResult
    → String
    → Option FactorResult
    → Option FactorResult
    → ContributionChange
contribution_change original counterfactual key before after = record {
  key = key;
  evidence_version_id = either_evidence (evidence_of before) (evidence_of after);
  original = before;
  counterfactual = after;
  original_state = state before original key;
  counterfactual_state = state after counterfactual key;
  original_contribution = contribution_of before;
  counterfactual_contribution = contribution_of after;
  contribution_delta = contribution_of after -ℤ contribution_of before;
  change = classify before after;
}

unfoldable pub contributions_of : EvaluationResult → EvaluationResult → List ContributionChange
contributions_of original counterfactual =
    let historical = factors_by_key original.factors in
    let current = factors_by_key counterfactual.factors in
    map
      (λ key.
        contribution_change original counterfactual key (lookup key historical)
          (lookup key current))
      (sort_by (λ k. k) (union_keys historical current))

abbrev pub is_missing : InputState → Bool
is_missing unavailable = true
is_missing absent = true
is_missing _ = false

unfoldable pub missing_inputs_of : EvaluationResult → List MissingInput
missing_inputs_of result =
    map (λ (f : FactorResult). record { key = f.key; state = f.input_state })
      (select (λ (f : FactorResult). is_missing f.input_state)
        (sort_by (λ (f : FactorResult). f.key) result.factors))

unfoldable pub compare : Counterfactual → Comparison
unfolding contributions_of missing_inputs_of
compare counterfactual =
    let original = counterfactual.original in
    record {
      decision_event_id = counterfactual.decision_event_id;
      decision_boundary = counterfactual.decision_boundary;
      original_label = original_label;
      counterfactual_label = counterfactual_label;
      historical_logic = record {
        logic_version = original.logic_version;
        artifact_hash = original.artifact_hash;
        evaluator_version = original.evaluator_version;
      };
      current_logic = record {
        logic_version = counterfactual.current_logic_version;
        artifact_hash = counterfactual.current_artifact_hash;
        evaluator_version = counterfactual.current_evaluator_version;
      };
      original_score = original.result.score;
      counterfactual_score = counterfactual.result.score;
      score_delta = counterfactual.result.score -ℤ original.result.score;
      original_threshold = original.result.threshold;
      counterfactual_threshold = counterfactual.result.threshold;
      original_output = original.result.output;
      counterfactual_output = counterfactual.result.output;
      output_changed = not (str_eq original.result.output counterfactual.result.output);
      contributions = contributions_of original.result counterfactual.result;
      missing_inputs = missing_inputs_of counterfactual.result;
      ignored_by_historical = original.result.ignored_inputs;
      ignored_by_current = counterfactual.result.ignored_inputs;
    }
