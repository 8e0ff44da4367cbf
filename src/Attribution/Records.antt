-- ===== src/Attribution/Records.antt =====
-- The records, the vocabulary and the named failures of attribution/policy.py.
use flight_recorder.Base.{ℕ, Option, List, String}
use flight_recorder.Base.Int.{ℤ}
use flight_recorder.Rules.{ScalarValue}

abbrev pub policy_version : String
policy_version = "outcome-attribution-v1"

abbrev pub lookback_days : ℕ
lookback_days = 90

abbrev pub attributable_decision_class : String
attributable_decision_class = "account_prioritization"

abbrev pub status_direct : String
status_direct = "direct"

abbrev pub status_inferred : String
status_inferred = "inferred"

abbrev pub status_unresolved : String
status_unresolved = "unresolved"

abbrev pub method_explicit_reference : String
method_explicit_reference = "explicit_source_reference"

abbrev pub method_heuristic : String
method_heuristic = "heuristic_most_recent_eligible_action"

abbrev pub method_unresolved : String
method_unresolved = "no_resolution"

abbrev pub valid_source_action : String
valid_source_action = "valid_source_action_reference"

abbrev pub valid_source_decision : String
valid_source_decision = "valid_source_decision_reference"

abbrev pub valid_source_action_and_decision : String
valid_source_action_and_decision = "valid_source_action_and_decision_references"

abbrev pub no_source_reference : String
no_source_reference = "no_source_reference"

abbrev pub most_recent_eligible_action : String
most_recent_eligible_action = "most_recent_eligible_action"

abbrev pub no_eligible_action : String
no_eligible_action = "no_eligible_action"

-- Why a source claim is unusable: the reason texts `SOURCE_...`.
pub data Problem : Type 0 where
  source_action_not_recorded_by_cutoff : Problem
  source_action_other_account : Problem
  source_action_failed : Problem
  source_action_not_linked_to_prioritization_decision : Problem
  source_action_not_before_observation : Problem
  source_action_outside_lookback : Problem
  source_decision_not_recorded_by_cutoff : Problem
  source_decision_other_account : Problem
  source_decision_not_account_prioritization : Problem
  source_decision_not_before_observation : Problem
  source_references_disagree : Problem

-- The text of a reason.
unfoldable pub problem_text : Problem → String
problem_text source_action_not_recorded_by_cutoff = "source_action_not_recorded_by_cutoff"
problem_text source_action_other_account = "source_action_other_account"
problem_text source_action_failed = "source_action_failed"
problem_text source_action_not_linked_to_prioritization_decision =
    "source_action_not_linked_to_prioritization_decision"
problem_text source_action_not_before_observation = "source_action_not_before_observation"
problem_text source_action_outside_lookback = "source_action_outside_lookback"
problem_text source_decision_not_recorded_by_cutoff = "source_decision_not_recorded_by_cutoff"
problem_text source_decision_other_account = "source_decision_other_account"
problem_text source_decision_not_account_prioritization =
    "source_decision_not_account_prioritization"
problem_text source_decision_not_before_observation = "source_decision_not_before_observation"
problem_text source_references_disagree = "source_references_disagree"

-- The named failures, and two of Python's own: a timestamp that cannot be read, and an attribute of
-- `None`.
pub data AttributionError : Type 0 where
  unsupported_policy_version : String → AttributionError
  invalid_cutoff : ScalarValue → AttributionError
  cutoff_above_maximum : ScalarValue → Option ℕ → AttributionError
  cutoff_not_found : ScalarValue → AttributionError
  outcome_not_found : String → AttributionError
  cutoff_excludes_outcome : String → ℕ → ℕ → AttributionError
  ambiguous_successors : String → List String → AttributionError
  supersession_cycle : List String → AttributionError
  ambiguous_attribution : String → String → List String → AttributionError
  unreadable_instant : AttributionError
  attribute_of_none : AttributionError
  -- The fuel of a loop of this model ran out.
  out_of_fuel : AttributionError

pub record AttributionResult : Type 0 where
  pub outcome_event_id : String
  pub policy_version : String
  pub method : String
  pub window_days : ℤ
  pub resolved_action_event_id : Option String
  pub resolved_decision_event_id : Option String
  pub status : String
  pub reason : String
  pub cutoff : ℕ

pub record OutcomeClaims : Type 0 where
  pub outcome_event_id : String
  pub account_ref : String
  pub schema_version : String
  pub observation_instant : Option String
  pub source_action_event_id : Option String
  pub source_decision_event_id : Option String
  pub ingest_sequence : ℕ

pub record ActionCandidate : Type 0 where
  pub action_event_id : String
  pub account_ref : String
  pub decision_event_id : String
  pub status : String
  pub occurred_at : String
  pub ingest_sequence : ℕ
  pub decision_class : Option String
  pub decision_account_ref : Option String

pub record DecisionClaim : Type 0 where
  pub decision_event_id : String
  pub account_ref : String
  pub decision_class : String
  pub decision_boundary : String
