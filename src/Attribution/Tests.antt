-- ===== src/Attribution/Tests.antt =====
-- The theorems on attribution/policy.py at a small ledger: an account with two sent actions, of one
-- prioritization decision, and an outcome with no source claim.
use flight_recorder.Base.{
  ℕ, ◌*◌, ◌≢◌, ◌≡◌, refl, Option, some, none, [], ◌∷◌, String, str_eq, ok, err, ◌↔◌, if◌then◌else◌,
}
use flight_recorder.Base.Int.{ℤ, pos, ◌-ℤ◌}
use flight_recorder.Base.Datetime.{day_micros}
use flight_recorder.Rules.{int_value}
use flight_recorder.Ledger.{
  EventRow, ActionRow, OutcomeRow, StoredAttribution, Ledger, empty_ledger, empty_ledger,
}
use flight_recorder.Attribution.Records.{
  out_of_fuel, OutcomeClaims, status_unresolved, method_unresolved, AttributionResult,
  ActionCandidate, DecisionClaim, policy_version, lookback_days, status_inferred, method_heuristic,
}
use flight_recorder.Attribution.Snapshot.{
  load_outcome, validate_cutoff, action_query, load_account_actions,
}
use flight_recorder.Attribution.Claims.{
  action_problem, decision_problem, most_recent_eligible, eligible, instant, instant_of,
}
use flight_recorder.Attribution.Attribute.{attribute}
use flight_recorder.Attribution.Eligibility.{
  IsEligible, IsResolvable, action_problem-iff_IsEligible, decision_problem-iff_IsResolvable,
}
use flight_recorder.Attribution.Selection.{
  effective_outcome_version, effective_attribution, attribution_rows, follow, successors,
}
use flight_recorder.Attribution.Effective.{
  LeadsTo, effective_outcome_version-terminates, effective_outcome_version-iff_LeadsTo,
}
use flight_recorder.Attribution.Tips.{IsEffective, effective_attribution-IsEffective}
use flight_recorder.Attribution.Resolution.{Attributed, attribute-Attributed}

-- A reader of four timestamps, by the day.
abbrev read_instant : String → Option ℤ
read_instant text =
    if str_eq text "day 100"
    then some (pos (100 * day_micros))
    else if str_eq text "day 110"
    then some (pos (110 * day_micros))
    else if str_eq text "day 120"
    then some (pos (120 * day_micros))
    else if str_eq text "day 130"
    then some (pos (130 * day_micros))
    else none

abbrev event : ℕ → String → String → EventRow
event sequence id event_type = record {
  ingest_sequence = sequence;
  event_id = id;
  schema_version = "1";
  event_type = event_type;
  source = "crm";
  account_ref = "acct-1";
  occurred_at = "day 100";
  recorded_at = "day 100";
  canonical_hash = "";
  payload = "";
}

abbrev sent : String → String → ActionRow
sent id occurred_at = record {
  action_event_id = id;
  account_ref = "acct-1";
  decision_event_id = "decision-1";
  action_type = "outbound_play";
  play_id = pos 1;
  target_persona = "cto";
  status = "sent";
  cost = "1.00";
  currency = "USD";
  occurred_at = occurred_at;
}

abbrev conn : Ledger
conn = record empty_ledger {
  events =
      event 1 "decision-1" "decision"
      ∷ event 2 "action-1" "action"
      ∷ event 3 "action-2" "action"
      ∷ event 4 "outcome-1" "outcome"
      ∷ [];
  decisions =
      record {
        decision_event_id = "decision-1";
        account_ref = "acct-1";
        decision_class = "account_prioritization";
        decision_boundary = "day 100";
        workflow_version = "w1";
        artifact_hash = "hash-1";
        evaluator_version = "evaluator-v1";
        logic_version = "v1";
        score = pos 1;
        threshold = pos 1;
        output = "PRIORITIZE";
        explanation = none;
        ingest_sequence = 1;
      }
      ∷ [];
  actions = sent "action-1" "day 120" ∷ sent "action-2" "day 110" ∷ [];
  outcomes =
      record {
        outcome_event_id = "outcome-1";
        account_ref = "acct-1";
        action_event_id = none;
        window_days = none;
        reply = none;
        meeting = none;
        opportunity = none;
        occurred_at = "day 130";
        recorded_at = "day 130";
        schema_version = "1";
        window_opened_at = none;
        window_closes_at = none;
        evaluation_state = none;
        observed_at = none;
        source_action_event_id = none;
        source_action_unusable_reason = none;
        source_decision_event_id = none;
        source_decision_unusable_reason = none;
        supersedes_outcome_event_id = none;
      }
      ∷ [];
  outcome_attributions = [];
}

abbrev observed : String → Option String → OutcomeRow
observed id superseded = record {
  outcome_event_id = id;
  account_ref = "acct-1";
  action_event_id = none;
  window_days = none;
  reply = none;
  meeting = none;
  opportunity = none;
  occurred_at = "day 130";
  recorded_at = "day 130";
  schema_version = "2";
  window_opened_at = none;
  window_closes_at = none;
  evaluation_state = none;
  observed_at = some "day 130";
  source_action_event_id = none;
  source_action_unusable_reason = none;
  source_decision_event_id = none;
  source_decision_unusable_reason = none;
  supersedes_outcome_event_id = superseded;
}

abbrev stored : StoredAttribution
stored = record {
  attribution_event_id = "attribution-1";
  account_ref = "acct-1";
  source_event_id = "attribution-1";
  outcome_event_id = "outcome-2";
  policy_version = policy_version;
  method = method_unresolved;
  window_days = pos lookback_days;
  resolved_action_event_id = none;
  resolved_decision_event_id = none;
  status = status_unresolved;
  reason = "no_source_reference;no_eligible_action";
  attributed_at = "day 130";
  ingest_cutoff = pos 2;
  supersedes_attribution_event_id = none;
}

abbrev attributed : AttributionResult
attributed = record {
  outcome_event_id = "outcome-1";
  policy_version = policy_version;
  method = method_heuristic;
  window_days = pos lookback_days;
  resolved_action_event_id = some "action-1";
  resolved_decision_event_id = some "decision-1";
  status = status_inferred;
  reason = "no_source_reference;most_recent_eligible_action";
  cutoff = 4;
}

attribute-sample :
    attribute read_instant conn "outcome-1" (int_value (pos 4)) policy_version ≡ ok attributed
unfolding attribute validate_cutoff load_outcome eligible load_account_actions action_query
    action_problem instant_of instant most_recent_eligible ◌-ℤ◌
attribute-sample = refl

attribute-Attributed_example :
    Attributed read_instant conn "outcome-1" (int_value (pos 4)) policy_version attributed
attribute-Attributed_example =
    attribute-Attributed read_instant conn "outcome-1" (int_value (pos 4)) policy_version attributed
      attribute-sample

abbrev first_action : ActionCandidate
first_action = record {
  action_event_id = "action-1";
  account_ref = "acct-1";
  decision_event_id = "decision-1";
  status = "sent";
  occurred_at = "day 120";
  ingest_sequence = 2;
  decision_class = some "account_prioritization";
  decision_account_ref = some "acct-1";
}

action_problem-iff_IsEligible_example :
    (action_problem read_instant (some first_action) "acct-1" (some "day 130") ≡ ok none)
    ↔ IsEligible read_instant "acct-1" (some "day 130") first_action
action_problem-iff_IsEligible_example =
    action_problem-iff_IsEligible read_instant first_action "acct-1" (some "day 130")

abbrev first_decision : DecisionClaim
first_decision = record {
  decision_event_id = "decision-1";
  account_ref = "acct-1";
  decision_class = "account_prioritization";
  decision_boundary = "day 100";
}

decision_problem-iff_IsResolvable_example :
    (decision_problem read_instant (some first_decision) "acct-1" (some "day 130") ≡ ok none)
    ↔ IsResolvable read_instant "acct-1" (some "day 130") first_decision
decision_problem-iff_IsResolvable_example =
    decision_problem-iff_IsResolvable read_instant first_decision "acct-1" (some "day 130")

-- The outcome of the sample, and a correction of it that is the only one.
abbrev corrected : Ledger
corrected = record empty_ledger {
  events =
      event 1 "outcome-1" "outcome"
      ∷ event 2 "outcome-2" "outcome"
      ∷ event 3 "attribution-1" "attribution"
      ∷ [];
  outcomes = observed "outcome-1" none ∷ observed "outcome-2" (some "outcome-1") ∷ [];
  outcome_attributions = stored ∷ [];
}

effective_outcome_version-terminates_example :
    effective_outcome_version corrected "outcome-1" 3 ≢ err out_of_fuel
effective_outcome_version-terminates_example =
    effective_outcome_version-terminates corrected 3 "outcome-1"

effective_outcome_version-iff_LeadsTo_example :
    (effective_outcome_version corrected "outcome-1" 3 ≡ ok "outcome-2") ↔ (
      ((outcome : OutcomeClaims) × (load_outcome corrected "outcome-1" 3 ≡ ok outcome))
      × LeadsTo corrected 3 "outcome-1" "outcome-2")
effective_outcome_version-iff_LeadsTo_example =
    effective_outcome_version-iff_LeadsTo corrected 3 "outcome-1" "outcome-2"

corrected_version : effective_outcome_version corrected "outcome-1" 3 ≡ ok "outcome-2"
unfolding effective_outcome_version load_outcome follow successors
corrected_version = refl

corrected_attribution :
    effective_attribution corrected "outcome-2" policy_version 3 ≡ ok (some stored)
unfolding effective_attribution attribution_rows
corrected_attribution = refl

effective_attribution-IsEffective_example :
    IsEffective corrected "outcome-2" policy_version 3 (some stored)
effective_attribution-IsEffective_example =
    effective_attribution-IsEffective corrected "outcome-2" policy_version 3 (some stored)
      corrected_attribution
