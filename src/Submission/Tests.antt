-- ===== src/Submission/Tests.antt =====
-- The theorems on attribution/service.py at the trace of the collector's tests.
use flight_recorder.Base.{
  List, Option, Result, String, [], err, false, if◌then◌else◌, map, none, ok, refl, some, str_eq,
  true, ◌∷◌, ◌≡◌,
}
use flight_recorder.Attribution.Records.{policy_version}
use flight_recorder.Collector.Envelope.{Envelope, Payload, duplicate}
use flight_recorder.Collector.Service.{
  account_rules, add_account, admit, check_account_rules, ingest, materialize_account,
  next_sequence, validate_references,
}
use flight_recorder.Collector.Settled.{deliver_all}
use flight_recorder.Collector.Tests.{
  acted, attributed, attributed_created, codec, conn, conn_reached, result, third_day,
}
use flight_recorder.Submission.{
  Fate, Sent, answer, answered, attempt, build_envelope, retry_operation, server_error, submit,
  transport_error,
}
use flight_recorder.Submission.Once.{submit-once}
use flight_recorder.Submission.Recovered.{retry_operation-recovers}
use flight_recorder.Submission.Run.{
  AttributionRun, RunError, after_submission, computed, decide, empty_run, evaluate_round, perform,
  run_attribution, run_outcomes,
}
use flight_recorder.Base.Int.{◌-ℤ◌}
use flight_recorder.Attribution.Attribute.{attribute}
use flight_recorder.Attribution.Snapshot.{
  action_query, ledger_maximum, load_action, load_outcome, validate_cutoff,
}
use flight_recorder.Collector.Attributed.{
  attribution_now, validate_attributed_outcome, validate_attribution,
  validate_attribution_supersession, validate_operation, validate_recomputed,
  validate_resolved_action, validate_resolved_decision,
}
use flight_recorder.Collector.Project.{
  project, project_artifact, project_decision, project_evidence,
}
use flight_recorder.Collector.References.{
  validate_action_reference, validate_artifact_identity, validate_decision,
  validate_decision_reference, validate_evidence, validate_item, validate_reference,
  validate_references_of,
}
use flight_recorder.Attribution.Selection.{
  attribution_rows, collect, effective_attribution, effective_outcome_version,
  effective_outcome_versions, follow, outcomes_in_order, sole_tip, successors,
}
use flight_recorder.Attribution.Claims.{action_problem, instant, instant_of}
use flight_recorder.Submission.Honest.{IsHonest, run_attribution-IsHonest}

-- The answer of the first attempt is lost, and the second attempt fails before it is carried out.
abbrev fates : List Fate
fates = transport_error true ∷ server_error false ∷ answered ∷ []

submit-once_example : (submit codec conn attributed fates).0 ≡ (ingest codec conn attributed).0
submit-once_example = submit-once codec conn attributed fates

abbrev loads_payload : String → Option Payload
loads_payload text = if str_eq text "{}" then some attributed.payload else none

retry_operation-recovers_example :
    retry_operation codec loads_payload
      (deliver_all codec conn (attributed ∷ acted ∷ []))
      "evt-outcome"
      6
      policy_version
      (answered ∷ [])
    ≡ some (
      attributed,
      deliver_all codec conn (attributed ∷ acted ∷ []),
      answer (
          ok (
            duplicate "evt-attribution-evt-outcome"
              "evt-attribution-evt-outcome2026-01-03T00:00:00Z")),
    )
unfolding build_envelope
retry_operation-recovers_example =
    retry_operation-recovers codec loads_payload conn result "acct-1" third_day third_day none
      (acted ∷ []) refl attributed_created

abbrev run_of : Result RunError AttributionRun → AttributionRun
run_of (ok run) = run
run_of (err e) = empty_run none false

abbrev run : AttributionRun
run =
    run_of
      (run_attribution codec (λ _. fates) (λ _. (third_day, third_day)) false policy_version conn).1

run_completed :
    (run_attribution codec (λ _. fates) (λ _. (third_day, third_day)) false policy_version conn).1
    ≡ ok run
unfolding account_rules action_problem action_query add_account admit after_submission attempt
    attribute attribution_now attribution_rows build_envelope check_account_rules collect computed
    decide effective_attribution effective_outcome_version effective_outcome_versions evaluate_round
    follow ingest instant instant_of ledger_maximum load_action load_outcome materialize_account
    next_sequence outcomes_in_order perform project project_artifact project_decision
    project_evidence run_attribution run_outcomes sole_tip submit successors
    validate_action_reference validate_artifact_identity validate_attributed_outcome
    validate_attribution validate_attribution_supersession validate_cutoff validate_decision
    validate_decision_reference validate_evidence validate_item validate_operation
    validate_recomputed validate_reference validate_references validate_references_of
    validate_resolved_action validate_resolved_decision ◌-ℤ◌
run_completed = refl

newest : ledger_maximum conn ≡ some 6
unfolding account_rules action_problem action_query add_account admit attribute attribution_now
    attribution_rows check_account_rules effective_attribution effective_outcome_version follow
    ingest instant instant_of ledger_maximum load_action load_outcome materialize_account
    next_sequence project project_artifact project_decision project_evidence successors
    validate_action_reference validate_artifact_identity validate_attributed_outcome
    validate_attribution validate_attribution_supersession validate_cutoff validate_decision
    validate_decision_reference validate_evidence validate_item validate_operation
    validate_recomputed validate_reference validate_references validate_references_of
    validate_resolved_action validate_resolved_decision ◌-ℤ◌
newest = refl

-- The run sends one envelope, for the one outcome.
run_sends : map (λ (item : String × Envelope × Sent). item.0) run.submissions ≡ "evt-outcome" ∷ []
unfolding account_rules action_problem action_query add_account admit after_submission attempt
    attribute attribution_now attribution_rows build_envelope check_account_rules collect computed
    decide effective_attribution effective_outcome_version effective_outcome_versions evaluate_round
    follow ingest instant instant_of ledger_maximum load_action load_outcome materialize_account
    next_sequence outcomes_in_order perform project project_artifact project_decision
    project_evidence run_attribution run_outcomes sole_tip submit successors
    validate_action_reference validate_artifact_identity validate_attributed_outcome
    validate_attribution validate_attribution_supersession validate_cutoff validate_decision
    validate_decision_reference validate_evidence validate_item validate_operation
    validate_recomputed validate_reference validate_references validate_references_of
    validate_resolved_action validate_resolved_decision ◌-ℤ◌
run_sends = refl

run_attribution-IsHonest_example :
    IsHonest codec false policy_version 6 conn
      (run_attribution codec (λ _. fates) (λ _. (third_day, third_day)) false policy_version conn).0
      run
run_attribution-IsHonest_example =
    run_attribution-IsHonest codec (λ _. fates) (λ _. (third_day, third_day)) false policy_version
      conn 6 run conn_reached newest run_completed
