-- ===== src/Collector/Tests.antt =====
-- The theorems on the collector at a small trace: an artifact, an account, one evidence version, a
-- decision on it, an action, an outcome, and its attribution.
use Prim.Native.String.{◌++◌ as concat}
use flight_recorder.Base.{
  ◌*◌, ◌≡◌, refl, true, false, Option, some, none, List, [], ◌∷◌, String, str_eq, ok, if◌then◌else◌,
  Pairwise, All,
}
use flight_recorder.Base.Int.{ℤ, pos, ◌-ℤ◌}
use flight_recorder.Base.Datetime.{day_micros}
use flight_recorder.Rules.{int_value, str_value}
use flight_recorder.Evaluator.{LogicArtifact}
use flight_recorder.Ledger.{Ledger, empty_ledger}
use flight_recorder.Attribution.Records.{
  policy_version, lookback_days, method_explicit_reference, status_direct, valid_source_action,
  AttributionResult,
}
use flight_recorder.Attribution.Attribute.{attribute}
use flight_recorder.Collector.Envelope.{
  Codec, Envelope, Payload, logic_artifact_registered, account_discovered, evidence_recorded,
  decision_recorded, action_recorded, outcome_evaluated, outcome_attributed, created, duplicate,
}
use flight_recorder.Collector.Service.{
  ingest, event_with, event_row, account_rules, add_account, admit, check_account_rules,
  materialize_account, next_sequence, validate_references,
}
use flight_recorder.Attribution.Snapshot.{
  ledger_maximum, load_outcome, validate_cutoff, load_action, action_query,
}
use flight_recorder.Collector.Attributed.{
  attribution_now, validate_attributed_outcome, validate_attribution,
  validate_attribution_supersession, validate_operation, validate_recomputed,
  validate_resolved_action, validate_resolved_decision,
}
use flight_recorder.Collector.Project.{
  project, project_artifact, project_decision, project_evidence,
}
use flight_recorder.Collector.References.{
  validate_action_reference, validate_artifact_identity, validate_decision,
  validate_decision_reference, validate_evidence, validate_item, validate_reference,
  validate_references_of,
}
use flight_recorder.Attribution.Selection.{
  effective_outcome_version, follow, successors, effective_attribution, attribution_rows,
}
use flight_recorder.Attribution.Claims.{action_problem, instant_of, instant}
use flight_recorder.Collector.Models.{attribution_source}
use flight_recorder.Collector.Accepted.{Ingested, ingest-Ingested}
use flight_recorder.Collector.Settled.{deliver_all, ingest-redelivered, attribute-delivered}
use flight_recorder.Collector.Reachable.{Reachable, created_empty, delivered}
use flight_recorder.Collector.Attested.{Attests, attributions-Attests}
use flight_recorder.Collector.Recorded.{IsBefore, IsReferenced, events-IsBefore, rows-IsReferenced}
use flight_recorder.Collector.Sealed.{IsSealed}
use flight_recorder.Collector.Sealed.Decisions.{decisions-IsSealed}
use flight_recorder.Collector.Linked.{AllLinked, rows-AllLinked}

abbrev pub first_day : String
first_day = "2026-01-01T00:00:00Z"

abbrev pub second_day : String
second_day = "2026-01-02T00:00:00Z"

abbrev pub third_day : String
third_day = "2026-01-03T00:00:00Z"

abbrev pub read_instant : String → Option ℤ
read_instant text =
    if str_eq text first_day
    then some (pos day_micros)
    else if str_eq text second_day
    then some (pos (2 * day_micros))
    else if str_eq text third_day
    then some (pos (3 * day_micros))
    else none

-- A toy of the canonical form, in which one text is the only value.
abbrev pub codec : Codec
codec = record {
  envelope_hash = λ e. concat e.event_id e.occurred_at;
  payload_text = λ _. "{}";
  artifact_hash = λ a. a.artifact_id;
  artifact_text = λ a. a.artifact_id;
  scalar_text = λ _. "retail";
  fields_text = λ _ _ _. "{value: retail}";
  loads_value = λ text. if str_eq text "{value: retail}" then some (str_value "retail") else none;
  operation_digest = λ outcome _ _. outcome;
  fromisoformat = read_instant;
}

abbrev pub artifact : LogicArtifact
artifact = record {
  artifact_schema_version = "1";
  artifact_id = "artifact-1";
  logic_version = "v1";
  decision_class = "account_prioritization";
  evaluator_version = "evaluator-v1";
  factors = record { key = "industry"; rule = "industry equals 'retail'"; weight = pos 3 } ∷ [];
  missing_value_behavior = "no_match_contributes_zero";
  threshold = pos 0;
  output_mapping = record { at_or_above_threshold = "PRIORITIZE"; below_threshold = "DEFER" };
  activation = record { activated_at = first_day; deactivated_at = none; status = "active" };
}

abbrev at : String → String → String → Payload → Envelope
at account_ref id day payload = record {
  event_id = id;
  source = "crm";
  account_ref = account_ref;
  occurred_at = day;
  recorded_at = day;
  payload = payload;
}

abbrev pub registered : Envelope
registered = at "_system" "evt-artifact" first_day (logic_artifact_registered artifact)

abbrev pub discovered : Envelope
discovered = at "acct-1" "evt-account" first_day (account_discovered "Acme" "acme.example")

abbrev pub observed : Envelope
observed = at "acct-1" "evt-evidence" first_day (
    evidence_recorded (
      record {
        evidence_version_id = "ev-1";
        supersedes_evidence_version_id = none;
        evidence_type = "industry";
        value = str_value "retail";
        observed_at = none;
        basis = none;
      }
      ∷ []))

abbrev pub decided : Envelope
decided = at "acct-1" "evt-decision" first_day (
    decision_recorded (record {
      decision_class = "account_prioritization";
      decision_boundary = first_day;
      workflow_version = "w1";
      historical_context =
          record {
            input_key = "industry";
            value = str_value "retail";
            availability = "available";
            evidence_version_id = some "ev-1";
          }
          ∷ [];
      consumed_inputs =
          record {
            input_key = "industry";
            value = str_value "retail";
            evidence_version_id = "ev-1";
            contribution = pos 3;
          }
          ∷ [];
      logic_artifact = record {
        logic_version = "v1";
        artifact_id = "artifact-1";
        artifact_hash = "artifact-1";
        evaluator_version = "evaluator-v1";
      };
      result = record { score = pos 3; threshold = pos 0; output = "PRIORITIZE" };
      explanation = none;
    }))

abbrev pub acted : Envelope
acted = at "acct-1" "evt-action" second_day (
    action_recorded (record {
      action_type = "outbound_play";
      play_id = pos 1;
      target_persona = "cto";
      status = "sent";
      cost = "1.00";
      currency = "USD";
      decision_event_id = "evt-decision";
    }))

abbrev pub evaluated : Envelope
evaluated = at "acct-1" "evt-outcome" third_day (
    outcome_evaluated (record {
      window_days = pos 14;
      reply = true;
      meeting = false;
      opportunity = false;
      action_event_id = "evt-action";
    }))

abbrev pub attributed : Envelope
attributed =
    record (at "acct-1" "evt-attribution-evt-outcome" third_day (
      outcome_attributed (record {
        outcome_event_id = "evt-outcome";
        policy_version = policy_version;
        method = method_explicit_reference;
        window_days = pos lookback_days;
        resolved_action_event_id = some "evt-action";
        resolved_decision_event_id = some "evt-decision";
        status = status_direct;
        reason = valid_source_action;
        attributed_at = third_day;
        ingest_cutoff = pos 6;
        supersedes_attribution_event_id = none;
      }))) { source = attribution_source }

-- The ledger behind the events up to the outcome, and its attribution.
abbrev trace : List Envelope
trace = registered ∷ discovered ∷ observed ∷ decided ∷ acted ∷ evaluated ∷ []

abbrev pub conn : Ledger
conn = deliver_all codec empty_ledger trace

pub conn_reached : Reachable codec conn
conn_reached =
    delivered
      (delivered
        (delivered (delivered (delivered (delivered created_empty registered) discovered) observed)
          decided)
        acted)
      evaluated

pub attributed_created :
    (ingest codec conn attributed).1
    ≡ ok (created "evt-attribution-evt-outcome" "evt-attribution-evt-outcome2026-01-03T00:00:00Z")
unfolding ingest attribute ◌-ℤ◌ ledger_maximum load_outcome validate_cutoff load_action action_query
    attribution_now validate_attributed_outcome validate_attribution
    validate_attribution_supersession validate_operation validate_recomputed
    validate_resolved_action validate_resolved_decision project project_artifact project_decision
    project_evidence validate_action_reference validate_artifact_identity validate_decision
    validate_decision_reference validate_evidence validate_item validate_reference
    validate_references_of account_rules add_account admit check_account_rules materialize_account
    next_sequence validate_references effective_outcome_version follow successors
    effective_attribution attribution_rows action_problem instant_of instant
attributed_created = refl

ingest-Ingested_example :
    Ingested codec conn attributed (ingest codec conn attributed).0 (ingest codec conn attributed).1
ingest-Ingested_example = ingest-Ingested codec conn attributed

ingest-redelivered_example :
    (event_with (deliver_all codec conn (attributed ∷ acted ∷ [])) "evt-attribution-evt-outcome"
      ≡ some (event_row codec attributed (next_sequence conn)))
    × (ingest codec (deliver_all codec conn (attributed ∷ acted ∷ [])) attributed ≡ (
      deliver_all codec conn (attributed ∷ acted ∷ []),
      ok (
          duplicate "evt-attribution-evt-outcome"
            "evt-attribution-evt-outcome2026-01-03T00:00:00Z"),
    ))
ingest-redelivered_example =
    ingest-redelivered codec conn attributed (acted ∷ []) attributed_created

abbrev pub result : AttributionResult
result = record {
  outcome_event_id = "evt-outcome";
  policy_version = policy_version;
  method = method_explicit_reference;
  window_days = pos lookback_days;
  resolved_action_event_id = some "evt-action";
  resolved_decision_event_id = some "evt-decision";
  status = status_direct;
  reason = valid_source_action;
  cutoff = 6;
}

attributed_result :
    attribute read_instant conn "evt-outcome" (int_value (pos 6)) policy_version ≡ ok result
unfolding ingest attribute ◌-ℤ◌ ledger_maximum load_outcome validate_cutoff load_action action_query
    attribution_now validate_attributed_outcome validate_attribution
    validate_attribution_supersession validate_operation validate_recomputed
    validate_resolved_action validate_resolved_decision project project_artifact project_decision
    project_evidence validate_action_reference validate_artifact_identity validate_decision
    validate_decision_reference validate_evidence validate_item validate_reference
    validate_references_of account_rules add_account admit check_account_rules materialize_account
    next_sequence validate_references effective_outcome_version follow successors
    effective_attribution attribution_rows action_problem instant_of instant
attributed_result = refl

attribute-delivered_example :
    attribute read_instant
      (deliver_all codec conn (attributed ∷ []))
      "evt-outcome"
      (int_value (pos 6))
      policy_version
    ≡ ok result
attribute-delivered_example =
    attribute-delivered codec conn (attributed ∷ []) "evt-outcome" (int_value (pos 6))
      policy_version conn_reached attributed_result

-- The ledger with the attribution.
abbrev attributed_conn : Ledger
attributed_conn = (ingest codec conn attributed).0

attributions-Attests_example :
    All (Attests codec attributed_conn) attributed_conn.outcome_attributions
attributions-Attests_example = attributions-Attests codec (delivered conn_reached attributed)

events-IsBefore_example : Pairwise IsBefore attributed_conn.events
events-IsBefore_example = events-IsBefore codec (delivered conn_reached attributed)

rows-IsReferenced_example : IsReferenced attributed_conn
rows-IsReferenced_example = rows-IsReferenced codec (delivered conn_reached attributed)

decisions-IsSealed_example : IsSealed codec attributed_conn
decisions-IsSealed_example = decisions-IsSealed codec (delivered conn_reached attributed)

rows-AllLinked_example : AllLinked attributed_conn attributed_conn
rows-AllLinked_example = rows-AllLinked codec (delivered conn_reached attributed)
