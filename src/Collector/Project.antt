-- ===== src/Collector/Project.antt =====
-- `project` of collector/projections.py: the rows that an accepted event writes. Rows are appended.
use flight_recorder.Base.{
  ℕ, Option, none, some, List, [], ◌∷◌, ◌++◌, map, String, str_eq, if◌then◌else◌, Result, ok, ◌>>=◌,
  map_err,
}
use flight_recorder.Evaluator.{LogicArtifact}
use flight_recorder.Ledger.{
  Ledger, EvidenceRow, LogicArtifactRow, DecisionRow, ContextRow, ConsumedRow, PersonaRow,
  ActionRow, OutcomeRow, StoredAttribution,
}
use flight_recorder.Attribution.Records.{Problem, problem_text}
use flight_recorder.Attribution.Attribute.{source_claim_problems}
use flight_recorder.Collector.Envelope.{
  IngestError, policy_failure, Codec, EvidenceItem, HistoricalContextEntry, ConsumedInput,
  DecisionRecordedPayload, PersonaSelectedPayload, ActionRecordedPayload, OutcomeEvaluatedPayload,
  OutcomeEvaluatedV2Payload, OutcomeAttributedPayload, Payload, logic_artifact_registered,
  account_discovered, evidence_recorded, decision_recorded, persona_selected, action_recorded,
  outcome_evaluated, outcome_evaluated_v2, outcome_attributed, Envelope,
}
use flight_recorder.Collector.References.{artifact_with, evidence_value_json}

abbrev pub append : {A : Type 0} → List A → A → List A
append rows row = rows ++ row ∷ []

-- The text of a reason that may be missing.
abbrev pub reason_text : Option Problem → Option String
reason_text none = none
reason_text (some p) = some (problem_text p)

abbrev pub decision_row : Envelope → DecisionRecordedPayload → ℕ → DecisionRow
decision_row e payload ingest_sequence = record {
  decision_event_id = e.event_id;
  account_ref = e.account_ref;
  decision_class = payload.decision_class;
  decision_boundary = payload.decision_boundary;
  workflow_version = payload.workflow_version;
  artifact_hash = payload.logic_artifact.artifact_hash;
  evaluator_version = payload.logic_artifact.evaluator_version;
  logic_version = payload.logic_artifact.logic_version;
  score = payload.result.score;
  threshold = payload.result.threshold;
  output = payload.result.output;
  explanation = payload.explanation;
  ingest_sequence = ingest_sequence;
}

abbrev pub action_row : Envelope → ActionRecordedPayload → ActionRow
action_row e payload = record {
  action_event_id = e.event_id;
  account_ref = e.account_ref;
  decision_event_id = payload.decision_event_id;
  action_type = payload.action_type;
  play_id = payload.play_id;
  target_persona = payload.target_persona;
  status = payload.status;
  cost = payload.cost;
  currency = payload.currency;
  occurred_at = e.occurred_at;
}

abbrev pub persona_row : Envelope → PersonaSelectedPayload → PersonaRow
persona_row e payload = record {
  event_id = e.event_id;
  account_ref = e.account_ref;
  decision_event_id = payload.decision_event_id;
  persona = payload.persona;
  explanation = payload.explanation;
}

abbrev pub outcome_row : Envelope → OutcomeEvaluatedPayload → OutcomeRow
outcome_row e payload = record {
  outcome_event_id = e.event_id;
  account_ref = e.account_ref;
  action_event_id = some payload.action_event_id;
  window_days = some payload.window_days;
  reply = some payload.reply;
  meeting = some payload.meeting;
  opportunity = some payload.opportunity;
  occurred_at = e.occurred_at;
  recorded_at = e.recorded_at;
  schema_version = "1";
  window_opened_at = none;
  window_closes_at = none;
  evaluation_state = none;
  observed_at = none;
  source_action_event_id = none;
  source_action_unusable_reason = none;
  source_decision_event_id = none;
  source_decision_unusable_reason = none;
  supersedes_outcome_event_id = none;
}

abbrev pub outcome_v2_row :
    Envelope → OutcomeEvaluatedV2Payload → Option Problem → Option Problem → OutcomeRow
outcome_v2_row e payload action_reason decision_reason = record {
  outcome_event_id = e.event_id;
  account_ref = e.account_ref;
  action_event_id = none;
  window_days = none;
  reply = payload.reply;
  meeting = payload.meeting;
  opportunity = payload.opportunity;
  occurred_at = e.occurred_at;
  recorded_at = e.recorded_at;
  schema_version = "2";
  window_opened_at = some payload.window_opened_at;
  window_closes_at = some payload.window_closes_at;
  evaluation_state = some payload.evaluation_state;
  observed_at = some payload.observed_at;
  source_action_event_id = payload.source_action_event_id;
  source_action_unusable_reason = reason_text action_reason;
  source_decision_event_id = payload.source_decision_event_id;
  source_decision_unusable_reason = reason_text decision_reason;
  supersedes_outcome_event_id = payload.supersedes_outcome_event_id;
}

abbrev pub attribution_row : Envelope → OutcomeAttributedPayload → StoredAttribution
attribution_row e payload = record {
  attribution_event_id = e.event_id;
  account_ref = e.account_ref;
  source_event_id = e.event_id;
  outcome_event_id = payload.outcome_event_id;
  policy_version = payload.policy_version;
  method = payload.method;
  window_days = payload.window_days;
  resolved_action_event_id = payload.resolved_action_event_id;
  resolved_decision_event_id = payload.resolved_decision_event_id;
  status = payload.status;
  reason = payload.reason;
  attributed_at = payload.attributed_at;
  ingest_cutoff = payload.ingest_cutoff;
  supersedes_attribution_event_id = payload.supersedes_attribution_event_id;
}

module _ (codec : Codec) where
  abbrev pub artifact_row : Envelope → LogicArtifact → LogicArtifactRow
  artifact_row e artifact = record {
    artifact_hash = codec.artifact_hash artifact;
    artifact_id = artifact.artifact_id;
    logic_version = artifact.logic_version;
    decision_class = artifact.decision_class;
    artifact_schema_version = artifact.artifact_schema_version;
    evaluator_version = artifact.evaluator_version;
    artifact_json = codec.artifact_text artifact;
    source_event_id = e.event_id;
  }

  abbrev pub evidence_row_of : Envelope → EvidenceItem → EvidenceRow
  evidence_row_of e item = record {
    evidence_version_id = item.evidence_version_id;
    account_ref = e.account_ref;
    evidence_type = item.evidence_type;
    value_json = evidence_value_json codec item;
    source = e.source;
    observed_at = item.observed_at;
    available_at = e.recorded_at;
    source_event_id = e.event_id;
    supersedes_evidence_version_id = item.supersedes_evidence_version_id;
  }

  abbrev pub context_row : Envelope → HistoricalContextEntry → ContextRow
  context_row e entry = record {
    decision_event_id = e.event_id;
    input_key = entry.input_key;
    availability = entry.availability;
    value_text =
        if str_eq entry.availability "available"
        then some (codec.scalar_text entry.value)
        else none;
    evidence_version_id = entry.evidence_version_id;
  }

  abbrev pub consumed_row : Envelope → ConsumedInput → ConsumedRow
  consumed_row e used = record {
    decision_event_id = e.event_id;
    input_key = used.input_key;
    value_text = codec.scalar_text used.value;
    evidence_version_id = used.evidence_version_id;
    contribution = used.contribution;
  }

  -- `_project_artifact`
  unfoldable pub project_artifact : Ledger → Envelope → LogicArtifact → Ledger
  project_artifact conn e artifact = elim (artifact_with conn (codec.artifact_hash artifact)) [
    | some already ↦ conn
    | none ↦ record conn { logic_artifacts = append conn.logic_artifacts (artifact_row e artifact) }
  ]

  -- `_project_evidence`
  unfoldable pub project_evidence : Ledger → Envelope → List EvidenceItem → Ledger
  project_evidence conn e items = record conn {
    evidence_versions = conn.evidence_versions ++ map (evidence_row_of e) items;
  }

  -- `_project_decision`
  unfoldable pub project_decision : Ledger → Envelope → DecisionRecordedPayload → ℕ → Ledger
  project_decision conn e payload ingest_sequence = record conn {
    decisions = append conn.decisions (decision_row e payload ingest_sequence);
    decision_context = conn.decision_context ++ map (context_row e) payload.historical_context;
    decision_consumed_inputs =
        conn.decision_consumed_inputs ++ map (consumed_row e) payload.consumed_inputs;
  }

  -- `_project_outcome`, of an outcome of the second version.
  unfoldable pub project_outcome_v2 :
      Ledger → Envelope → OutcomeEvaluatedV2Payload → ℕ → Result IngestError Ledger
  project_outcome_v2 conn e payload ingest_sequence = do
    (action_reason, decision_reason) ← map_err policy_failure (
        source_claim_problems codec.fromisoformat conn e.account_ref (some payload.observed_at)
          payload.source_action_event_id payload.source_decision_event_id ingest_sequence)
    ok (record conn {
      outcomes = append conn.outcomes (outcome_v2_row e payload action_reason decision_reason);
    })

  unfoldable pub project : Ledger → Envelope → Payload → ℕ → Result IngestError Ledger
  project conn e (logic_artifact_registered artifact) n = ok (project_artifact conn e artifact)
  project conn e (account_discovered name domain) n = ok conn
  project conn e (evidence_recorded items) n = ok (project_evidence conn e items)
  project conn e (decision_recorded payload) n = ok (project_decision conn e payload n)
  project conn e (persona_selected payload) n =
      ok (record conn {
        persona_selections = append conn.persona_selections (persona_row e payload);
      })
  project conn e (action_recorded payload) n =
      ok (record conn { actions = append conn.actions (action_row e payload) })
  project conn e (outcome_evaluated payload) n =
      ok (record conn { outcomes = append conn.outcomes (outcome_row e payload) })
  project conn e (outcome_evaluated_v2 payload) n = project_outcome_v2 conn e payload n
  project conn e (outcome_attributed payload) n = ok (record conn {
    outcome_attributions = append conn.outcome_attributions (attribution_row e payload);
  })
