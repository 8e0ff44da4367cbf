-- ===== src/Collector/Contract.antt =====
-- The validation of an envelope by the models in collector/schema.py, and `Collector.ingest_json` of
-- collector/service.py. Pydantic collects every failure of an envelope; here an envelope is valid or not.
use flight_recorder.Base.{
  Bool, false, ◌&&◌, ◌||◌, not, Option, none, some, List, map, String, str_eq, if◌then◌else◌,
  Result, err,
}
use flight_recorder.Rules.{ScalarValue, str_value}
use flight_recorder.Ledger.{Ledger}
use flight_recorder.Collector.Envelope.{
  EvidenceItem, HistoricalContextEntry, ConsumedInput, LogicArtifactRef, DecisionRecordedPayload,
  ActionRecordedPayload, Payload, logic_artifact_registered, account_discovered, evidence_recorded,
  decision_recorded, persona_selected, action_recorded, outcome_evaluated, outcome_evaluated_v2,
  outcome_attributed, Envelope, IngestError, rejected, IngestResult, Codec,
}
use flight_recorder.Collector.Attributed.{is_some}
use flight_recorder.Collector.Service.{ingest}
use flight_recorder.Collector.Models.{
  attribution_source, is_filled, is_filled_or_none, all_of, is_nonempty, no_duplicates, is_int,
  is_filled_str, is_pressure, has_basis, valid_entry, agrees_with_context, valid_used,
  valid_persona, valid_outcome, valid_outcome_v2, valid_attribution, valid_artifact, valid_base,
}

-- What pydantic asks of a text by a regular expression or as a date is left to it, as is its reading of
-- a body to a normalized envelope.
pub record Reader : Type 0 where
  pub read_envelope : String → Option Envelope
  pub is_decimal : String → Bool
  pub is_sha256 : String → Bool
  pub is_date : String → Bool

module _ (reader : Reader) where
  abbrev pub is_date_str : ScalarValue → Bool
  is_date_str (str_value text) = reader.is_date text
  is_date_str _ = false

  abbrev pub is_date_column : Option String → Bool
  is_date_column none = false
  is_date_column (some text) = reader.is_date text

  -- The seven models of an evidence item, by its type.
  unfoldable pub valid_fields : EvidenceItem → Bool
  valid_fields item =
      let plain = not (is_some item.observed_at) && not (is_some item.basis) in
      let dated = is_date_column item.observed_at && not (is_some item.basis) in
      if str_eq item.evidence_type "employee_count"
        || str_eq item.evidence_type "open_platform_engineering_roles"
      then is_int item.value && plain
      else if str_eq item.evidence_type "industry"
          || str_eq item.evidence_type "headquarters_country"
      then is_filled_str item.value && plain
      else if str_eq item.evidence_type "funding_event"
      then is_filled_str item.value && dated
      else if str_eq item.evidence_type "head_of_platform_start_date"
      then is_date_str item.value && dated
      else str_eq item.evidence_type "verified_integration_pressure"
        && is_pressure item.value
        && not (is_some item.observed_at)
        && has_basis item.basis

  abbrev pub valid_item : EvidenceItem → Bool
  valid_item item =
      is_filled item.evidence_version_id
      && is_filled_or_none item.supersedes_evidence_version_id
      && valid_fields item

  -- `EvidenceRecordedPayload`, with `_evidence_version_ids_are_unique`.
  unfoldable pub valid_items : List EvidenceItem → Bool
  valid_items items =
      is_nonempty items
      && all_of valid_item items
      && no_duplicates (map (λ (i : EvidenceItem). i.evidence_version_id) items)

  abbrev pub valid_ref : LogicArtifactRef → Bool
  valid_ref r =
      is_filled r.logic_version
      && is_filled r.artifact_id
      && reader.is_sha256 r.artifact_hash
      && is_filled r.evaluator_version

  -- `DecisionRecordedPayload`, with its three validators.
  unfoldable pub valid_decision : DecisionRecordedPayload → Bool
  valid_decision payload =
      str_eq payload.decision_class "account_prioritization"
      && is_filled payload.workflow_version
      && is_nonempty payload.historical_context
      && all_of valid_entry payload.historical_context
      && is_nonempty payload.consumed_inputs
      && all_of valid_used payload.consumed_inputs
      && valid_ref payload.logic_artifact
      && (str_eq payload.result.output "PRIORITIZE"
          || str_eq payload.result.output "DO_NOT_PRIORITIZE")
      && no_duplicates
          (map (λ (h : HistoricalContextEntry). h.input_key) payload.historical_context)
      && no_duplicates (map (λ (c : ConsumedInput). c.input_key) payload.consumed_inputs)
      && all_of (agrees_with_context payload.historical_context) payload.consumed_inputs

  unfoldable pub valid_action : ActionRecordedPayload → Bool
  valid_action payload =
      str_eq payload.action_type "outbound_play"
      && is_filled payload.target_persona
      && (str_eq payload.status "sent"
          || str_eq payload.status "completed"
          || str_eq payload.status "failed")
      && reader.is_decimal payload.cost
      && str_eq payload.currency "USD"
      && is_filled payload.decision_event_id

  -- The payload of an envelope, and what its own envelope asks in addition.
  unfoldable pub valid_payload : Envelope → Payload → Bool
  valid_payload e (logic_artifact_registered artifact) = valid_artifact artifact
  valid_payload e (account_discovered name domain) = is_filled name && is_filled domain
  valid_payload e (evidence_recorded items) = valid_items items
  valid_payload e (decision_recorded payload) =
      valid_decision payload && str_eq payload.decision_boundary e.occurred_at
  valid_payload e (persona_selected payload) = valid_persona payload
  valid_payload e (action_recorded payload) = valid_action payload
  valid_payload e (outcome_evaluated payload) = valid_outcome payload
  valid_payload e (outcome_evaluated_v2 payload) =
      valid_outcome_v2 payload && str_eq payload.observed_at e.occurred_at
  valid_payload e (outcome_attributed payload) =
      valid_attribution payload
      && str_eq e.source attribution_source
      && str_eq payload.attributed_at e.occurred_at

  unfoldable pub valid_envelope : Envelope → Bool
  valid_envelope e = valid_payload e e.payload && valid_base e

  -- `validate_envelope_json`
  unfoldable pub validate_envelope_json : String → Option Envelope
  validate_envelope_json body = elim (reader.read_envelope body) [
    | none ↦ none
    | some e ↦ if valid_envelope e then some e else none
  ]

  -- `ingest_json`
  unfoldable pub ingest_json : Codec → Ledger → String → Ledger × Result IngestError IngestResult
  ingest_json codec conn body = elim (validate_envelope_json body) [
    | none ↦ (conn, err (rejected "invalid_envelope"))
    | some e ↦ ingest codec conn e
  ]
