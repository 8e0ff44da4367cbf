-- ===== src/Collector/Models.antt =====
-- The validators of the models in collector/schema.py that ask nothing of pydantic but equality and order
-- of texts, on a normalized envelope, in which the order of timestamps as texts is that of instants.
pub mod Duplicates
use flight_recorder.Base.{
  ℕ, suc, Bool, true, false, ◌&&◌, ◌||◌, not, Option, none, some, List, [], ◌∷◌, map, String,
  str_eq, ltb, if◌then◌else◌, Result, ok, err, select,
}
use flight_recorder.Base.Text.{str_lt}
use flight_recorder.Rules.{ScalarValue, int_value, str_value, bool_value, null_value}
use flight_recorder.Evaluator.{LogicArtifact, Factor}
use flight_recorder.Ledger.{Ledger, system_account_ref}
use flight_recorder.Collector.Envelope.{
  EvidenceItem, HistoricalContextEntry, ConsumedInput, LogicArtifactRef, DecisionRecordedPayload,
  PersonaSelectedPayload, ActionRecordedPayload, OutcomeEvaluatedPayload, OutcomeEvaluatedV2Payload,
  OutcomeAttributedPayload, Payload, logic_artifact_registered, account_discovered,
  evidence_recorded, decision_recorded, persona_selected, action_recorded, outcome_evaluated,
  outcome_evaluated_v2, outcome_attributed, Envelope, same_scalar, IngestError, rejected,
  IngestResult, Codec,
}
use flight_recorder.Collector.References.{opt_str_eq}
use flight_recorder.Collector.Attributed.{is_some}
use flight_recorder.Collector.Service.{ingest}

abbrev pub attribution_source : String
attribution_source = "flight-recorder-attribution"

-- `NonEmptyStr`, also where it may be missing.
abbrev pub is_filled : String → Bool
is_filled text = not (str_eq text "")

abbrev pub is_filled_or_none : Option String → Bool
is_filled_or_none none = true
is_filled_or_none (some text) = is_filled text

abbrev pub all_of : {A : Type 0} → (A → Bool) → List A → Bool
all_of p [] = true
all_of p (x ∷ xs) = p x && all_of p xs

abbrev pub is_nonempty : {A : Type 0} → List A → Bool
is_nonempty [] = false
is_nonempty (x ∷ xs) = true

-- The count of a key in `seen`, behind the loop of `_duplicates`.
unfoldable pub count : String → List String → ℕ
count key [] = 0
count key (k ∷ keys) = let rest = count key keys in if str_eq k key then suc rest else rest

-- The keys of `seen`: each once, in the order of their first occurrence.
unfoldable pub first_seen : List String → List String
first_seen [] = []
first_seen (k ∷ keys) = k ∷ select (λ j. not (str_eq k j)) (first_seen keys)

-- `_duplicates`
unfoldable pub duplicates : List String → List String
unfolding count first_seen
duplicates keys = select (λ key. ltb 1 (count key keys)) (first_seen keys)

abbrev pub is_empty_list : List String → Bool
is_empty_list [] = true
is_empty_list (x ∷ xs) = false

unfoldable pub no_duplicates : List String → Bool
unfolding duplicates
no_duplicates keys = is_empty_list (duplicates keys)

abbrev pub is_int : ScalarValue → Bool
is_int (int_value _) = true
is_int _ = false

abbrev pub is_filled_str : ScalarValue → Bool
is_filled_str (str_value text) = is_filled text
is_filled_str _ = false

abbrev pub is_null : ScalarValue → Bool
is_null null_value = true
is_null _ = false

abbrev pub is_pressure : ScalarValue → Bool
is_pressure (str_value text) = str_eq text "LOW" || str_eq text "MEDIUM" || str_eq text "HIGH"
is_pressure _ = false

abbrev pub has_basis : Option (List String) → Bool
has_basis none = false
has_basis (some basis) = is_nonempty basis && all_of is_filled basis

-- `_availability_is_coherent`, and the fields.
unfoldable pub valid_entry : HistoricalContextEntry → Bool
valid_entry entry =
    is_filled entry.input_key
    && is_filled_or_none entry.evidence_version_id
    && (if str_eq entry.availability "available"
        then is_some entry.evidence_version_id
        else str_eq entry.availability "unavailable"
          && (not (is_some entry.evidence_version_id) && is_null entry.value))

-- `{entry.input_key: entry ...}.get(key)`: the last entry with the key.
abbrev pub context_entry : List HistoricalContextEntry → String → Option HistoricalContextEntry
context_entry [] key = none
context_entry (entry ∷ entries) key = elim (context_entry entries key) [
  | some later ↦ some later
  | none ↦ if str_eq entry.input_key key then some entry else none
]

-- One round of the loop of `_consumed_inputs_agree_with_context`.
unfoldable pub agrees_with_context : List HistoricalContextEntry → ConsumedInput → Bool
agrees_with_context context used = elim (context_entry context used.input_key) [
  | none ↦ false
  | some entry ↦
      str_eq entry.availability "available"
      && same_scalar used.value entry.value
      && opt_str_eq (some used.evidence_version_id) entry.evidence_version_id
]

abbrev pub valid_used : ConsumedInput → Bool
valid_used used = is_filled used.input_key && is_filled used.evidence_version_id

abbrev pub valid_persona : PersonaSelectedPayload → Bool
valid_persona payload = is_filled payload.persona && is_filled payload.decision_event_id

abbrev pub valid_outcome : OutcomeEvaluatedPayload → Bool
valid_outcome payload = is_filled payload.action_event_id

-- `_period_is_ordered` and `_state_agrees_with_the_as_of_instant`, and the fields.
unfoldable pub valid_outcome_v2 : OutcomeEvaluatedV2Payload → Bool
valid_outcome_v2 payload =
    is_filled_or_none payload.source_action_event_id
    && is_filled_or_none payload.source_decision_event_id
    && is_filled_or_none payload.supersedes_outcome_event_id
    && str_lt payload.window_opened_at payload.window_closes_at
    && not (str_lt payload.observed_at payload.window_opened_at)
    && (if str_eq payload.evaluation_state "closed"
        then not (str_lt payload.observed_at payload.window_closes_at)
        else str_eq payload.evaluation_state "open"
          && str_lt payload.observed_at payload.window_closes_at)

-- `_resolved_references_agree_with_status`
abbrev pub references_agree : String → Bool → Bool → Bool
references_agree status action decision =
    if str_eq status "direct"
    then decision
    else if str_eq status "inferred"
    then action && decision
    else str_eq status "unresolved" && not (action || decision)

unfoldable pub valid_attribution : OutcomeAttributedPayload → Bool
valid_attribution payload =
    is_filled payload.outcome_event_id
    && is_filled payload.policy_version
    && is_filled payload.method
    && is_filled payload.reason
    && is_filled_or_none payload.resolved_action_event_id
    && is_filled_or_none payload.resolved_decision_event_id
    && is_filled_or_none payload.supersedes_attribution_event_id
    && references_agree payload.status (is_some payload.resolved_action_event_id)
        (is_some payload.resolved_decision_event_id)

abbrev pub valid_factor : Factor → Bool
valid_factor factor = is_filled factor.key && is_filled factor.rule

-- `LogicArtifact`, with `_factor_keys_are_unique`.
unfoldable pub valid_artifact : LogicArtifact → Bool
valid_artifact artifact =
    str_eq artifact.artifact_schema_version "1"
    && is_filled artifact.artifact_id
    && is_filled artifact.logic_version
    && str_eq artifact.decision_class "account_prioritization"
    && is_filled artifact.evaluator_version
    && is_nonempty artifact.factors
    && all_of valid_factor artifact.factors
    && is_filled artifact.missing_value_behavior
    && is_filled artifact.output_mapping.at_or_above_threshold
    && is_filled artifact.output_mapping.below_threshold
    && is_filled artifact.activation.status
    && no_duplicates (map (λ (f : Factor). f.key) artifact.factors)

abbrev pub is_registration : Payload → Bool
is_registration (logic_artifact_registered _) = true
is_registration _ = false

-- `_EnvelopeBase`, with `_recorded_not_before_occurred` and `_system_principal_is_reserved`.
unfoldable pub valid_base : Envelope → Bool
valid_base e =
    is_filled e.event_id
    && is_filled e.source
    && is_filled e.account_ref
    && not (str_lt e.recorded_at e.occurred_at)
    && (if is_registration e.payload
        then str_eq e.account_ref system_account_ref
        else not (str_eq e.account_ref system_account_ref))
