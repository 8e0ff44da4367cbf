-- ===== src/Collector/Envelope.antt =====
-- The validated envelopes of collector/schema.py, normalized: a timestamp is its text of
-- `format_utc`. The envelopes of later captures (evidence and decisions of the versions 2 and 3, and
-- operations on external systems) are not modelled.
use flight_recorder.Base.{Bool, true, false, Option, List, String, str_eq}
use flight_recorder.Base.Int.{ℤ, eqb_ℤ}
use flight_recorder.Rules.{ScalarValue, int_value, str_value, bool_value, null_value}
use flight_recorder.Evaluator.{LogicArtifact}
use flight_recorder.Attribution.Records.{AttributionError}

-- `EvidenceItem`: the fields of its seven types, of which not every type has the last two.
pub record EvidenceItem : Type 0 where
  pub evidence_version_id : String
  pub supersedes_evidence_version_id : Option String
  pub evidence_type : String
  pub value : ScalarValue
  pub observed_at : Option String
  pub basis : Option (List String)

pub record HistoricalContextEntry : Type 0 where
  pub input_key : String
  pub value : ScalarValue
  pub availability : String
  pub evidence_version_id : Option String

pub record ConsumedInput : Type 0 where
  pub input_key : String
  pub value : ScalarValue
  pub evidence_version_id : String
  pub contribution : ℤ

pub record LogicArtifactRef : Type 0 where
  pub logic_version : String
  pub artifact_id : String
  pub artifact_hash : String
  pub evaluator_version : String

pub record DecisionResult : Type 0 where
  pub score : ℤ
  pub threshold : ℤ
  pub output : String

pub record DecisionRecordedPayload : Type 0 where
  pub decision_class : String
  pub decision_boundary : String
  pub workflow_version : String
  pub historical_context : List HistoricalContextEntry
  pub consumed_inputs : List ConsumedInput
  pub logic_artifact : LogicArtifactRef
  pub result : DecisionResult
  pub explanation : Option String

pub record PersonaSelectedPayload : Type 0 where
  pub persona : String
  pub decision_event_id : String
  pub explanation : Option String

pub record ActionRecordedPayload : Type 0 where
  pub action_type : String
  pub play_id : ℤ
  pub target_persona : String
  pub status : String
  pub cost : String
  pub currency : String
  pub decision_event_id : String

pub record OutcomeEvaluatedPayload : Type 0 where
  pub window_days : ℤ
  pub reply : Bool
  pub meeting : Bool
  pub opportunity : Bool
  pub action_event_id : String

pub record OutcomeEvaluatedV2Payload : Type 0 where
  pub window_opened_at : String
  pub window_closes_at : String
  pub evaluation_state : String
  pub observed_at : String
  pub reply : Option Bool
  pub meeting : Option Bool
  pub opportunity : Option Bool
  pub source_action_event_id : Option String
  pub source_decision_event_id : Option String
  pub supersedes_outcome_event_id : Option String

pub record OutcomeAttributedPayload : Type 0 where
  pub outcome_event_id : String
  pub policy_version : String
  pub method : String
  pub window_days : ℤ
  pub resolved_action_event_id : Option String
  pub resolved_decision_event_id : Option String
  pub status : String
  pub reason : String
  pub attributed_at : String
  pub ingest_cutoff : ℤ
  pub supersedes_attribution_event_id : Option String

pub data Payload : Type 0 where
  logic_artifact_registered : LogicArtifact → Payload
  account_discovered : (name domain : String) → Payload
  evidence_recorded : List EvidenceItem → Payload
  decision_recorded : DecisionRecordedPayload → Payload
  persona_selected : PersonaSelectedPayload → Payload
  action_recorded : ActionRecordedPayload → Payload
  outcome_evaluated : OutcomeEvaluatedPayload → Payload
  outcome_evaluated_v2 : OutcomeEvaluatedV2Payload → Payload
  outcome_attributed : OutcomeAttributedPayload → Payload

pub record Envelope : Type 0 where
  pub event_id : String
  pub source : String
  pub account_ref : String
  pub occurred_at : String
  pub recorded_at : String
  pub payload : Payload

abbrev pub event_type : Payload → String
event_type (logic_artifact_registered _) = "logic_artifact.registered"
event_type (account_discovered _ _) = "account.discovered"
event_type (evidence_recorded _) = "evidence.recorded"
event_type (decision_recorded _) = "decision.recorded"
event_type (persona_selected _) = "persona.selected"
event_type (action_recorded _) = "action.recorded"
event_type (outcome_evaluated _) = "outcome.evaluated"
event_type (outcome_evaluated_v2 _) = "outcome.evaluated"
event_type (outcome_attributed _) = "outcome.attributed"

abbrev pub schema_version : Payload → String
schema_version (outcome_evaluated_v2 _) = "2"
schema_version _ = "1"

abbrev same_bool : Bool → Bool → Bool
same_bool true b = b
same_bool false true = false
same_bool false false = true

-- `same_scalar`: equal, and of one type.
abbrev pub same_scalar : ScalarValue → ScalarValue → Bool
same_scalar (int_value a) (int_value b) = eqb_ℤ a b
same_scalar (str_value s) (str_value t) = str_eq s t
same_scalar (bool_value a) (bool_value b) = same_bool a b
same_scalar null_value null_value = true
same_scalar _ _ = false

-- The refusals of collector/errors.py by their reasons, and the exceptions that go through `ingest`:
-- one of the policy, a stored value that is no JSON, and SQLAlchemy's on a comparison with `None`.
pub data IngestError : Type 0 where
  rejected : String → IngestError
  conflict : String → IngestError
  policy_failure : AttributionError → IngestError
  unreadable_value : String → IngestError
  null_comparison : IngestError

-- `IngestResult`, with the HTTP status that its status has.
pub data IngestResult : Type 0 where
  created : (event_id canonical_hash : String) → IngestResult
  duplicate : (event_id canonical_hash : String) → IngestResult

-- The calls of `json` and `hashlib`: the canonical form of a normalized value as text or as its
-- SHA-256, of collector/canonical.py; `json.loads` of the `value` of a stored evidence item, with
-- `none` for its exception; `datetime.fromisoformat` of Python.
pub record Codec : Type 0 where
  pub envelope_hash : Envelope → String
  pub payload_text : Payload → String
  pub artifact_hash : LogicArtifact → String
  pub artifact_text : LogicArtifact → String
  pub scalar_text : ScalarValue → String
  pub fields_text : ScalarValue → Option String → Option (List String) → String
  pub loads_value : String → Option ScalarValue
  pub operation_digest : String → String → ℤ → String
  pub fromisoformat : String → Option ℤ
