-- ===== src/Collector/References.antt =====
-- The cross-event checks of collector/projections.py. Each reads the ledger and raises, or returns.
use flight_recorder.Base.{
  ◌≡◌, Bool, true, false, ◌&&◌, not, Option, none, some, List, [], ◌∷◌, ◌++◌, map, String, str_eq,
  if◌then◌else◌, Result, ok, err, ◌>>=◌, ◌>>◌, raise_if, map_err, first, select,
}
use flight_recorder.Base.Text.{str_lt}
use flight_recorder.Rules.{ScalarValue}
use flight_recorder.Evaluator.{LogicArtifact}
use flight_recorder.Ledger.{
  Ledger, EvidenceRow, LogicArtifactRow, DecisionRow, ActionRow, OutcomeRow,
}
use flight_recorder.Attribution.Snapshot.{ledger_maximum}
use flight_recorder.Attribution.Selection.{effective_outcome_version}
use flight_recorder.Attribution.Records.{outcome_not_found}
use flight_recorder.Collector.Envelope.{
  IngestError, rejected, conflict, policy_failure, unreadable_value, Codec, EvidenceItem,
  HistoricalContextEntry, ConsumedInput, DecisionRecordedPayload, Envelope, same_scalar,
}

-- The first row of a query, or this refusal.
abbrev pub or_rejected : {A : Type 0} → Option A → String → Result IngestError A
or_rejected none reason = err (rejected reason)
or_rejected (some row) reason = ok row

pub or_rejected-found :
    {A : Type 0} (o : Option A) (reason : String) {a : A} → or_rejected o reason ≡ ok a → o ≡ some a
or_rejected-found none reason h = cc
or_rejected-found (some x) reason h = cc

-- A refusal with this reason, if the test holds.
abbrev pub reject_if : Bool → String → Result IngestError (Unit {0})
reject_if b reason = raise_if b (rejected reason)

abbrev pub evidence_with : Ledger → Option String → Option EvidenceRow
evidence_with conn none = none
evidence_with conn (some id) =
    first (select (λ (e : EvidenceRow). str_eq e.evidence_version_id id) conn.evidence_versions)

abbrev pub artifact_with : Ledger → String → Option LogicArtifactRow
artifact_with conn hash =
    first (select (λ (a : LogicArtifactRow). str_eq a.artifact_hash hash) conn.logic_artifacts)

abbrev pub decision_with : Ledger → String → Option DecisionRow
decision_with conn id =
    first (select (λ (d : DecisionRow). str_eq d.decision_event_id id) conn.decisions)

abbrev pub action_with : Ledger → String → Option ActionRow
action_with conn id = first (select (λ (a : ActionRow). str_eq a.action_event_id id) conn.actions)

abbrev pub outcome_with : Ledger → String → Option OutcomeRow
outcome_with conn id =
    first (select (λ (o : OutcomeRow). str_eq o.outcome_event_id id) conn.outcomes)

abbrev pub opt_str_eq : Option String → Option String → Bool
opt_str_eq none none = true
opt_str_eq (some s) (some t) = str_eq s t
opt_str_eq _ _ = false

-- `_validate_decision_reference`, of a persona selection or an action.
unfoldable pub validate_decision_reference :
    Ledger → Envelope → String → Result IngestError (Unit {0})
validate_decision_reference conn e decision_event_id = do
  row ← or_rejected (decision_with conn decision_event_id) "unknown_decision_event_id"
  reject_if (not (str_eq row.account_ref e.account_ref)) "decision_belongs_to_another_account"
  reject_if (str_lt e.occurred_at row.decision_boundary) "decision_is_later_than_the_event"

-- `_validate_action_reference`
unfoldable pub validate_action_reference :
    Ledger → Envelope → String → Result IngestError (Unit {0})
validate_action_reference conn e action_event_id = do
  row ← or_rejected (action_with conn action_event_id) "unknown_action_event_id"
  reject_if (not (str_eq row.account_ref e.account_ref)) "action_belongs_to_another_account"
  reject_if (not (str_lt row.occurred_at e.occurred_at)) "action_is_not_before_the_outcome"

-- `policy.effective_outcome_version` at the ledger's maximum, with the exceptions of the policy as
-- they are. On an empty log the outcome has no event: the policy does not find it.
unfoldable pub effective_now : Ledger → String → Result IngestError String
effective_now conn outcome_event_id = elim (ledger_maximum conn) [
  | none ↦ err (policy_failure (outcome_not_found outcome_event_id))
  | some maximum ↦ map_err policy_failure (effective_outcome_version conn outcome_event_id maximum)
]

-- `_validate_outcome_supersession` on a link that is present.
unfoldable pub validate_superseded_outcome :
    Ledger → Envelope → String → Result IngestError (Unit {0})
validate_superseded_outcome conn e superseded = do
  target ← or_rejected (outcome_with conn superseded) "unknown_superseded_outcome"
  reject_if (not (str_eq target.account_ref e.account_ref))
      "superseded_outcome_belongs_to_another_account"
  effective ← effective_now conn superseded
  reject_if (not (str_eq effective superseded)) "superseded_outcome_is_not_effective"

unfoldable pub validate_outcome_supersession :
    Ledger → Envelope → Option String → Result IngestError (Unit {0})
validate_outcome_supersession conn e none = ok tt
validate_outcome_supersession conn e (some superseded) =
    validate_superseded_outcome conn e superseded

-- `_decision_references`, without the names of the sections.
abbrev pub context_references :
    List HistoricalContextEntry → List (String × Option String × ScalarValue)
context_references entries =
    map (λ (h : HistoricalContextEntry). (h.input_key, h.evidence_version_id, h.value))
      (select (λ (h : HistoricalContextEntry). str_eq h.availability "available") entries)

abbrev pub decision_references :
    DecisionRecordedPayload → List (String × Option String × ScalarValue)
decision_references payload =
    context_references payload.historical_context
    ++ map (λ (c : ConsumedInput). (c.input_key, some c.evidence_version_id, c.value))
        payload.consumed_inputs

module _ (codec : Codec) where
  -- `_validate_artifact_identity`
  unfoldable pub validate_artifact_identity : Ledger → LogicArtifact → Result IngestError (Unit {0})
  validate_artifact_identity conn artifact =
      elim (artifact_with conn (codec.artifact_hash artifact)) [
        | some already ↦ ok tt
        | none ↦
            elim (first (
              select
                (λ (a : LogicArtifactRow).
                  str_eq a.artifact_id artifact.artifact_id
                  && str_eq a.logic_version artifact.logic_version)
                conn.logic_artifacts)) [
                  | none ↦ ok tt
                  | some clash ↦
                      err (conflict "logic_artifact_identity_reused_with_different_content")
                ]
      ]

  -- `evidence_value_json`
  abbrev pub evidence_value_json : EvidenceItem → String
  evidence_value_json item = codec.fields_text item.value item.observed_at item.basis

  -- The comparison of an evidence version with the stored one of its id.
  abbrev pub same_version : Envelope → EvidenceItem → EvidenceRow → Bool
  same_version e item row =
      str_eq e.account_ref row.account_ref
      && str_eq item.evidence_type row.evidence_type
      && str_eq (evidence_value_json item) row.value_json
      && str_eq e.source row.source
      && opt_str_eq item.observed_at row.observed_at
      && str_eq e.recorded_at row.available_at
      && opt_str_eq item.supersedes_evidence_version_id row.supersedes_evidence_version_id

  -- The checks of a supersession link, in a round of the loop of `_validate_evidence`.
  unfoldable pub validate_superseded_evidence :
      Ledger → Envelope → EvidenceItem → String → Result IngestError (Unit {0})
  validate_superseded_evidence conn e item superseded = do
    target ←
        or_rejected (evidence_with conn (some superseded)) "unknown_superseded_evidence_version"
    reject_if (not (str_eq target.account_ref e.account_ref))
        "superseded_evidence_belongs_to_another_account"
    reject_if (not (str_eq target.evidence_type item.evidence_type))
        "superseded_evidence_has_a_different_type"
    reject_if (str_lt e.recorded_at target.available_at) "superseded_evidence_is_later"

  -- One round of the loop.
  unfoldable pub validate_item : Ledger → Envelope → EvidenceItem → Result IngestError (Unit {0})
  validate_item conn e item = elim (evidence_with conn (some item.evidence_version_id)) [
    | some row ↦
        if same_version e item row
        then err (rejected "evidence_version_already_minted")
        else err (conflict "evidence_version_id_reused_with_different_content")
    | none ↦ elim item.supersedes_evidence_version_id [
      | none ↦ ok tt
      | some superseded ↦ validate_superseded_evidence conn e item superseded
    ]
  ]

  -- `_validate_evidence`
  unfoldable pub validate_evidence :
      Ledger → Envelope → List EvidenceItem → Result IngestError (Unit {0})
  validate_evidence conn e [] = ok tt
  validate_evidence conn e (item ∷ items) = do
    validate_item conn e item
    validate_evidence conn e items

  -- One round of the loop of `_validate_decision` over the references.
  unfoldable pub validate_reference :
      Ledger
      → Envelope
      → String
      → String × Option String × ScalarValue
      → Result IngestError (Unit {0})
  validate_reference conn e boundary (input_key, version_id, value) = do
    row ← or_rejected (evidence_with conn version_id) "unknown_evidence_version"
    reject_if (not (str_eq row.account_ref e.account_ref))
        "evidence_version_belongs_to_another_account"
    reject_if (str_lt boundary row.available_at) "evidence_version_available_after_the_boundary"
    reject_if (not (str_eq row.evidence_type input_key)) "evidence_type_does_not_match_input_key"
    stored ← elim (codec.loads_value row.value_json) [
      | none ↦ err (unreadable_value row.value_json)
      | some stored ↦ ok stored
    ]
    reject_if (not (same_scalar value stored)) "preserved_value_does_not_match_the_evidence_version"

  unfoldable pub validate_references_of :
      Ledger
      → Envelope
      → String
      → List (String × Option String × ScalarValue)
      → Result IngestError (Unit {0})
  validate_references_of conn e boundary [] = ok tt
  validate_references_of conn e boundary (reference ∷ references) = do
    validate_reference conn e boundary reference
    validate_references_of conn e boundary references

  -- The registered artifact has the identity that the decision claims.
  abbrev pub same_identity : DecisionRecordedPayload → LogicArtifactRow → Bool
  same_identity payload artifact =
      str_eq artifact.artifact_id payload.logic_artifact.artifact_id
      && str_eq artifact.logic_version payload.logic_artifact.logic_version
      && str_eq artifact.evaluator_version payload.logic_artifact.evaluator_version
      && str_eq artifact.decision_class payload.decision_class

  -- `_validate_decision`
  unfoldable pub validate_decision :
      Ledger → Envelope → DecisionRecordedPayload → Result IngestError (Unit {0})
  validate_decision conn e payload = do
    validate_references_of conn e payload.decision_boundary (decision_references payload)
    artifact ←
        or_rejected (artifact_with conn payload.logic_artifact.artifact_hash)
          "unregistered_logic_artifact"
    reject_if (not (same_identity payload artifact)) "logic_artifact_identity_mismatch"
