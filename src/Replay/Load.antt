-- ===== src/Replay/Load.antt =====
-- The reads of replay/reconstruct.py: the decision, the artifact row, the sealed context `H(d)` and
-- the consumed inputs. A primary key is looked up as the first row with it.
pub mod Sealed
use flight_recorder.Base.{
  Bool, true, false, Option, none, some, List, [], ◌∷◌, map, String, str_eq, if◌then◌else◌, Result,
  ok, err, ◌>>=◌, ◌>>◌, raise_if, first, select, not,
}
use flight_recorder.Base.Text.{codes, text_lt, sort_by}
use flight_recorder.Base.Datetime.{Date}
use flight_recorder.Rules.{ScalarValue, null_value, Observed, on_date}
use flight_recorder.Evaluator.{ContextInput}
use flight_recorder.Replay.Records.{
  decision_view, artifact_view, ReplayError, decision_not_found, integrity_failure,
  unreadable_column, ArtifactRow, DecisionRow, ConsumedInputRow, EvidenceVersionRow, LaterVersions,
}
use flight_recorder.Ledger.{
  ContextRow, ConsumedRow, EvidenceRow, Ledger, DecisionRow as StoredDecision, LogicArtifactRow,
}

-- The view of a row, if there is one.
abbrev pub view : {A B : Type 0} → (A → B) → Option A → Option B
view f none = none
view f (some row) = some (f row)

unfoldable pub load_artifact_row : Ledger → String → Option ArtifactRow
load_artifact_row conn artifact_hash = view artifact_view (
    first (
      select (λ (r : LogicArtifactRow). str_eq r.artifact_hash artifact_hash) conn.logic_artifacts))

-- The decision's own row, of the first version of the schema.
abbrev pub legacy_decision : Ledger → String → Option DecisionRow
legacy_decision conn decision_event_id = view decision_view (
    first (
      select (λ (d : StoredDecision). str_eq d.decision_event_id decision_event_id) conn.decisions))

abbrev pub evidence_row : Ledger → String → Option EvidenceRow
evidence_row conn id =
    first (select (λ (e : EvidenceRow). str_eq e.evidence_version_id id) conn.evidence_versions)

abbrev pub is_present : {A : Type 0} → Option A → Bool
is_present none = false
is_present (some _) = true

-- `evidence.available_at > decision_boundary`, between stored texts.
abbrev pub is_after : String → String → Bool
is_after available_at boundary = text_lt (codes boundary) (codes available_at)

-- The observation of the evidence behind an entry.
abbrev pub observation : Option EvidenceVersionRow → Option Observed
observation none = none
observation (some e) = elim e.observed_at [ none ↦ none | some d ↦ some (on_date d) ]

-- The refusal of evidence that became available after the boundary.
unfoldable pub check_available : Option EvidenceVersionRow → String → Result ReplayError (Unit {0})
check_available none boundary = ok tt
check_available (some e) boundary =
    raise_if (is_after e.available_at boundary)
      (integrity_failure "available_at" (some e.available_at) (some boundary))

-- `date.fromisoformat` and `json.loads` on a stored scalar, with `none` for their exceptions, and the
-- readers of later provenance versions.
module _ (date_fromisoformat : String → Option Date) (loads_scalar : String → Option ScalarValue)
    (later : LaterVersions) where
  unfoldable pub load_decision_row : Ledger → String → Result ReplayError DecisionRow
  load_decision_row conn decision_event_id = do
    crm ← later.crm_decision decision_event_id
    elim crm [
      | some row ↦ ok row
      | none ↦ elim (legacy_decision conn decision_event_id) [
        | some row ↦ ok row
        | none ↦ do
          v2 ← later.v2_decision decision_event_id
          elim v2 [ none ↦ err (decision_not_found decision_event_id) | some row ↦ ok row ]
      ]
    ]

  -- The date column of an evidence version.
  unfoldable pub read_date : Option String → Result ReplayError (Option Date)
  read_date none = ok none
  read_date (some text) = elim (date_fromisoformat text) [
    | none ↦ err (unreadable_column text)
    | some d ↦ ok (some d)
  ]

  unfoldable pub load_evidence_version : Ledger → String → Result ReplayError EvidenceVersionRow
  load_evidence_version conn id = elim (evidence_row conn id) [
    | none ↦ err (integrity_failure "evidence_version_id" (some id) none)
    | some row ↦ do
      observed ← read_date row.observed_at
      ok (record {
        evidence_version_id = id;
        observed_at = observed;
        available_at = row.available_at;
      })
  ]

  -- The evidence behind a row of the context, if it names one.
  unfoldable pub load_evidence :
      Ledger → Option String → Result ReplayError (Option EvidenceVersionRow)
  load_evidence conn none = ok none
  load_evidence conn (some id) = do evidence ← load_evidence_version conn id; ok (some evidence)

  unfoldable pub read_value : Option String → Result ReplayError ScalarValue
  read_value none = ok null_value
  read_value (some text) = elim (loads_scalar text) [
    | none ↦ err (unreadable_column text)
    | some value ↦ ok value
  ]

  -- One round of the loop of `load_context`.
  unfoldable pub load_entry : Ledger → String → ContextRow → Result ReplayError ContextInput
  load_entry conn boundary row = do
    evidence ← load_evidence conn row.evidence_version_id
    check_available evidence boundary
    value ← read_value row.value_text
    ok (record {
      key = row.input_key;
      availability = row.availability;
      value = value;
      evidence_version_id = row.evidence_version_id;
      observed_at = observation evidence;
    })

  unfoldable pub load_entries :
      Ledger → String → List ContextRow → Result ReplayError (List ContextInput)
  load_entries conn boundary [] = ok []
  load_entries conn boundary (row ∷ rows) = do
    entry ← load_entry conn boundary row
    entries ← load_entries conn boundary rows
    ok (entry ∷ entries)

  -- The preserved rows of a decision, by key.
  unfoldable pub context_rows : Ledger → String → List ContextRow
  context_rows conn decision_event_id =
      sort_by (λ (r : ContextRow). r.input_key)
        (select (λ (r : ContextRow). str_eq r.decision_event_id decision_event_id)
          conn.decision_context)

  -- `load_context` on a decision that is none of a CRM.
  unfoldable pub load_preserved : Ledger → String → String → Result ReplayError (List ContextInput)
  load_preserved conn decision_event_id boundary = do
    v2 ←
        if is_present (legacy_decision conn decision_event_id)
        then ok none
        else later.v2_decision decision_event_id
    elim v2 [
      | none ↦ load_entries conn boundary (context_rows conn decision_event_id)
      | some row ↦ do
        raise_if (not (str_eq row.decision_boundary boundary))
            (integrity_failure "decision_boundary" none none)
        later.load_v2_context row
    ]

  unfoldable pub load_context : Ledger → String → String → Result ReplayError (List ContextInput)
  load_context conn decision_event_id boundary = do
    crm ← later.crm_decision decision_event_id
    elim crm [
      | none ↦ load_preserved conn decision_event_id boundary
      | some row ↦ do
        raise_if (not (str_eq row.decision_boundary boundary))
            (integrity_failure "decision_boundary" none none)
        later.load_crm_context decision_event_id
    ]

  -- The rows of a table of consumed inputs, by key.
  unfoldable pub consumed_of : List ConsumedRow → String → List ConsumedInputRow
  consumed_of table decision_event_id =
      map
        (λ (r : ConsumedRow). record {
          input_key = r.input_key;
          evidence_version_id = r.evidence_version_id;
          contribution = r.contribution;
        })
        (sort_by (λ (r : ConsumedRow). r.input_key)
          (select (λ (r : ConsumedRow). str_eq r.decision_event_id decision_event_id) table))

  unfoldable pub load_consumed_inputs : Ledger → String → Result ReplayError (List ConsumedInputRow)
  load_consumed_inputs conn decision_event_id = do
    crm ← later.crm_decision decision_event_id
    if is_present crm then later.crm_used decision_event_id else do
      v2 ←
          if is_present (legacy_decision conn decision_event_id)
          then ok none
          else later.v2_decision decision_event_id
      ok (
          consumed_of
            (if is_present v2
              then later.v2_consumed decision_event_id
              else conn.decision_consumed_inputs)
            decision_event_id)
