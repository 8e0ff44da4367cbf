-- ===== src/Collector/JsonTests.antt =====
-- The theorems on `ingest_json` of collector/service.py at a small trace, in which a body is the id of
-- its event.
use flight_recorder.Base.{
  ◌≡◌, ◌≢◌, ◌↔◌, refl, true, Option, some, none, List, [], ◌∷◌, String, str_eq, ok, inl,
  if◌then◌else◌, Pairwise, Member,
}
use flight_recorder.Base.Datetime.{Date}
use flight_recorder.Base.Int.{pos}
use flight_recorder.Rules.{ScalarValue, str_value}
use flight_recorder.Ledger.{Ledger, empty_ledger, ContextRow, DecisionRow}
use flight_recorder.Replay.Records.{EvidenceVersionRow, LaterVersions}
use flight_recorder.Replay.Load.{load_evidence, check_available, load_evidence_version, read_date}
use flight_recorder.Collector.Envelope.{Envelope}
use flight_recorder.Collector.Service.{
  ingest, account_rules, add_account, admit, check_account_rules, materialize_account,
  next_sequence, validate_references,
}
use flight_recorder.Attribution.Snapshot.{ledger_maximum}
use flight_recorder.Collector.Project.{
  project, project_artifact, project_decision, project_evidence,
}
use flight_recorder.Collector.References.{
  decision_with, validate_artifact_identity, validate_decision, validate_evidence, validate_item,
  validate_reference, validate_references_of,
}
use flight_recorder.Collector.Contract.{
  Reader, valid_decision as valid_decided, ingest_json, validate_envelope_json, valid_envelope,
  valid_payload, valid_items, valid_fields,
}
use flight_recorder.Collector.Models.{
  no_duplicates, duplicates, count, first_seen, valid_base, valid_artifact, valid_entry,
  agrees_with_context,
}
use flight_recorder.Collector.Models.Duplicates.{no_duplicates-iff_Pairwise}
use flight_recorder.Collector.Submitted.{Submitted, none_submitted, submitted}
use flight_recorder.Collector.Keys.{HasKeys, tables-HasKeys}
use flight_recorder.Collector.Replayed.{check_available-passes}
use flight_recorder.Collector.Tests.{codec, registered, discovered, observed, decided, first_day}

abbrev read : String → Option Envelope
read body =
    if str_eq body "evt-artifact"
    then some registered
    else if str_eq body "evt-account"
    then some discovered
    else if str_eq body "evt-evidence"
    then some observed
    else if str_eq body "evt-decision"
    then some decided
    else none

abbrev reader : Reader
reader = record {
  read_envelope = read;
  is_decimal = λ _. true;
  is_sha256 = λ _. true;
  is_date = λ _. true;
}

abbrev later : LaterVersions
later = record {
  crm_decision = λ _. ok none;
  load_crm_context = λ _. ok [];
  crm_used = λ _. ok [];
  v2_decision = λ _. ok none;
  load_v2_context = λ _. ok [];
  v2_consumed = λ _. [];
}

-- The ledger behind the bodies of the trace, and one that is no envelope.
abbrev after : Ledger → String → Ledger
after conn body = (ingest_json reader codec conn body).0

abbrev conn : Ledger
conn =
    after
      (after (after (after (after empty_ledger "evt-artifact") "evt-account") "{}") "evt-evidence")
      "evt-decision"

conn-Submitted : Submitted reader codec conn
conn-Submitted =
    submitted
      (submitted
        (submitted (submitted (submitted none_submitted "evt-artifact") "evt-account") "{}")
        "evt-evidence")
      "evt-decision"

abbrev three_keys : List String
three_keys = "a" ∷ "b" ∷ "a" ∷ []

no_duplicates-iff_Pairwise_example :
    (no_duplicates three_keys ≡ true) ↔ Pairwise (λ j k. j ≢ k) three_keys
no_duplicates-iff_Pairwise_example = no_duplicates-iff_Pairwise three_keys

tables-HasKeys_example : HasKeys conn
tables-HasKeys_example = tables-HasKeys reader codec conn-Submitted

abbrev row : ContextRow
row = record {
  decision_event_id = "evt-decision";
  input_key = "industry";
  availability = "available";
  value_text = some "retail";
  evidence_version_id = some "ev-1";
}

abbrev decision : DecisionRow
decision = record {
  decision_event_id = "evt-decision";
  account_ref = "acct-1";
  decision_class = "account_prioritization";
  decision_boundary = first_day;
  workflow_version = "w1";
  artifact_hash = "artifact-1";
  evaluator_version = "evaluator-v1";
  logic_version = "v1";
  score = pos 3;
  threshold = pos 0;
  output = "PRIORITIZE";
  explanation = none;
  ingest_sequence = 4;
}

abbrev version : EvidenceVersionRow
version = record { evidence_version_id = "ev-1"; observed_at = none; available_at = first_day }

abbrev no_date : String → Option Date
no_date text = none

abbrev loads : String → Option ScalarValue
loads text = some (str_value text)

row_stored : Member row conn.decision_context
unfolding ingest_json no_duplicates duplicates count first_seen valid_decided validate_envelope_json
    valid_envelope valid_payload valid_base valid_artifact valid_items valid_fields valid_entry
    agrees_with_context ingest ledger_maximum project project_artifact project_decision
    project_evidence validate_artifact_identity validate_decision validate_evidence validate_item
    validate_reference validate_references_of account_rules add_account admit check_account_rules
    materialize_account next_sequence validate_references
row_stored = inl refl

decision_stored : decision_with conn "evt-decision" ≡ some decision
unfolding ingest_json no_duplicates duplicates count first_seen valid_decided validate_envelope_json
    valid_envelope valid_payload valid_base valid_artifact valid_items valid_fields valid_entry
    agrees_with_context ingest ledger_maximum project project_artifact project_decision
    project_evidence validate_artifact_identity validate_decision validate_evidence validate_item
    validate_reference validate_references_of account_rules add_account admit check_account_rules
    materialize_account next_sequence validate_references
decision_stored = refl

version_loaded : load_evidence no_date loads later conn (some "ev-1") ≡ ok (some version)
unfolding ingest_json no_duplicates duplicates count first_seen valid_decided validate_envelope_json
    valid_envelope valid_payload valid_base valid_artifact valid_items valid_fields valid_entry
    agrees_with_context ingest ledger_maximum project project_artifact project_decision
    project_evidence validate_artifact_identity validate_decision validate_evidence validate_item
    validate_reference validate_references_of account_rules add_account admit check_account_rules
    materialize_account next_sequence validate_references load_evidence load_evidence_version
    read_date
version_loaded = refl

check_available-passes_example : check_available (some version) first_day ≡ ok tt
check_available-passes_example =
    check_available-passes reader codec no_date loads later conn-Submitted row decision
      (some version) row_stored decision_stored version_loaded
