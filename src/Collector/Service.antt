-- ===== src/Collector/Service.antt =====
-- `Collector.ingest` of collector/service.py: idempotent by the hash, every check before the first
-- write, all writes in one transaction. What the storage itself raises is not modelled, nor the test
-- seam `before_commit`.
use flight_recorder.Base.{
  ℕ, suc, ◌&&◌, not, Option, none, some, String, str_eq, if◌then◌else◌, Result, ok, err, ◌>>◌,
  raise_if, first, select,
}
use flight_recorder.Ledger.{
  Ledger, AccountRow, EventRow, system_account_ref, system_account_name, system_account_domain,
}
use flight_recorder.Attribution.Snapshot.{ledger_maximum}
use flight_recorder.Collector.Envelope.{
  Payload, logic_artifact_registered, account_discovered, evidence_recorded, decision_recorded,
  persona_selected, action_recorded, outcome_evaluated, outcome_evaluated_v2, outcome_attributed,
  Envelope, event_type, schema_version, IngestError, rejected, conflict, IngestResult, created,
  duplicate, Codec,
}
use flight_recorder.Collector.References.{
  validate_decision_reference, validate_action_reference, validate_outcome_supersession,
  validate_artifact_identity, validate_evidence, validate_decision,
}
use flight_recorder.Collector.Attributed.{validate_attribution}
use flight_recorder.Collector.Project.{append, project}

abbrev pub event_with : Ledger → String → Option EventRow
event_with conn id = first (select (λ (e : EventRow). str_eq e.event_id id) conn.events)

-- `_account_row`
abbrev pub account_row : Ledger → String → Option AccountRow
account_row conn account_ref =
    first (select (λ (a : AccountRow). str_eq a.account_ref account_ref) conn.accounts)

-- `_check_account_rules`, behind its read of the row.
unfoldable pub account_rules : Payload → Option AccountRow → Result IngestError (Unit {0})
account_rules (logic_artifact_registered _) row = ok tt
account_rules (account_discovered name domain) none = ok tt
account_rules (account_discovered name domain) (some row) =
    raise_if (not (str_eq row.name name && str_eq row.domain domain))
      (conflict "account_identity_mismatch")
account_rules _ (some row) = ok tt
account_rules _ none = err (rejected "unknown_account_ref")

unfoldable pub check_account_rules : Ledger → Envelope → Result IngestError (Unit {0})
unfolding account_rules
check_account_rules conn e = account_rules e.payload (account_row conn e.account_ref)

-- The row of an account, unless it is there.
unfoldable pub add_account : Ledger → AccountRow → Ledger
add_account conn row = elim (account_row conn row.account_ref) [
  | some already ↦ conn
  | none ↦ record conn { accounts = append conn.accounts row }
]

-- `_materialize_account`
unfoldable pub materialize_account : Ledger → Envelope → Payload → Ledger
unfolding add_account
materialize_account conn e (logic_artifact_registered _) = add_account conn (record {
  account_ref = system_account_ref;
  name = system_account_name;
  domain = system_account_domain;
  first_seen_event_id = e.event_id;
})
materialize_account conn e (account_discovered name domain) = add_account conn (record {
  account_ref = e.account_ref;
  name = name;
  domain = domain;
  first_seen_event_id = e.event_id;
})
materialize_account conn e _ = conn

-- The key that SQLite gives to a new event: one above the largest.
unfoldable pub next_sequence : Ledger → ℕ
next_sequence conn = elim (ledger_maximum conn) [ none ↦ 1 | some maximum ↦ suc maximum ]

module _ (codec : Codec) where
  -- `validate_references`
  unfoldable pub validate_references : Ledger → Envelope → Payload → Result IngestError (Unit {0})
  validate_references conn e (logic_artifact_registered artifact) =
      validate_artifact_identity codec conn artifact
  validate_references conn e (account_discovered name domain) = ok tt
  validate_references conn e (evidence_recorded items) = validate_evidence codec conn e items
  validate_references conn e (decision_recorded payload) = validate_decision codec conn e payload
  validate_references conn e (persona_selected payload) =
      validate_decision_reference conn e payload.decision_event_id
  validate_references conn e (action_recorded payload) =
      validate_decision_reference conn e payload.decision_event_id
  validate_references conn e (outcome_evaluated payload) =
      validate_action_reference conn e payload.action_event_id
  validate_references conn e (outcome_evaluated_v2 payload) =
      validate_outcome_supersession conn e payload.supersedes_outcome_event_id
  validate_references conn e (outcome_attributed payload) =
      validate_attribution codec conn e payload

  -- The row of an accepted event.
  abbrev pub event_row : Envelope → ℕ → EventRow
  event_row e ingest_sequence = record {
    ingest_sequence = ingest_sequence;
    event_id = e.event_id;
    schema_version = schema_version e.payload;
    event_type = event_type e.payload;
    source = e.source;
    account_ref = e.account_ref;
    occurred_at = e.occurred_at;
    recorded_at = e.recorded_at;
    canonical_hash = codec.envelope_hash e;
    payload = codec.payload_text e.payload;
  }

  -- `events.insert()`
  abbrev pub insert_event : Ledger → Envelope → Ledger
  insert_event conn e = record conn {
    events = append conn.events (event_row e (next_sequence conn));
  }

  -- The transaction on an event id that is new: its checks, then its writes.
  unfoldable pub admit : Ledger → Envelope → Result IngestError Ledger
  admit conn e = do
    check_account_rules conn e
    validate_references conn e e.payload
    let materialized = materialize_account conn e e.payload
    project codec (insert_event materialized e) e e.payload (next_sequence materialized)

  -- The commit, or the rollback of an exception.
  abbrev pub commit :
      Ledger → Envelope → Result IngestError Ledger → Ledger × Result IngestError IngestResult
  commit conn e (ok written) = (written, ok (created e.event_id (codec.envelope_hash e)))
  commit conn e (err failure) = (conn, err failure)

  -- What `ingest` does with an event id that is stored.
  abbrev pub replayed : Envelope → EventRow → Result IngestError IngestResult
  replayed e existing =
      if str_eq existing.canonical_hash (codec.envelope_hash e)
      then ok (duplicate e.event_id (codec.envelope_hash e))
      else err (conflict "event_id_reused_with_different_content")

  unfoldable pub ingest : Ledger → Envelope → Ledger × Result IngestError IngestResult
  ingest conn e = elim (event_with conn e.event_id) [
    | some existing ↦ (conn, replayed e existing)
    | none ↦ commit conn e (admit conn e)
  ]
