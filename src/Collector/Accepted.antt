-- ===== src/Collector/Accepted.antt =====
-- What it takes for `Collector.ingest` of collector/service.py to write.
use flight_recorder.Base.{
  ◌≡◌, ◌≢◌, str_eq_iff, Result-cases, inl, inr, none, some, Bool-cases, Option-cases, Result, ok,
  err, ok_inversion, str_eq,
}
use flight_recorder.Ledger.{Ledger, EventRow}
use flight_recorder.Collector.Envelope.{
  Envelope, Codec, IngestError, IngestResult, created, duplicate, conflict,
}
use flight_recorder.Collector.Service.{
  check_account_rules, validate_references, materialize_account, next_sequence, event_with,
  insert_event, admit, replayed, ingest,
}
use flight_recorder.Collector.Project.{project}

-- The event id is new, every check passes, and the projection gives the new ledger.
pub record Accepted (codec : Codec) (conn : Ledger) (e : Envelope) (conn' : Ledger) : Type 0 where
  pub is_new : event_with conn e.event_id ≡ none
  pub account_rules : check_account_rules conn e ≡ ok tt
  pub references : validate_references codec conn e e.payload ≡ ok tt
  pub projected :
      project codec
        (insert_event codec (materialize_account conn e e.payload) e)
        e
        e.payload
        (next_sequence (materialize_account conn e e.payload))
      ≡ ok conn'

module _ (codec : Codec) (conn : Ledger) (e : Envelope) where
  admit-Accepted :
      {conn' : Ledger}
      → event_with conn e.event_id ≡ none
      → admit codec conn e ≡ ok conn'
      → Accepted codec conn e conn'
  unfolding admit
  admit-Accepted new h = ok_inversion (check_account_rules conn e) h λ _ e₀ h₀.
      ok_inversion (validate_references codec conn e e.payload) h₀
        λ _ e₁ h₁. record { is_new = new; account_rules = e₀; references = e₁; projected = h₁ }

  -- The four ways that a delivery ends, with the ledger behind it and the answer: it is written, it is
  -- a duplicate, its event id is stored with other content, or the transaction refuses it.
  pub data Ingested : Ledger → Result IngestError IngestResult → Type 0 where
    written :
        {conn' : Ledger}
        → Accepted codec conn e conn'
        → Ingested conn' (ok (created e.event_id (codec.envelope_hash e)))
    retried :
        (row : EventRow)
        → event_with conn e.event_id ≡ some row
        → row.canonical_hash ≡ codec.envelope_hash e
        → Ingested conn (ok (duplicate e.event_id (codec.envelope_hash e)))
    reused :
        (row : EventRow)
        → event_with conn e.event_id ≡ some row
        → row.canonical_hash ≢ codec.envelope_hash e
        → Ingested conn (err (conflict "event_id_reused_with_different_content"))
    refused :
        (failure : IngestError)
        → event_with conn e.event_id ≡ none
        → admit codec conn e ≡ err failure
        → Ingested conn (err failure)

  replayed-Ingested :
      (row : EventRow)
      → event_with conn e.event_id ≡ some row
      → Ingested conn (replayed codec e row)
  replayed-Ingested row stored =
      elim (Bool-cases (str_eq row.canonical_hash (codec.envelope_hash e))) [
        | inl same ↦
            rw same
              (retried row stored ((str_eq_iff row.canonical_hash (codec.envelope_hash e)).0 same))
        | inr differs ↦ rw differs (
            reused row stored (λ same.
              cc ((str_eq_iff row.canonical_hash (codec.envelope_hash e)).1 same, differs)))
      ]

  -- A delivery ends in one of the four ways that `Ingested` lists, with the ledger and the answer of
  -- that way: only an accepted event changes the ledger.
  pub ingest-Ingested : Ingested (ingest codec conn e).0 (ingest codec conn e).1
  unfolding ingest
  ingest-Ingested = elim (Option-cases (event_with conn e.event_id)) [
    | inl new ↦ elim (Result-cases (admit codec conn e)) [
      | inl (conn', accepted) ↦ rw (new, accepted, ingest) (written (admit-Accepted new accepted))
      | inr (failure, is_refused) ↦ rw (new, is_refused, ingest) (refused failure new is_refused)
    ]
    | inr (row, stored) ↦ rw (stored, ingest) (replayed-Ingested row stored)
  ]
