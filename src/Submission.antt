-- ===== src/Submission.antt =====
-- attribution/service.py: the command that computes attributions and submits them to the collector. The
-- transport to the collector may fail; what becomes of each attempt is an argument.
pub mod Once
pub mod Recovered
pub mod Run
pub mod Same
pub mod Listed
pub mod Rounds
pub mod Honest
pub mod Justified
mod Tests
use flight_recorder.Base.{
  ℕ, take, Bool, true, false, ◌&&◌, ◌||◌, not, Option, none, some, List, [], ◌∷◌, ◌++◌, String,
  str_eq, if◌then◌else◌, Result, ok, err, ◌>>=◌,
}
use flight_recorder.Base.Int.{pos, eqb_ℤ}
use flight_recorder.Base.Text.{str_lt}
use flight_recorder.Rules.{int_value}
use flight_recorder.Ledger.{Ledger, EventRow, StoredAttribution}
use flight_recorder.Attribution.Records.{AttributionError, AttributionResult, OutcomeClaims}
use flight_recorder.Attribution.Snapshot.{ledger_maximum, load_outcome}
use flight_recorder.Attribution.Attribute.{attribute}
use flight_recorder.Attribution.Selection.{effective_attribution, effective_outcome_versions}
use flight_recorder.Collector.Envelope.{
  Envelope, Payload, outcome_attributed, IngestError, rejected, conflict, IngestResult, Codec,
}
use flight_recorder.Collector.References.{opt_str_eq}
use flight_recorder.Collector.Attributed.{attribution_event_id, is_some}
use flight_recorder.Collector.Models.{attribution_source}
use flight_recorder.Collector.Service.{ingest, event_with}

-- `SUBMIT_ATTEMPTS`
abbrev pub submit_attempts : ℕ
submit_attempts = 3

-- What becomes of an attempt: an error of the transport or of the server, on a request that the
-- collector did or did not carry out, or an answer.
pub data Fate : Type 0 where
  transport_error : (carried_out : Bool) → Fate
  server_error : (carried_out : Bool) → Fate
  answered : Fate

-- What `submit` raises or returns.
pub data Sent : Type 0 where
  gave_up : Sent
  failed_on_server : Sent
  answer : Result IngestError IngestResult → Sent

-- An exception that is no refusal of the collector's is a server error to the client.
abbrev pub is_uncaught : Result IngestError IngestResult → Bool
is_uncaught (ok result) = false
is_uncaught (err (rejected reason)) = false
is_uncaught (err (conflict reason)) = false
is_uncaught (err _) = true

abbrev pub settled : Result IngestError IngestResult → Sent
settled reply = if is_uncaught reply then failed_on_server else answer reply

-- `same_policy_result` of attribution/policy.py, on a result and a stored row.
abbrev pub same_policy_result : AttributionResult → StoredAttribution → Bool
same_policy_result r a =
    str_eq r.outcome_event_id a.outcome_event_id
    && str_eq r.policy_version a.policy_version
    && str_eq r.method a.method
    && eqb_ℤ r.window_days a.window_days
    && opt_str_eq r.resolved_action_event_id a.resolved_action_event_id
    && opt_str_eq r.resolved_decision_event_id a.resolved_decision_event_id
    && str_eq r.status a.status
    && str_eq r.reason a.reason

-- `max(recorded_at, attributed_at)`
abbrev pub latest_of : String → String → String
latest_of recorded_at attributed_at =
    if str_lt recorded_at attributed_at then attributed_at else recorded_at

module _ (codec : Codec) where
  unfoldable pub build_envelope :
      AttributionResult
      → (account_ref attributed_at recorded_at : String) → Option String
      → Envelope
  build_envelope result account_ref attributed_at recorded_at supersedes = record {
    event_id =
        attribution_event_id codec result.outcome_event_id result.policy_version
          (pos result.cutoff);
    source = attribution_source;
    account_ref = account_ref;
    occurred_at = attributed_at;
    recorded_at = latest_of recorded_at attributed_at;
    payload = outcome_attributed (record {
      outcome_event_id = result.outcome_event_id;
      policy_version = result.policy_version;
      method = result.method;
      window_days = result.window_days;
      resolved_action_event_id = result.resolved_action_event_id;
      resolved_decision_event_id = result.resolved_decision_event_id;
      status = result.status;
      reason = result.reason;
      attributed_at = attributed_at;
      ingest_cutoff = pos result.cutoff;
      supersedes_attribution_event_id = supersedes;
    });
  }

  -- The ledger behind a request, if it was carried out. The envelope is one that the collector's
  -- validation lets through.
  abbrev pub carried : Bool → Ledger → Envelope → Ledger
  carried true conn e = (ingest codec conn e).0
  carried false conn e = conn

  -- The loop of `submit`, on what becomes of each attempt that it makes.
  unfoldable pub attempt : Ledger → Envelope → List Fate → Ledger × Sent
  attempt conn e [] = (conn, gave_up)
  attempt conn e (answered ∷ []) = ((ingest codec conn e).0, settled (ingest codec conn e).1)
  attempt conn e (transport_error b ∷ []) = (carried b conn e, gave_up)
  attempt conn e (server_error b ∷ []) = (carried b conn e, failed_on_server)
  attempt conn e (answered ∷ fate ∷ fates) = elim (is_uncaught (ingest codec conn e).1) [
    | true ↦ attempt (ingest codec conn e).0 e (fate ∷ fates)
    | false ↦ ((ingest codec conn e).0, answer (ingest codec conn e).1)
  ]
  attempt conn e (transport_error b ∷ fate ∷ fates) = attempt (carried b conn e) e (fate ∷ fates)
  attempt conn e (server_error b ∷ fate ∷ fates) = attempt (carried b conn e) e (fate ∷ fates)

  -- `submit`: what becomes of more attempts than it makes is never asked.
  unfoldable pub submit : Ledger → Envelope → List Fate → Ledger × Sent
  submit conn e fates = attempt conn e (take submit_attempts fates)

  -- `recover_envelope`, with `json.loads` of a stored payload.
  module _ (loads_payload : String → Option Payload) where
    abbrev pub stored_envelope : EventRow → Option Envelope
    stored_envelope row = elim (loads_payload row.payload) [
      | none ↦ none
      | some payload ↦ some (record {
        event_id = row.event_id;
        source = row.source;
        account_ref = row.account_ref;
        occurred_at = row.occurred_at;
        recorded_at = row.recorded_at;
        payload = payload;
      })
    ]

    unfoldable pub recover_envelope : Ledger → String → ℕ → String → Option Envelope
    recover_envelope conn outcome_event_id ingest_cutoff version =
        elim (event_with conn
          (attribution_event_id codec outcome_event_id version (pos ingest_cutoff))) [
            | none ↦ none
            | some row ↦ stored_envelope row
          ]

    -- `retry_operation`, with `none` for its `LookupError`.
    unfoldable pub retry_operation :
        Ledger → String → ℕ → String → List Fate → Option (Envelope × Ledger × Sent)
    retry_operation conn outcome_event_id ingest_cutoff version fates =
        elim (recover_envelope conn outcome_event_id ingest_cutoff version) [
          | none ↦ none
          | some e ↦ let (after, sent) = submit conn e fates in some (e, after, sent)
        ]
