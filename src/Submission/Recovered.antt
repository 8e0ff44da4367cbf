-- ===== src/Submission/Recovered.antt =====
-- `recover_envelope` and `retry_operation` of attribution/service.py behind an accepted submission.
use flight_recorder.Base.{ℕ, ◌≡◌, refl, ap, Option, some, List, [], ◌∷◌, String, ok}
use flight_recorder.Ledger.{Ledger}
use flight_recorder.Attribution.Records.{AttributionResult}
use flight_recorder.Collector.Envelope.{Codec, Envelope, Payload, created, duplicate}
use flight_recorder.Collector.Service.{ingest, event_row, next_sequence}
use flight_recorder.Collector.Settled.{deliver_all, ingest-redelivered}
use flight_recorder.Submission.{
  answered, answer, settled, build_envelope, attempt, submit, stored_envelope, recover_envelope,
  retry_operation,
}

module _ (codec : Codec) (loads_payload : String → Option Payload) where
  stored_envelope-event_row :
      (e : Envelope) (n : ℕ)
      → loads_payload (codec.payload_text e.payload) ≡ some e.payload
      → stored_envelope codec loads_payload (event_row codec e n) ≡ some e
  stored_envelope-event_row e n loads_dumps = rw (loads_dumps, stored_envelope) refl

  -- When `json.loads` reads the stored text of its payload back, and the envelope built for a result is
  -- answered with `created`, then behind any later deliveries `retry_operation` finds that very envelope
  -- by the outcome, the cutoff and the policy version, is answered with `duplicate`, and leaves the
  -- ledger.
  pub retry_operation-recovers :
      (conn : Ledger) (result : AttributionResult) (account_ref attributed_at recorded_at : String)
      (supersedes : Option String) (es : List Envelope)
      → (let e = build_envelope codec result account_ref attributed_at recorded_at supersedes in
          loads_payload (codec.payload_text e.payload) ≡ some e.payload)
      → (let e = build_envelope codec result account_ref attributed_at recorded_at supersedes in
          (ingest codec conn e).1 ≡ ok (created e.event_id (codec.envelope_hash e)))
      → (let e = build_envelope codec result account_ref attributed_at recorded_at supersedes in
          let after = deliver_all codec conn (e ∷ es) in
          retry_operation codec loads_payload after result.outcome_event_id result.cutoff
            result.policy_version
            (answered ∷ [])
          ≡ some (e, after, answer (ok (duplicate e.event_id (codec.envelope_hash e)))))
  unfolding retry_operation recover_envelope submit attempt build_envelope
  retry_operation-recovers conn result account_ref attributed_at recorded_at supersedes es
        loads_dumps h =
      let e = build_envelope codec result account_ref attributed_at recorded_at supersedes in
      let (stored, again) = ingest-redelivered codec conn e es h in
      let after = deliver_all codec conn (e ∷ es) in
      let found : recover_envelope codec loads_payload after result.outcome_event_id result.cutoff
            result.policy_version
          ≡ some e =
        rw (stored, recover_envelope)
          (stored_envelope-event_row e (next_sequence conn) loads_dumps) in
      rw (found, retry_operation) (ap (λ r. some (e, r.0, settled r.1)) again)
