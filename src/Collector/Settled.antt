-- ===== src/Collector/Settled.antt =====
-- Later deliveries to `Collector.ingest` of collector/service.py, beside the stored event, the answer to
-- its redelivery, and the answers of the attribution policy.
use flight_recorder.Base.{
  ℕ, ◌≡◌, refl, Bool, some, List, [], ◌∷◌, first-append, first-none-append, select, select-append,
  String, str_eq, str_eq_refl, Result, ok,
}
use flight_recorder.Rules.{ScalarValue}
use flight_recorder.Ledger.{Ledger, EventRow}
use flight_recorder.Ledger.Growth.{Grows}
use flight_recorder.Attribution.Records.{AttributionResult}
use flight_recorder.Attribution.Attribute.{attribute}
use flight_recorder.Attribution.Stable.Policy.{attribute-grown}
use flight_recorder.Collector.Envelope.{
  Codec, Envelope, IngestError, IngestResult, created, duplicate,
}
use flight_recorder.Collector.Service.{ingest, event_with, event_row, next_sequence}
use flight_recorder.Collector.Accepted.{
  Accepted, Ingested, written, retried, reused, refused, ingest-Ingested,
}
use flight_recorder.Collector.Written.{Accepted-IsNew, Accepted-Grows}
use flight_recorder.Collector.Recorded.{rows-IsReferenced}
use flight_recorder.Collector.Reachable.{Reachable, delivered, ingest-keeps}

-- The ledger behind these deliveries.
abbrev pub deliver_all : Codec → Ledger → List Envelope → Ledger
deliver_all codec conn [] = conn
deliver_all codec conn (e ∷ es) = deliver_all codec (ingest codec conn e).0 es

module _ (codec : Codec) where
  event_with-grown :
      (conn conn' : Ledger) (e : EventRow) (id : String) {row : EventRow}
      → Grows conn conn' e
      → event_with conn id ≡ some row
      → event_with conn' id ≡ some row
  event_with-grown conn conn' e id grown h =
      let p : EventRow → Bool = λ x. str_eq x.event_id id in
      rw (grown.events, select-append p conn.events (e ∷ []))
        (first-append (select p conn.events) (select p (e ∷ [])) h)

  event_with-delivered :
      (conn : Ledger) (es : List Envelope) (id : String) {row : EventRow}
      → event_with conn id ≡ some row
      → event_with (deliver_all codec conn es) id ≡ some row
  event_with-delivered conn [] id h = h
  event_with-delivered conn (e ∷ es) id {row} h =
      event_with-delivered (ingest codec conn e).0 es id (
        ingest-keeps codec (λ c. event_with c id ≡ some row) e h
          (λ conn' accepted.
            event_with-grown conn conn' _ id (Accepted-Grows codec conn e conn' accepted) h))

  Accepted-event_with :
      (conn : Ledger) (e : Envelope) (conn' : Ledger)
      → Accepted codec conn e conn'
      → event_with conn' e.event_id ≡ some (event_row codec e (next_sequence conn))
  Accepted-event_with conn e conn' accepted =
      let grown = Accepted-Grows codec conn e conn' accepted in
      let p : EventRow → Bool = λ x. str_eq x.event_id e.event_id in
      rw
        (
          grown.events,
          select-append p conn.events (event_row codec e (next_sequence conn) ∷ []),
          first-none-append (select p conn.events)
              (select p (event_row codec e (next_sequence conn) ∷ [])) accepted.is_new,
          str_eq_refl e.event_id,
        )
        refl

  created-Accepted :
      (conn : Ledger) (e : Envelope) {conn' : Ledger} {answer : Result IngestError IngestResult}
      → Ingested codec conn e conn' answer
      → answer ≡ ok (created e.event_id (codec.envelope_hash e))
      → Accepted codec conn e conn'
  created-Accepted conn e (written accepted) h = accepted
  created-Accepted conn e (retried row stored same) h = cc
  created-Accepted conn e (reused row stored differs) h = cc
  created-Accepted conn e (refused failure new is_refused) h = cc

  ingest-stored :
      (conn : Ledger) (e : Envelope) (n : ℕ)
      → event_with conn e.event_id ≡ some (event_row codec e n)
      → ingest codec conn e ≡ (conn, ok (duplicate e.event_id (codec.envelope_hash e)))
  unfolding ingest
  ingest-stored conn e n h = rw (h, ingest, str_eq_refl (codec.envelope_hash e)) refl

  -- Behind a delivery that is answered with `created` and any later deliveries, the event is stored with
  -- the sequence that was next, and its redelivery is answered with `duplicate` and leaves the ledger.
  pub ingest-redelivered :
      (conn : Ledger) (e : Envelope) (es : List Envelope)
      → (ingest codec conn e).1 ≡ ok (created e.event_id (codec.envelope_hash e))
      → (event_with (deliver_all codec conn (e ∷ es)) e.event_id
          ≡ some (event_row codec e (next_sequence conn)))
        × (ingest codec (deliver_all codec conn (e ∷ es)) e
            ≡ (deliver_all codec conn (e ∷ es), ok (duplicate e.event_id (codec.envelope_hash e))))
  ingest-redelivered conn e es h =
      let accepted = created-Accepted conn e (ingest-Ingested codec conn e) h in
      let stored =
        event_with-delivered (ingest codec conn e).0 es e.event_id
          (Accepted-event_with conn e (ingest codec conn e).0 accepted) in
      (stored, ingest-stored (deliver_all codec conn (e ∷ es)) e (next_sequence conn) stored)

  -- What the policy answers on a reachable ledger it answers on each ledger that deliveries lead to from
  -- there: a result at a cutoff does not depend on what is recorded later.
  pub attribute-delivered :
      (conn : Ledger) (es : List Envelope) (id : String) (cutoff : ScalarValue) (version : String)
      {r : AttributionResult}
      → Reachable codec conn
      → attribute codec.fromisoformat conn id cutoff version ≡ ok r
      → attribute codec.fromisoformat (deliver_all codec conn es) id cutoff version ≡ ok r
  attribute-delivered conn [] id cutoff version reachable h = h
  attribute-delivered conn (e ∷ es) id cutoff version {r} reachable h =
      attribute-delivered (ingest codec conn e).0 es id cutoff version (delivered reachable e) (
        ingest-keeps codec (λ c. attribute codec.fromisoformat c id cutoff version ≡ ok r) e h
          (λ conn' accepted.
            attribute-grown codec.fromisoformat (Accepted-Grows codec conn e conn' accepted)
              (Accepted-IsNew codec conn e conn' accepted)
              (rows-IsReferenced codec reachable).outcomes id cutoff version h))
