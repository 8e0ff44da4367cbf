-- ===== src/Collector/Reachable.antt =====
-- The ledgers that deliveries to `Collector.ingest` of collector/service.py lead to, from empty tables.
use flight_recorder.Base.{Result}
use flight_recorder.Ledger.{Ledger, empty_ledger}
use flight_recorder.Collector.Envelope.{Codec, Envelope, IngestError, IngestResult}
use flight_recorder.Collector.Service.{ingest}
use flight_recorder.Collector.Accepted.{
  Accepted, Ingested, written, retried, reused, refused, ingest-Ingested,
}

-- Whatever the answer to a delivery is, the ledger behind it is reachable.
pub data Reachable (codec : Codec) : Ledger → Type 0 where
  created_empty : Reachable codec empty_ledger
  delivered :
      {conn : Ledger}
      → Reachable codec conn
      → (e : Envelope) → Reachable codec (ingest codec conn e).0

module _ (codec : Codec) (P : Ledger → Type 0) where
  -- What an accepted event keeps, a delivery keeps.
  ingested-keeps :
      {conn conn' : Ledger} {e : Envelope} {answer : Result IngestError IngestResult}
      → P conn
      → ((conn'' : Ledger) → Accepted codec conn e conn'' → P conn'')
      → Ingested codec conn e conn' answer
      → P conn'
  ingested-keeps {conn' = after} h step (written accepted) = step after accepted
  ingested-keeps h step (retried row stored same) = h
  ingested-keeps h step (reused row stored differs) = h
  ingested-keeps h step (refused failure new is_refused) = h

  pub ingest-keeps :
      {conn : Ledger} (e : Envelope)
      → P conn
      → ((conn' : Ledger) → Accepted codec conn e conn' → P conn')
      → P (ingest codec conn e).0
  ingest-keeps {conn} e h step = ingested-keeps h step (ingest-Ingested codec conn e)

  -- What holds of the empty tables and an accepted event keeps holds of each reachable ledger.
  pub reachable_induction :
      P empty_ledger
      → ((conn : Ledger)
          → Reachable codec conn
          → P conn
          → (e : Envelope) → (conn' : Ledger) → Accepted codec conn e conn'
          → P conn')
      → {conn : Ledger} → Reachable codec conn
      → P conn
  reachable_induction base step created_empty = base
  reachable_induction base step (delivered {conn} r e) =
      ingest-keeps e (reachable_induction base step r)
        (step conn r (reachable_induction base step r) e)
