-- ===== src/Submission/Once.antt =====
-- `submit` of attribution/service.py against a single delivery.
use flight_recorder.Base.{
  take, Bool-cases, inl, inr, ◌≡◌, refl, ap, ◌∙◌, Bool, true, false, ◌||◌, List, [], ◌∷◌, Result,
}
use mathlib.Core.Path.{subst}
use flight_recorder.Ledger.{Ledger}
use flight_recorder.Collector.Envelope.{Codec, Envelope, IngestError, IngestResult}
use flight_recorder.Collector.Service.{ingest}
use flight_recorder.Collector.Accepted.{
  Ingested, written, retried, reused, refused, ingest-Ingested,
}
use flight_recorder.Collector.Settled.{ingest-redelivered}
use flight_recorder.Submission.{
  Fate, transport_error, server_error, answered, carried, is_uncaught, attempt, submit,
  submit_attempts,
}

-- Some attempt that was made was carried out.
abbrev pub reaches : List Fate → Bool
reaches [] = false
reaches (answered ∷ fates) = true
reaches (transport_error b ∷ fates) = b || reaches fates
reaches (server_error b ∷ fates) = b || reaches fates

module _ (codec : Codec) where
  Ingested-twice :
      (conn : Ledger) (e : Envelope) {conn' : Ledger} {reply : Result IngestError IngestResult}
      → Ingested codec conn e conn' reply
      → (ingest codec conn e).0 ≡ conn'
      → (ingest codec conn e).1 ≡ reply
      → (ingest codec conn' e).0 ≡ conn'
  Ingested-twice conn e (written accepted) h k =
      subst (λ c. (ingest codec c e).0 ≡ c) h
        (ap (λ r. r.0) (ingest-redelivered codec conn e [] k).1)
  Ingested-twice conn e (retried row stored same) h k = h
  Ingested-twice conn e (reused row stored differs) h k = h
  Ingested-twice conn e (refused failure new is_refused) h k = h

  -- A second delivery leaves the ledger that the first one left.
  ingest_twice :
      (conn : Ledger) (e : Envelope)
      → (ingest codec (ingest codec conn e).0 e).0 ≡ (ingest codec conn e).0
  ingest_twice conn e = Ingested-twice conn e (ingest-Ingested codec conn e) refl refl

  carried_again :
      (a b : Bool) (conn : Ledger) (e : Envelope)
      → carried codec b (carried codec a conn e) e ≡ carried codec (a || b) conn e
  carried_again true true conn e = ingest_twice conn e
  carried_again true false conn e = refl
  carried_again false b conn e = refl

  attempt-once :
      (conn : Ledger) (e : Envelope) (fates : List Fate)
      → (attempt codec conn e fates).0 ≡ carried codec (reaches fates) conn e
  unfolding attempt
  attempt-once conn e [] = refl
  attempt-once conn e (answered ∷ []) = refl
  attempt-once conn e (answered ∷ fate ∷ fates) =
      elim (Bool-cases (is_uncaught (ingest codec conn e).1)) [
        | inl uncaught ↦
            rw (uncaught, attempt)
              (attempt-once (ingest codec conn e).0 e (fate ∷ fates)
                ∙ carried_again true (reaches (fate ∷ fates)) conn e)
        | inr caught ↦ rw (caught, attempt) refl
      ]
  attempt-once conn e (transport_error b ∷ []) = carried_again b false conn e
  attempt-once conn e (server_error b ∷ []) = carried_again b false conn e
  attempt-once conn e (transport_error b ∷ fate ∷ fates) =
      attempt-once (carried codec b conn e) e (fate ∷ fates)
      ∙ carried_again b (reaches (fate ∷ fates)) conn e
  attempt-once conn e (server_error b ∷ fate ∷ fates) =
      attempt-once (carried codec b conn e) e (fate ∷ fates)
      ∙ carried_again b (reaches (fate ∷ fates)) conn e

  -- Of the attempts that `submit` makes, which are `SUBMIT_ATTEMPTS` at most, one that was carried out
  -- leaves the ledger of a single delivery behind them all, and otherwise the ledger before stays:
  -- retries have no second effect, and a lost answer loses nothing.
  pub submit-once :
      (conn : Ledger) (e : Envelope) (fates : List Fate)
      → (submit codec conn e fates).0 ≡ carried codec (reaches (take submit_attempts fates)) conn e
  unfolding submit
  submit-once conn e fates = attempt-once conn e (take submit_attempts fates)
