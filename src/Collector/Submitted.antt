-- ===== src/Collector/Submitted.antt =====
-- The ledgers that bodies given to `Collector.ingest_json` of collector/service.py lead to.
use flight_recorder.Base.{
  ◌≡◌, refl, sym, true, some, String, Bool-cases, Option-cases, inl, inr, ◌⊎◌,
}
use mathlib.Core.Path.{subst}
use flight_recorder.Ledger.{Ledger, empty_ledger}
use flight_recorder.Collector.Envelope.{Codec, Envelope}
use flight_recorder.Collector.Service.{ingest}
use flight_recorder.Collector.Contract.{Reader, valid_envelope, validate_envelope_json, ingest_json}
use flight_recorder.Collector.Accepted.{Accepted}
use flight_recorder.Collector.Reachable.{Reachable, created_empty, delivered, ingest-keeps}

pub data Submitted (reader : Reader) (codec : Codec) : Ledger → Type 0 where
  none_submitted : Submitted reader codec empty_ledger
  submitted :
      {conn : Ledger}
      → Submitted reader codec conn
      → (body : String) → Submitted reader codec (ingest_json reader codec conn body).0

module _ (reader : Reader) (codec : Codec) where
  validate_envelope_json-valid :
      (body : String) {e : Envelope}
      → validate_envelope_json reader body ≡ some e
      → valid_envelope reader e ≡ true
  unfolding validate_envelope_json
  validate_envelope_json-valid body {e} h = elim (Option-cases (reader.read_envelope body)) [
    | inl unread ↦ absurd (cc (rw (unread, validate_envelope_json) at h))
    | inr (read, is_read) ↦
        let k = rw (is_read, validate_envelope_json) at h in
        elim (Bool-cases (valid_envelope reader read)) [
          | inl valid ↦
              let found : some read ≡ some e = rw valid at k in
              let same : read ≡ e = cc in subst (λ x. valid_envelope reader x ≡ true) same valid
          | inr invalid ↦ absurd (cc (rw invalid at k))
        ]
  ]

  -- A body that is no valid envelope leaves the ledger; any other is a delivery of a valid one.
  ingest_json-cases :
      (conn : Ledger) (body : String)
      → ((ingest_json reader codec conn body).0 ≡ conn)
        ⊎ ((e : Envelope) × (valid_envelope reader e ≡ true)
            × ((ingest_json reader codec conn body).0 ≡ (ingest codec conn e).0))
  unfolding ingest_json
  ingest_json-cases conn body = elim (Option-cases (validate_envelope_json reader body)) [
    | inl invalid ↦ inl (rw (invalid, ingest_json) refl)
    | inr (e, read) ↦ inr (e, validate_envelope_json-valid body read, rw (read, ingest_json) refl)
  ]

  pub Submitted-Reachable : {conn : Ledger} → Submitted reader codec conn → Reachable codec conn
  Submitted-Reachable none_submitted = created_empty
  Submitted-Reachable (submitted {conn} s body) = elim (ingest_json-cases conn body) [
    | inl same ↦ subst (Reachable codec) (sym same) (Submitted-Reachable s)
    | inr (e, valid, same) ↦
        subst (Reachable codec) (sym same) (delivered (Submitted-Reachable s) e)
  ]

  -- What holds of the empty tables and a valid, accepted event keeps holds of each such ledger.
  pub submitted_induction :
      (P : Ledger → Type 0)
      → P empty_ledger
      → ((conn : Ledger)
          → Reachable codec conn
          → P conn
          → (e : Envelope) → valid_envelope reader e ≡ true
          → (conn' : Ledger) → Accepted codec conn e conn'
          → P conn')
      → {conn : Ledger} → Submitted reader codec conn
      → P conn
  submitted_induction P base step none_submitted = base
  submitted_induction P base step (submitted {conn} s body) =
      let here = submitted_induction P base step s in
      elim (ingest_json-cases conn body) [
        | inl same ↦ subst P (sym same) here
        | inr (e, valid, same) ↦
            subst P (sym same)
              (ingest-keeps codec P e here (step conn (Submitted-Reachable s) here e valid))
      ]
