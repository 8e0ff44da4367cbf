-- ===== src/Collector/Written.antt =====
-- The event that an accepted delivery of collector/service.py writes, beside the events of the ledger.
use flight_recorder.Base.{
  ℕ, suc, ◌<◌, ◌≤◌, ◌≡◌, refl, sym, false, none, some, List, [], ◌∷◌, All, All-weaken, first,
  select, ltb, str_eq, if◌then◌else◌, Bool-cases, Option-cases, inl, inr, ok, String, arith,
}
use mathlib.Core.Path.{subst}
use flight_recorder.Ledger.{Ledger, AccountRow, EventRow}
use flight_recorder.Ledger.Keys.{Keyed}
use flight_recorder.Ledger.Growth.{Grows, IsNew, is_recorded}
use flight_recorder.Attribution.Snapshot.{max_sequence, ledger_maximum}
use flight_recorder.Collector.Envelope.{Envelope, Codec}
use flight_recorder.Collector.Project.{project}
use flight_recorder.Collector.Service.{next_sequence, event_row}
use flight_recorder.Collector.Accepted.{Accepted}
use flight_recorder.Collector.Appends.{inserted, materialize_account-Materialized, project-Grows}

max_sequence-none : (events : List EventRow) → max_sequence events ≡ none → events ≡ []
unfolding max_sequence
max_sequence-none [] h = refl
max_sequence-none (x ∷ events) h = elim (Option-cases (max_sequence events)) [
  | inl missing ↦ absurd (cc (rw (missing, max_sequence) at h))
  | inr (k, found) ↦ absurd (cc (rw (found, max_sequence) at h))
]

larger-bound : (k n : ℕ) {m : ℕ} → some (if ltb k n then n else k) ≡ some m → (n ≤ m) × (k ≤ m)
larger-bound k n h = elim (Bool-cases (ltb k n)) [ inl _ ↦ ground arith | inr _ ↦ ground arith ]

max_sequence-bound :
    (events : List EventRow) {m : ℕ}
    → max_sequence events ≡ some m
    → All (λ (x : EventRow). x.ingest_sequence ≤ m) events
unfolding max_sequence
max_sequence-bound [] h = tt
max_sequence-bound (x ∷ events) {m} h = elim (Option-cases (max_sequence events)) [
  | inl missing ↦
      let here : some x.ingest_sequence ≡ some m = rw (missing, max_sequence) at h in
      subst (λ xs. All (λ (y : EventRow). y.ingest_sequence ≤ m) (x ∷ xs))
        (sym (max_sequence-none events missing)) (ground arith, tt)
  | inr (k, found) ↦
      let (above, below) = larger-bound k x.ingest_sequence (rw (found, max_sequence) at h) in
      (
        above,
        All-weaken (λ (y : EventRow). y.ingest_sequence ≤ k)
            (λ (y : EventRow). y.ingest_sequence ≤ m) (λ y bound. ground arith) events
            (max_sequence-bound events found),
      )
]

next_sequence-newer :
    (conn : Ledger) → All (λ (x : EventRow). x.ingest_sequence < next_sequence conn) conn.events
unfolding next_sequence ledger_maximum
next_sequence-newer conn = elim (Option-cases (max_sequence conn.events)) [
  | inl missing ↦ rw (max_sequence-none conn.events missing) tt
  | inr (m, found) ↦
      let next : next_sequence conn ≡ suc m = rw (found, next_sequence) refl in
      All-weaken (λ (x : EventRow). x.ingest_sequence ≤ m) _ (λ x bound. rw next (ground arith))
        conn.events (max_sequence-bound conn.events found)
]

unstored-fresh :
    (events : List EventRow) (id : String)
    → first (select (λ (x : EventRow). str_eq x.event_id id) events) ≡ none
    → is_recorded events id ≡ false
unstored-fresh [] id h = refl
unstored-fresh (x ∷ events) id h = elim (Bool-cases (str_eq x.event_id id)) [
  | inl same ↦ absurd (cc (rw same at h))
  | inr differs ↦ rw differs (unstored-fresh events id (rw differs at h))
]

module _ (codec : Codec) (conn : Ledger) (e : Envelope) (conn' : Ledger)
    (accepted : Accepted codec conn e conn') where
  pub Accepted-IsNew : IsNew conn (event_row codec e (next_sequence conn))
  Accepted-IsNew = record {
    fresh = unstored-fresh conn.events e.event_id accepted.is_new;
    newer = next_sequence-newer conn;
  }

  -- The projection, behind the writes of the account and the event.
  pub Accepted-projects :
      (accounts : List AccountRow) × (project codec
          (inserted codec conn e accounts (next_sequence conn))
          e
          e.payload
          (next_sequence conn)
        ≡ ok conn')
      × (Keyed (λ (a : AccountRow). a.account_ref) conn.accounts
          → Keyed (λ (a : AccountRow). a.account_ref) accounts)
  unfolding next_sequence ledger_maximum
  Accepted-projects =
      let m = materialize_account-Materialized conn e e.payload in
      (m.accounts, rw (m.is_materialized) at accepted.projected, m.keyed)

  pub Accepted-Grows : Grows conn conn' (event_row codec e (next_sequence conn))
  unfolding next_sequence ledger_maximum
  Accepted-Grows =
      let m = materialize_account-Materialized conn e e.payload in
      project-Grows codec conn e (next_sequence conn) m.accounts m.adds e.payload
        (rw (m.is_materialized) at accepted.projected)
