-- ===== src/Attribution/Stable/Guards.antt =====
-- `validate_cutoff` and `load_outcome` of attribution/policy.py on a ledger that has grown by one event.
use mathlib.Core.Path.{subst}
use flight_recorder.Base.{
  ℕ, ◌<◌, ◌≡◌, refl, ap, Bool, true, false, Option, none, some, List, [], ◌∷◌, ◌++◌, map,
  append-nil, String, str_eq, str_eq_iff, ltb, ◌==◌, ==_iff, ok, ok_inj, first, first-append,
  select, select-append, flat_map, flat_map-append, flat_map_same, All, All-select, All-weaken,
  Bool-cases, Option-cases, inl, inr, arith,
}
use flight_recorder.Rules.{ScalarValue, int_value, str_value, bool_value, null_value}
use flight_recorder.Base.Int.{pos, negsuc}
use flight_recorder.Ledger.{EventRow, OutcomeRow, Ledger}
use flight_recorder.Ledger.Growth.{Grows, IsNew, is_recorded}
use flight_recorder.Attribution.Records.{OutcomeClaims}
use flight_recorder.Attribution.Snapshot.{
  events_with, outcome_rows, load_outcome, max_sequence, ledger_maximum, checked_cutoff,
  validate_cutoff,
}

pub max_sequence-newest :
    (events : List EventRow) (e : EventRow)
    → All (λ (x : EventRow). x.ingest_sequence < e.ingest_sequence) events
    → max_sequence (events ++ e ∷ []) ≡ some e.ingest_sequence
unfolding max_sequence
max_sequence-newest [] e h = refl
max_sequence-newest (x ∷ events) e h = rw (max_sequence-newest events e h.1) (ground arith)

-- A sequence that some event has is below the new one.
sequence_found-passed :
    (events : List EventRow) (n m : ℕ) {x : EventRow}
    → All (λ (y : EventRow). y.ingest_sequence < m) events
    → first (select (λ (y : EventRow). y.ingest_sequence == n) events) ≡ some x
    → n < m
sequence_found-passed [] n m h k = cc
sequence_found-passed (y ∷ events) n m h k = elim (Bool-cases (y.ingest_sequence == n)) [
  | inl same ↦ ground (arith, ==_iff y.ingest_sequence n)
  | inr differs ↦ sequence_found-passed events n m h.1 (rw differs at k)
]

-- A cutoff that is checked is the sequence of an event.
checked_cutoff-found :
    (conn : Ledger) (k : ℕ) (maximum : Option ℕ) {n : ℕ}
    → checked_cutoff conn k maximum ≡ ok n
    → (k ≡ n)
      × (x : EventRow) × (first (select (λ (y : EventRow). y.ingest_sequence == k) conn.events)
          ≡ some x)
unfolding checked_cutoff
checked_cutoff-found conn k none h = cc
checked_cutoff-found conn k (some maximum) h = elim (Bool-cases (ltb maximum k)) [
  | inl above ↦ absurd (cc (rw above at h))
  | inr within ↦
      elim (Option-cases (first (select (λ (y : EventRow). y.ingest_sequence == k) conn.events))) [
        | inl missing ↦ absurd (cc (rw (within, missing) at h))
        | inr (x, found) ↦ (ok_inj (rw (within, found) at h), x, found)
      ]
]

-- The cutoff of a snapshot is the sequence of an event.
pub validate_cutoff-passed :
    (conn : Ledger) (cutoff : ScalarValue) {n : ℕ} (m : ℕ)
    → All (λ (y : EventRow). y.ingest_sequence < m) conn.events
    → validate_cutoff conn cutoff ≡ ok n
    → n < m
unfolding validate_cutoff checked_cutoff
validate_cutoff-passed conn (int_value (pos k)) m h v =
    let (same, x, found) = checked_cutoff-found conn k (ledger_maximum conn) v in
    subst (λ i. i < m) same (sequence_found-passed conn.events k m h found)
validate_cutoff-passed conn (int_value (negsuc k)) m h v =
    elim (Option-cases (ledger_maximum conn)) [
      | inl missing ↦ absurd (cc (rw (missing, validate_cutoff) at v))
      | inr (maximum, found) ↦ absurd (cc (rw (found, validate_cutoff) at v))
    ]
validate_cutoff-passed conn (str_value s) m h v = cc
validate_cutoff-passed conn (bool_value b) m h v = cc
validate_cutoff-passed conn null_value m h v = cc

module _ {conn conn' : Ledger} {e : EventRow} (grown : Grows conn conn' e)
    (new : IsNew conn e) where
  pub ledger_maximum-grown : ledger_maximum conn' ≡ some e.ingest_sequence
  unfolding ledger_maximum
  ledger_maximum-grown = rw (grown.events) (max_sequence-newest conn.events e new.newer)

  pub validate_cutoff-grown :
      (cutoff : ScalarValue) {n : ℕ}
      → validate_cutoff conn cutoff ≡ ok n
      → validate_cutoff conn' cutoff ≡ ok n
  unfolding validate_cutoff checked_cutoff
  validate_cutoff-grown (int_value (pos k)) v =
      let (same, x, found) = checked_cutoff-found conn k (ledger_maximum conn) v in
      let below = sequence_found-passed conn.events k e.ingest_sequence new.newer found in
      let within : ltb e.ingest_sequence k ≡ false = ground arith in
      let still : first (select (λ (y : EventRow). y.ingest_sequence == k) conn'.events) ≡ some x =
        rw
          (
            grown.events,
            select-append (λ (y : EventRow). y.ingest_sequence == k) conn.events (e ∷ []),
          )
          (first-append (select (λ (y : EventRow). y.ingest_sequence == k) conn.events) _ found) in
      rw (ledger_maximum-grown, within, still) (ap ok same)
  validate_cutoff-grown (int_value (negsuc k)) v = elim (Option-cases (ledger_maximum conn)) [
    | inl missing ↦ absurd (cc (rw (missing, validate_cutoff) at v))
    | inr (maximum, found) ↦ absurd (cc (rw (found, validate_cutoff) at v))
  ]
  validate_cutoff-grown (str_value s) v = cc
  validate_cutoff-grown (bool_value b) v = cc
  validate_cutoff-grown null_value v = cc

  -- Each outcome of the ledger has its event.
  module _
      (referenced : All
        (λ (o : OutcomeRow). is_recorded conn.events o.outcome_event_id ≡ true)
        conn.outcomes) where
    events_with-grown :
        (id : String)
        → is_recorded conn.events id ≡ true
        → events_with conn' id ≡ events_with conn id
    events_with-grown id h =
        let p : EventRow → Bool = λ x. str_eq x.event_id id in
        let other : str_eq e.event_id id ≡ false = elim (Bool-cases (str_eq e.event_id id)) [
          | inl same ↦
              absurd (
                cc (ap (is_recorded conn.events) ((str_eq_iff e.event_id id).0 same), h, new.fresh))
          | inr differs ↦ differs
        ] in
        let none_of : select p (e ∷ []) ≡ [] = ground arith in
        rw (grown.events, select-append p conn.events (e ∷ []), none_of)
          (append-nil (events_with conn id))

    outcome_rows-grown :
        (id : String) {found : OutcomeRow × ℕ}
        → first (outcome_rows conn id) ≡ some found
        → first (outcome_rows conn' id) ≡ some found
    outcome_rows-grown id h =
        let p : OutcomeRow → Bool = λ o. str_eq o.outcome_event_id id in
        let f : OutcomeRow → List (OutcomeRow × ℕ) = λ o.
          map (λ (x : EventRow). (o, x.ingest_sequence)) (events_with conn' o.outcome_event_id) in
        let g : OutcomeRow → List (OutcomeRow × ℕ) = λ o.
          map (λ (x : EventRow). (o, x.ingest_sequence)) (events_with conn o.outcome_event_id) in
        let same : flat_map f (select p conn.outcomes) ≡ outcome_rows conn id =
          flat_map_same f g (select p conn.outcomes) (
            All-select _ p conn.outcomes (
              All-weaken (λ (o : OutcomeRow). is_recorded conn.events o.outcome_event_id ≡ true) _
                (λ o k. rw (events_with-grown o.outcome_event_id k) refl) conn.outcomes
                referenced)) in
        rw
          (
            grown.outcomes.is_append,
            select-append p conn.outcomes grown.outcomes.added,
            flat_map-append f (select p conn.outcomes) (select p grown.outcomes.added),
            same,
          )
          (first-append (outcome_rows conn id) _ h)

    pub load_outcome-grown :
        (id : String) (n : ℕ) {outcome : OutcomeClaims}
        → load_outcome conn id n ≡ ok outcome
        → load_outcome conn' id n ≡ ok outcome
    unfolding load_outcome
    load_outcome-grown id n h = elim (Option-cases (first (outcome_rows conn id))) [
      | inl missing ↦ absurd (cc (rw (missing, load_outcome) at h))
      | inr (found, is_first) ↦
          rw (outcome_rows-grown id is_first, load_outcome) (rw (is_first, load_outcome) at h)
    ]
