-- ===== src/Submission/Justified.antt =====
-- What each list of a run of attribution/service.py says of the snapshot at the run's cutoff, and that
-- later deliveries leave it so.
use flight_recorder.Base.{
  ℕ, ◌<◌, ◌≤◌, ◌≡◌, refl, ◌∙◌, Bool, true, false, Option, none, some, List, [], ◌∷◌, String, ok,
  All, All-weaken, Member, member-All, inl, inr, arith, Option-cases, Bool-cases, ltb,
}
use mathlib.Core.Option.{some_inj}
use flight_recorder.Base.Members.{Member-append-left}
use flight_recorder.Base.Int.{pos}
use flight_recorder.Rules.{int_value}
use flight_recorder.Ledger.{Ledger, EventRow, StoredAttribution}
use flight_recorder.Ledger.Growth.{Grows, IsNew}
use flight_recorder.Attribution.Records.{AttributionResult, OutcomeClaims}
use flight_recorder.Attribution.Snapshot.{max_sequence, ledger_maximum, load_outcome}
use flight_recorder.Attribution.Attribute.{attribute}
use flight_recorder.Attribution.Selection.{effective_attribution}
use flight_recorder.Attribution.Stable.Guards.{load_outcome-grown}
use flight_recorder.Attribution.Stable.Policy.{attribute-grown}
use flight_recorder.Attribution.Stable.Tips.{effective_attribution-grown}
use flight_recorder.Collector.Envelope.{
  Codec, Envelope, OutcomeAttributedPayload, outcome_attributed,
}
use flight_recorder.Collector.Reachable.{Reachable, ingest-keeps}
use flight_recorder.Collector.Recorded.{rows-IsReferenced}
use flight_recorder.Collector.Written.{Accepted-IsNew, Accepted-Grows}
use flight_recorder.Collector.Attested.{IsResult}
use flight_recorder.Collector.Service.{ingest}
use flight_recorder.Submission.{Sent}
use flight_recorder.Submission.Run.{AttributionRun}

-- The stored attribution that an envelope replaces, by its id.
abbrev pub replaced : Option StoredAttribution → Option String
replaced none = none
replaced (some row) = some row.attribution_event_id

-- The envelope states the policy's result, its cutoff included, under the outcome's account, and replaces
-- this attribution.
pub record States (e : Envelope) (result : AttributionResult) (account_ref : String)
    (existing : Option StoredAttribution) : Type 0 where
  pub payload : OutcomeAttributedPayload
  pub is_payload : e.payload ≡ outcome_attributed payload
  pub same_account : e.account_ref ≡ account_ref
  pub same_outcome : payload.outcome_event_id ≡ result.outcome_event_id
  pub same_policy : payload.policy_version ≡ result.policy_version
  pub same_method : payload.method ≡ result.method
  pub same_window : payload.window_days ≡ result.window_days
  pub same_action : payload.resolved_action_event_id ≡ result.resolved_action_event_id
  pub same_decision : payload.resolved_decision_event_id ≡ result.resolved_decision_event_id
  pub same_status : payload.status ≡ result.status
  pub same_reason : payload.reason ≡ result.reason
  pub at_cutoff : payload.ingest_cutoff ≡ pos result.cutoff
  pub replaces : payload.supersedes_attribution_event_id ≡ replaced existing

-- Some event is at the cutoff or behind it.
abbrev pub IsPast : ℕ → Ledger → Type 0
IsPast cutoff conn = (x : EventRow) × Member x conn.events × (cutoff ≤ x.ingest_sequence)

module _ (codec : Codec) (reevaluate : Bool) (version : String) (cutoff : ℕ) where
  abbrev Effective : Ledger → String → Option StoredAttribution → Type 0
  Effective conn id existing = effective_attribution conn id version cutoff ≡ ok existing

  abbrev Computes : Ledger → String → AttributionResult → Type 0
  Computes conn id result =
      attribute codec.fromisoformat conn id (int_value (pos cutoff)) version ≡ ok result

  -- An initial run found an attribution.
  abbrev pub IsAttributed : Ledger → String → Type 0
  IsAttributed conn id =
      (reevaluate ≡ false) × (row : StoredAttribution) × Effective conn id (some row)

  -- A reevaluation found none.
  abbrev pub IsUnattributed : Ledger → String → Type 0
  IsUnattributed conn id = (reevaluate ≡ true) × Effective conn id none

  -- A reevaluation found an attribution that has what the policy answers.
  abbrev pub IsUnchanged : Ledger → String → Type 0
  IsUnchanged conn id =
      (reevaluate ≡ true)
      × (row : StoredAttribution) × (result : AttributionResult) × Effective conn id (some row)
      × Computes conn id result
      × IsResult row result

  -- An initial run sends where there is no attribution, a reevaluation where the policy answers otherwise
  -- than the attribution.
  abbrev pub IsDue : Option StoredAttribution → AttributionResult → Type 0
  IsDue none result = reevaluate ≡ false
  IsDue (some row) result = (reevaluate ≡ true) × (¬ IsResult row result)

  pub record IsSubmitted (conn : Ledger) (item : String × Envelope × Sent) : Type 0 where
    pub existing : Option StoredAttribution
    pub result : AttributionResult
    pub outcome : OutcomeClaims
    pub is_existing : Effective conn item.0 existing
    pub is_due : IsDue existing result
    pub is_result : Computes conn item.0 result
    pub is_outcome : load_outcome conn item.0 cutoff ≡ ok outcome
    pub states : States item.1 result outcome.account_ref existing

  -- Each list of the run is what it says.
  pub record IsJustified (conn : Ledger) (run : AttributionRun) : Type 0 where
    pub attributed : All (IsAttributed conn) run.already_attributed
    pub unattributed : All (IsUnattributed conn) run.not_yet_attributed
    pub unchanged : All (IsUnchanged conn) run.unchanged
    pub submitted : All (IsSubmitted conn) run.submissions

  module _ {conn conn' : Ledger} {e : EventRow} (grown : Grows conn conn' e) (new : IsNew conn e)
      (reachable : Reachable codec conn) (passed : cutoff < e.ingest_sequence) where
    Effective-grown :
        (id : String) (o : Option StoredAttribution) → Effective conn id o → Effective conn' id o
    Effective-grown id o h = effective_attribution-grown grown new cutoff passed id version ∙ h

    Computes-grown :
        (id : String) (r : AttributionResult) → Computes conn id r → Computes conn' id r
    Computes-grown id r h =
        attribute-grown codec.fromisoformat grown new (rows-IsReferenced codec reachable).outcomes
          id (int_value (pos cutoff)) version h

    IsJustified-grown : (run : AttributionRun) → IsJustified conn run → IsJustified conn' run
    IsJustified-grown run j = record {
      attributed =
          All-weaken (IsAttributed conn) (IsAttributed conn')
            (λ id (initial, row, h). (initial, row, Effective-grown id (some row) h))
            run.already_attributed j.attributed;
      unattributed =
          All-weaken (IsUnattributed conn) (IsUnattributed conn')
            (λ id (again, h). (again, Effective-grown id none h)) run.not_yet_attributed
            j.unattributed;
      unchanged =
          All-weaken (IsUnchanged conn) (IsUnchanged conn')
            (λ id (again, row, r, h, k, same).
              (again, row, r, Effective-grown id (some row) h, Computes-grown id r k, same))
            run.unchanged j.unchanged;
      submitted =
          All-weaken (IsSubmitted conn) (IsSubmitted conn')
            (λ item s. record {
              existing = s.existing;
              result = s.result;
              outcome = s.outcome;
              is_existing = Effective-grown item.0 s.existing s.is_existing;
              is_due = s.is_due;
              is_result = Computes-grown item.0 s.result s.is_result;
              is_outcome =
                  load_outcome-grown grown new (rows-IsReferenced codec reachable).outcomes item.0
                    cutoff s.is_outcome;
              states = s.states;
            })
            run.submissions j.submitted;
    }

  past-passed :
      (conn : Ledger) (e : EventRow)
      → IsPast cutoff conn
      → IsNew conn e
      → cutoff < e.ingest_sequence
  past-passed conn e (x, m, le) new =
      let later =
        member-All (λ (y : EventRow). y.ingest_sequence < e.ingest_sequence) conn.events new.newer
          m in
      omega (arith, later)

  -- A delivery leaves what a run says of its snapshot.
  pub IsJustified-ingest :
      (conn : Ledger) (e : Envelope) (run : AttributionRun)
      → Reachable codec conn
      → IsPast cutoff conn
      → IsJustified conn run
      → IsPast cutoff (ingest codec conn e).0 × IsJustified (ingest codec conn e).0 run
  IsJustified-ingest conn e run reachable past j =
      ingest-keeps codec (λ c. IsPast cutoff c × IsJustified c run) e (past, j)
        λ conn' accepted.
          let grown = Accepted-Grows codec conn e conn' accepted in
          let new = Accepted-IsNew codec conn e conn' accepted in
          let (x, m, le) = past in
          (
            (x, rw (grown.events) (Member-append-left x conn.events _ m), le),
            IsJustified-grown grown new reachable (past-passed conn _ past new) run j,
          )

max_sequence-Member :
    (events : List EventRow) (n : ℕ)
    → max_sequence events ≡ some n
    → (x : EventRow) × Member x events × (n ≤ x.ingest_sequence)
unfolding max_sequence
max_sequence-Member [] n h = cc
max_sequence-Member (e ∷ events) n h = elim (Option-cases (max_sequence events)) [
  | inl missing ↦
      let same : some e.ingest_sequence ≡ some n = rw missing at h in
      (e, inl refl, ground (arith, some_inj.0 same))
  | inr (m, found) ↦ elim (Bool-cases (ltb m e.ingest_sequence)) [
    | inl above ↦
        let same : some e.ingest_sequence ≡ some n = rw (found, above) at h in
        (e, inl refl, ground (arith, some_inj.0 same))
    | inr below ↦
        let same : some m ≡ some n = rw (found, below) at h in
        let (x, member, le) = max_sequence-Member events m found in
        (x, inr member, ground (arith, some_inj.0 same))
  ]
]

pub ledger_maximum-IsPast :
    (conn : Ledger) (cutoff : ℕ) → ledger_maximum conn ≡ some cutoff → IsPast cutoff conn
unfolding ledger_maximum
ledger_maximum-IsPast conn cutoff h = max_sequence-Member conn.events cutoff h
