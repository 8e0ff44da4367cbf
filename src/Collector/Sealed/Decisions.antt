-- ===== src/Collector/Sealed/Decisions.antt =====
-- The rows that `_project_decision` of collector/projections.py writes, and with them all rows of the
-- preserved context.
use flight_recorder.Base.{
  ℕ, ◌≡◌, refl, ap, Bool, true, false, Option, none, some, List, [], ◌∷◌, map, first,
  first-none-append, select, select-append, select_none, All, All-append, All-split, All-weaken,
  String, str_eq, str_eq_iff, str_eq_refl, Result, ok, ok_inversion, ok_inj, map_err, Bool-cases,
  Option-cases, inl, inr,
}
use mathlib.Core.Path.{subst}
use flight_recorder.Rules.{ScalarValue}
use flight_recorder.Evaluator.{LogicArtifact}
use flight_recorder.Ledger.{Ledger, AccountRow, DecisionRow}
use flight_recorder.Ledger.Growth.{Grows, is_recorded}
use flight_recorder.Attribution.Attribute.{source_claim_problems}
use flight_recorder.Collector.Envelope.{
  Codec, Envelope, IngestError, HistoricalContextEntry, ConsumedInput, DecisionRecordedPayload,
  Payload, logic_artifact_registered, account_discovered, evidence_recorded, decision_recorded,
  persona_selected, action_recorded, outcome_evaluated, outcome_evaluated_v2, outcome_attributed,
  policy_failure,
}
use flight_recorder.Collector.References.{decision_with, context_references, artifact_with}
use flight_recorder.Collector.Project.{
  project, project_artifact, project_evidence, project_decision, project_outcome_v2, decision_row,
  context_row, consumed_row,
}
use flight_recorder.Collector.Service.{validate_references, event_row, next_sequence}
use flight_recorder.Collector.Appends.{inserted}
use flight_recorder.Collector.Written.{Accepted-IsNew, Accepted-Grows, Accepted-projects}
use flight_recorder.Collector.Recorded.{rows-IsReferenced}
use flight_recorder.Collector.Reachable.{Reachable, reachable_induction}
use flight_recorder.Collector.Sealed.{
  Rests, ContextRests, ConsumedRests, IsSealed, Checked, RestsOn-grown, old-rests,
  validate_decision-Checked,
}

-- No row has the id of an event that is not recorded.
unrecorded-decision :
    (conn : Ledger) (id : String)
    → is_recorded conn.events id ≡ false
    → All (λ (d : DecisionRow). is_recorded conn.events d.decision_event_id ≡ true) conn.decisions
    → first (select (λ (d : DecisionRow). str_eq d.decision_event_id id) conn.decisions) ≡ none
unrecorded-decision conn id fresh h = ap first (
    select_none (λ (d : DecisionRow). str_eq d.decision_event_id id) conn.decisions
      (All-weaken (λ (d : DecisionRow). is_recorded conn.events d.decision_event_id ≡ true) _
        (λ d recorded. elim (Bool-cases (str_eq d.decision_event_id id)) [
          | inl same ↦ absurd (
              cc (
                ap (is_recorded conn.events) ((str_eq_iff d.decision_event_id id).0 same),
                recorded,
                fresh,
              ))
          | inr differs ↦ differs
        ])
        conn.decisions h))

module _ (codec : Codec) (conn : Ledger) (e : Envelope) where
  -- The new rows of a decision, in a ledger that grows by its event and has its row.
  module _ (payload : DecisionRecordedPayload) {conn' : Ledger} {n : ℕ}
      (grown : Grows conn conn' (event_row codec e n))
      (found : decision_with conn' e.event_id ≡ some (decision_row e payload n)) where
    Checked-Rests :
        (x : String × Option String × ScalarValue)
        → Checked codec conn e payload.decision_boundary x
        → Rests codec conn' e.event_id x.0 x.1 x.2
    Checked-Rests (input_key, version_id, value) h = (
      decision_row e payload n,
      found,
      RestsOn-grown codec grown e.account_ref payload.decision_boundary input_key version_id value
          h,
    )

    context-Rests :
        (entries : List HistoricalContextEntry)
        → All (Checked codec conn e payload.decision_boundary) (context_references entries)
        → All (ContextRests codec conn') (map (context_row codec e) entries)
    context-Rests [] h = tt
    context-Rests (entry ∷ entries) h = elim (Bool-cases (str_eq entry.availability "available")) [
      | inl yes_available ↦
          let both = rw yes_available at h in
          (
            (λ _. (
              entry.value,
              rw yes_available refl,
              Checked-Rests (entry.input_key, entry.evidence_version_id, entry.value) both.0,
            )),
            context-Rests entries both.1,
          )
      | inr not_available ↦ (
        (λ available.
            absurd (cc ((str_eq_iff entry.availability "available").1 available, not_available))),
        context-Rests entries (rw not_available at h),
      )
    ]

    consumed-Rests :
        (inputs : List ConsumedInput)
        → All
            (Checked codec conn e payload.decision_boundary)
            (map (λ (c : ConsumedInput). (c.input_key, some c.evidence_version_id, c.value)) inputs)
        → All (ConsumedRests codec conn') (map (consumed_row codec e) inputs)
    consumed-Rests [] h = tt
    consumed-Rests (used ∷ inputs) h = (
      (
        used.value,
        refl,
        Checked-Rests (used.input_key, some used.evidence_version_id, used.value) h.0,
      ),
      consumed-Rests inputs h.1,
    )

  module _ (accounts : List AccountRow) (n : ℕ) where
    abbrev OldRests : Ledger → Type 0
    OldRests c =
        All (ContextRests codec c) conn.decision_context
        × All (ConsumedRests codec c) conn.decision_consumed_inputs

    -- What the step knows of the ledger behind it.
    abbrev Step : Ledger → Type 0
    Step c = OldRests c × Grows conn c (event_row codec e n)

    project_artifact-IsSealed :
        (artifact : LogicArtifact)
        → Step (project_artifact codec (inserted codec conn e accounts n) e artifact)
        → IsSealed codec (project_artifact codec (inserted codec conn e accounts n) e artifact)
    unfolding project_artifact
    project_artifact-IsSealed artifact =
        elim (Option-cases
          (artifact_with (inserted codec conn e accounts n) (codec.artifact_hash artifact))) [
            | inl missing ↦
                rw (missing, project_artifact) (λ s. record { context = s.0.0; consumed = s.0.1 })
            | inr (found, is_found) ↦
                rw (is_found, project_artifact) (λ s. record { context = s.0.0; consumed = s.0.1 })
          ]

    project_decision-IsSealed :
        (payload : DecisionRecordedPayload)
        → decision_with conn e.event_id ≡ none
        → validate_references codec conn e (decision_recorded payload) ≡ ok tt
        → Step (project_decision codec (inserted codec conn e accounts n) e payload n)
        → IsSealed codec (project_decision codec (inserted codec conn e accounts n) e payload n)
    unfolding validate_references project_decision
    project_decision-IsSealed payload unseen v ((context, consumed), grown) =
        let p : DecisionRow → Bool = λ d. str_eq d.decision_event_id e.event_id in
        let row = decision_row e payload n in
        let c = project_decision codec (inserted codec conn e accounts n) e payload n in
        let found : decision_with c e.event_id ≡ some row =
          rw
            (
              select-append p conn.decisions (row ∷ []),
              first-none-append (select p conn.decisions) (select p (row ∷ [])) unseen,
              str_eq_refl e.event_id,
            )
            refl in
        let (entries, used) =
          All-split (Checked codec conn e payload.decision_boundary)
            (context_references payload.historical_context)
            (map (λ (i : ConsumedInput). (i.input_key, some i.evidence_version_id, i.value))
              payload.consumed_inputs)
            (validate_decision-Checked codec conn e payload v) in
        record {
          context =
              All-append (ContextRests codec c) conn.decision_context
                (map (context_row codec e) payload.historical_context) context
                (context-Rests payload grown found payload.historical_context entries);
          consumed =
              All-append (ConsumedRests codec c) conn.decision_consumed_inputs
                (map (consumed_row codec e) payload.consumed_inputs) consumed
                (consumed-Rests payload grown found payload.consumed_inputs used);
        }

    -- A projection that writes neither of the two tables.
    quiet :
        (c : Ledger) {conn' : Ledger}
        → ◌≡◌ {A = Result IngestError Ledger} (ok c) (ok conn')
        → (Step c → IsSealed codec c)
        → Step conn'
        → IsSealed codec conn'
    quiet c h f = subst (λ d. Step d → IsSealed codec d) (ok_inj h) f

    project-IsSealed :
        (p : Payload) {conn' : Ledger}
        → decision_with conn e.event_id ≡ none
        → validate_references codec conn e p ≡ ok tt
        → project codec (inserted codec conn e accounts n) e p n ≡ ok conn'
        → Step conn'
        → IsSealed codec conn'
    unfolding project project_evidence project_outcome_v2
    project-IsSealed (logic_artifact_registered artifact) unseen v h =
        quiet _ h (project_artifact-IsSealed artifact)
    project-IsSealed (account_discovered name domain) unseen v h =
        quiet _ h (λ s. record { context = s.0.0; consumed = s.0.1 })
    project-IsSealed (evidence_recorded items) unseen v h =
        quiet _ h (λ s. record { context = s.0.0; consumed = s.0.1 })
    project-IsSealed (decision_recorded payload) unseen v h =
        quiet _ h (project_decision-IsSealed payload unseen v)
    project-IsSealed (persona_selected payload) unseen v h =
        quiet _ h (λ s. record { context = s.0.0; consumed = s.0.1 })
    project-IsSealed (action_recorded payload) unseen v h =
        quiet _ h (λ s. record { context = s.0.0; consumed = s.0.1 })
    project-IsSealed (outcome_evaluated payload) unseen v h =
        quiet _ h (λ s. record { context = s.0.0; consumed = s.0.1 })
    project-IsSealed (outcome_evaluated_v2 payload) unseen v h =
        ok_inversion
          (map_err policy_failure (
            source_claim_problems codec.fromisoformat (inserted codec conn e accounts n)
              e.account_ref (some payload.observed_at) payload.source_action_event_id
              payload.source_decision_event_id n))
          h λ _ _ written. quiet _ written (λ s. record { context = s.0.0; consumed = s.0.1 })
    project-IsSealed (outcome_attributed payload) unseen v h =
        quiet _ h (λ s. record { context = s.0.0; consumed = s.0.1 })

-- In a reachable ledger, each available entry of a preserved context and each consumed input rests on a
-- stored evidence version of the decision's account and of the type of its key, which was available no
-- later than the decision's boundary and has the preserved value: no hindsight enters a decision.
pub decisions-IsSealed :
    (codec : Codec) {conn : Ledger} → Reachable codec conn → IsSealed codec conn
decisions-IsSealed codec =
    reachable_induction codec (IsSealed codec) (record { context = tt; consumed = tt })
      λ conn r h e conn' accepted.
        let (accounts, projected, _) = Accepted-projects codec conn e conn' accepted in
        let grown = Accepted-Grows codec conn e conn' accepted in
        project-IsSealed codec conn e accounts (next_sequence conn) e.payload {conn' = conn'}
          (unrecorded-decision conn e.event_id (Accepted-IsNew codec conn e conn' accepted).fresh
            (rows-IsReferenced codec r).decisions)
          accepted.references projected (old-rests codec grown h, grown)
