-- ===== src/Collector/Replayed.antt =====
-- The collector's ledger as replay/reconstruct.py reads it, with its refusal of evidence from after the
-- boundary.
use flight_recorder.Base.{
  ℕ, ◌≡◌, refl, sym, ◌∙◌, ◌⊎◌, true, false, not, Option, none, some, List, [], ◌∷◌, map, All,
  All-append, Member, member-All, String, str_eq, str_eq_iff, ok, ok_inversion, ok_inj, map_err,
  and_split, Option-cases, Bool-cases, inl, inr, ◌&&◌, arith,
}
use mathlib.Core.Path.{subst}
use mathlib.Core.Option.{some_inj}
use flight_recorder.Base.Datetime.{Date}
use flight_recorder.Rules.{ScalarValue}
use flight_recorder.Evaluator.{LogicArtifact}
use flight_recorder.Ledger.{Ledger, AccountRow, DecisionRow, EvidenceRow, ContextRow}
use flight_recorder.Attribution.Attribute.{source_claim_problems}
use flight_recorder.Replay.Records.{EvidenceVersionRow, LaterVersions}
use flight_recorder.Replay.Load.{
  evidence_row, check_available, load_evidence, load_evidence_version, is_after,
}
use flight_recorder.Replay.Load.Sealed.{evidence_version-row}
use flight_recorder.Collector.Envelope.{
  Codec, Envelope, HistoricalContextEntry, DecisionRecordedPayload, Payload,
  logic_artifact_registered, account_discovered, evidence_recorded, decision_recorded,
  persona_selected, action_recorded, outcome_evaluated, outcome_evaluated_v2, outcome_attributed,
  policy_failure,
}
use flight_recorder.Collector.References.{artifact_with, decision_with}
use flight_recorder.Collector.Project.{
  project, project_artifact, project_evidence, project_decision, project_outcome_v2, context_row,
}
use flight_recorder.Collector.Service.{next_sequence}
use flight_recorder.Collector.Attributed.{is_some}
use flight_recorder.Collector.Contract.{Reader, valid_decision, valid_payload}
use flight_recorder.Collector.Models.{valid_entry, all_of, is_null}
use flight_recorder.Collector.Keys.{valid_envelope-payload}
use flight_recorder.Collector.Appends.{inserted}
use flight_recorder.Collector.Written.{Accepted-projects}
use flight_recorder.Collector.Sealed.{ContextRests}
use flight_recorder.Collector.Sealed.Decisions.{decisions-IsSealed}
use flight_recorder.Collector.Submitted.{Submitted, Submitted-Reachable, submitted_induction}

-- A preserved entry is available, or names no evidence.
abbrev pub IsCoherent : ContextRow → Type 0
IsCoherent row = (row.availability ≡ "available") ⊎ (row.evidence_version_id ≡ none)

module _ (codec : Codec) (conn : Ledger) (e : Envelope) where
  valid_entry-IsCoherent :
      (entry : HistoricalContextEntry)
      → valid_entry entry ≡ true
      → IsCoherent (context_row codec e entry)
  unfolding valid_entry
  valid_entry-IsCoherent entry h = elim (Bool-cases (str_eq entry.availability "available")) [
    | inl same ↦ inl ((str_eq_iff entry.availability "available").0 same)
    | inr differs ↦
        let rest =
          (and_split _
            (str_eq entry.availability "unavailable"
              && (not (is_some entry.evidence_version_id) && is_null entry.value))
            (rw (differs, valid_entry) at h)).1 in
        let none_named = (and_split (str_eq entry.availability "unavailable") _ rest).1 in
        let unnamed =
          (and_split (not (is_some entry.evidence_version_id)) (is_null entry.value)
            none_named).0 in
        elim (Option-cases entry.evidence_version_id) [
          | inl absent ↦ inr absent
          | inr (id, named) ↦ absurd (cc (rw named at unnamed))
        ]
  ]

  entries-IsCoherent :
      (entries : List HistoricalContextEntry)
      → all_of valid_entry entries ≡ true
      → All IsCoherent (map (context_row codec e) entries)
  entries-IsCoherent [] h = tt
  entries-IsCoherent (entry ∷ entries) h =
      let (here, rest) = and_split (valid_entry entry) (all_of valid_entry entries) h in
      (valid_entry-IsCoherent entry here, entries-IsCoherent entries rest)

  valid_decision-entries :
      (reader : Reader) (payload : DecisionRecordedPayload)
      → valid_decision reader payload ≡ true
      → all_of valid_entry payload.historical_context ≡ true
  unfolding valid_decision
  valid_decision-entries reader payload h = ground arith

  module _ (accounts : List AccountRow) (n : ℕ) where
    project_artifact-context :
        (artifact : LogicArtifact)
        → (project_artifact codec (inserted codec conn e accounts n) e artifact).decision_context
          ≡ conn.decision_context
    unfolding project_artifact
    project_artifact-context artifact =
        elim (Option-cases
          (artifact_with (inserted codec conn e accounts n) (codec.artifact_hash artifact))) [
            | inl missing ↦ rw (missing, project_artifact) refl
            | inr (found, is_found) ↦ rw (is_found, project_artifact) refl
          ]

    abbrev Coherent : Ledger → Type 0
    Coherent c = All IsCoherent c.decision_context

    project-Coherent :
        (reader : Reader) (p : Payload) {conn' : Ledger}
        → valid_payload reader e p ≡ true
        → Coherent conn
        → project codec (inserted codec conn e accounts n) e p n ≡ ok conn'
        → Coherent conn'
    unfolding project project_evidence project_decision project_outcome_v2 valid_payload
    project-Coherent reader (logic_artifact_registered artifact) valid old h =
        subst Coherent (ok_inj h) (rw (project_artifact-context artifact) old)
    project-Coherent reader (account_discovered name domain) valid old h =
        subst Coherent (ok_inj h) old
    project-Coherent reader (evidence_recorded items) valid old h = subst Coherent (ok_inj h) old
    project-Coherent reader (decision_recorded payload) valid old h = subst Coherent (ok_inj h) (
        All-append IsCoherent conn.decision_context
          (map (context_row codec e) payload.historical_context) old
          (entries-IsCoherent payload.historical_context (
            valid_decision-entries reader payload
              (and_split (valid_decision reader payload) _ valid).0)))
    project-Coherent reader (persona_selected payload) valid old h = subst Coherent (ok_inj h) old
    project-Coherent reader (action_recorded payload) valid old h = subst Coherent (ok_inj h) old
    project-Coherent reader (outcome_evaluated payload) valid old h = subst Coherent (ok_inj h) old
    project-Coherent reader (outcome_evaluated_v2 payload) valid old h =
        ok_inversion
          (map_err policy_failure (
            source_claim_problems codec.fromisoformat (inserted codec conn e accounts n)
              e.account_ref (some payload.observed_at) payload.source_action_event_id
              payload.source_decision_event_id n))
          h λ _ _ written. subst Coherent (ok_inj written) old
    project-Coherent reader (outcome_attributed payload) valid old h = subst Coherent (ok_inj h) old

context-IsCoherent :
    (reader : Reader) (codec : Codec) {conn : Ledger}
    → Submitted reader codec conn
    → All IsCoherent conn.decision_context
context-IsCoherent reader codec =
    submitted_induction reader codec (λ conn. All IsCoherent conn.decision_context) tt
      λ conn r old e valid conn' accepted.
        let (accounts, projected, _) = Accepted-projects codec conn e conn' accepted in
        project-Coherent codec conn e accounts (next_sequence conn) reader e.payload {conn' = conn'}
          (valid_envelope-payload reader e valid) old projected

-- In a ledger that bodies given to `ingest_json` lead to, whatever evidence replay loads for a preserved
-- entry of a stored decision passes its check against the decision's boundary.
pub check_available-passes :
    (reader : Reader) (codec : Codec) (date_fromisoformat : String → Option Date)
    (loads_scalar : String → Option ScalarValue) (later : LaterVersions) {conn : Ledger}
    → Submitted reader codec conn
    → (row : ContextRow) (d : DecisionRow) (evidence : Option EvidenceVersionRow)
    → Member row conn.decision_context
    → decision_with conn row.decision_event_id ≡ some d
    → load_evidence date_fromisoformat loads_scalar later conn row.evidence_version_id ≡ ok evidence
    → check_available evidence d.decision_boundary ≡ ok tt
unfolding load_evidence check_available
check_available-passes reader codec date_fromisoformat loads_scalar later {conn} s row d evidence
      member is_decision loaded =
    elim (Option-cases row.evidence_version_id) [
      | inl unnamed ↦
          let nothing : ok none ≡ ok evidence = rw unnamed at loaded in
          subst (λ x. check_available x d.decision_boundary ≡ ok tt) (ok_inj nothing) refl
      | inr (id, named) ↦
          let available : row.availability ≡ "available" =
            elim (member-All IsCoherent conn.decision_context (context-IsCoherent reader codec s)
              member) [
                | inl is_available ↦ is_available
                | inr unnamed ↦ absurd (cc (sym named ∙ unnamed))
              ] in
          let (value, text, (decision, found, rests)) =
            member-All (ContextRests codec conn) conn.decision_context
              (decisions-IsSealed codec (Submitted-Reachable reader codec s)).context member
              available in
          ok_inversion (load_evidence_version date_fromisoformat loads_scalar later conn id)
            (rw (named, load_evidence) at loaded)
            λ version is_version k.
              let (stored, is_stored, same_instant) =
                evidence_version-row date_fromisoformat loads_scalar later conn d.decision_boundary
                  id version (evidence_row conn id) refl is_version in
              let there : evidence_row conn id ≡ some rests.evidence =
                rw named at rests.is_stored in
              let same_evidence : rests.evidence ≡ stored = some_inj.0 (sym there ∙ is_stored) in
              let same_decision : decision ≡ d = some_inj.0 (sym found ∙ is_decision) in
              let in_time : is_after version.available_at d.decision_boundary ≡ false =
                subst (λ t. is_after t d.decision_boundary ≡ false) same_instant
                  (subst (λ (r : EvidenceRow). is_after r.available_at d.decision_boundary ≡ false)
                    same_evidence
                    (subst
                      (λ (x : DecisionRow).
                        is_after rests.evidence.available_at x.decision_boundary ≡ false)
                      same_decision rests.not_after)) in
              subst (λ x. check_available x d.decision_boundary ≡ ok tt) (ok_inj k)
                (rw (check_available, in_time) refl)
    ]
