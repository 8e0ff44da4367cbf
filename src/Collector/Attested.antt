-- ===== src/Collector/Attested.antt =====
-- `_validate_attribution` of collector/projections.py, and the attributions that are stored behind it.
use flight_recorder.Base.{
  ◌≡◌, refl, ap, true, Option, none, some, List, [], ◌∷◌, All, All-append, All-weaken, Option-cases,
  inl, inr, and_split, map_err-ok, raise_if-passed, ok, ok_inversion, ok_inj, map_err, String,
  str_eq, str_eq_iff, ℕ,
}
use flight_recorder.Base.Int.{eqb_ℤ, eqb_ℤ_sound}
use mathlib.Core.Path.{subst}
use flight_recorder.Rules.{int_value}
use flight_recorder.Ledger.{Ledger, AccountRow, StoredAttribution}
use flight_recorder.Attribution.Records.{AttributionResult}
use flight_recorder.Attribution.Attribute.{attribute, source_claim_problems}
use flight_recorder.Attribution.Stable.Policy.{attribute-grown}
use flight_recorder.Collector.Envelope.{
  Envelope, Codec, OutcomeAttributedPayload, Payload, logic_artifact_registered, account_discovered,
  evidence_recorded, decision_recorded, persona_selected, action_recorded, outcome_evaluated,
  outcome_evaluated_v2, outcome_attributed, policy_failure,
}
use flight_recorder.Collector.References.{opt_str_eq}
use flight_recorder.Collector.Attributed.{
  agrees, attribution_failure, validate_attributed_outcome, validate_operation,
  validate_attribution_supersession, validate_resolved_action, validate_resolved_decision,
  validate_recomputed, validate_attribution,
}
use flight_recorder.Collector.Service.{validate_references, next_sequence}
use flight_recorder.Collector.Project.{
  project, project_artifact, project_evidence, project_decision, project_outcome_v2,
  attribution_row,
}
use flight_recorder.Collector.References.{artifact_with}
use flight_recorder.Evaluator.{LogicArtifact}
use flight_recorder.Collector.Appends.{inserted}
use flight_recorder.Collector.Written.{Accepted-IsNew, Accepted-Grows, Accepted-projects}
use flight_recorder.Collector.Recorded.{rows-IsReferenced}
use flight_recorder.Collector.Reachable.{Reachable, reachable_induction}

-- The stored columns are the fields of the policy's result.
pub record IsResult (a : StoredAttribution) (r : AttributionResult) : Type 0 where
  pub outcome_event_id : a.outcome_event_id ≡ r.outcome_event_id
  pub policy_version : a.policy_version ≡ r.policy_version
  pub method : a.method ≡ r.method
  pub window_days : a.window_days ≡ r.window_days
  pub resolved_action_event_id : a.resolved_action_event_id ≡ r.resolved_action_event_id
  pub resolved_decision_event_id : a.resolved_decision_event_id ≡ r.resolved_decision_event_id
  pub status : a.status ≡ r.status
  pub reason : a.reason ≡ r.reason

pub opt_str_eq_sound : (s t : Option String) → opt_str_eq s t ≡ true → s ≡ t
opt_str_eq_sound none none h = refl
opt_str_eq_sound none (some t) h = cc
opt_str_eq_sound (some s) none h = cc
opt_str_eq_sound (some s) (some t) h = ap some ((str_eq_iff s t).0 h)

agrees-IsResult :
    (e : Envelope) (payload : OutcomeAttributedPayload) (r : AttributionResult)
    → agrees payload r ≡ true
    → IsResult (attribution_row e payload) r
agrees-IsResult e payload r h =
    let (h₇, reason) = and_split _ (str_eq payload.reason r.reason) h in
    let (h₆, status) = and_split _ (str_eq payload.status r.status) h₇ in
    let (h₅, decision) =
      and_split _ (opt_str_eq payload.resolved_decision_event_id r.resolved_decision_event_id) h₆ in
    let (h₄, action) =
      and_split _ (opt_str_eq payload.resolved_action_event_id r.resolved_action_event_id) h₅ in
    let (h₃, window) = and_split _ (eqb_ℤ payload.window_days r.window_days) h₄ in
    let (h₂, method) = and_split _ (str_eq payload.method r.method) h₃ in
    let (outcome, version) = and_split _ (str_eq payload.policy_version r.policy_version) h₂ in
    record {
      outcome_event_id = (str_eq_iff payload.outcome_event_id r.outcome_event_id).0 outcome;
      policy_version = (str_eq_iff payload.policy_version r.policy_version).0 version;
      method = (str_eq_iff payload.method r.method).0 method;
      window_days = eqb_ℤ_sound payload.window_days r.window_days window;
      resolved_action_event_id =
          opt_str_eq_sound payload.resolved_action_event_id r.resolved_action_event_id action;
      resolved_decision_event_id =
          opt_str_eq_sound payload.resolved_decision_event_id r.resolved_decision_event_id decision;
      status = (str_eq_iff payload.status r.status).0 status;
      reason = (str_eq_iff payload.reason r.reason).0 reason;
    }

-- The policy, asked again at the stored cutoff, gives what is stored.
abbrev pub Attests : Codec → Ledger → StoredAttribution → Type 0
Attests codec conn a =
    (r : AttributionResult) × (attribute codec.fromisoformat conn a.outcome_event_id
        (int_value a.ingest_cutoff) a.policy_version
      ≡ ok r)
    × IsResult a r

module _ (codec : Codec) (conn : Ledger) (e : Envelope) where
  validate_attribution-Attests :
      (payload : OutcomeAttributedPayload)
      → validate_attribution codec conn e payload ≡ ok tt
      → Attests codec conn (attribution_row e payload)
  unfolding validate_attribution validate_recomputed
  validate_attribution-Attests payload h =
      ok_inversion (validate_attributed_outcome conn e payload.outcome_event_id) h λ _ _ h₁.
        ok_inversion (validate_operation codec conn e payload) h₁ λ _ _ h₂.
          ok_inversion (validate_attribution_supersession conn payload) h₂ λ _ _ h₃.
            ok_inversion
              (validate_resolved_action conn payload.resolved_action_event_id e.account_ref) h₃
              λ _ _ h₄.
                ok_inversion
                  (validate_resolved_decision conn payload.resolved_decision_event_id e.account_ref)
                  h₄
                  λ _ _ h₅.
                    let policy =
                      attribute codec.fromisoformat conn payload.outcome_event_id
                        (int_value payload.ingest_cutoff) payload.policy_version in
                    ok_inversion (map_err attribution_failure policy) h₅ λ r computed passed. (
                      r,
                      map_err-ok attribution_failure policy computed,
                      agrees-IsResult e payload r (raise_if-passed (agrees payload r) _ passed),
                    )

  -- What the projection writes over these tables was checked, if the old rows were.
  module _ (accounts : List AccountRow) (n : ℕ) where
    abbrev AllAttest : Ledger → Type 0
    AllAttest c = All (Attests codec conn) c.outcome_attributions

    project_artifact-attributions :
        (artifact : LogicArtifact)
        → (project_artifact codec
            (inserted codec conn e accounts n)
            e
            artifact).outcome_attributions
          ≡ conn.outcome_attributions
    unfolding project_artifact
    project_artifact-attributions artifact =
        elim (Option-cases
          (artifact_with (inserted codec conn e accounts n) (codec.artifact_hash artifact))) [
            | inl missing ↦ rw (missing, project_artifact) refl
            | inr (found, is_found) ↦ rw (is_found, project_artifact) refl
          ]

    project-AllAttest :
        (p : Payload) {conn' : Ledger}
        → validate_references codec conn e p ≡ ok tt
        → AllAttest conn
        → project codec (inserted codec conn e accounts n) e p n ≡ ok conn'
        → AllAttest conn'
    unfolding validate_references project project_evidence project_decision project_outcome_v2
    project-AllAttest (logic_artifact_registered artifact) v old h =
        subst AllAttest (ok_inj h) (rw (project_artifact-attributions artifact) old)
    project-AllAttest (account_discovered name domain) v old h = subst AllAttest (ok_inj h) old
    project-AllAttest (evidence_recorded items) v old h = subst AllAttest (ok_inj h) old
    project-AllAttest (decision_recorded payload) v old h = subst AllAttest (ok_inj h) old
    project-AllAttest (persona_selected payload) v old h = subst AllAttest (ok_inj h) old
    project-AllAttest (action_recorded payload) v old h = subst AllAttest (ok_inj h) old
    project-AllAttest (outcome_evaluated payload) v old h = subst AllAttest (ok_inj h) old
    project-AllAttest (outcome_evaluated_v2 payload) v old h =
        ok_inversion
          (map_err policy_failure (
            source_claim_problems codec.fromisoformat (inserted codec conn e accounts n)
              e.account_ref (some payload.observed_at) payload.source_action_event_id
              payload.source_decision_event_id n))
          h λ _ _ written. subst AllAttest (ok_inj written) old
    project-AllAttest (outcome_attributed payload) v old h = subst AllAttest (ok_inj h) (
        All-append (Attests codec conn) conn.outcome_attributions (attribution_row e payload ∷ [])
          old (validate_attribution-Attests payload v, tt))

-- In a reachable ledger, the policy, asked again for the outcome, the policy version and the cutoff of a
-- stored attribution, gives exactly the stored result: neither a forged result nor one that later
-- events have made stale is ever stored.
pub attributions-Attests :
    (codec : Codec) {conn : Ledger}
    → Reachable codec conn
    → All (Attests codec conn) conn.outcome_attributions
attributions-Attests codec =
    reachable_induction codec (λ conn. All (Attests codec conn) conn.outcome_attributions) tt
      λ conn r h e conn' accepted.
        let (accounts, projected, _) = Accepted-projects codec conn e conn' accepted in
        All-weaken (Attests codec conn) (Attests codec conn')
          (λ a (result, computed, is_result). (
            result,
            attribute-grown codec.fromisoformat (Accepted-Grows codec conn e conn' accepted)
                (Accepted-IsNew codec conn e conn' accepted) (rows-IsReferenced codec r).outcomes
                a.outcome_event_id (int_value a.ingest_cutoff) a.policy_version computed,
            is_result,
          ))
          conn'.outcome_attributions
          (project-AllAttest codec conn e accounts (next_sequence conn) e.payload {conn' = conn'}
            accepted.references h projected)
