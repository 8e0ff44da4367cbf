-- ===== src/Collector/Linked.antt =====
-- `_validate_decision_reference` and `_validate_action_reference` of collector/projections.py, and the
-- rows that are stored behind them.
use flight_recorder.Base.{
  ℕ, ◌≡◌, true, false, not, some, List, [], ◌∷◌, first-select-append, All, All-append, All-weaken,
  String, str_eq, str_eq_iff, Result, ok, ok_inversion, ok_inj, map_err, raise_if-passed,
  raise_if-not_raised, Option-cases, inl, inr,
}
use mathlib.Core.Path.{subst}
use flight_recorder.Base.Text.{str_lt}
use flight_recorder.Evaluator.{LogicArtifact}
use flight_recorder.Ledger.{
  Ledger, AccountRow, EventRow, DecisionRow, PersonaRow, ActionRow, OutcomeRow,
}
use flight_recorder.Ledger.Growth.{Grows}
use flight_recorder.Attribution.Attribute.{source_claim_problems}
use flight_recorder.Collector.Envelope.{
  Codec, Envelope, IngestError, Payload, logic_artifact_registered, account_discovered,
  evidence_recorded, decision_recorded, persona_selected, action_recorded, outcome_evaluated,
  outcome_evaluated_v2, outcome_attributed, policy_failure,
}
use flight_recorder.Collector.References.{
  or_rejected, or_rejected-found, reject_if, decision_with, action_with, artifact_with,
  validate_decision_reference, validate_action_reference,
}
use flight_recorder.Collector.Project.{
  project, project_artifact, project_evidence, project_decision, project_outcome_v2, persona_row,
  action_row, outcome_row, outcome_v2_row,
}
use flight_recorder.Collector.Service.{validate_references, next_sequence}
use flight_recorder.Collector.Appends.{inserted}
use flight_recorder.Collector.Written.{Accepted-Grows, Accepted-projects}
use flight_recorder.Collector.Reachable.{Reachable, reachable_induction}

-- The selection is for a stored decision of its account.
abbrev pub PersonaLinked : Ledger → PersonaRow → Type 0
PersonaLinked conn r =
    (d : DecisionRow) × (decision_with conn r.decision_event_id ≡ some d)
    × (d.account_ref ≡ r.account_ref)

-- The action is for a stored decision of its account, whose boundary is not after the action.
abbrev pub ActionLinked : Ledger → ActionRow → Type 0
ActionLinked conn r =
    (d : DecisionRow) × (decision_with conn r.decision_event_id ≡ some d)
    × (d.account_ref ≡ r.account_ref)
    × (str_lt r.occurred_at d.decision_boundary ≡ false)

-- The action that an outcome names is stored, of the outcome's account, and before the outcome.
abbrev pub OutcomeLinked : Ledger → OutcomeRow → Type 0
OutcomeLinked conn r =
    (id : String)
    → r.action_event_id ≡ some id
    → (a : ActionRow) × (action_with conn id ≡ some a)
      × (a.account_ref ≡ r.account_ref)
      × (str_lt a.occurred_at r.occurred_at ≡ true)

-- The rows of a ledger are linked in a ledger, which may be an earlier one.
pub record AllLinked (conn c : Ledger) : Type 0 where
  pub persona_selections : All (PersonaLinked conn) c.persona_selections
  pub actions : All (ActionLinked conn) c.actions
  pub outcomes : All (OutcomeLinked conn) c.outcomes

module _ {conn conn' : Ledger} {e : EventRow} (grown : Grows conn conn' e) where
  decision_with-grown :
      (id : String) {d : DecisionRow}
      → decision_with conn id ≡ some d
      → decision_with conn' id ≡ some d
  decision_with-grown id h = rw (grown.decisions.is_append) (
      first-select-append (λ (d : DecisionRow). str_eq d.decision_event_id id) conn.decisions
        grown.decisions.added h)

  action_with-grown :
      (id : String) {a : ActionRow} → action_with conn id ≡ some a → action_with conn' id ≡ some a
  action_with-grown id h = rw (grown.actions.is_append) (
      first-select-append (λ (a : ActionRow). str_eq a.action_event_id id) conn.actions
        grown.actions.added h)

  AllLinked-grown : {c : Ledger} → AllLinked conn c → AllLinked conn' c
  AllLinked-grown {c} h = record {
    persona_selections =
        All-weaken (PersonaLinked conn) (PersonaLinked conn')
          (λ r (d, found, account). (d, decision_with-grown r.decision_event_id found, account))
          c.persona_selections h.persona_selections;
    actions =
        All-weaken (ActionLinked conn) (ActionLinked conn')
          (λ r (d, found, account, order).
            (d, decision_with-grown r.decision_event_id found, account, order))
          c.actions h.actions;
    outcomes =
        All-weaken (OutcomeLinked conn) (OutcomeLinked conn')
          (λ r linked id named.
            let (a, found, account, order) = linked id named in
            (a, action_with-grown id found, account, order))
          c.outcomes h.outcomes;
  }

module _ (conn : Ledger) (e : Envelope) where
  validate_decision_reference-linked :
      (id : String)
      → validate_decision_reference conn e id ≡ ok tt
      → (d : DecisionRow) × (decision_with conn id ≡ some d)
        × (d.account_ref ≡ e.account_ref)
        × (str_lt e.occurred_at d.decision_boundary ≡ false)
  unfolding validate_decision_reference
  validate_decision_reference-linked id h =
      ok_inversion (or_rejected (decision_with conn id) "unknown_decision_event_id") h λ d e₀ h₀.
        ok_inversion (reject_if (not (str_eq d.account_ref e.account_ref)) _) h₀ λ _ e₁ h₁. (
          d,
          or_rejected-found (decision_with conn id) _ e₀,
          (str_eq_iff d.account_ref e.account_ref).0
              (raise_if-passed (str_eq d.account_ref e.account_ref) _ e₁),
          raise_if-not_raised (str_lt e.occurred_at d.decision_boundary) _ h₁,
        )

  validate_action_reference-linked :
      (id : String)
      → validate_action_reference conn e id ≡ ok tt
      → (a : ActionRow) × (action_with conn id ≡ some a)
        × (a.account_ref ≡ e.account_ref)
        × (str_lt a.occurred_at e.occurred_at ≡ true)
  unfolding validate_action_reference
  validate_action_reference-linked id h =
      ok_inversion (or_rejected (action_with conn id) "unknown_action_event_id") h λ a e₀ h₀.
        ok_inversion (reject_if (not (str_eq a.account_ref e.account_ref)) _) h₀ λ _ e₁ h₁. (
          a,
          or_rejected-found (action_with conn id) _ e₀,
          (str_eq_iff a.account_ref e.account_ref).0
              (raise_if-passed (str_eq a.account_ref e.account_ref) _ e₁),
          raise_if-passed (str_lt a.occurred_at e.occurred_at) _ h₁,
        )

  module _ (codec : Codec) (accounts : List AccountRow) (n : ℕ) where
    project_artifact-AllLinked :
        (artifact : LogicArtifact)
        → AllLinked conn conn
        → AllLinked conn (project_artifact codec (inserted codec conn e accounts n) e artifact)
    unfolding project_artifact
    project_artifact-AllLinked artifact =
        elim (Option-cases
          (artifact_with (inserted codec conn e accounts n) (codec.artifact_hash artifact))) [
            | inl missing ↦
                rw (missing, project_artifact)
                  (λ h. record {
                    persona_selections = h.persona_selections;
                    actions = h.actions;
                    outcomes = h.outcomes;
                  })
            | inr (found, is_found) ↦
                rw (is_found, project_artifact)
                  (λ h. record {
                    persona_selections = h.persona_selections;
                    actions = h.actions;
                    outcomes = h.outcomes;
                  })
          ]

    quiet :
        (c : Ledger) {conn' : Ledger}
        → ◌≡◌ {A = Result IngestError Ledger} (ok c) (ok conn')
        → AllLinked conn c
        → AllLinked conn conn'
    quiet c h linked = subst (AllLinked conn) (ok_inj h) linked

    project-AllLinked :
        (p : Payload) {conn' : Ledger}
        → validate_references codec conn e p ≡ ok tt
        → AllLinked conn conn
        → project codec (inserted codec conn e accounts n) e p n ≡ ok conn'
        → AllLinked conn conn'
    unfolding project project_evidence project_decision project_outcome_v2 validate_references
    project-AllLinked (logic_artifact_registered artifact) v old h =
        quiet _ h (project_artifact-AllLinked artifact old)
    project-AllLinked (account_discovered name domain) v old h = quiet _ h (record {
      persona_selections = old.persona_selections;
      actions = old.actions;
      outcomes = old.outcomes;
    })
    project-AllLinked (evidence_recorded items) v old h = quiet _ h (record {
      persona_selections = old.persona_selections;
      actions = old.actions;
      outcomes = old.outcomes;
    })
    project-AllLinked (decision_recorded payload) v old h = quiet _ h (record {
      persona_selections = old.persona_selections;
      actions = old.actions;
      outcomes = old.outcomes;
    })
    project-AllLinked (persona_selected payload) v old h = quiet _ h (record {
      persona_selections =
          All-append (PersonaLinked conn) conn.persona_selections (persona_row e payload ∷ [])
            old.persona_selections
            (
              let (d, found, account, _) =
                    validate_decision_reference-linked payload.decision_event_id v in
                  (d, found, account),
              tt,
            );
      actions = old.actions;
      outcomes = old.outcomes;
    })
    project-AllLinked (action_recorded payload) v old h = quiet _ h (record {
      persona_selections = old.persona_selections;
      actions =
          All-append (ActionLinked conn) conn.actions (action_row e payload ∷ []) old.actions
            (validate_decision_reference-linked payload.decision_event_id v, tt);
      outcomes = old.outcomes;
    })
    project-AllLinked (outcome_evaluated payload) v old h = quiet _ h (record {
      persona_selections = old.persona_selections;
      actions = old.actions;
      outcomes =
          All-append (OutcomeLinked conn) conn.outcomes (outcome_row e payload ∷ []) old.outcomes (
            (λ id named.
                let checked : validate_action_reference conn e payload.action_event_id ≡ ok tt =
                  v in
                let same : payload.action_event_id ≡ id = cc in
                validate_action_reference-linked id (rw same at checked)),
            tt,
          );
    })
    project-AllLinked (outcome_evaluated_v2 payload) v old h =
        ok_inversion
          (map_err policy_failure (
            source_claim_problems codec.fromisoformat (inserted codec conn e accounts n)
              e.account_ref (some payload.observed_at) payload.source_action_event_id
              payload.source_decision_event_id n))
          h
          λ (action_reason, decision_reason) _ written. quiet _ written (record {
            persona_selections = old.persona_selections;
            actions = old.actions;
            outcomes =
                All-append (OutcomeLinked conn) conn.outcomes
                  (outcome_v2_row e payload action_reason decision_reason ∷ []) old.outcomes
                  ((λ id named. cc), tt);
          })
    project-AllLinked (outcome_attributed payload) v old h = quiet _ h (record {
      persona_selections = old.persona_selections;
      actions = old.actions;
      outcomes = old.outcomes;
    })

-- In a reachable ledger, each persona selection and each action is for a stored decision of its account,
-- no action is before the boundary of its decision, and the action that an outcome of the first version
-- names is a stored one of its account, strictly before it.
pub rows-AllLinked : (codec : Codec) {conn : Ledger} → Reachable codec conn → AllLinked conn conn
rows-AllLinked codec =
    reachable_induction codec (λ conn. AllLinked conn conn)
      (record { persona_selections = tt; actions = tt; outcomes = tt })
      λ conn r h e conn' accepted.
        let (accounts, projected, _) = Accepted-projects codec conn e conn' accepted in
        AllLinked-grown (Accepted-Grows codec conn e conn' accepted) (
          project-AllLinked conn e codec accounts (next_sequence conn) e.payload {conn' = conn'}
            accepted.references h projected)
