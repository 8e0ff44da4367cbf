-- ===== src/Attribution/Stable/Policy.antt =====
-- `attribute` of attribution/policy.py on a ledger that has grown by one event.
use flight_recorder.Base.{
  ℕ, ◌<◌, ◌≡◌, refl, ap, ◌∙◌, true, not, ◌&&◌, ◌++◌, if◌then◌else◌, Option, none, some, String, ok,
  ok_inversion, ◌>>=◌, raise_if, All,
}
use flight_recorder.Base.Int.{ℤ}
use flight_recorder.Rules.{ScalarValue}
use flight_recorder.Ledger.{EventRow, OutcomeRow, Ledger}
use flight_recorder.Ledger.Growth.{Grows, IsNew, is_recorded}
use flight_recorder.Attribution.Records.{
  AttributionResult, OutcomeClaims, unsupported_policy_version,
}
use flight_recorder.Attribution.Claims.{is_implemented}
use flight_recorder.Attribution.Snapshot.{validate_cutoff, load_outcome}
use flight_recorder.Attribution.Attribute.{
  has_claim, is_empty, make, check_action_claim, check_decision_claim, fall_back,
  explicit_reference, resolve, attribute,
}
use flight_recorder.Attribution.Stable.Reads.{
  load_action-grown, load_account_actions-grown, load_decision-grown,
}
use flight_recorder.Attribution.Stable.Guards.{
  validate_cutoff-passed, validate_cutoff-grown, load_outcome-grown,
}

module _ (fromisoformat : String → Option ℤ) {conn conn' : Ledger} {e : EventRow}
    (grown : Grows conn conn' e) (new : IsNew conn e) where
  module _ (n : ℕ) (passed : n < e.ingest_sequence) where
    check_action_claim-grown :
        (claim : Option String) (account_ref : String) (observed : Option String)
        → check_action_claim fromisoformat conn' claim n account_ref observed
          ≡ check_action_claim fromisoformat conn claim n account_ref observed
    unfolding check_action_claim
    check_action_claim-grown none account_ref observed = refl
    check_action_claim-grown (some id) account_ref observed =
        rw (load_action-grown grown new n passed id) refl

    check_decision_claim-grown :
        (claim : Option String) (account_ref : String) (observed : Option String)
        → check_decision_claim fromisoformat conn' claim n account_ref observed
          ≡ check_decision_claim fromisoformat conn claim n account_ref observed
    unfolding check_decision_claim
    check_decision_claim-grown none account_ref observed = refl
    check_decision_claim-grown (some id) account_ref observed =
        rw (load_decision-grown grown new n passed id) refl

    fall_back-grown :
        (outcome : OutcomeClaims)
        (result : String → String → String → Option String → Option String → AttributionResult)
        → fall_back fromisoformat conn' outcome n result
          ≡ fall_back fromisoformat conn outcome n result
    unfolding fall_back
    fall_back-grown outcome result i problems =
        let same : fall_back fromisoformat conn' outcome n result problems
            ≡ fall_back fromisoformat conn outcome n result problems =
          rw (load_account_actions-grown grown new n passed outcome.account_ref) refl in
        same i

    pub resolve-grown :
        (outcome : OutcomeClaims) (id version : String)
        → resolve fromisoformat conn' outcome id n version
          ≡ resolve fromisoformat conn outcome id n version
    unfolding resolve
    resolve-grown outcome id version =
        let observed = outcome.observation_instant in
        rw
          (
            check_action_claim-grown outcome.source_action_event_id outcome.account_ref observed,
            check_decision_claim-grown outcome.source_decision_event_id outcome.account_ref
                observed,
          )
          (ap
            (λ otherwise.
              check_action_claim fromisoformat conn outcome.source_action_event_id n
                outcome.account_ref observed
              >>= λ x.
                  check_decision_claim fromisoformat conn outcome.source_decision_event_id n
                    outcome.account_ref observed
                  >>= λ y.
                      if has_claim outcome && is_empty (x.1 ++ y.1)
                      then explicit_reference (make id n version) otherwise x.0 y.0
                      else otherwise (x.1 ++ y.1))
            (fall_back-grown outcome (make id n version)))

  pub attribute-grown :
      All (λ (o : OutcomeRow). is_recorded conn.events o.outcome_event_id ≡ true) conn.outcomes
      → (id : String) (cutoff : ScalarValue) (version : String) {r : AttributionResult}
      → attribute fromisoformat conn id cutoff version ≡ ok r
      → attribute fromisoformat conn' id cutoff version ≡ ok r
  unfolding attribute
  attribute-grown referenced id cutoff version h =
      ok_inversion (raise_if (not (is_implemented version)) (unsupported_policy_version version)) h
        λ _ e₀ h₀. ok_inversion (validate_cutoff conn cutoff) h₀ λ n e₁ h₁.
          ok_inversion (load_outcome conn id n) h₁ λ outcome e₂ h₂.
            let passed = validate_cutoff-passed conn cutoff e.ingest_sequence new.newer e₁ in
            rw
              (
                e₀,
                validate_cutoff-grown grown new cutoff e₁,
                load_outcome-grown grown new referenced id n e₂,
              )
              (resolve-grown n passed outcome id version ∙ h₂)
