-- ===== src/Attribution/Invalid.antt =====
-- When an outcome of attribution/policy.py has no valid explicit reference.
use mathlib.Core.Option.{some_inj}
use flight_recorder.Base.{
  ℕ, ◌≡◌, sym, ◌∙◌, ap, false, Option, none, some, String, str_eq, str_eq_iff, ok,
}
use flight_recorder.Base.Int.{ℤ}
use flight_recorder.Ledger.{Ledger}
use flight_recorder.Attribution.Records.{OutcomeClaims, ActionCandidate, DecisionClaim, Problem}
use flight_recorder.Attribution.Snapshot.{load_action, load_decision}
use flight_recorder.Attribution.Eligibility.{
  action_problem-iff_IsEligible, decision_problem-iff_IsResolvable,
}
use flight_recorder.Attribution.Standing.{
  ClaimsAction, ClaimsDecision, both, action_alone, decision_alone, NotDirect,
}
use flight_recorder.Attribution.Verdicts.{action_judged, decision_judged}

module _ (fromisoformat : String → Option ℤ) (conn : Ledger) (outcome : OutcomeClaims)
    (cutoff : ℕ) where
  -- A claim with a problem is no direct reference.
  action_clash :
      (claim : String) (problem : Problem) (a : ActionCandidate)
      → outcome.source_action_event_id ≡ some claim
      → action_judged fromisoformat conn outcome cutoff claim ≡ ok (some problem)
      → ¬ ClaimsAction fromisoformat conn outcome cutoff a
  action_clash claim problem a e h ca =
      let same : claim ≡ ca.id = some_inj.0 (sym e ∙ ca.claimed) in
      let fine =
        (action_problem-iff_IsEligible fromisoformat a outcome.account_ref
            outcome.observation_instant).1
          ca.is_eligible in
      let judged = rw ca.loaded at (rw same at h) in let clash = sym fine ∙ judged in cc

  decision_clash :
      (claim : String) (problem : Problem) (d : DecisionClaim)
      → outcome.source_decision_event_id ≡ some claim
      → decision_judged fromisoformat conn outcome cutoff claim ≡ ok (some problem)
      → ¬ ClaimsDecision fromisoformat conn outcome cutoff d
  decision_clash claim problem d e h cd =
      let same : claim ≡ cd.id = some_inj.0 (sym e ∙ cd.claimed) in
      let fine =
        (decision_problem-iff_IsResolvable fromisoformat d outcome.account_ref
            outcome.observation_instant).1
          cd.is_resolvable in
      let judged = rw cd.loaded at (rw same at h) in let clash = sym fine ∙ judged in cc

  pub bad_action-NotDirect :
      (claim : String) (problem : Problem)
      → outcome.source_action_event_id ≡ some claim
      → action_judged fromisoformat conn outcome cutoff claim ≡ ok (some problem)
      → NotDirect fromisoformat conn outcome cutoff
  bad_action-NotDirect claim problem e h reason x y (both a d ca cd _ _ _ _) =
      action_clash claim problem a e h ca
  bad_action-NotDirect claim problem e h reason x y (action_alone a ca _ _ _ _) =
      action_clash claim problem a e h ca
  bad_action-NotDirect claim problem e h reason x y (decision_alone d n _ _ _ _) =
      let clash = sym n ∙ e in cc

  pub bad_decision-NotDirect :
      (claim : String) (problem : Problem)
      → outcome.source_decision_event_id ≡ some claim
      → decision_judged fromisoformat conn outcome cutoff claim ≡ ok (some problem)
      → NotDirect fromisoformat conn outcome cutoff
  bad_decision-NotDirect claim problem e h reason x y (both a d ca cd _ _ _ _) =
      decision_clash claim problem d e h cd
  bad_decision-NotDirect claim problem e h reason x y (action_alone a ca n _ _ _) =
      let clash = sym n ∙ e in cc
  bad_decision-NotDirect claim problem e h reason x y (decision_alone d n cd _ _ _) =
      decision_clash claim problem d e h cd

  pub no_claims-NotDirect :
      outcome.source_action_event_id ≡ none
      → outcome.source_decision_event_id ≡ none
      → NotDirect fromisoformat conn outcome cutoff
  no_claims-NotDirect e f reason x y (both a d ca cd _ _ _ _) = let clash = sym e ∙ ca.claimed in cc
  no_claims-NotDirect e f reason x y (action_alone a ca _ _ _ _) =
      let clash = sym e ∙ ca.claimed in cc
  no_claims-NotDirect e f reason x y (decision_alone d n cd _ _ _) =
      let clash = sym f ∙ cd.claimed in cc

  -- Two valid claims that name different decisions are no direct reference.
  pub disagree-NotDirect :
      (a : ActionCandidate) (d : DecisionClaim)
      → ClaimsAction fromisoformat conn outcome cutoff a
      → ClaimsDecision fromisoformat conn outcome cutoff d
      → str_eq a.decision_event_id d.decision_event_id ≡ false
      → NotDirect fromisoformat conn outcome cutoff
  disagree-NotDirect a d ca cd ne reason x y (both a' d' ca' cd' agree _ _ _) =
      let i : ca.id ≡ ca'.id = some_inj.0 (sym ca.claimed ∙ ca'.claimed) in
      let j : cd.id ≡ cd'.id = some_inj.0 (sym cd.claimed ∙ cd'.claimed) in
      let p : a ≡ a' =
        some_inj.0 (sym ca.loaded ∙ ap (λ k. load_action conn k cutoff) i ∙ ca'.loaded) in
      let q : d ≡ d' =
        some_inj.0 (sym cd.loaded ∙ ap (λ k. load_decision conn k cutoff) j ∙ cd'.loaded) in
      let same : a.decision_event_id ≡ d.decision_event_id =
        ap (λ (z : ActionCandidate). z.decision_event_id) p
        ∙ agree
        ∙ ap (λ (z : DecisionClaim). z.decision_event_id) (sym q) in
      let clash = sym ne ∙ (str_eq_iff a.decision_event_id d.decision_event_id).1 same in cc
  disagree-NotDirect a d ca cd ne reason x y (action_alone a' ca' n _ _ _) =
      let clash = sym n ∙ cd.claimed in cc
  disagree-NotDirect a d ca cd ne reason x y (decision_alone d' n cd' _ _ _) =
      let clash = sym n ∙ ca.claimed in cc
