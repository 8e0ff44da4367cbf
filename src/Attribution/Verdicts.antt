-- ===== src/Attribution/Verdicts.antt =====
-- How `attribute` judges the two source claims of an outcome.
use mathlib.Core.Path.{subst}
use flight_recorder.Base.{
  ℕ, ◌≡◌, ◌≢◌, refl, inl, inr, Option, none, some, List, [], ◌∷◌, String, Result, ok, ok_inversion,
  ok_inj, Option-cases,
}
use flight_recorder.Base.Int.{ℤ}
use flight_recorder.Ledger.{Ledger}
use flight_recorder.Attribution.Records.{
  AttributionError, OutcomeClaims, ActionCandidate, DecisionClaim, Problem,
}
use flight_recorder.Attribution.Snapshot.{load_action, load_decision}
use flight_recorder.Attribution.Claims.{action_problem, decision_problem}
use flight_recorder.Attribution.Attribute.{check_action_claim, check_decision_claim, as_list}
use flight_recorder.Attribution.Eligibility.{
  action_problem-iff_IsEligible, decision_problem-iff_IsResolvable,
}
use flight_recorder.Attribution.Standing.{ClaimsAction, ClaimsDecision}

action_problem-none :
    (fromisoformat : String → Option ℤ) (account_ref : String) (observed : Option String)
    → action_problem fromisoformat none account_ref observed ≢ ok none
unfolding action_problem
action_problem-none fromisoformat account_ref observed h = cc

decision_problem-none :
    (fromisoformat : String → Option ℤ) (account_ref : String) (observed : Option String)
    → decision_problem fromisoformat none account_ref observed ≢ ok none
unfolding decision_problem
decision_problem-none fromisoformat account_ref observed h = cc

module _ (fromisoformat : String → Option ℤ) (conn : Ledger) (outcome : OutcomeClaims)
    (cutoff : ℕ) where
  abbrev pub action_found : String → Option ActionCandidate
  action_found id = load_action conn id cutoff

  abbrev pub action_judged : String → Result AttributionError (Option Problem)
  action_judged id =
      action_problem fromisoformat (action_found id) outcome.account_ref outcome.observation_instant

  -- How the action claim was judged: what was loaded for it, and its problems.
  pub data ActionVerdict (found : Option ActionCandidate) (problems : List Problem) : Type 0 where
    no_action_claim :
        outcome.source_action_event_id ≡ none
        → none ≡ found
        → [] ≡ problems
        → ActionVerdict found problems
    good_action :
        (c : ActionCandidate)
        → ClaimsAction fromisoformat conn outcome cutoff c
        → some c ≡ found
        → [] ≡ problems
        → ActionVerdict found problems
    bad_action :
        (id : String) (problem : Problem)
        → outcome.source_action_event_id ≡ some id
        → action_judged id ≡ ok (some problem)
        → problem ∷ [] ≡ problems
        → ActionVerdict found problems

  judge_action :
      (id : String) (problem : Option Problem) (found : Option ActionCandidate)
      → outcome.source_action_event_id ≡ some id
      → action_judged id ≡ ok problem
      → action_found id ≡ found
      → ActionVerdict found (as_list problem)
  judge_action id (some problem) found e h l = bad_action id problem e h refl
  judge_action id none none e h l = absurd (
      action_problem-none fromisoformat outcome.account_ref outcome.observation_instant (rw l at h))
  judge_action id none (some c) e h l =
      good_action c
        (record {
          id = id;
          claimed = e;
          loaded = l;
          is_eligible =
              (action_problem-iff_IsEligible fromisoformat c outcome.account_ref
                  outcome.observation_instant).0
                (rw l at h);
        })
        refl refl

  pub check_action_claim-ActionVerdict :
      (found : Option ActionCandidate) (problems : List Problem)
      → check_action_claim fromisoformat conn outcome.source_action_event_id cutoff
          outcome.account_ref outcome.observation_instant
        ≡ ok (found, problems)
      → ActionVerdict found problems
  unfolding check_action_claim
  check_action_claim-ActionVerdict found problems h =
      elim (Option-cases outcome.source_action_event_id) [
        | inl e ↦
            moved none [] (ok_inj (rw (e, check_action_claim) at h)) (no_action_claim e refl refl)
        | inr (id, e) ↦
            ok_inversion (action_judged id) (rw (e, check_action_claim) at h) λ problem e₁ k₁.
              moved (action_found id) (as_list problem) (ok_inj k₁)
                (judge_action id problem (action_found id) e e₁ refl)
      ]
    where
      moved :
          (f : Option ActionCandidate) (p : List Problem)
          → ◌≡◌ {A = Option ActionCandidate × List Problem} (f, p) (found, problems)
          → ActionVerdict f p
          → ActionVerdict found problems
      moved f p q v =
          subst (λ (x : Option ActionCandidate × List Problem). ActionVerdict x.0 x.1) q v

  abbrev pub decision_found : String → Option DecisionClaim
  decision_found id = load_decision conn id cutoff

  abbrev pub decision_judged : String → Result AttributionError (Option Problem)
  decision_judged id =
      decision_problem fromisoformat (decision_found id) outcome.account_ref
        outcome.observation_instant

  -- How the decision claim was judged: what was loaded for it, and its problems.
  pub data DecisionVerdict (found : Option DecisionClaim) (problems : List Problem) : Type 0 where
    no_decision_claim :
        outcome.source_decision_event_id ≡ none
        → none ≡ found
        → [] ≡ problems
        → DecisionVerdict found problems
    good_decision :
        (c : DecisionClaim)
        → ClaimsDecision fromisoformat conn outcome cutoff c
        → some c ≡ found
        → [] ≡ problems
        → DecisionVerdict found problems
    bad_decision :
        (id : String) (problem : Problem)
        → outcome.source_decision_event_id ≡ some id
        → decision_judged id ≡ ok (some problem)
        → problem ∷ [] ≡ problems
        → DecisionVerdict found problems

  judge_decision :
      (id : String) (problem : Option Problem) (found : Option DecisionClaim)
      → outcome.source_decision_event_id ≡ some id
      → decision_judged id ≡ ok problem
      → decision_found id ≡ found
      → DecisionVerdict found (as_list problem)
  judge_decision id (some problem) found e h l = bad_decision id problem e h refl
  judge_decision id none none e h l = absurd (
      decision_problem-none fromisoformat outcome.account_ref outcome.observation_instant
        (rw l at h))
  judge_decision id none (some c) e h l =
      good_decision c
        (record {
          id = id;
          claimed = e;
          loaded = l;
          is_resolvable =
              (decision_problem-iff_IsResolvable fromisoformat c outcome.account_ref
                  outcome.observation_instant).0
                (rw l at h);
        })
        refl refl

  pub check_decision_claim-DecisionVerdict :
      (found : Option DecisionClaim) (problems : List Problem)
      → check_decision_claim fromisoformat conn outcome.source_decision_event_id cutoff
          outcome.account_ref outcome.observation_instant
        ≡ ok (found, problems)
      → DecisionVerdict found problems
  unfolding check_decision_claim
  check_decision_claim-DecisionVerdict found problems h =
      elim (Option-cases outcome.source_decision_event_id) [
        | inl e ↦
            moved none [] (ok_inj (rw (e, check_decision_claim) at h))
              (no_decision_claim e refl refl)
        | inr (id, e) ↦
            ok_inversion (decision_judged id) (rw (e, check_decision_claim) at h) λ problem e₁ k₁.
              moved (decision_found id) (as_list problem) (ok_inj k₁)
                (judge_decision id problem (decision_found id) e e₁ refl)
      ]
    where
      moved :
          (f : Option DecisionClaim) (p : List Problem)
          → ◌≡◌ {A = Option DecisionClaim × List Problem} (f, p) (found, problems)
          → DecisionVerdict f p
          → DecisionVerdict found problems
      moved f p q v =
          subst (λ (x : Option DecisionClaim × List Problem). DecisionVerdict x.0 x.1) q v
