-- ===== src/Attribution/Eligibility.antt =====
-- The checks of `action_problem` and `decision_problem` together are the documented conditions.
use flight_recorder.Base.{
  ◌≡◌, ap, true, ◌⊎◌, Option, none, some, String, str_eq, str_eq_iff, ◌↔◌, Result, ok, arith,
  if◌then◌else◌, ◌>>=◌, ok_inversion, ok_inj,
}
use flight_recorder.Base.Int.{ℤ, ◌-ℤ◌, ◌<ℤ◌, ◌≤ℤ◌, ltb_ℤ}
use flight_recorder.Attribution.Records.{
  ActionCandidate, DecisionClaim, Problem, AttributionError, source_decision_not_before_observation,
  attributable_decision_class,
}
use flight_recorder.Attribution.Claims.{
  instant, instant_of, action_problem, decision_problem, lookback, opt_eq, is_eligible_status,
  timing_problem,
}

opt_eq_iff : (o : Option String) (t : String) → (opt_eq o t ≡ true) ↔ (o ≡ some t)
opt_eq_iff none t = ground arith
opt_eq_iff (some s) t = ground (arith, str_eq_iff s t)

module _ (fromisoformat : String → Option ℤ) where
  -- An action is eligible for an account at an observation instant: same account, sent or completed,
  -- linked to a recorded prioritization decision of the account, strictly before the observation, and
  -- no more than ninety times 24 hours before it.
  pub record IsEligible (account_ref : String) (observed : Option String) (action : ActionCandidate)
      : Type 0 where
    pub observed_at : ℤ
    pub occurred : ℤ
    pub same_account : action.account_ref ≡ account_ref
    pub done : (action.status ≡ "sent") ⊎ (action.status ≡ "completed")
    pub linked_class : action.decision_class ≡ some attributable_decision_class
    pub linked_account : action.decision_account_ref ≡ some account_ref
    pub observation : instant_of fromisoformat observed ≡ ok observed_at
    pub occurrence : instant fromisoformat action.occurred_at ≡ ok occurred
    pub is_before : occurred <ℤ observed_at
    pub in_lookback : observed_at -ℤ occurred ≤ℤ lookback

  timing_sound :
      (observed occurred : ℤ)
      → timing_problem observed occurred ≡ none
      → (occurred <ℤ observed) × (observed -ℤ occurred ≤ℤ lookback)
  timing_sound observed occurred h = ground arith

  timing_complete :
      (observed occurred : ℤ)
      → occurred <ℤ observed
      → observed -ℤ occurred ≤ℤ lookback
      → timing_problem observed occurred ≡ none
  timing_complete observed occurred p q = ground arith

  status_iff : (s : String) → (is_eligible_status s ≡ true) ↔ ((s ≡ "sent") ⊎ (s ≡ "completed"))
  status_iff s = ground (arith, str_eq_iff s "sent", str_eq_iff s "completed")

  module _ (action : ActionCandidate) (account_ref : String) (observed : Option String) where
    abbrev timing : Result AttributionError (Option Problem)
    timing = instant_of fromisoformat observed >>= λ o.
        instant fromisoformat action.occurred_at >>= λ t. ok (timing_problem o t)

    guards :
        action_problem fromisoformat (some action) account_ref observed ≡ ok none
        → (str_eq action.account_ref account_ref ≡ true)
          × (is_eligible_status action.status ≡ true)
          × (opt_eq action.decision_class attributable_decision_class ≡ true)
          × (opt_eq action.decision_account_ref account_ref ≡ true)
          × (timing ≡ ok none)
    unfolding action_problem
    guards h = ground arith

    action_problem_sound :
        action_problem fromisoformat (some action) account_ref observed ≡ ok none
        → IsEligible account_ref observed action
    action_problem_sound h =
        let (a, b, c, d, e) = guards h in
        ok_inversion (instant_of fromisoformat observed) e λ o h₁ k₁.
          ok_inversion (instant fromisoformat action.occurred_at) k₁ λ t h₂ k₂.
            let (p, q) = timing_sound o t (ok_inj k₂) in
            record {
              observed_at = o;
              occurred = t;
              same_account = (str_eq_iff action.account_ref account_ref).0 a;
              done = (status_iff action.status).0 b;
              linked_class = (opt_eq_iff action.decision_class attributable_decision_class).0 c;
              linked_account = (opt_eq_iff action.decision_account_ref account_ref).0 d;
              observation = h₁;
              occurrence = h₂;
              is_before = p;
              in_lookback = q;
            }

    action_problem_complete :
        IsEligible account_ref observed action
        → action_problem fromisoformat (some action) account_ref observed ≡ ok none
    unfolding action_problem
    action_problem_complete e =
        let a = (str_eq_iff action.account_ref account_ref).1 e.same_account in
        let b = (status_iff action.status).1 e.done in
        let c = (opt_eq_iff action.decision_class attributable_decision_class).1 e.linked_class in
        let d = (opt_eq_iff action.decision_account_ref account_ref).1 e.linked_account in
        let t : timing_problem e.observed_at e.occurred ≡ none =
          timing_complete e.observed_at e.occurred e.is_before e.in_lookback in
        rw a (rw b (rw c (rw d (rw e.observation (rw e.occurrence (ap ok t))))))

    -- `action_problem` finds no problem with an action exactly when the action is eligible.
    pub action_problem-iff_IsEligible :
        (action_problem fromisoformat (some action) account_ref observed ≡ ok none)
        ↔ IsEligible account_ref observed action
    action_problem-iff_IsEligible = (action_problem_sound, action_problem_complete)

  -- A decision claim resolves for an account at an observation instant: same account, the
  -- prioritization class, and a boundary strictly before the observation.
  pub record IsResolvable (account_ref : String) (observed : Option String)
      (decision : DecisionClaim) : Type 0 where
    pub observed_at : ℤ
    pub boundary : ℤ
    pub same_account : decision.account_ref ≡ account_ref
    pub class : decision.decision_class ≡ attributable_decision_class
    pub observation : instant_of fromisoformat observed ≡ ok observed_at
    pub decided : instant fromisoformat decision.decision_boundary ≡ ok boundary
    pub is_before : boundary <ℤ observed_at

  module _ (decision : DecisionClaim) (account_ref : String) (observed : Option String) where
    abbrev boundary_check : Result AttributionError (Option Problem)
    boundary_check = instant fromisoformat decision.decision_boundary >>= λ b.
        instant_of fromisoformat observed >>= λ o.
        ok (if ltb_ℤ b o then none else some source_decision_not_before_observation)

    decision_guards :
        decision_problem fromisoformat (some decision) account_ref observed ≡ ok none
        → (str_eq decision.account_ref account_ref ≡ true)
          × (str_eq decision.decision_class attributable_decision_class ≡ true)
          × (boundary_check ≡ ok none)
    unfolding decision_problem
    decision_guards h = ground arith

    decision_problem_sound :
        decision_problem fromisoformat (some decision) account_ref observed ≡ ok none
        → IsResolvable account_ref observed decision
    decision_problem_sound h =
        let (a, c, e) = decision_guards h in
        ok_inversion (instant fromisoformat decision.decision_boundary) e λ b h₁ k₁.
          ok_inversion (instant_of fromisoformat observed) k₁ λ o h₂ k₂. record {
            observed_at = o;
            boundary = b;
            same_account = (str_eq_iff decision.account_ref account_ref).0 a;
            class = (str_eq_iff decision.decision_class attributable_decision_class).0 c;
            observation = h₂;
            decided = h₁;
            is_before = ground arith;
          }

    decision_problem_complete :
        IsResolvable account_ref observed decision
        → decision_problem fromisoformat (some decision) account_ref observed ≡ ok none
    unfolding decision_problem
    decision_problem_complete e =
        let a = (str_eq_iff decision.account_ref account_ref).1 e.same_account in
        let c = (str_eq_iff decision.decision_class attributable_decision_class).1 e.class in
        let t : ltb_ℤ e.boundary e.observed_at ≡ true = ground arith in
        rw a (rw c (rw e.decided (rw e.observation (rw t))))

    -- `decision_problem` finds no problem with a decision claim exactly when the claim resolves.
    pub decision_problem-iff_IsResolvable :
        (decision_problem fromisoformat (some decision) account_ref observed ≡ ok none)
        ↔ IsResolvable account_ref observed decision
    decision_problem-iff_IsResolvable = (decision_problem_sound, decision_problem_complete)
