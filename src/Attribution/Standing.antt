-- ===== src/Attribution/Standing.antt =====
-- The policy of attribution/policy.py, stated apart from its code: what a valid explicit reference is,
-- which action is the most recent eligible one, and what each way of resolving gives.
use flight_recorder.Base.{ℕ, ◌≡◌, Option, none, some, List, String, ok, Member}
use flight_recorder.Base.Int.{ℤ}
use flight_recorder.Ledger.{Ledger}
use flight_recorder.Attribution.Records.{
  AttributionResult, OutcomeClaims, ActionCandidate, DecisionClaim, Problem, status_direct,
  status_inferred, status_unresolved, method_explicit_reference, method_heuristic,
  method_unresolved, valid_source_action, valid_source_decision, valid_source_action_and_decision,
  most_recent_eligible_action, no_eligible_action,
}
use flight_recorder.Attribution.Snapshot.{load_action, load_account_actions, load_decision}
use flight_recorder.Attribution.Claims.{instant}
use flight_recorder.Attribution.Attribute.{make, fallback_reason}
use flight_recorder.Attribution.Eligibility.{IsEligible, IsResolvable}
use flight_recorder.Attribution.Recency.{IsNotAfter}

module _ (fromisoformat : String → Option ℤ) (conn : Ledger) (outcome : OutcomeClaims)
    (cutoff : ℕ) where
  abbrev pub Eligible : ActionCandidate → Type 0
  Eligible = IsEligible fromisoformat outcome.account_ref outcome.observation_instant

  abbrev pub Resolvable : DecisionClaim → Type 0
  Resolvable = IsResolvable fromisoformat outcome.account_ref outcome.observation_instant

  -- The outcome's action claim names an eligible action of the snapshot.
  pub record ClaimsAction (a : ActionCandidate) : Type 0 where
    pub id : String
    pub claimed : outcome.source_action_event_id ≡ some id
    pub loaded : load_action conn id cutoff ≡ some a
    pub is_eligible : Eligible a

  pub record ClaimsDecision (d : DecisionClaim) : Type 0 where
    pub id : String
    pub claimed : outcome.source_decision_event_id ≡ some id
    pub loaded : load_decision conn id cutoff ≡ some d
    pub is_resolvable : Resolvable d

  -- What a valid explicit reference resolves to: the reason, the action and the decision.
  pub data Direct (reason : String) (action_id decision_id : Option String) : Type 0 where
    both :
        (a : ActionCandidate) (d : DecisionClaim)
        → ClaimsAction a
        → ClaimsDecision d
        → a.decision_event_id ≡ d.decision_event_id
        → reason ≡ valid_source_action_and_decision
        → action_id ≡ some a.action_event_id
        → decision_id ≡ some d.decision_event_id
        → Direct reason action_id decision_id
    action_alone :
        (a : ActionCandidate)
        → ClaimsAction a
        → outcome.source_decision_event_id ≡ none
        → reason ≡ valid_source_action
        → action_id ≡ some a.action_event_id
        → decision_id ≡ some a.decision_event_id
        → Direct reason action_id decision_id
    decision_alone :
        (d : DecisionClaim)
        → outcome.source_action_event_id ≡ none
        → ClaimsDecision d
        → reason ≡ valid_source_decision
        → action_id ≡ none
        → decision_id ≡ some d.decision_event_id
        → Direct reason action_id decision_id

  abbrev pub NotDirect : Type 0
  NotDirect = (reason : String) (a d : Option String) → ¬ Direct reason a d

  abbrev pub account_actions : List ActionCandidate
  account_actions = load_account_actions conn outcome.account_ref cutoff

  -- The most recent eligible action of the account.
  pub record IsMostRecent (chosen : ActionCandidate) : Type 0 where
    pub is_recorded : Member chosen account_actions
    pub is_eligible : Eligible chosen
    pub occurred : ℤ
    pub occurrence : instant fromisoformat chosen.occurred_at ≡ ok occurred
    pub none_after :
        (c : ActionCandidate)
        → Member c account_actions
        → Eligible c
        → IsNotAfter fromisoformat (occurred, chosen.ingest_sequence) c

  -- The three ways of the policy, each with the result that it gives.
  pub data Resolution (id version : String) (r : AttributionResult) : Type 0 where
    is_direct :
        (reason : String) (a d : Option String)
        → Direct reason a d
        → make id cutoff version method_explicit_reference status_direct reason a d ≡ r
        → Resolution id version r
    is_inferred :
        (chosen : ActionCandidate) (problems : List Problem)
        → NotDirect
        → IsMostRecent chosen
        → make id cutoff version method_heuristic status_inferred
            (fallback_reason problems most_recent_eligible_action)
            (some chosen.action_event_id)
            (some chosen.decision_event_id)
          ≡ r
        → Resolution id version r
    is_unresolved :
        (problems : List Problem)
        → NotDirect
        → ((c : ActionCandidate) → Member c account_actions → ¬ Eligible c)
        → make id cutoff version method_unresolved status_unresolved
            (fallback_reason problems no_eligible_action)
            none
            none
          ≡ r
        → Resolution id version r
