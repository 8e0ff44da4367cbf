-- ===== src/Attribution/Attribute.antt =====
-- `attribute` of attribution/policy.py, for one outcome version at one snapshot cutoff.
use Prim.Native.String.{◌++◌ as concat}
use flight_recorder.Base.{
  ℕ, Bool, true, false, ◌&&◌, ◌||◌, not, Option, none, some, List, [], ◌∷◌, ◌++◌, String, str_eq,
  if◌then◌else◌, Result, ok, err, ◌>>=◌, ◌>>◌, raise_if,
}
use flight_recorder.Base.Int.{ℤ, pos}
use flight_recorder.Rules.{ScalarValue}
use flight_recorder.Ledger.{Ledger}
use flight_recorder.Attribution.Records.{
  AttributionError, unsupported_policy_version, attribute_of_none, Problem, problem_text,
  source_references_disagree, AttributionResult, OutcomeClaims, ActionCandidate, DecisionClaim,
  lookback_days, status_direct, status_inferred, status_unresolved, method_explicit_reference,
  method_heuristic, method_unresolved, valid_source_action, valid_source_decision,
  valid_source_action_and_decision, no_source_reference, most_recent_eligible_action,
  no_eligible_action,
}
use flight_recorder.Attribution.Snapshot.{
  validate_cutoff, load_outcome, load_action, load_account_actions, load_decision,
}
use flight_recorder.Attribution.Claims.{
  action_problem, decision_problem, eligible, most_recent_eligible, is_implemented,
}

-- The nested `result`, on the outcome, the version and the cutoff of the call.
abbrev pub make :
    String
    → ℕ
    → String
    → (method status reason : String) → (action_id decision_id : Option String) → AttributionResult
make outcome_event_id cutoff version method status reason action_id decision_id = record {
  outcome_event_id = outcome_event_id;
  policy_version = version;
  method = method;
  window_days = pos lookback_days;
  resolved_action_event_id = action_id;
  resolved_decision_event_id = decision_id;
  status = status;
  reason = reason;
  cutoff = cutoff;
}

-- `CLAIM_SEPARATOR.join(problems)`
unfoldable pub join_problems : Problem → List Problem → String
join_problems p [] = problem_text p
join_problems p (q ∷ problems) = concat (problem_text p) (concat "+" (join_problems q problems))

unfoldable pub claims_text : List Problem → String
unfolding join_problems
claims_text [] = no_source_reference
claims_text (p ∷ problems) = join_problems p problems

-- `f"{claims}{SEGMENT_SEPARATOR}{resolution}"`
abbrev pub fallback_reason : List Problem → String → String
fallback_reason problems resolution = concat (claims_text problems) (concat ";" resolution)

abbrev pub is_none : Option String → Bool
is_none none = true
is_none (some _) = false

-- `action_claim is not None or decision_claim is not None`
abbrev pub has_claim : OutcomeClaims → Bool
has_claim outcome =
    not (is_none outcome.source_action_event_id) || not (is_none outcome.source_decision_event_id)

abbrev pub is_empty : List Problem → Bool
is_empty [] = true
is_empty (_ ∷ _) = false

-- The problem of a claim, as what it appends to `problems`.
abbrev pub as_list : Option Problem → List Problem
as_list none = []
as_list (some p) = p ∷ []

-- Step 1, on claims that are present and have no problem.
unfoldable pub explicit_reference :
    (String → String → String → Option String → Option String → AttributionResult)
    → (List Problem → Result AttributionError AttributionResult)
    → Option ActionCandidate
    → Option DecisionClaim
    → Result AttributionError AttributionResult
explicit_reference result otherwise (some action) (some decision) =
    if str_eq action.decision_event_id decision.decision_event_id
    then ok (
        result method_explicit_reference status_direct valid_source_action_and_decision
          (some action.action_event_id) (some decision.decision_event_id))
    else otherwise (source_references_disagree ∷ [])
explicit_reference result otherwise (some action) none = ok (
    result method_explicit_reference status_direct valid_source_action (some action.action_event_id)
      (some action.decision_event_id))
explicit_reference result otherwise none (some decision) = ok (
    result method_explicit_reference status_direct valid_source_decision none
      (some decision.decision_event_id))
explicit_reference result otherwise none none = err attribute_of_none

-- `datetime.fromisoformat` reads a stored timestamp as an instant in microseconds.
module _ (fromisoformat : String → Option ℤ) where
  -- What a source claim resolves to, and its problem if it has one.
  unfoldable pub check_action_claim :
      Ledger
      → Option String
      → ℕ
      → String
      → Option String
      → Result AttributionError (Option ActionCandidate × List Problem)
  check_action_claim conn none cutoff account_ref observed = ok (none, [])
  check_action_claim conn (some id) cutoff account_ref observed = do
    let action = load_action conn id cutoff
    problem ← action_problem fromisoformat action account_ref observed
    ok (action, as_list problem)

  unfoldable pub check_decision_claim :
      Ledger
      → Option String
      → ℕ
      → String
      → Option String
      → Result AttributionError (Option DecisionClaim × List Problem)
  check_decision_claim conn none cutoff account_ref observed = ok (none, [])
  check_decision_claim conn (some id) cutoff account_ref observed = do
    let decision = load_decision conn id cutoff
    problem ← decision_problem fromisoformat decision account_ref observed
    ok (decision, as_list problem)

  -- Steps 2 and 3: the most recent eligible action, or unresolved.
  unfoldable pub fall_back :
      Ledger
      → OutcomeClaims
      → ℕ
      → (String → String → String → Option String → Option String → AttributionResult)
      → List Problem
      → Result AttributionError AttributionResult
  fall_back conn outcome cutoff result problems = do
    candidates ←
        eligible fromisoformat (load_account_actions conn outcome.account_ref cutoff)
          outcome.account_ref outcome.observation_instant
    chosen ← most_recent_eligible fromisoformat candidates
    ok (elim chosen [
      | none ↦
          result method_unresolved status_unresolved (fallback_reason problems no_eligible_action)
            none none
      | some c ↦
          result method_heuristic status_inferred
            (fallback_reason problems most_recent_eligible_action) (some c.action_event_id)
            (some c.decision_event_id)
    ])

  -- The part of `attribute` behind its validation and its read of the outcome.
  unfoldable pub resolve :
      Ledger → OutcomeClaims → String → ℕ → String → Result AttributionError AttributionResult
  unfolding check_action_claim check_decision_claim explicit_reference fall_back claims_text
  resolve conn outcome outcome_event_id cutoff version = do
    let result = make outcome_event_id cutoff version
    let observed = outcome.observation_instant
    (action, p) ←
        check_action_claim conn outcome.source_action_event_id cutoff outcome.account_ref observed
    (decision, q) ←
        check_decision_claim conn outcome.source_decision_event_id cutoff outcome.account_ref
          observed
    let otherwise = fall_back conn outcome cutoff result
    if has_claim outcome && is_empty (p ++ q)
        then explicit_reference result otherwise action decision
        else otherwise (p ++ q)

  unfoldable pub attribute :
      Ledger → String → ScalarValue → String → Result AttributionError AttributionResult
  unfolding resolve
  attribute conn outcome_event_id cutoff version = do
    raise_if (not (is_implemented version)) (unsupported_policy_version version)
    n ← validate_cutoff conn cutoff
    outcome ← load_outcome conn outcome_event_id n
    resolve conn outcome outcome_event_id n version

  -- `source_claim_problems`
  unfoldable pub source_claim_problems :
      Ledger
      → String
      → Option String
      → Option String
      → Option String
      → ℕ
      → Result AttributionError (Option Problem × Option Problem)
  source_claim_problems conn account_ref observed source_action source_decision cutoff = do
    action_reason ← elim source_action [
      | none ↦ ok none
      | some id ↦ action_problem fromisoformat (load_action conn id cutoff) account_ref observed
    ]
    decision_reason ← elim source_decision [
      | none ↦ ok none
      | some id ↦ decision_problem fromisoformat (load_decision conn id cutoff) account_ref observed
    ]
    ok (action_reason, decision_reason)
