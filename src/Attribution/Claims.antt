-- ===== src/Attribution/Claims.antt =====
-- When an action or a decision claim counts, and which eligible action is the most recent: the rules
-- of attribution/policy.py.
use flight_recorder.Base.{
  ℕ, ◌*◌, Bool, false, ◌||◌, not, Option, none, some, List, [], ◌∷◌, String, str_eq, ltb,
  if◌then◌else◌, Result, ok, err, ◌>>=◌,
}
use flight_recorder.Base.Int.{ℤ, pos, ◌-ℤ◌, ltb_ℤ, eqb_ℤ}
use flight_recorder.Base.Datetime.{day_micros}
use flight_recorder.Attribution.Records.{
  AttributionError, unreadable_instant, Problem, ActionCandidate, DecisionClaim, lookback_days,
  policy_version, attributable_decision_class, source_action_not_recorded_by_cutoff,
  source_action_other_account, source_action_failed,
  source_action_not_linked_to_prioritization_decision, source_action_not_before_observation,
  source_action_outside_lookback, source_decision_not_recorded_by_cutoff,
  source_decision_other_account, source_decision_not_account_prioritization,
  source_decision_not_before_observation,
}

-- `LOOKBACK`, in microseconds.
abbrev pub lookback : ℤ
lookback = pos (lookback_days * day_micros)

-- `value == text` for a column that the outer joins may leave empty.
abbrev pub opt_eq : Option String → String → Bool
opt_eq none text = false
opt_eq (some value) text = str_eq value text

-- `ELIGIBLE_ACTION_STATUSES`
abbrev pub is_eligible_status : String → Bool
is_eligible_status status = str_eq status "sent" || str_eq status "completed"

-- `IMPLEMENTED_POLICY_VERSIONS`
abbrev pub is_implemented : String → Bool
is_implemented version = str_eq version policy_version

-- The checks of `action_problem` on the two instants.
abbrev pub timing_problem : ℤ → ℤ → Option Problem
timing_problem observed occurred =
    if not (ltb_ℤ occurred observed)
    then some source_action_not_before_observation
    else if ltb_ℤ lookback (observed -ℤ occurred)
    then some source_action_outside_lookback
    else none

-- The comparison of the keys `(instant(c.occurred_at), c.ingest_sequence)`.
abbrev pub key_lt : ℤ × ℕ → ℤ × ℕ → Bool
key_lt (s, m) (t, n) = if eqb_ℤ s t then ltb m n else ltb_ℤ s t

-- The filter of the generator: a candidate with no problem is kept.
abbrev pub keep : Option Problem → ActionCandidate → List ActionCandidate → List ActionCandidate
keep none c rest = c ∷ rest
keep (some _) c rest = rest

-- `datetime.fromisoformat` reads a stored timestamp, which carries its UTC designator, as an instant
-- in microseconds; `none` is its exception.
module _ (fromisoformat : String → Option ℤ) where
  unfoldable pub instant : String → Result AttributionError ℤ
  instant text = elim (fromisoformat text) [ none ↦ err unreadable_instant | some t ↦ ok t ]

  -- The instant of a nullable column.
  unfoldable pub instant_of : Option String → Result AttributionError ℤ
  instant_of none = err unreadable_instant
  instant_of (some text) = instant text

  unfoldable pub action_problem :
      Option ActionCandidate → String → Option String → Result AttributionError (Option Problem)
  action_problem none account_ref observation_instant =
      ok (some source_action_not_recorded_by_cutoff)
  action_problem (some action) account_ref observation_instant =
      if not (str_eq action.account_ref account_ref)
      then ok (some source_action_other_account)
      else if not (is_eligible_status action.status)
      then ok (some source_action_failed)
      else if not (opt_eq action.decision_class attributable_decision_class)
          || not (opt_eq action.decision_account_ref account_ref)
      then ok (some source_action_not_linked_to_prioritization_decision)
      else do
        observed ← instant_of observation_instant
        occurred ← instant action.occurred_at
        ok (timing_problem observed occurred)

  unfoldable pub decision_problem :
      Option DecisionClaim → String → Option String → Result AttributionError (Option Problem)
  decision_problem none account_ref observation_instant =
      ok (some source_decision_not_recorded_by_cutoff)
  decision_problem (some decision) account_ref observation_instant =
      if not (str_eq decision.account_ref account_ref)
      then ok (some source_decision_other_account)
      else if not (str_eq decision.decision_class attributable_decision_class)
      then ok (some source_decision_not_account_prioritization)
      else do
        boundary ← instant decision.decision_boundary
        observed ← instant_of observation_instant
        ok (if ltb_ℤ boundary observed then none else some source_decision_not_before_observation)

  -- The loop of `max`, at the best candidate so far and its key.
  unfoldable pub later_of :
      ActionCandidate
      → ℤ × ℕ
      → List ActionCandidate
      → Result AttributionError (Option ActionCandidate)
  later_of best key [] = ok (some best)
  later_of best key (c ∷ candidates) = do
    occurred ← instant c.occurred_at
    let is_later = key_lt key (occurred, c.ingest_sequence)
    later_of (if is_later then c else best)
        (if is_later then (occurred, c.ingest_sequence) else key) candidates

  unfoldable pub most_recent_eligible :
      List ActionCandidate → Result AttributionError (Option ActionCandidate)
  unfolding later_of
  most_recent_eligible [] = ok none
  most_recent_eligible (c ∷ candidates) = do
    occurred ← instant c.occurred_at
    later_of c (occurred, c.ingest_sequence) candidates

  -- The generator over the account's actions: those with no problem.
  unfoldable pub eligible :
      List ActionCandidate → String → Option String → Result AttributionError (List ActionCandidate)
  eligible [] account_ref observed = ok []
  eligible (c ∷ candidates) account_ref observed = do
    problem ← action_problem (some c) account_ref observed
    rest ← eligible candidates account_ref observed
    ok (keep problem c rest)
