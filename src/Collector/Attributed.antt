-- ===== src/Collector/Attributed.antt =====
-- `_validate_attribution` of collector/projections.py: an attribution is accepted only when the policy,
-- recomputed at its cutoff, agrees.
use Prim.Native.String.{◌++◌ as concat}
use flight_recorder.Base.{
  Bool, true, false, ◌&&◌, not, Option, none, some, String, str_eq, Result, ok, err, ◌>>=◌, ◌>>◌,
  raise_if, map_err, first, select,
}
use flight_recorder.Base.Int.{ℤ, eqb_ℤ, leb_ℤ}
use flight_recorder.Rules.{int_value}
use flight_recorder.Ledger.{Ledger, StoredAttribution}
use flight_recorder.Attribution.Records.{
  AttributionError, unsupported_policy_version, invalid_cutoff, cutoff_above_maximum,
  cutoff_not_found, outcome_not_found, cutoff_excludes_outcome, ambiguous_successors,
  supersession_cycle, ambiguous_attribution, AttributionResult,
}
use flight_recorder.Attribution.Snapshot.{ledger_maximum, validate_cutoff, load_outcome}
use flight_recorder.Attribution.Claims.{is_implemented}
use flight_recorder.Attribution.Attribute.{attribute}
use flight_recorder.Attribution.Selection.{effective_outcome_version, effective_attribution}
use flight_recorder.Collector.Envelope.{
  IngestError, rejected, policy_failure, null_comparison, Codec, OutcomeAttributedPayload, Envelope,
}
use flight_recorder.Collector.References.{
  or_rejected, reject_if, opt_str_eq, outcome_with, action_with, decision_with,
}

-- `_attribution_failure`: a named failure of the policy as a refusal with its reason. What is none of
-- the policy's own goes through.
unfoldable pub attribution_failure : AttributionError → IngestError
attribution_failure (unsupported_policy_version _) = rejected "unsupported_policy_version"
attribution_failure (invalid_cutoff _) = rejected "ingest_cutoff_is_not_an_integer"
attribution_failure (cutoff_above_maximum _ _) = rejected "ingest_cutoff_above_ledger_maximum"
attribution_failure (cutoff_not_found _) = rejected "ingest_cutoff_not_found"
attribution_failure (outcome_not_found _) = rejected "unknown_outcome_event_id"
attribution_failure (cutoff_excludes_outcome _ _ _) = rejected "ingest_cutoff_excludes_the_outcome"
attribution_failure (ambiguous_successors _ _) = rejected "ambiguous_effective_selection"
attribution_failure (supersession_cycle _) = rejected "ambiguous_effective_selection"
attribution_failure (ambiguous_attribution _ _ _) = rejected "ambiguous_effective_selection"
attribution_failure e = policy_failure e

-- `policy.effective_attribution` at the ledger's maximum; SQLAlchemy raises on a comparison with `None`.
unfoldable pub attribution_now :
    Ledger → String → String → Result IngestError (Option StoredAttribution)
attribution_now conn outcome_event_id version = elim (ledger_maximum conn) [
  | none ↦ err null_comparison
  | some maximum ↦
      map_err policy_failure (effective_attribution conn outcome_event_id version maximum)
]

abbrev pub attribution_with : Ledger → String → Option StoredAttribution
attribution_with conn id =
    first (
      select (λ (a : StoredAttribution). str_eq a.attribution_event_id id)
        conn.outcome_attributions)

-- `current is None or current.attribution_event_id != superseded`
abbrev pub is_other : Option StoredAttribution → String → Bool
is_other none superseded = true
is_other (some current) superseded = not (str_eq current.attribution_event_id superseded)

abbrev pub is_some : {A : Type 0} → Option A → Bool
is_some none = false
is_some (some _) = true

-- The part of `_validate_attribution_supersession` on a link that is present.
unfoldable pub validate_replacement :
    Ledger
    → OutcomeAttributedPayload
    → Option StoredAttribution
    → String
    → Result IngestError (Unit {0})
validate_replacement conn payload current superseded = do
  target ← or_rejected (attribution_with conn superseded) "unknown_superseded_attribution"
  reject_if (not (str_eq target.outcome_event_id payload.outcome_event_id))
      "superseded_attribution_is_for_another_outcome"
  reject_if (not (str_eq target.policy_version payload.policy_version))
      "superseded_attribution_is_for_another_policy"
  reject_if (is_other current superseded) "superseded_attribution_is_not_effective"
  reject_if (leb_ℤ payload.ingest_cutoff target.ingest_cutoff)
      "replacement_attribution_cutoff_is_not_newer"

-- `_validate_attribution_supersession`
unfoldable pub validate_attribution_supersession :
    Ledger → OutcomeAttributedPayload → Result IngestError (Unit {0})
validate_attribution_supersession conn payload = do
  current ← attribution_now conn payload.outcome_event_id payload.policy_version
  elim payload.supersedes_attribution_event_id [
    | none ↦ reject_if (is_some current) "attribution_already_recorded"
    | some superseded ↦ validate_replacement conn payload current superseded
  ]

-- The two halves of `_validate_resolved_references`.
unfoldable pub validate_resolved_action :
    Ledger → Option String → String → Result IngestError (Unit {0})
validate_resolved_action conn none account_ref = ok tt
validate_resolved_action conn (some id) account_ref = do
  row ← or_rejected (action_with conn id) "unknown_resolved_action"
  reject_if (not (str_eq row.account_ref account_ref)) "resolved_action_belongs_to_another_account"

unfoldable pub validate_resolved_decision :
    Ledger → Option String → String → Result IngestError (Unit {0})
validate_resolved_decision conn none account_ref = ok tt
validate_resolved_decision conn (some id) account_ref = do
  row ← or_rejected (decision_with conn id) "unknown_resolved_decision"
  reject_if (not (str_eq row.account_ref account_ref))
      "resolved_decision_belongs_to_another_account"

-- The comparison of `POLICY_RESULT_FIELDS`.
abbrev pub agrees : OutcomeAttributedPayload → AttributionResult → Bool
agrees payload r =
    str_eq payload.outcome_event_id r.outcome_event_id
    && str_eq payload.policy_version r.policy_version
    && str_eq payload.method r.method
    && eqb_ℤ payload.window_days r.window_days
    && opt_str_eq payload.resolved_action_event_id r.resolved_action_event_id
    && opt_str_eq payload.resolved_decision_event_id r.resolved_decision_event_id
    && str_eq payload.status r.status
    && str_eq payload.reason r.reason

-- The stored operation of an outcome version, a policy and a cutoff.
abbrev pub operation_of : Ledger → OutcomeAttributedPayload → Option StoredAttribution
operation_of conn payload = first (
    select
      (λ (a : StoredAttribution).
        str_eq a.outcome_event_id payload.outcome_event_id
        && str_eq a.policy_version payload.policy_version
        && eqb_ℤ a.ingest_cutoff payload.ingest_cutoff)
      conn.outcome_attributions)

-- The first checks: the outcome is of this account, and effective now.
unfoldable pub validate_attributed_outcome :
    Ledger → Envelope → String → Result IngestError (Unit {0})
validate_attributed_outcome conn e outcome_event_id = do
  outcome ← or_rejected (outcome_with conn outcome_event_id) "unknown_outcome_event_id"
  reject_if (not (str_eq outcome.account_ref e.account_ref))
      "attributed_outcome_belongs_to_another_account"
  effective ← elim (ledger_maximum conn) [
    | none ↦ err (attribution_failure (outcome_not_found outcome_event_id))
    | some maximum ↦
        map_err attribution_failure (effective_outcome_version conn outcome_event_id maximum)
  ]
  reject_if (not (str_eq effective outcome_event_id)) "attributed_outcome_version_is_superseded"

module _ (codec : Codec) where
  -- `policy.attribution_event_id`
  abbrev pub attribution_event_id : String → String → ℤ → String
  attribution_event_id outcome_event_id version cutoff =
      concat "evt-attribution-" (codec.operation_digest outcome_event_id version cutoff)

  -- The checks of the cutoff and of the operation's identity.
  unfoldable pub validate_operation :
      Ledger → Envelope → OutcomeAttributedPayload → Result IngestError (Unit {0})
  validate_operation conn e payload = do
    raise_if (not (is_implemented payload.policy_version))
        (attribution_failure (unsupported_policy_version payload.policy_version))
    n ← map_err attribution_failure (validate_cutoff conn (int_value payload.ingest_cutoff))
    map_err attribution_failure (load_outcome conn payload.outcome_event_id n)
    reject_if (is_some (operation_of conn payload)) "attribution_operation_already_recorded"
    reject_if
        (not (
          str_eq e.event_id (
            attribution_event_id payload.outcome_event_id payload.policy_version
              payload.ingest_cutoff)))
        "attribution_event_id_is_not_the_operation_identity"

  -- The recomputation.
  unfoldable pub validate_recomputed :
      Ledger → OutcomeAttributedPayload → Result IngestError (Unit {0})
  validate_recomputed conn payload = do
    recomputed ← map_err attribution_failure (
        attribute codec.fromisoformat conn payload.outcome_event_id
          (int_value payload.ingest_cutoff) payload.policy_version)
    reject_if (not (agrees payload recomputed)) "attribution_disagrees_with_policy"

  -- `_validate_attribution`
  unfoldable pub validate_attribution :
      Ledger → Envelope → OutcomeAttributedPayload → Result IngestError (Unit {0})
  validate_attribution conn e payload = do
    validate_attributed_outcome conn e payload.outcome_event_id
    validate_operation conn e payload
    validate_attribution_supersession conn payload
    validate_resolved_action conn payload.resolved_action_event_id e.account_ref
    validate_resolved_decision conn payload.resolved_decision_event_id e.account_ref
    validate_recomputed conn payload
