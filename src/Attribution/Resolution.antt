-- ===== src/Attribution/Resolution.antt =====
-- `attribute` resolves as the policy states: a valid explicit reference, else the most recent
-- eligible action of the account, else nothing.
use mathlib.Core.Path.{subst}
use flight_recorder.Base.{
  ℕ, ◌≡◌, refl, inl, inr, Option, none, some, List, [], ◌∷◌, ◌++◌, String, str_eq, str_eq_iff, ok,
  arith, if◌then◌else◌, ok_inversion, ok_inj, Member, member-All, Bool-cases, not, ◌&&◌, raise_if,
}
use flight_recorder.Base.Int.{ℤ}
use flight_recorder.Rules.{ScalarValue}
use flight_recorder.Ledger.{Ledger}
use flight_recorder.Attribution.Records.{
  unsupported_policy_version, AttributionResult, OutcomeClaims, ActionCandidate, DecisionClaim,
  Problem, source_references_disagree, status_inferred, status_unresolved, method_heuristic,
  method_unresolved, valid_source_action, valid_source_decision, valid_source_action_and_decision,
  most_recent_eligible_action, no_eligible_action,
}
use flight_recorder.Attribution.Snapshot.{validate_cutoff, load_outcome}
use flight_recorder.Attribution.Claims.{eligible, most_recent_eligible, is_implemented}
use flight_recorder.Attribution.Attribute.{
  make, fallback_reason, check_action_claim, check_decision_claim, fall_back, explicit_reference,
  resolve, attribute, has_claim, is_empty,
}
use flight_recorder.Attribution.Eligibility.{action_problem-iff_IsEligible}
use flight_recorder.Attribution.Recency.{
  IsNotAfter, IsLatest, most_recent_eligible-IsLatest, most_recent_eligible-none, eligible_sound,
  eligible_complete,
}
use flight_recorder.Attribution.Standing.{
  both, action_alone, decision_alone, NotDirect, account_actions, IsMostRecent, Resolution,
  is_direct, is_inferred, is_unresolved,
}
use flight_recorder.Attribution.Verdicts.{
  ActionVerdict, no_action_claim, good_action, bad_action, DecisionVerdict, no_decision_claim,
  good_decision, bad_decision, check_action_claim-ActionVerdict,
  check_decision_claim-DecisionVerdict,
}
use flight_recorder.Attribution.Invalid.{
  bad_action-NotDirect, bad_decision-NotDirect, no_claims-NotDirect, disagree-NotDirect,
}

module _ (fromisoformat : String → Option ℤ) (conn : Ledger) (outcome : OutcomeClaims)
    (cutoff : ℕ) where
  abbrev Kept : List ActionCandidate → Type 0
  Kept kept =
      eligible fromisoformat (account_actions fromisoformat conn outcome cutoff) outcome.account_ref
        outcome.observation_instant
      ≡ ok kept

  eligible-IsMostRecent :
      (kept : List ActionCandidate) (chosen : ActionCandidate)
      → Kept kept
      → IsLatest fromisoformat chosen kept
      → IsMostRecent fromisoformat conn outcome cutoff chosen
  eligible-IsMostRecent kept chosen e l =
      let actions = account_actions fromisoformat conn outcome cutoff in
      let (m, q) =
        eligible_sound fromisoformat outcome.account_ref outcome.observation_instant chosen actions
          e l.is_member in
      record {
        is_recorded = m;
        is_eligible =
            (action_problem-iff_IsEligible fromisoformat chosen outcome.account_ref
                outcome.observation_instant).0
              q;
        occurred = l.occurred;
        occurrence = l.occurrence;
        none_after = λ c mc ec.
            member-All (IsNotAfter fromisoformat (l.occurred, chosen.ingest_sequence)) kept
              l.none_after
              (eligible_complete fromisoformat outcome.account_ref outcome.observation_instant c
                actions e
                ((action_problem-iff_IsEligible fromisoformat c outcome.account_ref
                    outcome.observation_instant).1
                  ec)
                mc);
      }

  module _ (id version : String) (r : AttributionResult) where
    fall_back-Resolution :
        (problems : List Problem)
        → NotDirect fromisoformat conn outcome cutoff
        → fall_back fromisoformat conn outcome cutoff (make id cutoff version) problems ≡ ok r
        → Resolution fromisoformat conn outcome cutoff id version r
    unfolding fall_back
    fall_back-Resolution problems nd h =
        let actions = account_actions fromisoformat conn outcome cutoff in
        ok_inversion
          (eligible fromisoformat actions outcome.account_ref outcome.observation_instant) h
          λ kept e k.
            ok_inversion (most_recent_eligible fromisoformat kept) k
              λ chosen e' k'. choose kept e chosen e' (ok_inj k')
      where
        choose :
            (kept : List ActionCandidate)
            → Kept kept
            → (chosen : Option ActionCandidate)
            → most_recent_eligible fromisoformat kept ≡ ok chosen
            → elim chosen [
              | none ↦
                  make id cutoff version method_unresolved status_unresolved
                    (fallback_reason problems no_eligible_action)
                    none
                    none
              | some c ↦
                  make id cutoff version method_heuristic status_inferred
                    (fallback_reason problems most_recent_eligible_action)
                    (some c.action_event_id)
                    (some c.decision_event_id)
            ]
              ≡ r
            → Resolution fromisoformat conn outcome cutoff id version r
        choose kept e none e' q =
            is_unresolved problems nd
              (λ c mc ec.
                let m =
                  eligible_complete fromisoformat outcome.account_ref outcome.observation_instant c
                    (account_actions fromisoformat conn outcome cutoff) e
                    ((action_problem-iff_IsEligible fromisoformat c outcome.account_ref
                        outcome.observation_instant).1
                      ec)
                    mc in
                (subst (Member c) (most_recent_eligible-none fromisoformat kept e') m).1)
              q
        choose kept e (some c) e' q =
            is_inferred c problems nd
              (eligible-IsMostRecent kept c e
                (most_recent_eligible-IsLatest fromisoformat kept c e'))
              q

    abbrev Step : Option ActionCandidate → Option DecisionClaim → List Problem → Type 0
    Step a d problems =
        (if has_claim outcome && is_empty problems
          then explicit_reference (make id cutoff version)
              (fall_back fromisoformat conn outcome cutoff (make id cutoff version)) a d
          else fall_back fromisoformat conn outcome cutoff (make id cutoff version) problems)
        ≡ ok r

    proceed-Resolution :
        (a : Option ActionCandidate) (d : Option DecisionClaim) (p q : List Problem)
        → ActionVerdict fromisoformat conn outcome cutoff a p
        → DecisionVerdict fromisoformat conn outcome cutoff d q
        → Step a d (p ++ q)
        → Resolution fromisoformat conn outcome cutoff id version r
    unfolding explicit_reference
    proceed-Resolution a d p q (no_action_claim e ea ep) (no_decision_claim f fd fq) h =
        fall_back-Resolution (p ++ q) (no_claims-NotDirect fromisoformat conn outcome cutoff e f)
          (ground arith)
    proceed-Resolution a d p q (no_action_claim e ea ep) (good_decision c cd fd fq) h =
        is_direct valid_source_decision none (some c.decision_event_id)
          (decision_alone c e cd refl refl refl) (ground (arith, cd.claimed))
    proceed-Resolution a d p q (no_action_claim e ea ep) (bad_decision claim b f j fq) h =
        fall_back-Resolution (p ++ q)
          (bad_decision-NotDirect fromisoformat conn outcome cutoff claim b f j) (ground arith)
    proceed-Resolution a d p q (good_action c ca ea ep) (no_decision_claim f fd fq) h =
        is_direct valid_source_action (some c.action_event_id) (some c.decision_event_id)
          (action_alone c ca f refl refl refl) (ground (arith, ca.claimed))
    proceed-Resolution a d p q (good_action c ca ea ep) (good_decision c' cd fd fq) h =
        elim (Bool-cases (str_eq c.decision_event_id c'.decision_event_id)) [
          | inl agree ↦
              is_direct valid_source_action_and_decision (some c.action_event_id)
                (some c'.decision_event_id)
                (both c c' ca cd ((str_eq_iff c.decision_event_id c'.decision_event_id).0 agree)
                  refl refl refl)
                (ground (arith, ca.claimed))
          | inr differ ↦
              fall_back-Resolution (source_references_disagree ∷ [])
                (disagree-NotDirect fromisoformat conn outcome cutoff c c' ca cd differ)
                (ground (arith, ca.claimed))
        ]
    proceed-Resolution a d p q (good_action c ca ea ep) (bad_decision claim b f j fq) h =
        fall_back-Resolution (p ++ q)
          (bad_decision-NotDirect fromisoformat conn outcome cutoff claim b f j) (ground arith)
    proceed-Resolution a d p q (bad_action claim b e j ep) v h =
        fall_back-Resolution (p ++ q)
          (bad_action-NotDirect fromisoformat conn outcome cutoff claim b e j) (ground arith)

    resolve-Resolution :
        resolve fromisoformat conn outcome id cutoff version ≡ ok r
        → Resolution fromisoformat conn outcome cutoff id version r
    unfolding resolve
    resolve-Resolution h =
        let account_ref = outcome.account_ref in
        let observed = outcome.observation_instant in
        ok_inversion
          (check_action_claim fromisoformat conn outcome.source_action_event_id cutoff account_ref
            observed)
          h
          λ (a, p) e k.
            ok_inversion
              (check_decision_claim fromisoformat conn outcome.source_decision_event_id cutoff
                account_ref observed)
              k
              λ (d, q) f l.
                proceed-Resolution a d p q
                  (check_action_claim-ActionVerdict fromisoformat conn outcome cutoff a p e)
                  (check_decision_claim-DecisionVerdict fromisoformat conn outcome cutoff d q f) l

-- What `attribute` found at its cutoff: the outcome inside the snapshot, and its resolution.
pub record Attributed (fromisoformat : String → Option ℤ) (conn : Ledger) (id : String)
    (cutoff : ScalarValue) (version : String) (r : AttributionResult) : Type 0 where
  pub sequence : ℕ
  pub outcome : OutcomeClaims
  pub is_valid : validate_cutoff conn cutoff ≡ ok sequence
  pub is_loaded : load_outcome conn id sequence ≡ ok outcome
  pub resolution : Resolution fromisoformat conn outcome sequence id version r

-- Every result of `attribute` is one of three, and which one it is follows from the snapshot: direct,
-- with the reason and the identifiers of a valid explicit reference; or, when there is no valid
-- explicit reference, inferred from an eligible action of the account that no eligible action of the
-- account is after, in occurrence and then in ingest sequence; or unresolved, when moreover no
-- action of the account is eligible.
pub attribute-Attributed :
    (fromisoformat : String → Option ℤ) (conn : Ledger) (id : String) (cutoff : ScalarValue)
    (version : String) (r : AttributionResult)
    → attribute fromisoformat conn id cutoff version ≡ ok r
    → Attributed fromisoformat conn id cutoff version r
unfolding attribute
attribute-Attributed fromisoformat conn id cutoff version r h =
    ok_inversion (raise_if (not (is_implemented version)) (unsupported_policy_version version)) h
      λ _ _ k. ok_inversion (validate_cutoff conn cutoff) k λ n e k₁.
        ok_inversion (load_outcome conn id n) k₁ λ outcome f k₂. record {
          sequence = n;
          outcome = outcome;
          is_valid = e;
          is_loaded = f;
          resolution = resolve-Resolution fromisoformat conn outcome n id version r k₂;
        }
