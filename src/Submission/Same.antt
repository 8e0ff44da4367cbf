-- ===== src/Submission/Same.antt =====
-- `same_policy_result` of attribution/policy.py against the equality of the fields.
use flight_recorder.Base.{
  ◌≡◌, refl, sym, true, Option, none, some, String, str_eq, str_eq_iff, str_eq_refl, ◌↔◌, and_split,
  arith,
}
use flight_recorder.Base.Int.{ℤ, pos, negsuc, eqb_ℤ, eqb_ℤ_sound}
use flight_recorder.Ledger.{StoredAttribution}
use flight_recorder.Attribution.Records.{AttributionResult}
use flight_recorder.Collector.References.{opt_str_eq}
use flight_recorder.Collector.Attested.{IsResult, opt_str_eq_sound}
use flight_recorder.Submission.{same_policy_result}

opt_str_eq_refl : (s : Option String) → opt_str_eq s s ≡ true
opt_str_eq_refl none = refl
opt_str_eq_refl (some s) = str_eq_refl s

eqb_ℤ_refl : (a : ℤ) → eqb_ℤ a a ≡ true
eqb_ℤ_refl (pos n) = ground arith
eqb_ℤ_refl (negsuc n) = ground arith

pub same_policy_result-iff_IsResult :
    (r : AttributionResult) (a : StoredAttribution) → (same_policy_result r a ≡ true) ↔ IsResult a r
same_policy_result-iff_IsResult r a = (
  (λ h.
      let (h₇, reason) = and_split _ (str_eq r.reason a.reason) h in
      let (h₆, status) = and_split _ (str_eq r.status a.status) h₇ in
      let (h₅, decision) =
        and_split _ (opt_str_eq r.resolved_decision_event_id a.resolved_decision_event_id) h₆ in
      let (h₄, action) =
        and_split _ (opt_str_eq r.resolved_action_event_id a.resolved_action_event_id) h₅ in
      let (h₃, window) = and_split _ (eqb_ℤ r.window_days a.window_days) h₄ in
      let (h₂, method) = and_split _ (str_eq r.method a.method) h₃ in
      let (outcome, version) = and_split _ (str_eq r.policy_version a.policy_version) h₂ in
      record {
        outcome_event_id = sym ((str_eq_iff r.outcome_event_id a.outcome_event_id).0 outcome);
        policy_version = sym ((str_eq_iff r.policy_version a.policy_version).0 version);
        method = sym ((str_eq_iff r.method a.method).0 method);
        window_days = sym (eqb_ℤ_sound r.window_days a.window_days window);
        resolved_action_event_id =
            sym (opt_str_eq_sound r.resolved_action_event_id a.resolved_action_event_id action);
        resolved_decision_event_id =
            sym
              (opt_str_eq_sound r.resolved_decision_event_id a.resolved_decision_event_id decision);
        status = sym ((str_eq_iff r.status a.status).0 status);
        reason = sym ((str_eq_iff r.reason a.reason).0 reason);
      }),
  (λ s.
      rw
        (
          s.outcome_event_id,
          s.policy_version,
          s.method,
          s.window_days,
          s.resolved_action_event_id,
          s.resolved_decision_event_id,
          s.status,
          s.reason,
          str_eq_refl r.outcome_event_id,
          str_eq_refl r.policy_version,
          str_eq_refl r.method,
          eqb_ℤ_refl r.window_days,
          opt_str_eq_refl r.resolved_action_event_id,
          opt_str_eq_refl r.resolved_decision_event_id,
          str_eq_refl r.status,
          str_eq_refl r.reason,
        )
        refl),
)
