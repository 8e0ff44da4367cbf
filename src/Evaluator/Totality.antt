-- ===== src/Evaluator/Totality.antt =====
-- When `evaluate` returns a result.
use mathlib.Core.Path.{subst}
use mathlib.Core.Option.{some_inj}
use flight_recorder.Base.{
  ◌≡◌, refl, sym, ◌∙◌, Bool, true, false, Option, none, some, List, [], ◌∷◌, ok, All, String,
  Bool-cases, Option-cases, inl, inr, ◌↔◌, ap, map_err, ok_inversion, ok_inj, arith,
}
use flight_recorder.Base.Int.{ℤ}
use flight_recorder.Base.Datetime.{Datetime, shift_utc}
use flight_recorder.Base.Dict.{Dict, lookup}
use flight_recorder.Rules.{Rule, parse_rule, matches, require_aware_boundary}
use flight_recorder.Rules.Window.{aware}
use flight_recorder.Evaluator.{
  Factor, LogicArtifact, ContextInput, FactorResult, EvaluationResult, evaluate, evaluate_entry,
  evaluate_factors, parse_rules, conclude, is_available, rule_failure, factor_result, absent,
  consumed, unavailable, supported_missing_value_behavior,
}
use flight_recorder.Evaluator.Run.{evaluate-Run, map_err-ok, Run-evaluate, entry_of, lookup-index}
use flight_recorder.Evaluator.Keys.{HasUniqueKeys, index-iff_HasUniqueKeys}
use flight_recorder.Evaluator.Explained.{matches-utc}

-- The factor's rule parses, and does not raise on the entry of its key, if that is available.
abbrev pub IsEvaluable : List ContextInput → Datetime → Factor → Type 0
IsEvaluable context boundary f =
    (rule : Rule) × (parse_rule f.key f.rule ≡ ok rule)
    × ((entry : ContextInput)
        → entry_of f.key context ≡ some entry
        → is_available entry ≡ true
        → (verdict : Bool) × (matches rule entry.value entry.observed_at boundary ≡ ok verdict))

evaluate_entry_total :
    (utc : Datetime) (f : Factor) (rule : Rule) (o : Option ContextInput)
    → ((entry : ContextInput)
        → o ≡ some entry
        → is_available entry ≡ true
        → (verdict : Bool) × (matches rule entry.value entry.observed_at utc ≡ ok verdict))
    → (r : FactorResult) × (evaluate_entry utc f rule o ≡ ok r)
unfolding evaluate_entry
evaluate_entry_total utc f rule none fits = (factor_result f absent false none, refl)
evaluate_entry_total utc f rule (some entry) fits = elim (Bool-cases (is_available entry)) [
  | inl av ↦
      let (m, e) = fits entry refl av in
      (factor_result f consumed m entry.evidence_version_id, rw av (rw e refl))
  | inr un ↦ (factor_result f unavailable false none, rw un refl)
]

module _ (context : List ContextInput) (boundary utc : Datetime) (d : Dict ContextInput)
    (is_utc : require_aware_boundary boundary ≡ ok utc)
    (found : (k : String) → lookup k d ≡ entry_of k context) where
  factors_total :
      (factors : List Factor)
      → All (IsEvaluable context boundary) factors
      → (rules : List Rule) × (results : List FactorResult) × (parse_rules factors ≡ ok rules)
        × (evaluate_factors d utc factors rules ≡ ok results)
  unfolding evaluate_factors parse_rules
  factors_total [] h = ([], [], refl, refl)
  factors_total (f ∷ factors) h =
      let (rule, p, fits) = h.0 in
      let (rules, results, q, ev) = factors_total factors h.1 in
      let (r, e) = evaluate_entry_total utc f rule (lookup f.key d) λ entry o av.
        let (m, e) = fits entry (sym (found f.key) ∙ o) av in
        (m, matches-utc rule entry.value entry.observed_at boundary is_utc ∙ e) in
      (rule ∷ rules, r ∷ results, rw p (rw q), rw e (rw ev))

pub evaluate_total :
    (artifact : LogicArtifact) (context : List ContextInput) (local offset : ℤ)
    → artifact.missing_value_behavior ≡ supported_missing_value_behavior
    → HasUniqueKeys context
    → All (IsEvaluable context (aware local offset)) artifact.factors
    → (result : EvaluationResult) × (evaluate artifact context (aware local offset) ≡ ok result)
evaluate_total artifact context local offset supported unique evaluable =
    let boundary = aware local offset in
    let utc = shift_utc local offset in
    let is_utc : require_aware_boundary boundary ≡ ok utc = unfold require_aware_boundary in refl in
    let (d, indexed) = (index-iff_HasUniqueKeys context).1 unique in
    let (rules, results, parsed, evaluated) =
      factors_total context boundary utc d is_utc (λ k. lookup-index k context indexed)
        artifact.factors evaluable in
    let result = conclude artifact context results in
    (
      result,
      Run-evaluate artifact context boundary (record {
        utc = utc;
        preserved = d;
        rules = rules;
        results = results;
        is_aware = is_utc;
        is_supported = supported;
        indexed = indexed;
        parsed = parsed;
        evaluated = evaluated;
        concluded = refl;
      }),
    )

-- What `evaluate` asks of its arguments.
pub record CanEvaluate (artifact : LogicArtifact) (context : List ContextInput)
    (boundary : Datetime) : Type 0 where
  pub offset : ℤ
  pub is_aware : boundary.utcoffset ≡ some offset
  pub is_supported : artifact.missing_value_behavior ≡ supported_missing_value_behavior
  pub are_unique : HasUniqueKeys context
  pub are_evaluable : All (IsEvaluable context boundary) artifact.factors

entry_verdict :
    (utc : Datetime) (f : Factor) (rule : Rule) (o : Option ContextInput) (entry : ContextInput)
    {r : FactorResult}
    → evaluate_entry utc f rule o ≡ ok r
    → o ≡ some entry
    → is_available entry ≡ true
    → (verdict : Bool) × (matches rule entry.value entry.observed_at utc ≡ ok verdict)
unfolding evaluate_entry
entry_verdict utc f rule none entry h q av = cc
entry_verdict utc f rule (some found) entry h q av =
    let same : found ≡ entry = some_inj.0 q in
    let available : is_available found ≡ true = ap is_available same ∙ av in
    ok_inversion (map_err rule_failure (matches rule found.value found.observed_at utc))
      (rw available at h)
      λ verdict e k. (
        verdict,
        subst (λ (x : ContextInput). matches rule x.value x.observed_at utc ≡ ok verdict) same
            (map_err-ok rule_failure (matches rule found.value found.observed_at utc) e),
      )

module _ (context : List ContextInput) (boundary utc : Datetime) (d : Dict ContextInput)
    (is_utc : require_aware_boundary boundary ≡ ok utc)
    (found : (k : String) → lookup k d ≡ entry_of k context) where
  factors-IsEvaluable :
      (factors : List Factor) {rules : List Rule} {results : List FactorResult}
      → parse_rules factors ≡ ok rules
      → evaluate_factors d utc factors rules ≡ ok results
      → All (IsEvaluable context boundary) factors
  unfolding evaluate_factors parse_rules
  factors-IsEvaluable [] p h = tt
  factors-IsEvaluable (f ∷ factors) p h =
      ok_inversion (map_err rule_failure (parse_rule f.key f.rule)) p λ rule e₁ p₁.
        ok_inversion (parse_rules factors) p₁ λ rules e₂ p₂.
          let h' = rw (sym (ok_inj p₂)) at h in
          ok_inversion (evaluate_entry utc f rule (lookup f.key d)) h' λ r e₃ h₁.
            ok_inversion (evaluate_factors d utc factors rules) h₁ λ results e₄ h₂. (
              (
                rule,
                map_err-ok rule_failure (parse_rule f.key f.rule) e₁,
                (λ entry q av.
                    let (verdict, e) =
                      entry_verdict utc f rule (lookup f.key d) entry e₃ (found f.key ∙ q) av in
                    (
                      verdict,
                      sym (matches-utc rule entry.value entry.observed_at boundary is_utc) ∙ e,
                    )),
              ),
              factors-IsEvaluable factors e₂ e₄,
            )

utcoffset_of :
    (boundary : Datetime) {utc : Datetime}
    → require_aware_boundary boundary ≡ ok utc
    → (offset : ℤ) × (boundary.utcoffset ≡ some offset)
unfolding require_aware_boundary
utcoffset_of boundary h = elim (Option-cases boundary.utcoffset) [
  | inl naive ↦ cc (rw (naive, require_aware_boundary) at h)
  | inr (offset, e) ↦ (offset, e)
]

-- `evaluate` returns a result exactly when the boundary is aware, the artifact's missing-value behavior
-- is the supported one, no two preserved entries share a key, every rule parses, and no rule raises on
-- the available entry of its key; in every other case it raises.
pub evaluate-iff_CanEvaluate :
    (artifact : LogicArtifact) (context : List ContextInput) (boundary : Datetime)
    → ((result : EvaluationResult) × (evaluate artifact context boundary ≡ ok result))
      ↔ CanEvaluate artifact context boundary
evaluate-iff_CanEvaluate artifact context boundary = (
  (λ (result, h).
      let run = evaluate-Run artifact context boundary h in
      let (offset, is_offset) = utcoffset_of boundary run.is_aware in
      record {
        offset = offset;
        is_aware = is_offset;
        is_supported = run.is_supported;
        are_unique = (index-iff_HasUniqueKeys context).0 (run.preserved, run.indexed);
        are_evaluable =
            factors-IsEvaluable context boundary run.utc run.preserved run.is_aware
              (λ k. lookup-index k context run.indexed) artifact.factors run.parsed run.evaluated;
      }),
  (λ c.
      let same : aware boundary.local c.offset ≡ boundary = ground (arith, c.is_aware) in
      let (result, h) =
        evaluate_total artifact context boundary.local c.offset c.is_supported c.are_unique
          (subst (λ b. All (IsEvaluable context b) artifact.factors) (sym same) c.are_evaluable) in
      (result, ap (evaluate artifact context) (sym same) ∙ h)),
)
