-- ===== src/Evaluator/Explained.antt =====
-- Every factor of a result is explained by the preserved context alone: its state, whether its rule
-- matched, and what it contributed.
use mathlib.Core.Path.{subst}
use flight_recorder.Base.{
  ◌≡◌, sym, ◌∙◌, ap, Bool, true, false, Option, none, some, List, [], ◌∷◌, arith, ok, map_err,
  ok_inversion, ok_inj, if◌then◌else◌, Pairs, Option-cases, Bool-cases, inl, inr,
}
use flight_recorder.Base.Int.{pos, ◌-ℤ◌, int_laws}
use flight_recorder.Base.Datetime.{Datetime}
use flight_recorder.Base.Dict.{Dict, lookup}
use flight_recorder.Rules.{Rule, matches, parse_rule, require_aware_boundary, ScalarValue, Observed}
use flight_recorder.Rules.Window.{matches-same_instant, aware}
use flight_recorder.Evaluator.{
  Factor, LogicArtifact, ContextInput, FactorResult, EvaluationResult, rule_failure, evaluate_entry,
  evaluate_factors, conclude, evaluate, is_available, parse_rules, consumed, unavailable, absent,
  index,
}
use flight_recorder.Evaluator.Run.{evaluate-Run, entry_of, lookup-index, map_err-ok}

-- Why a factor has the result that it has, over a context at a boundary.
pub data Explained (context : List ContextInput) (boundary : Datetime) (f : Factor)
    (r : FactorResult) : Type 0 where
  -- No entry for the key: no match, nothing contributed, no evidence named.
  by_absence :
      entry_of f.key context ≡ none
      → r ≡ record {
        key = f.key;
        rule = f.rule;
        weight = f.weight;
        input_state = absent;
        matched = false;
        contribution = pos 0;
        evidence_version_id = none;
      }
      → Explained context boundary f r
  -- An entry that was recorded as unavailable: the same.
  by_unavailability :
      (entry : ContextInput)
      → entry_of f.key context ≡ some entry
      → is_available entry ≡ false
      → r ≡ record {
        key = f.key;
        rule = f.rule;
        weight = f.weight;
        input_state = unavailable;
        matched = false;
        contribution = pos 0;
        evidence_version_id = none;
      }
      → Explained context boundary f r
  -- An available entry: consumed, whether or not the rule that the text states matches.
  by_rule :
      (entry : ContextInput) (rule : Rule) (verdict : Bool)
      → entry_of f.key context ≡ some entry
      → is_available entry ≡ true
      → parse_rule f.key f.rule ≡ ok rule
      → matches rule entry.value entry.observed_at boundary ≡ ok verdict
      → r ≡ record {
        key = f.key;
        rule = f.rule;
        weight = f.weight;
        input_state = consumed;
        matched = verdict;
        contribution = if verdict then f.weight else pos 0;
        evidence_version_id = entry.evidence_version_id;
      }
      → Explained context boundary f r

-- Moving a boundary to UTC changes no match.
pub matches-utc :
    (rule : Rule) (value : ScalarValue) (observed_at : Option Observed) (boundary : Datetime)
    {utc : Datetime}
    → require_aware_boundary boundary ≡ ok utc
    → matches rule value observed_at utc ≡ matches rule value observed_at boundary
unfolding require_aware_boundary
matches-utc rule value observed_at boundary {utc} h = elim (Option-cases boundary.utcoffset) [
  | inl naive ↦ cc (rw (naive, require_aware_boundary) at h)
  | inr (offset, e) ↦
      let here : aware boundary.local offset ≡ boundary = ground arith in
      let there : aware (boundary.local -ℤ offset) (pos 0) ≡ utc =
        ok_inj (rw (e, require_aware_boundary) at h) in
      let same : boundary.local -ℤ offset -ℤ pos 0 ≡ boundary.local -ℤ offset = omega int_laws in
      ap (matches rule value observed_at) (sym there)
      ∙ matches-same_instant rule value observed_at (boundary.local -ℤ offset) (pos 0)
          boundary.local offset same
      ∙ ap (matches rule value observed_at) here
]

evaluate_entry-Explained :
    (context : List ContextInput) (boundary utc : Datetime) (f : Factor) (rule : Rule)
    (entry : Option ContextInput) {r : FactorResult}
    → ((value : ScalarValue) (o : Option Observed)
        → matches rule value o utc ≡ matches rule value o boundary)
    → parse_rule f.key f.rule ≡ ok rule
    → entry_of f.key context ≡ entry
    → evaluate_entry utc f rule entry ≡ ok r
    → Explained context boundary f r
unfolding evaluate_entry
evaluate_entry-Explained context boundary utc f rule none same p e h = by_absence e (sym (ok_inj h))
evaluate_entry-Explained context boundary utc f rule (some entry) same p e h =
    elim (Bool-cases (is_available entry)) [
      | inl av ↦
          ok_inversion (map_err rule_failure (matches rule entry.value entry.observed_at utc))
            (rw av at h)
            λ m h₁ k₁.
              by_rule entry rule m e av p
                (sym (same entry.value entry.observed_at)
                  ∙ map_err-ok rule_failure (matches rule entry.value entry.observed_at utc) h₁)
                (sym (ok_inj k₁))
      | inr un ↦ by_unavailability entry e un (sym (ok_inj (rw un at h)))
    ]

module _ (context : List ContextInput) (boundary utc : Datetime) (preserved : Dict ContextInput)
    (found : index context ≡ ok preserved)
    (same : (rule : Rule) (value : ScalarValue) (o : Option Observed)
      → matches rule value o utc ≡ matches rule value o boundary) where
  evaluate_factors-Explained :
      (factors : List Factor) (rules : List Rule) {results : List FactorResult}
      → parse_rules factors ≡ ok rules
      → evaluate_factors preserved utc factors rules ≡ ok results
      → Pairs (Explained context boundary) factors results
  unfolding evaluate_factors parse_rules
  evaluate_factors-Explained [] [] p h =
      subst (λ rs. Pairs (Explained context boundary) [] rs) (ok_inj h) tt
  evaluate_factors-Explained [] (rule ∷ rules) p h = cc
  evaluate_factors-Explained (f ∷ factors) rules p h =
      ok_inversion (map_err rule_failure (parse_rule f.key f.rule)) p λ rule p₁ q₁.
        ok_inversion (parse_rules factors) q₁ λ rules' p₂ q₂.
          let h' = rw (sym (ok_inj q₂)) at h in
          ok_inversion (evaluate_entry utc f rule (lookup f.key preserved)) h' λ r h₁ k₁.
            ok_inversion (evaluate_factors preserved utc factors rules') k₁ λ rs h₂ k₂.
              let head =
                evaluate_entry-Explained context boundary utc f rule (lookup f.key preserved)
                  (same rule) (map_err-ok rule_failure (parse_rule f.key f.rule) p₁)
                  (sym (lookup-index f.key context found)) h₁ in
              subst (λ rs. Pairs (Explained context boundary) (f ∷ factors) rs) (ok_inj k₂)
                (head, evaluate_factors-Explained factors rules' p₂ h₂)

-- A successful evaluation lists the artifact's factors in order, each with the result that the
-- preserved context and the boundary explain.
pub evaluate-Explained :
    (artifact : LogicArtifact) (context : List ContextInput) (boundary : Datetime)
    (result : EvaluationResult)
    → evaluate artifact context boundary ≡ ok result
    → Pairs (Explained context boundary) artifact.factors result.factors
unfolding conclude
evaluate-Explained artifact context boundary result h =
    let run = evaluate-Run artifact context boundary h in
    let explained =
      evaluate_factors-Explained context boundary run.utc run.preserved run.indexed
        (λ rule value o. matches-utc rule value o boundary run.is_aware) artifact.factors run.rules
        run.parsed run.evaluated in
    subst (λ (r : EvaluationResult). Pairs (Explained context boundary) artifact.factors r.factors)
      run.concluded explained
