-- ===== src/Evaluator/Bound.antt =====
-- The positive-weight bound of an artifact, and the threshold above it.
use mathlib.Core.Path.{subst}
use flight_recorder.Base.{
  refl, ◌≡◌, true, false, List, [], ◌∷◌, arith, ok, if◌then◌else◌, Pairs, ap, ◌⊎◌, inl, inr,
}
use flight_recorder.Base.Int.{pos, ◌≤ℤ◌, leb_ℤ, +ℤ_parts}
use flight_recorder.Base.Datetime.{Datetime}
use flight_recorder.Evaluator.{
  Factor, LogicArtifact, ContextInput, FactorResult, EvaluationResult, total, conclude, evaluate,
  positive_weights, positive_weight_score_bound, threshold_exceeds_positive_weight_bound,
}
use flight_recorder.Evaluator.Run.{evaluate-Run}
use flight_recorder.Evaluator.Explained.{
  Explained, by_absence, by_unavailability, by_rule, evaluate-Explained,
}

module _ (context : List ContextInput) (boundary : Datetime) where
  contribution_cases :
      (f : Factor) (r : FactorResult)
      → Explained context boundary f r
      → (r.contribution ≡ pos 0) ⊎ (r.contribution ≡ f.weight)
  contribution_cases f r (by_absence _ e) = inl (ap (λ (x : FactorResult). x.contribution) e)
  contribution_cases f r (by_unavailability _ _ _ e) =
      inl (ap (λ (x : FactorResult). x.contribution) e)
  contribution_cases f r (by_rule _ _ true _ _ _ _ e) =
      inr (ap (λ (x : FactorResult). x.contribution) e)
  contribution_cases f r (by_rule _ _ false _ _ _ _ e) =
      inl (ap (λ (x : FactorResult). x.contribution) e)

  total-le-positive_weights :
      (factors : List Factor) (results : List FactorResult)
      → Pairs (Explained context boundary) factors results
      → total results ≤ℤ positive_weights factors
  unfolding total positive_weights
  total-le-positive_weights [] [] h = omega arith
  total-le-positive_weights [] (r ∷ results) h = absurd h.1
  total-le-positive_weights (f ∷ factors) [] h = absurd h.1
  total-le-positive_weights (f ∷ factors) (r ∷ results) h = ground (
    arith,
    contribution_cases f r h.0,
    total-le-positive_weights factors results h.1,
    +ℤ_parts f.weight (positive_weights factors),
    +ℤ_parts r.contribution (total results),
  )

module _ (artifact : LogicArtifact) (context : List ContextInput) (boundary : Datetime)
    (result : EvaluationResult) (evaluated : evaluate artifact context boundary ≡ ok result) where
  score-total : result.score ≡ total result.factors
  unfolding conclude
  score-total =
      let run = evaluate-Run artifact context boundary evaluated in
      subst (λ (r : EvaluationResult). r.score ≡ total r.factors) run.concluded refl

  output_lem : result.output ≡ (
      if leb_ℤ artifact.threshold result.score
      then artifact.output_mapping.at_or_above_threshold
      else artifact.output_mapping.below_threshold)
  unfolding conclude
  output_lem =
      let run = evaluate-Run artifact context boundary evaluated in
      subst
        (λ (r : EvaluationResult). r.output ≡ (
          if leb_ℤ artifact.threshold r.score
          then artifact.output_mapping.at_or_above_threshold
          else artifact.output_mapping.below_threshold))
        run.concluded refl

  -- No context scores above the sum of the artifact's positive weights.
  pub score-le-positive_weight_score_bound : result.score ≤ℤ positive_weight_score_bound artifact
  unfolding positive_weight_score_bound
  score-le-positive_weight_score_bound = rw score-total (
      total-le-positive_weights context boundary artifact.factors result.factors
        (evaluate-Explained artifact context boundary result evaluated))

  -- If the threshold is above the positive-weight bound, then whatever the context holds, the
  -- output is the one below the threshold.
  pub unreachable_threshold :
      threshold_exceeds_positive_weight_bound artifact ≡ true
      → result.output ≡ artifact.output_mapping.below_threshold
  unfolding threshold_exceeds_positive_weight_bound
  unreachable_threshold exceeds = ground (arith, output_lem, score-le-positive_weight_score_bound)
