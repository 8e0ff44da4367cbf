-- ===== src/Evaluator/Locality.antt =====
-- An evaluation depends on the preserved entries of the artifact's own keys and on nothing else.
use mathlib.Core.Path.{subst}
use flight_recorder.Base.{◌≡◌, refl, sym, ◌∙◌, List, [], ◌∷◌, ok, All, String}
use flight_recorder.Base.Datetime.{Datetime}
use flight_recorder.Base.Dict.{Dict, lookup}
use flight_recorder.Rules.{Rule}
use flight_recorder.Evaluator.{
  Factor, LogicArtifact, ContextInput, EvaluationResult, conclude, evaluate, evaluate_factors,
}
use flight_recorder.Evaluator.Run.{evaluate-Run, Run-evaluate, entry_of, lookup-index}
use flight_recorder.Evaluator.Keys.{HasUniqueKeys, index-iff_HasUniqueKeys}

-- The two contexts hold the same entry, or both none, for each factor's key.
abbrev pub AgreeOn : List ContextInput → List ContextInput → Factor → Type 0
AgreeOn c c' f = entry_of f.key c ≡ entry_of f.key c'

evaluate_factors_agree :
    (d d' : Dict ContextInput) (utc : Datetime) (factors : List Factor) (rules : List Rule)
    → All (λ f. lookup f.key d ≡ lookup f.key d') factors
    → evaluate_factors d utc factors rules ≡ evaluate_factors d' utc factors rules
unfolding evaluate_factors
evaluate_factors_agree d d' utc [] [] h = refl
evaluate_factors_agree d d' utc [] (rule ∷ rules) h = refl
evaluate_factors_agree d d' utc (f ∷ factors) [] h = refl
evaluate_factors_agree d d' utc (f ∷ factors) (rule ∷ rules) h =
    rw (h.0) (rw (evaluate_factors_agree d d' utc factors rules h.1))

-- What two results share when they differ at most in the inputs that no factor names.
pub record SameDecision (r r' : EvaluationResult) : Type 0 where
  pub score : r.score ≡ r'.score
  pub threshold : r.threshold ≡ r'.threshold
  pub output : r.output ≡ r'.output
  pub factors : r.factors ≡ r'.factors

All-trans :
    (c c' : List ContextInput) (d d' : Dict ContextInput) (factors : List Factor)
    → ((k : String) → lookup k d ≡ entry_of k c)
    → ((k : String) → lookup k d' ≡ entry_of k c')
    → All (AgreeOn c c') factors
    → All (λ f. lookup f.key d ≡ lookup f.key d') factors
All-trans c c' d d' [] h h' a = tt
All-trans c c' d d' (f ∷ factors) h h' a =
    (h f.key ∙ a.0 ∙ sym (h' f.key), All-trans c c' d d' factors h h' a.1)

-- If an evaluation succeeds over one context, it succeeds over every context with distinct keys
-- that agrees with it on the artifact's keys, in whatever order and with whatever further entries,
-- and the score, the threshold, the output and every factor are the same.
pub evaluate_local :
    (artifact : LogicArtifact) (c c' : List ContextInput) (boundary : Datetime)
    (r : EvaluationResult)
    → evaluate artifact c boundary ≡ ok r
    → HasUniqueKeys c'
    → All (AgreeOn c c') artifact.factors
    → (r' : EvaluationResult) × (evaluate artifact c' boundary ≡ ok r') × SameDecision r r'
unfolding conclude
evaluate_local artifact c c' boundary r h unique agree =
    let run = evaluate-Run artifact c boundary h in
    let (d', indexed) = (index-iff_HasUniqueKeys c').1 unique in
    let same = evaluate_factors_agree run.preserved d' run.utc artifact.factors run.rules (
      All-trans c c' run.preserved d' artifact.factors (λ k. lookup-index k c run.indexed)
        (λ k. lookup-index k c' indexed) agree) in
    let r' = conclude artifact c' run.results in
    (
      r',
      Run-evaluate artifact c' boundary (record {
        utc = run.utc;
        preserved = d';
        rules = run.rules;
        results = run.results;
        is_aware = run.is_aware;
        is_supported = run.is_supported;
        indexed = indexed;
        parsed = run.parsed;
        evaluated = sym same ∙ run.evaluated;
        concluded = refl;
      }),
      subst (λ (x : EvaluationResult). SameDecision x r') run.concluded
          (record { score = refl; threshold = refl; output = refl; factors = refl }),
    )
