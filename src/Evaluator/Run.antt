-- ===== src/Evaluator/Run.antt =====
-- What a successful call of `evaluate` went through, and what `_index` holds.
use flight_recorder.Base.{
  ◌≡◌, refl, Bool, true, false, not, Option, none, some, List, [], ◌∷◌, String, str_eq, str_eq_iff,
  if◌then◌else◌, arith, Result, ok, err, map_err, raise_if, ok_inversion, ok_inj,
}
use flight_recorder.Base.Datetime.{Datetime}
use flight_recorder.Base.Dict.{Dict, lookup, insert, lookup-insert}
use flight_recorder.Rules.{Rule, require_aware_boundary}
use flight_recorder.Evaluator.{
  LogicArtifact, ContextInput, FactorResult, EvaluationResult, rule_failure,
  supported_missing_value_behavior, unsupported_missing_value_behavior, index_from, index,
  parse_rules, evaluate_factors, conclude, evaluate,
}

pub record Run (artifact : LogicArtifact) (context : List ContextInput) (boundary : Datetime)
    (result : EvaluationResult) : Type 0 where
  pub utc : Datetime
  pub preserved : Dict ContextInput
  pub rules : List Rule
  pub results : List FactorResult
  pub is_aware : require_aware_boundary boundary ≡ ok utc
  pub is_supported : artifact.missing_value_behavior ≡ supported_missing_value_behavior
  pub indexed : index context ≡ ok preserved
  pub parsed : parse_rules artifact.factors ≡ ok rules
  pub evaluated : evaluate_factors preserved utc artifact.factors rules ≡ ok results
  pub concluded : conclude artifact context results ≡ result

pub map_err-ok :
    {E F A : Type 0} (f : E → F) (r : Result E A) {a : A} → map_err f r ≡ ok a → r ≡ ok a
map_err-ok f (ok a) h = cc
map_err-ok f (err e) h = cc

raise_if-ok : {E : Type 0} (b : Bool) (e : E) {u : Unit {0}} → raise_if b e ≡ ok u → b ≡ false
raise_if-ok true e h = cc
raise_if-ok false e h = refl

not-false : (b : Bool) → not b ≡ false → b ≡ true
not-false true h = refl
not-false false h = cc

module _ (artifact : LogicArtifact) (context : List ContextInput) (boundary : Datetime)
    {result : EvaluationResult} where
  pub evaluate-Run :
      evaluate artifact context boundary ≡ ok result → Run artifact context boundary result
  unfolding evaluate
  evaluate-Run h =
      let supported = str_eq artifact.missing_value_behavior supported_missing_value_behavior in
      let raised = unsupported_missing_value_behavior artifact.missing_value_behavior in
      ok_inversion (map_err rule_failure (require_aware_boundary boundary)) h λ utc h₁ k₁.
        ok_inversion (raise_if (not supported) raised) k₁ λ _ h₂ k₂.
          ok_inversion (index context) k₂ λ preserved h₃ k₃.
            ok_inversion (parse_rules artifact.factors) k₃ λ rules h₄ k₄.
              ok_inversion (evaluate_factors preserved utc artifact.factors rules) k₄
                λ results h₅ k₅. record {
                  utc = utc;
                  preserved = preserved;
                  rules = rules;
                  results = results;
                  is_aware = map_err-ok rule_failure (require_aware_boundary boundary) h₁;
                  is_supported =
                      (str_eq_iff artifact.missing_value_behavior
                          supported_missing_value_behavior).0
                        (not-false supported (raise_if-ok (not supported) raised h₂));
                  indexed = h₃;
                  parsed = h₄;
                  evaluated = h₅;
                  concluded = ok_inj k₅;
                }

  pub Run-evaluate :
      Run artifact context boundary result → evaluate artifact context boundary ≡ ok result
  unfolding evaluate
  Run-evaluate run =
      let supported =
        (str_eq_iff artifact.missing_value_behavior supported_missing_value_behavior).1
          run.is_supported in
      rw run.is_aware
        (rw supported (rw run.indexed (rw run.parsed (rw run.evaluated (rw run.concluded)))))

-- The preserved entry of a key.
abbrev pub entry_of : String → List ContextInput → Option ContextInput
entry_of k [] = none
entry_of k (entry ∷ rest) = if str_eq entry.key k then some entry else entry_of k rest

abbrev pub or_else : Option ContextInput → Option ContextInput → Option ContextInput
or_else none o = o
or_else (some e) o = some e

lookup-index_from :
    (k : String) (d : Dict ContextInput) (context : List ContextInput) {d' : Dict ContextInput}
    → index_from d context ≡ ok d'
    → lookup k d' ≡ or_else (lookup k d) (entry_of k context)
unfolding index_from
lookup-index_from k d [] h = ground arith
lookup-index_from k d (entry ∷ rest) {d'} h = ground (
  arith,
  lookup-index_from k (insert entry.key entry d) rest {d' = d'},
  lookup-insert entry.key k entry d,
  str_eq_iff entry.key k,
)

-- A successful `_index` finds every entry by its key, and nothing else.
pub lookup-index :
    (k : String) (context : List ContextInput) {d : Dict ContextInput}
    → index context ≡ ok d
    → lookup k d ≡ entry_of k context
unfolding index
lookup-index k context h = lookup-index_from k [] context h
