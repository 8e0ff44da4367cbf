-- ===== src/Replay/Compare/Delta.antt =====
-- The contribution changes of a comparison explain the whole difference of the scores.
use flight_recorder.Base.{
  ◌≡◌, refl, sym, ◌∙◌, ap, false, not, none, List, [], ◌∷◌, ◌++◌, map, append_assoc, append-nil,
  String, str_eq, str_eq_iff, arith, select,
}
use flight_recorder.Base.Int.{◌+ℤ◌, ◌-ℤ◌}
use flight_recorder.Base.Text.{sort_by}
use flight_recorder.Base.Dict.{
  Dict, lookup, contains, insert, insert_all, lookup-insert, insert_fresh,
}
use flight_recorder.Evaluator.{FactorResult, EvaluationResult, total}
use flight_recorder.Replay.Compare.{
  Counterfactual, contribution_change, contributions_of, factors_by_key, keys, union_keys, compare,
}
use flight_recorder.Replay.Compare.Sums.{
  total_delta, sum, value, values, UniqueItems, total_delta-sum, sum-sort_by, sum-append, sum-union,
  sum-value_keys, sum-value_absent, add_zero,
}

-- No two factors share a key.
abbrev pub HasUniqueFactors : List FactorResult → Type 0
HasUniqueFactors [] = Unit
HasUniqueFactors (f ∷ factors) =
    (lookup f.key (map (λ (g : FactorResult). (g.key, g)) factors) ≡ none)
    × HasUniqueFactors factors

abbrev items : List FactorResult → Dict FactorResult
items factors = map (λ (f : FactorResult). (f.key, f)) factors

items-UniqueItems :
    (factors : List FactorResult) → HasUniqueFactors factors → UniqueItems (items factors)
items-UniqueItems [] u = tt
items-UniqueItems (f ∷ factors) (new, u) = (new, items-UniqueItems factors u)

values-items : (factors : List FactorResult) → values (items factors) ≡ total factors
unfolding total
values-items [] = refl
values-items (f ∷ factors) = ap (λ s. f.contribution +ℤ s) (values-items factors)

abbrev AreNew : Dict FactorResult → Dict FactorResult → Type 0
AreNew acc [] = Unit
AreNew acc ((k, f) ∷ d) = (lookup k acc ≡ none) × AreNew acc d

AreNew-insert :
    (k : String) (f : FactorResult) (acc d : Dict FactorResult)
    → lookup k d ≡ none
    → AreNew acc d
    → AreNew (insert k f acc) d
AreNew-insert k f acc [] h n = tt
AreNew-insert k f acc ((j, g) ∷ d) h (m, n) =
    let apart : str_eq k j ≡ false = ground (arith, str_eq_iff j k, str_eq_iff k j) in
    let later : lookup k d ≡ none = ground (arith, str_eq_iff j k, str_eq_iff k j) in
    (lookup-insert k j f acc ∙ rw apart m, AreNew-insert k f acc d later n)

insert_all_unique :
    (acc d : Dict FactorResult) → AreNew acc d → UniqueItems d → insert_all acc d ≡ acc ++ d
insert_all_unique acc [] n u = sym (append-nil acc)
insert_all_unique acc ((k, f) ∷ d) (m, n) (new, u) =
    insert_all_unique (insert k f acc) d (AreNew-insert k f acc d new n) u
    ∙ ap (λ x. x ++ d) (insert_fresh k f acc m)
    ∙ append_assoc acc _ _

AreNew-nil : (d : Dict FactorResult) → AreNew [] d
AreNew-nil [] = tt
AreNew-nil ((k, f) ∷ d) = (refl, AreNew-nil d)

factors_by_key-items :
    (factors : List FactorResult)
    → HasUniqueFactors factors
    → factors_by_key factors ≡ items factors
factors_by_key-items factors u =
    insert_all_unique [] (items factors) (AreNew-nil (items factors)) (items-UniqueItems factors u)

items_delta :
    (o c : EvaluationResult) (h d : Dict FactorResult)
    → UniqueItems h
    → UniqueItems d
    → total_delta (
        map
          (λ k. contribution_change o c k (lookup k h) (lookup k d))
          (sort_by (λ k. k) (union_keys h d)))
      ≡ values d -ℤ values h
items_delta o c h d u v =
    let union = union_keys h d in
    let further = select (λ k. not (contains k h)) (keys d) in
    total_delta-sum o c h d (sort_by (λ k. k) union)
    ∙ ap (λ s. s -ℤ sum (value h) (sort_by (λ k. k) union))
        (sum-sort_by (value d) union ∙ sum-append (value d) (keys h) further ∙ sum-union h d u v)
    ∙ ap (λ s. values d -ℤ s)
        (sum-sort_by (value h) union
          ∙ sum-append (value h) (keys h) further
          ∙ ap (λ s. s +ℤ sum (value h) further) (sum-value_keys h u)
          ∙ ap (λ s. values h +ℤ s) (sum-value_absent h (keys d))
          ∙ add_zero (values h))

-- When neither side lists a factor twice and each score is the sum of its factors' contributions,
-- the contribution deltas of a comparison sum to its score delta.
pub compare-score_delta :
    (counterfactual : Counterfactual)
    → HasUniqueFactors counterfactual.original.result.factors
    → HasUniqueFactors counterfactual.result.factors
    → counterfactual.original.result.score ≡ total counterfactual.original.result.factors
    → counterfactual.result.score ≡ total counterfactual.result.factors
    → total_delta (compare counterfactual).contributions ≡ (compare counterfactual).score_delta
unfolding compare contributions_of
compare-score_delta counterfactual u v s t =
    let o = counterfactual.original.result in
    let c = counterfactual.result in
    let historical = factors_by_key-items o.factors u in
    let current = factors_by_key-items c.factors v in
    ap
      (λ x. total_delta (
        map (λ k. contribution_change o c k (lookup k x) (lookup k (factors_by_key c.factors)))
          (sort_by (λ k. k) (union_keys x (factors_by_key c.factors)))))
      historical
    ∙ ap
        (λ x. total_delta (
          map (λ k. contribution_change o c k (lookup k (items o.factors)) (lookup k x))
            (sort_by (λ k. k) (union_keys (items o.factors) x))))
        current
    ∙ items_delta o c (items o.factors) (items c.factors) (items-UniqueItems o.factors u)
        (items-UniqueItems c.factors v)
    ∙ ap (λ x. x -ℤ values (items o.factors)) (values-items c.factors ∙ sym t)
    ∙ ap (λ x. c.score -ℤ x) (values-items o.factors ∙ sym s)
