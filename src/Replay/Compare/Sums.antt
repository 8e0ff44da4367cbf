-- ===== src/Replay/Compare/Sums.antt =====
-- Sums over the keys of two dicts of factors, for the comparison of replay/counterfactual.py.
use flight_recorder.Base.{
  ◌≡◌, refl, sym, ◌∙◌, ap, Bool, true, false, not, none, List, [], ◌∷◌, ◌++◌, map, String, str_eq,
  str_eq_iff, str_eq_refl, arith, if◌then◌else◌, select, Bool-cases, inl, inr,
}
use flight_recorder.Base.Int.{ℤ, pos, ◌+ℤ◌, ◌-ℤ◌, int_laws}
use flight_recorder.Base.Text.{codes, text_lt, insert_sorted, sort_by}
use flight_recorder.Base.Dict.{Dict, lookup, contains}
use flight_recorder.Evaluator.{FactorResult, EvaluationResult}
use flight_recorder.Replay.Compare.{ContributionChange, contribution_change, contribution_of, keys}

-- The sum of a value over keys.
abbrev pub sum : (String → ℤ) → List String → ℤ
sum g [] = pos 0
sum g (k ∷ ks) = g k +ℤ sum g ks

abbrev pub total_delta : List ContributionChange → ℤ
total_delta [] = pos 0
total_delta (c ∷ changes) = c.contribution_delta +ℤ total_delta changes

swap : (a b c : ℤ) → a +ℤ (b +ℤ c) ≡ b +ℤ (a +ℤ c)
swap a b c = omega int_laws

sum-insert :
    (g : String → ℤ) (x : String) (ys : List String)
    → sum g (insert_sorted (λ k. k) x ys) ≡ g x +ℤ sum g ys
sum-insert g x [] = refl
sum-insert g x (y ∷ ys) = elim (Bool-cases (text_lt (codes y) (codes x))) [
  | inl e ↦ rw e (ap (λ s. g y +ℤ s) (sum-insert g x ys) ∙ swap (g y) (g x) (sum g ys))
  | inr e ↦ rw e refl
]

pub sum-sort_by : (g : String → ℤ) (ks : List String) → sum g (sort_by (λ k. k) ks) ≡ sum g ks
sum-sort_by g [] = refl
sum-sort_by g (k ∷ ks) =
    sum-insert g k (sort_by (λ k. k) ks) ∙ ap (λ s. g k +ℤ s) (sum-sort_by g ks)

zero_add : (a : ℤ) → a ≡ pos 0 +ℤ a
zero_add a = omega int_laws

pub add_zero : (a : ℤ) → a +ℤ pos 0 ≡ a
add_zero a = omega int_laws

add_assoc_ℤ : (a b c : ℤ) → a +ℤ (b +ℤ c) ≡ a +ℤ b +ℤ c
add_assoc_ℤ a b c = omega int_laws

pub sum-append : (g : String → ℤ) (xs ys : List String) → sum g (xs ++ ys) ≡ sum g xs +ℤ sum g ys
sum-append g [] ys = zero_add (sum g ys)
sum-append g (x ∷ xs) ys =
    ap (λ s. g x +ℤ s) (sum-append g xs ys) ∙ add_assoc_ℤ (g x) (sum g xs) (sum g ys)

-- What a dict's factor of this key contributed.
abbrev pub value : Dict FactorResult → String → ℤ
value d k = contribution_of (lookup k d)

abbrev pub values : Dict FactorResult → ℤ
values [] = pos 0
values ((k, f) ∷ d) = f.contribution +ℤ values d

abbrev pub UniqueItems : Dict FactorResult → Type 0
UniqueItems [] = Unit
UniqueItems ((k, f) ∷ d) = (lookup k d ≡ none) × UniqueItems d

regroup : (a b s t : ℤ) → a -ℤ b +ℤ (s -ℤ t) ≡ a +ℤ s -ℤ (b +ℤ t)
regroup a b s t = omega int_laws

pub total_delta-sum :
    (o c : EvaluationResult) (h d : Dict FactorResult) (ks : List String)
    → total_delta (map (λ k. contribution_change o c k (lookup k h) (lookup k d)) ks)
      ≡ sum (value d) ks -ℤ sum (value h) ks
unfolding contribution_change
total_delta-sum o c h d [] = omega int_laws
total_delta-sum o c h d (k ∷ ks) =
    ap (λ s. value d k -ℤ value h k +ℤ s) (total_delta-sum o c h d ks)
    ∙ regroup (value d k) (value h k) (sum (value d) ks) (sum (value h) ks)

-- A factor of a key that is none of these adds nothing.
sum-value_skip :
    (k : String) (f : FactorResult) (d e : Dict FactorResult) (p : String → Bool)
    → lookup k e ≡ none
    → sum (value ((k, f) ∷ d)) (select p (keys e)) ≡ sum (value d) (select p (keys e))
sum-value_skip k f d [] p h = refl
sum-value_skip k f d ((j, g) ∷ e) p h =
    let apart : str_eq k j ≡ false = ground (arith, str_eq_iff j k, str_eq_iff k j) in
    let later : lookup k e ≡ none = ground (arith, str_eq_iff j k, str_eq_iff k j) in
    let same : value ((k, f) ∷ d) j ≡ value d j = rw apart refl in
    elim (Bool-cases (p j)) [
      | inl e₁ ↦ rw e₁ (rw same (ap (λ s. value d j +ℤ s) (sum-value_skip k f d e p later)))
      | inr e₁ ↦ rw e₁ (sum-value_skip k f d e p later)
    ]

pub sum-value_absent :
    (d : Dict FactorResult) (ks : List String)
    → sum (value d) (select (λ k. not (contains k d)) ks) ≡ pos 0
sum-value_absent d [] = refl
sum-value_absent d (k ∷ ks) = elim (Bool-cases (contains k d)) [
  | inl c ↦ rw c (sum-value_absent d ks)
  | inr c ↦
      let missing : lookup k d ≡ none = ground arith in
      let nought : value d k ≡ pos 0 = rw missing refl in
      rw c (rw nought (sym (zero_add _) ∙ sum-value_absent d ks))
]

select-every : (ks : List String) → select (λ k. true) ks ≡ ks
select-every [] = refl
select-every (k ∷ ks) = ap (λ r. k ∷ r) (select-every ks)

sum-value_skip_all :
    (k : String) (f : FactorResult) (d e : Dict FactorResult)
    → lookup k e ≡ none
    → sum (value ((k, f) ∷ d)) (keys e) ≡ sum (value d) (keys e)
sum-value_skip_all k f d e h = rw (select-every (keys e)) at (sum-value_skip k f d e (λ k. true) h)

pub sum-value_keys : (d : Dict FactorResult) → UniqueItems d → sum (value d) (keys d) ≡ values d
sum-value_keys [] u = refl
sum-value_keys ((k, f) ∷ d) (new, u) =
    rw (str_eq_refl k)
      (ap (λ s. f.contribution +ℤ s) (sum-value_skip_all k f d d new ∙ sum-value_keys d u))

sum-value_cons :
    (k : String) (f : FactorResult) (d h : Dict FactorResult)
    → lookup k d ≡ none
    → UniqueItems h
    → sum (value ((k, f) ∷ d)) (keys h)
      ≡ (if contains k h then f.contribution else pos 0) +ℤ sum (value d) (keys h)
sum-value_cons k f d [] new u = zero_add (pos 0)
sum-value_cons k f d ((j, g) ∷ h) new (fresh, u) =
    let at_front =
      λ (b : Bool). (if b then f.contribution else pos 0) +ℤ sum (value d) (keys ((j, g) ∷ h)) in
    let rest = sum (value ((k, f) ∷ d)) (keys h) in
    elim (Bool-cases (str_eq j k)) [
      | inl here ↦
          let e = (str_eq_iff j k).0 here in
          let q : str_eq k j ≡ true = (str_eq_iff k j).1 (sym e) in
          let missing : lookup j d ≡ none = rw e new in
          let nought : value d j ≡ pos 0 = rw missing refl in
          let later : lookup k h ≡ none = rw (sym e) fresh in
          let has : contains k ((j, g) ∷ h) ≡ true = ground arith in
          let first : value ((k, f) ∷ d) j ≡ f.contribution = rw q refl in
          ap (λ s. s +ℤ rest) first
          ∙ ap (λ s. f.contribution +ℤ s)
              (sum-value_skip_all k f d h later
                ∙ zero_add _
                ∙ ap (λ s. s +ℤ sum (value d) (keys h)) (sym nought))
          ∙ sym (ap at_front has)
      | inr there ↦
          let q : str_eq k j ≡ false = ground (arith, str_eq_iff j k, str_eq_iff k j) in
          let same : contains k ((j, g) ∷ h) ≡ contains k h = ground arith in
          let first : value ((k, f) ∷ d) j ≡ value d j = rw q refl in
          ap (λ s. s +ℤ rest) first
          ∙ ap (λ s. value d j +ℤ s) (sum-value_cons k f d h new u)
          ∙ swap (value d j) (if contains k h then f.contribution else pos 0)
              (sum (value d) (keys h))
          ∙ sym (ap at_front same)
    ]

sum-value_nil : (ks : List String) → sum (value []) ks ≡ pos 0
sum-value_nil [] = refl
sum-value_nil (k ∷ ks) = sym (zero_add _) ∙ sum-value_nil ks

move : (a b c : ℤ) → pos 0 +ℤ a +ℤ (b +ℤ c) ≡ b +ℤ (a +ℤ c)
move a b c = omega int_laws

-- The keys of one dict and the further keys of the other reach every factor of the other.
pub sum-union :
    (h d : Dict FactorResult)
    → UniqueItems h
    → UniqueItems d
    → sum (value d) (keys h) +ℤ sum (value d) (select (λ k. not (contains k h)) (keys d)) ≡ values d
sum-union h [] u v = ap (λ s. s +ℤ pos 0) (sum-value_nil (keys h)) ∙ sym (zero_add (pos 0))
sum-union h ((k, f) ∷ d) u (new, v) =
    let further = select (λ k. not (contains k h)) (keys d) in
    let p = sum (value d) (keys h) in
    let skip = sum-value_skip k f d d (λ k. not (contains k h)) new in
    let first = sum-value_cons k f d h new u in
    elim (Bool-cases (contains k h)) [
      | inl c ↦ rw c (
          ap (λ s. s +ℤ sum (value ((k, f) ∷ d)) further)
            (first ∙ ap (λ (b : Bool). (if b then f.contribution else pos 0) +ℤ p) c)
          ∙ ap (λ s. f.contribution +ℤ p +ℤ s) skip
          ∙ sym (add_assoc_ℤ f.contribution p (sum (value d) further))
          ∙ ap (λ s. f.contribution +ℤ s) (sum-union h d u v))
      | inr c ↦
          let own : value ((k, f) ∷ d) k ≡ f.contribution = rw (str_eq_refl k) refl in
          rw c (
            ap (λ s. s +ℤ (value ((k, f) ∷ d) k +ℤ sum (value ((k, f) ∷ d)) further))
              (first ∙ ap (λ (b : Bool). (if b then f.contribution else pos 0) +ℤ p) c)
            ∙ ap (λ s. pos 0 +ℤ p +ℤ (s +ℤ sum (value ((k, f) ∷ d)) further)) own
            ∙ ap (λ s. pos 0 +ℤ p +ℤ (f.contribution +ℤ s)) skip
            ∙ move p f.contribution (sum (value d) further)
            ∙ ap (λ s. f.contribution +ℤ s) (sum-union h d u v))
    ]
