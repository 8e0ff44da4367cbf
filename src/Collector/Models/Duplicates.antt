-- ===== src/Collector/Models/Duplicates.antt =====
-- `_duplicates` of collector/schema.py against pairwise distinct keys.
use flight_recorder.Base.{
  ◌≤◌, ◌≡◌, ◌≢◌, ◌↔◌, refl, sym, Bool, true, false, not, List, [], ◌∷◌, String, str_eq, str_eq_iff,
  str_eq_refl, ltb, select, All, All-select, All-weaken, Pairwise, Bool-cases, inl, inr, arith,
}
use mathlib.Core.Path.{subst}
use flight_recorder.Collector.Models.{count, first_seen, duplicates, is_empty_list, no_duplicates}

module _ (p : String → Bool) where
  none_selected :
      (xs : List String) → is_empty_list (select p xs) ≡ true → All (λ x. p x ≡ false) xs
  none_selected [] h = tt
  none_selected (x ∷ xs) h = elim (Bool-cases (p x)) [
    | inl kept ↦ absurd (cc (rw kept at h))
    | inr dropped ↦ (dropped, none_selected xs (rw dropped at h))
  ]

  selects_none : (xs : List String) → All (λ x. p x ≡ false) xs → is_empty_list (select p xs) ≡ true
  selects_none [] h = refl
  selects_none (x ∷ xs) h = rw (h.0) (selects_none xs h.1)

-- What holds of the keys that are seen first holds of all keys, and the other way round.
module _ (P : String → Type 0) where
  All-unselect :
      (k : String) (xs : List String) → P k → All P (select (λ j. not (str_eq k j)) xs) → All P xs
  All-unselect k [] here h = tt
  All-unselect k (x ∷ xs) here h = elim (Bool-cases (str_eq k x)) [
    | inl same ↦ (subst P ((str_eq_iff k x).0 same) here, All-unselect k xs here (rw same at h))
    | inr differs ↦ let both = rw differs at h in (both.0, All-unselect k xs here both.1)
  ]

  All-first_seen : (keys : List String) → All P (first_seen keys) → All P keys
  unfolding first_seen
  All-first_seen [] h = tt
  All-first_seen (k ∷ keys) h =
      (h.0, All-first_seen keys (All-unselect k (first_seen keys) h.0 h.1))

  first_seen-All : (keys : List String) → All P keys → All P (first_seen keys)
  unfolding first_seen
  first_seen-All [] h = tt
  first_seen-All (k ∷ keys) h =
      (h.0, All-select P (λ j. not (str_eq k j)) (first_seen keys) (first_seen-All keys h.1))

-- The keys are counted once.
abbrev Once : List String → String → Type 0
Once keys j = ltb 1 (count j keys) ≡ false

count-other : (j : String) (keys : List String) → count j keys ≤ 0 → All (λ k. j ≢ k) keys
unfolding count
count-other j [] h = tt
count-other j (k ∷ keys) h = elim (Bool-cases (str_eq k j)) [
  | inl same ↦ absurd (ground arith)
  | inr differs ↦
      ((λ e. cc ((str_eq_iff k j).1 (sym e), differs)), count-other j keys (rw differs at h))
]

count-absent : (j : String) (keys : List String) → All (λ k. j ≢ k) keys → count j keys ≡ 0
unfolding count
count-absent j [] h = refl
count-absent j (k ∷ keys) h = elim (Bool-cases (str_eq k j)) [
  | inl same ↦ absurd (h.0 (sym ((str_eq_iff k j).0 same)))
  | inr differs ↦ rw differs (count-absent j keys h.1)
]

Once-Pairwise : (keys : List String) → All (Once keys) keys → Pairwise (λ j k. j ≢ k) keys
unfolding count
Once-Pairwise [] h = tt
Once-Pairwise (k ∷ keys) h =
    let twice = rw (str_eq_refl k) at h.0 in
    let absent : count k keys ≤ 0 = ground arith in
    (
      count-other k keys absent,
      Once-Pairwise keys (
          All-weaken (Once (k ∷ keys)) (Once keys)
            (λ j once. elim (Bool-cases (str_eq k j)) [
              | inl same ↦ let more = rw same at once in ground arith
              | inr differs ↦ rw differs at once
            ])
            keys h.1),
    )

-- A key in front that is another one.
Once-behind :
    (k : String) (keys xs : List String)
    → All (λ j. k ≢ j) xs
    → All (Once keys) xs
    → All (Once (k ∷ keys)) xs
unfolding count
Once-behind k keys [] h once = tt
Once-behind k keys (j ∷ xs) h once = elim (Bool-cases (str_eq k j)) [
  | inl same ↦ absurd (h.0 ((str_eq_iff k j).0 same))
  | inr differs ↦ (rw differs (once.0), Once-behind k keys xs h.1 once.1)
]

Pairwise-Once : (keys : List String) → Pairwise (λ j k. j ≢ k) keys → All (Once keys) keys
unfolding count
Pairwise-Once [] h = tt
Pairwise-Once (k ∷ keys) h = (
  rw (str_eq_refl k, count-absent k keys h.0) refl,
  Once-behind k keys keys h.0 (Pairwise-Once keys h.1),
)

-- `_duplicates` finds nothing exactly when the keys are pairwise distinct.
pub no_duplicates-iff_Pairwise :
    (keys : List String) → (no_duplicates keys ≡ true) ↔ Pairwise (λ j k. j ≢ k) keys
unfolding no_duplicates duplicates
no_duplicates-iff_Pairwise keys = (
  λ h. Once-Pairwise keys (
      All-first_seen (Once keys) keys
        (none_selected (λ j. ltb 1 (count j keys)) (first_seen keys) h)),
  λ h.
      selects_none (λ j. ltb 1 (count j keys)) (first_seen keys)
        (first_seen-All (Once keys) keys (Pairwise-Once keys h)),
)
