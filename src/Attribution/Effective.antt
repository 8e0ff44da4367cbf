-- ===== src/Attribution/Effective.antt =====
-- The selection of attribution/policy.py: the walk along supersession ends, and where it ends.
use flight_recorder.Base.{
  ℕ, zero, suc, ◌≤◌, ◌<◌, ◌≡◌, ◌≢◌, refl, sym, ap, Bool, true, false, not, ◌||◌, ◌⊎◌, inl, inr,
  List, [], ◌∷◌, ◌++◌, map, String, str_eq, str_eq_iff, Result, ok, err, ok_inversion, ok_inj,
  arith, ◌>>◌, ◌↔◌, length, select, flat_map, All, Bool-cases,
}
use flight_recorder.Ledger.{OutcomeRow, EventRow, Ledger}
use flight_recorder.Attribution.Records.{AttributionError, out_of_fuel, OutcomeClaims}
use flight_recorder.Attribution.Snapshot.{recorded_by, load_outcome}
use flight_recorder.Attribution.Selection.{
  is_seen, supersedes, successors, follow, effective_outcome_version,
}

-- Some outcome row has this id.
abbrev has_id : String → List OutcomeRow → Bool
has_id s [] = false
has_id s (o ∷ rows) = str_eq o.outcome_event_id s || has_id s rows

repeated-head :
    (id : String) (xs : List EventRow) (tail : List String) {s : String} {rest : List String}
    → map (λ _. id) xs ++ tail ≡ s ∷ rest
    → (id ≡ s) ⊎ (tail ≡ s ∷ rest)
repeated-head id [] tail h = inr h
repeated-head id (x ∷ xs) tail h = ground arith

-- A successor is the id of an outcome row.
successor-has_id :
    (p : OutcomeRow → Bool) (g : OutcomeRow → List EventRow) (rows : List OutcomeRow) {s : String}
    {rest : List String}
    → flat_map (λ (o : OutcomeRow). map (λ _. o.outcome_event_id) (g o)) (select p rows) ≡ s ∷ rest
    → has_id s rows ≡ true
successor-has_id p g [] h = cc
successor-has_id p g (o ∷ rows) {s} {rest} h = elim (Bool-cases (p o)) [
  | inl kept ↦ elim (repeated-head o.outcome_event_id (g o) _ (rw kept at h)) [
    | inl e ↦ ground (arith, str_eq_iff o.outcome_event_id s)
    | inr later ↦ ground (arith, successor-has_id p g rows later)
  ]
  | inr dropped ↦ ground (arith, successor-has_id p g rows (rw dropped at h))
]

abbrev unseen : List String → List OutcomeRow → ℕ
unseen seen rows = length (select (λ (o : OutcomeRow). not (is_seen o.outcome_event_id seen)) rows)

unseen-cons_le :
    (s : String) (seen : List String) (rows : List OutcomeRow)
    → unseen (s ∷ seen) rows ≤ unseen seen rows
unseen-cons_le s seen [] = ground arith
unseen-cons_le s seen (o ∷ rows) = ground (arith, unseen-cons_le s seen rows)

unseen-cons_lt :
    (s : String) (seen : List String) (rows : List OutcomeRow)
    → is_seen s seen ≡ false
    → has_id s rows ≡ true
    → unseen (s ∷ seen) rows < unseen seen rows
unseen-cons_lt s seen [] h k = cc
unseen-cons_lt s seen (o ∷ rows) h k = elim (Bool-cases (str_eq o.outcome_event_id s)) [
  | inl here ↦
      let e = (str_eq_iff o.outcome_event_id s).0 here in
      let new : is_seen o.outcome_event_id seen ≡ false = rw e h in
      let same : str_eq s o.outcome_event_id ≡ true = (str_eq_iff s o.outcome_event_id).1 (sym e) in
      ground (arith, unseen-cons_le s seen rows)
  | inr there ↦
      let k' : has_id s rows ≡ true = ground arith in
      ground (arith, unseen-cons_lt s seen rows h k')
]

unseen_le : (seen : List String) (rows : List OutcomeRow) → unseen seen rows ≤ length rows
unseen_le seen [] = ground arith
unseen_le seen (o ∷ rows) = ground (arith, unseen_le seen rows)

-- The versions from this one on, each the only successor of the one before it, up to one that has no
-- successor inside the snapshot.
abbrev pub Leads : Ledger → ℕ → ℕ → String → String → Type 0
Leads conn cutoff zero current tip = (successors conn current cutoff ≡ []) × (current ≡ tip)
Leads conn cutoff (suc n) current tip =
    (next : String) × (successors conn current cutoff ≡ next ∷ []) × Leads conn cutoff n next tip

abbrev pub LeadsTo : Ledger → ℕ → String → String → Type 0
LeadsTo conn cutoff current tip = (n : ℕ) × Leads conn cutoff n current tip

-- A list has no element, one, or more.
data Count (xs : List String) : Type 0 where
  is_nil : xs ≡ [] → Count xs
  is_single : (s : String) → xs ≡ s ∷ [] → Count xs
  is_many : (s t : String) (more : List String) → xs ≡ s ∷ t ∷ more → Count xs

count : (xs : List String) → Count xs
count [] = is_nil refl
count (s ∷ []) = is_single s refl
count (s ∷ t ∷ more) = is_many s t more refl

then-fuel :
    {A : Type 0} (m : Result AttributionError A) {k : Result AttributionError String}
    → m ≢ err out_of_fuel
    → k ≢ err out_of_fuel
    → (m >> k) ≢ err out_of_fuel
then-fuel (ok a) h h' q = h' q
then-fuel (err e) h h' q = h (ap err (err_inj q))
  where
    err_inj : {E A : Type 0} {a b : E} → ◌≡◌ {A = Result E A} (err a) (err b) → a ≡ b
    err_inj q = cc

module _ (conn : Ledger) (cutoff : ℕ) where
  abbrev left : List String → ℕ
  left seen = unseen seen conn.outcomes

  follow-fuel :
      (fuel : ℕ) (current : String) (seen : List String)
      → left seen < fuel
      → follow conn cutoff fuel current seen ≢ err out_of_fuel
  unfolding follow
  follow-fuel zero current seen h = ground arith
  follow-fuel (suc fuel) current seen h = elim (count (successors conn current cutoff)) [
    | is_nil e ↦ λ q. cc (rw (e, follow) at q)
    | is_many s t more e ↦ λ q. cc (rw (e, follow) at q)
    | is_single s e ↦ elim (Bool-cases (is_seen s seen)) [
      | inl again ↦ λ q. cc (rw (again, follow) at (rw (e, follow) at q))
      | inr new ↦
          let known : has_id s conn.outcomes ≡ true =
            unfold successors in
            successor-has_id (λ (o : OutcomeRow). supersedes o.supersedes_outcome_event_id current)
              (λ (o : OutcomeRow). recorded_by cutoff conn o.outcome_event_id) conn.outcomes e in
          let fewer = unseen-cons_lt s seen conn.outcomes new known in
          λ q.
            follow-fuel fuel s (s ∷ seen) (omega (arith, fewer))
              (rw (new, follow) at (rw (e, follow) at q))
    ]
  ]

  follow-Leads :
      (fuel : ℕ) (current : String) (seen : List String) {tip : String}
      → follow conn cutoff fuel current seen ≡ ok tip
      → LeadsTo conn cutoff current tip
  unfolding follow
  follow-Leads zero current seen h = cc
  follow-Leads (suc fuel) current seen h = elim (count (successors conn current cutoff)) [
    | is_nil e ↦ (0, (e, ok_inj (rw (e, follow) at h)))
    | is_many s t more e ↦ cc (rw (e, follow) at h)
    | is_single s e ↦ elim (Bool-cases (is_seen s seen)) [
      | inl again ↦ cc (rw (again, follow) at (rw (e, follow) at h))
      | inr new ↦
          let (n, leads) =
            follow-Leads fuel s (s ∷ seen) (rw (new, follow) at (rw (e, follow) at h)) in
          (suc n, (s, e, leads))
    ]
  ]

  Leads-unique :
      (m n : ℕ) (current tip : String)
      → Leads conn cutoff m current tip
      → Leads conn cutoff n current tip
      → m ≡ n
  Leads-unique zero zero current tip h k = refl
  Leads-unique zero (suc n) current tip (e, _) (s, e', _) = cc
  Leads-unique (suc m) zero current tip (s, e, _) (e', _) = cc
  Leads-unique (suc m) (suc n) current tip (s, e, h) (s', e', k) =
      let same : s ≡ s' = cc in ap suc (Leads-unique m n s tip h (rw same k))

  -- Everything seen leads to the tip in at least this many steps.
  abbrev Behind : ℕ → String → List String → Type 0
  Behind n tip seen = All (λ x. (k : ℕ) × (n ≤ k) × Leads conn cutoff k x tip) seen

  Behind-weaken :
      (n : ℕ) (tip : String) (seen : List String) → Behind (suc n) tip seen → Behind n tip seen
  Behind-weaken n tip [] h = tt
  Behind-weaken n tip (x ∷ seen) ((k, le, leads), rest) =
      ((k, omega arith, leads), Behind-weaken n tip seen rest)

  no_loop : (k n : ℕ) → suc n ≤ k → ¬ (k ≡ n)
  no_loop k n le q = omega arith

  Behind-unseen :
      (n : ℕ) (s tip : String) (seen : List String)
      → Behind (suc n) tip seen
      → Leads conn cutoff n s tip
      → is_seen s seen ≡ false
  Behind-unseen n s tip [] h l = refl
  Behind-unseen n s tip (x ∷ seen) ((k, le, leads), rest) l = elim (Bool-cases (str_eq x s)) [
    | inl same ↦
        let e = (str_eq_iff x s).0 same in
        let q = Leads-unique k n s tip (rw (sym e) leads) l in absurd (no_loop k n le q)
    | inr other ↦ ground (arith, Behind-unseen n s tip seen rest l)
  ]

  no_fuel : (n : ℕ) → ¬ (n < 0)
  no_fuel n h = omega arith

  Leads-follow :
      (fuel n : ℕ) (current : String) (seen : List String) {tip : String}
      → left seen < fuel
      → Leads conn cutoff n current tip
      → Behind n tip seen
      → follow conn cutoff fuel current seen ≡ ok tip
  unfolding follow
  Leads-follow zero n current seen h l b = absurd (no_fuel (left seen) h)
  Leads-follow (suc fuel) zero current seen h (e, q) b = rw (e, follow) (ap ok q)
  Leads-follow (suc fuel) (suc n) current seen h (s, e, l) b =
      let new = Behind-unseen n s _ seen b l in
      let known : has_id s conn.outcomes ≡ true =
        unfold successors in
        successor-has_id (λ (o : OutcomeRow). supersedes o.supersedes_outcome_event_id current)
          (λ (o : OutcomeRow). recorded_by cutoff conn o.outcome_event_id) conn.outcomes e in
      let fewer = unseen-cons_lt s seen conn.outcomes new known in
      rw (e, follow)
        (rw (new, follow)
          (Leads-follow fuel n s (s ∷ seen) (omega (arith, fewer)) l
            ((n, ground arith, l), Behind-weaken n _ seen b)))

  load_outcome-fuel : (id : String) → load_outcome conn id cutoff ≢ err out_of_fuel
  unfolding load_outcome
  load_outcome-fuel id = ground arith

  -- The walk along supersession never runs out of the fuel that this model gives it: it ends at a
  -- version, or at one of the named failures, whatever the rows say, cycles included.
  pub effective_outcome_version-terminates :
      (outcome_chain : String)
      → effective_outcome_version conn outcome_chain cutoff ≢ err out_of_fuel
  unfolding effective_outcome_version
  effective_outcome_version-terminates outcome_chain =
      then-fuel (load_outcome conn outcome_chain cutoff) (load_outcome-fuel outcome_chain) (
        follow-fuel (suc (length conn.outcomes)) outcome_chain (outcome_chain ∷ [])
          (omega (arith, unseen_le (outcome_chain ∷ []) conn.outcomes)))

  -- The effective version is a given one exactly when the chain's outcome can be read inside the
  -- snapshot and leads to that version, which no version inside the snapshot supersedes, by
  -- versions each of which is the only successor of the one before it.
  pub effective_outcome_version-iff_LeadsTo :
      (outcome_chain tip : String)
      → (effective_outcome_version conn outcome_chain cutoff ≡ ok tip) ↔ (
          ((outcome : OutcomeClaims) × (load_outcome conn outcome_chain cutoff ≡ ok outcome))
          × LeadsTo conn cutoff outcome_chain tip)
  unfolding effective_outcome_version
  effective_outcome_version-iff_LeadsTo outcome_chain tip = (
    (λ h. ok_inversion (load_outcome conn outcome_chain cutoff) h λ outcome e k. (
      (outcome, e),
      follow-Leads (suc (length conn.outcomes)) outcome_chain (outcome_chain ∷ []) k,
    )),
    (λ ((outcome, e), (n, leads)). rw e (
        Leads-follow (suc (length conn.outcomes)) n outcome_chain (outcome_chain ∷ [])
          (omega (arith, unseen_le (outcome_chain ∷ []) conn.outcomes)) leads
          ((n, ground arith, leads), tt))),
  )
