-- ===== src/Attribution/Recency.antt =====
-- The choice of the most recent eligible action: eligible, and no eligible action is later.
use mathlib.Core.Path.{subst}
use mathlib.Core.Option.{some_inj}
use flight_recorder.Base.{
  ℕ, ◌≤◌, ◌≡◌, refl, true, false, ◌⊎◌, inl, inr, Option, none, some, List, [], ◌∷◌, String, ok,
  arith, ok_inversion, ok_inj, All, Member, ◌∙◌, sym, Bool-cases,
}
use flight_recorder.Base.Int.{ℤ, ◌<ℤ◌, eq_of_parts}
use flight_recorder.Attribution.Records.{ActionCandidate, Problem}
use flight_recorder.Attribution.Claims.{
  instant, key_lt, later_of, most_recent_eligible, eligible, action_problem, keep,
}

-- `(s, m)` is not after `(t, n)`: an earlier instant, or the same instant and no higher sequence.
abbrev pub NotAfter : ℤ × ℕ → ℤ × ℕ → Type 0
NotAfter (s, m) (t, n) = (s <ℤ t) ⊎ ((s ≡ t) × (m ≤ n))

NotAfter-trans : (a b c : ℤ × ℕ) → NotAfter a b → NotAfter b c → NotAfter a c
NotAfter-trans (s, m) (t, n) (u, k) (inl h) (inl g) = inl (omega arith)
NotAfter-trans (s, m) (t, n) (u, k) (inl h) (inr (e, g)) = inl (rw e at h)
NotAfter-trans (s, m) (t, n) (u, k) (inr (e, h)) (inl g) = inl (rw e g)
NotAfter-trans (s, m) (t, n) (u, k) (inr (e, h)) (inr (f, g)) = inr (e ∙ f, omega arith)

key_lt-true : (a b : ℤ × ℕ) → key_lt a b ≡ true → NotAfter a b
key_lt-true (s, m) (t, n) h = ground (arith, eq_of_parts s t)

key_lt-false : (a b : ℤ × ℕ) → key_lt a b ≡ false → NotAfter b a
key_lt-false (s, m) (t, n) h = ground (arith, eq_of_parts t s)

NotAfter-refl : (a : ℤ × ℕ) → NotAfter a a
NotAfter-refl (s, m) = inr (refl, omega arith)

module _ (fromisoformat : String → Option ℤ) where
  -- The candidate has a readable instant, and its key is not after this one.
  abbrev pub IsNotAfter : ℤ × ℕ → ActionCandidate → Type 0
  IsNotAfter key c =
      (t : ℤ) × (instant fromisoformat c.occurred_at ≡ ok t) × NotAfter (t, c.ingest_sequence) key

  IsNotAfter-trans :
      (a b : ℤ × ℕ) (candidates : List ActionCandidate)
      → NotAfter a b
      → All (IsNotAfter a) candidates
      → All (IsNotAfter b) candidates
  IsNotAfter-trans a b [] h all = tt
  IsNotAfter-trans a b (c ∷ candidates) h ((t, e, n), all) =
      ((t, e, NotAfter-trans (t, c.ingest_sequence) a b n h), IsNotAfter-trans a b candidates h all)

  -- The chosen candidate with its key, which no candidate is after.
  pub record IsLatest (chosen : ActionCandidate) (candidates : List ActionCandidate) : Type 0 where
    pub occurred : ℤ
    pub occurrence : instant fromisoformat chosen.occurred_at ≡ ok occurred
    pub is_member : Member chosen candidates
    pub none_after : All (IsNotAfter (occurred, chosen.ingest_sequence)) candidates

  -- The loop ends with a candidate that none is after, from a best one so far with its key.
  later_of-IsLatest :
      (best : ActionCandidate) (t : ℤ) (candidates : List ActionCandidate)
      {r : Option ActionCandidate}
      → instant fromisoformat best.occurred_at ≡ ok t
      → later_of fromisoformat best (t, best.ingest_sequence) candidates ≡ ok r
      → (chosen : ActionCandidate) × (r ≡ some chosen) × IsLatest chosen (best ∷ candidates)
  unfolding later_of
  later_of-IsLatest best t [] e h = (
    best,
    sym (ok_inj h),
    record {
      occurred = t;
      occurrence = e;
      is_member = inl refl;
      none_after = ((t, e, NotAfter-refl (t, best.ingest_sequence)), tt);
    },
  )
  later_of-IsLatest best t (c ∷ candidates) e h =
      ok_inversion (instant fromisoformat c.occurred_at) h λ u e' k.
        elim (Bool-cases (key_lt (t, best.ingest_sequence) (u, c.ingest_sequence))) [
          | inl later ↦
              let (chosen, q, l) = later_of-IsLatest c u candidates e' (rw later at k) in
              let (v, ev, n) = l.none_after.0 in
              let same : v ≡ u = ok_inj (sym ev ∙ e') in
              let before =
                NotAfter-trans (t, best.ingest_sequence) (u, c.ingest_sequence) _
                  (key_lt-true (t, best.ingest_sequence) (u, c.ingest_sequence) later)
                  (rw same at n) in
              (
                chosen,
                q,
                record {
                  occurred = l.occurred;
                  occurrence = l.occurrence;
                  is_member = inr l.is_member;
                  none_after = ((t, e, before), l.none_after);
                },
              )
          | inr earlier ↦
              let (chosen, q, l) = later_of-IsLatest best t candidates e (rw earlier at k) in
              let (v, ev, n) = l.none_after.0 in
              let same : v ≡ t = ok_inj (sym ev ∙ e) in
              let before =
                NotAfter-trans (u, c.ingest_sequence) (t, best.ingest_sequence) _
                  (key_lt-false (t, best.ingest_sequence) (u, c.ingest_sequence) earlier)
                  (rw same at n) in
              (
                chosen,
                q,
                record {
                  occurred = l.occurred;
                  occurrence = l.occurrence;
                  is_member = elim l.is_member [ inl m ↦ inl m | inr m ↦ inr (inr m) ];
                  none_after = (l.none_after.0, ((u, e', before), l.none_after.1));
                },
              )
        ]

  pub most_recent_eligible-IsLatest :
      (candidates : List ActionCandidate) (chosen : ActionCandidate)
      → most_recent_eligible fromisoformat candidates ≡ ok (some chosen)
      → IsLatest chosen candidates
  unfolding most_recent_eligible
  most_recent_eligible-IsLatest [] chosen h = cc
  most_recent_eligible-IsLatest (c ∷ candidates) chosen h =
      ok_inversion (instant fromisoformat c.occurred_at) h λ t e k.
        let (best, q, l) = later_of-IsLatest c t candidates e k in
        subst (λ x. IsLatest x (c ∷ candidates)) (some_inj.0 (sym q)) l

  pub most_recent_eligible-none :
      (candidates : List ActionCandidate)
      → most_recent_eligible fromisoformat candidates ≡ ok none
      → candidates ≡ []
  unfolding most_recent_eligible
  most_recent_eligible-none [] h = refl
  most_recent_eligible-none (c ∷ candidates) h =
      ok_inversion (instant fromisoformat c.occurred_at) h
        λ t e k. let (best, q, l) = later_of-IsLatest c t candidates e k in cc

  abbrev HasNoProblem : String → Option String → ActionCandidate → Type 0
  HasNoProblem account_ref observed c =
      action_problem fromisoformat (some c) account_ref observed ≡ ok none

  module _ (account_ref : String) (observed : Option String) (c : ActionCandidate) where
    keep_sound :
        (p : Option Problem) (d : ActionCandidate) (rest : List ActionCandidate)
        → action_problem fromisoformat (some d) account_ref observed ≡ ok p
        → Member c (keep p d rest)
        → ((d ≡ c) × HasNoProblem account_ref observed c) ⊎ Member c rest
    keep_sound none d rest e (inl same) = inl (same, rw same at e)
    keep_sound none d rest e (inr m) = inr m
    keep_sound (some _) d rest e m = inr m

    keep_complete :
        (p : Option Problem) (d : ActionCandidate) (rest : List ActionCandidate)
        → action_problem fromisoformat (some d) account_ref observed ≡ ok p
        → HasNoProblem account_ref observed c
        → (d ≡ c) ⊎ Member c rest
        → Member c (keep p d rest)
    keep_complete none d rest e q m = m
    keep_complete (some _) d rest e q (inl same) =
        let e' = rw same at e in let clash = sym e' ∙ q in cc
    keep_complete (some _) d rest e q (inr m) = m

    -- The eligible actions are those of the account's actions in which `action_problem` finds no
    -- problem.
    pub eligible_sound :
        (candidates : List ActionCandidate) {kept : List ActionCandidate}
        → eligible fromisoformat candidates account_ref observed ≡ ok kept
        → Member c kept
        → Member c candidates × HasNoProblem account_ref observed c
    unfolding eligible
    eligible_sound [] h m = absurd (subst (Member c) (sym (ok_inj h)) m).1
    eligible_sound (d ∷ candidates) h m =
        ok_inversion (action_problem fromisoformat (some d) account_ref observed) h λ p e k.
          ok_inversion (eligible fromisoformat candidates account_ref observed) k λ rest e' k'.
            elim (keep_sound p d rest e (subst (Member c) (sym (ok_inj k')) m)) [
              | inl (same, q) ↦ (inl same, q)
              | inr n ↦ let (m', q) = eligible_sound candidates e' n in (inr m', q)
            ]

    pub eligible_complete :
        (candidates : List ActionCandidate) {kept : List ActionCandidate}
        → eligible fromisoformat candidates account_ref observed ≡ ok kept
        → HasNoProblem account_ref observed c
        → Member c candidates
        → Member c kept
    unfolding eligible
    eligible_complete [] h q m = absurd m.1
    eligible_complete (d ∷ candidates) h q m =
        ok_inversion (action_problem fromisoformat (some d) account_ref observed) h λ p e k.
          ok_inversion (eligible fromisoformat candidates account_ref observed) k λ rest e' k'.
            let m' : (d ≡ c) ⊎ Member c rest = elim m [
              | inl same ↦ inl same
              | inr n ↦ inr (eligible_complete candidates e' q n)
            ] in
            subst (Member c) (ok_inj k') (keep_complete p d rest e q m')
