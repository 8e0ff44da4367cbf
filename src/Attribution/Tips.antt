-- ===== src/Attribution/Tips.antt =====
-- `effective_attribution` of attribution/policy.py: the one stored attribution that none supersedes.
use mathlib.Core.Option.{some_inj}
use flight_recorder.Attribution.Snapshot.{recorded_by}
use flight_recorder.Base.{
  ◌∙◌, and_split, ◌≤◌, ◌⊎◌, ◌&&◌, none, Option, leb, str_eq, str_eq_iff, str_eq_refl, ℕ, ◌≡◌, refl,
  ap, Bool, true, false, not, inl, inr, some, List, [], ◌∷◌, String, ok, ok_inj, arith, select,
  Member, Bool-cases,
}
use flight_recorder.Base.Members.{select-Member, Member-select, join_sound, join_complete}
use flight_recorder.Ledger.{EventRow, StoredAttribution, Ledger}
use flight_recorder.Attribution.Selection.{
  supersedes, is_superseded, tips, sole_tip, attribution_rows, effective_attribution,
}

-- The row attributes this outcome version under this policy, and an event with its id is recorded by
-- the cutoff.
pub record IsRecorded (conn : Ledger) (outcome_event_id version : String) (cutoff : ℕ)
    (row : StoredAttribution) : Type 0 where
  pub is_row : Member row conn.outcome_attributions
  pub of_outcome : row.outcome_event_id ≡ outcome_event_id
  pub of_policy : row.policy_version ≡ version
  pub event : EventRow
  pub is_event : Member event conn.events
  pub same_id : event.event_id ≡ row.attribution_event_id
  pub in_time : event.ingest_sequence ≤ cutoff

-- Some such row names this one as the row that it supersedes.
abbrev pub IsSuperseded : Ledger → String → String → ℕ → StoredAttribution → Type 0
IsSuperseded conn outcome_event_id version cutoff row =
    (other : StoredAttribution) × IsRecorded conn outcome_event_id version cutoff other
    × (other.supersedes_attribution_event_id ≡ some row.attribution_event_id)

-- What is answered is the only recorded row that none supersedes, or nothing where there is none.
abbrev pub IsEffective : Ledger → String → String → ℕ → Option StoredAttribution → Type 0
IsEffective conn id version cutoff none =
    (row : StoredAttribution)
    → IsRecorded conn id version cutoff row
    → IsSuperseded conn id version cutoff row
IsEffective conn id version cutoff (some row) =
    IsRecorded conn id version cutoff row
    × (¬ IsSuperseded conn id version cutoff row)
    × ((other : StoredAttribution)
        → IsRecorded conn id version cutoff other
        → (row ≡ other) ⊎ IsSuperseded conn id version cutoff other)

not-true : (b : Bool) → not b ≡ true → b ≡ false
not-true true h = cc
not-true false h = refl

only : (other row : StoredAttribution) → Member other (row ∷ []) → row ≡ other
only other row (inl e) = e
only other row (inr m) = absurd m.1

sole_tip-single :
    (id version : String) (rows : List StoredAttribution) {row : StoredAttribution}
    → sole_tip id version rows ≡ ok (some row)
    → rows ≡ row ∷ []
unfolding sole_tip
sole_tip-single id version [] h = cc
sole_tip-single id version (r ∷ []) h = ap (λ x. x ∷ []) (some_inj.0 (ok_inj h))
sole_tip-single id version (r ∷ s ∷ rows) h = cc

sole_tip-none :
    (id version : String) (rows : List StoredAttribution)
    → sole_tip id version rows ≡ ok none
    → rows ≡ []
unfolding sole_tip
sole_tip-none id version [] h = refl
sole_tip-none id version (r ∷ []) h = cc
sole_tip-none id version (r ∷ s ∷ rows) h = cc

module _ (conn : Ledger) (id version : String) (cutoff : ℕ) where
  rows-IsRecorded :
      (row : StoredAttribution)
      → Member row (attribution_rows conn id version cutoff)
      → IsRecorded conn id version cutoff row
  unfolding attribution_rows
  rows-IsRecorded row m =
      let asked = λ (a : StoredAttribution).
        str_eq a.outcome_event_id id && str_eq a.policy_version version in
      let in_time = λ (e : EventRow).
        str_eq e.event_id row.attribution_event_id && leb e.ingest_sequence cutoff in
      let (found, event, joined) =
        join_sound (λ (a : StoredAttribution). recorded_by cutoff conn a.attribution_event_id) row
          (select asked conn.outcome_attributions) m in
      let (is_row, is_asked) = select-Member asked row conn.outcome_attributions found in
      let (is_event, is_in_time) = select-Member in_time event conn.events joined in
      let (outcome, policy) = and_split _ _ is_asked in
      let (same, early) = and_split _ _ is_in_time in
      record {
        is_row = is_row;
        of_outcome = (str_eq_iff row.outcome_event_id id).0 outcome;
        of_policy = (str_eq_iff row.policy_version version).0 policy;
        event = event;
        is_event = is_event;
        same_id = (str_eq_iff event.event_id row.attribution_event_id).0 same;
        in_time = ground arith;
      }

  IsRecorded-rows :
      (row : StoredAttribution)
      → IsRecorded conn id version cutoff row
      → Member row (attribution_rows conn id version cutoff)
  unfolding attribution_rows
  IsRecorded-rows row r =
      let asked = λ (a : StoredAttribution).
        str_eq a.outcome_event_id id && str_eq a.policy_version version in
      let in_time = λ (e : EventRow).
        str_eq e.event_id row.attribution_event_id && leb e.ingest_sequence cutoff in
      let same = (str_eq_iff r.event.event_id row.attribution_event_id).1 r.same_id in
      let outcome = (str_eq_iff row.outcome_event_id id).1 r.of_outcome in
      let policy = (str_eq_iff row.policy_version version).1 r.of_policy in
      let early : leb r.event.ingest_sequence cutoff ≡ true = ground (arith, r.in_time) in
      join_complete (λ (a : StoredAttribution). recorded_by cutoff conn a.attribution_event_id) row
        r.event (select asked conn.outcome_attributions)
        (Member-select asked row conn.outcome_attributions (rw (outcome, policy) refl) r.is_row)
        (Member-select in_time r.event conn.events (rw (same, early) refl) r.is_event)

  supersedes_sound : (o : Option String) (s : String) → supersedes o s ≡ true → o ≡ some s
  supersedes_sound none s h = cc
  supersedes_sound (some t) s h = ap some ((str_eq_iff t s).0 h)

  superseding :
      (rows : List StoredAttribution) (s : String)
      → is_superseded rows s ≡ true
      → (other : StoredAttribution) × Member other rows
        × (other.supersedes_attribution_event_id ≡ some s)
  superseding [] s h = cc
  superseding (r ∷ rows) s h = elim (Bool-cases (supersedes r.supersedes_attribution_event_id s)) [
    | inl here ↦ (r, inl refl, supersedes_sound r.supersedes_attribution_event_id s here)
    | inr there ↦ let (other, m, e) = superseding rows s (rw there at h) in (other, inr m, e)
  ]

  is_superseded_complete :
      (rows : List StoredAttribution) (s : String) (other : StoredAttribution)
      → Member other rows
      → other.supersedes_attribution_event_id ≡ some s
      → is_superseded rows s ≡ true
  is_superseded_complete [] s other m e = absurd m.1
  is_superseded_complete (r ∷ rows) s other (inl here) e =
      let named : r.supersedes_attribution_event_id ≡ some s =
        ap (λ (x : StoredAttribution). x.supersedes_attribution_event_id) here ∙ e in
      rw (named, str_eq_refl s) refl
  is_superseded_complete (r ∷ rows) s other (inr there) e =
      ground (arith, is_superseded_complete rows s other there e)

  abbrev rows : List StoredAttribution
  rows = attribution_rows conn id version cutoff

  IsSuperseded-sound :
      (row : StoredAttribution)
      → is_superseded rows row.attribution_event_id ≡ true
      → IsSuperseded conn id version cutoff row
  IsSuperseded-sound row h =
      let (other, m, e) = superseding rows row.attribution_event_id h in
      (other, rows-IsRecorded other m, e)

  IsSuperseded-complete :
      (row : StoredAttribution)
      → is_superseded rows row.attribution_event_id ≡ false
      → ¬ IsSuperseded conn id version cutoff row
  IsSuperseded-complete row h (other, recorded, e) = cc (
      is_superseded_complete rows row.attribution_event_id other (IsRecorded-rows other recorded) e)

  abbrev is_tip : StoredAttribution → Bool
  is_tip r = not (is_superseded rows r.attribution_event_id)

  -- A recorded row is a tip or superseded.
  tip-or-IsSuperseded :
      (row : StoredAttribution)
      → IsRecorded conn id version cutoff row
      → Member row (tips rows) ⊎ IsSuperseded conn id version cutoff row
  tip-or-IsSuperseded row recorded =
      elim (Bool-cases (is_superseded rows row.attribution_event_id)) [
        | inl yes_it_is ↦ inr (IsSuperseded-sound row yes_it_is)
        | inr last ↦
            inl (Member-select is_tip row rows (rw last refl) (IsRecorded-rows row recorded))
      ]

  -- What `effective_attribution` answers is the only attribution of this outcome version under this
  -- policy, recorded by the cutoff, that no other such attribution supersedes; it answers with none only
  -- if each such attribution is superseded.
  pub effective_attribution-IsEffective :
      (answer : Option StoredAttribution)
      → effective_attribution conn id version cutoff ≡ ok answer
      → IsEffective conn id version cutoff answer
  unfolding effective_attribution
  effective_attribution-IsEffective none h =
      let empty = sole_tip-none id version (tips rows) h in
      λ row recorded. elim (tip-or-IsSuperseded row recorded) [
        | inl tip ↦ let no_tip : Member row [] = rw empty at tip in absurd no_tip.1
        | inr superseded ↦ superseded
      ]
  effective_attribution-IsEffective (some row) h =
      let single = sole_tip-single id version (tips rows) h in
      let here : Member row (tips rows) = rw single (inl refl) in
      let (recorded, unsuperseded) = select-Member is_tip row rows here in
      (
        rows-IsRecorded row recorded,
        IsSuperseded-complete row (not-true _ unsuperseded),
        (λ other is_recorded. elim (tip-or-IsSuperseded other is_recorded) [
          | inl tip ↦ inl (only other row (rw single at tip))
          | inr superseded ↦ inr superseded
        ]),
      )
