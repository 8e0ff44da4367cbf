-- ===== src/Rules/Window.antt =====
-- The meaning of the rules over a decision boundary: elapsed time, in UTC, with both ends included.
use mathlib.Core.Path.{fun_ext}
use flight_recorder.Base.{
  ap, ◌>>=◌, ℕ, ◌*◌, ◌-◌, ◌≤◌, ◌<◌, ◌≡◌, refl, Bool, true, false, Option, none, some, inl, inr,
  Option-cases, ◌+◌, ◌≢◌, sym, ◌∙◌, ◌↔◌, arith, ok, err,
}
use flight_recorder.Base.Int.{ℤ, pos, pos_part, neg_part, ◌-ℤ◌, ◌≤ℤ◌}
use flight_recorder.Base.Text.{Text}
use flight_recorder.Base.Datetime.{
  Date, Datetime, midnight_utc, toordinal, day_micros, max_timedelta_days,
}
use flight_recorder.Rules.{
  Rule, between_rule, equals_rule, at_least_rule, observed_within_rule, int_value, str_value,
  null_value, at_datetime, ScalarValue, bool_value, Observed, on_date, timedelta_overflow, matches,
  require_aware_boundary, in_window, require_date, require_int, reject_bool, require_str,
}

-- The start of a calendar date, in microseconds of UTC.
abbrev pub start_of : Date → ℤ
start_of d = pos ((toordinal d - 1) * day_micros)

abbrev pub aware : ℤ → ℤ → Datetime
aware local offset = record { local = local; utcoffset = some offset }

abbrev pub is_bool : ScalarValue → Bool
is_bool (bool_value b) = true
is_bool _ = false

in_window_iff :
    (n : ℕ) (d : Date) (local offset : ℤ)
    → n ≤ max_timedelta_days
    → (in_window (pos n) d (aware local offset) ≡ ok true)
      ↔ ((start_of d ≤ℤ local -ℤ offset) × (local -ℤ offset -ℤ start_of d ≤ℤ pos (n * day_micros)))
unfolding in_window require_aware_boundary midnight_utc
in_window_iff n d local offset h = ground arith

matches-in_window :
    (key : Text) (days : ℤ) (value : ScalarValue) (d : Date) (boundary : Datetime)
    → is_bool value ≡ false
    → matches (observed_within_rule key days) value (some (on_date d)) boundary
      ≡ in_window days d boundary
unfolding matches
matches-in_window key days (bool_value b) d boundary h = cc
matches-in_window key days _ d boundary h = refl

-- For a window of at most 999,999,999 days, a date observation and an aware boundary, the rule
-- matches exactly when midnight UTC of the date is not after the boundary and the elapsed time to
-- it is at most that many times 24 hours; the preserved value does not matter, unless Boolean.
pub matches-observed_within_iff :
    (key : Text) (n : ℕ) (value : ScalarValue) (d : Date) (local offset : ℤ)
    → n ≤ max_timedelta_days
    → is_bool value ≡ false
    → (matches (observed_within_rule key (pos n)) value (some (on_date d)) (aware local offset)
        ≡ ok true)
      ↔ ((start_of d ≤ℤ local -ℤ offset) × (local -ℤ offset -ℤ start_of d ≤ℤ pos (n * day_micros)))
matches-observed_within_iff key n value d local offset h k =
    rw (matches-in_window key (pos n) value d (aware local offset) k)
      (in_window_iff n d local offset h)

in_window-same_instant :
    (days : ℤ) (d : Date) (l₁ o₁ l₂ o₂ : ℤ)
    → l₁ -ℤ o₁ ≡ l₂ -ℤ o₂
    → in_window days d (aware l₁ o₁) ≡ in_window days d (aware l₂ o₂)
unfolding in_window require_aware_boundary
in_window-same_instant days d l₁ o₁ l₂ o₂ h = rw h

-- Two aware boundaries that name one instant, under whatever offsets, give every rule the same
-- answer, exceptions included.
pub matches-same_instant :
    (rule : Rule) (value : ScalarValue) (observed_at : Option Observed)
    (local₁ offset₁ local₂ offset₂ : ℤ)
    → local₁ -ℤ offset₁ ≡ local₂ -ℤ offset₂
    → matches rule value observed_at (aware local₁ offset₁)
      ≡ matches rule value observed_at (aware local₂ offset₂)
unfolding matches require_aware_boundary
matches-same_instant (observed_within_rule key days) (bool_value b) o l₁ o₁ l₂ o₂ h = refl
matches-same_instant (observed_within_rule key days) value o l₁ o₁ l₂ o₂ h =
    ap (λ window. require_date key o >>= window)
      (fun_ext (λ d. in_window-same_instant days d l₁ o₁ l₂ o₂ h))
matches-same_instant _ value o l₁ o₁ l₂ o₂ h = refl

-- The rule is a window of more days than a `timedelta` holds, and comes to measure it: the value is no
-- Boolean, the observation is a date, the boundary is aware, and the date is not after it.
abbrev pub Overflows : Rule → ScalarValue → Option Observed → Datetime → Type 0
Overflows (observed_within_rule key days) value (some (on_date d)) boundary =
    (is_bool value ≡ false)
    × (999999999 < pos_part days + neg_part days)
    × (offset : ℤ) × (boundary.utcoffset ≡ some offset)
    × (start_of d ≤ℤ boundary.local -ℤ offset)
Overflows _ _ _ _ = ⊥

in_window-overflow :
    (days : ℤ) (d : Date) (local offset : ℤ)
    → (in_window days d (aware local offset) ≡ err timedelta_overflow)
      ↔ ((999999999 < pos_part days + neg_part days) × (start_of d ≤ℤ local -ℤ offset))
unfolding in_window require_aware_boundary midnight_utc
in_window-overflow days d local offset = ground arith

in_window-naive :
    (days : ℤ) (d : Date) (boundary : Datetime)
    → boundary.utcoffset ≡ none
    → in_window days d boundary ≢ err timedelta_overflow
unfolding in_window require_aware_boundary
in_window-naive days d boundary naive h = cc (rw (naive, require_aware_boundary) at h)

observed_within-overflow_iff :
    (key : Text) (days : ℤ) (value : ScalarValue) (d : Date) (boundary : Datetime)
    → is_bool value ≡ false
    → (matches (observed_within_rule key days) value (some (on_date d)) boundary
        ≡ err timedelta_overflow)
      ↔ Overflows (observed_within_rule key days) value (some (on_date d)) boundary
observed_within-overflow_iff key days value d boundary h = (
  (λ q.
      let measured = rw (matches-in_window key days value d boundary h) at q in
      elim (Option-cases boundary.utcoffset) [
        | inl naive ↦ absurd (in_window-naive days d boundary naive measured)
        | inr (offset, is_aware) ↦
            let same : boundary ≡ aware boundary.local offset = ground (arith, is_aware) in
            let (large, start) =
              (in_window-overflow days d boundary.local offset).0
                (ap (in_window days d) (sym same) ∙ measured) in
            (h, large, offset, is_aware, start)
      ]),
  (λ (_, large, offset, is_aware, start).
      let same : boundary ≡ aware boundary.local offset = ground (arith, is_aware) in
      matches-in_window key days value d boundary h
      ∙ ap (in_window days d) same
      ∙ (in_window-overflow days d boundary.local offset).1 (large, start)),
)

require_int-no_overflow :
    {A : Type 0} (key : Text) (value : ScalarValue) (f : ℤ → A)
    → (require_int key value >>= λ n. ok (f n)) ≢ err timedelta_overflow
unfolding require_int
require_int-no_overflow key (int_value n) f h = cc
require_int-no_overflow key (str_value s) f h = cc
require_int-no_overflow key (bool_value b) f h = cc
require_int-no_overflow key null_value f h = cc

-- `matches` raises the `OverflowError` of `timedelta` exactly for a window of more than 999,999,999 days,
-- either sign, whose value is no Boolean, on a date that is not after an aware boundary.
pub matches-overflow_iff :
    (rule : Rule) (value : ScalarValue) (observed_at : Option Observed) (boundary : Datetime)
    → (matches rule value observed_at boundary ≡ err timedelta_overflow)
      ↔ Overflows rule value observed_at boundary
unfolding matches require_int require_str reject_bool require_date
matches-overflow_iff (between_rule key low high) value o boundary =
    ((λ h. absurd (require_int-no_overflow key value _ h)), (λ k. absurd k))
matches-overflow_iff (at_least_rule key minimum) value o boundary =
    ((λ h. absurd (require_int-no_overflow key value _ h)), (λ k. absurd k))
matches-overflow_iff (equals_rule key literal) (int_value n) o boundary =
    ((λ h. cc), (λ k. absurd k))
matches-overflow_iff (equals_rule key literal) (str_value s) o boundary =
    ((λ h. cc), (λ k. absurd k))
matches-overflow_iff (equals_rule key literal) (bool_value b) o boundary =
    ((λ h. cc), (λ k. absurd k))
matches-overflow_iff (equals_rule key literal) null_value o boundary = ((λ h. cc), (λ k. absurd k))
matches-overflow_iff (observed_within_rule key days) (bool_value b) (some (on_date d)) boundary =
    ((λ h. cc), (λ k. cc))
matches-overflow_iff (observed_within_rule key days) value (some (on_date d)) boundary =
    observed_within-overflow_iff key days value d boundary refl
matches-overflow_iff (observed_within_rule key days) (bool_value b) none boundary =
    ((λ h. cc), (λ k. absurd k))
matches-overflow_iff (observed_within_rule key days) value none boundary =
    ((λ h. cc), (λ k. absurd k))
matches-overflow_iff (observed_within_rule key days) (bool_value b) (some (at_datetime t))
      boundary =
    ((λ h. cc), (λ k. absurd k))
matches-overflow_iff (observed_within_rule key days) value (some (at_datetime t)) boundary =
    ((λ h. cc), (λ k. absurd k))
