-- ===== src/Rules.antt =====
-- logic/rules.py: the closed grammar of rules, their meaning, and decision boundaries.
-- The messages of exceptions are not modelled; `TypeDetail` tells the raises of `RuleTypeError` apart.
pub mod Digits
pub mod Pattern
pub mod Grammar
pub mod Window
pub mod Refusals
mod Tests
use flight_recorder.Base.{
  ℕ, ◌+◌, ◌*◌, ◌<◌, Bool, true, false, ◌&&◌, Option, none, some, String, not, ltb, leb,
  if◌then◌else◌, Result, ok, err, ◌>>=◌, ◌>>◌, raise_if,
}
use flight_recorder.Base.Int.{ℤ, pos, ◌-ℤ◌, leb_ℤ, ltb_ℤ, pos_part, neg_part, sub_ℕ}
use flight_recorder.Base.Text.{Text, codes, text_eq}
use flight_recorder.Base.Datetime.{
  Date, Datetime, shift_utc, midnight_utc, day_micros, max_timedelta_days,
}
use flight_recorder.Rules.Digits.{int}
use flight_recorder.Rules.Pattern.{between, equals, at_least, observed_within}

-- `ScalarValue` of collector/schema.py
pub data ScalarValue : Type 0 where
  int_value : ℤ → ScalarValue
  str_value : String → ScalarValue
  bool_value : Bool → ScalarValue
  null_value : ScalarValue

-- An `observed_at` is a date, and a `datetime` is a `date` in Python.
pub data Observed : Type 0 where
  on_date : Date → Observed
  at_datetime : Datetime → Observed

pub data TypeDetail : Type 0 where
  needs_integer needs_string boolean_value observed_at_missing observed_at_not_a_date : TypeDetail

pub data BoundaryDetail : Type 0 where
  not_an_instant naive_instant : BoundaryDetail

-- The exceptions of this module, and the two of Python's own that its calls of `int` and
-- `timedelta` can raise.
pub data RuleError : Type 0 where
  unsupported_rule : String → String → RuleError
  rule_key_mismatch : String → Text → String → RuleError
  rule_type_error : Text → TypeDetail → RuleError
  unsupported_boundary : BoundaryDetail → RuleError
  int_value_error : RuleError
  timedelta_overflow : RuleError

pub data Rule : Type 0 where
  between_rule : Text → ℤ → ℤ → Rule
  equals_rule : Text → Text → Rule
  at_least_rule : Text → ℤ → Rule
  observed_within_rule : Text → ℤ → Rule

-- `_require_int`
require_int : Text → ScalarValue → Result RuleError ℤ
require_int key (int_value n) = ok n
require_int key _ = err (rule_type_error key needs_integer)

-- `_reject_bool`
reject_bool : Text → ScalarValue → Result RuleError (Unit {0})
reject_bool key (bool_value b) = err (rule_type_error key boolean_value)
reject_bool key _ = ok tt

-- The value as a string, in `EqualsRule.matches`.
require_str : Text → ScalarValue → Result RuleError String
require_str key (str_value s) = ok s
require_str key _ = err (rule_type_error key needs_string)

-- The calendar date of an observation, in `ObservedWithinRule.matches`.
require_date : Text → Option Observed → Result RuleError Date
require_date key none = err (rule_type_error key observed_at_missing)
require_date key (some (at_datetime _)) = err (rule_type_error key observed_at_not_a_date)
require_date key (some (on_date d)) = ok d

-- A naive boundary is refused, an aware one is moved to UTC.
unfoldable pub require_aware_boundary : Datetime → Result RuleError Datetime
require_aware_boundary boundary = elim boundary.utcoffset [
  | none ↦ err (unsupported_boundary naive_instant)
  | some offset ↦ ok (shift_utc boundary.local offset)
]

-- `timedelta(days=n)`, in microseconds.
timedelta_days : ℤ → Result RuleError ℤ
timedelta_days n = do
  raise_if (ltb max_timedelta_days (pos_part n + neg_part n)) timedelta_overflow
  ok (sub_ℕ (pos_part n * day_micros) (neg_part n * day_micros))

-- `boundary - instant <= timedelta(days=n)`
within_days : ℤ → Datetime → Datetime → Result RuleError Bool
unfolding timedelta_days
within_days days instant boundary = do
  window ← timedelta_days days
  ok (leb_ℤ (boundary.local -ℤ instant.local) window)

-- `ObservedWithinRule.matches`, behind its check of the date.
in_window : ℤ → Date → Datetime → Result RuleError Bool
unfolding within_days
in_window days date boundary = do
  let instant = midnight_utc date
  utc ← require_aware_boundary boundary
  if ltb_ℤ utc.local instant.local then ok false else within_days days instant utc

-- The `matches` methods.
unfoldable pub matches : Rule → ScalarValue → Option Observed → Datetime → Result RuleError Bool
unfolding require_int reject_bool require_str require_date in_window
matches (between_rule key low high) value observed_at boundary = do
  number ← require_int key value
  ok (leb_ℤ low number && leb_ℤ number high)
matches (equals_rule key literal) value observed_at boundary = do
  reject_bool key value
  s ← require_str key value
  ok (text_eq (codes s) literal)
matches (at_least_rule key minimum) value observed_at boundary = do
  number ← require_int key value
  ok (leb_ℤ minimum number)
matches (observed_within_rule key days) value observed_at boundary = do
  reject_bool key value
  date ← require_date key observed_at
  in_window days date boundary

-- `int` raises `ValueError` on more digits than it admits.
int_of : Text → Result RuleError ℤ
int_of t = elim (int t) [ none ↦ err int_value_error | some n ↦ ok n ]

-- The key that a pattern captured is the factor's own.
check_key : String → Text → String → Result RuleError (Unit {0})
check_key key found text =
    raise_if (not (text_eq found (codes key))) (rule_key_mismatch key found text)

-- The rounds of the loop of `parse_rule`, the last first: a pattern that does not match passes the
-- text on.
try_observed_within : String → String → Result RuleError Rule
try_observed_within key text = elim (observed_within (codes text)) [
  | none ↦ err (unsupported_rule key text)
  | some (found, days) ↦ do
    check_key key found text
    n ← int_of days
    ok (observed_within_rule found n)
]

try_at_least : String → String → Result RuleError Rule
try_at_least key text = elim (at_least (codes text)) [
  | none ↦ try_observed_within key text
  | some (found, minimum) ↦ do
    check_key key found text
    n ← int_of minimum
    ok (at_least_rule found n)
]

try_equals : String → String → Result RuleError Rule
try_equals key text = elim (equals (codes text)) [
  | none ↦ try_at_least key text
  | some (found, literal) ↦ do check_key key found text; ok (equals_rule found literal)
]

unfoldable pub parse_rule : String → String → Result RuleError Rule
unfolding try_equals try_at_least try_observed_within check_key int_of
parse_rule key text = elim (between (codes text)) [
  | none ↦ try_equals key text
  | some (found, low, high) ↦ do
    check_key key found text
    a ← int_of low
    b ← int_of high
    ok (between_rule found a b)
]

-- `datetime.fromisoformat` is the parameter; `none` is its `ValueError`.
unfoldable pub parse_boundary : (String → Option Datetime) → String → Result RuleError Datetime
parse_boundary fromisoformat text = elim (fromisoformat text) [
  | none ↦ err (unsupported_boundary not_an_instant)
  | some parsed ↦ require_aware_boundary parsed
]
