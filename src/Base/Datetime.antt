-- ===== src/Base/Datetime.antt =====
-- The part of Python's `datetime` that the program uses: dates of the proleptic Gregorian calendar,
-- and date-times in microseconds with an optional UTC offset. The limits of `date` and `datetime`
-- to the years 1 to 9999 are not modelled; the limit of `timedelta` is.
use Prim.Native.Nat.{ℕ, ◌+◌, ◌-◌, ◌*◌, ◌/◌, ◌%◌}
use mathlib.Core.Bool.{Bool, not, ◌&&◌, ◌||◌}
use mathlib.Core.Option.{Option, some}
use flight_recorder.Base.Tests.{ltb, ◌==◌, if◌then◌else◌}
use flight_recorder.Base.Int.{ℤ, pos, ◌-ℤ◌}

pub record Date : Type 0 where
  pub year : ℕ
  pub month : ℕ
  pub day : ℕ

abbrev is_leap : ℕ → Bool
is_leap y = y % 4 == 0 && (not (y % 100 == 0) || y % 400 == 0)

abbrev days_before_year : ℕ → ℕ
days_before_year y = let p = y - 1 in p * 365 + p / 4 - p / 100 + p / 400

abbrev days_before_month : ℕ → ℕ → ℕ
days_before_month y m =
    let leap_day : ℕ = if ltb 2 m && is_leap y then 1 else 0 in
    let plain : ℕ =
      if m == 1
      then 0
      else if m == 2
      then 31
      else if m == 3
      then 59
      else if m == 4
      then 90
      else if m == 5
      then 120
      else if m == 6
      then 151
      else if m == 7
      then 181
      else if m == 8
      then 212
      else if m == 9
      then 243
      else if m == 10
      then 273
      else if m == 11
      then 304
      else 334 in
    plain + leap_day

-- `date.toordinal()`: January 1st of year 1 is day 1.
unfoldable pub toordinal : Date → ℕ
toordinal d = days_before_year d.year + days_before_month d.year d.month + d.day

abbrev pub day_micros : ℕ
day_micros = 86400000000

-- `local` counts microseconds of the wall clock from the start of year 1; a naive value has no
-- offset from UTC.
pub record Datetime : Type 0 where
  pub local : ℤ
  pub utcoffset : Option ℤ

-- `value.astimezone(UTC)`, for an aware value.
abbrev pub shift_utc : ℤ → ℤ → Datetime
shift_utc local offset = record { local = local -ℤ offset; utcoffset = some (pos 0) }

-- `datetime(d.year, d.month, d.day, tzinfo=UTC)`
unfoldable pub midnight_utc : Date → Datetime
midnight_utc d = record { local = pos ((toordinal d - 1) * day_micros); utcoffset = some (pos 0) }

-- `timedelta(days=n)` raises `OverflowError` above this number of days.
abbrev pub max_timedelta_days : ℕ
max_timedelta_days = 999999999
