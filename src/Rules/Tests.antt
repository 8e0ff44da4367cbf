-- ===== src/Rules/Tests.antt =====
-- The theorems on logic/rules.py at concrete texts, values and boundaries.
use flight_recorder.Base.{
  ◌≡◌, refl, true, some, [], ◌∷◌, String, arith, ok, err, ◌↔◌, ◌*◌, ◌+◌, ◌-◌,
}
use flight_recorder.Base.Int.{ℤ, pos, negsuc, ◌-ℤ◌, ◌≤ℤ◌}
use flight_recorder.Base.Text.{Text, codes, span}
use flight_recorder.Base.Datetime.{Date, toordinal, day_micros}
use flight_recorder.Rules.{
  between_rule, observed_within_rule, null_value, on_date, timedelta_overflow, rule_key_mismatch,
  unsupported_rule, parse_rule, matches,
}
use flight_recorder.Rules.Digits.{decimal, int, digits_value}
use flight_recorder.Rules.Pattern.{between}
use flight_recorder.Rules.Grammar.{Reads, parse_rule-iff_Reads}
use flight_recorder.Rules.Window.{
  start_of, aware, matches-observed_within_iff, matches-same_instant, Overflows,
  matches-overflow_iff,
}
use flight_recorder.Rules.Refusals.{
  Shape, between_shape, equals_shape, at_least_shape, observed_within_shape, parse_rule-other_key,
  parse_rule-shapeless,
}

abbrev size_text : String
size_text = "employees between -5 and 200 inclusive"

abbrev found_date : Date
found_date = record { year = 2024; month = 2; day = 29 }

-- Noon of March 30th 2024, at an offset of two hours.
abbrev noon : ℤ
noon = pos ((738975 - 1) * day_micros + 43200000000)

abbrev two_hours : ℤ
two_hours = pos 7200000000

parse_rule_size :
    parse_rule "employees" size_text ≡ ok (between_rule (codes "employees") (negsuc 4) (pos 200))
unfolding parse_rule between span decimal int digits_value
parse_rule_size = refl

parse_rule-iff_Reads_example :
    (parse_rule "employees" size_text ≡ ok (between_rule (codes "employees") (negsuc 4) (pos 200)))
    ↔ Reads "employees" size_text (between_rule (codes "employees") (negsuc 4) (pos 200))
parse_rule-iff_Reads_example =
    parse_rule-iff_Reads "employees" size_text
      (between_rule (codes "employees") (negsuc 4) (pos 200))

-- Ninety days after midnight UTC of the date, to the microsecond: still inside the window.
matches-observed_within_iff_example :
    (matches
        (observed_within_rule (codes "intent") (pos 30))
        null_value
        (some (on_date found_date))
        (aware noon two_hours)
      ≡ ok true)
    ↔ ((start_of found_date ≤ℤ noon -ℤ two_hours)
        × (noon -ℤ two_hours -ℤ start_of found_date ≤ℤ pos (30 * day_micros)))
matches-observed_within_iff_example =
    matches-observed_within_iff (codes "intent") 30 null_value found_date noon two_hours
      (ground arith) refl

matches-same_instant_example :
    matches
      (observed_within_rule (codes "intent") (pos 30))
      null_value
      (some (on_date found_date))
      (aware noon two_hours)
    ≡ matches
        (observed_within_rule (codes "intent") (pos 30))
        null_value
        (some (on_date found_date))
        (aware (noon -ℤ two_hours) (pos 0))
unfolding ◌-ℤ◌
matches-same_instant_example =
    matches-same_instant (observed_within_rule (codes "intent") (pos 30)) null_value
      (some (on_date found_date)) noon two_hours (noon -ℤ two_hours) (pos 0) refl

matches-overflow_iff_example :
    (matches
        (observed_within_rule (codes "intent") (pos 1000000000))
        null_value
        (some (on_date found_date))
        (aware noon two_hours)
      ≡ err timedelta_overflow)
    ↔ Overflows
        (observed_within_rule (codes "intent") (pos 1000000000))
        null_value
        (some (on_date found_date))
        (aware noon two_hours)
matches-overflow_iff_example =
    matches-overflow_iff (observed_within_rule (codes "intent") (pos 1000000000)) null_value
      (some (on_date found_date)) (aware noon two_hours)

-- Both sides hold.
Overflows-wide :
    Overflows
      (observed_within_rule (codes "intent") (pos 1000000000))
      null_value
      (some (on_date found_date))
      (aware noon two_hours)
unfolding ◌-ℤ◌ toordinal
Overflows-wide = (refl, ground arith, two_hours, refl, ground arith)

industry_text : Shape (codes "industry") "industry equals 'retail'"
industry_text = equals_shape (codes "retail") (ground arith) (ground arith) refl

parse_rule-other_key_example :
    parse_rule "employees" "industry equals 'retail'"
    ≡ err (rule_key_mismatch "employees" (codes "industry") "industry equals 'retail'")
parse_rule-other_key_example =
    parse_rule-other_key "employees" "industry equals 'retail'" (codes "industry") industry_text
      (ground arith)

empty_text : (found : Text) → ¬ Shape found ""
empty_text [] (between_shape low high ik il ih q) = ik
empty_text (x ∷ found) (between_shape low high ik il ih q) = cc
empty_text [] (equals_shape literal ik il q) = ik
empty_text (x ∷ found) (equals_shape literal ik il q) = cc
empty_text [] (at_least_shape minimum ik il q) = ik
empty_text (x ∷ found) (at_least_shape minimum ik il q) = cc
empty_text [] (observed_within_shape days ik id q) = ik
empty_text (x ∷ found) (observed_within_shape days ik id q) = cc

parse_rule-shapeless_example : parse_rule "employees" "" ≡ err (unsupported_rule "employees" "")
parse_rule-shapeless_example = parse_rule-shapeless "employees" "" empty_text
