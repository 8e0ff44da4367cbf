-- ===== src/Rules/Digits.antt =====
-- What `\\d` of a Python pattern matches, and what `int` makes of it (logic/rules.py): a decimal
-- digit of any script, which Unicode gives in runs of ten.
use flight_recorder.Base.{
  ℕ, ◌+◌, ◌-◌, ◌*◌, Bool, true, false, ◌&&◌, Option, none, some, List, [], ◌∷◌, ltb, leb, ◌==◌,
  if◌then◌else◌, length,
}
use flight_recorder.Base.Int.{ℤ, pos, sub_ℕ}
use flight_recorder.Base.Text.{Text}

-- The zero of each run of digits (general category Nd, Unicode 15.1).
zeros : List ℕ
zeros =
    48 ∷ 1632 ∷ 1776 ∷ 1984 ∷ 2406 ∷ 2534 ∷ 2662 ∷ 2790 ∷ 2918 ∷ 3046 ∷ 3174 ∷ 3302 ∷ 3430 ∷ 3558
    ∷ 3664 ∷ 3792 ∷ 3872 ∷ 4160 ∷ 4240 ∷ 6112 ∷ 6160 ∷ 6470 ∷ 6608 ∷ 6784 ∷ 6800 ∷ 6992 ∷ 7088
    ∷ 7232 ∷ 7248 ∷ 42528 ∷ 43216 ∷ 43264 ∷ 43472 ∷ 43504 ∷ 43600 ∷ 44016 ∷ 65296 ∷ 66720 ∷ 68912
    ∷ 69734 ∷ 69872 ∷ 69942 ∷ 70096 ∷ 70384 ∷ 70736 ∷ 70864 ∷ 71248 ∷ 71360 ∷ 71472 ∷ 71904 ∷ 72016
    ∷ 72784 ∷ 73040 ∷ 73120 ∷ 73552 ∷ 92768 ∷ 92864 ∷ 93008 ∷ 120782 ∷ 120792 ∷ 120802 ∷ 120812
    ∷ 120822 ∷ 123200 ∷ 123632 ∷ 124144 ∷ 125264 ∷ 130032 ∷ []

digit_in : List ℕ → ℕ → Option ℕ
digit_in [] c = none
digit_in (z ∷ zs) c = if leb z c && ltb c (z + 10) then some (c - z) else digit_in zs c

-- `unicodedata.decimal`
unfoldable pub decimal : ℕ → Option ℕ
unfolding zeros digit_in
decimal c = digit_in zeros c

abbrev pub is_digit : ℕ → Bool
is_digit c = elim (decimal c) [ none ↦ false | some _ ↦ true ]

-- The digits of a number, from the left, behind the value so far.
unfoldable pub digits_value : ℕ → Text → Option ℕ
digits_value n [] = some n
digits_value n (c ∷ t) = elim (decimal c) [ none ↦ none | some d ↦ digits_value (n * 10 + d) t ]

-- `int` refuses a text with more digits (`sys.get_int_max_str_digits()`).
abbrev pub max_str_digits : ℕ
max_str_digits = 4300

magnitude : Text → Option ℕ
magnitude [] = none
magnitude (c ∷ t) = if ltb max_str_digits (length (c ∷ t)) then none else digits_value 0 (c ∷ t)

-- `int(text)` on a text that `-?\\d+` matched; `none` is the `ValueError`.
unfoldable pub int : Text → Option ℤ
unfolding magnitude
int [] = none
int (c ∷ t) =
    if c == b'-'
    then elim (magnitude t) [ none ↦ none | some n ↦ some (sub_ℕ 0 n) ]
    else elim (magnitude (c ∷ t)) [ none ↦ none | some n ↦ some (pos n) ]
