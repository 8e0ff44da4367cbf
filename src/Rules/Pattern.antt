-- ===== src/Rules/Pattern.antt =====
-- The four regular expressions of logic/rules.py, and what their groups capture. In each of them
-- every group ends at the first character that it cannot hold, so that no match backtracks.
mod Groups
pub mod Shapes
use flight_recorder.Base.{
  ℕ, ◌≡◌, Bool, true, ◌&&◌, ◌||◌, Option, none, some, [], ◌∷◌, ◌++◌, String, leb, ◌==◌, not,
  if◌then◌else◌, All,
}
use flight_recorder.Base.Text.{Text, codes, text_eq, span, strip, Passes}
use flight_recorder.Rules.Digits.{decimal, is_digit}

infixl 5 ◌>>=◌
abbrev pub ◌>>=◌ : {A B : Type 0} → Option A → (A → Option B) → Option B
none >>= f = none
some a >>= f = f a

-- `[A-Za-z_]` and `[A-Za-z0-9_]`
abbrev pub is_key_start : ℕ → Bool
is_key_start c = leb b'A' c && leb c b'Z' || (leb b'a' c && leb c b'z' || c == b'_')

abbrev pub is_key_char : ℕ → Bool
is_key_char c = is_key_start c || leb b'0' c && leb c b'9'

-- `[^']`
abbrev pub is_unquoted : ℕ → Bool
is_unquoted c = not (c == 39)

-- `_KEY`
pub match_key : Text → Option (Text × Text)
match_key [] = none
match_key (c ∷ t) =
    let (s, r) = span is_key_char t in if is_key_start c then some (c ∷ s, r) else none

pub some_digits : Text × Text → Option (Text × Text)
some_digits ([], r) = none
some_digits (c ∷ s, r) = some (c ∷ s, r)

-- `\d+`
pub match_digits : Text → Option (Text × Text)
unfolding some_digits
match_digits t = some_digits (span is_digit t)

-- `-?\d+`
pub match_int : Text → Option (Text × Text)
match_int [] = none
match_int (c ∷ t) =
    if c == b'-' then (match_digits t >>= λ (s, r). some (c ∷ s, r)) else match_digits (c ∷ t)

-- The text that is left is exactly this literal.
pub at_end : String → Text → Option (Unit {0})
at_end s t = if text_eq t (codes s) then some tt else none

-- `_BETWEEN`
unfoldable pub between : Text → Option (Text × Text × Text)
unfolding match_key match_digits match_int at_end
between t = do
  (key, r₁) ← match_key t
  r₂ ← strip (codes " between ") r₁
  (low, r₃) ← match_int r₂
  r₄ ← strip (codes " and ") r₃
  (high, r₅) ← match_int r₄
  _ ← at_end " inclusive" r₅
  some (key, low, high)

-- `_EQUALS`
unfoldable pub equals : Text → Option (Text × Text)
unfolding match_key at_end
equals t = do
  (key, r₁) ← match_key t
  r₂ ← strip (codes " equals '") r₁
  let rest = span is_unquoted r₂
  _ ← at_end "'" rest.1
  some (key, rest.0)

-- `_AT_LEAST`
unfoldable pub at_least : Text → Option (Text × Text)
unfolding match_key match_digits match_int at_end
at_least t = do
  (key, r₁) ← match_key t
  r₂ ← strip (codes " at least ") r₁
  (minimum, r₃) ← match_int r₂
  _ ← at_end "" r₃
  some (key, minimum)

-- `_OBSERVED_WITHIN`
unfoldable pub observed_within : Text → Option (Text × Text)
unfolding match_key match_digits at_end
observed_within t = do
  (key, r₁) ← match_key t
  r₂ ← strip (codes " observed within ") r₁
  (days, r₃) ← match_digits r₂
  _ ← at_end " days before the decision boundary" r₃
  some (key, days)

-- The languages of the groups.
abbrev pub IsKey : Text → Type 0
IsKey [] = ⊥
IsKey (c ∷ s) = (is_key_start c ≡ true) × All (Passes is_key_char) s

abbrev pub IsDigits : Text → Type 0
IsDigits [] = ⊥
IsDigits (c ∷ s) = All (Passes is_digit) (c ∷ s)

abbrev pub IsInteger : Text → Type 0
IsInteger [] = ⊥
IsInteger (c ∷ s) = if c == b'-' then IsDigits s else IsDigits (c ∷ s)

abbrev pub IsLiteral : Text → Type 0
IsLiteral s = All (Passes is_unquoted) s

-- The texts of the four shapes.
abbrev pub between_text : Text → Text → Text → Text
between_text key low high =
    key ++ (codes " between " ++ (low ++ (codes " and " ++ (high ++ codes " inclusive"))))

abbrev pub equals_text : Text → Text → Text
equals_text key literal = key ++ (codes " equals '" ++ (literal ++ codes "'"))

abbrev pub at_least_text : Text → Text → Text
at_least_text key minimum = key ++ (codes " at least " ++ minimum)

abbrev pub observed_within_text : Text → Text → Text
observed_within_text key days =
    key ++ (codes " observed within " ++ (days ++ codes " days before the decision boundary"))
