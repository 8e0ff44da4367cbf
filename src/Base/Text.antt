-- ===== src/Base/Text.antt =====
-- Text as its code points, for the code that walks it: prefixes, runs, and an equality test.
use Prim.Native.Char.{code}
use Prim.Native.String.{String}
use Prim.Native.Nat.{ℕ}
use mathlib.Core.Path.{◌≡◌, refl}
use mathlib.Core.Logic.{◌↔◌}
use mathlib.Core.List.{List, [], ◌∷◌, ◌++◌}
use mathlib.Core.Bool.{Bool, true, false, ◌&&◌}
use mathlib.Core.Option.{Option, none, some}
use native.Mathlib.Omega.{arith}
use flight_recorder.Base.Tests.{ltb, ◌==◌, if◌then◌else◌}
use flight_recorder.Base.Lists.{All}

abbrev pub Text : Type 0
Text = List ℕ

abbrev pub codes : String → Text
codes String.[] = []
codes (String.◌∷◌ c s) = code c ∷ codes s

abbrev pub text_eq : Text → Text → Bool
text_eq [] [] = true
text_eq (a ∷ s) (b ∷ t) = (a == b) && text_eq s t
text_eq _ _ = false

pub text_eq_iff : (s t : Text) → (text_eq s t ≡ true) ↔ (s ≡ t)
text_eq_iff [] [] = ground arith
text_eq_iff [] (b ∷ t) = ground arith
text_eq_iff (a ∷ s) [] = ground arith
text_eq_iff (a ∷ s) (b ∷ t) = ground (arith, text_eq_iff s t)

-- The longest prefix of characters that pass the test, and the rest.
unfoldable pub span : (ℕ → Bool) → Text → Text × Text
span p [] = ([], [])
span p (c ∷ t) = let rest = span p t in if p c then (c ∷ rest.0, rest.1) else ([], c ∷ t)

-- What stands behind a literal prefix.
abbrev pub strip : Text → Text → Option Text
strip [] t = some t
strip (a ∷ s) [] = none
strip (a ∷ s) (b ∷ t) = if a == b then strip s t else none

-- No further character passes the test.
abbrev pub Stops : (ℕ → Bool) → Text → Type 0
Stops p [] = Unit
Stops p (c ∷ t) = p c ≡ false

abbrev pub Passes : (ℕ → Bool) → ℕ → Type 0
Passes p c = p c ≡ true

pub span-append :
    (p : ℕ → Bool) (s t : Text) → All (Passes p) s → Stops p t → span p (s ++ t) ≡ (s, t)
unfolding span
span-append p [] [] h k = refl
span-append p [] (c ∷ t) h k = rw k
span-append p (c ∷ s) t h k = rw (h.0) (rw (span-append p s t h.1 k))

pub span_sound :
    (p : ℕ → Bool) (t : Text) → (t ≡ (span p t).0 ++ (span p t).1) × All (Passes p) (span p t).0
unfolding span
span_sound p [] = (refl, tt)
span_sound p (c ∷ t) = ground (arith, span_sound p t)

pub strip-append : (s t : Text) → strip s (s ++ t) ≡ some t
strip-append [] t = refl
strip-append (a ∷ s) t = ground (arith, strip-append s t)

pub strip_sound : (s t : Text) {r : Text} → strip s t ≡ some r → t ≡ s ++ r
strip_sound [] t h = ground arith
strip_sound (a ∷ s) [] h = cc
strip_sound (a ∷ s) (b ∷ t) {r} h = ground (arith, strip_sound s t {r = r})

-- `s < t` of Python: by the first code point that differs.
abbrev pub text_lt : Text → Text → Bool
text_lt s [] = false
text_lt [] (b ∷ t) = true
text_lt (a ∷ s) (b ∷ t) = let rest = text_lt s t in if a == b then rest else ltb a b

-- `sorted(xs, key=...)`, and a query's `ORDER BY`, by a text: stable.
module _ {A : Type 0} (key : A → String) where
  abbrev pub insert_sorted : A → List A → List A
  insert_sorted x [] = x ∷ []
  insert_sorted x (y ∷ ys) =
      let rest = insert_sorted x ys in
      if text_lt (codes (key y)) (codes (key x)) then y ∷ rest else x ∷ y ∷ ys

  abbrev pub sort_by : List A → List A
  sort_by [] = []
  sort_by (x ∷ xs) = insert_sorted x (sort_by xs)

-- `s < t` of Python, and of SQLite, on strings.
abbrev pub str_lt : String → String → Bool
str_lt s t = text_lt (codes s) (codes t)
