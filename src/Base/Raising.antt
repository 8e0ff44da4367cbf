-- ===== src/Base/Raising.antt =====
-- Python functions that may raise: a value, or the exception that was raised.
use mathlib.Core.Path.{◌≡◌, refl, ap}
use mathlib.Core.Logic.{◌⊎◌, inl, inr}
use mathlib.Core.Bool.{Bool, true, false, not}

pub data Result {ℓ} (E A : Type ℓ) : Type ℓ where
  ok : A → Result E A
  err : E → Result E A

-- An exception of one component as one of another that lets it through.
abbrev pub map_err {ℓ} : {E F A : Type ℓ} → (E → F) → Result E A → Result F A
map_err wrap (err e) = err (wrap e)
map_err wrap (ok a) = ok a

-- `if b: raise e`
abbrev pub raise_if : {E : Type 0} → Bool → E → Result E (Unit {0})
raise_if false e = ok tt
raise_if true e = err e

-- What follows a call: an exception goes past it.
infixl 5 ◌>>=◌ ◌>>◌
abbrev pub ◌>>=◌ {ℓ} : {E A B : Type ℓ} → Result E A → (A → Result E B) → Result E B
err e >>= next = err e
ok a >>= next = next a

abbrev pub ◌>>◌ {ℓ} : {E A B : Type ℓ} → Result E A → Result E B → Result E B
first >> second = first >>= λ _. second

-- A call behind which an exception has not gone past, with the rest of the proof as a continuation.
pub ok_inversion {ℓ} :
    {E A B C : Type ℓ} (m : Result E A) {f : A → Result E B} {b : B}
    → (m >>= f) ≡ ok b
    → ((a : A) → m ≡ ok a → f a ≡ ok b → C)
    → C
ok_inversion (ok a) h k = k a refl h
ok_inversion (err e) h k = cc

pub ok_inj {ℓ} : {E A : Type ℓ} {a b : A} → ◌≡◌ {A = Result E A} (ok a) (ok b) → a ≡ b
ok_inj h = cc

pub Result-cases {ℓ} :
    {E A : Type ℓ} (r : Result E A) → ((a : A) × (r ≡ ok a)) ⊎ ((e : E) × (r ≡ err e))
Result-cases (ok a) = inl (a, refl)
Result-cases (err e) = inr (e, refl)

pub map_err-ok {ℓ} :
    {E F A : Type ℓ} (wrap : E → F) (m : Result E A) {a : A} → map_err wrap m ≡ ok a → m ≡ ok a
map_err-ok wrap (ok a) h = ap ok (ok_inj h)
map_err-ok wrap (err e) h = cc

-- The call that a refusal has not stopped.
pub raise_if-passed :
    {E : Type 0} (b : Bool) (e : E) {u : Unit {0}} → raise_if (not b) e ≡ ok u → b ≡ true
raise_if-passed true e h = refl
raise_if-passed false e h = cc

pub raise_if-not_raised :
    {E : Type 0} (b : Bool) (e : E) {u : Unit {0}} → raise_if b e ≡ ok u → b ≡ false
raise_if-not_raised true e h = cc
raise_if-not_raised false e h = refl
