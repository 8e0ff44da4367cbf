-- ===== src/Rules/Pattern/Groups.antt =====
-- Each group matches exactly the texts of its language, up to the first character outside it.
use flight_recorder.Base.{
  ℕ, ◌≡◌, refl, ap, false, Option, none, some, [], ◌∷◌, ◌++◌, arith, String, All, Bool-cases, inl,
  inr, ◌==◌, ◌∙◌,
}
use mathlib.Core.Path.{subst, ap₂}
use flight_recorder.Base.Text.{
  Text, codes, text_eq_iff, span, Stops, Passes, span-append, span_sound,
}
use flight_recorder.Rules.Digits.{is_digit}
use flight_recorder.Rules.Pattern.{
  ◌>>=◌, is_key_start, is_key_char, match_key, some_digits, match_digits, match_int, at_end, IsKey,
  IsDigits, IsInteger,
}

pub bind-eq-some :
    {A B : Type 0} (m : Option A) (f : A → Option B) {b : B}
    → (m >>= f) ≡ some b
    → (a : A) × (m ≡ some a) × (f a ≡ some b)
bind-eq-some none f h = cc
bind-eq-some (some a) f h = (a, refl, h)

-- The same with the rest of the proof as a continuation.
pub bind_inversion :
    {A B C : Type 0} (m : Option A) {f : A → Option B} {b : B}
    → (m >>= f) ≡ some b
    → ((a : A) → m ≡ some a → f a ≡ some b → C)
    → C
bind_inversion none h k = cc
bind_inversion (some a) h k = k a refl h

pub match_key-append :
    (k t : Text) → IsKey k → Stops is_key_char t → match_key (k ++ t) ≡ some (k, t)
unfolding match_key
match_key-append [] t h s = absurd h
match_key-append (c ∷ k) t h s = rw (h.0) (rw (span-append is_key_char k t h.1 s))

pub match_key_sound : (t : Text) {k r : Text} → match_key t ≡ some (k, r) → IsKey k × (t ≡ k ++ r)
unfolding match_key
match_key_sound [] h = cc
match_key_sound (c ∷ t) {k} {r} h = elim (Bool-cases (is_key_start c)) [
  | inl yes_start ↦
      let (e, passes) = span_sound is_key_char t in
      let ek : c ∷ (span is_key_char t).0 ≡ k = ground arith in
      (subst IsKey ek (yes_start, passes), ground arith)
  | inr no_start ↦ absurd (ground arith)
]

pub match_digits-append :
    (k t : Text) → IsDigits k → Stops is_digit t → match_digits (k ++ t) ≡ some (k, t)
unfolding match_digits some_digits
match_digits-append [] t h s = absurd h
match_digits-append (c ∷ k) t h s = rw (span-append is_digit (c ∷ k) t h s)

some_digits_sound :
    (p : Text × Text) {k r : Text}
    → All (Passes is_digit) p.0
    → some_digits p ≡ some (k, r)
    → IsDigits k × (p.0 ++ p.1 ≡ k ++ r)
unfolding some_digits
some_digits_sound ([], r) a h = cc
some_digits_sound (c ∷ s, r) {k} a h = let ek : c ∷ s ≡ k = cc in (subst IsDigits ek a, cc)

pub match_digits_sound :
    (t : Text) {k r : Text} → match_digits t ≡ some (k, r) → IsDigits k × (t ≡ k ++ r)
unfolding match_digits
match_digits_sound t h =
    let (e, passes) = span_sound is_digit t in
    let (digits, e') = some_digits_sound (span is_digit t) passes h in (digits, e ∙ e')

pub match_int-append :
    (l t : Text) → IsInteger l → Stops is_digit t → match_int (l ++ t) ≡ some (l, t)
unfolding match_int
match_int-append [] t h s = absurd h
match_int-append (c ∷ l) t h s = elim (Bool-cases (c == b'-')) [
  | inl minus ↦ rw minus (rw (match_digits-append l t (rw minus at h) s))
  | inr plus ↦ rw plus (match_digits-append (c ∷ l) t (rw plus at h) s)
]

unsigned :
    {c : ℕ} {t : Text} (l r : Text)
    → IsDigits l
    → (c == b'-') ≡ false
    → c ∷ t ≡ l ++ r
    → IsInteger l
unsigned [] r d p e = absurd d
unsigned {c} (a ∷ l) r d p e =
    let same : c ≡ a = cc in let q : (a == b'-') ≡ false = rw same at p in rw q d

pub match_int_sound :
    (t : Text) {l r : Text} → match_int t ≡ some (l, r) → IsInteger l × (t ≡ l ++ r)
unfolding match_int
match_int_sound [] h = cc
match_int_sound (c ∷ t) {l} {r} h = elim (Bool-cases (c == b'-')) [
  | inl minus ↦
      let ((s, r'), e, f) =
        bind-eq-some (match_digits t) (λ (s, r). some (c ∷ s, r)) (rw minus at h) in
      let (digits, e') = match_digits_sound t e in
      let el : c ∷ s ≡ l = cc in
      let er : r' ≡ r = cc in
      (subst IsInteger el (rw minus digits), ap (λ x. c ∷ x) e' ∙ ap₂ ◌++◌ el er)
  | inr plus ↦
      let (digits, e) = match_digits_sound (c ∷ t) (rw plus at h) in (unsigned l r digits plus e, e)
]

pub at_end_self : (s : String) → at_end s (codes s) ≡ some tt
unfolding at_end
at_end_self s = ground (arith, text_eq_iff (codes s) (codes s))

pub at_end_sound : (s : String) (t : Text) {u : Unit {0}} → at_end s t ≡ some u → t ≡ codes s
unfolding at_end
at_end_sound s t h = ground (arith, text_eq_iff t (codes s))
