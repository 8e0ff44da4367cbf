-- ===== src/Rules/Pattern/Shapes.antt =====
-- Each pattern of logic/rules.py matches exactly the texts of its shape, with the groups captured,
-- and no two patterns match one text.
use flight_recorder.Base.{◌≡◌, refl, false, none, some, [], append-nil}
use mathlib.Core.Path.{subst}
use mathlib.Core.Option.{some_inj}
use flight_recorder.Base.Text.{Text, codes, span, strip, span-append, span_sound, strip_sound}
use flight_recorder.Rules.Digits.{decimal, is_digit}
use flight_recorder.Rules.Pattern.{
  is_unquoted, match_key, match_digits, match_int, at_end, IsKey, IsDigits, IsInteger, IsLiteral,
  between, equals, at_least, observed_within, between_text, equals_text, at_least_text,
  observed_within_text,
}
use flight_recorder.Rules.Pattern.Groups.{
  bind_inversion, match_key-append, match_key_sound, match_digits-append, match_digits_sound,
  match_int-append, match_int_sound, at_end_sound,
}

is_digit_space : is_digit b' ' ≡ false
unfolding decimal
is_digit_space = refl

match_int_all : (n : Text) → IsInteger n → match_int n ≡ some (n, [])
match_int_all n il = rw (append-nil n) at (match_int-append n [] il tt)

pub between-text :
    (k l h : Text)
    → IsKey k
    → IsInteger l
    → IsInteger h
    → between (between_text k l h) ≡ some (k, l, h)
unfolding between
between-text k l h ik il ih =
    rw (match_key-append k _ ik refl)
      (rw (match_int-append l _ il is_digit_space) (rw (match_int-append h _ ih is_digit_space)))

pub between_sound :
    (t : Text) {k l h : Text}
    → between t ≡ some (k, l, h)
    → IsKey k × IsInteger l × IsInteger h × (t ≡ between_text k l h)
unfolding between
between_sound t e = bind_inversion (match_key t) e λ (k, r₁) e₁ f₁.
    bind_inversion (strip (codes " between ") r₁) f₁ λ r₂ e₂ f₂.
      bind_inversion (match_int r₂) f₂ λ (l, r₃) e₃ f₃.
        bind_inversion (strip (codes " and ") r₃) f₃ λ r₄ e₄ f₄.
          bind_inversion (match_int r₄) f₄ λ (h, r₅) e₅ f₅.
            bind_inversion (at_end " inclusive" r₅) f₅ λ _ e₆ f₆.
              let (ik, q₁) = match_key_sound t e₁ in
              let q₂ = strip_sound (codes " between ") r₁ e₂ in
              let (il, q₃) = match_int_sound r₂ e₃ in
              let q₄ = strip_sound (codes " and ") r₃ e₄ in
              let (ih, q₅) = match_int_sound r₄ e₅ in
              let q₆ = at_end_sound " inclusive" r₅ e₆ in
              let q : t ≡ between_text k l h = cc in
              subst
                (λ (g : Text × Text × Text).
                  IsKey g.0 × IsInteger g.1 × IsInteger g.2 × (t ≡ between_text g.0 g.1 g.2))
                (some_inj.0 f₆) (ik, il, ih, q)

pub equals-text : (k l : Text) → IsKey k → IsLiteral l → equals (equals_text k l) ≡ some (k, l)
unfolding equals
equals-text k l ik il =
    rw (match_key-append k _ ik refl) (rw (span-append is_unquoted l (codes "'") il refl))

pub equals_sound :
    (t : Text) {k l : Text} → equals t ≡ some (k, l) → IsKey k × IsLiteral l × (t ≡ equals_text k l)
unfolding equals
equals_sound t e = bind_inversion (match_key t) e λ (k, r₁) e₁ f₁.
    bind_inversion (strip (codes " equals '") r₁) f₁ λ r₂ e₂ f₂.
      bind_inversion (at_end "'" (span is_unquoted r₂).1) f₂ λ _ e₃ f₃.
        let (ik, q₁) = match_key_sound t e₁ in
        let q₂ = strip_sound (codes " equals '") r₁ e₂ in
        let (q₃, il) = span_sound is_unquoted r₂ in
        let q₄ = at_end_sound "'" (span is_unquoted r₂).1 e₃ in
        let q : t ≡ equals_text k (span is_unquoted r₂).0 = cc in
        subst (λ (g : Text × Text). IsKey g.0 × IsLiteral g.1 × (t ≡ equals_text g.0 g.1))
          (some_inj.0 f₃) (ik, il, q)

pub at_least-text :
    (k n : Text) → IsKey k → IsInteger n → at_least (at_least_text k n) ≡ some (k, n)
unfolding at_least
at_least-text k n ik il = rw (match_key-append k _ ik refl) (rw (match_int_all n il))

pub at_least_sound :
    (t : Text) {k n : Text}
    → at_least t ≡ some (k, n)
    → IsKey k × IsInteger n × (t ≡ at_least_text k n)
unfolding at_least
at_least_sound t e = bind_inversion (match_key t) e λ (k, r₁) e₁ f₁.
    bind_inversion (strip (codes " at least ") r₁) f₁ λ r₂ e₂ f₂.
      bind_inversion (match_int r₂) f₂ λ (n, r₃) e₃ f₃. bind_inversion (at_end "" r₃) f₃ λ _ e₄ f₄.
        let (ik, q₁) = match_key_sound t e₁ in
        let q₂ = strip_sound (codes " at least ") r₁ e₂ in
        let (il, q₃) = match_int_sound r₂ e₃ in
        let q₄ = at_end_sound "" r₃ e₄ in
        let q₅ : r₂ ≡ n = cc (append-nil n) in
        let q : t ≡ at_least_text k n = cc in
        subst (λ (g : Text × Text). IsKey g.0 × IsInteger g.1 × (t ≡ at_least_text g.0 g.1))
          (some_inj.0 f₄) (ik, il, q)

pub observed_within-text :
    (k n : Text) → IsKey k → IsDigits n → observed_within (observed_within_text k n) ≡ some (k, n)
unfolding observed_within
observed_within-text k n ik il =
    rw (match_key-append k _ ik refl) (rw (match_digits-append n _ il is_digit_space))

pub observed_within_sound :
    (t : Text) {k n : Text}
    → observed_within t ≡ some (k, n)
    → IsKey k × IsDigits n × (t ≡ observed_within_text k n)
unfolding observed_within
observed_within_sound t e = bind_inversion (match_key t) e λ (k, r₁) e₁ f₁.
    bind_inversion (strip (codes " observed within ") r₁) f₁ λ r₂ e₂ f₂.
      bind_inversion (match_digits r₂) f₂ λ (n, r₃) e₃ f₃.
        bind_inversion (at_end " days before the decision boundary" r₃) f₃ λ _ e₄ f₄.
          let (ik, q₁) = match_key_sound t e₁ in
          let q₂ = strip_sound (codes " observed within ") r₁ e₂ in
          let (il, q₃) = match_digits_sound r₂ e₃ in
          let q₄ = at_end_sound " days before the decision boundary" r₃ e₄ in
          let q : t ≡ observed_within_text k n = cc in
          subst (λ (g : Text × Text). IsKey g.0 × IsDigits g.1 × (t ≡ observed_within_text g.0 g.1))
            (some_inj.0 f₄) (ik, il, q)

-- The word behind the key tells the shapes apart.
pub between-equals : (k l : Text) → IsKey k → between (equals_text k l) ≡ none
unfolding between
between-equals k l ik = rw (match_key-append k _ ik refl)

pub between-at_least : (k n : Text) → IsKey k → between (at_least_text k n) ≡ none
unfolding between
between-at_least k n ik = rw (match_key-append k _ ik refl)

pub between-observed_within : (k n : Text) → IsKey k → between (observed_within_text k n) ≡ none
unfolding between
between-observed_within k n ik = rw (match_key-append k _ ik refl)

pub equals-at_least : (k n : Text) → IsKey k → equals (at_least_text k n) ≡ none
unfolding equals
equals-at_least k n ik = rw (match_key-append k _ ik refl)

pub equals-observed_within : (k n : Text) → IsKey k → equals (observed_within_text k n) ≡ none
unfolding equals
equals-observed_within k n ik = rw (match_key-append k _ ik refl)

pub at_least-observed_within : (k n : Text) → IsKey k → at_least (observed_within_text k n) ≡ none
unfolding at_least
at_least-observed_within k n ik = rw (match_key-append k _ ik refl)
