-- ===== src/Rules/Grammar.antt =====
-- `parse_rule` reads exactly the texts of the four documented shapes, each in one way.
use flight_recorder.Base.{
  ◌≡◌, none, some, String, ◌↔◌, inl, inr, Option-cases, arith, ok, ok_inversion, ok_inj,
}
use flight_recorder.Base.Int.{ℤ}
use flight_recorder.Base.Text.{Text, codes, text_eq_iff}
use flight_recorder.Rules.Digits.{int}
use flight_recorder.Rules.Pattern.{
  IsKey, IsDigits, IsInteger, IsLiteral, between, equals, at_least, observed_within, between_text,
  equals_text, at_least_text, observed_within_text,
}
use flight_recorder.Rules.Pattern.Shapes.{
  between-text, between_sound, equals-text, equals_sound, at_least-text, at_least_sound,
  observed_within-text, observed_within_sound, between-equals, between-at_least,
  between-observed_within, equals-at_least, equals-observed_within, at_least-observed_within,
}
use flight_recorder.Rules.{
  Rule, between_rule, equals_rule, at_least_rule, observed_within_rule, parse_rule, check_key,
  int_of, try_equals, try_at_least, try_observed_within,
}

-- The documented grammar: the text of a factor with this key, and the rule that it states.
pub data Reads (key text : String) (rule : Rule) : Type 0 where
  reads_between :
      (low high : Text) (a b : ℤ)
      → IsKey (codes key)
      → IsInteger low
      → IsInteger high
      → codes text ≡ between_text (codes key) low high
      → int low ≡ some a
      → int high ≡ some b
      → between_rule (codes key) a b ≡ rule
      → Reads key text rule
  reads_equals :
      (literal : Text)
      → IsKey (codes key)
      → IsLiteral literal
      → codes text ≡ equals_text (codes key) literal
      → equals_rule (codes key) literal ≡ rule
      → Reads key text rule
  reads_at_least :
      (minimum : Text) (a : ℤ)
      → IsKey (codes key)
      → IsInteger minimum
      → codes text ≡ at_least_text (codes key) minimum
      → int minimum ≡ some a
      → at_least_rule (codes key) a ≡ rule
      → Reads key text rule
  reads_observed_within :
      (days : Text) (n : ℤ)
      → IsKey (codes key)
      → IsDigits days
      → codes text ≡ observed_within_text (codes key) days
      → int days ≡ some n
      → observed_within_rule (codes key) n ≡ rule
      → Reads key text rule

check_key_sound :
    (key : String) (found : Text) (text : String) {u : Unit {0}}
    → check_key key found text ≡ ok u
    → found ≡ codes key
unfolding check_key
check_key_sound key found text h = ground (arith, text_eq_iff found (codes key))

check_key_self : (key text : String) → check_key key (codes key) text ≡ ok tt
unfolding check_key
check_key_self key text = ground (arith, text_eq_iff (codes key) (codes key))

int_of_sound : (t : Text) {n : ℤ} → int_of t ≡ ok n → int t ≡ some n
unfolding int_of
int_of_sound t h = ground arith

int_of-int : (t : Text) {n : ℤ} → int t ≡ some n → int_of t ≡ ok n
unfolding int_of
int_of-int t h = rw (h, int_of)

module _ (key text : String) {rule : Rule} where
  observed_within-Reads : try_observed_within key text ≡ ok rule → Reads key text rule
  unfolding try_observed_within
  observed_within-Reads h = elim (Option-cases (observed_within (codes text))) [
    | inl e ↦ cc (rw (e, try_observed_within) at h)
    | inr ((found, days), e) ↦
        ok_inversion (check_key key found text) (rw (e, try_observed_within) at h) λ _ h₁ k₁.
          ok_inversion (int_of days) k₁ λ n h₂ k₂.
            let (ik, id, q) = observed_within_sound (codes text) e in
            let same = check_key_sound key found text h₁ in
            reads_observed_within days n (rw same at ik) id (rw same at q) (int_of_sound days h₂)
              (rw same at (ok_inj k₂))
  ]

  at_least-Reads : try_at_least key text ≡ ok rule → Reads key text rule
  unfolding try_at_least
  at_least-Reads h = elim (Option-cases (at_least (codes text))) [
    | inl e ↦ observed_within-Reads (rw (e, try_at_least) at h)
    | inr ((found, minimum), e) ↦
        ok_inversion (check_key key found text) (rw (e, try_at_least) at h) λ _ h₁ k₁.
          ok_inversion (int_of minimum) k₁ λ n h₂ k₂.
            let (ik, id, q) = at_least_sound (codes text) e in
            let same = check_key_sound key found text h₁ in
            reads_at_least minimum n (rw same at ik) id (rw same at q) (int_of_sound minimum h₂)
              (rw same at (ok_inj k₂))
  ]

  equals-Reads : try_equals key text ≡ ok rule → Reads key text rule
  unfolding try_equals
  equals-Reads h = elim (Option-cases (equals (codes text))) [
    | inl e ↦ at_least-Reads (rw (e, try_equals) at h)
    | inr ((found, literal), e) ↦
        ok_inversion (check_key key found text) (rw (e, try_equals) at h) λ _ h₁ k₁.
          let (ik, il, q) = equals_sound (codes text) e in
          let same = check_key_sound key found text h₁ in
          reads_equals literal (rw same at ik) il (rw same at q) (rw same at (ok_inj k₁))
  ]

  parse_rule-Reads : parse_rule key text ≡ ok rule → Reads key text rule
  unfolding parse_rule
  parse_rule-Reads h = elim (Option-cases (between (codes text))) [
    | inl e ↦ equals-Reads (rw (e, parse_rule) at h)
    | inr ((found, low, high), e) ↦
        ok_inversion (check_key key found text) (rw (e, parse_rule) at h) λ _ h₁ k₁.
          ok_inversion (int_of low) k₁ λ a h₂ k₂. ok_inversion (int_of high) k₂ λ b h₃ k₃.
            let (ik, il, ih, q) = between_sound (codes text) e in
            let same = check_key_sound key found text h₁ in
            reads_between low high a b (rw same at ik) il ih (rw same at q) (int_of_sound low h₂)
              (int_of_sound high h₃) (rw same at (ok_inj k₃))
  ]

  Reads-parse_rule : Reads key text rule → parse_rule key text ≡ ok rule
  unfolding parse_rule
  Reads-parse_rule (reads_between low high a b ik il ih q na nb r) =
      let e : between (codes text) ≡ some (codes key, low, high) =
        rw q (between-text (codes key) low high ik il ih) in
      rw (e, parse_rule)
        (rw (check_key_self key text) (rw (int_of-int low na) (rw (int_of-int high nb) (rw r))))
  Reads-parse_rule (reads_equals literal ik il q r) =
      let e₁ : between (codes text) ≡ none = rw q (between-equals (codes key) literal ik) in
      let e₂ : equals (codes text) ≡ some (codes key, literal) =
        rw q (equals-text (codes key) literal ik il) in
      rw (e₁, parse_rule) (rw (e₂, try_equals) (rw (check_key_self key text) (rw r)))
  Reads-parse_rule (reads_at_least minimum a ik il q na r) =
      let e₁ : between (codes text) ≡ none = rw q (between-at_least (codes key) minimum ik) in
      let e₂ : equals (codes text) ≡ none = rw q (equals-at_least (codes key) minimum ik) in
      let e₃ : at_least (codes text) ≡ some (codes key, minimum) =
        rw q (at_least-text (codes key) minimum ik il) in
      rw (e₁, parse_rule)
        (rw (e₂, try_equals)
          (rw (e₃, try_at_least)
            (rw (check_key_self key text) (rw (int_of-int minimum na) (rw r)))))
  Reads-parse_rule (reads_observed_within days n ik id q nd r) =
      let e₁ : between (codes text) ≡ none = rw q (between-observed_within (codes key) days ik) in
      let e₂ : equals (codes text) ≡ none = rw q (equals-observed_within (codes key) days ik) in
      let e₃ : at_least (codes text) ≡ none = rw q (at_least-observed_within (codes key) days ik) in
      let e₄ : observed_within (codes text) ≡ some (codes key, days) =
        rw q (observed_within-text (codes key) days ik id) in
      rw (e₁, parse_rule)
        (rw (e₂, try_equals)
          (rw (e₃, try_at_least)
            (rw (e₄, try_observed_within)
              (rw (check_key_self key text) (rw (int_of-int days nd) (rw r))))))

-- `parse_rule` returns a rule exactly when the text, for this factor's key, has one of the four
-- documented shapes in full, with an identifier for its key, and states that rule.
pub parse_rule-iff_Reads :
    (key text : String) (rule : Rule) → (parse_rule key text ≡ ok rule) ↔ Reads key text rule
parse_rule-iff_Reads key text rule = (parse_rule-Reads key text, Reads-parse_rule key text)
