-- ===== src/Rules/Refusals.antt =====
-- The texts that `parse_rule` refuses, and by which exception.
use flight_recorder.Base.{◌≡◌, ◌≢◌, none, some, String, inl, inr, Option-cases, arith, err}
use flight_recorder.Base.Text.{Text, codes, text_eq_iff}
use flight_recorder.Rules.Pattern.{
  IsKey, IsDigits, IsInteger, IsLiteral, between, equals, at_least, observed_within, between_text,
  equals_text, at_least_text, observed_within_text,
}
use flight_recorder.Rules.Pattern.Shapes.{
  between-text, between_sound, equals-text, equals_sound, at_least-text, at_least_sound,
  observed_within-text, observed_within_sound, between-equals, between-at_least,
  between-observed_within, equals-at_least, equals-observed_within, at_least-observed_within,
}
use flight_recorder.Rules.{
  unsupported_rule, rule_key_mismatch, parse_rule, check_key, try_equals, try_at_least,
  try_observed_within,
}

-- The text has one of the four shapes, for the input of this key.
pub data Shape (found : Text) (text : String) : Type 0 where
  between_shape :
      (low high : Text)
      → IsKey found
      → IsInteger low
      → IsInteger high
      → codes text ≡ between_text found low high
      → Shape found text
  equals_shape :
      (literal : Text)
      → IsKey found
      → IsLiteral literal
      → codes text ≡ equals_text found literal
      → Shape found text
  at_least_shape :
      (minimum : Text)
      → IsKey found
      → IsInteger minimum
      → codes text ≡ at_least_text found minimum
      → Shape found text
  observed_within_shape :
      (days : Text)
      → IsKey found
      → IsDigits days
      → codes text ≡ observed_within_text found days
      → Shape found text

check_key_ne :
    (key : String) (found : Text) (text : String)
    → found ≢ codes key
    → check_key key found text ≡ err (rule_key_mismatch key found text)
unfolding check_key
check_key_ne key found text h = ground (arith, text_eq_iff found (codes key))

-- A text of one of the shapes that names another input than the factor's key is refused by
-- `RuleKeyMismatch` with both keys.
pub parse_rule-other_key :
    (key text : String) (found : Text)
    → Shape found text
    → found ≢ codes key
    → parse_rule key text ≡ err (rule_key_mismatch key found text)
unfolding parse_rule
parse_rule-other_key key text found (between_shape low high ik il ih q) ne =
    let e : between (codes text) ≡ some (found, low, high) =
      rw q (between-text found low high ik il ih) in
    rw (e, parse_rule) (rw (check_key_ne key found text ne))
parse_rule-other_key key text found (equals_shape literal ik il q) ne =
    let e₁ : between (codes text) ≡ none = rw q (between-equals found literal ik) in
    let e₂ : equals (codes text) ≡ some (found, literal) = rw q (equals-text found literal ik il) in
    rw (e₁, parse_rule) (rw (e₂, try_equals) (rw (check_key_ne key found text ne)))
parse_rule-other_key key text found (at_least_shape minimum ik il q) ne =
    let e₁ : between (codes text) ≡ none = rw q (between-at_least found minimum ik) in
    let e₂ : equals (codes text) ≡ none = rw q (equals-at_least found minimum ik) in
    let e₃ : at_least (codes text) ≡ some (found, minimum) =
      rw q (at_least-text found minimum ik il) in
    rw (e₁, parse_rule)
      (rw (e₂, try_equals) (rw (e₃, try_at_least) (rw (check_key_ne key found text ne))))
parse_rule-other_key key text found (observed_within_shape days ik id q) ne =
    let e₁ : between (codes text) ≡ none = rw q (between-observed_within found days ik) in
    let e₂ : equals (codes text) ≡ none = rw q (equals-observed_within found days ik) in
    let e₃ : at_least (codes text) ≡ none = rw q (at_least-observed_within found days ik) in
    let e₄ : observed_within (codes text) ≡ some (found, days) =
      rw q (observed_within-text found days ik id) in
    rw (e₁, parse_rule)
      (rw (e₂, try_equals)
        (rw (e₃, try_at_least)
          (rw (e₄, try_observed_within) (rw (check_key_ne key found text ne)))))

-- A text that has none of the four shapes, for no key at all, is refused by `UnsupportedRule`.
pub parse_rule-shapeless :
    (key text : String)
    → ((found : Text) → ¬ Shape found text)
    → parse_rule key text ≡ err (unsupported_rule key text)
unfolding parse_rule try_equals try_at_least try_observed_within
parse_rule-shapeless key text no_shape = elim (Option-cases (between (codes text))) [
  | inr ((found, low, high), e) ↦
      let (ik, il, ih, q) = between_sound (codes text) e in
      absurd (no_shape found (between_shape low high ik il ih q))
  | inl e₁ ↦ elim (Option-cases (equals (codes text))) [
    | inr ((found, literal), e) ↦
        let (ik, il, q) = equals_sound (codes text) e in
        absurd (no_shape found (equals_shape literal ik il q))
    | inl e₂ ↦ elim (Option-cases (at_least (codes text))) [
      | inr ((found, minimum), e) ↦
          let (ik, il, q) = at_least_sound (codes text) e in
          absurd (no_shape found (at_least_shape minimum ik il q))
      | inl e₃ ↦ elim (Option-cases (observed_within (codes text))) [
        | inr ((found, days), e) ↦
            let (ik, id, q) = observed_within_sound (codes text) e in
            absurd (no_shape found (observed_within_shape days ik id q))
        | inl e₄ ↦
            rw (e₁, parse_rule)
              (rw (e₂, try_equals) (rw (e₃, try_at_least) (rw (e₄, try_observed_within))))
      ]
    ]
  ]
]
