-- ===== src/Replay/Verify/Identity.antt =====
-- The identity fields of `verify_artifact_row` and `verify_artifact`, column by column.
use flight_recorder.Base.{
  ◌≡◌, refl, Bool, true, false, not, some, List, [], ◌∷◌, String, str_eq, str_eq_iff, ◌↔◌, ok,
  ok_inversion, raise_if, All,
}
use flight_recorder.Evaluator.{LogicArtifact}
use flight_recorder.Replay.Records.{integrity_failure, ArtifactRow, DecisionRow}
use flight_recorder.Replay.Verify.{check_fields, identity_fields, decision_identity_fields}

abbrev pub AgreesOn : String × String × String → Type 0
AgreesOn (field, stored, content) = stored ≡ content

-- The row's own columns state what the content states, column by column.
pub record SameIdentity (row : ArtifactRow) (artifact : LogicArtifact) : Type 0 where
  pub same_id : row.artifact_id ≡ artifact.artifact_id
  pub same_schema : row.artifact_schema_version ≡ artifact.artifact_schema_version
  pub same_version : row.logic_version ≡ artifact.logic_version
  pub same_class : row.decision_class ≡ artifact.decision_class
  pub same_evaluator : row.evaluator_version ≡ artifact.evaluator_version

-- The labels that the decision was recorded with are the artifact's.
pub record SameLabels (decision : DecisionRow) (artifact : LogicArtifact) : Type 0 where
  pub labelled_version : decision.logic_version ≡ artifact.logic_version
  pub labelled_class : decision.decision_class ≡ artifact.decision_class
  pub labelled_evaluator : decision.evaluator_version ≡ artifact.evaluator_version

raise_if_sound :
    {E : Type 0} (b : Bool) (e : E) {u : Unit {0}} → raise_if (not b) e ≡ ok u → b ≡ true
raise_if_sound true e h = refl
raise_if_sound false e h = cc

pub same_or_raise :
    {E : Type 0} (s t : String) (e : E) {u : Unit {0}}
    → raise_if (not (str_eq s t)) e ≡ ok u
    → s ≡ t
same_or_raise s t e h = (str_eq_iff s t).0 (raise_if_sound (str_eq s t) e h)

pub raise_if_same :
    {E : Type 0} (s t : String) (e : E) → s ≡ t → raise_if (not (str_eq s t)) e ≡ ok tt
raise_if_same s t e h = rw ((str_eq_iff s t).1 h) refl

pub check_fields_sound :
    (fields : List (String × String × String)) {u : Unit {0}}
    → check_fields fields ≡ ok u
    → All AgreesOn fields
unfolding check_fields
check_fields_sound [] h = tt
check_fields_sound ((field, s, t) ∷ fields) h =
    ok_inversion (raise_if (not (str_eq s t)) (integrity_failure field (some s) (some t))) h
      λ _ e k. (same_or_raise s t _ e, check_fields_sound fields k)

pub check_fields_complete :
    (fields : List (String × String × String)) → All AgreesOn fields → check_fields fields ≡ ok tt
unfolding check_fields
check_fields_complete [] h = refl
check_fields_complete ((field, s, t) ∷ fields) (e, h) =
    rw (raise_if_same s t (integrity_failure field (some s) (some t)) e)
      (check_fields_complete fields h)

pub identity_fields-iff_SameIdentity :
    (row : ArtifactRow) (artifact : LogicArtifact)
    → All AgreesOn (identity_fields row artifact) ↔ SameIdentity row artifact
identity_fields-iff_SameIdentity row artifact = (
  (λ h. record {
    same_id = h.0;
    same_schema = h.1.0;
    same_version = h.1.1.0;
    same_class = h.1.1.1.0;
    same_evaluator = h.1.1.1.1.0;
  }),
  (λ s. (s.same_id, (s.same_schema, (s.same_version, (s.same_class, (s.same_evaluator, tt)))))),
)

pub decision_identity_fields-iff_SameLabels :
    (decision : DecisionRow) (artifact : LogicArtifact)
    → All AgreesOn (decision_identity_fields decision artifact) ↔ SameLabels decision artifact
decision_identity_fields-iff_SameLabels decision artifact = (
  (λ h. record { labelled_version = h.0; labelled_class = h.1.0; labelled_evaluator = h.1.1.0 }),
  (λ s. (s.labelled_version, (s.labelled_class, (s.labelled_evaluator, tt)))),
)
