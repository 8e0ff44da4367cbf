-- ===== src/Replay/Verify/Verified.antt =====
-- What the verification of an artifact establishes, and that nothing more is asked for.
use mathlib.Core.Path.{subst}
use flight_recorder.Base.{
  ◌≡◌, refl, sym, ◌∙◌, ap, not, Option, none, some, String, str_eq, ◌↔◌, ok, ok_inversion, ok_inj,
  raise_if, arith,
}
use flight_recorder.Evaluator.{LogicArtifact}
use flight_recorder.Replay.Records.{ReplayError, ArtifactRow, DecisionRow, VerifiedArtifact}
use flight_recorder.Replay.Verify.Identity.{
  SameIdentity, SameLabels, same_or_raise, raise_if_same, check_fields_sound, check_fields_complete,
  identity_fields-iff_SameIdentity, decision_identity_fields-iff_SameLabels,
}
use flight_recorder.Replay.Verify.{
  check_fields, identity_fields, decision_identity_fields, runtime_version, or_failure,
  decode_artifact_json, verify_stored_row, verify_artifact_row, verify_artifact,
}

or_failure_sound :
    {A : Type 0} (o : Option A) (e : ReplayError) {a : A} → or_failure o e ≡ ok a → o ≡ some a
or_failure_sound none e h = cc
or_failure_sound (some a) e h = ap some (ok_inj h)

module _ {Content : Type 0} (loads : String → Option (Option Content))
    (canonical_hash : Content → Option String)
    (model_validate_json : String → Option LogicArtifact) where
  -- A stored artifact is what it claims to be.
  pub record IsVerified (row : ArtifactRow) (runtime : String) (v : VerifiedArtifact) : Type 0 where
    pub content : Content
    pub decoded : loads row.artifact_json ≡ some (some content)
    pub hashed : canonical_hash content ≡ some row.artifact_hash
    pub validated : model_validate_json row.artifact_json ≡ some v.artifact
    pub identity : SameIdentity row v.artifact
    pub evaluable : v.artifact.evaluator_version ≡ runtime
    pub stored_hash : row.artifact_hash ≡ v.stored_artifact_hash
    pub recomputed_hash : row.artifact_hash ≡ v.recomputed_artifact_hash
    pub runtime_is : runtime ≡ v.runtime_evaluator_version

  decode_sound :
      (text : String) (content : Content)
      → decode_artifact_json loads canonical_hash model_validate_json text ≡ ok content
      → loads text ≡ some (some content)
  unfolding decode_artifact_json
  decode_sound text content h =
      ok_inversion (or_failure (loads text) _) h
        λ o e k. or_failure_sound (loads text) _ e ∙ ap some (or_failure_sound o _ k)

  pub stored_row-IsVerified :
      (row : ArtifactRow) (runtime : String) (v : VerifiedArtifact)
      → verify_stored_row loads canonical_hash model_validate_json row runtime ≡ ok v
      → IsVerified row runtime v
  unfolding verify_stored_row decode_artifact_json
  stored_row-IsVerified row runtime v h =
      ok_inversion (decode_artifact_json loads canonical_hash model_validate_json row.artifact_json)
        h
        λ content e h₁. ok_inversion (or_failure (canonical_hash content) _) h₁ λ recomputed e₂ h₂.
          ok_inversion (raise_if (not (str_eq recomputed row.artifact_hash)) _) h₂ λ _ e₃ h₃.
            ok_inversion (or_failure (model_validate_json row.artifact_json) _) h₃ λ artifact e₄ h₄.
              ok_inversion (check_fields (identity_fields row artifact)) h₄ λ _ e₅ h₅.
                ok_inversion (raise_if (not (str_eq artifact.evaluator_version runtime)) _) h₅
                  λ _ e₆ h₆. subst (IsVerified row runtime) (ok_inj h₆) (
                    let same = same_or_raise recomputed row.artifact_hash _ e₃ in
                    record {
                      content = content;
                      decoded = decode_sound row.artifact_json content e;
                      hashed = or_failure_sound (canonical_hash content) _ e₂ ∙ ap some same;
                      validated = or_failure_sound (model_validate_json row.artifact_json) _ e₄;
                      identity =
                          (identity_fields-iff_SameIdentity row artifact).0
                            (check_fields_sound (identity_fields row artifact) e₅);
                      evaluable = same_or_raise artifact.evaluator_version runtime _ e₆;
                      stored_hash = refl;
                      recomputed_hash = sym same;
                      runtime_is = refl;
                    })

  IsVerified-stored_row :
      (row : ArtifactRow) (runtime : String) (v : VerifiedArtifact)
      → IsVerified row runtime v
      → verify_stored_row loads canonical_hash model_validate_json row runtime ≡ ok v
  unfolding verify_stored_row decode_artifact_json
  IsVerified-stored_row row runtime v i =
      let made : record {
        artifact = v.artifact;
        stored_artifact_hash = row.artifact_hash;
        recomputed_artifact_hash = row.artifact_hash;
        runtime_evaluator_version = runtime;
      }
          ≡ v =
        ground (arith, i.stored_hash, i.recomputed_hash, i.runtime_is) in
      rw (i.decoded, decode_artifact_json)
        (rw i.hashed (
          rw (raise_if_same row.artifact_hash row.artifact_hash _ refl) (
            rw i.validated (
              rw
                (check_fields_complete (identity_fields row v.artifact)
                  ((identity_fields-iff_SameIdentity row v.artifact).1 i.identity))
                (rw (raise_if_same v.artifact.evaluator_version runtime _ i.evaluable)
                  (ap ok made))))))

  -- The artifact of a decision is verified: its row is stored and is what it claims to be, and the
  -- decision names this content and the artifact's own labels.
  pub record IsVerifiedFor (stored : Option ArtifactRow) (decision : DecisionRow)
      (runtime : Option String) (v : VerifiedArtifact) : Type 0 where
    pub row : ArtifactRow
    pub is_stored : stored ≡ some row
    pub is_verified : IsVerified row (runtime_version runtime) v
    pub is_named : row.artifact_hash ≡ decision.artifact_hash
    pub labels : SameLabels decision v.artifact

  verify_artifact_sound :
      (stored : Option ArtifactRow) (decision : DecisionRow) (runtime : Option String)
      (v : VerifiedArtifact)
      → verify_artifact loads canonical_hash model_validate_json stored decision runtime ≡ ok v
      → IsVerifiedFor stored decision runtime v
  unfolding verify_artifact verify_artifact_row
  verify_artifact_sound none decision runtime v h = cc
  verify_artifact_sound (some row) decision runtime v h =
      ok_inversion
        (verify_stored_row loads canonical_hash model_validate_json row (runtime_version runtime)) h
        λ w e h₁.
          ok_inversion (raise_if (not (str_eq w.recomputed_artifact_hash decision.artifact_hash)) _)
            h₁
            λ _ e₁ h₂.
              ok_inversion (check_fields (decision_identity_fields decision w.artifact)) h₂
                λ _ e₂ h₃. subst (IsVerifiedFor (some row) decision runtime) (ok_inj h₃) (
                  let i = stored_row-IsVerified row (runtime_version runtime) w e in
                  record {
                    row = row;
                    is_stored = refl;
                    is_verified = i;
                    is_named =
                        i.recomputed_hash
                        ∙ same_or_raise w.recomputed_artifact_hash decision.artifact_hash _ e₁;
                    labels =
                        (decision_identity_fields-iff_SameLabels decision w.artifact).0
                          (check_fields_sound (decision_identity_fields decision w.artifact) e₂);
                  })

  -- `verify_artifact` returns a verified artifact exactly when the row is stored, its text decodes
  -- to an object whose hash is the row's and the decision's, satisfies the schema, agrees with the
  -- five identity columns of the row and the three labels of the decision, and names the runtime's
  -- evaluator.
  pub verify_artifact-iff_IsVerifiedFor :
      (stored : Option ArtifactRow) (decision : DecisionRow) (runtime : Option String)
      (v : VerifiedArtifact)
      → (verify_artifact loads canonical_hash model_validate_json stored decision runtime ≡ ok v)
        ↔ IsVerifiedFor stored decision runtime v
  unfolding verify_artifact verify_artifact_row
  verify_artifact-iff_IsVerifiedFor stored decision runtime v = (
    verify_artifact_sound stored decision runtime v,
    (λ i.
        let e = IsVerified-stored_row i.row (runtime_version runtime) v i.is_verified in
        let named = sym i.is_verified.recomputed_hash ∙ i.is_named in
        rw (i.is_stored, verify_artifact_row)
          (rw e (
            rw (raise_if_same v.recomputed_artifact_hash decision.artifact_hash _ named) (
              rw (
                check_fields_complete (decision_identity_fields decision v.artifact)
                  ((decision_identity_fields-iff_SameLabels decision v.artifact).1 i.labels)))))),
  )
