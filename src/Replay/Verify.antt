-- ===== src/Replay/Verify.antt =====
-- The verification of a stored artifact in replay/reconstruct.py: steps 2 to 8.
pub mod Identity
pub mod Verified
use flight_recorder.Base.{
  Bool, not, Option, none, some, List, [], ◌∷◌, String, str_eq, if◌then◌else◌, Result, ok, err,
  ◌>>=◌, ◌>>◌, raise_if,
}
use flight_recorder.Evaluator.{LogicArtifact, evaluator_version}
use flight_recorder.Replay.Records.{
  ReplayError, artifact_missing, integrity_failure, ArtifactRow, DecisionRow, VerifiedArtifact,
}

-- One round of a loop over identity fields, for each field: its name, the stored value, the
-- artifact's own.
unfoldable pub check_fields : List (String × String × String) → Result ReplayError (Unit {0})
check_fields [] = ok tt
check_fields ((field, stored, content) ∷ fields) = do
  raise_if (not (str_eq stored content)) (integrity_failure field (some stored) (some content))
  check_fields fields

-- `_IDENTITY_FIELDS`, of the row and of the artifact.
abbrev pub identity_fields : ArtifactRow → LogicArtifact → List (String × String × String)
identity_fields row artifact =
    ("artifact_id", row.artifact_id, artifact.artifact_id)
    ∷ ("artifact_schema_version", row.artifact_schema_version, artifact.artifact_schema_version)
    ∷ ("logic_version", row.logic_version, artifact.logic_version)
    ∷ ("decision_class", row.decision_class, artifact.decision_class)
    ∷ ("evaluator_version", row.evaluator_version, artifact.evaluator_version)
    ∷ []

-- `_DECISION_IDENTITY_FIELDS`, of the decision and of the artifact.
abbrev pub decision_identity_fields : DecisionRow → LogicArtifact → List (String × String × String)
decision_identity_fields row artifact =
    ("logic_version", row.logic_version, artifact.logic_version)
    ∷ ("decision_class", row.decision_class, artifact.decision_class)
    ∷ ("evaluator_version", row.evaluator_version, artifact.evaluator_version)
    ∷ []

-- The runtime's evaluator, unless the caller names another one.
abbrev pub runtime_version : Option String → String
runtime_version none = evaluator_version
runtime_version (some version) = version

-- An option of a third-party call as a value or an integrity failure.
abbrev pub or_failure : {A : Type 0} → Option A → ReplayError → Result ReplayError A
or_failure none e = err e
or_failure (some a) e = ok a

-- The decoded content of an artifact is a JSON object, a type of the JSON library. `loads` is
-- `json.loads` without its constants: `none` is its exception, `some none` a value that is no
-- object. `canonical_hash` is the hash of collector/canonical.py, over `json.dumps` and `hashlib`,
-- with `none` for its `ValueError`; `model_validate_json` is pydantic's, with `none` for its
-- `ValidationError`.
module _ {Content : Type 0} (loads : String → Option (Option Content))
    (canonical_hash : Content → Option String)
    (model_validate_json : String → Option LogicArtifact) where
  -- `_decode_artifact_json`
  unfoldable pub decode_artifact_json : String → Result ReplayError Content
  decode_artifact_json text = do
    decoded ← or_failure (loads text) (integrity_failure "artifact_json" (some text) none)
    or_failure decoded (integrity_failure "artifact_json" (some text) none)

  -- `verify_artifact_row` on a row that is stored.
  unfoldable pub verify_stored_row : ArtifactRow → String → Result ReplayError VerifiedArtifact
  verify_stored_row row runtime = do
    content ← decode_artifact_json row.artifact_json
    recomputed ←
        or_failure (canonical_hash content)
          (integrity_failure "artifact_json" (some row.artifact_json) none)
    raise_if (not (str_eq recomputed row.artifact_hash))
        (integrity_failure "artifact_hash" (some row.artifact_hash) (some recomputed))
    artifact ←
        or_failure (model_validate_json row.artifact_json)
          (integrity_failure "artifact_schema" (some row.artifact_json) none)
    check_fields (identity_fields row artifact)
    raise_if (not (str_eq artifact.evaluator_version runtime))
        (integrity_failure "evaluator_version" (some artifact.evaluator_version) (some runtime))
    ok (record {
      artifact = artifact;
      stored_artifact_hash = row.artifact_hash;
      recomputed_artifact_hash = recomputed;
      runtime_evaluator_version = runtime;
    })

  unfoldable pub verify_artifact_row :
      Option ArtifactRow → String → Option String → Result ReplayError VerifiedArtifact
  verify_artifact_row none artifact_hash runtime = err (artifact_missing artifact_hash)
  verify_artifact_row (some row) artifact_hash runtime =
      verify_stored_row row (runtime_version runtime)

  unfoldable pub verify_artifact :
      Option ArtifactRow → DecisionRow → Option String → Result ReplayError VerifiedArtifact
  verify_artifact artifact_row decision_row runtime = do
    verified ← verify_artifact_row artifact_row decision_row.artifact_hash runtime
    raise_if (not (str_eq verified.recomputed_artifact_hash decision_row.artifact_hash)) (
        integrity_failure "artifact_hash" (some decision_row.artifact_hash)
          (some verified.recomputed_artifact_hash))
    check_fields (decision_identity_fields decision_row verified.artifact)
    ok verified
