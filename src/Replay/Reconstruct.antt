-- ===== src/Replay/Reconstruct.antt =====
-- `reconstruct` of replay/reconstruct.py and `replay` of replay/counterfactual.py. A failure of the
-- storage itself (`SQLAlchemyError`) is not modelled.
pub mod Reproduced
pub mod Honest
use flight_recorder.Base.{
  Bool, true, false, ◌&&◌, ◌||◌, not, Option, none, some, List, [], ◌∷◌, map, String, str_eq,
  if◌then◌else◌, Result, ok, err, ◌>>=◌, ◌>>◌, raise_if, map_err,
}
use flight_recorder.Base.Int.{ℤ, eqb_ℤ}
use flight_recorder.Base.Datetime.{Date, Datetime}
use flight_recorder.Rules.{ScalarValue, parse_boundary}
use flight_recorder.Evaluator.{
  LogicArtifact, EvaluationResult, ContextInput, evaluate, consumed_triples,
}
use flight_recorder.Replay.Records.{
  ReplayError, integrity_failure, reconstruction_mismatch, evaluation_failure, boundary_failure,
  number_side, text_side, triples_side, Triple, DecisionRow, ConsumedInputRow, VerifiedArtifact,
  Reconstruction, LaterVersions,
}
use flight_recorder.Ledger.{Ledger}
use flight_recorder.Replay.Verify.{verify_artifact, verify_artifact_row}
use flight_recorder.Replay.Load.{
  load_artifact_row, load_decision_row, load_context, load_consumed_inputs,
}
use flight_recorder.Replay.Compare.{Counterfactual, counterfactual_label}

abbrev pub opt_text_eq : Option String → Option String → Bool
opt_text_eq none none = true
opt_text_eq (some s) (some t) = str_eq s t
opt_text_eq _ _ = false

abbrev pub triple_eq : Triple → Triple → Bool
triple_eq (k, e, c) (k', e', c') = str_eq k k' && (opt_text_eq e e' && eqb_ℤ c c')

abbrev pub has_triple : Triple → List Triple → Bool
has_triple t [] = false
has_triple t (u ∷ us) = triple_eq u t || has_triple t us

-- Equality of frozen sets: each holds what the other holds.
abbrev pub all_in : List Triple → List Triple → Bool
all_in [] us = true
all_in (t ∷ ts) us = has_triple t us && all_in ts us

abbrev pub same_set : List Triple → List Triple → Bool
same_set ts us = all_in ts us && all_in us ts

abbrev pub recorded_triples : List ConsumedInputRow → List Triple
recorded_triples rows =
    map (λ (r : ConsumedInputRow). (r.input_key, some r.evidence_version_id, r.contribution)) rows

unfoldable pub compare_with_recorded :
    EvaluationResult → DecisionRow → List ConsumedInputRow → Result ReplayError (Unit {0})
compare_with_recorded result decision_row consumed_rows = do
  raise_if (not (eqb_ℤ decision_row.score result.score))
      (reconstruction_mismatch "score" (number_side decision_row.score) (number_side result.score))
  raise_if (not (eqb_ℤ decision_row.threshold result.threshold)) (
      reconstruction_mismatch "threshold" (number_side decision_row.threshold)
        (number_side result.threshold))
  raise_if (not (str_eq decision_row.output result.output))
      (reconstruction_mismatch "output" (text_side decision_row.output) (text_side result.output))
  raise_if (not (same_set (recorded_triples consumed_rows) (consumed_triples result))) (
      reconstruction_mismatch "consumed_inputs" (triples_side (recorded_triples consumed_rows))
        (triples_side (consumed_triples result)))

-- The third-party calls (see `Verify` and `Load`; `datetime.fromisoformat` as in `Rules`), and the
-- readers of later provenance versions.
module _ {Content : Type 0} (loads : String → Option (Option Content))
    (canonical_hash : Content → Option String) (model_validate_json : String → Option LogicArtifact)
    (datetime_fromisoformat : String → Option Datetime) (date_fromisoformat : String → Option Date)
    (loads_scalar : String → Option ScalarValue) (later : LaterVersions) where
  unfoldable pub reconstruct : Ledger → String → Result ReplayError Reconstruction
  reconstruct conn decision_event_id = do
    decision_row ← load_decision_row date_fromisoformat loads_scalar later conn decision_event_id
    let artifact_row = load_artifact_row conn decision_row.artifact_hash
    verified ←
        verify_artifact loads canonical_hash model_validate_json artifact_row decision_row none
    boundary ←
        map_err boundary_failure
          (parse_boundary datetime_fromisoformat decision_row.decision_boundary)
    context ←
        load_context date_fromisoformat loads_scalar later conn decision_event_id
          decision_row.decision_boundary
    result ← map_err evaluation_failure (evaluate verified.artifact context boundary)
    consumed ← load_consumed_inputs date_fromisoformat loads_scalar later conn decision_event_id
    compare_with_recorded result decision_row consumed
    ok (record {
      decision_event_id = decision_row.decision_event_id;
      artifact_hash = verified.recomputed_artifact_hash;
      logic_version = verified.artifact.logic_version;
      evaluator_version = verified.artifact.evaluator_version;
      decision_boundary = boundary;
      result = result;
      stored_artifact_hash = verified.stored_artifact_hash;
      recomputed_artifact_hash = verified.recomputed_artifact_hash;
      runtime_evaluator_version = verified.runtime_evaluator_version;
    })

  unfoldable pub replay : Ledger → String → String → Result ReplayError Counterfactual
  replay conn decision_event_id current_artifact_hash = do
    original ← reconstruct conn decision_event_id
    decision_row ← load_decision_row date_fromisoformat loads_scalar later conn decision_event_id
    let current_row = load_artifact_row conn current_artifact_hash
    current ←
        verify_artifact_row loads canonical_hash model_validate_json current_row
          current_artifact_hash none
    raise_if (not (str_eq current.artifact.decision_class decision_row.decision_class)) (
        integrity_failure "decision_class" (some decision_row.decision_class)
          (some current.artifact.decision_class))
    context ←
        load_context date_fromisoformat loads_scalar later conn decision_event_id
          decision_row.decision_boundary
    result ←
        map_err evaluation_failure (evaluate current.artifact context original.decision_boundary)
    ok (record {
      label = counterfactual_label;
      decision_event_id = decision_event_id;
      decision_boundary = original.decision_boundary;
      original = original;
      current_artifact_hash = current.recomputed_artifact_hash;
      current_logic_version = current.artifact.logic_version;
      current_evaluator_version = current.artifact.evaluator_version;
      result = result;
      stored_artifact_hash = current.stored_artifact_hash;
      recomputed_artifact_hash = current.recomputed_artifact_hash;
      runtime_evaluator_version = current.runtime_evaluator_version;
    })
