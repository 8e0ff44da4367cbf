-- ===== src/Replay/Reconstruct/Reproduced.antt =====
-- What a reconstruction guarantees: the verified artifact, evaluated over the sealed context, gives
-- what was recorded.
use mathlib.Core.Path.{subst}
use flight_recorder.Base.{
  ◌≡◌, refl, sym, ◌∙◌, Bool, true, false, not, Option, none, List, String, str_eq, str_eq_iff, ok,
  ok_inversion, ok_inj, raise_if, map_err, arith,
}
use flight_recorder.Base.Int.{ℤ, eqb_ℤ, eq_of_parts}
use flight_recorder.Base.Datetime.{Date, Datetime}
use flight_recorder.Rules.{ScalarValue, parse_boundary}
use flight_recorder.Evaluator.{
  LogicArtifact, EvaluationResult, ContextInput, evaluate, consumed_triples,
}
use flight_recorder.Evaluator.Run.{map_err-ok}
use flight_recorder.Replay.Records.{
  boundary_failure, evaluation_failure, DecisionRow, ConsumedInputRow, VerifiedArtifact,
  Reconstruction, LaterVersions,
}
use flight_recorder.Ledger.{Ledger}
use flight_recorder.Replay.Verify.{verify_artifact}
use flight_recorder.Replay.Verify.Verified.{IsVerifiedFor, verify_artifact-iff_IsVerifiedFor}
use flight_recorder.Replay.Load.{
  load_artifact_row, load_decision_row, load_context, load_consumed_inputs,
}
use flight_recorder.Replay.Reconstruct.{
  same_set, recorded_triples, compare_with_recorded, reconstruct,
}

-- The result is the recorded one: the same score, threshold and output, and the same set of consumed
-- inputs with their evidence and contributions.
pub record MatchesRecord (result : EvaluationResult) (decision : DecisionRow)
    (rows : List ConsumedInputRow) : Type 0 where
  pub same_score : decision.score ≡ result.score
  pub same_threshold : decision.threshold ≡ result.threshold
  pub same_output : decision.output ≡ result.output
  pub same_inputs : same_set (recorded_triples rows) (consumed_triples result) ≡ true

passed : {E : Type 0} (b : Bool) (e : E) {u : Unit {0}} → raise_if (not b) e ≡ ok u → b ≡ true
passed true e h = refl
passed false e h = cc

eqb_ℤ-sound : (a b : ℤ) → eqb_ℤ a b ≡ true → a ≡ b
eqb_ℤ-sound a b h = eq_of_parts a b (ground arith)

compare_with_recorded-MatchesRecord :
    (result : EvaluationResult) (decision : DecisionRow) (rows : List ConsumedInputRow)
    {u : Unit {0}}
    → compare_with_recorded result decision rows ≡ ok u
    → MatchesRecord result decision rows
unfolding compare_with_recorded
compare_with_recorded-MatchesRecord result decision rows h =
    ok_inversion (raise_if (not (eqb_ℤ decision.score result.score)) _) h λ _ e₁ h₁.
      ok_inversion (raise_if (not (eqb_ℤ decision.threshold result.threshold)) _) h₁ λ _ e₂ h₂.
        ok_inversion (raise_if (not (str_eq decision.output result.output)) _) h₂ λ _ e₃ h₃.
          record {
            same_score = eqb_ℤ-sound decision.score result.score (passed _ _ e₁);
            same_threshold = eqb_ℤ-sound decision.threshold result.threshold (passed _ _ e₂);
            same_output = (str_eq_iff decision.output result.output).0 (passed _ _ e₃);
            same_inputs = passed _ _ h₃;
          }

module _ {Content : Type 0} (loads : String → Option (Option Content))
    (canonical_hash : Content → Option String) (model_validate_json : String → Option LogicArtifact)
    (datetime_fromisoformat : String → Option Datetime) (date_fromisoformat : String → Option Date)
    (loads_scalar : String → Option ScalarValue) (later : LaterVersions) (conn : Ledger)
    (decision_event_id : String) where
  -- The recorded decision is reproduced.
  pub record Reproduces (r : Reconstruction) : Type 0 where
    pub decision : DecisionRow
    pub verified : VerifiedArtifact
    pub context : List ContextInput
    pub consumed : List ConsumedInputRow
    pub found :
        load_decision_row date_fromisoformat loads_scalar later conn decision_event_id ≡ ok decision
    pub is_verified :
        IsVerifiedFor loads canonical_hash model_validate_json
          (load_artifact_row conn decision.artifact_hash)
          decision
          none
          verified
    pub at_boundary :
        parse_boundary datetime_fromisoformat decision.decision_boundary ≡ ok r.decision_boundary
    pub preserved :
        load_context date_fromisoformat loads_scalar later conn decision_event_id
          decision.decision_boundary
        ≡ ok context
    pub evaluated : evaluate verified.artifact context r.decision_boundary ≡ ok r.result
    pub inputs :
        load_consumed_inputs date_fromisoformat loads_scalar later conn decision_event_id
        ≡ ok consumed
    pub matches_record : MatchesRecord r.result decision consumed
    pub of_artifact : r.artifact_hash ≡ decision.artifact_hash

  -- A reconstruction that is returned is exact: the stored artifact is the one that the decision
  -- names, verified by its content; the result is its evaluation over the context preserved for the
  -- decision, at the recorded boundary; and that result has the recorded score, threshold, output
  -- and set of consumed inputs.
  pub reconstruct-Reproduces :
      (r : Reconstruction)
      → reconstruct loads canonical_hash model_validate_json datetime_fromisoformat
          date_fromisoformat loads_scalar later conn decision_event_id
        ≡ ok r
      → Reproduces r
  unfolding reconstruct
  reconstruct-Reproduces r h =
      ok_inversion (load_decision_row date_fromisoformat loads_scalar later conn decision_event_id)
        h
        λ d e₁ h₁.
          ok_inversion
            (verify_artifact loads canonical_hash model_validate_json
              (load_artifact_row conn d.artifact_hash) d none)
            h₁
            λ v e₂ h₂.
              ok_inversion
                (map_err boundary_failure
                  (parse_boundary datetime_fromisoformat d.decision_boundary))
                h₂
                λ boundary e₃ h₃.
                  ok_inversion
                    (load_context date_fromisoformat loads_scalar later conn decision_event_id
                      d.decision_boundary)
                    h₃
                    λ context e₄ h₄.
                      ok_inversion
                        (map_err evaluation_failure (evaluate v.artifact context boundary)) h₄
                        λ result e₅ h₅.
                          ok_inversion
                            (load_consumed_inputs date_fromisoformat loads_scalar later conn
                              decision_event_id)
                            h₅
                            λ consumed e₆ h₆.
                              ok_inversion (compare_with_recorded result d consumed) h₆ λ _ e₇ h₇.
                                let verified =
                                  (verify_artifact-iff_IsVerifiedFor loads canonical_hash
                                      model_validate_json (load_artifact_row conn d.artifact_hash) d
                                      none v).0
                                    e₂ in
                                subst Reproduces (ok_inj h₇) (record {
                                  decision = d;
                                  verified = v;
                                  context = context;
                                  consumed = consumed;
                                  found = e₁;
                                  is_verified = verified;
                                  at_boundary =
                                      map_err-ok boundary_failure
                                        (parse_boundary datetime_fromisoformat d.decision_boundary)
                                        e₃;
                                  preserved = e₄;
                                  evaluated =
                                      map_err-ok evaluation_failure
                                        (evaluate v.artifact context boundary) e₅;
                                  inputs = e₆;
                                  matches_record =
                                      compare_with_recorded-MatchesRecord result d consumed e₇;
                                  of_artifact =
                                      sym verified.is_verified.recomputed_hash ∙ verified.is_named;
                                })
