-- ===== src/Replay/Reconstruct/Honest.antt =====
-- What a counterfactual guarantees: `replay` of replay/counterfactual.py.
use mathlib.Core.Option.{some_inj}
use mathlib.Core.Path.{subst}
use flight_recorder.Base.{
  ◌≡◌, refl, sym, ◌∙◌, Bool, true, false, not, Option, none, String, str_eq, str_eq_iff, ok,
  ok_inversion, ok_inj, raise_if, map_err,
}
use flight_recorder.Base.Datetime.{Date, Datetime}
use flight_recorder.Rules.{ScalarValue}
use flight_recorder.Evaluator.{LogicArtifact, evaluate}
use flight_recorder.Evaluator.Run.{map_err-ok}
use flight_recorder.Base.{some, ap}
use flight_recorder.Replay.Records.{
  evaluation_failure, DecisionRow, VerifiedArtifact, LaterVersions,
}
use flight_recorder.Ledger.{Ledger}
use flight_recorder.Replay.Load.{load_artifact_row, load_decision_row, load_context}
use flight_recorder.Replay.Reconstruct.{reconstruct}
use flight_recorder.Replay.Verify.{verify_artifact_row, runtime_version}
use flight_recorder.Replay.Verify.Verified.{IsVerified, stored_row-IsVerified}
use flight_recorder.Replay.Compare.{Counterfactual, counterfactual_label}
use flight_recorder.Replay.Records.{ArtifactRow}
use flight_recorder.Replay.Reconstruct.{replay}
use flight_recorder.Replay.Reconstruct.Reproduced.{Reproduces, reconstruct-Reproduces}

passed : {E : Type 0} (b : Bool) (e : E) {u : Unit {0}} → raise_if (not b) e ≡ ok u → b ≡ true
passed true e h = refl
passed false e h = cc

module _ {Content : Type 0} (loads : String → Option (Option Content))
    (canonical_hash : Content → Option String) (model_validate_json : String → Option LogicArtifact)
    (datetime_fromisoformat : String → Option Datetime) (date_fromisoformat : String → Option Date)
    (loads_scalar : String → Option ScalarValue) (later : LaterVersions) (conn : Ledger)
    (decision_event_id : String) where
  -- The counterfactual of the decision: the original beside it is exact, and the selected artifact
  -- was evaluated over the very context and boundary of the original.
  pub record IsCounterfactual (current_artifact_hash : String) (c : Counterfactual) : Type 0 where
    pub original :
        Reproduces loads canonical_hash model_validate_json datetime_fromisoformat
          date_fromisoformat loads_scalar later conn decision_event_id c.original
    pub row : ArtifactRow
    pub current : VerifiedArtifact
    pub is_labelled : c.label ≡ counterfactual_label
    pub is_stored : load_artifact_row conn current_artifact_hash ≡ some row
    pub is_verified :
        IsVerified loads canonical_hash model_validate_json row (runtime_version none) current
    pub same_class : current.artifact.decision_class ≡ original.decision.decision_class
    pub same_boundary : c.decision_boundary ≡ c.original.decision_boundary
    pub evaluated :
        evaluate current.artifact original.context c.original.decision_boundary ≡ ok c.result

  verify_artifact_row_sound :
      (stored : Option ArtifactRow) (hash : String) (v : VerifiedArtifact)
      → verify_artifact_row loads canonical_hash model_validate_json stored hash none ≡ ok v
      → (row : ArtifactRow) × (stored ≡ some row)
        × IsVerified loads canonical_hash model_validate_json row (runtime_version none) v
  unfolding verify_artifact_row
  verify_artifact_row_sound none hash v h = cc
  verify_artifact_row_sound (some row) hash v h = (
    row,
    refl,
    stored_row-IsVerified loads canonical_hash model_validate_json row (runtime_version none) v h,
  )

  -- A counterfactual that is returned stands beside an exact reconstruction of the decision, and is
  -- labelled as one: the selected artifact is stored, verified by its content, and of the decision's
  -- class, and the result is its evaluation over the context preserved for the decision, the same
  -- one as the original's, at the original's boundary.
  pub replay-IsCounterfactual :
      (current_artifact_hash : String) (c : Counterfactual)
      → replay loads canonical_hash model_validate_json datetime_fromisoformat date_fromisoformat
          loads_scalar later conn decision_event_id current_artifact_hash
        ≡ ok c
      → IsCounterfactual current_artifact_hash c
  unfolding replay
  replay-IsCounterfactual hash c h =
      ok_inversion
        (reconstruct loads canonical_hash model_validate_json datetime_fromisoformat
          date_fromisoformat loads_scalar later conn decision_event_id)
        h
        λ o e₁ h₁.
          ok_inversion
            (load_decision_row date_fromisoformat loads_scalar later conn decision_event_id) h₁
            λ d e₂ h₂.
              ok_inversion
                (verify_artifact_row loads canonical_hash model_validate_json
                  (load_artifact_row conn hash) hash none)
                h₂
                λ v e₃ h₃.
                  ok_inversion
                    (raise_if (not (str_eq v.artifact.decision_class d.decision_class)) _) h₃
                    λ _ e₄ h₄.
                      ok_inversion
                        (load_context date_fromisoformat loads_scalar later conn decision_event_id
                          d.decision_boundary)
                        h₄
                        λ context e₅ h₅.
                          ok_inversion
                            (map_err evaluation_failure
                              (evaluate v.artifact context o.decision_boundary))
                            h₅
                            λ result e₆ h₆.
                              let original =
                                reconstruct-Reproduces loads canonical_hash model_validate_json
                                  datetime_fromisoformat date_fromisoformat loads_scalar later conn
                                  decision_event_id o e₁ in
                              let (row, stored, verified) =
                                verify_artifact_row_sound (load_artifact_row conn hash) hash v e₃ in
                              let same : d ≡ original.decision = ok_inj (sym e₂ ∙ original.found) in
                              let shared : context ≡ original.context = ok_inj (
                                sym e₅
                                ∙ ap
                                    (λ (x : DecisionRow).
                                      load_context date_fromisoformat loads_scalar later conn
                                        decision_event_id x.decision_boundary)
                                    same
                                ∙ original.preserved) in
                              let ran =
                                map_err-ok evaluation_failure
                                  (evaluate v.artifact context o.decision_boundary) e₆ in
                              let class =
                                (str_eq_iff v.artifact.decision_class d.decision_class).0 (
                                  passed (str_eq v.artifact.decision_class d.decision_class) _
                                    e₄) in
                              subst (IsCounterfactual hash) (ok_inj h₆) (record {
                                original = original;
                                row = row;
                                current = v;
                                is_labelled = refl;
                                is_stored = stored;
                                is_verified = verified;
                                same_class =
                                    class ∙ ap (λ (x : DecisionRow). x.decision_class) same;
                                same_boundary = refl;
                                evaluated =
                                    ap (λ x. evaluate v.artifact x o.decision_boundary) (sym shared)
                                    ∙ ran;
                              })

  -- A replay with the very artifact that the decision names gives the result of the original.
  pub replay_identical :
      (decision : DecisionRow) (c : Counterfactual)
      → load_decision_row date_fromisoformat loads_scalar later conn decision_event_id ≡ ok decision
      → replay loads canonical_hash model_validate_json datetime_fromisoformat date_fromisoformat
          loads_scalar later conn decision_event_id decision.artifact_hash
        ≡ ok c
      → c.result ≡ c.original.result
  replay_identical decision c found h =
      let i = replay-IsCounterfactual decision.artifact_hash c h in
      let o = i.original in
      let same : decision ≡ o.decision = ok_inj (sym found ∙ o.found) in
      let row : i.row ≡ o.is_verified.row = some_inj.0 (
        sym i.is_stored
        ∙ ap (λ (x : DecisionRow). load_artifact_row conn x.artifact_hash) same
        ∙ o.is_verified.is_stored) in
      let artifact : i.current.artifact ≡ o.verified.artifact = some_inj.0 (
        sym i.is_verified.validated
        ∙ ap (λ (x : ArtifactRow). model_validate_json x.artifact_json) row
        ∙ o.is_verified.is_verified.validated) in
      ok_inj (
        sym i.evaluated
        ∙ ap (λ x. evaluate x o.context c.original.decision_boundary) artifact
        ∙ o.evaluated)
