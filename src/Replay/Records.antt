-- ===== src/Replay/Records.antt =====
-- The rows, the results and the failures of replay/reconstruct.py and replay/counterfactual.py.
use flight_recorder.Base.{Option, List, String, Result}
use flight_recorder.Base.Int.{ℤ}
use flight_recorder.Base.Datetime.{Date, Datetime}
use flight_recorder.Rules.{RuleError}
use flight_recorder.Evaluator.{LogicArtifact, ContextInput, EvaluationError, EvaluationResult}
use flight_recorder.Ledger.{DecisionRow as StoredDecision, LogicArtifactRow, ConsumedRow}

-- `(input_key, evidence_version_id, contribution)`
abbrev pub Triple : Type 0
Triple = String × Option String × ℤ

-- What a mismatch shows of either side; the order of a set of triples is forgotten.
pub data Side : Type 0 where
  number_side : ℤ → Side
  text_side : String → Side
  triples_side : List Triple → Side

-- The failures, the exceptions of the evaluation and of the boundary reader that go through, and
-- the `ValueError` of a column that cannot be read.
pub data ReplayError : Type 0 where
  decision_not_found : String → ReplayError
  artifact_missing : String → ReplayError
  integrity_failure : (field : String) → (stored recomputed : Option String) → ReplayError
  reconstruction_mismatch : (field : String) → (recorded reconstructed : Side) → ReplayError
  evaluation_failure : EvaluationError → ReplayError
  boundary_failure : RuleError → ReplayError
  unreadable_column : String → ReplayError

pub record ArtifactRow : Type 0 where
  pub artifact_hash : String
  pub artifact_id : String
  pub artifact_schema_version : String
  pub logic_version : String
  pub decision_class : String
  pub evaluator_version : String
  pub artifact_json : String

pub record DecisionRow : Type 0 where
  pub decision_event_id : String
  pub account_ref : String
  pub decision_class : String
  pub decision_boundary : String
  pub artifact_hash : String
  pub logic_version : String
  pub evaluator_version : String
  pub score : ℤ
  pub threshold : ℤ
  pub output : String

pub record ConsumedInputRow : Type 0 where
  pub input_key : String
  pub evidence_version_id : String
  pub contribution : ℤ

pub record VerifiedArtifact : Type 0 where
  pub artifact : LogicArtifact
  pub stored_artifact_hash : String
  pub recomputed_artifact_hash : String
  pub runtime_evaluator_version : String

pub record Reconstruction : Type 0 where
  pub decision_event_id : String
  pub artifact_hash : String
  pub logic_version : String
  pub evaluator_version : String
  pub decision_boundary : Datetime
  pub result : EvaluationResult
  pub stored_artifact_hash : String
  pub recomputed_artifact_hash : String
  pub runtime_evaluator_version : String

pub record EvidenceVersionRow : Type 0 where
  pub evidence_version_id : String
  pub observed_at : Option Date
  pub available_at : String

-- The columns of a stored row that replay reads.
abbrev pub decision_view : StoredDecision → DecisionRow
decision_view row = record {
  decision_event_id = row.decision_event_id;
  account_ref = row.account_ref;
  decision_class = row.decision_class;
  decision_boundary = row.decision_boundary;
  artifact_hash = row.artifact_hash;
  logic_version = row.logic_version;
  evaluator_version = row.evaluator_version;
  score = row.score;
  threshold = row.threshold;
  output = row.output;
}

abbrev pub artifact_view : LogicArtifactRow → ArtifactRow
artifact_view row = record {
  artifact_hash = row.artifact_hash;
  artifact_id = row.artifact_id;
  artifact_schema_version = row.artifact_schema_version;
  logic_version = row.logic_version;
  decision_class = row.decision_class;
  evaluator_version = row.evaluator_version;
  artifact_json = row.artifact_json;
}

-- The readers of the two later provenance versions: `crm_decision`, `load_crm_context` and
-- `verified_crm_history` of replay/crm_context.py, and `v2_decision`, `load_v2_context` and the rows
-- of the v2 table of consumed inputs, of collector/provenance.py.
pub record LaterVersions : Type 0 where
  pub crm_decision : String → Result ReplayError (Option DecisionRow)
  pub load_crm_context : String → Result ReplayError (List ContextInput)
  pub crm_used : String → Result ReplayError (List ConsumedInputRow)
  pub v2_decision : String → Result ReplayError (Option DecisionRow)
  pub load_v2_context : DecisionRow → Result ReplayError (List ContextInput)
  pub v2_consumed : String → List ConsumedRow
