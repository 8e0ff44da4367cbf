-- ===== src/Replay/Tests.antt =====
-- The theorems on replay/reconstruct.py at one stored decision: one factor, one available input.
use flight_recorder.Base.{
  List, ◌*◌, ◌≡◌, refl, true, Option, some, none, [], ◌∷◌, String, ok, ◌↔◌, Pairs,
}
use flight_recorder.Base.Int.{pos, ◌-ℤ◌, ◌+ℤ◌}
use flight_recorder.Base.Text.{span}
use flight_recorder.Base.Datetime.{Date, Datetime, day_micros}
use flight_recorder.Rules.{
  ScalarValue, str_value, parse_rule, matches, require_aware_boundary, parse_boundary,
}
use flight_recorder.Rules.Pattern.{between, equals}
use flight_recorder.Evaluator.{
  LogicArtifact, ContextInput, evaluate, evaluator_version, supported_missing_value_behavior,
  consumed, consumed_triples,
}
use flight_recorder.Replay.Records.{
  ArtifactRow, DecisionRow, VerifiedArtifact, Reconstruction, LaterVersions,
}
use flight_recorder.Ledger.{ContextRow, Ledger, empty_ledger}
use flight_recorder.Replay.Verify.{
  verify_artifact, verify_artifact_row, verify_stored_row, decode_artifact_json, check_fields,
}
use flight_recorder.Replay.Verify.Verified.{IsVerifiedFor, verify_artifact-iff_IsVerifiedFor}
use flight_recorder.Replay.Load.{
  load_decision_row, load_artifact_row, load_context, load_preserved, load_entries, load_entry,
  load_evidence, load_evidence_version, read_date, read_value, check_available, context_rows,
  load_consumed_inputs, consumed_of,
}
use flight_recorder.Replay.Load.Sealed.{ArePreserved, IsSealed, load_context-IsSealed}
use flight_recorder.Replay.Reconstruct.{reconstruct, compare_with_recorded}
use flight_recorder.Replay.Reconstruct.Reproduced.{Reproduces, reconstruct-Reproduces}
use flight_recorder.Replay.Reconstruct.{replay}
use flight_recorder.Replay.Reconstruct.Honest.{
  IsCounterfactual, replay-IsCounterfactual, replay_identical,
}
use flight_recorder.Replay.Compare.{Counterfactual, counterfactual_label}
use flight_recorder.Evaluator.{ignored, total}
use flight_recorder.Replay.Compare.{compare}
use flight_recorder.Replay.Compare.Delta.{compare-score_delta}
use flight_recorder.Replay.Compare.Sums.{total_delta}

abbrev artifact : LogicArtifact
artifact = record {
  artifact_schema_version = "1";
  artifact_id = "prioritization";
  logic_version = "v1";
  decision_class = "account_prioritization";
  evaluator_version = evaluator_version;
  factors = record { key = "industry"; rule = "industry equals 'retail'"; weight = pos 7 } ∷ [];
  missing_value_behavior = supported_missing_value_behavior;
  threshold = pos 5;
  output_mapping = record { at_or_above_threshold = "prioritize"; below_threshold = "hold" };
  activation = record { activated_at = "day 1"; deactivated_at = none; status = "active" };
}

abbrev stored : ArtifactRow
stored = record {
  artifact_hash = "hash-1";
  artifact_id = "prioritization";
  artifact_schema_version = "1";
  logic_version = "v1";
  decision_class = "account_prioritization";
  evaluator_version = evaluator_version;
  artifact_json = "{}";
}

abbrev decision : DecisionRow
decision = record {
  decision_event_id = "decision-1";
  account_ref = "acct-1";
  decision_class = "account_prioritization";
  decision_boundary = "2024-03-01";
  artifact_hash = "hash-1";
  logic_version = "v1";
  evaluator_version = evaluator_version;
  score = pos 7;
  threshold = pos 5;
  output = "prioritize";
}

abbrev conn : Ledger
conn = record empty_ledger {
  decisions =
      record {
        decision_event_id = "decision-1";
        account_ref = "acct-1";
        decision_class = "account_prioritization";
        decision_boundary = "2024-03-01";
        workflow_version = "w1";
        artifact_hash = "hash-1";
        evaluator_version = evaluator_version;
        logic_version = "v1";
        score = pos 7;
        threshold = pos 5;
        output = "prioritize";
        explanation = none;
        ingest_sequence = 3;
      }
      ∷ [];
  logic_artifacts =
      record {
        artifact_hash = "hash-1";
        artifact_id = "prioritization";
        logic_version = "v1";
        decision_class = "account_prioritization";
        artifact_schema_version = "1";
        evaluator_version = evaluator_version;
        artifact_json = "{}";
        source_event_id = "artifact-1";
      }
      ∷ [];
  decision_context =
      record {
        decision_event_id = "decision-1";
        input_key = "industry";
        availability = "available";
        value_text = some "retail";
        evidence_version_id = some "ev-1";
      }
      ∷ [];
  decision_consumed_inputs =
      record {
        decision_event_id = "decision-1";
        input_key = "industry";
        value_text = "retail";
        evidence_version_id = "ev-1";
        contribution = pos 7;
      }
      ∷ [];
  evidence_versions =
      record {
        evidence_version_id = "ev-1";
        account_ref = "acct-1";
        evidence_type = "industry";
        value_json = "retail";
        source = "enrichment";
        observed_at = none;
        available_at = "2024-02-01";
        source_event_id = "evidence-1";
        supersedes_evidence_version_id = none;
      }
      ∷ [];
}

-- The decoder of a library whose contents are their texts, one hash, and one valid artifact.
abbrev decode : String → Option (Option String)
decode text = some (some text)

abbrev hash_of : String → Option String
hash_of content = some "hash-1"

abbrev validate : String → Option LogicArtifact
validate text = some artifact

abbrev boundary : Datetime
boundary = record { local = pos (738000 * day_micros); utcoffset = some (pos 0) }

abbrev read_datetime : String → Option Datetime
read_datetime text = some boundary

abbrev no_date : String → Option Date
no_date text = none

abbrev read_scalar : String → Option ScalarValue
read_scalar text = some (str_value text)

-- A ledger with decisions of the first version only.
abbrev none_later : LaterVersions
none_later = record {
  crm_decision = λ id. ok none;
  load_crm_context = λ id. ok [];
  crm_used = λ id. ok [];
  v2_decision = λ id. ok none;
  load_v2_context = λ row. ok [];
  v2_consumed = λ id. [];
}

abbrev verified : VerifiedArtifact
verified = record {
  artifact = artifact;
  stored_artifact_hash = "hash-1";
  recomputed_artifact_hash = "hash-1";
  runtime_evaluator_version = evaluator_version;
}

verify_artifact-iff_IsVerifiedFor_example :
    (verify_artifact decode hash_of validate (some stored) decision none ≡ ok verified)
    ↔ IsVerifiedFor decode hash_of validate (some stored) decision none verified
verify_artifact-iff_IsVerifiedFor_example =
    verify_artifact-iff_IsVerifiedFor decode hash_of validate (some stored) decision none verified

abbrev entry : ContextInput
entry = record {
  key = "industry";
  availability = "available";
  value = str_value "retail";
  evidence_version_id = some "ev-1";
  observed_at = none;
}

context-loaded :
    load_context no_date read_scalar none_later conn "decision-1" "2024-03-01" ≡ ok (entry ∷ [])
unfolding load_context load_preserved load_entries context_rows load_entry load_evidence
    load_evidence_version read_date check_available read_value
context-loaded = refl

load_context-IsSealed_example :
    (rows : List ContextRow) × ArePreserved no_date read_scalar none_later conn "2024-03-01"
      "decision-1" rows
    × Pairs (IsSealed read_scalar conn "2024-03-01") rows (entry ∷ [])
load_context-IsSealed_example =
    load_context-IsSealed no_date read_scalar none_later conn "2024-03-01" "decision-1" decision
      (entry ∷ []) refl refl context-loaded

abbrev reconstruction : Reconstruction
reconstruction = record {
  decision_event_id = "decision-1";
  artifact_hash = "hash-1";
  logic_version = "v1";
  evaluator_version = evaluator_version;
  decision_boundary = boundary;
  result = record {
    score = pos 7;
    threshold = pos 5;
    output = "prioritize";
    factors =
        record {
          key = "industry";
          rule = "industry equals 'retail'";
          weight = pos 7;
          input_state = consumed;
          matched = true;
          contribution = pos 7;
          evidence_version_id = some "ev-1";
        }
        ∷ [];
    ignored_inputs = [];
    context_states = ("industry", consumed) ∷ [];
  };
  stored_artifact_hash = "hash-1";
  recomputed_artifact_hash = "hash-1";
  runtime_evaluator_version = evaluator_version;
}

decision-reconstructed :
    reconstruct decode hash_of validate read_datetime no_date read_scalar none_later conn
      "decision-1"
    ≡ ok reconstruction
unfolding reconstruct load_decision_row verify_artifact verify_artifact_row load_artifact_row
    verify_stored_row decode_artifact_json check_fields parse_boundary require_aware_boundary
    load_context load_preserved load_entries context_rows load_entry load_evidence
    load_evidence_version read_date check_available read_value ◌-ℤ◌ ◌+ℤ◌ span consumed_triples
    evaluate consumed_of load_consumed_inputs compare_with_recorded between equals parse_rule
    matches
decision-reconstructed = refl

reconstruct-Reproduces_example :
    Reproduces decode hash_of validate read_datetime no_date read_scalar none_later conn
      "decision-1" reconstruction
reconstruct-Reproduces_example =
    reconstruct-Reproduces decode hash_of validate read_datetime no_date read_scalar none_later conn
      "decision-1" reconstruction decision-reconstructed

abbrev counterfactual : Counterfactual
counterfactual = record {
  label = counterfactual_label;
  decision_event_id = "decision-1";
  decision_boundary = boundary;
  original = reconstruction;
  current_artifact_hash = "hash-1";
  current_logic_version = "v1";
  current_evaluator_version = evaluator_version;
  result = reconstruction.result;
  stored_artifact_hash = "hash-1";
  recomputed_artifact_hash = "hash-1";
  runtime_evaluator_version = evaluator_version;
}

decision-replayed :
    replay decode hash_of validate read_datetime no_date read_scalar none_later conn "decision-1"
      "hash-1"
    ≡ ok counterfactual
unfolding replay reconstruct load_decision_row verify_artifact verify_artifact_row load_artifact_row
    verify_stored_row decode_artifact_json check_fields parse_boundary require_aware_boundary
    load_context load_preserved load_entries context_rows load_entry load_evidence
    load_evidence_version read_date check_available read_value ◌-ℤ◌ ◌+ℤ◌ span consumed_triples
    evaluate consumed_of load_consumed_inputs compare_with_recorded between equals parse_rule
    matches
decision-replayed = refl

replay-IsCounterfactual_example :
    IsCounterfactual decode hash_of validate read_datetime no_date read_scalar none_later conn
      "decision-1" "hash-1" counterfactual
replay-IsCounterfactual_example =
    replay-IsCounterfactual decode hash_of validate read_datetime no_date read_scalar none_later
      conn "decision-1" "hash-1" counterfactual decision-replayed

decision-found : load_decision_row no_date read_scalar none_later conn "decision-1" ≡ ok decision
unfolding load_decision_row
decision-found = refl

replay_identical_example : counterfactual.result ≡ counterfactual.original.result
replay_identical_example =
    replay_identical decode hash_of validate read_datetime no_date read_scalar none_later conn
      "decision-1" decision counterfactual decision-found decision-replayed

-- The sample replayed against an artifact without its factor, with another one of a smaller weight.
abbrev changed : Counterfactual
changed = record {
  label = counterfactual_label;
  decision_event_id = "decision-1";
  decision_boundary = boundary;
  original = reconstruction;
  current_artifact_hash = "hash-2";
  current_logic_version = "v2";
  current_evaluator_version = evaluator_version;
  result = record {
    score = pos 3;
    threshold = pos 5;
    output = "hold";
    factors =
        record {
          key = "employees";
          rule = "employees at least 50";
          weight = pos 3;
          input_state = consumed;
          matched = true;
          contribution = pos 3;
          evidence_version_id = some "ev-2";
        }
        ∷ [];
    ignored_inputs = "industry" ∷ [];
    context_states = ("industry", ignored) ∷ ("employees", consumed) ∷ [];
  };
  stored_artifact_hash = "hash-2";
  recomputed_artifact_hash = "hash-2";
  runtime_evaluator_version = evaluator_version;
}

total-original : changed.original.result.score ≡ total changed.original.result.factors
unfolding total ◌+ℤ◌
total-original = refl

total-changed : changed.result.score ≡ total changed.result.factors
unfolding total ◌+ℤ◌
total-changed = refl

compare-score_delta_example :
    total_delta (compare changed).contributions ≡ (compare changed).score_delta
compare-score_delta_example =
    compare-score_delta changed (refl, tt) (refl, tt) total-original total-changed
