-- ===== src/Ledger.antt =====
-- ledger/schema.py: the rows of its tables, and the database as one list of rows for each table, in
-- the order of insertion. A nullable column is an option. The constraints of the tables are not
-- enforced here.
pub mod Growth
pub mod Keys
use flight_recorder.Base.{ℕ, Bool, Option, List, [], String}
use flight_recorder.Base.Int.{ℤ}

abbrev pub system_account_ref : String
system_account_ref = "_system"

abbrev pub system_account_name : String
system_account_name = "System (logic artifact registry)"

abbrev pub system_account_domain : String
system_account_domain = "system.invalid"

pub record AccountRow : Type 0 where
  pub account_ref : String
  pub name : String
  pub domain : String
  pub first_seen_event_id : String

pub record EventRow : Type 0 where
  pub ingest_sequence : ℕ
  pub event_id : String
  pub schema_version : String
  pub event_type : String
  pub source : String
  pub account_ref : String
  pub occurred_at : String
  pub recorded_at : String
  pub canonical_hash : String
  pub payload : String

pub record EvidenceRow : Type 0 where
  pub evidence_version_id : String
  pub account_ref : String
  pub evidence_type : String
  pub value_json : String
  pub source : String
  pub observed_at : Option String
  pub available_at : String
  pub source_event_id : String
  pub supersedes_evidence_version_id : Option String

pub record LogicArtifactRow : Type 0 where
  pub artifact_hash : String
  pub artifact_id : String
  pub logic_version : String
  pub decision_class : String
  pub artifact_schema_version : String
  pub evaluator_version : String
  pub artifact_json : String
  pub source_event_id : String

pub record DecisionRow : Type 0 where
  pub decision_event_id : String
  pub account_ref : String
  pub decision_class : String
  pub decision_boundary : String
  pub workflow_version : String
  pub artifact_hash : String
  pub evaluator_version : String
  pub logic_version : String
  pub score : ℤ
  pub threshold : ℤ
  pub output : String
  pub explanation : Option String
  pub ingest_sequence : ℕ

pub record ContextRow : Type 0 where
  pub decision_event_id : String
  pub input_key : String
  pub availability : String
  pub value_text : Option String
  pub evidence_version_id : Option String

pub record ConsumedRow : Type 0 where
  pub decision_event_id : String
  pub input_key : String
  pub value_text : String
  pub evidence_version_id : String
  pub contribution : ℤ

pub record PersonaRow : Type 0 where
  pub event_id : String
  pub account_ref : String
  pub decision_event_id : String
  pub persona : String
  pub explanation : Option String

pub record ActionRow : Type 0 where
  pub action_event_id : String
  pub account_ref : String
  pub decision_event_id : String
  pub action_type : String
  pub play_id : ℤ
  pub target_persona : String
  pub status : String
  pub cost : String
  pub currency : String
  pub occurred_at : String

pub record OutcomeRow : Type 0 where
  pub outcome_event_id : String
  pub account_ref : String
  pub action_event_id : Option String
  pub window_days : Option ℤ
  pub reply : Option Bool
  pub meeting : Option Bool
  pub opportunity : Option Bool
  pub occurred_at : String
  pub recorded_at : String
  pub schema_version : String
  pub window_opened_at : Option String
  pub window_closes_at : Option String
  pub evaluation_state : Option String
  pub observed_at : Option String
  pub source_action_event_id : Option String
  pub source_action_unusable_reason : Option String
  pub source_decision_event_id : Option String
  pub source_decision_unusable_reason : Option String
  pub supersedes_outcome_event_id : Option String

-- A row of `outcome_attributions`, and `StoredAttribution` of attribution/policy.py.
pub record StoredAttribution : Type 0 where
  pub attribution_event_id : String
  pub account_ref : String
  pub source_event_id : String
  pub outcome_event_id : String
  pub policy_version : String
  pub method : String
  pub window_days : ℤ
  pub resolved_action_event_id : Option String
  pub resolved_decision_event_id : Option String
  pub status : String
  pub reason : String
  pub attributed_at : String
  pub ingest_cutoff : ℤ
  pub supersedes_attribution_event_id : Option String

pub record Ledger : Type 0 where
  pub accounts : List AccountRow
  pub events : List EventRow
  pub evidence_versions : List EvidenceRow
  pub logic_artifacts : List LogicArtifactRow
  pub decisions : List DecisionRow
  pub decision_context : List ContextRow
  pub decision_consumed_inputs : List ConsumedRow
  pub persona_selections : List PersonaRow
  pub actions : List ActionRow
  pub outcomes : List OutcomeRow
  pub outcome_attributions : List StoredAttribution

-- The tables as they are created.
abbrev pub empty_ledger : Ledger
empty_ledger = record {
  accounts = [];
  events = [];
  evidence_versions = [];
  logic_artifacts = [];
  decisions = [];
  decision_context = [];
  decision_consumed_inputs = [];
  persona_selections = [];
  actions = [];
  outcomes = [];
  outcome_attributions = [];
}
