-- ===== src/Collector/Keys.antt =====
-- The primary keys of ledger/schema.py over what collector/projections.py writes for an envelope that
-- satisfies the models of collector/schema.py.
use flight_recorder.Base.{
  ℕ, ◌≡◌, ◌≢◌, refl, sym, true, false, some, List, [], ◌∷◌, ◌++◌, map, All, All-map,
  Pairwise-append-All, Pairwise-map, map-Pairwise, String, ok, ok_inversion, ok_inj, map_err,
  and_split, Option-cases, Bool-cases, inl, inr,
}
use mathlib.Core.Path.{subst}
use flight_recorder.Evaluator.{LogicArtifact}
use flight_recorder.Ledger.{
  Ledger, AccountRow, EvidenceRow, LogicArtifactRow, DecisionRow, ActionRow, OutcomeRow,
  StoredAttribution,
}
use flight_recorder.Ledger.Growth.{is_recorded}
use flight_recorder.Ledger.Keys.{Keyed, Keyed-add, unfound-All, unrecorded-All, All-swap}
use flight_recorder.Attribution.Attribute.{source_claim_problems}
use flight_recorder.Collector.Envelope.{
  Codec, Envelope, EvidenceItem, Payload, logic_artifact_registered, account_discovered,
  evidence_recorded, decision_recorded, persona_selected, action_recorded, outcome_evaluated,
  outcome_evaluated_v2, outcome_attributed, policy_failure,
}
use flight_recorder.Collector.References.{
  evidence_with, artifact_with, same_version, validate_item, validate_evidence,
}
use flight_recorder.Collector.Project.{
  project, project_artifact, project_evidence, project_decision, project_outcome_v2,
  evidence_row_of, artifact_row, decision_row, action_row, outcome_row, outcome_v2_row,
  attribution_row,
}
use flight_recorder.Collector.Service.{validate_references, next_sequence}
use flight_recorder.Collector.Contract.{Reader, valid_items, valid_payload, valid_envelope}
use flight_recorder.Collector.Models.{valid_base, no_duplicates}
use flight_recorder.Collector.Models.Duplicates.{no_duplicates-iff_Pairwise}
use flight_recorder.Collector.Appends.{inserted}
use flight_recorder.Collector.Written.{Accepted-IsNew, Accepted-projects}
use flight_recorder.Collector.Recorded.{IsReferenced, rows-IsReferenced}
use flight_recorder.Collector.Submitted.{Submitted, submitted_induction}

-- Each table has one row for a key.
pub record HasKeys (conn : Ledger) : Type 0 where
  pub accounts : Keyed (λ (r : AccountRow). r.account_ref) conn.accounts
  pub evidence_versions : Keyed (λ (r : EvidenceRow). r.evidence_version_id) conn.evidence_versions
  pub logic_artifacts : Keyed (λ (r : LogicArtifactRow). r.artifact_hash) conn.logic_artifacts
  pub decisions : Keyed (λ (r : DecisionRow). r.decision_event_id) conn.decisions
  pub actions : Keyed (λ (r : ActionRow). r.action_event_id) conn.actions
  pub outcomes : Keyed (λ (r : OutcomeRow). r.outcome_event_id) conn.outcomes
  pub outcome_attributions :
      Keyed (λ (r : StoredAttribution). r.attribution_event_id) conn.outcome_attributions

module _ (codec : Codec) (conn : Ledger) (e : Envelope) where
  -- Each version of an event that passes is new.
  validate_item-new :
      (item : EvidenceItem)
      → validate_item codec conn e item ≡ ok tt
      → All
          (λ (r : EvidenceRow). r.evidence_version_id ≢ item.evidence_version_id)
          conn.evidence_versions
  unfolding validate_item
  validate_item-new item h =
      elim (Option-cases (evidence_with conn (some item.evidence_version_id))) [
        | inl unfound ↦
            unfound-All (λ (r : EvidenceRow). r.evidence_version_id) conn.evidence_versions
              item.evidence_version_id unfound
        | inr (row, found) ↦ elim (Bool-cases (same_version codec e item row)) [
          | inl same ↦ absurd (cc (rw (found, same, validate_item) at h))
          | inr differs ↦ absurd (cc (rw (found, differs, validate_item) at h))
        ]
      ]

  validate_evidence-new :
      (items : List EvidenceItem)
      → validate_evidence codec conn e items ≡ ok tt
      → All
          (λ (i : EvidenceItem).
            All
              (λ (r : EvidenceRow). r.evidence_version_id ≢ i.evidence_version_id)
              conn.evidence_versions)
          items
  unfolding validate_evidence
  validate_evidence-new [] h = tt
  validate_evidence-new (item ∷ items) h =
      ok_inversion (validate_item codec conn e item) h
        λ _ e₀ h₀. (validate_item-new item e₀, validate_evidence-new items h₀)

  evidence-Keyed :
      (reader : Reader) (items : List EvidenceItem)
      → valid_items reader items ≡ true
      → validate_evidence codec conn e items ≡ ok tt
      → Keyed (λ (r : EvidenceRow). r.evidence_version_id) conn.evidence_versions
      → Keyed
          (λ (r : EvidenceRow). r.evidence_version_id)
          (conn.evidence_versions ++ map (evidence_row_of codec e) items)
  unfolding valid_items
  evidence-Keyed reader items valid h keyed =
      let id : EvidenceRow → String = λ r. r.evidence_version_id in
      let ids = map (λ (i : EvidenceItem). i.evidence_version_id) items in
      let distinct = (no_duplicates-iff_Pairwise ids).0 (and_split _ (no_duplicates ids) valid).1 in
      Pairwise-append-All (λ x y. id x ≢ id y) conn.evidence_versions
        (map (evidence_row_of codec e) items) keyed
        (Pairwise-map (λ x y. id x ≢ id y) (evidence_row_of codec e) items
          (map-Pairwise (λ j k. j ≢ k) (λ (i : EvidenceItem). i.evidence_version_id) items
            distinct))
        (All-swap (λ x y. id x ≢ id y) conn.evidence_versions (map (evidence_row_of codec e) items)
          (All-map (λ y. All (λ x. id x ≢ id y) conn.evidence_versions) (evidence_row_of codec e)
            items (validate_evidence-new items h)))

  module _ (accounts : List AccountRow) (n : ℕ)
      (keyed_accounts : Keyed (λ (r : AccountRow). r.account_ref) accounts) (old : HasKeys conn)
      (fresh : is_recorded conn.events e.event_id ≡ false) (referenced : IsReferenced conn) where
    quiet : HasKeys (inserted codec conn e accounts n)
    quiet = (record {
      accounts = keyed_accounts;
      evidence_versions = old.evidence_versions;
      logic_artifacts = old.logic_artifacts;
      decisions = old.decisions;
      actions = old.actions;
      outcomes = old.outcomes;
      outcome_attributions = old.outcome_attributions;
    })

    project_artifact-HasKeys :
        (artifact : LogicArtifact)
        → HasKeys (project_artifact codec (inserted codec conn e accounts n) e artifact)
    unfolding project_artifact
    project_artifact-HasKeys artifact =
        elim (Option-cases
          (artifact_with (inserted codec conn e accounts n) (codec.artifact_hash artifact))) [
            | inl missing ↦
                rw (missing, project_artifact)
                  (record {
                    accounts = keyed_accounts;
                    evidence_versions = old.evidence_versions;
                    logic_artifacts =
                        Keyed-add (λ (r : LogicArtifactRow). r.artifact_hash) conn.logic_artifacts
                          (artifact_row codec e artifact)
                          (unfound-All (λ (r : LogicArtifactRow). r.artifact_hash)
                            conn.logic_artifacts (codec.artifact_hash artifact) missing)
                          old.logic_artifacts;
                    decisions = old.decisions;
                    actions = old.actions;
                    outcomes = old.outcomes;
                    outcome_attributions = old.outcome_attributions;
                  })
            | inr (found, is_found) ↦ rw (is_found, project_artifact) quiet
          ]

    -- The key of the one new row is the new event's.
    one_new :
        {A : Type 0} (key : A → String) (rows : List A) (row : A)
        → key row ≡ e.event_id
        → All (λ r. is_recorded conn.events (key r) ≡ true) rows
        → Keyed key rows
        → Keyed key (rows ++ row ∷ [])
    one_new key rows row same h = Keyed-add key rows row (
        subst (λ k. All (λ r. key r ≢ k) rows) (sym same)
          (unrecorded-All key conn.events e.event_id rows fresh h))

    project-HasKeys :
        (reader : Reader) (p : Payload) {conn' : Ledger}
        → valid_payload reader e p ≡ true
        → validate_references codec conn e p ≡ ok tt
        → project codec (inserted codec conn e accounts n) e p n ≡ ok conn'
        → HasKeys conn'
    unfolding project project_evidence project_decision project_outcome_v2 validate_references
        valid_payload
    project-HasKeys reader (logic_artifact_registered artifact) valid v h =
        subst HasKeys (ok_inj h) (project_artifact-HasKeys artifact)
    project-HasKeys reader (account_discovered name domain) valid v h =
        subst HasKeys (ok_inj h) quiet
    project-HasKeys reader (evidence_recorded items) valid v h = subst HasKeys (ok_inj h) (record {
      accounts = keyed_accounts;
      evidence_versions = evidence-Keyed reader items valid v old.evidence_versions;
      logic_artifacts = old.logic_artifacts;
      decisions = old.decisions;
      actions = old.actions;
      outcomes = old.outcomes;
      outcome_attributions = old.outcome_attributions;
    })
    project-HasKeys reader (decision_recorded payload) valid v h =
        subst HasKeys (ok_inj h) (record {
          accounts = keyed_accounts;
          evidence_versions = old.evidence_versions;
          logic_artifacts = old.logic_artifacts;
          decisions =
              one_new (λ (r : DecisionRow). r.decision_event_id) conn.decisions
                (decision_row e payload n) refl referenced.decisions old.decisions;
          actions = old.actions;
          outcomes = old.outcomes;
          outcome_attributions = old.outcome_attributions;
        })
    project-HasKeys reader (persona_selected payload) valid v h = subst HasKeys (ok_inj h) (record {
      accounts = keyed_accounts;
      evidence_versions = old.evidence_versions;
      logic_artifacts = old.logic_artifacts;
      decisions = old.decisions;
      actions = old.actions;
      outcomes = old.outcomes;
      outcome_attributions = old.outcome_attributions;
    })
    project-HasKeys reader (action_recorded payload) valid v h = subst HasKeys (ok_inj h) (record {
      accounts = keyed_accounts;
      evidence_versions = old.evidence_versions;
      logic_artifacts = old.logic_artifacts;
      decisions = old.decisions;
      actions =
          one_new (λ (r : ActionRow). r.action_event_id) conn.actions (action_row e payload) refl
            referenced.actions old.actions;
      outcomes = old.outcomes;
      outcome_attributions = old.outcome_attributions;
    })
    project-HasKeys reader (outcome_evaluated payload) valid v h =
        subst HasKeys (ok_inj h) (record {
          accounts = keyed_accounts;
          evidence_versions = old.evidence_versions;
          logic_artifacts = old.logic_artifacts;
          decisions = old.decisions;
          actions = old.actions;
          outcomes =
              one_new (λ (r : OutcomeRow). r.outcome_event_id) conn.outcomes (outcome_row e payload)
                refl referenced.outcomes old.outcomes;
          outcome_attributions = old.outcome_attributions;
        })
    project-HasKeys reader (outcome_evaluated_v2 payload) valid v h =
        ok_inversion
          (map_err policy_failure (
            source_claim_problems codec.fromisoformat (inserted codec conn e accounts n)
              e.account_ref (some payload.observed_at) payload.source_action_event_id
              payload.source_decision_event_id n))
          h
          λ (action_reason, decision_reason) _ written. subst HasKeys (ok_inj written) (record {
            accounts = keyed_accounts;
            evidence_versions = old.evidence_versions;
            logic_artifacts = old.logic_artifacts;
            decisions = old.decisions;
            actions = old.actions;
            outcomes =
                one_new (λ (r : OutcomeRow). r.outcome_event_id) conn.outcomes
                  (outcome_v2_row e payload action_reason decision_reason) refl referenced.outcomes
                  old.outcomes;
            outcome_attributions = old.outcome_attributions;
          })
    project-HasKeys reader (outcome_attributed payload) valid v h =
        subst HasKeys (ok_inj h) (record {
          accounts = keyed_accounts;
          evidence_versions = old.evidence_versions;
          logic_artifacts = old.logic_artifacts;
          decisions = old.decisions;
          actions = old.actions;
          outcomes = old.outcomes;
          outcome_attributions =
              one_new (λ (r : StoredAttribution). r.attribution_event_id) conn.outcome_attributions
                (attribution_row e payload) refl referenced.outcome_attributions
                old.outcome_attributions;
        })

pub valid_envelope-payload :
    (reader : Reader) (e : Envelope)
    → valid_envelope reader e ≡ true
    → valid_payload reader e e.payload ≡ true
unfolding valid_envelope
valid_envelope-payload reader e h =
    (and_split (valid_payload reader e e.payload) (valid_base e) h).0

-- In a ledger that bodies given to `ingest_json` lead to, the keys of the accounts, the evidence versions,
-- the artifacts, the decisions, the actions, the outcomes and the attributions are unique: a valid
-- envelope that passes the checks never meets a row with the key of a row that it writes.
pub tables-HasKeys :
    (reader : Reader) (codec : Codec) {conn : Ledger} → Submitted reader codec conn → HasKeys conn
tables-HasKeys reader codec =
    submitted_induction reader codec HasKeys
      (record {
        accounts = tt;
        evidence_versions = tt;
        logic_artifacts = tt;
        decisions = tt;
        actions = tt;
        outcomes = tt;
        outcome_attributions = tt;
      })
      λ conn r old e valid conn' accepted.
        let (accounts, projected, keyed) = Accepted-projects codec conn e conn' accepted in
        project-HasKeys codec conn e accounts (next_sequence conn) (keyed old.accounts) old
          (Accepted-IsNew codec conn e conn' accepted).fresh (rows-IsReferenced codec r) reader
          e.payload {conn' = conn'} (valid_envelope-payload reader e valid) accepted.references
          projected
