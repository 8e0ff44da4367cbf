-- ===== src/Collector/Appends.antt =====
-- The writes of an accepted event, of collector/service.py and collector/projections.py, as growth of the
-- ledger.
use flight_recorder.Base.{
  ℕ, ◌≡◌, refl, sym, ◌∙◌, ◌++◌, append-nil, some, List, [], ◌∷◌, map, All-intro, All-map,
  Option-cases, inl, inr, ok, ok_inversion, ok_inj, map_err,
}
use mathlib.Core.Path.{subst}
use flight_recorder.Ledger.{
  Ledger, AccountRow, EvidenceRow, LogicArtifactRow, DecisionRow, ContextRow, ConsumedRow,
  PersonaRow, ActionRow, OutcomeRow, StoredAttribution,
}
use flight_recorder.Ledger.Keys.{Keyed, Keyed-add, unfound-All}
use flight_recorder.Ledger.Growth.{Adds, Grows}
use flight_recorder.Attribution.Attribute.{source_claim_problems}
use flight_recorder.Collector.Envelope.{
  Envelope, Codec, Payload, logic_artifact_registered, account_discovered, evidence_recorded,
  decision_recorded, persona_selected, action_recorded, outcome_evaluated, outcome_evaluated_v2,
  outcome_attributed, policy_failure,
}
use flight_recorder.Evaluator.{LogicArtifact}
use flight_recorder.Collector.References.{artifact_with}
use flight_recorder.Collector.Project.{
  project, project_artifact, project_evidence, project_decision, project_outcome_v2, append,
  evidence_row_of, context_row, consumed_row,
}
use flight_recorder.Collector.Service.{account_row, add_account, materialize_account, event_row}

-- A table that stays.
same : {A : Type 0} {P : A → Type 0} {rows : List A} → Adds P rows rows
same {rows} = record { added = []; is_append = sym (append-nil rows); all_added = tt }

-- A table with one more row, or with the rows of a loop.
one :
    {A : Type 0} {P : A → Type 0} {rows : List A} (row : A) → P row → Adds P rows (append rows row)
one row h = record { added = row ∷ []; is_append = refl; all_added = (h, tt) }

many :
    {A B : Type 0} {P : B → Type 0} {rows : List B} (f : A → B) (xs : List A)
    → ((x : A) → P (f x))
    → Adds P rows (rows ++ map f xs)
many {P} f xs h = record {
  added = map f xs;
  is_append = refl;
  all_added = All-map P f xs (All-intro (λ x. P (f x)) h xs);
}

-- The accounts behind the first write.
pub record Materialized (conn : Ledger) (e : Envelope) (p : Payload) : Type 0 where
  pub accounts : List AccountRow
  pub is_materialized : materialize_account conn e p ≡ record conn { accounts = accounts }
  pub adds : Adds (λ (a : AccountRow). a.first_seen_event_id ≡ e.event_id) conn.accounts accounts
  pub keyed :
      Keyed (λ (a : AccountRow). a.account_ref) conn.accounts
      → Keyed (λ (a : AccountRow). a.account_ref) accounts

add_account-Materialized :
    (conn : Ledger) (e : Envelope) (p : Payload) (row : AccountRow)
    → row.first_seen_event_id ≡ e.event_id
    → materialize_account conn e p ≡ add_account conn row
    → Materialized conn e p
unfolding add_account
add_account-Materialized conn e p row h is_add =
    elim (Option-cases (account_row conn row.account_ref)) [
      | inl missing ↦ record {
        accounts = append conn.accounts row;
        is_materialized = is_add ∙ rw (missing, add_account) refl;
        adds = one row h;
        keyed =
            Keyed-add (λ (a : AccountRow). a.account_ref) conn.accounts row
              (unfound-All (λ (a : AccountRow). a.account_ref) conn.accounts row.account_ref
                missing);
      }
      | inr (found, is_found) ↦ record {
        accounts = conn.accounts;
        is_materialized = is_add ∙ rw (is_found, add_account) refl;
        adds = same;
        keyed = λ h. h;
      }
    ]

stay :
    (conn : Ledger) (e : Envelope) (p : Payload)
    → materialize_account conn e p ≡ conn
    → Materialized conn e p
stay conn e p h = record {
  accounts = conn.accounts;
  is_materialized = h;
  adds = same;
  keyed = λ k. k;
}

pub materialize_account-Materialized :
    (conn : Ledger) (e : Envelope) (p : Payload) → Materialized conn e p
unfolding materialize_account
materialize_account-Materialized conn e (logic_artifact_registered artifact) =
    add_account-Materialized conn e _ _ refl refl
materialize_account-Materialized conn e (account_discovered name domain) =
    add_account-Materialized conn e _ _ refl refl
materialize_account-Materialized conn e (evidence_recorded items) = stay conn e _ refl
materialize_account-Materialized conn e (decision_recorded payload) = stay conn e _ refl
materialize_account-Materialized conn e (persona_selected payload) = stay conn e _ refl
materialize_account-Materialized conn e (action_recorded payload) = stay conn e _ refl
materialize_account-Materialized conn e (outcome_evaluated payload) = stay conn e _ refl
materialize_account-Materialized conn e (outcome_evaluated_v2 payload) = stay conn e _ refl
materialize_account-Materialized conn e (outcome_attributed payload) = stay conn e _ refl

-- The ledger behind the writes of the account and the event.
abbrev pub inserted : Codec → Ledger → Envelope → List AccountRow → ℕ → Ledger
inserted codec conn e accounts n = record conn {
  accounts = accounts;
  events = append conn.events (event_row codec e n);
}

module _ (codec : Codec) (conn : Ledger) (e : Envelope) (n : ℕ) (accounts : List AccountRow)
    (adds : Adds
      (λ (a : AccountRow). a.first_seen_event_id ≡ e.event_id)
      conn.accounts
      accounts) where
  -- The ledger with these tables grows, if each of them does.
  grow :
      {artifacts : List LogicArtifactRow} {evidence : List EvidenceRow}
      {decisions : List DecisionRow} {context : List ContextRow} {consumed : List ConsumedRow}
      {personas : List PersonaRow} {actions : List ActionRow} {outcomes : List OutcomeRow}
      {attributions : List StoredAttribution}
      → Adds
          (λ (r : LogicArtifactRow). r.source_event_id ≡ e.event_id)
          conn.logic_artifacts
          artifacts
      → Adds (λ (r : EvidenceRow). r.source_event_id ≡ e.event_id) conn.evidence_versions evidence
      → Adds (λ (r : DecisionRow). r.decision_event_id ≡ e.event_id) conn.decisions decisions
      → Adds (λ (r : ContextRow). r.decision_event_id ≡ e.event_id) conn.decision_context context
      → Adds
          (λ (r : ConsumedRow). r.decision_event_id ≡ e.event_id)
          conn.decision_consumed_inputs
          consumed
      → Adds (λ (r : PersonaRow). r.event_id ≡ e.event_id) conn.persona_selections personas
      → Adds (λ (r : ActionRow). r.action_event_id ≡ e.event_id) conn.actions actions
      → Adds (λ (r : OutcomeRow). r.outcome_event_id ≡ e.event_id) conn.outcomes outcomes
      → Adds
          (λ (r : StoredAttribution). r.attribution_event_id ≡ e.event_id)
          conn.outcome_attributions
          attributions
      → Grows conn
          (record {
            accounts = accounts;
            events = append conn.events (event_row codec e n);
            evidence_versions = evidence;
            logic_artifacts = artifacts;
            decisions = decisions;
            decision_context = context;
            decision_consumed_inputs = consumed;
            persona_selections = personas;
            actions = actions;
            outcomes = outcomes;
            outcome_attributions = attributions;
          })
          (event_row codec e n)
  grow a b c d f g h i j = record {
    events = refl;
    accounts = adds;
    evidence_versions = b;
    logic_artifacts = a;
    decisions = c;
    decision_context = d;
    decision_consumed_inputs = f;
    persona_selections = g;
    actions = h;
    outcomes = i;
    outcome_attributions = j;
  }

  quiet : Grows conn (inserted codec conn e accounts n) (event_row codec e n)
  quiet = grow same same same same same same same same same

  project_artifact-Grows :
      (artifact : LogicArtifact)
      → Grows conn
          (project_artifact codec (inserted codec conn e accounts n) e artifact)
          (event_row codec e n)
  unfolding project_artifact
  project_artifact-Grows artifact =
      elim (Option-cases
        (artifact_with (inserted codec conn e accounts n) (codec.artifact_hash artifact))) [
          | inl missing ↦
              rw (missing, project_artifact)
                (grow (one _ refl) same same same same same same same same)
          | inr (found, is_found) ↦ rw (is_found, project_artifact) quiet
        ]

  pub project-Grows :
      (p : Payload) {conn' : Ledger}
      → project codec (inserted codec conn e accounts n) e p n ≡ ok conn'
      → Grows conn conn' (event_row codec e n)
  unfolding project project_evidence project_decision project_outcome_v2
  project-Grows (logic_artifact_registered artifact) h =
      subst (λ c. Grows conn c (event_row codec e n)) (ok_inj h) (project_artifact-Grows artifact)
  project-Grows (account_discovered name domain) h =
      subst (λ c. Grows conn c (event_row codec e n)) (ok_inj h) quiet
  project-Grows (evidence_recorded items) h =
      subst (λ c. Grows conn c (event_row codec e n)) (ok_inj h)
        (grow same (many (evidence_row_of codec e) items (λ _. refl)) same same same same same same
          same)
  project-Grows (decision_recorded payload) h =
      subst (λ c. Grows conn c (event_row codec e n)) (ok_inj h)
        (grow same same (one _ refl)
          (many (context_row codec e) payload.historical_context (λ _. refl))
          (many (consumed_row codec e) payload.consumed_inputs (λ _. refl)) same same same same)
  project-Grows (persona_selected payload) h =
      subst (λ c. Grows conn c (event_row codec e n)) (ok_inj h)
        (grow same same same same same (one _ refl) same same same)
  project-Grows (action_recorded payload) h =
      subst (λ c. Grows conn c (event_row codec e n)) (ok_inj h)
        (grow same same same same same same (one _ refl) same same)
  project-Grows (outcome_evaluated payload) h =
      subst (λ c. Grows conn c (event_row codec e n)) (ok_inj h)
        (grow same same same same same same same (one _ refl) same)
  project-Grows (outcome_evaluated_v2 payload) h =
      ok_inversion
        (map_err policy_failure (
          source_claim_problems codec.fromisoformat (inserted codec conn e accounts n) e.account_ref
            (some payload.observed_at) payload.source_action_event_id
            payload.source_decision_event_id n))
        h
        λ _ _ written.
          subst (λ c. Grows conn c (event_row codec e n)) (ok_inj written)
            (grow same same same same same same same (one _ refl) same)
  project-Grows (outcome_attributed payload) h =
      subst (λ c. Grows conn c (event_row codec e n)) (ok_inj h)
        (grow same same same same same same same same (one _ refl))
