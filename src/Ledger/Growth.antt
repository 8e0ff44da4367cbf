-- ===== src/Ledger/Growth.antt =====
-- How the ledger of ledger/schema.py changes: one event is appended, and the rows of its projection.
use flight_recorder.Base.{
  ◌<◌, ◌≡◌, Bool, false, ◌||◌, List, [], ◌∷◌, ◌++◌, String, str_eq, All, arith,
}
use flight_recorder.Ledger.{
  AccountRow, EventRow, EvidenceRow, LogicArtifactRow, DecisionRow, ContextRow, ConsumedRow,
  PersonaRow, ActionRow, OutcomeRow, StoredAttribution, Ledger,
}

-- One table is the other with rows behind it that have this property.
pub record Adds {A : Type 0} (P : A → Type 0) (old new : List A) : Type 0 where
  pub added : List A
  pub is_append : new ≡ old ++ added
  pub all_added : All P added

abbrev pub is_recorded : List EventRow → String → Bool
is_recorded [] id = false
is_recorded (x ∷ events) id = str_eq x.event_id id || is_recorded events id

-- The new ledger has this event in addition, and each row that it has in addition names the event.
pub record Grows (old new : Ledger) (e : EventRow) : Type 0 where
  pub events : new.events ≡ old.events ++ e ∷ []
  pub accounts :
      Adds (λ (a : AccountRow). a.first_seen_event_id ≡ e.event_id) old.accounts new.accounts
  pub evidence_versions :
      Adds
        (λ (r : EvidenceRow). r.source_event_id ≡ e.event_id)
        old.evidence_versions
        new.evidence_versions
  pub logic_artifacts :
      Adds
        (λ (r : LogicArtifactRow). r.source_event_id ≡ e.event_id)
        old.logic_artifacts
        new.logic_artifacts
  pub decisions :
      Adds (λ (r : DecisionRow). r.decision_event_id ≡ e.event_id) old.decisions new.decisions
  pub decision_context :
      Adds
        (λ (r : ContextRow). r.decision_event_id ≡ e.event_id)
        old.decision_context
        new.decision_context
  pub decision_consumed_inputs :
      Adds
        (λ (r : ConsumedRow). r.decision_event_id ≡ e.event_id)
        old.decision_consumed_inputs
        new.decision_consumed_inputs
  pub persona_selections :
      Adds
        (λ (r : PersonaRow). r.event_id ≡ e.event_id)
        old.persona_selections
        new.persona_selections
  pub actions : Adds (λ (r : ActionRow). r.action_event_id ≡ e.event_id) old.actions new.actions
  pub outcomes :
      Adds (λ (r : OutcomeRow). r.outcome_event_id ≡ e.event_id) old.outcomes new.outcomes
  pub outcome_attributions :
      Adds
        (λ (r : StoredAttribution). r.attribution_event_id ≡ e.event_id)
        old.outcome_attributions
        new.outcome_attributions

-- The event has an id that no event has, and a sequence above all of them.
pub record IsNew (conn : Ledger) (e : EventRow) : Type 0 where
  pub fresh : is_recorded conn.events e.event_id ≡ false
  pub newer : All (λ (x : EventRow). x.ingest_sequence < e.ingest_sequence) conn.events

pub is_recorded-other :
    (events : List EventRow) (id : String)
    → is_recorded events id ≡ false
    → All (λ (x : EventRow). str_eq x.event_id id ≡ false) events
is_recorded-other [] id h = tt
is_recorded-other (x ∷ events) id h = ground (arith, is_recorded-other events id)
