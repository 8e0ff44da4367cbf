-- ===== src/Collector/Recorded.antt =====
-- The event log that `Collector.ingest` of collector/service.py keeps, and the events that the projected
-- rows name.
use flight_recorder.Base.{
  ◌<◌, ◌≡◌, ◌≢◌, refl, true, false, List, [], ◌∷◌, ◌++◌, All, All-append, All-weaken, Pairwise,
  Pairwise-append, String, str_eq, str_eq_refl, str_eq_iff, arith,
}
use flight_recorder.Ledger.{
  Ledger, AccountRow, EventRow, EvidenceRow, LogicArtifactRow, DecisionRow, ContextRow, ConsumedRow,
  PersonaRow, ActionRow, OutcomeRow, StoredAttribution,
}
use flight_recorder.Ledger.Growth.{Adds, Grows, IsNew, is_recorded, is_recorded-other}
use flight_recorder.Collector.Envelope.{Codec}
use flight_recorder.Collector.Written.{Accepted-IsNew, Accepted-Grows}
use flight_recorder.Collector.Reachable.{Reachable, reachable_induction}

-- One event stands before another: a lower sequence, and another id.
abbrev pub IsBefore : EventRow → EventRow → Type 0
IsBefore x y = (x.ingest_sequence < y.ingest_sequence) × (x.event_id ≢ y.event_id)

-- The id of each row is that of an event.
abbrev pub AllRecorded : {A : Type 0} → (A → String) → List EventRow → List A → Type 0
AllRecorded id events rows = All (λ row. is_recorded events (id row) ≡ true) rows

pub record IsReferenced (conn : Ledger) : Type 0 where
  pub accounts : AllRecorded (λ (r : AccountRow). r.first_seen_event_id) conn.events conn.accounts
  pub evidence_versions :
      AllRecorded (λ (r : EvidenceRow). r.source_event_id) conn.events conn.evidence_versions
  pub logic_artifacts :
      AllRecorded (λ (r : LogicArtifactRow). r.source_event_id) conn.events conn.logic_artifacts
  pub decisions : AllRecorded (λ (r : DecisionRow). r.decision_event_id) conn.events conn.decisions
  pub decision_context :
      AllRecorded (λ (r : ContextRow). r.decision_event_id) conn.events conn.decision_context
  pub decision_consumed_inputs :
      AllRecorded
        (λ (r : ConsumedRow). r.decision_event_id)
        conn.events
        conn.decision_consumed_inputs
  pub persona_selections :
      AllRecorded (λ (r : PersonaRow). r.event_id) conn.events conn.persona_selections
  pub actions : AllRecorded (λ (r : ActionRow). r.action_event_id) conn.events conn.actions
  pub outcomes : AllRecorded (λ (r : OutcomeRow). r.outcome_event_id) conn.events conn.outcomes
  pub outcome_attributions :
      AllRecorded
        (λ (r : StoredAttribution). r.attribution_event_id)
        conn.events
        conn.outcome_attributions

is_recorded-append :
    (events : List EventRow) (e : EventRow) (id : String)
    → is_recorded events id ≡ true
    → is_recorded (events ++ e ∷ []) id ≡ true
is_recorded-append [] e id h = cc
is_recorded-append (x ∷ events) e id h = ground (arith, is_recorded-append events e id)

is_recorded-last :
    (events : List EventRow) (e : EventRow) → is_recorded (events ++ e ∷ []) e.event_id ≡ true
is_recorded-last [] e = rw (str_eq_refl e.event_id) refl
is_recorded-last (x ∷ events) e = ground (arith, is_recorded-last events e)

-- Events that are older and have other ids stand before the new one.
IsBefore-new :
    (e : EventRow) (events : List EventRow)
    → All (λ (x : EventRow). x.ingest_sequence < e.ingest_sequence) events
    → All (λ (x : EventRow). str_eq x.event_id e.event_id ≡ false) events
    → All (λ x. IsBefore x e) events
IsBefore-new e [] h k = tt
IsBefore-new e (x ∷ events) h k = (
  (h.0, λ same. cc ((str_eq_iff x.event_id e.event_id).1 same, k.0)),
  IsBefore-new e events h.1 k.1,
)

module _ {conn conn' : Ledger} {e : EventRow} (grown : Grows conn conn' e) where
  -- A table whose new rows name the new event.
  table-grown :
      {A : Type 0} (id : A → String) {old new : List A}
      → Adds (λ r. id r ≡ e.event_id) old new
      → AllRecorded id conn.events old
      → AllRecorded id conn'.events new
  table-grown id {old} adds h =
      rw (adds.is_append, grown.events)
        (All-append (λ r. is_recorded (conn.events ++ e ∷ []) (id r) ≡ true) old adds.added
          (All-weaken (λ r. is_recorded conn.events (id r) ≡ true) _
            (λ r. is_recorded-append conn.events e (id r)) old h)
          (All-weaken (λ r. id r ≡ e.event_id) _ (λ r k. rw k (is_recorded-last conn.events e))
            adds.added adds.all_added))

  IsReferenced-grown : IsReferenced conn → IsReferenced conn'
  IsReferenced-grown h = record {
    accounts = table-grown (λ r. r.first_seen_event_id) grown.accounts h.accounts;
    evidence_versions =
        table-grown (λ r. r.source_event_id) grown.evidence_versions h.evidence_versions;
    logic_artifacts = table-grown (λ r. r.source_event_id) grown.logic_artifacts h.logic_artifacts;
    decisions = table-grown (λ r. r.decision_event_id) grown.decisions h.decisions;
    decision_context =
        table-grown (λ r. r.decision_event_id) grown.decision_context h.decision_context;
    decision_consumed_inputs =
        table-grown (λ r. r.decision_event_id) grown.decision_consumed_inputs
          h.decision_consumed_inputs;
    persona_selections =
        table-grown (λ r. r.event_id) grown.persona_selections h.persona_selections;
    actions = table-grown (λ r. r.action_event_id) grown.actions h.actions;
    outcomes = table-grown (λ r. r.outcome_event_id) grown.outcomes h.outcomes;
    outcome_attributions =
        table-grown (λ r. r.attribution_event_id) grown.outcome_attributions h.outcome_attributions;
  }

  log-grown : IsNew conn e → Pairwise IsBefore conn.events → Pairwise IsBefore conn'.events
  log-grown new h = rw (grown.events) (
      Pairwise-append IsBefore conn.events e h
        (IsBefore-new e conn.events new.newer (is_recorded-other conn.events e.event_id new.fresh)))

-- In a reachable ledger, the sequences of the event log rise strictly, and no two events have one id.
pub events-IsBefore :
    (codec : Codec) {conn : Ledger} → Reachable codec conn → Pairwise IsBefore conn.events
events-IsBefore codec =
    reachable_induction codec (λ conn. Pairwise IsBefore conn.events) tt
      λ conn r h e conn' accepted.
        log-grown (Accepted-Grows codec conn e conn' accepted)
          (Accepted-IsNew codec conn e conn' accepted) h

-- In a reachable ledger, each row of every projection names an event of the log.
pub rows-IsReferenced : (codec : Codec) {conn : Ledger} → Reachable codec conn → IsReferenced conn
rows-IsReferenced codec =
    reachable_induction codec IsReferenced
      (record {
        accounts = tt;
        evidence_versions = tt;
        logic_artifacts = tt;
        decisions = tt;
        decision_context = tt;
        decision_consumed_inputs = tt;
        persona_selections = tt;
        actions = tt;
        outcomes = tt;
        outcome_attributions = tt;
      })
      λ conn r h e conn' accepted. IsReferenced-grown (Accepted-Grows codec conn e conn' accepted) h
