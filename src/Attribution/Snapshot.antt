-- ===== src/Attribution/Snapshot.antt =====
-- The snapshot reads of attribution/policy.py. A join is a comprehension over the rows of its
-- tables, in the order of the tables, and `.first()` takes its first row.
use flight_recorder.Base.{
  ℕ, ◌&&◌, Option, none, some, List, [], ◌∷◌, map, String, str_eq, leb, ltb, ◌==◌, if◌then◌else◌,
  Result, ok, err, first, select, flat_map, outer,
}
use flight_recorder.Base.Int.{pos, negsuc}
use flight_recorder.Rules.{ScalarValue, int_value}
use flight_recorder.Ledger.{EventRow, DecisionRow, ActionRow, OutcomeRow, Ledger}
use flight_recorder.Attribution.Records.{
  AttributionError, invalid_cutoff, cutoff_above_maximum, cutoff_not_found, outcome_not_found,
  cutoff_excludes_outcome, OutcomeClaims, ActionCandidate, DecisionClaim,
}

-- `func.max`
unfoldable pub max_sequence : List EventRow → Option ℕ
max_sequence [] = none
max_sequence (e ∷ events) = elim (max_sequence events) [
  | none ↦ some e.ingest_sequence
  | some m ↦ some (if ltb m e.ingest_sequence then e.ingest_sequence else m)
]

unfoldable pub ledger_maximum : Ledger → Option ℕ
unfolding max_sequence
ledger_maximum conn = max_sequence conn.events

-- The checks of `validate_cutoff` on an integer that is not negative, behind the maximum.
unfoldable pub checked_cutoff : Ledger → ℕ → Option ℕ → Result AttributionError ℕ
checked_cutoff conn n none = err (cutoff_above_maximum (int_value (pos n)) none)
checked_cutoff conn n (some maximum) =
    if ltb maximum n
    then err (cutoff_above_maximum (int_value (pos n)) (some maximum))
    else elim (first (select (λ e. e.ingest_sequence == n) conn.events)) [
      | none ↦ err (cutoff_not_found (int_value (pos n)))
      | some _ ↦ ok n
    ]

-- The argument is any scalar, since the code tests that it is an `int` (and no `bool`); an ingest
-- sequence is not negative.
unfoldable pub validate_cutoff : Ledger → ScalarValue → Result AttributionError ℕ
unfolding ledger_maximum checked_cutoff
validate_cutoff conn (int_value (pos n)) = checked_cutoff conn n (ledger_maximum conn)
validate_cutoff conn (int_value (negsuc n)) = elim (ledger_maximum conn) [
  | none ↦ err (cutoff_above_maximum (int_value (negsuc n)) none)
  | some _ ↦ err (cutoff_not_found (int_value (negsuc n)))
]
validate_cutoff conn cutoff = err (invalid_cutoff cutoff)

-- The events with this id, and those of them inside the snapshot.
abbrev pub events_with : Ledger → String → List EventRow
events_with conn id = select (λ e. str_eq e.event_id id) conn.events

abbrev pub recorded_by : ℕ → Ledger → String → List EventRow
recorded_by cutoff conn id =
    select (λ e. str_eq e.event_id id && leb e.ingest_sequence cutoff) conn.events

-- The outcome rows with this id, each with the ingest sequence of its event.
abbrev pub outcome_rows : Ledger → String → List (OutcomeRow × ℕ)
outcome_rows conn id =
    flat_map
      (λ (o : OutcomeRow). map (λ e. (o, e.ingest_sequence)) (events_with conn o.outcome_event_id))
      (select (λ (o : OutcomeRow). str_eq o.outcome_event_id id) conn.outcomes)

-- The claims of a row, by its schema version.
abbrev pub outcome_claims : OutcomeRow → ℕ → OutcomeClaims
outcome_claims row sequence =
    if str_eq row.schema_version "1"
    then record {
      outcome_event_id = row.outcome_event_id;
      account_ref = row.account_ref;
      schema_version = row.schema_version;
      observation_instant = some row.occurred_at;
      source_action_event_id = row.action_event_id;
      source_decision_event_id = none;
      ingest_sequence = sequence;
    }
    else record {
      outcome_event_id = row.outcome_event_id;
      account_ref = row.account_ref;
      schema_version = row.schema_version;
      observation_instant = row.observed_at;
      source_action_event_id = row.source_action_event_id;
      source_decision_event_id = row.source_decision_event_id;
      ingest_sequence = sequence;
    }

unfoldable pub load_outcome : Ledger → String → ℕ → Result AttributionError OutcomeClaims
load_outcome conn outcome_event_id cutoff = elim (first (outcome_rows conn outcome_event_id)) [
  | none ↦ err (outcome_not_found outcome_event_id)
  | some (row, sequence) ↦
      if ltb cutoff sequence
      then err (cutoff_excludes_outcome outcome_event_id cutoff sequence)
      else ok (outcome_claims row sequence)
]

-- `_candidate`, of an action, its event and the decision that the outer joins found.
abbrev pub candidate : ActionRow → EventRow → Option DecisionRow → ActionCandidate
candidate a e d = record {
  action_event_id = a.action_event_id;
  account_ref = a.account_ref;
  decision_event_id = a.decision_event_id;
  status = a.status;
  occurred_at = a.occurred_at;
  ingest_sequence = e.ingest_sequence;
  decision_class = elim d [ none ↦ none | some r ↦ some r.decision_class ];
  decision_account_ref = elim d [ none ↦ none | some r ↦ some r.account_ref ];
}

-- The decisions of an event that the first outer join found.
abbrev pub decisions_of : Ledger → Option EventRow → List DecisionRow
decisions_of conn none = []
decisions_of conn (some e) =
    select (λ (d : DecisionRow). str_eq d.decision_event_id e.event_id) conn.decisions

-- The two outer joins for one action and its event.
abbrev pub linked : ℕ → Ledger → ActionRow → EventRow → List ActionCandidate
linked cutoff conn a e =
    flat_map (λ de. map (candidate a e) (outer (decisions_of conn de)))
      (outer (recorded_by cutoff conn a.decision_event_id))

-- `_action_query`
unfoldable pub action_query : ℕ → Ledger → List ActionCandidate
action_query cutoff conn =
    flat_map
      (λ (a : ActionRow).
        flat_map (linked cutoff conn a) (recorded_by cutoff conn a.action_event_id))
      conn.actions

unfoldable pub load_action : Ledger → String → ℕ → Option ActionCandidate
load_action conn action_event_id cutoff =
    first (select (λ c. str_eq c.action_event_id action_event_id) (action_query cutoff conn))

unfoldable pub load_account_actions : Ledger → String → ℕ → List ActionCandidate
load_account_actions conn account_ref cutoff =
    select (λ c. str_eq c.account_ref account_ref) (action_query cutoff conn)

abbrev pub claim : DecisionRow → DecisionClaim
claim d = record {
  decision_event_id = d.decision_event_id;
  account_ref = d.account_ref;
  decision_class = d.decision_class;
  decision_boundary = d.decision_boundary;
}

-- The decisions with this id that are inside the snapshot.
abbrev pub decision_rows : Ledger → String → ℕ → List DecisionClaim
decision_rows conn id cutoff =
    flat_map (λ (d : DecisionRow). map (λ _. claim d) (recorded_by cutoff conn d.decision_event_id))
      (select (λ (d : DecisionRow). str_eq d.decision_event_id id) conn.decisions)

unfoldable pub load_decision : Ledger → String → ℕ → Option DecisionClaim
load_decision conn decision_event_id cutoff = first (decision_rows conn decision_event_id cutoff)
