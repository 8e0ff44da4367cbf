-- ===== src/Attribution/Stable/Reads.antt =====
-- The queries of attribution/policy.py on a ledger that has grown by one event.
use flight_recorder.Base.{
  ℕ, ◌<◌, ◌≡◌, refl, ap, ◌∙◌, Bool, false, ◌&&◌, some, List, [], ◌∷◌, map, append-nil, String,
  str_eq, str_eq_iff, leb, first, select, select-append, select_none, flat_map, flat_map_same,
  flat_map-append_none, flat_map-select_none, outer, All-intro, All-select, All-outer, All-weaken,
  Bool-cases, inl, inr, arith,
}
use flight_recorder.Ledger.{EventRow, DecisionRow, ActionRow, Ledger}
use flight_recorder.Ledger.Growth.{Grows, IsNew, is_recorded, is_recorded-other}
use flight_recorder.Attribution.Snapshot.{
  claim, recorded_by, decisions_of, linked, candidate, action_query, load_action,
  load_account_actions, load_decision,
}

-- No event with this id is selected, whatever else is asked.
select_unrecorded :
    (q : EventRow → Bool) (events : List EventRow) (id : String)
    → is_recorded events id ≡ false
    → select (λ x. str_eq x.event_id id && q x) events ≡ []
select_unrecorded q [] id h = refl
select_unrecorded q (x ∷ events) id h = ground (arith, select_unrecorded q events id)

pub str_eq-other : (s t u : String) → s ≡ t → str_eq u t ≡ false → str_eq s u ≡ false
str_eq-other s t u h other = elim (Bool-cases (str_eq s u)) [
  | inl same ↦ ground (arith, str_eq_iff s u, str_eq_iff u t)
  | inr differs ↦ differs
]

module _ {conn conn' : Ledger} {e : EventRow} (grown : Grows conn conn' e) (new : IsNew conn e)
    (n : ℕ) (passed : n < e.ingest_sequence) where
  pub recorded_by-grown : (id : String) → recorded_by n conn' id ≡ recorded_by n conn id
  recorded_by-grown id =
      let p : EventRow → Bool = λ x. str_eq x.event_id id && leb x.ingest_sequence n in
      let none_of : select p (e ∷ []) ≡ [] = ground arith in
      rw (grown.events, select-append p conn.events (e ∷ []), none_of)
        (append-nil (recorded_by n conn id))

  -- The new event is not in the snapshot.
  pub recorded_by-new : recorded_by n conn' e.event_id ≡ []
  recorded_by-new =
      recorded_by-grown e.event_id
      ∙ select_unrecorded (λ x. leb x.ingest_sequence n) conn.events e.event_id new.fresh

  -- An event of the snapshot has the decisions that it had.
  decisions_of-grown :
      (x : EventRow)
      → str_eq x.event_id e.event_id ≡ false
      → decisions_of conn' (some x) ≡ decisions_of conn (some x)
  decisions_of-grown x other =
      let p : DecisionRow → Bool = λ d. str_eq d.decision_event_id x.event_id in
      let added = grown.decisions.added in
      let none_of : select p added ≡ [] = select_none p added (
        All-weaken (λ (d : DecisionRow). d.decision_event_id ≡ e.event_id) (λ d. p d ≡ false)
          (λ d h. str_eq-other d.decision_event_id e.event_id x.event_id h other) added
          grown.decisions.all_added) in
      rw (grown.decisions.is_append, select-append p conn.decisions added, none_of)
        (append-nil (decisions_of conn (some x)))

  linked-grown : (a : ActionRow) (x : EventRow) → linked n conn' a x ≡ linked n conn a x
  linked-grown a x = rw (recorded_by-grown a.decision_event_id) (
      flat_map_same (λ de. map (candidate a x) (outer (decisions_of conn' de)))
        (λ de. map (candidate a x) (outer (decisions_of conn de)))
        (outer (recorded_by n conn a.decision_event_id))
        (All-outer
          (λ de.
            map (candidate a x) (outer (decisions_of conn' de))
            ≡ map (candidate a x) (outer (decisions_of conn de)))
          (recorded_by n conn a.decision_event_id) refl
          (All-select _ (λ y. str_eq y.event_id a.decision_event_id && leb y.ingest_sequence n)
            conn.events
            (All-weaken (λ (y : EventRow). str_eq y.event_id e.event_id ≡ false) _
              (λ y h. ap (λ ds. map (candidate a x) (outer ds)) (decisions_of-grown y h))
              conn.events (is_recorded-other conn.events e.event_id new.fresh)))))

  pub action_query-grown : action_query n conn' ≡ action_query n conn
  unfolding action_query
  action_query-grown = rw (grown.actions.is_append) (
      flat_map-append_none
        (λ (a : ActionRow). flat_map (linked n conn' a) (recorded_by n conn' a.action_event_id))
        (λ (a : ActionRow). flat_map (linked n conn a) (recorded_by n conn a.action_event_id))
        conn.actions grown.actions.added
        (All-intro _
          (λ a. rw (recorded_by-grown a.action_event_id) (
            flat_map_same (linked n conn' a) (linked n conn a)
              (recorded_by n conn a.action_event_id)
              (All-intro _ (linked-grown a) (recorded_by n conn a.action_event_id))))
          conn.actions)
        (All-weaken (λ (a : ActionRow). a.action_event_id ≡ e.event_id) _
          (λ a h. rw (h, recorded_by-new) refl) grown.actions.added grown.actions.all_added))

  pub load_decision-grown : (id : String) → load_decision conn' id n ≡ load_decision conn id n
  unfolding load_decision
  load_decision-grown id = rw (grown.decisions.is_append) (
      ap first (
        flat_map-select_none (λ (d : DecisionRow). str_eq d.decision_event_id id)
          (λ (d : DecisionRow). map (λ _. claim d) (recorded_by n conn' d.decision_event_id))
          (λ (d : DecisionRow). map (λ _. claim d) (recorded_by n conn d.decision_event_id))
          conn.decisions grown.decisions.added
          (All-intro _ (λ d. rw (recorded_by-grown d.decision_event_id) refl) conn.decisions)
          (All-weaken (λ (d : DecisionRow). d.decision_event_id ≡ e.event_id) _
            (λ d h. rw (h, recorded_by-new) refl) grown.decisions.added grown.decisions.all_added)))

  pub load_action-grown : (id : String) → load_action conn' id n ≡ load_action conn id n
  unfolding load_action
  load_action-grown id = rw action_query-grown refl

  pub load_account_actions-grown :
      (account_ref : String)
      → load_account_actions conn' account_ref n ≡ load_account_actions conn account_ref n
  unfolding load_account_actions
  load_account_actions-grown account_ref = rw action_query-grown refl
