-- ===== src/Attribution/Stable/Tips.antt =====
-- `effective_attribution` of attribution/policy.py on a ledger that has grown by one event.
use flight_recorder.Base.{
  ℕ, ◌<◌, ◌≡◌, refl, ◌&&◌, map, String, str_eq, flat_map-select_none, All-intro, All-weaken,
}
use flight_recorder.Ledger.{EventRow, StoredAttribution, Ledger}
use flight_recorder.Ledger.Growth.{Grows, IsNew}
use flight_recorder.Attribution.Snapshot.{recorded_by}
use flight_recorder.Attribution.Selection.{attribution_rows, effective_attribution}
use flight_recorder.Attribution.Stable.Reads.{recorded_by-grown, recorded_by-new}

module _ {conn conn' : Ledger} {e : EventRow} (grown : Grows conn conn' e) (new : IsNew conn e)
    (n : ℕ) (passed : n < e.ingest_sequence) where
  attribution_rows-grown :
      (id version : String)
      → attribution_rows conn' id version n ≡ attribution_rows conn id version n
  unfolding attribution_rows
  attribution_rows-grown id version = rw (grown.outcome_attributions.is_append) (
      flat_map-select_none
        (λ (a : StoredAttribution). str_eq a.outcome_event_id id && str_eq a.policy_version version)
        (λ (a : StoredAttribution). map (λ _. a) (recorded_by n conn' a.attribution_event_id))
        (λ (a : StoredAttribution). map (λ _. a) (recorded_by n conn a.attribution_event_id))
        conn.outcome_attributions grown.outcome_attributions.added
        (All-intro _ (λ a. rw (recorded_by-grown grown new n passed a.attribution_event_id) refl)
          conn.outcome_attributions)
        (All-weaken (λ (a : StoredAttribution). a.attribution_event_id ≡ e.event_id) _
          (λ a h. rw (h, recorded_by-new grown new n passed) refl) grown.outcome_attributions.added
          grown.outcome_attributions.all_added))

  pub effective_attribution-grown :
      (id version : String)
      → effective_attribution conn' id version n ≡ effective_attribution conn id version n
  unfolding effective_attribution
  effective_attribution-grown id version = rw (attribution_rows-grown id version) refl
