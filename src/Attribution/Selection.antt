-- ===== src/Attribution/Selection.antt =====
-- The selection operations of attribution/policy.py: the effective version of an outcome, and its
-- effective attribution.
use flight_recorder.Base.{
  ℕ, zero, suc, Bool, true, false, ◌&&◌, ◌||◌, not, Option, none, some, List, [], ◌∷◌, ◌++◌, map,
  String, str_eq, leb, if◌then◌else◌, Result, ok, err, ◌>>=◌, ◌>>◌, select, flat_map, length,
}
use flight_recorder.Ledger.{OutcomeRow, StoredAttribution, Ledger}
use flight_recorder.Attribution.Records.{
  AttributionError, ambiguous_successors, supersession_cycle, ambiguous_attribution, out_of_fuel,
}
use flight_recorder.Attribution.Snapshot.{recorded_by, load_outcome}

-- A nullable column equals this text.
abbrev pub supersedes : Option String → String → Bool
supersedes none id = false
supersedes (some target) id = str_eq target id

-- `id in seen`
abbrev pub is_seen : String → List String → Bool
is_seen id [] = false
is_seen id (s ∷ seen) = str_eq s id || is_seen id seen

-- The versions recorded by the cutoff that supersede this one.
unfoldable pub successors : Ledger → String → ℕ → List String
successors conn current cutoff =
    flat_map
      (λ (o : OutcomeRow).
        map (λ _. o.outcome_event_id) (recorded_by cutoff conn o.outcome_event_id))
      (select (λ (o : OutcomeRow). supersedes o.supersedes_outcome_event_id current) conn.outcomes)

-- The loop of `effective_outcome_version`, on fuel.
unfoldable pub follow : Ledger → ℕ → ℕ → String → List String → Result AttributionError String
follow conn cutoff zero current seen = err out_of_fuel
follow conn cutoff (suc fuel) current seen = elim (successors conn current cutoff) [
  | [] ↦ ok current
  | s ∷ [] ↦ elim (is_seen s seen) [
    | true ↦ err (supersession_cycle seen)
    | false ↦ follow conn cutoff fuel s (s ∷ seen)
  ]
  | s ∷ t ∷ more ↦ err (ambiguous_successors current (s ∷ t ∷ more))
]

-- One round for each outcome row, and one more, is enough.
unfoldable pub effective_outcome_version : Ledger → String → ℕ → Result AttributionError String
effective_outcome_version conn outcome_chain cutoff = do
  load_outcome conn outcome_chain cutoff
  follow conn cutoff (suc (length conn.outcomes)) outcome_chain (outcome_chain ∷ [])

-- `ORDER BY ingest_sequence`
unfoldable pub insert_by_sequence : String × ℕ → List (String × ℕ) → List (String × ℕ)
insert_by_sequence x [] = x ∷ []
insert_by_sequence x (y ∷ ys) = if leb x.1 y.1 then x ∷ y ∷ ys else y ∷ insert_by_sequence x ys

unfoldable pub order_by_sequence : List (String × ℕ) → List (String × ℕ)
order_by_sequence [] = []
order_by_sequence (x ∷ xs) = insert_by_sequence x (order_by_sequence xs)

-- The query of `effective_outcome_versions`.
abbrev pub is_account : Option String → String → Bool
is_account none account_ref = true
is_account (some wanted) account_ref = str_eq wanted account_ref

unfoldable pub outcomes_in_order : Ledger → ℕ → Option String → List (String × ℕ)
unfolding order_by_sequence insert_by_sequence
outcomes_in_order conn cutoff account_ref = order_by_sequence (
    flat_map
      (λ (o : OutcomeRow).
        map (λ e. (o.outcome_event_id, e.ingest_sequence))
          (recorded_by cutoff conn o.outcome_event_id))
      (select (λ (o : OutcomeRow). is_account account_ref o.account_ref) conn.outcomes))

-- The loop that keeps the first occurrence of each effective version.
unfoldable pub collect :
    Ledger → ℕ → List (String × ℕ) → List String → Result AttributionError (List String)
collect conn cutoff [] effective = ok effective
collect conn cutoff ((id, _) ∷ rows) effective = do
  version ← effective_outcome_version conn id cutoff
  collect conn cutoff rows
      (if is_seen version effective then effective else effective ++ version ∷ [])

unfoldable pub effective_outcome_versions :
    Ledger → ℕ → Option String → Result AttributionError (List String)
unfolding collect
effective_outcome_versions conn cutoff account_ref =
    collect conn cutoff (outcomes_in_order conn cutoff account_ref) []

-- The rows of `effective_attribution`: this outcome version and policy, by the cutoff.
unfoldable pub attribution_rows : Ledger → String → String → ℕ → List StoredAttribution
attribution_rows conn outcome_event_id version cutoff =
    flat_map
      (λ (a : StoredAttribution). map (λ _. a) (recorded_by cutoff conn a.attribution_event_id))
      (select
        (λ (a : StoredAttribution).
          str_eq a.outcome_event_id outcome_event_id && str_eq a.policy_version version)
        conn.outcome_attributions)

-- The row's id is among those that the rows supersede.
abbrev pub is_superseded : List StoredAttribution → String → Bool
is_superseded [] id = false
is_superseded (row ∷ rows) id =
    supersedes row.supersedes_attribution_event_id id || is_superseded rows id

abbrev pub tips : List StoredAttribution → List StoredAttribution
tips rows =
    select (λ (row : StoredAttribution). not (is_superseded rows row.attribution_event_id)) rows

-- What `effective_attribution` makes of the tips.
unfoldable pub sole_tip :
    String → String → List StoredAttribution → Result AttributionError (Option StoredAttribution)
sole_tip outcome_event_id version [] = ok none
sole_tip outcome_event_id version (row ∷ []) = ok (some row)
sole_tip outcome_event_id version rows = err (
    ambiguous_attribution outcome_event_id version
      (map (λ (r : StoredAttribution). r.attribution_event_id) rows))

unfoldable pub effective_attribution :
    Ledger → String → String → ℕ → Result AttributionError (Option StoredAttribution)
unfolding sole_tip
effective_attribution conn outcome_event_id version cutoff =
    sole_tip outcome_event_id version (tips (attribution_rows conn outcome_event_id version cutoff))
