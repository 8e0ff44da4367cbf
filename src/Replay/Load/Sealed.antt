-- ===== src/Replay/Load/Sealed.antt =====
-- The context that replay reads is the sealed one: an entry for each preserved row, and no evidence
-- that became available after the boundary.
use mathlib.Core.Path.{subst}
use mathlib.Core.Option.{some_inj}
use mathlib.Core.List.{Perm}
use flight_recorder.Base.Text.{str_lt}
use flight_recorder.Base.Members.{first-select-Member}
use flight_recorder.Base.Sorting.{InOrder, sort_by-perm, sort_by-InOrder}
use flight_recorder.Base.{
  ◌≡◌, refl, sym, ◌∙◌, ap, Bool, true, false, Option, none, some, List, [], ◌∷◌, String, ok,
  ok_inversion, ok_inj, raise_if, Pairs, Keeps, select-Keeps, Pairwise, select, Member, str_eq,
  str_eq_iff, Option-cases, inl, inr,
}
use flight_recorder.Base.Datetime.{Date}
use flight_recorder.Rules.{ScalarValue, null_value}
use flight_recorder.Evaluator.{ContextInput}
use flight_recorder.Replay.Records.{DecisionRow, EvidenceVersionRow, LaterVersions}
use flight_recorder.Ledger.{ContextRow, EvidenceRow, Ledger}
use flight_recorder.Replay.Load.{
  evidence_row, legacy_decision, is_after, check_available, read_date, load_evidence_version,
  load_evidence, read_value, load_entry, load_entries, context_rows, load_preserved, load_context,
}

-- The entry of a preserved row: its key, its availability, the value that its text is read as, null
-- without a text, and its evidence, which is stored and did not become available after the boundary.
pub record IsSealed (loads_scalar : String → Option ScalarValue) (conn : Ledger) (boundary : String)
    (row : ContextRow) (entry : ContextInput) : Type 0 where
  pub same_key : row.input_key ≡ entry.key
  pub same_availability : row.availability ≡ entry.availability
  pub same_evidence : row.evidence_version_id ≡ entry.evidence_version_id
  pub same_value :
      (text : String) → row.value_text ≡ some text → loads_scalar text ≡ some entry.value
  pub no_value : row.value_text ≡ none → entry.value ≡ null_value
  pub not_after :
      (id : String)
      → row.evidence_version_id ≡ some id
      → (e : EvidenceRow) × Member e conn.evidence_versions
        × (e.evidence_version_id ≡ id)
        × (str_lt boundary e.available_at ≡ false)

not_raised : {E : Type 0} (b : Bool) (e : E) {u : Unit {0}} → raise_if b e ≡ ok u → b ≡ false
not_raised true e h = cc
not_raised false e h = refl

evidence_row-Member :
    (conn : Ledger) (id : String) (e : EvidenceRow)
    → evidence_row conn id ≡ some e
    → Member e conn.evidence_versions × (e.evidence_version_id ≡ id)
evidence_row-Member conn id e found =
    let (is_row, same) =
      first-select-Member (λ (r : EvidenceRow). str_eq r.evidence_version_id id) e
        conn.evidence_versions found in
    (is_row, (str_eq_iff e.evidence_version_id id).0 same)

module _ (date_fromisoformat : String → Option Date) (loads_scalar : String → Option ScalarValue)
    (later : LaterVersions) (conn : Ledger) (boundary : String) where
  pub evidence_version-row :
      (id : String) (e : EvidenceVersionRow) (o : Option EvidenceRow)
      → evidence_row conn id ≡ o
      → load_evidence_version date_fromisoformat loads_scalar later conn id ≡ ok e
      → (r : EvidenceRow) × (o ≡ some r) × (r.available_at ≡ e.available_at)
  unfolding load_evidence_version
  evidence_version-row id e none q h = cc (rw (q, load_evidence_version) at h)
  evidence_version-row id e (some r) q h =
      ok_inversion (read_date date_fromisoformat loads_scalar later r.observed_at)
        (rw (q, load_evidence_version) at h)
        λ observed _ k. (r, refl, ap (λ (x : EvidenceVersionRow). x.available_at) (ok_inj k))

  evidence-not_after :
      (o : Option String) (evidence : Option EvidenceVersionRow) {u : Unit {0}}
      → load_evidence date_fromisoformat loads_scalar later conn o ≡ ok evidence
      → check_available evidence boundary ≡ ok u
      → (id : String) → o ≡ some id
      → (e : EvidenceRow) × (evidence_row conn id ≡ some e)
        × (str_lt boundary e.available_at ≡ false)
  unfolding load_evidence check_available
  evidence-not_after none evidence h c id q = cc
  evidence-not_after (some id') evidence h c id q =
      ok_inversion (load_evidence_version date_fromisoformat loads_scalar later conn id') h
        λ e e₁ h₁.
          let (r, stored, same) = evidence_version-row id' e (evidence_row conn id') refl e₁ in
          let checked =
            not_raised (is_after e.available_at boundary) _ (rw (sym (ok_inj h₁)) at c) in
          (
            r,
            ap (evidence_row conn) (sym (some_inj.0 q)) ∙ stored,
            ap (λ x. is_after x boundary) same ∙ checked,
          )

  read_value_sound :
      (o : Option String) (value : ScalarValue)
      → read_value date_fromisoformat loads_scalar later o ≡ ok value
      → ((text : String) → o ≡ some text → loads_scalar text ≡ some value)
        × (o ≡ none → value ≡ null_value)
  unfolding read_value
  read_value_sound none value h = ((λ text q. cc), (λ q. sym (ok_inj h)))
  read_value_sound (some text') value h = elim (Option-cases (loads_scalar text')) [
    | inl missing ↦ cc (rw (missing, read_value) at h)
    | inr (read, is_read) ↦
        let same = ok_inj (rw (is_read, read_value) at h) in
        ((λ text q. ap loads_scalar (sym (some_inj.0 q)) ∙ is_read ∙ ap some same), (λ q. cc))
  ]

  load_entry-IsSealed :
      (row : ContextRow) (entry : ContextInput)
      → load_entry date_fromisoformat loads_scalar later conn boundary row ≡ ok entry
      → IsSealed loads_scalar conn boundary row entry
  unfolding load_entry
  load_entry-IsSealed row entry h =
      ok_inversion
        (load_evidence date_fromisoformat loads_scalar later conn row.evidence_version_id) h
        λ evidence e₁ h₁. ok_inversion (check_available evidence boundary) h₁ λ _ e₂ h₂.
          ok_inversion (read_value date_fromisoformat loads_scalar later row.value_text) h₂
            λ value e₃ h₃. subst (IsSealed loads_scalar conn boundary row) (ok_inj h₃) (record {
              same_key = refl;
              same_availability = refl;
              same_evidence = refl;
              same_value = (read_value_sound row.value_text value e₃).0;
              no_value = (read_value_sound row.value_text value e₃).1;
              not_after = λ id named.
                  let (e, found, early) =
                    evidence-not_after row.evidence_version_id evidence e₁ e₂ id named in
                  let (is_row, same) = evidence_row-Member conn id e found in
                  (e, is_row, same, early);
            })

  load_entries-IsSealed :
      (rows : List ContextRow) {entries : List ContextInput}
      → load_entries date_fromisoformat loads_scalar later conn boundary rows ≡ ok entries
      → Pairs (IsSealed loads_scalar conn boundary) rows entries
  unfolding load_entries
  load_entries-IsSealed [] h = subst (Pairs (IsSealed loads_scalar conn boundary) []) (ok_inj h) tt
  load_entries-IsSealed (row ∷ rows) h =
      ok_inversion (load_entry date_fromisoformat loads_scalar later conn boundary row) h
        λ entry e₁ h₁.
          ok_inversion (load_entries date_fromisoformat loads_scalar later conn boundary rows) h₁
            λ entries e₂ h₂.
              subst (Pairs (IsSealed loads_scalar conn boundary) (row ∷ rows)) (ok_inj h₂)
                (load_entry-IsSealed row entry e₁, load_entries-IsSealed rows e₂)

  -- The rows are those of the table that were preserved for the decision, in the order of their keys.
  pub record ArePreserved (decision_event_id : String) (rows : List ContextRow) : Type 0 where
    pub preserved : List ContextRow
    pub are_preserved :
        Keeps
          (λ (r : ContextRow). r.decision_event_id ≡ decision_event_id)
          conn.decision_context
          preserved
    pub same_rows : Perm rows preserved
    pub by_key : Pairwise (InOrder (λ (r : ContextRow). r.input_key)) rows

  context_rows-ArePreserved :
      (id : String) → ArePreserved id (context_rows date_fromisoformat loads_scalar later conn id)
  unfolding context_rows
  context_rows-ArePreserved id =
      let is_of = λ (r : ContextRow). str_eq r.decision_event_id id in
      let key = λ (r : ContextRow). r.input_key in
      record {
        preserved = select is_of conn.decision_context;
        are_preserved =
            select-Keeps _ is_of (λ r. (str_eq_iff r.decision_event_id id).0)
              (λ r other same. cc ((str_eq_iff r.decision_event_id id).1 same))
              conn.decision_context;
        same_rows = sort_by-perm key (select is_of conn.decision_context);
        by_key = sort_by-InOrder key (select is_of conn.decision_context);
      }

  -- The context that is read for a decision of the first version has one entry for each row of the
  -- table that was preserved for this decision, and no other, by key, with the row's key, availability,
  -- value and evidence; whatever evidence an entry names is stored and did not become available after
  -- the boundary.
  pub load_context-IsSealed :
      (decision_event_id : String) (decision : DecisionRow) (entries : List ContextInput)
      → later.crm_decision decision_event_id ≡ ok none
      → legacy_decision conn decision_event_id ≡ some decision
      → load_context date_fromisoformat loads_scalar later conn decision_event_id boundary
        ≡ ok entries
      → (rows : List ContextRow) × ArePreserved decision_event_id rows
        × Pairs (IsSealed loads_scalar conn boundary) rows entries
  unfolding load_context load_preserved
  load_context-IsSealed id decision entries no_crm legacy h =
      let rows = context_rows date_fromisoformat loads_scalar later conn id in
      (
        rows,
        context_rows-ArePreserved id,
        load_entries-IsSealed rows
            (rw (legacy, load_preserved) at (rw (no_crm, load_context) at h)),
      )
