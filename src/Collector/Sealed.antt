-- ===== src/Collector/Sealed.antt =====
-- `_validate_decision` of collector/projections.py, and the evidence that a stored decision rests on.
pub mod Decisions
use flight_recorder.Base.{
  ◌≡◌, refl, sym, ap, Bool, true, false, not, Option, none, some, List, [], ◌∷◌, ◌++◌, map, first,
  first-select-append, select, All, All-append, All-split, All-weaken, String, str_eq, str_eq_iff,
  Result, ok, err, ok_inversion, raise_if-passed, raise_if-not_raised, Bool-cases, Option-cases,
  inl, inr,
}
use flight_recorder.Base.Text.{str_lt}
use flight_recorder.Rules.{ScalarValue}
use flight_recorder.Ledger.{Ledger, EventRow, EvidenceRow, DecisionRow, ContextRow, ConsumedRow}
use flight_recorder.Ledger.Growth.{Adds, Grows}
use flight_recorder.Collector.Envelope.{
  Codec, Envelope, IngestError, rejected, unreadable_value, HistoricalContextEntry, ConsumedInput,
  DecisionRecordedPayload, same_scalar,
}
use flight_recorder.Collector.References.{
  or_rejected, or_rejected-found, reject_if, evidence_with, decision_with, validate_reference,
  validate_references_of, validate_decision, decision_references, context_references, artifact_with,
}
use flight_recorder.Collector.Project.{context_row, consumed_row}

-- The evidence version is stored, of the decision's account and of the type of the input; it was
-- available no later than the decision's boundary; and its value is this one.
pub record RestsOn (codec : Codec) (conn : Ledger) (account_ref boundary input_key : String)
    (version_id : Option String) (value : ScalarValue) : Type 0 where
  pub evidence : EvidenceRow
  pub is_stored : evidence_with conn version_id ≡ some evidence
  pub same_account : evidence.account_ref ≡ account_ref
  pub not_after : str_lt boundary evidence.available_at ≡ false
  pub same_type : evidence.evidence_type ≡ input_key
  pub stored : ScalarValue
  pub reads : codec.loads_value evidence.value_json ≡ some stored
  pub same_value : same_scalar value stored ≡ true

-- An input of a stored decision, at the account and the boundary of its row.
abbrev pub Rests : Codec → Ledger → String → String → Option String → ScalarValue → Type 0
Rests codec conn decision_event_id input_key version_id value =
    (decision : DecisionRow) × (decision_with conn decision_event_id ≡ some decision)
    × RestsOn codec conn decision.account_ref decision.decision_boundary input_key version_id value

abbrev pub ContextRests : Codec → Ledger → ContextRow → Type 0
ContextRests codec conn row =
    row.availability ≡ "available"
    → (value : ScalarValue) × (row.value_text ≡ some (codec.scalar_text value))
      × Rests codec conn row.decision_event_id row.input_key row.evidence_version_id value

abbrev pub ConsumedRests : Codec → Ledger → ConsumedRow → Type 0
ConsumedRests codec conn row =
    (value : ScalarValue) × (row.value_text ≡ codec.scalar_text value)
    × Rests codec conn row.decision_event_id row.input_key (some row.evidence_version_id) value

pub record IsSealed (codec : Codec) (conn : Ledger) : Type 0 where
  pub context : All (ContextRests codec conn) conn.decision_context
  pub consumed : All (ConsumedRests codec conn) conn.decision_consumed_inputs

module _ (codec : Codec) {conn conn' : Ledger} {e : EventRow} (grown : Grows conn conn' e) where
  evidence_with-grown :
      (version_id : Option String) {row : EvidenceRow}
      → evidence_with conn version_id ≡ some row
      → evidence_with conn' version_id ≡ some row
  evidence_with-grown none h = cc
  evidence_with-grown (some id) h = rw (grown.evidence_versions.is_append) (
      first-select-append (λ (r : EvidenceRow). str_eq r.evidence_version_id id)
        conn.evidence_versions grown.evidence_versions.added h)

  pub RestsOn-grown :
      (account_ref boundary input_key : String) (version_id : Option String) (value : ScalarValue)
      → RestsOn codec conn account_ref boundary input_key version_id value
      → RestsOn codec conn' account_ref boundary input_key version_id value
  RestsOn-grown account_ref boundary input_key version_id value h = record {
    evidence = h.evidence;
    is_stored = evidence_with-grown version_id h.is_stored;
    same_account = h.same_account;
    not_after = h.not_after;
    same_type = h.same_type;
    stored = h.stored;
    reads = h.reads;
    same_value = h.same_value;
  }

  pub Rests-grown :
      (id input_key : String) (version_id : Option String) (value : ScalarValue)
      → Rests codec conn id input_key version_id value
      → Rests codec conn' id input_key version_id value
  Rests-grown id input_key version_id value (decision, found, rests) = (
    decision,
    rw (grown.decisions.is_append) (
        first-select-append (λ (d : DecisionRow). str_eq d.decision_event_id id) conn.decisions
          grown.decisions.added found),
    RestsOn-grown decision.account_ref decision.decision_boundary input_key version_id value rests,
  )

  pub old-rests :
      IsSealed codec conn
      → All (ContextRests codec conn') conn.decision_context
        × All (ConsumedRests codec conn') conn.decision_consumed_inputs
  old-rests h = (
    All-weaken (ContextRests codec conn) (ContextRests codec conn')
        (λ row rests available.
          let (value, text, there) = rests available in
          (
            value,
            text,
            Rests-grown row.decision_event_id row.input_key row.evidence_version_id value there,
          ))
        conn.decision_context h.context,
    All-weaken (ConsumedRests codec conn) (ConsumedRests codec conn')
        (λ row (value, text, there). (
          value,
          text,
          Rests-grown row.decision_event_id row.input_key (some row.evidence_version_id) value
              there,
        ))
        conn.decision_consumed_inputs h.consumed,
  )

-- The checks of the collector on one reference, and on all of a decision.
module _ (codec : Codec) (conn : Ledger) (e : Envelope) where
  abbrev pub Checked : String → String × Option String × ScalarValue → Type 0
  Checked boundary (input_key, version_id, value) =
      RestsOn codec conn e.account_ref boundary input_key version_id value

  validate_reference-Checked :
      (boundary : String) (x : String × Option String × ScalarValue)
      → validate_reference codec conn e boundary x ≡ ok tt
      → Checked boundary x
  unfolding validate_reference
  validate_reference-Checked boundary (input_key, version_id, value) h =
      ok_inversion (or_rejected (evidence_with conn version_id) "unknown_evidence_version") h
        λ row e₀ h₀.
          ok_inversion (reject_if (not (str_eq row.account_ref e.account_ref)) _) h₀ λ _ e₁ h₁.
            ok_inversion (reject_if (str_lt boundary row.available_at) _) h₁ λ _ e₂ h₂.
              ok_inversion (reject_if (not (str_eq row.evidence_type input_key)) _) h₂ λ _ e₃ h₃.
                elim (Option-cases (codec.loads_value row.value_json)) [
                  | inl missing ↦ absurd (cc (rw missing at h₃))
                  | inr (stored, reads) ↦ record {
                    evidence = row;
                    is_stored = or_rejected-found (evidence_with conn version_id) _ e₀;
                    same_account =
                        (str_eq_iff row.account_ref e.account_ref).0
                          (raise_if-passed (str_eq row.account_ref e.account_ref) _ e₁);
                    not_after = raise_if-not_raised (str_lt boundary row.available_at) _ e₂;
                    same_type =
                        (str_eq_iff row.evidence_type input_key).0
                          (raise_if-passed (str_eq row.evidence_type input_key) _ e₃);
                    stored = stored;
                    reads = reads;
                    same_value = raise_if-passed (same_scalar value stored) _ (rw reads at h₃);
                  }
                ]

  validate_references_of-Checked :
      (boundary : String) (xs : List (String × Option String × ScalarValue))
      → validate_references_of codec conn e boundary xs ≡ ok tt
      → All (Checked boundary) xs
  unfolding validate_references_of
  validate_references_of-Checked boundary [] h = tt
  validate_references_of-Checked boundary (x ∷ xs) h =
      ok_inversion (validate_reference codec conn e boundary x) h λ _ e₀ h₀.
        (validate_reference-Checked boundary x e₀, validate_references_of-Checked boundary xs h₀)

  pub validate_decision-Checked :
      (payload : DecisionRecordedPayload)
      → validate_decision codec conn e payload ≡ ok tt
      → All (Checked payload.decision_boundary) (decision_references payload)
  unfolding validate_decision
  validate_decision-Checked payload h =
      ok_inversion
        (validate_references_of codec conn e payload.decision_boundary
          (decision_references payload))
        h
        λ _ e₀ _.
          validate_references_of-Checked payload.decision_boundary (decision_references payload) e₀
