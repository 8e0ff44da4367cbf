-- ===== src/Submission/Rounds.antt =====
-- The rounds of a run of attribution/service.py: what each lists, and what it sends.
use flight_recorder.Base.{
  take, ℕ, ◌≡◌, refl, sym, ◌⊎◌, inl, inr, Bool, true, false, Option, none, some, List, ◌∷◌, String,
  Result, ok, err, ok_inversion, ok_inj, if◌then◌else◌,
}
use mathlib.Core.Path.{subst}
use flight_recorder.Base.Int.{pos}
use flight_recorder.Rules.{int_value}
use flight_recorder.Ledger.{Ledger, StoredAttribution}
use flight_recorder.Attribution.Records.{AttributionResult}
use flight_recorder.Attribution.Snapshot.{load_outcome}
use flight_recorder.Attribution.Attribute.{attribute}
use flight_recorder.Attribution.Selection.{effective_attribution}
use flight_recorder.Collector.Envelope.{Envelope, Codec}
use flight_recorder.Collector.Reachable.{Reachable, delivered}
use flight_recorder.Submission.{
  Fate, Sent, gave_up, failed_on_server, answer, same_policy_result, build_envelope, carried,
  submit, submit_attempts,
}
use flight_recorder.Submission.Once.{reaches, submit-once}
use flight_recorder.Submission.Same.{same_policy_result-iff_IsResult}
use flight_recorder.Submission.Run.{
  AttributionRun, RunError, Round, is_already_attributed, is_not_yet_attributed, is_unchanged,
  sends, computed, decide, evaluate_round, after_submission,
}
use flight_recorder.Collector.Attested.{IsResult}
use flight_recorder.Submission.Justified.{
  replaced, States, IsPast, IsAttributed, IsUnattributed, IsUnchanged, IsSubmitted, IsJustified,
  IsJustified-ingest,
}
use flight_recorder.Submission.Listed.{
  Refuses, IsStopped, Advances, Lists, Lists-Advances, Lists-stopped,
}

if_inversion :
    {A : Type 0} (b : Bool) {x y z : A}
    → (if b then x else y) ≡ z
    → ((b ≡ true) × (x ≡ z)) ⊎ ((b ≡ false) × (y ≡ z))
if_inversion true h = inl (refl, h)
if_inversion false h = inr (refl, h)

not_same :
    (r : AttributionResult) (row : StoredAttribution)
    → same_policy_result r row ≡ false
    → ¬ IsResult row r
not_same r row differs same = cc ((same_policy_result-iff_IsResult r row).1 same)

module _ (codec : Codec) (fates : String → List Fate) (clock : String → String × String)
    (reevaluate : Bool) (version : String) (cutoff : ℕ) where
  -- What a round comes to is what the snapshot says of the outcome.
  abbrev pub IsRound : Ledger → String → Round → Type 0
  IsRound conn id is_already_attributed = IsAttributed codec reevaluate version cutoff conn id
  IsRound conn id is_not_yet_attributed = IsUnattributed codec reevaluate version cutoff conn id
  IsRound conn id is_unchanged = IsUnchanged codec reevaluate version cutoff conn id
  IsRound conn id (sends e) =
      (sent : Sent) → IsSubmitted codec reevaluate version cutoff conn (id, e, sent)

  built-States :
      (result : AttributionResult) (account_ref at recorded : String)
      (existing : Option StoredAttribution)
      → States
          (build_envelope codec result account_ref at recorded (replaced existing))
          result
          account_ref
          existing
  unfolding build_envelope
  built-States result account_ref at recorded existing = record {
    payload = record {
      outcome_event_id = result.outcome_event_id;
      policy_version = result.policy_version;
      method = result.method;
      window_days = result.window_days;
      resolved_action_event_id = result.resolved_action_event_id;
      resolved_decision_event_id = result.resolved_decision_event_id;
      status = result.status;
      reason = result.reason;
      attributed_at = at;
      ingest_cutoff = pos result.cutoff;
      supersedes_attribution_event_id = replaced existing;
    };
    is_payload = refl;
    same_account = refl;
    same_outcome = refl;
    same_policy = refl;
    same_method = refl;
    same_window = refl;
    same_action = refl;
    same_decision = refl;
    same_status = refl;
    same_reason = refl;
    at_cutoff = refl;
    replaces = refl;
  }

  module _ (conn : Ledger) (id : String) where
    first-IsRound :
        {round : Round}
        → reevaluate ≡ false
        → effective_attribution conn id version cutoff ≡ ok none
        → computed codec fates clock reevaluate version cutoff conn id none ≡ ok round
        → IsRound conn id round
    unfolding computed
    first-IsRound initial found h =
        ok_inversion (attribute codec.fromisoformat conn id (int_value (pos cutoff)) version) h
          λ result e₁ h₁. ok_inversion (load_outcome conn id cutoff) h₁ λ outcome e₂ h₂.
            subst (IsRound conn id) (ok_inj h₂) (λ sent. record {
              existing = none;
              result = result;
              outcome = outcome;
              is_existing = found;
              is_due = initial;
              is_result = e₁;
              is_outcome = e₂;
              states = built-States result outcome.account_ref (clock id).0 (clock id).1 none;
            })

    again-IsRound :
        (row : StoredAttribution) {round : Round}
        → reevaluate ≡ true
        → effective_attribution conn id version cutoff ≡ ok (some row)
        → computed codec fates clock reevaluate version cutoff conn id (some row) ≡ ok round
        → IsRound conn id round
    unfolding computed
    again-IsRound row again found h =
        ok_inversion (attribute codec.fromisoformat conn id (int_value (pos cutoff)) version) h
          λ result e₁ h₁. ok_inversion (load_outcome conn id cutoff) h₁ λ outcome e₂ h₂.
            elim (if_inversion (same_policy_result result row) (ok_inj h₂)) [
              | inl (same, is_round) ↦
                  let equal = (same_policy_result-iff_IsResult result row).0 same in
                  subst (IsRound conn id) is_round (again, row, result, found, e₁, equal)
              | inr (differs, is_round) ↦ subst (IsRound conn id) is_round (λ sent. record {
                existing = some row;
                result = result;
                outcome = outcome;
                is_existing = found;
                is_due = (again, not_same result row differs);
                is_result = e₁;
                is_outcome = e₂;
                states =
                    built-States result outcome.account_ref (clock id).0 (clock id).1 (some row);
              })
            ]

    decide-IsRound :
        (existing : Option StoredAttribution) {round : Round}
        → effective_attribution conn id version cutoff ≡ ok existing
        → decide codec fates clock reevaluate version cutoff conn id existing ≡ ok round
        → IsRound conn id round
    unfolding decide
    decide-IsRound none found h = elim (if_inversion reevaluate h) [
      | inl (again, is_round) ↦ subst (IsRound conn id) (ok_inj is_round) (again, found)
      | inr (initial, is_round) ↦ first-IsRound initial found is_round
    ]
    decide-IsRound (some row) found h = elim (if_inversion reevaluate h) [
      | inl (again, is_round) ↦ again-IsRound row again found is_round
      | inr (initial, is_round) ↦ subst (IsRound conn id) (ok_inj is_round) (initial, row, found)
    ]

    pub evaluate_round-IsRound :
        {round : Round}
        → evaluate_round codec fates clock reevaluate version cutoff conn id ≡ ok round
        → IsRound conn id round
    unfolding evaluate_round
    evaluate_round-IsRound h =
        ok_inversion (effective_attribution conn id version cutoff) h
          λ existing found k. decide-IsRound existing found k

  abbrev pub IsKept : Ledger → AttributionRun → Type 0
  IsKept conn run =
      Reachable codec conn
      × IsPast cutoff conn
      × IsJustified codec reevaluate version cutoff conn run

  carried-IsKept :
      (b : Bool) (conn : Ledger) (e : Envelope) (run : AttributionRun)
      → IsKept conn run
      → IsKept (carried codec b conn e) run
  carried-IsKept false conn e run k = k
  carried-IsKept true conn e run (reachable, past, j) =
      let (past', j') =
        IsJustified-ingest codec reevaluate version cutoff conn e run reachable past j in
      (delivered reachable e, past', j')

  pub submit-IsKept :
      (conn : Ledger) (e : Envelope) (run : AttributionRun) (fs : List Fate)
      → IsKept conn run
      → IsKept (submit codec conn e fs).0 run
  submit-IsKept conn e run fs k =
      subst (λ c. IsKept c run) (sym (submit-once codec conn e fs))
        (carried-IsKept (reaches (take submit_attempts fs)) conn e run k)

  -- A loop that ends with a run ends with a justified one that lists these versions.
  abbrev pub Proceeds :
      List String → (Ledger → AttributionRun → Ledger × Result RunError AttributionRun) → Type 0
  Proceeds ids next =
      (conn : Ledger) (run run' : AttributionRun)
      → IsKept conn run
      → (next conn run).1 ≡ ok run'
      → IsKept (next conn run).0 run' × Advances ids run run'

  pub after_submission-Proceeds :
      (id : String) (ids : List String)
      (next : Ledger → AttributionRun → Ledger × Result RunError AttributionRun) (conn : Ledger)
      (run added run' : AttributionRun) (sent : Sent)
      → Proceeds ids next
      → Lists id run added
      → (Refuses sent → IsStopped added)
      → IsKept conn added
      → (after_submission codec fates clock reevaluate version cutoff next conn added sent).1
        ≡ ok run'
      → IsKept
          (after_submission codec fates clock reevaluate version cutoff next conn added sent).0
          run'
        × Advances (id ∷ ids) run run'
  unfolding after_submission
  after_submission-Proceeds id ids next conn run added run' gave_up loop lists stops k h = cc
  after_submission-Proceeds id ids next conn run added run' failed_on_server loop lists stops k h =
      subst (λ r. IsKept conn r × Advances (id ∷ ids) run r) (ok_inj h)
        (k, Lists-stopped id ids run added lists (stops tt))
  after_submission-Proceeds id ids next conn run added run' (answer (err refusal)) loop lists stops
        k h =
      subst (λ r. IsKept conn r × Advances (id ∷ ids) run r) (ok_inj h)
        (k, Lists-stopped id ids run added lists (stops tt))
  after_submission-Proceeds id ids next conn run added run' (answer (ok result)) loop lists stops k
        h =
      let (k', advances) = loop conn added run' k h in
      (k', Lists-Advances id ids run added lists run' advances)
