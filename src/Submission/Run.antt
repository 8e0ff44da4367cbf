-- ===== src/Submission/Run.antt =====
-- `_run` of attribution/service.py: one command over the effective outcome versions of a snapshot.
use flight_recorder.Base.{
  ℕ, Bool, Option, none, some, List, [], ◌∷◌, ◌++◌, String, if◌then◌else◌, Result, ok, err, ◌>>=◌,
}
use flight_recorder.Rules.{int_value}
use flight_recorder.Base.Int.{pos}
use flight_recorder.Ledger.{Ledger, StoredAttribution}
use flight_recorder.Attribution.Records.{AttributionError}
use flight_recorder.Attribution.Snapshot.{ledger_maximum, load_outcome}
use flight_recorder.Attribution.Attribute.{attribute}
use flight_recorder.Attribution.Selection.{effective_attribution, effective_outcome_versions}
use flight_recorder.Collector.Envelope.{Envelope, Codec}
use flight_recorder.Submission.{
  Fate, Sent, gave_up, failed_on_server, answer, same_policy_result, build_envelope, submit,
}

pub record AttributionRun : Type 0 where
  pub cutoff : Option ℕ
  pub reevaluate : Bool
  pub submissions : List (String × Envelope × Sent)
  pub unchanged : List String
  pub already_attributed : List String
  pub not_yet_attributed : List String

-- The exceptions that end a run.
pub data RunError : Type 0 where
  policy_error : AttributionError → RunError
  transport_lost : RunError

-- What a round of the loop comes to before the submission.
pub data Round : Type 0 where
  is_already_attributed is_not_yet_attributed is_unchanged : Round
  sends : Envelope → Round

module _ (codec : Codec) (fates : String → List Fate) (clock : String → String × String)
    (reevaluate : Bool) (version : String) (cutoff : ℕ) where
  -- The result, the account and the envelope of a round that computes.
  unfoldable pub computed :
      Ledger → String → Option StoredAttribution → Result AttributionError Round
  computed conn id existing = do
    result ← attribute codec.fromisoformat conn id (int_value (pos cutoff)) version
    outcome ← load_outcome conn id cutoff
    ok (elim existing [
      | none ↦
          sends (build_envelope codec result outcome.account_ref (clock id).0 (clock id).1 none)
      | some row ↦
          if same_policy_result result row
          then is_unchanged
          else sends (
              build_envelope codec result outcome.account_ref (clock id).0 (clock id).1
                (some row.attribution_event_id))
    ])

  unfoldable pub decide : Ledger → String → Option StoredAttribution → Result AttributionError Round
  decide conn id none = if reevaluate then ok is_not_yet_attributed else computed conn id none
  decide conn id (some row) =
      if reevaluate then computed conn id (some row) else ok is_already_attributed

  unfoldable pub evaluate_round : Ledger → String → Result AttributionError Round
  evaluate_round conn id = do
    existing ← effective_attribution conn id version cutoff
    decide conn id existing

  -- The rest of the loop behind a submission, which an error status ends.
  unfoldable pub after_submission :
      (Ledger → AttributionRun → Ledger × Result RunError AttributionRun)
      → Ledger
      → AttributionRun
      → Sent
      → Ledger × Result RunError AttributionRun
  after_submission next conn run gave_up = (conn, err transport_lost)
  after_submission next conn run failed_on_server = (conn, ok run)
  after_submission next conn run (answer (err refusal)) = (conn, ok run)
  after_submission next conn run (answer (ok result)) = next conn run

  -- A round of the loop, with the rest of it.
  unfoldable pub perform :
      (Ledger → AttributionRun → Ledger × Result RunError AttributionRun)
      → Ledger
      → AttributionRun
      → String
      → Round
      → Ledger × Result RunError AttributionRun
  perform next conn run id is_already_attributed =
      next conn (record run { already_attributed = run.already_attributed ++ id ∷ [] })
  perform next conn run id is_not_yet_attributed =
      next conn (record run { not_yet_attributed = run.not_yet_attributed ++ id ∷ [] })
  perform next conn run id is_unchanged =
      next conn (record run { unchanged = run.unchanged ++ id ∷ [] })
  perform next conn run id (sends e) =
      let (after, sent) = submit codec conn e (fates id) in
      after_submission next after
        (record run { submissions = run.submissions ++ (id, e, sent) ∷ [] }) sent

  unfoldable pub run_outcomes :
      List String → Ledger → AttributionRun → Ledger × Result RunError AttributionRun
  run_outcomes [] conn run = (conn, ok run)
  run_outcomes (id ∷ ids) conn run = elim (evaluate_round conn id) [
    | err e ↦ (conn, err (policy_error e))
    | ok round ↦ perform (run_outcomes ids) conn run id round
  ]

-- The whole command: the cutoff and the outcome versions are read once, at its start.
abbrev pub empty_run : Option ℕ → Bool → AttributionRun
empty_run cutoff reevaluate = record {
  cutoff = cutoff;
  reevaluate = reevaluate;
  submissions = [];
  unchanged = [];
  already_attributed = [];
  not_yet_attributed = [];
}

unfoldable pub run_attribution :
    Codec
    → (String → List Fate)
    → (String → String × String)
    → Bool
    → String
    → Ledger
    → Ledger × Result RunError AttributionRun
run_attribution codec fates clock reevaluate version conn = elim (ledger_maximum conn) [
  | none ↦ (conn, ok (empty_run none reevaluate))
  | some cutoff ↦ elim (effective_outcome_versions conn cutoff none) [
    | err e ↦ (conn, err (policy_error e))
    | ok ids ↦
        run_outcomes codec fates clock reevaluate version cutoff ids conn
          (empty_run (some cutoff) reevaluate)
  ]
]
