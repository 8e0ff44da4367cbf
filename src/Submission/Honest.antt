-- ===== src/Submission/Honest.antt =====
-- A run of attribution/service.py as a whole: the effective outcome versions of the snapshot, each listed
-- for what the snapshot says of it.
use flight_recorder.Base.{
  ℕ, ◌≡◌, ◌⊎◌, inl, inr, Bool, Option, none, some, List, [], ◌∷◌, ◌++◌, String, Result, ok, ok_inj,
  All-append, Member, Result-cases,
}
use mathlib.Core.Path.{subst}
use flight_recorder.Ledger.{Ledger}
use flight_recorder.Attribution.Snapshot.{ledger_maximum}
use flight_recorder.Attribution.Selection.{effective_outcome_versions}
use flight_recorder.Collector.Envelope.{Codec}
use flight_recorder.Collector.Reachable.{Reachable}
use flight_recorder.Submission.{Fate, submit}
use flight_recorder.Submission.Run.{
  AttributionRun, RunError, Round, is_already_attributed, is_not_yet_attributed, is_unchanged,
  sends, evaluate_round, perform, run_outcomes, empty_run, run_attribution,
}
use flight_recorder.Submission.Justified.{
  IsAttributed, IsUnattributed, IsUnchanged, IsSubmitted, IsJustified, ledger_maximum-IsPast,
}
use flight_recorder.Submission.Listed.{
  IsListed, IsStopped, Advances, Lists, already-Lists, not_yet-Lists, unchanged-Lists,
  submitted-Lists, submitted-IsStopped, Lists-Advances,
}
use flight_recorder.Submission.Rounds.{
  IsRound, IsKept, Proceeds, evaluate_round-IsRound, submit-IsKept, after_submission-Proceeds,
}

module _ (codec : Codec) (fates : String → List Fate) (clock : String → String × String)
    (reevaluate : Bool) (version : String) (cutoff : ℕ) where
  module _ (id : String) (ids : List String)
      (next : Ledger → AttributionRun → Ledger × Result RunError AttributionRun)
      (loop : Proceeds codec fates clock reevaluate version cutoff ids next) where
    -- A round that sends nothing lists its outcome.
    listed-Proceeds :
        (conn : Ledger) (run added run' : AttributionRun)
        → Lists id run added
        → IsKept codec fates clock reevaluate version cutoff conn added
        → (next conn added).1 ≡ ok run'
        → IsKept codec fates clock reevaluate version cutoff (next conn added).0 run'
          × Advances (id ∷ ids) run run'
    listed-Proceeds conn run added run' lists k h =
        let (k', advances) = loop conn added run' k h in
        (k', Lists-Advances id ids run added lists run' advances)

    perform-Proceeds :
        (conn : Ledger) (run run' : AttributionRun) (round : Round)
        → IsRound codec fates clock reevaluate version cutoff conn id round
        → IsKept codec fates clock reevaluate version cutoff conn run
        → (perform codec fates clock reevaluate version cutoff next conn run id round).1 ≡ ok run'
        → IsKept codec fates clock reevaluate version cutoff
            (perform codec fates clock reevaluate version cutoff next conn run id round).0
            run'
          × Advances (id ∷ ids) run run'
    unfolding perform
    perform-Proceeds conn run run' is_already_attributed is_round (reachable, past, j) h =
        listed-Proceeds conn run _ run' (already-Lists id run)
          (
            reachable,
            past,
            record {
              attributed =
                  All-append (IsAttributed codec reevaluate version cutoff conn)
                    run.already_attributed (id ∷ []) j.attributed (is_round, tt);
              unattributed = j.unattributed;
              unchanged = j.unchanged;
              submitted = j.submitted;
            },
          )
          h
    perform-Proceeds conn run run' is_not_yet_attributed is_round (reachable, past, j) h =
        listed-Proceeds conn run _ run' (not_yet-Lists id run)
          (
            reachable,
            past,
            record {
              attributed = j.attributed;
              unattributed =
                  All-append (IsUnattributed codec reevaluate version cutoff conn)
                    run.not_yet_attributed (id ∷ []) j.unattributed (is_round, tt);
              unchanged = j.unchanged;
              submitted = j.submitted;
            },
          )
          h
    perform-Proceeds conn run run' is_unchanged is_round (reachable, past, j) h =
        listed-Proceeds conn run _ run' (unchanged-Lists id run)
          (
            reachable,
            past,
            record {
              attributed = j.attributed;
              unattributed = j.unattributed;
              unchanged =
                  All-append (IsUnchanged codec reevaluate version cutoff conn) run.unchanged
                    (id ∷ []) j.unchanged (is_round, tt);
              submitted = j.submitted;
            },
          )
          h
    perform-Proceeds conn run run' (sends e) is_round (reachable, past, j) h =
        let sent = (submit codec conn e (fates id)).1 in
        let added : AttributionRun = record run {
          submissions = run.submissions ++ (id, e, sent) ∷ [];
        } in
        let justified : IsJustified codec reevaluate version cutoff conn added = record {
          attributed = j.attributed;
          unattributed = j.unattributed;
          unchanged = j.unchanged;
          submitted =
              All-append (IsSubmitted codec reevaluate version cutoff conn) run.submissions
                ((id, e, sent) ∷ []) j.submitted (is_round sent, tt);
        } in
        after_submission-Proceeds codec fates clock reevaluate version cutoff id ids next
          (submit codec conn e (fates id)).0 run added run' sent loop
          (submitted-Lists run (id, e, sent)) (submitted-IsStopped run (id, e, sent))
          (submit-IsKept codec fates clock reevaluate version cutoff conn e added (fates id)
            (reachable, past, justified))
          h

  run_outcomes-Proceeds :
      (ids : List String)
      → Proceeds codec fates clock reevaluate version cutoff ids
          (run_outcomes codec fates clock reevaluate version cutoff ids)
  unfolding run_outcomes
  run_outcomes-Proceeds [] conn run run' k h =
      subst (λ r. IsKept codec fates clock reevaluate version cutoff conn r × Advances [] run r)
        (ok_inj h)
        (k, record { keeps = λ id m. m; only = λ id m. inl m; all = inr (λ id m. absurd m.1) })
  run_outcomes-Proceeds (id ∷ ids) conn run run' k h =
      elim (Result-cases (evaluate_round codec fates clock reevaluate version cutoff conn id)) [
        | inl (round, is_round) ↦
            rw (is_round, run_outcomes)
              (perform-Proceeds id ids
                (run_outcomes codec fates clock reevaluate version cutoff ids)
                (run_outcomes-Proceeds ids) conn run run' round
                (evaluate_round-IsRound codec fates clock reevaluate version cutoff conn id
                  is_round)
                k (rw (is_round, run_outcomes) at h))
        | inr (e, failed) ↦ cc (rw (failed, run_outcomes) at h)
      ]

not-IsListed :
    (cutoff : Option ℕ) (reevaluate : Bool) (id : String)
    → ¬ IsListed (empty_run cutoff reevaluate) id
not-IsListed cutoff reevaluate id (inl m) = m.1
not-IsListed cutoff reevaluate id (inr (inl m)) = m.1
not-IsListed cutoff reevaluate id (inr (inr (inl m))) = m.1
not-IsListed cutoff reevaluate id (inr (inr (inr m))) = m.1

-- What a completed run is to the ledgers before and behind it.
pub record IsHonest (codec : Codec) (reevaluate : Bool) (version : String) (cutoff : ℕ)
    (conn after : Ledger) (run : AttributionRun) : Type 0 where
  pub is_reachable : Reachable codec after
  pub is_justified : IsJustified codec reevaluate version cutoff after run
  pub ids : List String
  pub are_effective : effective_outcome_versions conn cutoff none ≡ ok ids
  pub only : (id : String) → IsListed run id → Member id ids
  pub all : IsStopped run ⊎ ((id : String) → Member id ids → IsListed run id)

-- A run of the command that returns, on a reachable ledger with a newest event, lists only effective
-- outcome versions of the snapshot at that event, and all of them unless a submission was answered with
-- an error. The ledger behind the run is reachable, and there, at the run's cutoff: each outcome listed
-- as already attributed has an effective attribution, in an initial run; each listed as not yet
-- attributed has none, in a reevaluation; each listed as unchanged has one with what the policy answers,
-- in a reevaluation; and each submission is for an outcome that has none, in an initial run, or has one
-- that differs from what the policy answers, in a reevaluation, states the policy's result under the
-- outcome's account, and replaces the attribution that it found.
pub run_attribution-IsHonest :
    (codec : Codec) (fates : String → List Fate) (clock : String → String × String)
    (reevaluate : Bool) (version : String) (conn : Ledger) (cutoff : ℕ) (run : AttributionRun)
    → Reachable codec conn
    → ledger_maximum conn ≡ some cutoff
    → (run_attribution codec fates clock reevaluate version conn).1 ≡ ok run
    → IsHonest codec reevaluate version cutoff conn
        (run_attribution codec fates clock reevaluate version conn).0
        run
unfolding run_attribution
run_attribution-IsHonest codec fates clock reevaluate version conn cutoff run reachable newest h =
    elim (Result-cases (effective_outcome_versions conn cutoff none)) [
      | inl (ids, are_ids) ↦
          let (kept, advances) =
            run_outcomes-Proceeds codec fates clock reevaluate version cutoff ids conn
              (empty_run (some cutoff) reevaluate) run
              (
                reachable,
                ledger_maximum-IsPast conn cutoff newest,
                record { attributed = tt; unattributed = tt; unchanged = tt; submitted = tt },
              )
              (rw (newest, are_ids, run_attribution) at h) in
          rw (newest, are_ids, run_attribution)
            (record {
              is_reachable = kept.0;
              is_justified = kept.2;
              ids = ids;
              are_effective = are_ids;
              only = λ id m. elim (advances.only id m) [
                | inl before ↦ absurd (not-IsListed (some cutoff) reevaluate id before)
                | inr now ↦ now
              ];
              all = advances.all;
            })
      | inr (e, failed) ↦ cc (rw (newest, failed, run_attribution) at h)
    ]
