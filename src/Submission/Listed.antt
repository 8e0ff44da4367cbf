-- ===== src/Submission/Listed.antt =====
-- Which outcome versions the lists of a run of attribution/service.py hold.
use flight_recorder.Base.{
  ◌≡◌, refl, sym, ◌⊎◌, inl, inr, List, [], ◌∷◌, ◌++◌, map, String, ok, err, Member,
}
use mathlib.Core.Path.{subst}
use mathlib.Core.List.{map-append}
use flight_recorder.Base.Members.{Member-append, Member-append-left, Member-append-right}
use flight_recorder.Collector.Envelope.{Envelope}
use flight_recorder.Submission.{Sent, gave_up, failed_on_server, answer}
use flight_recorder.Submission.Run.{AttributionRun}

abbrev pub outcome_of : String × Envelope × Sent → String
outcome_of item = item.0

-- One of the run's lists has the outcome version.
abbrev pub IsListed : AttributionRun → String → Type 0
IsListed run id =
    Member id run.already_attributed
    ⊎ (Member id run.not_yet_attributed
        ⊎ (Member id run.unchanged ⊎ Member id (map outcome_of run.submissions)))

-- An answer with an error status.
abbrev pub Refuses : Sent → Type 0
Refuses (answer (ok result)) = ⊥
Refuses (answer (err refusal)) = Unit
Refuses gave_up = Unit
Refuses failed_on_server = Unit

-- The collector answered a submission of the run with an error status.
abbrev pub IsStopped : AttributionRun → Type 0
IsStopped run = (item : String × Envelope × Sent) × Member item run.submissions × Refuses item.2

-- The later run lists these versions in addition and no others, unless a submission was refused.
pub record Advances (ids : List String) (run run' : AttributionRun) : Type 0 where
  pub keeps : (id : String) → IsListed run id → IsListed run' id
  pub only : (id : String) → IsListed run' id → IsListed run id ⊎ Member id ids
  pub all : IsStopped run' ⊎ ((id : String) → Member id ids → IsListed run' id)

-- The later run lists one version in addition.
pub record Lists (id : String) (run run' : AttributionRun) : Type 0 where
  pub keeps : (x : String) → IsListed run x → IsListed run' x
  pub only : (x : String) → IsListed run' x → IsListed run x ⊎ (id ≡ x)
  pub listed : IsListed run' id

module _ {A : Type 0} (x a : A) (xs : List A) where
  Member-last : Member x (xs ++ a ∷ []) → Member x xs ⊎ (a ≡ x)
  Member-last m = elim (Member-append x xs (a ∷ []) m) [
    | inl before ↦ inl before
    | inr last ↦ elim last [ inl e ↦ inr e | inr more ↦ absurd more.1 ]
  ]

last-Member : {A : Type 0} (a : A) (xs : List A) → Member a (xs ++ a ∷ [])
last-Member a xs = Member-append-right a xs (a ∷ []) (inl refl)

pub already-Lists :
    (id : String) (run : AttributionRun)
    → Lists id run (record run { already_attributed = run.already_attributed ++ id ∷ [] })
already-Lists id run = record {
  keeps = λ x h. elim h [
    | inl m ↦ inl (Member-append-left x run.already_attributed (id ∷ []) m)
    | inr m ↦ inr m
  ];
  only = λ x h. elim h [
    | inl m ↦ elim (Member-last x id run.already_attributed m) [
      | inl m' ↦ inl (inl m')
      | inr e ↦ inr e
    ]
    | inr m ↦ inl (inr m)
  ];
  listed = inl (last-Member id run.already_attributed);
}

pub not_yet-Lists :
    (id : String) (run : AttributionRun)
    → Lists id run (record run { not_yet_attributed = run.not_yet_attributed ++ id ∷ [] })
not_yet-Lists id run = record {
  keeps = λ x h. elim h [
    | inl m ↦ inl m
    | inr (inl m) ↦ inr (inl (Member-append-left x run.not_yet_attributed (id ∷ []) m))
    | inr (inr m) ↦ inr (inr m)
  ];
  only = λ x h. elim h [
    | inl m ↦ inl (inl m)
    | inr (inl m) ↦ elim (Member-last x id run.not_yet_attributed m) [
      | inl m' ↦ inl (inr (inl m'))
      | inr e ↦ inr e
    ]
    | inr (inr m) ↦ inl (inr (inr m))
  ];
  listed = inr (inl (last-Member id run.not_yet_attributed));
}

pub unchanged-Lists :
    (id : String) (run : AttributionRun)
    → Lists id run (record run { unchanged = run.unchanged ++ id ∷ [] })
unchanged-Lists id run = record {
  keeps = λ x h. elim h [
    | inl m ↦ inl m
    | inr (inl m) ↦ inr (inl m)
    | inr (inr (inl m)) ↦ inr (inr (inl (Member-append-left x run.unchanged (id ∷ []) m)))
    | inr (inr (inr m)) ↦ inr (inr (inr m))
  ];
  only = λ x h. elim h [
    | inl m ↦ inl (inl m)
    | inr (inl m) ↦ inl (inr (inl m))
    | inr (inr (inl m)) ↦ elim (Member-last x id run.unchanged m) [
      | inl m' ↦ inl (inr (inr (inl m')))
      | inr e ↦ inr e
    ]
    | inr (inr (inr m)) ↦ inl (inr (inr (inr m)))
  ];
  listed = inr (inr (inl (last-Member id run.unchanged)));
}

module _ (run : AttributionRun) (item : String × Envelope × Sent) where
  added :
      map outcome_of (run.submissions ++ item ∷ []) ≡ map outcome_of run.submissions ++ item.0 ∷ []
  added = map-append outcome_of run.submissions (item ∷ [])

  pub submitted-Lists : Lists item.0 run (record run { submissions = run.submissions ++ item ∷ [] })
  submitted-Lists = record {
    keeps = λ x h. elim h [
      | inl m ↦ inl m
      | inr (inl m) ↦ inr (inl m)
      | inr (inr (inl m)) ↦ inr (inr (inl m))
      | inr (inr (inr m)) ↦ inr (
          inr (
            inr (
              subst (Member x) (sym added)
                (Member-append-left x (map outcome_of run.submissions) (item.0 ∷ []) m))))
    ];
    only = λ x h. elim h [
      | inl m ↦ inl (inl m)
      | inr (inl m) ↦ inl (inr (inl m))
      | inr (inr (inl m)) ↦ inl (inr (inr (inl m)))
      | inr (inr (inr m)) ↦
          elim (Member-last x item.0 (map outcome_of run.submissions) (subst (Member x) added m)) [
            | inl m' ↦ inl (inr (inr (inr m')))
            | inr e ↦ inr e
          ]
    ];
    listed = inr (
        inr (
          inr (
            subst (Member item.0) (sym added)
              (last-Member item.0 (map outcome_of run.submissions)))));
  }

  pub submitted-IsStopped :
      Refuses item.2 → IsStopped (record run { submissions = run.submissions ++ item ∷ [] })
  submitted-IsStopped h = (item, last-Member item run.submissions, h)

module _ (id : String) (ids : List String) (run run' : AttributionRun) (h : Lists id run run') where
  pub Lists-Advances :
      (run'' : AttributionRun) → Advances ids run' run'' → Advances (id ∷ ids) run run''
  Lists-Advances run'' a = record {
    keeps = λ x m. a.keeps x (h.keeps x m);
    only = λ x m. elim (a.only x m) [
      | inl m' ↦ elim (h.only x m') [ inl m'' ↦ inl m'' | inr e ↦ inr (inl e) ]
      | inr m' ↦ inr (inr m')
    ];
    all = elim a.all [
      | inl stopped ↦ inl stopped
      | inr all ↦ inr (λ x m. elim m [
        | inl e ↦ subst (IsListed run'') e (a.keeps id h.listed)
        | inr m' ↦ all x m'
      ])
    ];
  }

  pub Lists-stopped : IsStopped run' → Advances (id ∷ ids) run run'
  Lists-stopped stopped = record {
    keeps = h.keeps;
    only = λ x m. elim (h.only x m) [ inl m' ↦ inl m' | inr e ↦ inr (inl e) ];
    all = inl stopped;
  }
