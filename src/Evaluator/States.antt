-- ===== src/Evaluator/States.antt =====
-- The states that a result gives to the preserved inputs, and the list of those it ignored.
use mathlib.Core.Path.{subst}
use flight_recorder.Base.{
  ◌≡◌, refl, ap, sym, ◌∙◌, Bool, not, ◌&&◌, List, [], ◌∷◌, ◌++◌, map, append_assoc, append-nil,
  arith, ok, All, select, String, true, false, str_eq, str_eq_iff, ◌≢◌, inl, inr, Bool-cases,
  Member, Pairs, Keeps, select-Keeps,
}
use flight_recorder.Base.Datetime.{Datetime}
use flight_recorder.Base.Dict.{Dict, insert, insert_all, insert_fresh}
use flight_recorder.Evaluator.{
  InputState, unavailable, consumed, ignored, absent, Factor, LogicArtifact, ContextInput,
  EvaluationResult, conclude, evaluate, is_available, is_referenced, state_of, ignored_of,
}
use flight_recorder.Evaluator.Run.{evaluate-Run}
use flight_recorder.Evaluator.Keys.{HasUniqueKeys, IsNew, insert-IsNew, index-iff_HasUniqueKeys}

module _ {ℓ} {V : Type ℓ} (value : ContextInput → V) where
  abbrev item : ContextInput → String × V
  item entry = (entry.key, value entry)

  -- Entries with distinct new keys are written behind one another.
  insert_all_fresh :
      (d : Dict V) (context : List ContextInput)
      → All (IsNew d) context
      → HasUniqueKeys context
      → insert_all d (map item context) ≡ d ++ map item context
  insert_all_fresh d [] h u = sym (append-nil d)
  insert_all_fresh d (e ∷ rest) h u =
      insert_all_fresh (insert e.key (value e) d) rest (insert-IsNew e.key (value e) d rest h.1 u.0)
        u.1
      ∙ ap (λ x. x ++ map item rest) (insert_fresh e.key (value e) d h.0)
      ∙ append_assoc d _ _

  insert_all_nil :
      (context : List ContextInput)
      → HasUniqueKeys context
      → insert_all [] (map item context) ≡ map item context
  insert_all_nil context u = insert_all_fresh [] context (none_yet context) u
    where
      none_yet : (c : List ContextInput) → All (IsNew {V = V} []) c
      none_yet [] = tt
      none_yet (e ∷ c) = (refl, none_yet c)

-- An available entry whose key no factor names.
abbrev pub is_unused : List Factor → ContextInput → Bool
is_unused factors entry = is_available entry && not (is_referenced entry.key factors)

ignored_of-map :
    (factors : List Factor) (context : List ContextInput)
    → ignored_of (map (item (state_of factors)) context)
      ≡ map (λ (e : ContextInput). e.key) (select (is_unused factors) context)
unfolding ignored_of
ignored_of-map factors [] = refl
ignored_of-map factors (e ∷ rest) = ground (arith, ignored_of-map factors rest)

-- Some factor names the entry's key.
abbrev pub IsNamed : List Factor → ContextInput → Type 0
IsNamed factors entry = (f : Factor) × Member f factors × (f.key ≡ entry.key)

-- What it means that an entry of the context has this state.
abbrev pub HasState : List Factor → ContextInput → InputState → Type 0
HasState factors entry unavailable = entry.availability ≢ "available"
HasState factors entry consumed = (entry.availability ≡ "available") × IsNamed factors entry
HasState factors entry ignored = (entry.availability ≡ "available") × (¬ IsNamed factors entry)
HasState factors entry absent = ⊥

abbrev pub IsStated : List Factor → ContextInput → String × InputState → Type 0
IsStated factors entry (key, state) = (entry.key ≡ key) × HasState factors entry state

abbrev pub IsUnused : List Factor → ContextInput → Type 0
IsUnused factors entry = HasState factors entry ignored

is_referenced_sound :
    (factors : List Factor) (entry : ContextInput)
    → is_referenced entry.key factors ≡ true
    → IsNamed factors entry
is_referenced_sound [] entry h = cc
is_referenced_sound (f ∷ factors) entry h = elim (Bool-cases (str_eq f.key entry.key)) [
  | inl here ↦ (f, inl refl, (str_eq_iff f.key entry.key).0 here)
  | inr there ↦ let (g, m, e) = is_referenced_sound factors entry (rw there at h) in (g, inr m, e)
]

is_referenced_complete :
    (factors : List Factor) (entry : ContextInput)
    → IsNamed factors entry
    → is_referenced entry.key factors ≡ true
is_referenced_complete [] entry (f, m, e) = absurd m.1
is_referenced_complete (g ∷ factors) entry (f, inl here, e) =
    ground (arith, str_eq_iff g.key entry.key)
is_referenced_complete (g ∷ factors) entry (f, inr there, e) =
    ground (arith, is_referenced_complete factors entry (f, there, e))

module _ (factors : List Factor) (e : ContextInput) where
  available : is_available e ≡ true → e.availability ≡ "available"
  available h = (str_eq_iff e.availability "available").0 h

  not_available : is_available e ≡ false → e.availability ≢ "available"
  not_available h q = cc ((str_eq_iff e.availability "available").1 q)

  not-IsNamed : is_referenced e.key factors ≡ false → ¬ IsNamed factors e
  not-IsNamed h n = cc (is_referenced_complete factors e n)

  state_of-HasState : HasState factors e (state_of factors e)
  state_of-HasState = elim (Bool-cases (is_available e)) [
    | inl av ↦ elim (Bool-cases (is_referenced e.key factors)) [
      | inl named ↦ rw (av, named) (available av, is_referenced_sound factors e named)
      | inr other ↦ rw (av, other) (available av, not-IsNamed other)
    ]
    | inr un ↦ rw un (not_available un)
  ]

  is_unused_sound : is_unused factors e ≡ true → IsUnused factors e
  is_unused_sound h = elim (Bool-cases (is_available e)) [
    | inl av ↦ elim (Bool-cases (is_referenced e.key factors)) [
      | inl named ↦ cc (rw (av, named) at h)
      | inr other ↦ (available av, not-IsNamed other)
    ]
    | inr un ↦ cc (rw un at h)
  ]

  is_unused_complete : is_unused factors e ≡ false → ¬ IsUnused factors e
  is_unused_complete h (av, other) = elim (Bool-cases (is_referenced e.key factors)) [
    | inl named ↦ other (is_referenced_sound factors e named)
    | inr unnamed ↦ cc (rw ((str_eq_iff e.availability "available").1 av, unnamed) at h)
  ]

map-IsStated :
    (factors : List Factor) (context : List ContextInput)
    → Pairs (IsStated factors) context (map (item (state_of factors)) context)
map-IsStated factors [] = tt
map-IsStated factors (e ∷ rest) = ((refl, state_of-HasState factors e), map-IsStated factors rest)

-- The states of a result are those of the entries, in their order, and the ignored inputs are the keys
-- of the available entries that no factor names, in the order of the context.
pub record HasStates (artifact : LogicArtifact) (context : List ContextInput)
    (result : EvaluationResult) : Type 0 where
  pub stated : Pairs (IsStated artifact.factors) context result.context_states
  pub unused : List ContextInput
  pub are_unused : Keeps (IsUnused artifact.factors) context unused
  pub are_ignored : result.ignored_inputs ≡ map (λ (e : ContextInput). e.key) unused

-- A successful evaluation gives each preserved entry, in order, its state: unavailable if it was not
-- recorded as available, consumed if it was and a factor names its key, and ignored if it was and no
-- factor names its key; and it lists as ignored exactly the keys of the available entries that no
-- factor names, in the order of the context.
pub evaluate-states :
    (artifact : LogicArtifact) (context : List ContextInput) (boundary : Datetime)
    (result : EvaluationResult)
    → evaluate artifact context boundary ≡ ok result
    → HasStates artifact context result
unfolding conclude
evaluate-states artifact context boundary result h =
    let factors = artifact.factors in
    let run = evaluate-Run artifact context boundary h in
    let unique = (index-iff_HasUniqueKeys context).0 (run.preserved, run.indexed) in
    let states = insert_all_nil (state_of factors) context unique in
    subst (HasStates artifact context) run.concluded (record {
      stated = subst (Pairs (IsStated factors) context) (sym states) (map-IsStated factors context);
      unused = select (is_unused factors) context;
      are_unused =
          select-Keeps (IsUnused factors) (is_unused factors) (is_unused_sound factors)
            (is_unused_complete factors) context;
      are_ignored = ap ignored_of states ∙ ignored_of-map factors context;
    })
