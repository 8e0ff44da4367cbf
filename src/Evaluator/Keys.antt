-- ===== src/Evaluator/Keys.antt =====
-- `_index` succeeds exactly on a context whose keys are distinct.
use flight_recorder.Base.{
  ◌≡◌, refl, false, none, List, [], ◌∷◌, String, str_eq, ◌↔◌, arith, ok, All,
}
use flight_recorder.Base.Dict.{Dict, lookup, contains, insert, lookup-insert}
use flight_recorder.Evaluator.{ContextInput, index_from, index}

abbrev pub DiffersFrom : String → ContextInput → Type 0
DiffersFrom k entry = str_eq k entry.key ≡ false

-- No two entries share a key.
abbrev pub HasUniqueKeys : List ContextInput → Type 0
HasUniqueKeys [] = Unit
HasUniqueKeys (entry ∷ rest) = All (DiffersFrom entry.key) rest × HasUniqueKeys rest

abbrev pub IsNew {ℓ} : {V : Type ℓ} → Dict V → ContextInput → Type ℓ
IsNew d entry = lookup entry.key d ≡ none

module _ {ℓ} {V : Type ℓ} where
  pub insert-IsNew :
      (k : String) (v : V) (d : Dict V) (rest : List ContextInput)
      → All (IsNew d) rest
      → All (DiffersFrom k) rest
      → All (IsNew (insert k v d)) rest
  insert-IsNew k v d [] h u = tt
  insert-IsNew k v d (e ∷ rest) h u =
      (ground (arith, lookup-insert k e.key v d), insert-IsNew k v d rest h.1 u.1)

  insert-IsNew_sound :
      (k : String) (v : V) (d : Dict V) (rest : List ContextInput)
      → All (IsNew (insert k v d)) rest
      → All (IsNew d) rest × All (DiffersFrom k) rest
  insert-IsNew_sound k v d [] h = (tt, tt)
  insert-IsNew_sound k v d (e ∷ rest) h =
      let (a, b) = insert-IsNew_sound k v d rest h.1 in
      (
        (ground (arith, lookup-insert k e.key v d), a),
        (ground (arith, lookup-insert k e.key v d), b),
      )

index_from_total :
    (d : Dict ContextInput) (context : List ContextInput)
    → All (IsNew d) context
    → HasUniqueKeys context
    → (d' : Dict ContextInput) × (index_from d context ≡ ok d')
unfolding index_from
index_from_total d [] h u = (d, refl)
index_from_total d (e ∷ rest) h u =
    let (d', p) =
      index_from_total (insert e.key e d) rest (insert-IsNew e.key e d rest h.1 u.0) u.1 in
    let q : contains e.key d ≡ false = ground arith in (d', rw q p)

index_from-HasUniqueKeys :
    (d : Dict ContextInput) (context : List ContextInput) {d' : Dict ContextInput}
    → index_from d context ≡ ok d'
    → All (IsNew d) context × HasUniqueKeys context
unfolding index_from
index_from-HasUniqueKeys d [] h = (tt, tt)
index_from-HasUniqueKeys d (e ∷ rest) {d'} h =
    let p : (contains e.key d ≡ false) × (index_from (insert e.key e d) rest ≡ ok d') =
      ground arith in
    let (new, unique) = index_from-HasUniqueKeys (insert e.key e d) rest p.1 in
    let (a, b) = insert-IsNew_sound e.key e d rest new in ((ground arith, a), (b, unique))

All-IsNew : (context : List ContextInput) → All (IsNew {V = ContextInput} []) context
All-IsNew [] = tt
All-IsNew (e ∷ rest) = (refl, All-IsNew rest)

-- `_index` returns a dict exactly when no two entries share a key.
pub index-iff_HasUniqueKeys :
    (context : List ContextInput)
    → ((d : Dict ContextInput) × (index context ≡ ok d)) ↔ HasUniqueKeys context
unfolding index
index-iff_HasUniqueKeys context = (
  (λ (d, h). (index_from-HasUniqueKeys [] context h).1),
  (λ u. index_from_total [] context (All-IsNew context) u),
)
