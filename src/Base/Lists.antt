-- ===== src/Base/Lists.antt =====
-- Lists measured by native numbers, predicates over lists, and comprehensions.
use Prim.Native.Nat.{ℕ, zero, suc, ◌+◌}
use mathlib.Core.Path.{◌≡◌, refl, sym, subst}
use mathlib.Core.Logic.{◌⊎◌, inl, inr}
use mathlib.Core.List.{List, [], ◌∷◌, ◌++◌, append_assoc, append-nil, map}
use mathlib.Core.Bool.{Bool, true, false}
use mathlib.Core.Option.{Option, none, some}
use native.Mathlib.Omega.{arith}
use flight_recorder.Base.Tests.{if◌then◌else◌, Bool-cases}

module _ {ℓ} {A : Type ℓ} where
  abbrev pub length : List A → ℕ
  length [] = 0
  length (x ∷ xs) = suc (length xs)

  pub length-append : (xs ys : List A) → length (xs ++ ys) ≡ length xs + length ys
  length-append [] ys = omega arith
  length-append (x ∷ xs) ys = omega (arith, length-append xs ys)

  abbrev pub take : ℕ → List A → List A
  take zero xs = []
  take (suc n) [] = []
  take (suc n) (x ∷ xs) = x ∷ take n xs

  -- The first element, as SQLAlchemy's `.first()`.
  abbrev pub first : List A → Option A
  first [] = none
  first (x ∷ xs) = some x

  -- `[x for x in xs if p(x)]`
  abbrev pub select : (A → Bool) → List A → List A
  select p [] = []
  select p (x ∷ xs) = if p x then x ∷ select p xs else select p xs

  abbrev pub All {κ} : (A → Type κ) → List A → Type κ
  All P [] = Unit
  All P (x ∷ xs) = P x × All P xs

  -- Membership with the position kept.
  abbrev pub Member : A → List A → Type ℓ
  Member a [] = Unit {ℓ} × ⊥
  Member a (x ∷ xs) = (x ≡ a) ⊎ Member a xs

-- The lists are of one length, and the relation holds at each position.
abbrev pub Pairs {ℓ} : {A B : Type ℓ} → (A → B → Type ℓ) → List A → List B → Type ℓ
Pairs R [] [] = Unit
Pairs R (x ∷ xs) (y ∷ ys) = R x y × Pairs R xs ys
Pairs R _ _ = Unit × ⊥

module _ {ℓ} {A B : Type ℓ} where
  -- `[y for x in xs for y in f(x)]`, the shape of a join.
  abbrev pub flat_map : (A → List B) → List A → List B
  flat_map f [] = []
  flat_map f (x ∷ xs) = f x ++ flat_map f xs

  pub flat_map-append :
      (f : A → List B) (xs ys : List A) → flat_map f (xs ++ ys) ≡ flat_map f xs ++ flat_map f ys
  flat_map-append f [] ys = refl
  flat_map-append f (x ∷ xs) ys =
      rw (flat_map-append f xs ys) (sym (append_assoc (f x) (flat_map f xs) (flat_map f ys)))

module _ {ℓ} {A : Type ℓ} where
  pub select-append :
      (p : A → Bool) (xs ys : List A) → select p (xs ++ ys) ≡ select p xs ++ select p ys
  select-append p [] ys = refl
  select-append p (x ∷ xs) ys = ground (arith, select-append p xs ys)

  pub select_none : (p : A → Bool) (xs : List A) → All (λ x. p x ≡ false) xs → select p xs ≡ []
  select_none p [] h = refl
  select_none p (x ∷ xs) h = rw (h.0) (select_none p xs h.1)

  -- The rows of an outer join: one empty row where nothing matches.
  abbrev pub outer : List A → List (Option A)
  outer [] = none ∷ []
  outer (x ∷ xs) = some x ∷ map some xs

pub member-All {ℓ κ} :
    {A : Type ℓ} (P : A → Type κ) (xs : List A) {a : A} → All P xs → Member a xs → P a
member-All P [] h m = absurd m.1
member-All P (x ∷ xs) h (inl e) = subst P e h.0
member-All P (x ∷ xs) h (inr m) = member-All P xs h.1 m

module _ {ℓ κ} {A : Type ℓ} (P : A → Type κ) where
  pub All-intro : ((x : A) → P x) → (xs : List A) → All P xs
  All-intro h [] = tt
  All-intro h (x ∷ xs) = (h x, All-intro h xs)

  pub All-append : (xs ys : List A) → All P xs → All P ys → All P (xs ++ ys)
  All-append [] ys h k = k
  All-append (x ∷ xs) ys h k = (h.0, All-append xs ys h.1 k)

  pub All-select : (p : A → Bool) (xs : List A) → All P xs → All P (select p xs)
  All-select p [] h = tt
  All-select p (x ∷ xs) h =
      elim (p x) as (λ b. All P (if b then x ∷ select p xs else select p xs)) [
        | true ↦ (h.0, All-select p xs h.1)
        | false ↦ All-select p xs h.1
      ]

  pub All-weaken {κ'} :
      (Q : A → Type κ') → ((x : A) → P x → Q x) → (xs : List A) → All P xs → All Q xs
  All-weaken Q f [] h = tt
  All-weaken Q f (x ∷ xs) h = (f x h.0, All-weaken Q f xs h.1)

pub All-map {ℓ ι κ} :
    {A : Type ℓ} {B : Type ι} (P : B → Type κ) (f : A → B) (xs : List A)
    → All (λ x. P (f x)) xs
    → All P (map f xs)
All-map P f [] h = tt
All-map P f (x ∷ xs) h = (h.0, All-map P f xs h.1)

pub map-All {ℓ ι κ} :
    {A : Type ℓ} {B : Type ι} (P : B → Type κ) (f : A → B) (xs : List A)
    → All P (map f xs)
    → All (λ x. P (f x)) xs
map-All P f [] h = tt
map-All P f (x ∷ xs) h = (h.0, map-All P f xs h.1)

-- Each two elements, in their order, are related.
abbrev pub Pairwise {ℓ κ} : {A : Type ℓ} → (A → A → Type κ) → List A → Type κ
Pairwise R [] = Unit
Pairwise R (x ∷ xs) = All (R x) xs × Pairwise R xs

pub Pairwise-append {ℓ κ} :
    {A : Type ℓ} (R : A → A → Type κ) (xs : List A) (y : A)
    → Pairwise R xs
    → All (λ x. R x y) xs
    → Pairwise R (xs ++ y ∷ [])
Pairwise-append R [] y h k = (tt, tt)
Pairwise-append R (x ∷ xs) y h k =
    (All-append (R x) xs (y ∷ []) h.0 (k.0, tt), Pairwise-append R xs y h.1 k.1)

module _ {ℓ} {A B : Type ℓ} where
  pub flat_map_none : (f : A → List B) (xs : List A) → All (λ x. f x ≡ []) xs → flat_map f xs ≡ []
  flat_map_none f [] h = refl
  flat_map_none f (x ∷ xs) h = rw (h.0) (flat_map_none f xs h.1)

  pub flat_map_same :
      (f g : A → List B) (xs : List A) → All (λ x. f x ≡ g x) xs → flat_map f xs ≡ flat_map g xs
  flat_map_same f g [] h = refl
  flat_map_same f g (x ∷ xs) h = rw (h.0, flat_map_same f g xs h.1) refl

  -- A join over a table that has grown: what it adds joins with nothing.
  pub flat_map-append_none :
      (f g : A → List B) (xs ys : List A)
      → All (λ x. f x ≡ g x) xs
      → All (λ y. f y ≡ []) ys
      → flat_map f (xs ++ ys) ≡ flat_map g xs
  flat_map-append_none f g xs ys h k =
      rw (flat_map-append f xs ys, flat_map_same f g xs h, flat_map_none f ys k)
        (append-nil (flat_map g xs))

  pub flat_map-select_none :
      (p : A → Bool) (f g : A → List B) (xs ys : List A)
      → All (λ x. f x ≡ g x) xs
      → All (λ y. f y ≡ []) ys
      → flat_map f (select p (xs ++ ys)) ≡ flat_map g (select p xs)
  flat_map-select_none p f g xs ys h k = rw (select-append p xs ys) (
      flat_map-append_none f g (select p xs) (select p ys) (All-select (λ x. f x ≡ g x) p xs h)
        (All-select (λ y. f y ≡ []) p ys k))

pub All-outer {ℓ κ} :
    {A : Type ℓ} (P : Option A → Type κ) (xs : List A)
    → P none
    → All (λ x. P (some x)) xs
    → All P (outer xs)
All-outer P [] h k = (h, tt)
All-outer P (x ∷ xs) h k = (k.0, All-map P some xs k.1)

module _ {ℓ} {A : Type ℓ} where
  pub first-append : (xs ys : List A) {x : A} → first xs ≡ some x → first (xs ++ ys) ≡ some x
  first-append [] ys h = cc
  first-append (x ∷ xs) ys h = h

  pub first-none-append : (xs ys : List A) → first xs ≡ none → first (xs ++ ys) ≡ first ys
  first-none-append [] ys h = refl
  first-none-append (x ∷ xs) ys h = cc

  -- A query that finds a row finds it in the table with more rows.
  pub first-select-append :
      (p : A → Bool) (xs ys : List A) {x : A}
      → first (select p xs) ≡ some x
      → first (select p (xs ++ ys)) ≡ some x
  first-select-append p xs ys h =
      rw (select-append p xs ys) (first-append (select p xs) (select p ys) h)

  -- A row that is found is in the table, and passes the test.
  pub first-select_sound :
      (p : A → Bool) (xs : List A) {x : A} → first (select p xs) ≡ some x → p x ≡ true
  first-select_sound p [] h = cc
  first-select_sound p (y ∷ xs) {x} h = elim (Bool-cases (p y)) [
    | inl kept ↦
        let here : some y ≡ some x = rw kept at h in
        let same : y ≡ x = cc in subst (λ z. p z ≡ true) same kept
    | inr dropped ↦ first-select_sound p xs (rw dropped at h)
  ]

pub All-split {ℓ κ} :
    {A : Type ℓ} (P : A → Type κ) (xs ys : List A) → All P (xs ++ ys) → All P xs × All P ys
All-split P [] ys h = (tt, h)
All-split P (x ∷ xs) ys h = ((h.0, (All-split P xs ys h.1).0), (All-split P xs ys h.1).1)

pub Pairwise-append-All {ℓ κ} :
    {A : Type ℓ} (R : A → A → Type κ) (xs ys : List A)
    → Pairwise R xs
    → Pairwise R ys
    → All (λ x. All (R x) ys) xs
    → Pairwise R (xs ++ ys)
Pairwise-append-All R [] ys h k both = k
Pairwise-append-All R (x ∷ xs) ys h k both =
    (All-append (R x) xs ys h.0 both.0, Pairwise-append-All R xs ys h.1 k both.1)

pub Pairwise-map {ℓ ι κ} :
    {A : Type ℓ} {B : Type ι} (R : B → B → Type κ) (f : A → B) (xs : List A)
    → Pairwise (λ x y. R (f x) (f y)) xs
    → Pairwise R (map f xs)
Pairwise-map R f [] h = tt
Pairwise-map R f (x ∷ xs) h = (All-map (R (f x)) f xs h.0, Pairwise-map R f xs h.1)

pub map-Pairwise {ℓ ι κ} :
    {A : Type ℓ} {B : Type ι} (R : B → B → Type κ) (f : A → B) (xs : List A)
    → Pairwise R (map f xs)
    → Pairwise (λ x y. R (f x) (f y)) xs
map-Pairwise R f [] h = tt
map-Pairwise R f (x ∷ xs) h = (map-All (R (f x)) f xs h.0, map-Pairwise R f xs h.1)

-- The second list holds the elements of the first that have the property, in their order.
abbrev pub Keeps {ℓ} : {A : Type ℓ} → (A → Type ℓ) → List A → List A → Type ℓ
Keeps P [] kept = kept ≡ []
Keeps {A} P (x ∷ xs) kept =
    (P x × (rest : List A) × (kept ≡ x ∷ rest) × Keeps P xs rest) ⊎ ((¬ P x) × Keeps P xs kept)

pub select-Keeps {ℓ} :
    {A : Type ℓ} (P : A → Type ℓ) (p : A → Bool)
    → ((x : A) → p x ≡ true → P x)
    → ((x : A) → p x ≡ false → ¬ P x)
    → (xs : List A) → Keeps P xs (select p xs)
select-Keeps P p sound complete [] = refl
select-Keeps P p sound complete (x ∷ xs) = elim (Bool-cases (p x)) [
  | inl kept ↦ rw kept (inl (sound x kept, select p xs, refl, select-Keeps P p sound complete xs))
  | inr dropped ↦ rw dropped (inr (complete x dropped, select-Keeps P p sound complete xs))
]
