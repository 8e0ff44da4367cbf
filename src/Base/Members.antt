-- ===== src/Base/Members.antt =====
-- The rows of a query, `[x for x in xs if p(x)]`, and of a join, by membership.
use mathlib.Core.Path.{◌≡◌, refl, sym, subst}
use mathlib.Core.Logic.{◌⊎◌, inl, inr}
use mathlib.Core.List.{List, [], ◌∷◌, ◌++◌, map}
use mathlib.Core.Bool.{Bool, true, false}
use mathlib.Core.Option.{some, some_inj}
use flight_recorder.Base.Tests.{Bool-cases}
use flight_recorder.Base.Lists.{first, select, flat_map, Member}

module _ {A : Type 0} (p : A → Bool) where
  pub select-Member : (a : A) (xs : List A) → Member a (select p xs) → Member a xs × (p a ≡ true)
  select-Member a [] m = absurd m.1
  select-Member a (x ∷ xs) m = elim (Bool-cases (p x)) [
    | inl kept ↦ elim (rw kept at m) [
      | inl e ↦ (inl e, rw (sym e) kept)
      | inr later ↦ let (m', h) = select-Member a xs later in (inr m', h)
    ]
    | inr dropped ↦ let (m', h) = select-Member a xs (rw dropped at m) in (inr m', h)
  ]

  clash : (x a : A) → x ≡ a → p x ≡ false → ¬ (p a ≡ true)
  clash x a e no_x yes_a = cc

  pub Member-select : (a : A) (xs : List A) → p a ≡ true → Member a xs → Member a (select p xs)
  Member-select a [] h m = m
  Member-select a (x ∷ xs) h m = elim (Bool-cases (p x)) [
    | inl kept ↦ rw kept (elim m [ inl e ↦ inl e | inr later ↦ inr (Member-select a xs h later) ])
    | inr dropped ↦
        rw dropped (elim m [
          | inl e ↦ absurd (clash x a e dropped h)
          | inr later ↦ Member-select a xs h later
        ])
  ]

module _ {A : Type 0} where
  pub Member-append-left : (a : A) (xs ys : List A) → Member a xs → Member a (xs ++ ys)
  Member-append-left a [] ys m = absurd m.1
  Member-append-left a (x ∷ xs) ys (inl e) = inl e
  Member-append-left a (x ∷ xs) ys (inr m) = inr (Member-append-left a xs ys m)

  pub Member-append-right : (a : A) (xs ys : List A) → Member a ys → Member a (xs ++ ys)
  Member-append-right a [] ys m = m
  Member-append-right a (x ∷ xs) ys m = inr (Member-append-right a xs ys m)

  pub Member-append : (a : A) (xs ys : List A) → Member a (xs ++ ys) → Member a xs ⊎ Member a ys
  Member-append a [] ys m = inr m
  Member-append a (x ∷ xs) ys (inl e) = inl (inl e)
  Member-append a (x ∷ xs) ys (inr m) = elim (Member-append a xs ys m) [
    | inl here ↦ inl (inr here)
    | inr there ↦ inr there
  ]

first-Member : {A : Type 0} (a : A) (xs : List A) → first xs ≡ some a → Member a xs
first-Member a [] h = cc
first-Member a (x ∷ xs) h = inl (some_inj.0 h)

-- A row that a query finds is in the table, and passes the test.
pub first-select-Member :
    {A : Type 0} (p : A → Bool) (a : A) (xs : List A)
    → first (select p xs) ≡ some a
    → Member a xs × (p a ≡ true)
first-select-Member p a xs h = select-Member p a xs (first-Member a (select p xs) h)

module _ {A B : Type 0} where
  -- The rows of a join of each row with what it meets.
  repeated-Member :
      (a b : A) (xs : List B) → Member a (map (λ _. b) xs) → (b ≡ a) × (x : B) × Member x xs
  repeated-Member a b [] m = absurd m.1
  repeated-Member a b (x ∷ xs) (inl e) = (e, x, inl refl)
  repeated-Member a b (x ∷ xs) (inr m) = let (e, y, m') = repeated-Member a b xs m in (e, y, inr m')

  Member-repeated : (a : A) (x : B) (xs : List B) → Member x xs → Member a (map (λ _. a) xs)
  Member-repeated a x [] m = absurd m.1
  Member-repeated a x (y ∷ xs) m = inl refl

  pub join_sound :
      (f : A → List B) (a : A) (xs : List A)
      → Member a (flat_map (λ x. map (λ _. x) (f x)) xs)
      → Member a xs × (b : B) × Member b (f a)
  join_sound f a [] m = absurd m.1
  join_sound f a (x ∷ xs) m =
      elim (Member-append a (map (λ _. x) (f x)) (flat_map (λ x. map (λ _. x) (f x)) xs) m) [
        | inl here ↦
            let (e, b, mb) = repeated-Member a x (f x) here in
            (inl e, b, subst (λ z. Member b (f z)) e mb)
        | inr there ↦ let (m', b, mb) = join_sound f a xs there in (inr m', b, mb)
      ]

  pub join_complete :
      (f : A → List B) (a : A) (b : B) (xs : List A)
      → Member a xs
      → Member b (f a)
      → Member a (flat_map (λ x. map (λ _. x) (f x)) xs)
  join_complete f a b [] m k = absurd m.1
  join_complete f a b (x ∷ xs) (inl e) k =
      Member-append-left a (map (λ _. x) (f x)) (flat_map (λ x. map (λ _. x) (f x)) xs)
        (subst (λ z. Member a (map (λ _. z) (f z))) (sym e) (Member-repeated a b (f a) k))
  join_complete f a b (x ∷ xs) (inr m) k =
      Member-append-right a (map (λ _. x) (f x)) (flat_map (λ x. map (λ _. x) (f x)) xs)
        (join_complete f a b xs m k)
