-- ===== src/Ledger/Keys.antt =====
-- The primary keys and unique columns of ledger/schema.py, as pairwise distinct keys of the rows.
use flight_recorder.Base.{
  ◌≡◌, ◌≢◌, ap, true, false, List, [], ◌∷◌, ◌++◌, none, String, str_eq, str_eq_iff, first, select,
  All, All-weaken, Pairwise, Pairwise-append, Bool-cases, inl, inr,
}
use flight_recorder.Ledger.{EventRow}
use flight_recorder.Ledger.Growth.{is_recorded}

-- No two rows have one key.
abbrev pub Keyed : {A : Type 0} → (A → String) → List A → Type 0
Keyed key rows = Pairwise (λ x y. key x ≢ key y) rows

module _ {A : Type 0} (key : A → String) where
  -- What a query does not find no row has.
  pub unfound-All :
      (rows : List A) (k : String)
      → first (select (λ r. str_eq (key r) k) rows) ≡ none
      → All (λ r. key r ≢ k) rows
  unfound-All [] k h = tt
  unfound-All (r ∷ rows) k h = elim (Bool-cases (str_eq (key r) k)) [
    | inl same ↦ absurd (cc (rw same at h))
    | inr differs ↦
        ((λ e. cc ((str_eq_iff (key r) k).1 e, differs)), unfound-All rows k (rw differs at h))
  ]

  -- A row whose event is new in a table whose rows have their events.
  pub unrecorded-All :
      (events : List EventRow) (id : String) (rows : List A)
      → is_recorded events id ≡ false
      → All (λ r. is_recorded events (key r) ≡ true) rows
      → All (λ r. key r ≢ id) rows
  unrecorded-All events id rows fresh h =
      All-weaken (λ r. is_recorded events (key r) ≡ true) (λ r. key r ≢ id)
        (λ r recorded e. cc (ap (is_recorded events) e, recorded, fresh)) rows h

  pub Keyed-add :
      (rows : List A) (row : A)
      → All (λ r. key r ≢ key row) rows
      → Keyed key rows
      → Keyed key (rows ++ row ∷ [])
  Keyed-add rows row h keyed = Pairwise-append (λ x y. key x ≢ key y) rows row keyed h

-- Each of the one against each of the other, in either order.
pub All-swap {ℓ κ} :
    {A B : Type ℓ} (R : A → B → Type κ) (xs : List A) (ys : List B)
    → All (λ y. All (λ x. R x y) xs) ys
    → All (λ x. All (R x) ys) xs
All-swap R [] ys h = tt
All-swap R (x ∷ xs) ys h = (
  All-weaken (λ y. R x y × All (λ z. R z y) xs) (R x) (λ y both. both.0) ys h,
  All-swap R xs ys (
      All-weaken (λ y. R x y × All (λ z. R z y) xs) (λ y. All (λ z. R z y) xs) (λ y both. both.1) ys
        h),
)
