-- ===== src/Base/Sorting.antt =====
-- `sorted(xs, key=...)` and `ORDER BY`: the same elements, in the order of their keys.
use mathlib.Core.List.{Perm}
use mathlib.Core.List.Perm
use mathlib.Core.Path.{◌≡◌, refl}
use mathlib.Core.Logic.{inl, inr}
use mathlib.Core.List.{List, [], ◌∷◌}
use mathlib.Core.Bool.{true, false}
use native.Mathlib.Omega.{arith}
use Prim.Native.String.{String}
use flight_recorder.Base.Tests.{Bool-cases}
use flight_recorder.Base.Lists.{All, All-weaken, Pairwise}
use flight_recorder.Base.Text.{Text, codes, text_lt, str_lt, insert_sorted, sort_by}

text_lt-asymmetric : (s t : Text) → text_lt s t ≡ true → text_lt t s ≡ false
text_lt-asymmetric s [] h = cc
text_lt-asymmetric [] (b ∷ t) h = refl
text_lt-asymmetric (a ∷ s) (b ∷ t) h = ground (arith, text_lt-asymmetric s t)

text_lt-transitive_not :
    (r s t : Text) → text_lt s r ≡ false → text_lt t s ≡ false → text_lt t r ≡ false
text_lt-transitive_not [] s t h k = refl
text_lt-transitive_not (a ∷ r) [] t h k = cc
text_lt-transitive_not (a ∷ r) (b ∷ s) [] h k = cc
text_lt-transitive_not (a ∷ r) (b ∷ s) (c ∷ t) h k = ground (arith, text_lt-transitive_not r s t)

module _ {A : Type 0} (key : A → String) where
  abbrev pub InOrder : A → A → Type 0
  InOrder x y = str_lt (key y) (key x) ≡ false

  insert_sorted-perm : (x : A) (xs : List A) → Perm (insert_sorted key x xs) (x ∷ xs)
  insert_sorted-perm x [] = Perm.refl (x ∷ [])
  insert_sorted-perm x (y ∷ ys) = elim (Bool-cases (str_lt (key y) (key x))) [
    | inl before ↦ rw before (Perm.trans (Perm.cons y (insert_sorted-perm x ys)) (Perm.swap x y ys))
    | inr behind ↦ rw behind (Perm.refl (x ∷ y ∷ ys))
  ]

  pub sort_by-perm : (xs : List A) → Perm (sort_by key xs) xs
  sort_by-perm [] = Perm.refl []
  sort_by-perm (x ∷ xs) =
      Perm.trans (insert_sorted-perm x (sort_by key xs)) (Perm.cons x (sort_by-perm xs))

  insert_sorted-All :
      (P : A → Type 0) (x : A) (xs : List A) → P x → All P xs → All P (insert_sorted key x xs)
  insert_sorted-All P x [] h k = (h, tt)
  insert_sorted-All P x (y ∷ ys) h k = elim (Bool-cases (str_lt (key y) (key x))) [
    | inl before ↦ rw before (k.0, insert_sorted-All P x ys h k.1)
    | inr behind ↦ rw behind (h, k)
  ]

  insert_sorted-InOrder :
      (x : A) (xs : List A) → Pairwise InOrder xs → Pairwise InOrder (insert_sorted key x xs)
  insert_sorted-InOrder x [] h = (tt, tt)
  insert_sorted-InOrder x (y ∷ ys) h = elim (Bool-cases (str_lt (key y) (key x))) [
    | inl before ↦ rw before (
      insert_sorted-All (InOrder y) x ys (text_lt-asymmetric (codes (key y)) (codes (key x)) before)
          h.0,
      insert_sorted-InOrder x ys h.1,
    )
    | inr behind ↦ rw behind (
      (
        behind,
        All-weaken (InOrder y) (InOrder x)
            (λ z k. text_lt-transitive_not (codes (key x)) (codes (key y)) (codes (key z)) behind k)
            ys h.0,
      ),
      h,
    )
  ]

  pub sort_by-InOrder : (xs : List A) → Pairwise InOrder (sort_by key xs)
  sort_by-InOrder [] = tt
  sort_by-InOrder (x ∷ xs) = insert_sorted-InOrder x (sort_by key xs) (sort_by-InOrder xs)
