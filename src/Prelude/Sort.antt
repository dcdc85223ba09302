-- ===== src/Prelude/Sort.antt =====
-- `qsort` of the C library: what the code may rely on, and insertion sort as a witness that it can
-- be met.
use laik.Prelude.Int.{ℤ, pos, ◌≤ℤ◌, leb_ℤ}
use laik.Prelude.Tests.{if◌then◌else◌}
use mathlib.Core.Logic.{◌⊎◌}
use mathlib.Core.Bool.{true, false}
use mathlib.Core.List.{List, [], ◌∷◌, Perm}
use mathlib.Core.List.Perm
use native.Mathlib.Omega.{arith}

-- A comparison function that is total and transitive, as `qsort` requires.
pub record IsOrder {A : Type 0} (cmp : A → A → ℤ) : Type 0 where
  pub total : (a b : A) → (cmp a b ≤ℤ pos 0) ⊎ (cmp b a ≤ℤ pos 0)
  pub trans : (a b c : A) → cmp a b ≤ℤ pos 0 → cmp b c ≤ℤ pos 0 → cmp a c ≤ℤ pos 0

-- Each element is in order with all later ones.
abbrev pub Below : {A : Type 0} → (A → A → ℤ) → A → List A → Type 0
Below cmp a [] = Unit
Below cmp a (b ∷ bs) = (cmp a b ≤ℤ pos 0) × Below cmp a bs

abbrev pub IsSorted : {A : Type 0} → (A → A → ℤ) → List A → Type 0
IsSorted cmp [] = Unit
IsSorted cmp (a ∷ as') = Below cmp a as' × IsSorted cmp as'

pub record QSort : Type 1 where
  pub sort : (A : Type 0) → (A → A → ℤ) → List A → List A
  pub sort-perm : (A : Type 0) (cmp : A → A → ℤ) (xs : List A) → Perm (sort A cmp xs) xs
  pub sort-IsSorted :
      (A : Type 0) (cmp : A → A → ℤ) (xs : List A) → IsOrder cmp → IsSorted cmp (sort A cmp xs)

module _ (A : Type 0) (cmp : A → A → ℤ) where
  unfoldable pub insert : A → List A → List A
  insert x [] = x ∷ []
  insert x (y ∷ ys) = if leb_ℤ (cmp x y) (pos 0) then x ∷ (y ∷ ys) else y ∷ insert x ys

  unfoldable pub insertion_sort : List A → List A
  insertion_sort [] = []
  insertion_sort (x ∷ xs) = insert x (insertion_sort xs)

  insert-perm : (x : A) (xs : List A) → Perm (insert x xs) (x ∷ xs)
  unfolding insert
  insert-perm x [] = Perm.refl (x ∷ [])
  insert-perm x (y ∷ ys) =
      elim (leb_ℤ (cmp x y) (pos 0))
        as (λ b. Perm (if b then x ∷ (y ∷ ys) else y ∷ insert x ys) (x ∷ (y ∷ ys))) [
          | true ↦ Perm.refl (x ∷ (y ∷ ys))
          | false ↦ Perm.trans (Perm.cons y (insert-perm x ys)) (Perm.swap x y ys)
        ]

  pub insertion_sort-perm : (xs : List A) → Perm (insertion_sort xs) xs
  unfolding insertion_sort
  insertion_sort-perm [] = Perm.refl []
  insertion_sort-perm (x ∷ xs) =
      Perm.trans (insert-perm x (insertion_sort xs)) (Perm.cons x (insertion_sort-perm xs))

  module _ (o : IsOrder cmp) where
    Below-trans : (a b : A) (xs : List A) → cmp a b ≤ℤ pos 0 → Below cmp b xs → Below cmp a xs
    Below-trans a b [] h k = tt
    Below-trans a b (x ∷ xs) h k = (o.trans a b x h k.0, Below-trans a b xs h k.1)

    Below-insert :
        (a x : A) (xs : List A) → cmp a x ≤ℤ pos 0 → Below cmp a xs → Below cmp a (insert x xs)
    unfolding insert
    Below-insert a x [] h k = (h, tt)
    Below-insert a x (y ∷ ys) h k = ground (arith, Below-insert a x ys h k.1)

    insert-IsSorted : (x : A) (xs : List A) → IsSorted cmp xs → IsSorted cmp (insert x xs)
    unfolding insert
    insert-IsSorted x [] s = (tt, tt)
    insert-IsSorted x (y ∷ ys) s =
        ground
          (arith, o.total x y, Below-trans x y ys, Below-insert y x ys, insert-IsSorted x ys s.1)

    pub insertion_sort-IsSorted : (xs : List A) → IsSorted cmp (insertion_sort xs)
    unfolding insertion_sort
    insertion_sort-IsSorted [] = tt
    insertion_sort-IsSorted (x ∷ xs) =
        insert-IsSorted x (insertion_sort xs) (insertion_sort-IsSorted xs)

abbrev pub by_insertion : QSort
by_insertion = record {
  sort = λ A cmp xs. insertion_sort A cmp xs;
  sort-perm = λ A cmp xs. insertion_sort-perm A cmp xs;
  sort-IsSorted = λ A cmp xs o. insertion_sort-IsSorted A cmp o xs;
}
