-- ===== src/Kvs/Order.antt =====
-- `strcmp` as an order on strings.
use laik.Prelude.{ℕ, true, List, [], ◌∷◌, ◌≡◌, refl, arith, ◌⊎◌}
use laik.Prelude.Int.{pos, ltb_ℤ, eq_ℤ, ◌<ℤ◌, ◌≤ℤ◌}
use laik.Prelude.Sort.{IsOrder}
use laik.Kvs.{strcmp}
use laik.Kvs.Journal.{entrycmp}

pub strcmp_refl : (a : List ℕ) → strcmp a a ≡ pos 0
unfolding strcmp
strcmp_refl [] = refl
strcmp_refl (x ∷ xs) = ground (arith, strcmp_refl xs)

pub strcmp_eq : (a b : List ℕ) → eq_ℤ (strcmp a b) (pos 0) ≡ true → a ≡ b
unfolding strcmp
strcmp_eq [] [] h = refl
strcmp_eq [] (y ∷ ys) h = ground arith
strcmp_eq (x ∷ xs) [] h = ground arith
strcmp_eq (x ∷ xs) (y ∷ ys) h = ground (arith, strcmp_eq xs ys)

-- swapping the arguments swaps less and greater
pub strcmp_flip : (a b : List ℕ) → ltb_ℤ (strcmp a b) (pos 0) ≡ ltb_ℤ (pos 0) (strcmp b a)
unfolding strcmp
strcmp_flip [] [] = refl
strcmp_flip [] (y ∷ ys) = refl
strcmp_flip (x ∷ xs) [] = refl
strcmp_flip (x ∷ xs) (y ∷ ys) = ground (arith, strcmp_flip xs ys)

pub strcmp_trans :
    (a b c : List ℕ) → strcmp a b ≤ℤ pos 0 → strcmp b c <ℤ pos 0 → strcmp a c <ℤ pos 0
unfolding strcmp
strcmp_trans [] [] c h k = k
strcmp_trans [] (y ∷ ys) [] h k = ground arith
strcmp_trans [] (y ∷ ys) (z ∷ zs) h k = ground arith
strcmp_trans (x ∷ xs) [] c h k = ground arith
strcmp_trans (x ∷ xs) (y ∷ ys) [] h k = ground arith
strcmp_trans (x ∷ xs) (y ∷ ys) (z ∷ zs) h k = ground (arith, strcmp_trans xs ys zs)

pub strcmp_le_trans :
    (a b c : List ℕ) → strcmp a b ≤ℤ pos 0 → strcmp b c ≤ℤ pos 0 → strcmp a c ≤ℤ pos 0
unfolding strcmp
strcmp_le_trans [] [] c h k = k
strcmp_le_trans [] (y ∷ ys) [] h k = ground arith
strcmp_le_trans [] (y ∷ ys) (z ∷ zs) h k = ground arith
strcmp_le_trans (x ∷ xs) [] c h k = ground arith
strcmp_le_trans (x ∷ xs) (y ∷ ys) [] h k = ground arith
strcmp_le_trans (x ∷ xs) (y ∷ ys) (z ∷ zs) h k = ground (arith, strcmp_le_trans xs ys zs)

strcmp_total : (a b : List ℕ) → (strcmp a b ≤ℤ pos 0) ⊎ (strcmp b a ≤ℤ pos 0)
strcmp_total a b = ground (arith, strcmp_flip a b)

-- `entrycmp` is an order, as `qsort` requires.
pub entrycmp-IsOrder : IsOrder entrycmp
unfolding entrycmp
entrycmp-IsOrder = record {
  total = λ a b. strcmp_total a.key b.key;
  trans = λ a b c. strcmp_le_trans a.key b.key c.key;
}
