-- ===== src/Prelude/Perms.antt =====
-- What a permutation keeps: tests on the elements, and the number of elements.
use Prim.Native.Nat.{suc}
use native.Mathlib.Nat.{ℕ_set}
use native.Mathlib.Omega.{arith}
use mathlib.Core.Path.{sym, ◌≡◌, refl, ap, ap₂, ◌∙◌, subst}
use mathlib.Core.Logic.{∥∥₁_elim}
use mathlib.Core.HLevel.{×_prop}
use mathlib.Core.Bool.{Bool, ◌||◌, ◌&&◌, Bool-set}
use mathlib.Core.List.{flat_map, ◌++◌, append_assoc, perm_append_comm, List, [], ◌∷◌, Perm, Permᴰ}
use mathlib.Core.List.Perm
use laik.Prelude.Tests.{bit}
use laik.Prelude.Lists.{countp, any, all, All, length}

module _ {ℓ} {A : Type ℓ} where
  any-permᴰ : (p : A → Bool) {xs ys : List A} → Permᴰ xs ys → any p xs ≡ any p ys
  any-permᴰ p Permᴰ.nil = refl
  any-permᴰ p (Permᴰ.cons e d) = ap₂ ◌||◌ (ap p e) (any-permᴰ p d)
  any-permᴰ p (Permᴰ.swap e e') = ground (arith, ap p e, ap p e')
  any-permᴰ p (Permᴰ.trans d d') = any-permᴰ p d ∙ any-permᴰ p d'

  pub any-perm : (p : A → Bool) {xs ys : List A} → Perm xs ys → any p xs ≡ any p ys
  any-perm p h = ∥∥₁_elim h (Bool-set _ _) (any-permᴰ p)

  all-permᴰ : (p : A → Bool) {xs ys : List A} → Permᴰ xs ys → all p xs ≡ all p ys
  all-permᴰ p Permᴰ.nil = refl
  all-permᴰ p (Permᴰ.cons e d) = ap₂ ◌&&◌ (ap p e) (all-permᴰ p d)
  all-permᴰ p (Permᴰ.swap e e') = ground (arith, ap p e, ap p e')
  all-permᴰ p (Permᴰ.trans d d') = all-permᴰ p d ∙ all-permᴰ p d'

  pub all-perm : (p : A → Bool) {xs ys : List A} → Perm xs ys → all p xs ≡ all p ys
  all-perm p h = ∥∥₁_elim h (Bool-set _ _) (all-permᴰ p)

  countp-permᴰ : (p : A → Bool) {xs ys : List A} → Permᴰ xs ys → countp p xs ≡ countp p ys
  countp-permᴰ p Permᴰ.nil = refl
  countp-permᴰ p (Permᴰ.cons e d) = omega (arith, ap (λ a. bit (p a)) e, countp-permᴰ p d)
  countp-permᴰ p (Permᴰ.swap e e') = omega (arith, ap (λ a. bit (p a)) e, ap (λ a. bit (p a)) e')
  countp-permᴰ p (Permᴰ.trans d d') = countp-permᴰ p d ∙ countp-permᴰ p d'

  pub countp-perm : (p : A → Bool) {xs ys : List A} → Perm xs ys → countp p xs ≡ countp p ys
  countp-perm p h = ∥∥₁_elim h (ℕ_set _ _) (countp-permᴰ p)

  length-permᴰ : {xs ys : List A} → Permᴰ xs ys → length xs ≡ length ys
  length-permᴰ Permᴰ.nil = refl
  length-permᴰ (Permᴰ.cons e d) = ap suc (length-permᴰ d)
  length-permᴰ (Permᴰ.swap e e') = refl
  length-permᴰ (Permᴰ.trans d d') = length-permᴰ d ∙ length-permᴰ d'

  pub length-perm : {xs ys : List A} → Perm xs ys → length xs ≡ length ys
  length-perm h = ∥∥₁_elim h (ℕ_set _ _) length-permᴰ

  module _ {κ} (P : A → Type κ) (P-prop : (a : A) → IsProp (P a)) where
    All-prop : (xs : List A) → IsProp (All P xs)
    All-prop [] = λ a b. refl
    All-prop (x ∷ xs) = ×_prop (P-prop x) (All-prop xs)

    All-permᴰ : {xs ys : List A} → Permᴰ xs ys → All P xs → All P ys
    All-permᴰ Permᴰ.nil h = h
    All-permᴰ (Permᴰ.cons e d) h = (subst P e h.0, All-permᴰ d h.1)
    All-permᴰ (Permᴰ.swap e e') h = (subst P e' h.1.0, (subst P e h.0, h.1.1))
    All-permᴰ (Permᴰ.trans d d') h = All-permᴰ d' (All-permᴰ d h)

    pub All-perm : {xs ys : List A} → Perm xs ys → All P xs → All P ys
    All-perm {ys = ys} h k = ∥∥₁_elim h (All-prop ys) (λ d. All-permᴰ d k)

-- Rows and columns of a table hold the same entries.
module _ {κ μ} {B : Type κ} {C : Type μ} where
  flat_map-nil : (bs : List B) → flat_map {A = B} {B = C} (λ b. []) bs ≡ []
  unfolding flat_map
  flat_map-nil [] = refl
  flat_map-nil (b ∷ bs) = flat_map-nil bs

  flat_map-append :
      (f g : B → List C) (bs : List B)
      → Perm (flat_map f bs ++ flat_map g bs) (flat_map (λ b. f b ++ g b) bs)
  unfolding flat_map
  flat_map-append f g [] = Perm.refl []
  flat_map-append f g (b ∷ bs) =
      let fs = flat_map f bs in
      let gs = flat_map g bs in
      let swapped : Perm (fs ++ (g b ++ gs)) (g b ++ (fs ++ gs)) =
        subst (λ xs. Perm (fs ++ (g b ++ gs)) xs) (append_assoc (g b) fs gs)
          (subst (λ xs. Perm xs ((g b ++ fs) ++ gs)) (append_assoc fs (g b) gs)
            (Perm.append_right gs (perm_append_comm fs (g b)))) in
      subst (λ xs. Perm xs ((f b ++ g b) ++ flat_map (λ c. f c ++ g c) bs))
        (sym (append_assoc (f b) fs (g b ++ gs)))
        (subst (λ xs. Perm (f b ++ (fs ++ (g b ++ gs))) xs)
          (sym (append_assoc (f b) (g b) (flat_map (λ c. f c ++ g c) bs)))
          (Perm.append_left (f b)
            (Perm.trans swapped (Perm.append_left (g b) (flat_map-append f g bs)))))

module _ {ℓ κ μ} {A : Type ℓ} {B : Type κ} {C : Type μ} where
  pub flat_map_swap :
      (f : A → B → List C) (xs : List A) (ys : List B)
      → Perm (flat_map (λ x. flat_map (f x) ys) xs) (flat_map (λ y. flat_map (λ x. f x y) xs) ys)
  unfolding flat_map
  flat_map_swap f [] ys = subst (λ zs. Perm [] zs) (sym (flat_map-nil ys)) (Perm.refl [])
  flat_map_swap f (x ∷ xs) ys =
      Perm.trans (Perm.append_left (flat_map (f x) ys) (flat_map_swap f xs ys))
        (flat_map-append (f x) (λ y. flat_map (λ a. f a y) xs) ys)
