-- ===== src/Kvs/Union/Steps.antt =====
-- One change more in a union, for the three ways in which two sorted lists can begin.
use laik.Kvs.Union.{
  change_at, or_else, agrees, Conflict, Union, change_at-Head, change_at-head, change_at-tail,
  change_at-later,
}
use mathlib.Core.Option.{some-injective}
use laik.Prelude.{
  ℕ, true, false, none, some, List, ◌∷◌, ◌≡◌, ap, ap₂, sym, ◌∙◌, Bool-cases, inl, inr,
}
use laik.Prelude.Int.{pos, eq_ℤ}
use laik.Kvs.Order.{strcmp_refl, strcmp_eq}
use laik.Kvs.Map.{same_string}
use laik.Kvs.Encode.{Change}
use laik.Kvs.Append.{Head, Ascending}

-- The first key of one list is below that of the other.
module _ (x : Change) (xs ys : List Change) (asc : Ascending (x ∷ xs)) (ascy : Ascending ys)
    (less : Head x ys) where
  missing : change_at ys x.0 ≡ none
  missing = change_at-Head x ys less ascy

  elsewhere : (k : List ℕ) {w : List ℕ} → change_at ys k ≡ some w → same_string x.0 k ≡ false
  elsewhere k e = elim (Bool-cases (same_string x.0 k)) [
    | inr ne ↦ ne
    | inl eq ↦ let gone = ap (change_at ys) (sym (strcmp_eq x.0 k eq)) ∙ missing in absurd cc
  ]

  pub Conflict-less : Conflict xs ys → Conflict (x ∷ xs) ys
  Conflict-less (k, v, w, h, l, differs) =
      (k, v, w, change_at-tail x xs k (change_at-later x xs k asc.0 asc.1 h) ∙ h, l, differs)

  pub Conflict-greater : Conflict ys xs → Conflict ys (x ∷ xs)
  Conflict-greater (k, v, w, h, l, differs) =
      (k, v, w, h, change_at-tail x xs k (change_at-later x xs k asc.0 asc.1 l) ∙ l, differs)

  pub Union-less : {ws : List Change} → Union xs ys ws → Union (x ∷ xs) ys (x ∷ ws)
  Union-less {ws} u = record {
    ascending = (u.head x asc.0 less, u.ascending);
    head = λ p h l. h;
    values = λ k. elim (Bool-cases (same_string x.0 k)) [
      | inl eq ↦
          change_at-head x ws k eq
          ∙ ap (λ o. or_else o (change_at ys k)) (sym (change_at-head x xs k eq))
      | inr ne ↦
          change_at-tail x ws k ne
          ∙ u.values k
          ∙ ap (λ o. or_else o (change_at ys k)) (sym (change_at-tail x xs k ne))
    ];
    agree = λ k v w h l. u.agree k v w (sym (change_at-tail x xs k (elsewhere k l)) ∙ h) l;
  }

  pub Union-greater : {ws : List Change} → Union ys xs ws → Union ys (x ∷ xs) (x ∷ ws)
  Union-greater {ws} u = record {
    ascending = (u.head x less asc.0, u.ascending);
    head = λ p h l. l;
    values = λ k. elim (Bool-cases (same_string x.0 k)) [
      | inl eq ↦
          change_at-head x ws k eq
          ∙ ap₂ or_else (sym (ap (change_at ys) (sym (strcmp_eq x.0 k eq)) ∙ missing))
              (sym (change_at-head x xs k eq))
      | inr ne ↦
          change_at-tail x ws k ne
          ∙ u.values k
          ∙ ap (or_else (change_at ys k)) (sym (change_at-tail x xs k ne))
    ];
    agree = λ k v w h l. u.agree k v w h (sym (change_at-tail x xs k (elsewhere k h)) ∙ l);
  }

-- Both lists begin with the same key.
module _ (key left right : List ℕ) (xs ys : List Change) (ascx : Ascending ((key, left) ∷ xs))
    (ascy : Ascending ((key, right) ∷ ys)) where
  pub Conflict-equal : Conflict xs ys → Conflict ((key, left) ∷ xs) ((key, right) ∷ ys)
  Conflict-equal (k, v, w, h, l, differs) = (
    k,
    v,
    w,
    change_at-tail (key, left) xs k (change_at-later (key, left) xs k ascx.0 ascx.1 h) ∙ h,
    change_at-tail (key, right) ys k (change_at-later (key, right) ys k ascy.0 ascy.1 l) ∙ l,
    differs,
  )

  same_self : same_string key key ≡ true
  same_self = ap (λ c. eq_ℤ c (pos 0)) (strcmp_refl key)

  pub Conflict-here :
      agrees key left right ≡ false → Conflict ((key, left) ∷ xs) ((key, right) ∷ ys)
  Conflict-here differs = (
    key,
    left,
    right,
    change_at-head (key, left) xs key same_self,
    change_at-head (key, right) ys key same_self,
    differs,
  )

  pub Union-equal :
      {ws : List Change}
      → agrees key left right ≡ true
      → Union xs ys ws
      → Union ((key, left) ∷ xs) ((key, right) ∷ ys) ((key, left) ∷ ws)
  Union-equal {ws} same u = record {
    ascending = (u.head (key, left) ascx.0 ascy.0, u.ascending);
    head = λ p h l. h;
    values = λ k. elim (Bool-cases (same_string key k)) [
      | inl eq ↦
          change_at-head (key, left) ws k eq
          ∙ ap (λ o. or_else o (change_at ((key, right) ∷ ys) k))
              (sym (change_at-head (key, left) xs k eq))
      | inr ne ↦
          change_at-tail (key, left) ws k ne
          ∙ u.values k
          ∙ ap₂ or_else (sym (change_at-tail (key, left) xs k ne))
              (sym (change_at-tail (key, right) ys k ne))
    ];
    agree = λ k v w h l. elim (Bool-cases (same_string key k)) [
      | inl eq ↦
          let first : left ≡ v =
            some-injective _ _ (sym (change_at-head (key, left) xs k eq) ∙ h) in
          let second : right ≡ w =
            some-injective _ _ (sym (change_at-head (key, right) ys k eq) ∙ l) in
          sym (agrees-at k eq first second) ∙ same
      | inr ne ↦
          u.agree k v w (sym (change_at-tail (key, left) xs k ne) ∙ h)
            (sym (change_at-tail (key, right) ys k ne) ∙ l)
    ];
  }
    where
      agrees-at :
          (k : List ℕ) {v w : List ℕ}
          → same_string key k ≡ true
          → left ≡ v
          → right ≡ w
          → agrees key left right ≡ agrees k v w
      agrees-at k eq h l = ap (λ s. agrees s left right) (strcmp_eq key k eq) ∙ ap₂ (agrees k) h l
