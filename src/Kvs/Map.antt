-- ===== src/Kvs/Map.antt =====
-- The entries of a store as a map from keys to values.
use mathlib.Core.List.{Permᴰ, Perm}
use mathlib.Core.Logic.{∥∥₁_elim}
use mathlib.Core.Option.{some-injective}
use laik.Prelude.{
  ℕ, zero, suc, ◌+◌, ◌≤◌, Bool, true, List, [], ◌∷◌, ◌++◌, length, get_elem?, countp, countp-perm,
  Option, none, some, ◌≡◌, refl, ap, ap₂, bit, sym, ◌∙◌, subst, arith, if◌then◌else◌,
}
use laik.Prelude.Int.{pos, eq_ℤ}
use laik.Kvs.{Entry, strcmp}
use laik.Kvs.Store.{set_at}
use laik.Kvs.Order.{strcmp_eq}
use laik.Kvs.Search.{key_of, same_key}
use laik.Kvs.Lookup.{same_key-eq, same_key-true}

-- The value of the first entry with the key.
unfoldable pub value_at : List Entry → List ℕ → Option (List ℕ)
value_at [] k = none
value_at (e ∷ es) k = if same_key k e then e.value else value_at es k

abbrev pub same_string : List ℕ → List ℕ → Bool
same_string j k = eq_ℤ (strcmp j k) (pos 0)

-- A map with another value for one key.
abbrev pub put : List ℕ → Option (List ℕ) → (List ℕ → Option (List ℕ)) → List ℕ → Option (List ℕ)
put k v m j = if same_string k j then v else m j

pub value_at-none :
    (k : List ℕ) (es : List Entry) → countp (same_key k) es ≡ 0 → value_at es k ≡ none
unfolding value_at
value_at-none k [] h = refl
value_at-none k (e ∷ es) h = ground (arith, value_at-none k es)

key_at-countp :
    (k : List ℕ) (es : List Entry) (i : ℕ)
    → key_of (get_elem? es i) ≡ some k
    → 1 ≤ countp (same_key k) es
key_at-countp k [] i h = absurd cc
key_at-countp k (x ∷ xs) zero h = ground (arith, same_key-true k x (some-injective _ _ h))
key_at-countp k (x ∷ xs) (suc i) h = omega (arith, key_at-countp k xs i h)

value_at-entry : (x : Entry) (xs : List Entry) → value_at (x ∷ xs) x.key ≡ x.value
unfolding value_at
value_at-entry x xs = rw (same_key-true x.key x refl) refl

pub value_at-get_elem? :
    (es : List Entry) (i : ℕ) {e : Entry}
    → get_elem? es i ≡ some e
    → countp (same_key e.key) es ≤ 1
    → value_at es e.key ≡ e.value
unfolding value_at
value_at-get_elem? [] i h d = absurd cc
value_at-get_elem? (x ∷ xs) zero h d =
    subst (λ y. value_at (x ∷ xs) y.key ≡ y.value) (some-injective _ _ h) (value_at-entry x xs)
value_at-get_elem? (x ∷ xs) (suc i) {e} h d =
    ground (arith, key_at-countp e.key xs i (ap key_of h), value_at-get_elem? xs i h)

same_key-string : (x e' : Entry) (j : List ℕ) → e'.key ≡ x.key → same_string e'.key j ≡ same_key j x
same_key-string x e' j h = ap (λ y. same_string y j) h

-- Two entries with one key
same_key-both :
    (x : Entry) (j k : List ℕ) → same_key j x ≡ true → same_string k j ≡ true → same_key k x ≡ true
same_key-both x j k h l = same_key-true k x (same_key-eq j x h ∙ sym (strcmp_eq k j l))

pub value_at-set_at :
    (es : List Entry) (i : ℕ) (e' : Entry) (j : List ℕ)
    → key_of (get_elem? es i) ≡ some e'.key
    → countp (same_key e'.key) es ≤ 1
    → value_at (set_at i e' es) j ≡ put e'.key e'.value (value_at es) j
unfolding value_at set_at
value_at-set_at [] i e' j h d = absurd cc
value_at-set_at (x ∷ xs) zero e' j h d =
    ground (arith, same_key-string x e' j (sym (some-injective _ _ h)))
value_at-set_at (x ∷ xs) (suc i) e' j h d =
    ground
      (arith, key_at-countp e'.key xs i h, same_key-both x j e'.key, value_at-set_at xs i e' j h)

pub countp-set_at :
    (es : List Entry) (i : ℕ) (e' : Entry) (j : List ℕ)
    → key_of (get_elem? es i) ≡ some e'.key
    → countp (same_key j) (set_at i e' es) ≡ countp (same_key j) es
unfolding set_at
countp-set_at [] i e' j h = absurd cc
countp-set_at (x ∷ xs) zero e' j h =
    ap (λ b. bit b + countp (same_key j) xs) (same_key-string x e' j (sym (some-injective _ _ h)))
countp-set_at (x ∷ xs) (suc i) e' j h = omega (arith, countp-set_at xs i e' j h)

pub length-set_at : (es : List Entry) (i : ℕ) (e' : Entry) → length (set_at i e' es) ≡ length es
unfolding set_at
length-set_at [] i e' = refl
length-set_at (x ∷ xs) zero e' = refl
length-set_at (x ∷ xs) (suc i) e' = ap suc (length-set_at xs i e')

pub key_of-set_at :
    (es : List Entry) (i : ℕ) (e' : Entry) (x : ℕ)
    → key_of (get_elem? es i) ≡ some e'.key
    → key_of (get_elem? (set_at i e' es) x) ≡ key_of (get_elem? es x)
unfolding set_at
key_of-set_at [] i e' x h = absurd cc
key_of-set_at (y ∷ ys) zero e' zero h = sym h
key_of-set_at (y ∷ ys) zero e' (suc x) h = refl
key_of-set_at (y ∷ ys) (suc i) e' zero h = refl
key_of-set_at (y ∷ ys) (suc i) e' (suc x) h = key_of-set_at ys i e' x h

pub value_at-append :
    (es : List Entry) (e : Entry) (j : List ℕ)
    → countp (same_key e.key) es ≡ 0
    → value_at (es ++ (e ∷ [])) j ≡ put e.key e.value (value_at es) j
unfolding value_at
value_at-append [] e j h = refl
value_at-append (x ∷ xs) e j h = ground (arith, same_key-both x j e.key, value_at-append xs e j)

module _ (k : List ℕ) where
  value_at-permᴰ :
      {xs ys : List Entry}
      → Permᴰ xs ys
      → countp (same_key k) xs ≤ 1
      → value_at xs k ≡ value_at ys k
  unfolding value_at
  value_at-permᴰ Permᴰ.nil h = refl
  value_at-permᴰ (Permᴰ.cons e d) h =
      ap₂ (λ x o. if same_key k x then x.value else o) e (value_at-permᴰ d (omega arith))
  value_at-permᴰ (Permᴰ.swap {a} {b} {l = l} e e') h =
      swapped a b l h ∙ ap₂ (λ x y. value_at (y ∷ x ∷ l) k) e e'
    where
      swapped :
          (x y : Entry) (l : List Entry)
          → countp (same_key k) (x ∷ y ∷ l) ≤ 1
          → value_at (x ∷ y ∷ l) k ≡ value_at (y ∷ x ∷ l) k
      swapped x y l h = ground arith
  value_at-permᴰ (Permᴰ.trans d d') h =
      value_at-permᴰ d h
      ∙ value_at-permᴰ d' (subst (λ n. n ≤ 1) (countp-perm (same_key k) (∣ d ∣₁)) h)

pub value_at-perm :
    (k : List ℕ) {xs ys : List Entry}
    → Perm xs ys
    → countp (same_key k) xs ≤ 1
    → value_at xs k ≡ value_at ys k
value_at-perm k h d = ∥∥₁_elim h (value_set _ _) (λ p. value_at-permᴰ k p d)
  where
    value_set : IsSet (Option (List ℕ))
    value_set = hlevel
