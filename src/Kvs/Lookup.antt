-- ===== src/Kvs/Lookup.antt =====
-- `laik_kvs_entry` as a whole, against a search through all entries.
use mathlib.Core.Option.{some-injective}
use laik.Prelude.{
  ℕ, zero, suc, ◌+◌, ◌-◌, ◌≤◌, ◌<◌, true, false, List, [], ◌∷◌, length, get_elem?, drop, countp,
  Option, none, some, ◌≡◌, ◌≢◌, refl, ap, sym, ◌∙◌, ltb, ltb→lt, subst, arith, Bool-cases, inl, inr,
}
use laik.Prelude.Int.{pos, eq_ℤ}
use laik.Kvs.{Entry, KvStore, strcmp}
use laik.Kvs.Store.{search_sorted, search_linear, kvs_entry}
use laik.Kvs.Order.{strcmp_refl, strcmp_eq}
use laik.Kvs.Search.{key_of, SortedUpto, same_key, Distinct, Explains, search_sorted-Explains}

suc_add : (n i : ℕ) → suc n + i ≡ suc (n + i)
suc_add n i = omega arith

pub self_sub : (i : ℕ) → 0 ≡ i - i
self_sub i = omega arith

get_elem?-drop : (n : ℕ) (es : List Entry) (i : ℕ) → get_elem? (drop n es) i ≡ get_elem? es (n + i)
get_elem?-drop zero es i = ap (get_elem? es) (omega arith)
get_elem?-drop (suc n) [] i = refl
get_elem?-drop (suc n) (e ∷ es) i =
    get_elem?-drop n es i ∙ sym (ap (get_elem? (e ∷ es)) (suc_add n i))

pub same_key_refl : (e : Entry) → same_key e.key e ≡ true
same_key_refl e = ap (λ c. eq_ℤ c (pos 0)) (strcmp_refl e.key)

pub same_key-eq : (k : List ℕ) (e : Entry) → same_key k e ≡ true → e.key ≡ k
same_key-eq k e h = strcmp_eq e.key k h

pub same_key-true : (k : List ℕ) (e : Entry) → e.key ≡ k → same_key k e ≡ true
same_key-true k e h = subst (λ x. same_key x e ≡ true) h (same_key_refl e)

key_of-count :
    (k : List ℕ) (es : List Entry) (i : ℕ)
    → key_of (get_elem? es i) ≡ some k
    → 1 ≤ countp (same_key k) es
key_of-count k [] i h = absurd cc
key_of-count k (e ∷ es) zero h = ground (arith, same_key-true k e (some-injective _ _ h))
key_of-count k (e ∷ es) (suc i) h = omega (arith, key_of-count k es i h)

sub_suc : (i j : ℕ) → i + 1 ≤ j → suc (j - (i + 1)) ≡ j - i
sub_suc i j h = omega arith

add_sub : (x n : ℕ) → n ≤ x → n + (x - n) ≡ x
add_sub x n h = omega arith

-- In a list with distinct keys a key stands at one index only.
pub Distinct-index :
    (k : List ℕ) (es : List Entry) (i j : ℕ)
    → countp (same_key k) es ≤ 1
    → key_of (get_elem? es i) ≡ some k
    → key_of (get_elem? es j) ≡ some k
    → i ≡ j
Distinct-index k [] i j d h l = absurd cc
Distinct-index k (e ∷ es) zero zero d h l = refl
Distinct-index k (e ∷ es) zero (suc j) d h l =
    ground (arith, same_key-true k e (some-injective _ _ h), key_of-count k es j l)
Distinct-index k (e ∷ es) (suc i) zero d h l =
    ground (arith, same_key-true k e (some-injective _ _ l), key_of-count k es i h)
Distinct-index k (e ∷ es) (suc i) (suc j) d h l = ap suc (Distinct-index k es i j (omega arith) h l)

module _ (key : List ℕ) (x : ℕ) where
  -- What an answer of the linear search says; `x` is any index.
  abbrev Linear : ℕ → List Entry → Option ℕ → Type 0
  Linear i es (some j) = (i ≤ j) × (key_of (get_elem? es (j - i)) ≡ some key)
  Linear i es none = key_of (get_elem? es x) ≢ some key

module _ (key : List ℕ) where
  search_linear-Linear : (es : List Entry) (i x : ℕ) → Linear key x i es (search_linear i es key)
  unfolding search_linear
  search_linear-Linear [] i x = λ h. absurd cc
  search_linear-Linear (e ∷ es) i x =
      elim (eq_ℤ (strcmp e.key key) (pos 0))
          as (λ b.
            same_key key e ≡ b
            → Linear key x i (e ∷ es)
                (elim b [ true ↦ some i | false ↦ search_linear (i + 1) es key ])) [
                  | true ↦ λ h. (
                    omega arith,
                    subst (λ j. key_of (get_elem? (e ∷ es) j) ≡ some key) (self_sub i)
                        (ap some (same_key-eq key e h)),
                  )
                  | false ↦ λ h.
                      later x h (search_linear (i + 1) es key) (search_linear-Linear es (i + 1))
                ]
        refl
    where
      later :
          (x : ℕ)
          → same_key key e ≡ false
          → (o : Option ℕ) → ((y : ℕ) → Linear key y (i + 1) es o)
          → Linear key x i (e ∷ es) o
      later x h (some j) rec = (
        omega (arith, (rec 0).0),
        subst (λ n. key_of (get_elem? (e ∷ es) n) ≡ some key) (sub_suc i j (rec 0).0) (rec 0).1,
      )
      later zero h none rec =
          λ found. ground (arith, same_key-true key e (some-injective _ _ found))
      later (suc x') h none rec = rec x'

  -- What an answer of `laik_kvs_entry` says.
  abbrev pub Answers : List Entry → ℕ → Option ℕ → Type 0
  Answers es x (some j) = key_of (get_elem? es j) ≡ some key
  Answers es x none = key_of (get_elem? es x) ≢ some key

  module _ (es : List Entry) (n : ℕ) where
    -- the linear search behind the first `n` entries
    search_linear-Answers :
        (x : ℕ)
        → (x < n → key_of (get_elem? es x) ≢ some key)
        → Answers es x (search_linear n (drop n es) key)
    search_linear-Answers x before =
        elim (search_linear n (drop n es) key)
            as (λ o. ((y : ℕ) → Linear key y n (drop n es) o) → Answers es x o) [
              | some j ↦ λ h.
                  subst (λ i. key_of (get_elem? es i) ≡ some key) (omega (arith, (h 0).0))
                    (ap key_of (sym (get_elem?-drop n es (j - n))) ∙ (h 0).1)
              | none ↦ λ h found. elim (Bool-cases (ltb x n)) [
                | inl lt ↦ before (ltb→lt x n lt) found
                | inr ge ↦ h (x - n) (
                    ap key_of (get_elem?-drop n es (x - n))
                    ∙ ap (λ i. key_of (get_elem? es i)) (add_sub x n (ground arith))
                    ∙ found)
              ]
            ]
          (search_linear-Linear (drop n es) n)

  module _ (kvs : KvStore) (sorted : SortedUpto kvs.sorted_upto kvs.entries)
      (fits : kvs.sorted_upto ≤ length kvs.entries) where
    pub kvs_entry-Answers : (x : ℕ) → Answers kvs.entries x (kvs_entry kvs key)
    unfolding kvs_entry
    kvs_entry-Answers x =
        elim (search_sorted (suc kvs.sorted_upto) kvs.entries key 0 kvs.sorted_upto)
            as (λ o.
              Explains kvs.entries key 0 kvs.sorted_upto x o
              → Answers kvs.entries x (elim o [
                | some i ↦ some i
                | none ↦ search_linear kvs.sorted_upto (drop kvs.sorted_upto kvs.entries) key
              ])) [
                | some j ↦ λ h. h
                | none ↦ λ h. search_linear-Answers kvs.entries kvs.sorted_upto x (h (omega arith))
              ]
          (search_sorted-Explains kvs.entries key kvs.sorted_upto sorted x (suc kvs.sorted_upto) 0
            kvs.sorted_upto (omega arith) (omega arith) fits)

    -- Where the first `sorted_upto` entries are sorted and no key stands twice, `laik_kvs_entry` finds
    -- what a linear search through all entries finds.
    pub kvs_entry-search_linear :
        Distinct kvs.entries → kvs_entry kvs key ≡ search_linear 0 kvs.entries key
    kvs_entry-search_linear d =
        same_answers (kvs_entry kvs key) (search_linear 0 kvs.entries key) kvs_entry-Answers
          (λ x. search_linear-Answers kvs.entries 0 x (λ h. absurd (omega arith)))
      where
        same_answers :
            (o p : Option ℕ)
            → ((x : ℕ) → Answers kvs.entries x o)
            → ((x : ℕ) → Answers kvs.entries x p)
            → o ≡ p
        same_answers none none h l = refl
        same_answers none (some j) h l = absurd (h j (l 0))
        same_answers (some i) none h l = absurd (l i (h 0))
        same_answers (some i) (some j) h l =
            ap some (Distinct-index key kvs.entries i j (d key) (h 0) (l 0))
