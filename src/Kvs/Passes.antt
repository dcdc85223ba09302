-- ===== src/Kvs/Passes.antt =====
-- `laik_kvs_sort` and `laik_kvs_clean`, which pass over all entries.
use mathlib.Core.Option.{some-injective}
use laik.Prelude.{
  ℕ, zero, suc, ◌+◌, ◌≤◌, ◌<◌, List, [], ◌∷◌, length, length-perm, countp-perm, get_elem?,
  get_elem?-some, countp, none, some, ◌≡◌, ◌≢◌, refl, ap, sym, ◌∙◌, subst, arith, Bool-cases,
  Option-cases, inl, inr, ◌==◌, ==_iff, done,
}
use laik.Prelude.Int.{pos, ◌≤ℤ◌}
use laik.Prelude.Sort.{QSort, IsSorted, Below}
use laik.Kvs.{Entry, KvStore, strcmp}
use laik.Kvs.Journal.{entrycmp}
use laik.Kvs.Order.{entrycmp-IsOrder}
use laik.Kvs.Store.{set_at, clean_from, kvs_clean, kvs_sort}
use laik.Kvs.Search.{key_of, same_key, SortedUpto}
use laik.Kvs.Map.{value_at, value_at-perm, length-set_at}
use laik.Kvs.Invariant.{IsStore, Implements}
use laik.Kvs.Updates.{remove_entry_lem}

Below-get_elem? :
    (x : Entry) (es : List Entry) (j : ℕ) (b : List ℕ)
    → Below entrycmp x es
    → key_of (get_elem? es j) ≡ some b
    → strcmp x.key b ≤ℤ pos 0
unfolding entrycmp
Below-get_elem? x [] j b h l = absurd cc
Below-get_elem? x (e ∷ es) zero b h l =
    subst (λ k. strcmp x.key k ≤ℤ pos 0) (some-injective _ _ l) h.0
Below-get_elem? x (e ∷ es) (suc j) b h l = Below-get_elem? x es j b h.1 l

IsSorted-SortedUpto : (es : List Entry) → IsSorted entrycmp es → SortedUpto (length es) es
IsSorted-SortedUpto [] s i j a b lt le h l = absurd (omega arith)
IsSorted-SortedUpto (e ∷ es) s i zero a b lt le h l = absurd (omega arith)
IsSorted-SortedUpto (e ∷ es) s zero (suc j) a b lt le h l =
    subst (λ k. strcmp k b ≤ℤ pos 0) (some-injective _ _ h) (Below-get_elem? e es j b s.0 l)
IsSorted-SortedUpto (e ∷ es) s (suc i) (suc j) a b lt le h l =
    IsSorted-SortedUpto es s.1 i j a b (omega arith) (omega arith) h l

-- Sorting keeps the map.
pub kvs_sort-Implements :
    (q : QSort) {kvs : KvStore} → IsStore kvs → Implements (kvs_sort q kvs) (value_at kvs.entries)
unfolding kvs_sort
kvs_sort-Implements q {kvs} is =
    let perm = q.sort-perm Entry entrycmp kvs.entries in
    let count : (k : List ℕ) → countp (same_key k) (q.sort Entry entrycmp kvs.entries) ≤ 1 =
      λ k. subst (λ n. n ≤ 1) (sym (countp-perm (same_key k) perm)) (is.distinct k) in
    let same_length = length-perm perm in
    (
      record {
        distinct = count;
        sorted =
            subst (λ n. SortedUpto n (q.sort Entry entrycmp kvs.entries)) same_length
              (IsSorted-SortedUpto _ (q.sort-IsSorted Entry entrycmp kvs.entries entrycmp-IsOrder));
        upto = omega (arith, same_length);
        fits = omega (arith, same_length, is.fits);
        positive = is.positive;
        pending = is.pending;
        held = is.held;
        unsorted = is.unsorted;
        outside = is.outside;
      },
      λ j. value_at-perm j perm (count j),
    )

-- The first `i` entries have no value.
abbrev Cleaned : List Entry → ℕ → Type 0
Cleaned es i = (x : ℕ) (e : Entry) → x < i → get_elem? es x ≡ some e → e.value ≡ none

Cleaned-value_at :
    (es : List Entry) (k : List ℕ)
    → ((x : ℕ) (e : Entry) → get_elem? es x ≡ some e → e.value ≡ none)
    → value_at es k ≡ none
unfolding value_at
Cleaned-value_at [] k h = refl
Cleaned-value_at (e ∷ es) k h =
    ground (arith, h 0 e refl, Cleaned-value_at es k (λ x e'. h (suc x) e'))

pub set_at-get_elem? :
    (es : List Entry) (i : ℕ) (e' e : Entry) (x : ℕ)
    → get_elem? (set_at i e' es) x ≡ some e
    → (x ≢ i → get_elem? es x ≡ some e) × (x ≡ i → e' ≡ e)
unfolding set_at
set_at-get_elem? [] i e' e x h = absurd cc
set_at-get_elem? (y ∷ ys) zero e' e zero h = (λ ne. absurd (ne refl), λ eq. some-injective _ _ h)
set_at-get_elem? (y ∷ ys) zero e' e (suc x) h = (λ ne. h, λ eq. absurd (omega arith))
set_at-get_elem? (y ∷ ys) (suc i) e' e zero h = (λ ne. h, λ eq. absurd (omega arith))
set_at-get_elem? (y ∷ ys) (suc i) e' e (suc x) h =
    let rec = set_at-get_elem? ys i e' e x h in
    (λ ne. rec.0 (λ eq. ne (ap suc eq)), λ eq. rec.1 (omega arith))

Cleaned-set_at :
    (es : List Entry) (i : ℕ) (e' : Entry)
    → e'.value ≡ none
    → Cleaned es i
    → Cleaned (set_at i e' es) (i + 1)
Cleaned-set_at es i e' empty cleaned x y lt here =
    let (other, same) = set_at-get_elem? es i e' y x here in
    elim (Bool-cases (x == i)) [
      | inl eq ↦ sym (ap (λ z. z.value) (same (ground arith))) ∙ empty
      | inr ne ↦ cleaned x y (ground arith) (other (λ eq. ground arith))
    ]

Cleaned-next :
    (es : List Entry) (i : ℕ) {e : Entry}
    → get_elem? es i ≡ some e
    → e.value ≡ none
    → Cleaned es i
    → Cleaned es (i + 1)
Cleaned-next es i at empty cleaned x y lt here = elim (Bool-cases (x == i)) [
  | inl eq ↦
      let at_x = ap (get_elem? es) (sym ((==_iff x i).0 eq)) in
      ap (λ z. z.value) (some-injective _ _ (sym here ∙ sym at_x ∙ at)) ∙ empty
  | inr ne ↦ cleaned x y (ground arith) here
]

pub index-length : (es : List Entry) (x : ℕ) {e : Entry} → get_elem? es x ≡ some e → x < length es
index-length [] x at = absurd cc
index-length (y ∷ ys) zero at = omega arith
index-length (y ∷ ys) (suc x) at = omega (arith, index-length ys x at)

clean_from_lem :
    (n i : ℕ) {kvs : KvStore}
    → IsStore kvs
    → n + i ≡ length kvs.entries
    → Cleaned kvs.entries i
    → (kvs' : KvStore) × (clean_from n i kvs ≡ done kvs') × Implements kvs' (λ k. none)
unfolding clean_from
clean_from_lem zero i {kvs} is h cleaned = (
  kvs,
  refl,
  (
    is,
    λ j.
        Cleaned-value_at kvs.entries j
          (λ x e at. cleaned x e (omega (arith, index-length kvs.entries x at)) at),
  ),
)
clean_from_lem (suc n) i {kvs} is h cleaned =
    let (e, at) = get_elem?-some kvs.entries i (omega arith) in
    elim (Option-cases e.value) [
      | inl empty ↦
          let (kvs', returns, implements) =
            clean_from_lem n (i + 1) is (omega arith)
              (Cleaned-next kvs.entries i at empty cleaned) in
          (kvs', rw (at, empty, returns, clean_from) refl, implements)
      | inr (v, full) ↦
          let e' : Entry = record e { value = none } in
          let (next, removed, entries, (is', _)) = remove_entry_lem is i e at in
          let size : n + (i + 1) ≡ length next.entries =
            omega (arith, ap length entries, length-set_at kvs.entries i e') in
          let (kvs', returns, implements) = clean_from_lem n (i + 1) is' size (
            subst (λ es. Cleaned es (i + 1)) (sym entries)
              (Cleaned-set_at kvs.entries i e' refl cleaned)) in
          (kvs', rw (at, full, removed, returns, clean_from) refl, implements)
    ]

-- Cleaning returns, and leaves the empty map.
pub kvs_clean-Implements :
    {kvs : KvStore}
    → IsStore kvs
    → (kvs' : KvStore) × (kvs_clean kvs ≡ done kvs') × Implements kvs' (λ k. none)
unfolding kvs_clean
kvs_clean-Implements {kvs} is =
    clean_from_lem (length kvs.entries) 0 is (omega arith) (λ x e lt at. absurd (omega arith))
