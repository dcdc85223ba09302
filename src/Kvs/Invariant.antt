-- ===== src/Kvs/Invariant.antt =====
-- The invariant of a store, and the changes of one entry that keep it.
use mathlib.Core.Option.{some-injective}
use laik.Prelude.{
  ℕ, suc, ◌≤◌, ◌<◌, true, false, List, [], ◌∷◌, ◌++◌, length, length-append, get_elem?,
  get_elem?-append_left, get_elem?-append_right, countp, countp-append, Option, none, some, ◌≡◌,
  ◌≢◌, refl, ap, sym, ◌∙◌, subst, arith, inl, inr, ◌⊎◌,
}
use laik.Kvs.{Entry, KvStore, Changes}
use laik.Kvs.Store.{set_at, kvs_entry, append_key}
use laik.Kvs.Search.{key_of, same_key, Distinct, SortedUpto}
use laik.Kvs.Lookup.{self_sub, same_key-eq, Answers, kvs_entry-Answers}
use laik.Kvs.Encode.{Change, Holds}
use laik.Kvs.Map.{value_at, put, value_at-set_at, countp-set_at, length-set_at, key_of-set_at}

-- A store between two calls, outside of `laik_kvs_sync`.
pub record IsStore (kvs : KvStore) : Type 0 where
  pub distinct : Distinct kvs.entries
  pub sorted : SortedUpto kvs.sorted_upto kvs.entries
  pub upto : kvs.sorted_upto ≤ length kvs.entries
  pub fits : length kvs.entries ≤ kvs.size
  pub positive : 0 < kvs.size
  pub pending : List Change
  pub held : Holds kvs.changes pending
  pub unsorted : kvs.changes.entries ≡ []
  pub outside : kvs.in_sync ≡ false

-- The store is in order, and its map is `m`.
abbrev pub Implements : KvStore → (List ℕ → Option (List ℕ)) → Type 0
Implements kvs m = IsStore kvs × ((j : List ℕ) → value_at kvs.entries j ≡ m j)

no_index-countp :
    (k : List ℕ) (es : List Entry)
    → ((x : ℕ) → key_of (get_elem? es x) ≢ some k)
    → countp (same_key k) es ≡ 0
no_index-countp k [] h = refl
no_index-countp k (e ∷ es) h =
    let differs : same_key k e ≢ true = λ s. h 0 (ap some (same_key-eq k e s)) in
    ground (arith, no_index-countp k es (λ x. h (suc x)))

-- What `laik_kvs_entry` finds: an entry with the key, or no entry has it.
abbrev pub Found : KvStore → List ℕ → Type 0
Found kvs k =
    ((kvs_entry kvs k ≡ none) × (countp (same_key k) kvs.entries ≡ 0))
    ⊎ ((i : ℕ) × (e : Entry) × (kvs_entry kvs k ≡ some i)
        × (get_elem? kvs.entries i ≡ some e)
        × (e.key ≡ k))

key_of-some :
    (o : Option Entry) (k : List ℕ) → key_of o ≡ some k → (e : Entry) × (o ≡ some e) × (e.key ≡ k)
key_of-some none k h = absurd cc
key_of-some (some e) k h = (e, refl, some-injective _ _ h)

pub kvs_entry-Found : {kvs : KvStore} → IsStore kvs → (k : List ℕ) → Found kvs k
kvs_entry-Found {kvs} is k =
    answered (kvs_entry kvs k) refl (kvs_entry-Answers k kvs is.sorted is.upto)
  where
    answered :
        (o : Option ℕ) → kvs_entry kvs k ≡ o → ((x : ℕ) → Answers k kvs.entries x o) → Found kvs k
    answered none e h = inl (e, no_index-countp k kvs.entries h)
    answered (some i) e h =
        let (x, at, eq) = key_of-some (get_elem? kvs.entries i) k (h 0) in inr (i, x, e, at, eq)

-- An entry is replaced by one with the same key, and the journal by another.
abbrev pub replaced : KvStore → ℕ → Entry → Changes → KvStore
replaced kvs i e' c = record kvs { entries = set_at i e' kvs.entries; changes = c }

module _ {kvs : KvStore} (is : IsStore kvs) (i : ℕ) (e' : Entry)
    (at : key_of (get_elem? kvs.entries i) ≡ some e'.key) where
  pub replaced-IsStore :
      (c : Changes) (ps : List Change) → Holds c ps → c.entries ≡ [] → IsStore (replaced kvs i e' c)
  replaced-IsStore c ps held unsorted = record {
    distinct = λ k. subst (λ n. n ≤ 1) (sym (countp-set_at kvs.entries i e' k at)) (is.distinct k);
    sorted = λ x y a b lt le h l.
        is.sorted x y a b lt le (sym (key_of-set_at kvs.entries i e' x at) ∙ h)
          (sym (key_of-set_at kvs.entries i e' y at) ∙ l);
    upto = omega (arith, is.upto, length-set_at kvs.entries i e');
    fits = omega (arith, is.fits, length-set_at kvs.entries i e');
    positive = is.positive;
    pending = ps;
    held = held;
    unsorted = unsorted;
    outside = is.outside;
  }

  pub replaced-value_at :
      (j : List ℕ)
      → value_at (set_at i e' kvs.entries) j ≡ put e'.key e'.value (value_at kvs.entries) j
  replaced-value_at j = value_at-set_at kvs.entries i e' j at (is.distinct e'.key)

abbrev new_entry : List ℕ → Entry
new_entry k = record { key = k; value = none; updated = false }

module _ {kvs : KvStore} (is : IsStore kvs) (k : List ℕ)
    (absent : countp (same_key k) kvs.entries ≡ 0) where
  append_key-Distinct : Distinct (kvs.entries ++ (new_entry k ∷ []))
  append_key-Distinct j =
      let free : same_key j (new_entry k) ≡ true → countp (same_key j) kvs.entries ≡ 0 = λ s.
        subst (λ x. countp (same_key x) kvs.entries ≡ 0) (same_key-eq j (new_entry k) s) absent in
      ground (arith, countp-append (same_key j) kvs.entries (new_entry k ∷ []), is.distinct j)

  pub append_key-IsStore : IsStore (append_key kvs k)
  unfolding append_key
  append_key-IsStore = record {
    distinct = append_key-Distinct;
    sorted = λ x y a b lt le h l.
        is.sorted x y a b lt le
          (sym (ap key_of (get_elem?-append_left kvs.entries _ x (omega (arith, is.upto)))) ∙ h)
          (sym (ap key_of (get_elem?-append_left kvs.entries _ y (omega (arith, is.upto)))) ∙ l);
    upto = omega (arith, is.upto, length-append kvs.entries (new_entry k ∷ []));
    fits = ground (arith, is.fits, is.positive, length-append kvs.entries (new_entry k ∷ []));
    positive = ground (arith, is.positive);
    pending = is.pending;
    held = is.held;
    unsorted = is.unsorted;
    outside = is.outside;
  }

  pub append_key-last :
      get_elem? (append_key kvs k).entries (length kvs.entries) ≡ some (new_entry k)
  unfolding append_key
  append_key-last =
      get_elem?-append_right kvs.entries (new_entry k ∷ []) (length kvs.entries) (omega arith)
      ∙ ap (get_elem? (new_entry k ∷ [])) (sym (self_sub (length kvs.entries)))
