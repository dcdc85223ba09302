-- ===== src/Mpi/Sync/Local.antt =====
-- What a task changes between two synchronizations.
use laik.Prelude.{
  ℕ, ◌-◌, true, false, List, [], ◌∷◌, ◌++◌, length, get_elem?, get_elem?-append_left,
  get_elem?-append_right, countp, Option, none, some, ◌≡◌, ◌≢◌, refl, ap, ap₂, sym, ◌∙◌, subst,
  arith, Bool-cases, inl, inr, if◌then◌else◌, ◌==◌, ==_iff, ltb, ltb→lt, done,
}
use laik.Kvs.{Entry, KvStore, memcmp_eq}
use laik.Kvs.Store.{kvs_entry, append_key, store_value, kvs_set, kvs_sets}
use laik.Kvs.Order.{strcmp_eq}
use laik.Kvs.Search.{key_of, same_key}
use laik.Kvs.Encode.{Change, NoZero}
use laik.Kvs.Add.{changes_add-Holds}
use laik.Kvs.Map.{value_at, put, same_string, value_at-get_elem?}
use laik.Kvs.Invariant.{
  kvs_entry-Found, replaced, replaced-IsStore, replaced-value_at, append_key-IsStore,
  append_key-last,
}
use laik.Kvs.Updates.{append_key-value_at, and_false}
use laik.Kvs.Lookup.{same_key_refl}
use laik.Kvs.Refine.{Map, Strings, as_string, put-same_map}
use laik.Kvs.Passes.{set_at-get_elem?}
use laik.Kvs.Union.{change_at, change_at-head, change_at-tail, or_else, or_else-none}
use laik.Kvs.Apply.{blank, blank_only, memcmp_eq-IsString}
use laik.Kvs.Apply.Whole.{updated_by}
use laik.Mpi.Sync.Tasks.{Since}

change_at-append :
    (ps : List Change) (p : Change) (k : List ℕ)
    → change_at (ps ++ (p ∷ [])) k ≡ or_else (change_at ps k) (change_at (p ∷ []) k)
unfolding change_at
change_at-append [] p k = refl
change_at-append ((j, w) ∷ ps) p k = ground (arith, change_at-append ps p k)

-- A change of a key that the list does not have.
module _ (ps : List Change) (k v : List ℕ) (new : change_at ps k ≡ none) where
  change_at-new : change_at (ps ++ ((k, v) ∷ [])) k ≡ some v
  change_at-new =
      change_at-append ps (k, v) k
      ∙ ap₂ or_else new (
          change_at-head (k, v) [] k
            (same_key_refl (record { key = k; value = none; updated = false })))

  change_at-old :
      (j w : List ℕ) → change_at ps j ≡ some w → change_at (ps ++ ((k, v) ∷ [])) j ≡ some w
  change_at-old j w e =
      change_at-append ps (k, v) j ∙ ap (λ o. or_else o (change_at ((k, v) ∷ []) j)) e

  put-updated_by :
      (m : Map) (j : List ℕ)
      → put k (some v) (updated_by ps m) j ≡ updated_by (ps ++ ((k, v) ∷ [])) m j
  unfolding change_at
  put-updated_by m j = elim (Bool-cases (same_string k j)) [
    | inl eq ↦
        ap (λ b. if b then some v else updated_by ps m j) eq
        ∙ sym (
            ap (λ o. or_else o (m j))
              (subst (λ x. change_at (ps ++ ((k, v) ∷ [])) x ≡ some v) (strcmp_eq k j eq)
                change_at-new))
    | inr ne ↦
        ap (λ b. if b then some v else updated_by ps m j) ne
        ∙ ap (λ o. or_else o (m j))
            (sym (
              change_at-append ps (k, v) j
              ∙ ap (or_else (change_at ps j)) (change_at-tail (k, v) [] j ne)
              ∙ or_else-none (change_at ps j)))
  ]

module _ {kvs : KvStore} {m : Map} {ps : List Change} (s : Since kvs m ps) (i : ℕ) (x : Entry)
    (v : List ℕ) (at : get_elem? kvs.entries i ≡ some x) (new : change_at ps x.key ≡ none) where
  store_value-Since :
      (kvs' : KvStore) × (store_value kvs i x v ≡ done (kvs', some i))
      × Since kvs' m (ps ++ ((x.key, v) ∷ []))
  unfolding store_value
  store_value-Since =
      let e' : Entry = record x { value = some v; updated = true } in
      let (c, returns, held, unsorted) = changes_add-Holds s.held s.store.unsorted x.key v in
      (
        replaced kvs i e' c,
        rw (s.store.outside, and_false x.updated, returns) refl,
        record {
          store = replaced-IsStore s.store i e' (ap key_of at) c _ held unsorted;
          held = held;
          values = λ j.
              replaced-value_at s.store i e' (ap key_of at) j
              ∙ put-same_map x.key (some v) (value_at kvs.entries) (updated_by ps m) j (s.values j)
              ∙ put-updated_by ps x.key v new m j;
          tracked = λ y e here on.
              let (other, same) = set_at-get_elem? kvs.entries i e' e y here in
              elim (Bool-cases (y == i)) [
                | inl eq ↦
                    let is = same ((==_iff y i).0 eq) in
                    (
                      v,
                      ap (λ z. z.value) (sym is),
                      subst (λ z. change_at (ps ++ ((x.key, v) ∷ [])) z.key ≡ some v) is
                          (change_at-new ps x.key v new),
                    )
                | inr ne ↦
                    let (w, value, change) = s.tracked y e (other (λ eq. ground arith)) on in
                    (w, value, change_at-old ps x.key v new e.key w change)
              ];
        },
      )

-- The store with a new key, which has no value yet.
append_key-Since :
    {kvs : KvStore} {m : Map} {ps : List Change} (k : List ℕ)
    → Since kvs m ps
    → countp (same_key k) kvs.entries ≡ 0
    → Since (append_key kvs k) m ps
unfolding append_key
append_key-Since {kvs} {ps = ps} k s absent = record {
  store = append_key-IsStore s.store k absent;
  held = s.held;
  values = λ j. append_key-value_at s.store k absent j ∙ s.values j;
  tracked = λ x e here on. elim (Bool-cases (ltb x (length kvs.entries))) [
    | inl lt ↦
        s.tracked x e
          (sym (get_elem?-append_left kvs.entries (blank k ∷ []) x (ltb→lt _ _ lt)) ∙ here) on
    | inr ge ↦ absurd (
        blank_only k (x - length kvs.entries) e
          (sym (get_elem?-append_right kvs.entries (blank k ∷ []) x (ground arith)) ∙ here) on)
  ];
}

module _ (behind : List ℕ → List ℕ) where
  found_Since :
      {kvs : KvStore} {m : Map} {ps : List Change}
      → Since kvs m ps
      → Strings m
      → (i : ℕ) (x : Entry) (str : List ℕ) → NoZero str
      → change_at ps x.key ≡ none
      → m x.key ≢ some (as_string str)
      → kvs_entry kvs x.key ≡ some i
      → get_elem? kvs.entries i ≡ some x
      → (value : Option (List ℕ)) → x.value ≡ value
      → (kvs' : KvStore) × (o : Option ℕ) × (kvs_sets behind kvs x.key str ≡ done (kvs', o))
        × Since kvs' m (ps ++ ((x.key, as_string str) ∷ []))
  unfolding kvs_sets kvs_set
  found_Since s strings i x str nz new other e at none held =
      let (kvs', returns, since) = store_value-Since s i x (as_string str) at new in
      (kvs', some i, rw (e, at, held, returns, kvs_sets, kvs_set) refl, since)
  found_Since {kvs} {m} {ps} s strings i x str nz new other e at (some old) held =
      let v = as_string str in
      let here : m x.key ≡ some old =
        sym (s.values x.key ∙ ap (λ o. or_else o (m x.key)) new)
        ∙ value_at-get_elem? kvs.entries i at (s.store.distinct x.key)
        ∙ held in
      elim (Bool-cases (memcmp_eq (length v) (old ++ behind old) v)) [
        | inl same ↦ absurd (
            other (
              here
              ∙ ap some (
                  memcmp_eq-IsString old v (behind old) (strings x.key old here) (str, refl, nz)
                    same)))
        | inr differs ↦
            let (kvs', returns, since) = store_value-Since s i x v at new in
            (kvs', some i, rw (e, at, held, differs, returns, kvs_sets, kvs_set) refl, since)
      ]

  -- `laik_kvs_sets` of a key that was not changed since the last synchronization, to a string other
  -- than it had then, returns; the change is added to those of the task, and to the journal.
  pub kvs_sets-Since :
      {kvs : KvStore} {m : Map} {ps : List Change}
      → Since kvs m ps
      → Strings m
      → (k str : List ℕ) → NoZero str
      → change_at ps k ≡ none
      → m k ≢ some (as_string str)
      → (kvs' : KvStore) × (o : Option ℕ) × (kvs_sets behind kvs k str ≡ done (kvs', o))
        × Since kvs' m (ps ++ ((k, as_string str) ∷ []))
  unfolding kvs_sets kvs_set append_key
  kvs_sets-Since {kvs} {m} {ps} s strings k str nz new other = elim (kvs_entry-Found s.store k) [
    | inl (e, absent) ↦
        let (kvs', returns, since) =
          store_value-Since (append_key-Since k s absent) (length kvs.entries) (blank k)
            (as_string str) (append_key-last s.store k absent) new in
        (kvs', some (length kvs.entries), rw (e, returns, kvs_sets, kvs_set) refl, since)
    | inr (i, x, e, at, eq) ↦
        subst
          (λ l.
            change_at ps l ≡ none
            → m l ≢ some (as_string str)
            → kvs_entry kvs l ≡ some i
            → (kvs' : KvStore) × (o : Option ℕ) × (kvs_sets behind kvs l str ≡ done (kvs', o))
              × Since kvs' m (ps ++ ((l, as_string str) ∷ [])))
          eq (λ n d f. found_Since s strings i x str nz n d f at x.value refl) new other e
  ]
