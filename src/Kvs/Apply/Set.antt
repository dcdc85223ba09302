-- ===== src/Kvs/Apply/Set.antt =====
-- `laik_kvs_set` in a synchronization, for the values that a journal holds.
use laik.Kvs.Apply.{
  Syncing, Syncing-map, Becomes, IsString, changed, store_value-inside, changed-Syncing, blank,
  append_key-Syncing, kvs_entry-outer, memcmp_eq-IsString, memcmp_eq_refl,
}
use mathlib.Core.Option.{some-injective}
use laik.Prelude.{
  ℕ, true, false, List, ◌++◌, length, get_elem?, Option, none, some, ◌≡◌, refl, ap, sym, ◌∙◌, subst,
  Bool-cases, inl, inr, done,
}
use laik.Kvs.{Entry, KvStore, memcmp_eq}
use laik.Kvs.Store.{kvs_entry, append_key, kvs_set}
use laik.Kvs.Map.{put, value_at-get_elem?}
use laik.Kvs.Invariant.{kvs_entry-Found, append_key-last}
use laik.Kvs.Updates.{put-same}
use laik.Kvs.Refine.{Strings, Map}

module _ (behind : List ℕ → List ℕ) {news : Map} where
  set_found :
      {kvs : KvStore} {m : Map}
      → Syncing kvs news m
      → Strings m
      → (i : ℕ) (x : Entry) (v : List ℕ) → IsString v
      → news x.key ≡ some v
      → kvs_entry kvs x.key ≡ some i
      → get_elem? kvs.entries i ≡ some x
      → (o : Option (List ℕ)) → x.value ≡ o
      → (kvs' : KvStore) × (o' : Option ℕ) × (kvs_set behind kvs x.key (some v) ≡ done (kvs', o'))
        × Becomes kvs kvs' news (put x.key (some v) m)
  unfolding kvs_set
  set_found {kvs} {m} s strings i x v is new e at none held =
      let old : x.updated ≡ false = elim (Bool-cases x.updated) [
        | inr off ↦ off
        | inl on ↦ let full = s.settled i x v at on new in absurd cc
      ] in
      (
        changed s i x v at,
        some i,
        rw (e, at, held, store_value-inside s i x v at old, kvs_set) refl,
        (changed-Syncing s i x v at old, refl),
      )
  set_found {kvs} {m} s strings i x v is new e at (some old) held =
      let here : m x.key ≡ some old =
        sym (s.values x.key)
        ∙ value_at-get_elem? kvs.entries i at (s.store.distinct x.key)
        ∙ held in
      elim (Bool-cases (memcmp_eq (length v) (old ++ behind old) v)) [
        | inl same ↦
            let equal = memcmp_eq-IsString old v (behind old) (strings x.key old here) is same in
            (
              kvs,
              some i,
              rw (e, at, held, same, kvs_set) refl,
              (Syncing-map s (λ j. sym (put-same x.key (some v) m j (here ∙ ap some equal))), refl),
            )
        | inr differs ↦
            let unchanged : x.updated ≡ false = elim (Bool-cases x.updated) [
              | inr off ↦ off
              | inl on ↦
                  let equal = some-injective _ _ (sym held ∙ s.settled i x v at on new) in
                  let reads = memcmp_eq_refl v (behind old) in
                  absurd (not_differs (behind old) equal reads differs)
            ] in
            (
              changed s i x v at,
              some i,
              rw (e, at, held, differs, store_value-inside s i x v at unchanged, kvs_set) refl,
              (changed-Syncing s i x v at unchanged, refl),
            )
      ]
    where
      not_differs :
          {old v : List ℕ} (b : List ℕ)
          → old ≡ v
          → memcmp_eq (length v) (v ++ b) v ≡ true
          → memcmp_eq (length v) (old ++ b) v ≡ false
          → ⊥
      not_differs {old} {v} b eq reads differs =
          let same = ap (λ o. memcmp_eq (length v) (o ++ b) v) eq in absurd cc

  -- Setting a string that is new for all tasks.
  pub kvs_set-Syncing :
      {kvs : KvStore} {m : Map}
      → Syncing kvs news m
      → Strings m
      → (k v : List ℕ) → IsString v
      → news k ≡ some v
      → (kvs' : KvStore) × (o : Option ℕ) × (kvs_set behind kvs k (some v) ≡ done (kvs', o))
        × Becomes kvs kvs' news (put k (some v) m)
  unfolding kvs_set append_key
  kvs_set-Syncing {kvs} {m} s strings k v is new = elim (kvs_entry-Found s.store k) [
    | inl (e, absent) ↦
        let s' = append_key-Syncing s k absent in
        let at = append_key-last s.store k absent in
        (
          changed s' (length kvs.entries) (blank k) v at,
          some (length kvs.entries),
          rw
              (
                sym (kvs_entry-outer kvs k) ∙ e,
                kvs_set,
                store_value-inside s' (length kvs.entries) (blank k) v at refl,
              )
              refl,
          (changed-Syncing s' (length kvs.entries) (blank k) v at refl, refl),
        )
    | inr (i, x, e, at, eq) ↦
        subst
          (λ l.
            news l ≡ some v
            → kvs_entry kvs l ≡ some i
            → (kvs' : KvStore) × (o : Option ℕ) × (kvs_set behind kvs l (some v) ≡ done (kvs', o))
              × Becomes kvs kvs' news (put l (some v) m))
          eq (λ n f. set_found s strings i x v is n f at x.value refl) new
          (sym (kvs_entry-outer kvs k) ∙ e)
  ]
