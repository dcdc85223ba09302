-- ===== src/Kvs/Updates.antt =====
-- `remove_entry`, `laik_kvs_remove`, `laik_kvs_set` and `laik_kvs_sort` as operations on a map.
use laik.Prelude.{
  ℕ, Bool, true, false, ◌&&◌, List, [], ◌++◌, length, get_elem?, countp, Option, none, some, ◌≡◌,
  refl, ap, sym, ◌∙◌, subst, arith, Bool-cases, inl, inr, if◌then◌else◌, done,
}
use laik.Kvs.{Entry, KvStore, memcmp_eq}
use laik.Kvs.Order.{strcmp_eq}
use laik.Kvs.Store.{set_at, kvs_entry, append_key, remove_entry, kvs_remove, store_value, kvs_set}
use laik.Kvs.Search.{key_of, same_key}
use laik.Kvs.Add.{changes_add-Holds}
use laik.Kvs.Map.{value_at, put, same_string, value_at-none, value_at-append, value_at-get_elem?}
use laik.Kvs.Invariant.{
  IsStore, Implements, kvs_entry-Found, replaced, replaced-IsStore, replaced-value_at,
  append_key-IsStore, append_key-last,
}

-- `put` of the value that is there already
pub put-same :
    (k : List ℕ) (v : Option (List ℕ)) (m : List ℕ → Option (List ℕ)) (j : List ℕ)
    → m k ≡ v
    → put k v m j ≡ m j
put-same k v m j h =
    let eq : same_string k j ≡ true → m j ≡ v = λ s. ap m (sym (strcmp_eq k j s)) ∙ h in
    ground arith

pub and_false : (b : Bool) → (b && false) ≡ false
and_false true = refl
and_false false = refl

module _ {kvs : KvStore} (is : IsStore kvs) where
  pub remove_entry_lem :
      (i : ℕ) (e : Entry)
      → get_elem? kvs.entries i ≡ some e
      → (kvs' : KvStore) × (remove_entry kvs i e ≡ done kvs')
        × (kvs'.entries ≡ set_at i (record e { value = none }) kvs.entries)
        × Implements kvs' (put e.key none (value_at kvs.entries))
  unfolding remove_entry
  remove_entry_lem i e at =
      let e' : Entry = record e { value = none } in
      let (c, returns, held, unsorted) = changes_add-Holds is.held is.unsorted e.key [] in
      (
        replaced kvs i e' c,
        rw (is.outside, returns) refl,
        refl,
        (
          replaced-IsStore is i e' (ap key_of at) c _ held unsorted,
          replaced-value_at is i e' (ap key_of at),
        ),
      )

  pub store_value_lem :
      (i : ℕ) (e : Entry) (v : List ℕ)
      → get_elem? kvs.entries i ≡ some e
      → (kvs' : KvStore) × (store_value kvs i e v ≡ done (kvs', some i))
        × Implements kvs' (put e.key (some v) (value_at kvs.entries))
  unfolding store_value
  store_value_lem i e v at =
      let e' : Entry = record e { value = some v; updated = true } in
      let (c, returns, held, unsorted) = changes_add-Holds is.held is.unsorted e.key v in
      (
        replaced kvs i e' c,
        rw (is.outside, and_false e.updated, returns) refl,
        (
          replaced-IsStore is i e' (ap key_of at) c _ held unsorted,
          replaced-value_at is i e' (ap key_of at),
        ),
      )

  pub kvs_remove_lem :
      (k : List ℕ)
      → (kvs' : KvStore) × (found : Bool) × (kvs_remove kvs k ≡ done (kvs', found))
        × Implements kvs' (put k none (value_at kvs.entries))
  unfolding kvs_remove
  kvs_remove_lem k = elim (kvs_entry-Found is k) [
    | inl (e, absent) ↦ (
      kvs,
      false,
      rw (e, kvs_remove) refl,
      (
        is,
        λ j. sym (put-same k none (value_at kvs.entries) j (value_at-none k kvs.entries absent)),
      ),
    )
    | inr (i, x, e, at, eq) ↦
        let (kvs', returns, _, implements) = remove_entry_lem i x at in
        (
          kvs',
          true,
          rw (e, at, returns, kvs_remove) refl,
          subst (λ s. Implements kvs' (put s none (value_at kvs.entries))) eq implements,
        )
  ]

pub append_key-value_at :
    {kvs : KvStore}
    → IsStore kvs
    → (k : List ℕ) → countp (same_key k) kvs.entries ≡ 0
    → (j : List ℕ) → value_at (append_key kvs k).entries j ≡ value_at kvs.entries j
unfolding append_key
append_key-value_at {kvs} is k absent j =
    value_at-append kvs.entries (record { key = k; value = none; updated = false }) j absent
    ∙ put-same k none (value_at kvs.entries) j (value_at-none k kvs.entries absent)

-- A new value for a key without an entry.
append_value_lem :
    {kvs : KvStore}
    → IsStore kvs
    → (k v : List ℕ) → countp (same_key k) kvs.entries ≡ 0
    → (kvs' : KvStore) × (store_value
          (append_key kvs k)
          (length kvs.entries)
          (record { key = k; value = none; updated = false })
          v
        ≡ done (kvs', some (length kvs.entries)))
      × Implements kvs' (put k (some v) (value_at kvs.entries))
append_value_lem {kvs} is k v absent =
    let (kvs', returns, (is', same)) =
      store_value_lem (append_key-IsStore is k absent) (length kvs.entries) _ v
        (append_key-last is k absent) in
    (
      kvs',
      returns,
      (
        is',
        λ j.
            same j
            ∙ ap (λ o. if same_string k j then some v else o) (append_key-value_at is k absent j),
      ),
    )

module _ (behind : List ℕ → List ℕ) where
  -- The value after `laik_kvs_set`: the old one stays if its memory begins with the new one.
  abbrev pub kept : Option (List ℕ) → List ℕ → List ℕ
  kept none v = v
  kept (some old) v = if memcmp_eq (length v) (old ++ behind old) v then old else v

  set_found :
      {kvs : KvStore}
      → IsStore kvs
      → (i : ℕ) (x : Entry) (v : List ℕ) → kvs_entry kvs x.key ≡ some i
      → get_elem? kvs.entries i ≡ some x
      → (o : Option (List ℕ)) → x.value ≡ o
      → (kvs' : KvStore) × (o' : Option ℕ) × (kvs_set behind kvs x.key (some v) ≡ done (kvs', o'))
        × Implements kvs' (put x.key (some (kept o v)) (value_at kvs.entries))
  unfolding kvs_set
  set_found {kvs} is i x v e at none held =
      let (kvs', returns, stored) = store_value_lem is i x v at in
      (kvs', some i, rw (e, at, held, returns, kvs_set) refl, stored)
  set_found {kvs} is i x v e at (some old) held =
      elim (Bool-cases (memcmp_eq (length v) (old ++ behind old) v)) [
        | inr differs ↦
            let (kvs', returns, stored) = store_value_lem is i x v at in
            (kvs', some i, rw (e, at, held, differs, returns, kvs_set) refl, rw differs stored)
        | inl same ↦
            let here = value_at-get_elem? kvs.entries i at (is.distinct x.key) ∙ held in
            (
              kvs,
              some i,
              rw (e, at, held, same, kvs_set) refl,
              rw same (is, λ j. sym (put-same x.key (some old) (value_at kvs.entries) j here)),
            )
      ]

  -- On a store in order, outside of a synchronization, `laik_kvs_set` with a value returns, and the
  -- store is in order again. Its map is the old one but for the key, which has the new value, or the
  -- old one where the memory at the old value begins with the new one.
  pub kvs_set_lem :
      {kvs : KvStore}
      → IsStore kvs
      → (k v : List ℕ)
      → (kvs' : KvStore) × (o : Option ℕ) × (kvs_set behind kvs k (some v) ≡ done (kvs', o))
        × Implements kvs' (put k (some (kept (value_at kvs.entries k) v)) (value_at kvs.entries))
  unfolding kvs_set
  kvs_set_lem {kvs} is k v = elim (kvs_entry-Found is k) [
    | inl (e, absent) ↦
        let (kvs', returns, implements) = append_value_lem is k v absent in
        (
          kvs',
          some (length kvs.entries),
          rw (e, returns, kvs_set) refl,
          rw (value_at-none k kvs.entries absent) implements,
        )
    | inr (i, x, e, at, eq) ↦
        let here : value_at kvs.entries k ≡ x.value =
          subst (λ s. value_at kvs.entries s ≡ x.value) eq
            (value_at-get_elem? kvs.entries i at (is.distinct x.key)) in
        subst
          (λ s.
            (kvs' : KvStore) × (o : Option ℕ) × (kvs_set behind kvs s (some v) ≡ done (kvs', o))
            × Implements kvs'
                (put s (some (kept (value_at kvs.entries k) v)) (value_at kvs.entries)))
          eq (set_found is i x v (rw eq e) at (value_at kvs.entries k) (sym here))
  ]
