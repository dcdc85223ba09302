-- ===== src/Kvs/Store.antt =====
-- The operations of src/kvs.c on a store. The callbacks of the store are not called.
use laik.Prelude.{
  ℕ, zero, suc, ◌+◌, ◌*◌, ◌/◌, ◌%◌, ◌-◌, Bool, true, false, ◌&&◌, not, ◌==◌, ltb, if◌then◌else◌,
  Option, none, some, List, [], ◌∷◌, ◌++◌, length, take, drop, get_elem?, map, Outcome, done,
  aborted, ◌>>=◌, ◌>>◌, assert,
}
use laik.Prelude.Int.{pos, ltb_ℤ, eq_ℤ}
use laik.Prelude.Sort.{QSort}
use laik.Kvs.{Entry, Changes, KvStore, vlen, strcmp, memcmp_eq}
use laik.Kvs.Journal.{
  changes_init, changes_ensure_size, changes_set_size, changes_add, entrycmp, c_string, bytes_of,
}

unfoldable pub set_at : {A : Type 0} → ℕ → A → List A → List A
set_at i x [] = []
set_at zero x (y ∷ ys) = x ∷ ys
set_at (suc i) x (y ∷ ys) = y ∷ set_at i x ys

-- `laik_kvs_new`
unfoldable pub kvs_new : Outcome KvStore
kvs_new = changes_ensure_size changes_init 10 1000 >>= λ c.
    done (record { entries = []; size = 1000; sorted_upto = 0; changes = c; in_sync = false })

-- The binary search of `laik_kvs_entry`, with fuel: `stop` is `high + 1`.
unfoldable pub search_sorted : ℕ → List Entry → List ℕ → ℕ → ℕ → Option ℕ
search_sorted zero es key low stop = none
search_sorted (suc n) es key low stop = elim (ltb low stop) [
  | false ↦ none
  | true ↦
      let mid = (low + (stop - 1)) / 2 in
      elim (get_elem? es mid) [
        | none ↦ none
        | some e ↦ elim (eq_ℤ (strcmp key e.key) (pos 0)) [
          | true ↦ some mid
          | false ↦ elim (ltb_ℤ (strcmp key e.key) (pos 0)) [
            | true ↦ search_sorted n es key low mid
            | false ↦ search_sorted n es key (mid + 1) stop
          ]
        ]
      ]
]

-- The linear search of `laik_kvs_entry`: the list begins with the entry at `i`.
unfoldable pub search_linear : ℕ → List Entry → List ℕ → Option ℕ
search_linear i [] key = none
search_linear i (e ∷ es) key = elim (eq_ℤ (strcmp e.key key) (pos 0)) [
  | true ↦ some i
  | false ↦ search_linear (i + 1) es key
]

unfoldable pub kvs_entry : KvStore → List ℕ → Option ℕ
kvs_entry kvs key = elim (search_sorted (suc kvs.sorted_upto) kvs.entries key 0 kvs.sorted_upto) [
  | some i ↦ some i
  | none ↦ search_linear kvs.sorted_upto (drop kvs.sorted_upto kvs.entries) key
]

-- `remove_entry`, for the entry at `i`
unfoldable pub remove_entry : KvStore → ℕ → Entry → Outcome KvStore
remove_entry kvs i e =
    let es = set_at i (record e { value = none }) kvs.entries in
    if kvs.in_sync
    then done (record kvs { entries = es })
    else changes_add kvs.changes e.key [] true false >>= λ c.
        done (record kvs { entries = es; changes = c })

-- The loop of `laik_kvs_clean`: `n` entries are left, `i` is the next.
unfoldable pub clean_from : ℕ → ℕ → KvStore → Outcome KvStore
clean_from zero i kvs = done kvs
clean_from (suc n) i kvs = elim (get_elem? kvs.entries i) [
  | none ↦ aborted
  | some e ↦ elim e.value [
    | none ↦ clean_from n (i + 1) kvs
    | some v ↦ remove_entry kvs i e >>= λ kvs'. clean_from n (i + 1) kvs'
  ]
]

unfoldable pub kvs_clean : KvStore → Outcome KvStore
kvs_clean kvs = clean_from (length kvs.entries) 0 kvs

unfoldable pub kvs_remove : KvStore → List ℕ → Outcome (KvStore × Bool)
kvs_remove kvs key = elim (kvs_entry kvs key) [
  | none ↦ done (kvs, false)
  | some i ↦ elim (get_elem? kvs.entries i) [
    | none ↦ aborted
    | some e ↦ remove_entry kvs i e >>= λ kvs'. done (kvs', true)
  ]
]

-- The end of `laik_kvs_set`: the entry `e` at `i` gets the value.
unfoldable pub store_value : KvStore → ℕ → Entry → List ℕ → Outcome (KvStore × Option ℕ)
store_value kvs i e value =
    assert (not (e.updated && kvs.in_sync))
    >> (if kvs.in_sync
        then done (
          record kvs { entries = set_at i (record e { value = some value }) kvs.entries },
          some i,
        )
        else changes_add kvs.changes e.key value true false >>= λ c. done (
          record kvs {
            entries = set_at i (record e { value = some value; updated = true }) kvs.entries;
            changes = c;
          },
          some i,
        ))

-- a new entry for the key behind the others
unfoldable pub append_key : KvStore → List ℕ → KvStore
append_key kvs key = record kvs {
  entries = kvs.entries ++ (record { key = key; value = none; updated = false } ∷ []);
  size = if length kvs.entries == kvs.size then kvs.size * 2 else kvs.size;
}

-- `behind` holds the bytes that stand in memory behind a value of the store.
module _ (behind : List ℕ → List ℕ) where
  -- `laik_kvs_set`: the store, and where the returned entry stands
  unfoldable pub kvs_set : KvStore → List ℕ → Option (List ℕ) → Outcome (KvStore × Option ℕ)
  kvs_set kvs key none = kvs_remove kvs key >>= λ (kvs', found). done (kvs', none)
  kvs_set kvs key (some value) = elim (kvs_entry kvs key) [
    | none ↦
        store_value (append_key kvs key) (length kvs.entries)
          (record { key = key; value = none; updated = false }) value
    | some i ↦ elim (get_elem? kvs.entries i) [
      | none ↦ aborted
      | some e ↦ elim e.value [
        | none ↦ store_value kvs i e value
        | some old ↦ elim (memcmp_eq (length value) (old ++ behind old) value) [
          | true ↦ done (kvs, some i)
          | false ↦ store_value kvs i e value
        ]
      ]
    ]
  ]

  -- `laik_kvs_sets`
  unfoldable pub kvs_sets : KvStore → List ℕ → List ℕ → Outcome (KvStore × Option ℕ)
  kvs_sets kvs key str = kvs_set kvs key (some (str ++ (0 ∷ [])))

  -- The loop of `laik_kvs_changes_apply`: `from` is the offset `off[i]`, the list holds the later
  -- ones.
  unfoldable pub apply_from : List ℕ → ℕ → List ℕ → KvStore → Outcome KvStore
  apply_from bytes from (mid ∷ to ∷ off) kvs =
      assert (ltb from mid)
      >> assert (ltb mid to)
      >> kvs_set kvs (c_string (drop from bytes)) (some (take (to - mid) (drop mid bytes)))
      >>= λ (kvs', i). apply_from bytes to off kvs'
  apply_from bytes from (mid ∷ []) kvs = aborted
  apply_from bytes from [] kvs = done kvs

  unfoldable pub changes_apply : Changes → KvStore → Outcome KvStore
  changes_apply c kvs = elim c.off [
    | [] ↦ done kvs
    | from ∷ off ↦
        assert ((length c.off % 2) == 1)
        >> assert (ltb 0 (length c.bytes))
        >> apply_from c.bytes from off kvs
  ]

unfoldable pub synced : Entry → Entry
synced e = record e { updated = false }

module _ (q : QSort) where
  unfoldable pub kvs_sort : KvStore → KvStore
  kvs_sort kvs = record kvs {
    entries = q.sort Entry entrycmp kvs.entries;
    sorted_upto = length kvs.entries;
  }

  -- The end of `laik_kvs_sync`, behind the call of the backend.
  unfoldable pub after_sync : KvStore → Outcome KvStore
  after_sync kvs = changes_set_size kvs.changes [] [] >>= λ c.
      done
        (kvs_sort (record kvs { in_sync = false; changes = c; entries = map synced kvs.entries }))

  -- `laik_kvs_sync`: `sync` is what the backend does.
  unfoldable pub kvs_sync : (KvStore → Outcome KvStore) → KvStore → Outcome KvStore
  kvs_sync sync kvs = sync (record kvs { in_sync = true }) >>= after_sync

-- `laik_kvs_data`: the value and its size
unfoldable pub kvs_data : Entry → Option (List ℕ) × ℕ
kvs_data e = (e.value, vlen e.value)

-- `laik_kvs_get`; without an entry the size is not written
unfoldable pub kvs_get : KvStore → List ℕ → ℕ → Option (List ℕ) × ℕ
kvs_get kvs key psize = elim (kvs_entry kvs key) [
  | none ↦ (none, psize)
  | some i ↦ elim (get_elem? kvs.entries i) [ none ↦ (none, psize) | some e ↦ kvs_data e ]
]

unfoldable pub kvs_count : KvStore → ℕ
kvs_count kvs = length kvs.entries

unfoldable pub kvs_getn : KvStore → ℕ → Option Entry
kvs_getn kvs n = if ltb n (length kvs.entries) then get_elem? kvs.entries n else none

-- `laik_kvs_copy`: the memory and the number of bytes copied
unfoldable pub kvs_copy : Entry → List ℕ → ℕ → List ℕ × ℕ
kvs_copy e mem size =
    let n = if ltb (vlen e.value) size then vlen e.value else size in
    (take n (bytes_of e.value) ++ drop n mem, n)
