-- ===== src/Kvs/Journal.antt =====
-- The change journal of src/kvs.c.
use laik.Prelude.{
  ℕ, ◌+◌, ◌*◌, ◌/◌, ◌%◌, ◌-◌, Bool, true, false, ◌&&◌, ◌||◌, ◌==◌, ltb, leb, if◌then◌else◌, Option,
  none, some, List, [], ◌∷◌, ◌++◌, length, take, drop, get_or, Outcome, done, aborted, ◌>>=◌, ◌>>◌,
  assert,
}
use laik.Prelude.Int.{ℤ, pos, ltb_ℤ}
use laik.Prelude.Sort.{QSort}
use laik.Kvs.{Entry, Changes, vlen, strcmp, strncmp_eq}

-- the last element of a list, `d` if there is none
unfoldable pub last_or : {A : Type 0} → A → List A → A
last_or d [] = d
last_or d (x ∷ xs) = last_or x xs

-- the bytes that a pointer points to, none for a null pointer
unfoldable pub bytes_of : Option (List ℕ) → List ℕ
bytes_of none = []
bytes_of (some bytes) = bytes

unfoldable pub changes_init : Changes
changes_init = record {
  off_size = 0;
  off = [];
  bytes_size = 0;
  bytes = [];
  entry_size = 0;
  entries = [];
}

unfoldable pub grown : ℕ → ℕ → ℕ
grown size n = if ltb size n then n else size

unfoldable pub changes_ensure_size : Changes → ℕ → ℕ → Outcome Changes
changes_ensure_size c n dlen =
    assert (length c.entries == 0)
    >> done (record c {
      off_size = grown c.off_size n;
      bytes_size = grown c.bytes_size dlen;
      entry_size = grown c.entry_size (n / 2);
    })

-- `laik_kvs_changes_set_size`, for the offsets and bytes that the caller has put into the arrays
unfoldable pub changes_set_size : Changes → List ℕ → List ℕ → Outcome Changes
changes_set_size c off bytes =
    assert (length off == 0 || (length off % 2) == 1)
    >> assert (leb (length off) c.off_size)
    >> assert (leb (length bytes) c.bytes_size)
    >> assert (leb (length off / 2) c.entry_size)
    >> done (record c { off = off; bytes = bytes; entries = [] })

-- The allocation in `laik_kvs_changes_add`: `klen` counts the zero behind the key.
unfoldable pub make_room : Changes → ℕ → ℕ → Outcome Changes
make_room c klen dlen =
    let off_needed = if length c.off == 0 then 3 else length c.off + 2 in
    let data_needed = length c.bytes + klen + dlen in
    if ltb c.off_size off_needed || ltb c.bytes_size data_needed
    then changes_ensure_size c (2 * off_needed) (2 * data_needed)
    else done c

-- Key and value behind the data, with their offsets.
unfoldable pub append_data : Changes → List ℕ → List ℕ → Outcome Changes
append_data c key value =
    let klen = length key + 1 in
    let off = if length c.off == 0 then 0 ∷ [] else c.off in
    assert (leb (length off + 2) c.off_size)
    >> assert (leb (length c.bytes + klen + length value) c.bytes_size)
    >> assert (last_or 0 off == length c.bytes)
    >> done (record c {
      off = off ++ ((length c.bytes + klen) ∷ (length c.bytes + klen + length value) ∷ []);
      bytes = c.bytes ++ (key ++ (0 ∷ value));
    })

-- the assertion on the last entry: the new key sorts behind it
unfoldable pub sorts_after : List Entry → List ℕ → Bool
sorts_after [] key = true
sorts_after (e ∷ es) key = ltb_ℤ (strcmp (last_or e es).key key) (pos 0)

unfoldable pub append_entry : Changes → List ℕ → List ℕ → Outcome Changes
append_entry c key value =
    assert (sorts_after c.entries key)
    >> assert (ltb (length c.entries) c.entry_size)
    >> done (record c {
      entries = c.entries ++ (record { key = key; value = some value; updated = false } ∷ []);
    })

unfoldable pub changes_add : Changes → List ℕ → List ℕ → Bool → Bool → Outcome Changes
changes_add c key value do_alloc append_sorted =
    (if do_alloc then make_room c (length key + 1) (length value) else done c) >>= λ c'.
    append_data c' key value >>= λ c''.
    if append_sorted then append_entry c'' key value else done c''

unfoldable pub entrycmp : Entry → Entry → ℤ
entrycmp a b = strcmp a.key b.key

-- the string that begins a block of memory
unfoldable pub c_string : List ℕ → List ℕ
c_string [] = []
c_string (x ∷ xs) = let rest = c_string xs in if x == 0 then [] else x ∷ rest

-- The loop of `laik_kvs_changes_sort`: `from` is the offset `off[off]`, the list holds the later
-- ones, `room` entries are left in the entry array.
unfoldable pub fill_entries : List ℕ → ℕ → ℕ → List ℕ → Outcome (List Entry)
fill_entries bytes room from (mid ∷ to ∷ off) =
    assert (ltb 0 room)
    >> assert (ltb from mid)
    >> assert (ltb mid to)
    >> assert (leb to (length bytes))
    >> assert (get_or bytes (mid - 1) 1 == 0)
    >> fill_entries bytes (room - 1) to off
    >>= λ es. done (
        record {
          key = c_string (drop from bytes);
          value = some (take (to - mid) (drop mid bytes));
          updated = false;
        }
        ∷ es)
fill_entries bytes room from (mid ∷ []) = done []
fill_entries bytes room from [] = done []

module _ (q : QSort) where
  unfoldable pub changes_sort : Changes → Outcome Changes
  changes_sort c = elim c.off [
    | [] ↦ done c
    | from ∷ off ↦
        assert ((length c.off % 2) == 1)
        >> assert (length c.entries == 0)
        >> fill_entries c.bytes c.entry_size from off
        >>= λ es.
            assert ((length es * 2 + 1) == length c.off)
            >> done (record c { entries = q.sort Entry entrycmp es })
  ]

-- `laik_kvs_changes_add` within a merge
unfoldable pub add_entry : Changes → Entry → Outcome Changes
add_entry dst e = changes_add dst e.key (bytes_of e.value) false true

-- the test for an inconsistent update, on two values of the same key
unfoldable pub same_value : Entry → Entry → Bool
same_value a b =
    (vlen a.value == vlen b.value)
    && strncmp_eq (vlen a.value) (bytes_of a.value) (bytes_of b.value)

unfoldable pub add_entries : Changes → List Entry → Outcome Changes
add_entries dst [] = done dst
add_entries dst (e ∷ es) = add_entry dst e >>= λ dst'. add_entries dst' es

-- The loops of `laik_kvs_changes_merge` over what is left of the two entry arrays.
unfoldable pub merge_loop : Changes → List Entry → List Entry → Outcome Changes
merge_loop dst [] bs = add_entries dst bs
merge_loop dst (a ∷ as') [] = add_entries dst (a ∷ as')
merge_loop dst (a ∷ as') (b ∷ bs) = elim (ltb_ℤ (strcmp a.key b.key) (pos 0)) [
  | true ↦ add_entry dst a >>= λ dst'. merge_loop dst' as' (b ∷ bs)
  | false ↦ elim (ltb_ℤ (pos 0) (strcmp a.key b.key)) [
    | true ↦ add_entry dst b >>= λ dst'. merge_loop dst' (a ∷ as') bs
    | false ↦ elim (same_value a b) [
      | true ↦ add_entry dst a >>= λ dst'. merge_loop dst' as' bs
      | false ↦ aborted
    ]
  ]
]

unfoldable pub changes_merge : Changes → Changes → Changes → Outcome Changes
changes_merge dst src1 src2 = changes_set_size dst [] [] >>= λ cleared.
    changes_ensure_size cleared (length src1.off + length src2.off)
      (length src1.bytes + length src2.bytes)
    >>= λ dst'. merge_loop dst' src1.entries src2.entries
