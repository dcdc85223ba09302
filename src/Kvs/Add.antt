-- ===== src/Kvs/Add.antt =====
-- `laik_kvs_changes_add` on a journal that is not sorted.
use laik.Prelude.{
  ℕ, ◌+◌, ◌*◌, ◌/◌, ◌≤◌, true, false, ◌||◌, ◌==◌, ltb, if◌then◌else◌, List, [], ◌∷◌, ◌++◌, length,
  done, ◌≡◌, refl, ap, ◌∙◌, arith, Bool-cases, inl, inr,
}
use laik.Kvs.{Changes}
use laik.Kvs.Journal.{grown, changes_ensure_size, make_room, changes_add}
use laik.Kvs.Encode.{
  Change, encode, encoded, offsets, length-encode, length-ends, Holds, with_change,
  append_data-with_change, with_change-Holds,
}

abbrev needed : Changes → ℕ
needed c = if length c.off == 0 then 3 else length c.off + 2

abbrev enlarged : Changes → ℕ → ℕ → Changes
enlarged c n dlen = record c {
  off_size = grown c.off_size n;
  bytes_size = grown c.bytes_size dlen;
  entry_size = grown c.entry_size (n / 2);
}

-- Room for one more change.
record HasRoom (c : Changes) (ps : List Change) (extra : ℕ) : Type 0 where
  held : Holds c ps
  unsorted : c.entries ≡ []
  off_free : 2 * length ps + 3 ≤ c.off_size
  bytes_free : length (encoded ps) + extra ≤ c.bytes_size

enlarged-Holds :
    {c : Changes} {ps : List Change} → Holds c ps → (n dlen : ℕ) → Holds (enlarged c n dlen) ps
unfolding grown
enlarged-Holds held n dlen = record {
  bytes_eq = held.bytes_eq;
  off_eq = held.off_eq;
  off_fits = ground (arith, held.off_fits);
  bytes_fit = ground (arith, held.bytes_fit);
  room = ground (arith, held.room);
}

offsets_needed :
    (ps : List Change)
    → (if length (offsets ps) == 0 then 3 else length (offsets ps) + 2) ≡ 2 * length ps + 3
offsets_needed [] = refl
offsets_needed (p ∷ ps) = ground (arith, length-ends 0 (p ∷ ps))

needed-lem : {c : Changes} {ps : List Change} → Holds c ps → needed c ≡ 2 * length ps + 3
needed-lem {c} {ps} held =
    ap (λ o. if length o == 0 then 3 else length o + 2) held.off_eq ∙ offsets_needed ps

make_room-HasRoom :
    {c : Changes} {ps : List Change}
    → Holds c ps
    → c.entries ≡ []
    → (klen dlen : ℕ)
    → (c' : Changes) × (make_room c klen dlen ≡ done c') × HasRoom c' ps (klen + dlen)
unfolding make_room changes_ensure_size grown
make_room-HasRoom {c} {ps} held unsorted klen dlen =
    elim (Bool-cases
      (ltb c.off_size (needed c) || ltb c.bytes_size (length c.bytes + klen + dlen))) [
        | inl e ↦ (
          enlarged c (2 * needed c) (2 * (length c.bytes + klen + dlen)),
          rw (e, unsorted) refl,
          record {
            held = enlarged-Holds held _ _;
            unsorted = unsorted;
            off_free = ground (arith, needed-lem held);
            bytes_free = ground (arith, ap length held.bytes_eq);
          },
        )
        | inr e ↦ (
          c,
          rw e refl,
          record {
            held = held;
            unsorted = unsorted;
            off_free = ground (arith, needed-lem held);
            bytes_free = ground (arith, ap length held.bytes_eq);
          },
        )
      ]

-- Adding a change returns, and puts the change behind the others.
pub changes_add-Holds :
    {c : Changes} {ps : List Change}
    → Holds c ps
    → c.entries ≡ []
    → (k v : List ℕ)
    → (c' : Changes) × (changes_add c k v true false ≡ done c')
      × Holds c' (ps ++ ((k, v) ∷ []))
      × (c'.entries ≡ [])
unfolding changes_add
changes_add-Holds {c} {ps} held unsorted k v =
    let (c', returns, has) = make_room-HasRoom held unsorted (length k + 1) (length v) in
    let bytes_free : length (encoded ps) + length (encode (k, v)) ≤ c'.bytes_size =
      omega (arith, has.bytes_free, length-encode (k, v)) in
    (
      with_change c' ps (k, v),
      rw (returns, append_data-with_change has.held k v has.off_free bytes_free) refl,
      with_change-Holds has.held k v has.off_free bytes_free,
      has.unsorted,
    )
