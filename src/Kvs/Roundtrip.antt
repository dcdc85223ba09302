-- ===== src/Kvs/Roundtrip.antt =====
-- `laik_kvs_changes_add` and `laik_kvs_changes_sort`: the changes that go into a journal come out.
use mathlib.Core.List.{Perm, append_assoc, append-nil}
use mathlib.Core.List.Perm
use laik.Prelude.{
  ℕ, ◌+◌, ◌*◌, ◌%◌, ◌-◌, Bool, true, false, ◌==◌, any, List, [], ◌∷◌, ◌++◌, length, length-map, map,
  All, Outcome, done, aborted, ◌>>=◌, ◌>>◌, assert, ◌≡◌, refl, ap, sym, ◌∙◌, subst, arith,
}
use laik.Prelude.Sort.{QSort, IsSorted}
use laik.Kvs.{Entry, Changes}
use laik.Kvs.Journal.{fill_entries, changes_sort, changes_add, changes_init, entrycmp}
use laik.Kvs.Order.{entrycmp-IsOrder}
use laik.Kvs.Encode.{Change, ends, offsets, length-ends, Holds}
use laik.Kvs.Decode.{ProperChange, entry_of, fill_entries-ends}
use laik.Kvs.Add.{changes_add-Holds}

-- The entries are those of the changes, in the order of the keys.
pub record Sorts (c : Changes) (ps : List Change) : Type 0 where
  pub held : Holds c ps
  pub perm : Perm c.entries (map entry_of ps)
  pub sorted : IsSorted entrycmp c.entries

module _ (q : QSort) where
  sort_from : Changes → ℕ → List ℕ → Outcome Changes
  sort_from c from off =
      assert ((length c.off % 2) == 1)
      >> assert (length c.entries == 0)
      >> fill_entries c.bytes c.entry_size from off
      >>= λ es.
          assert ((length es * 2 + 1) == length c.off)
          >> done (record c { entries = q.sort Entry entrycmp es })

  sort_at : Changes → List ℕ → Outcome Changes
  sort_at c off = elim off [ [] ↦ done c | from ∷ off' ↦ sort_from c from off' ]

  changes_sort-at : (c : Changes) (off : List ℕ) → c.off ≡ off → changes_sort q c ≡ sort_at c off
  unfolding changes_sort sort_at sort_from
  changes_sort-at c off e = ap (sort_at c) e

  pub changes_sort-Sorts :
      (c : Changes) (ps : List Change)
      → Holds c ps
      → c.entries ≡ []
      → All ProperChange ps
      → (c' : Changes) × (changes_sort q c ≡ done c') × Sorts c' ps
  unfolding sort_at sort_from
  changes_sort-Sorts c [] held unsorted proper = (
    c,
    changes_sort-at c [] held.off_eq,
    record {
      held = held;
      perm = subst (λ es. Perm es []) (sym unsorted) (Perm.refl []);
      sorted = subst (IsSorted entrycmp) (sym unsorted) tt;
    },
  )
  changes_sort-Sorts c (p ∷ ps) held unsorted proper =
      let es = map entry_of (p ∷ ps) in
      let off = ends 0 (p ∷ ps) in
      let size : length c.off ≡ 2 * length (p ∷ ps) + 1 =
        omega (arith, ap length held.off_eq, length-ends 0 (p ∷ ps)) in
      let filled : fill_entries c.bytes c.entry_size 0 off ≡ done es =
        fill_entries-ends (p ∷ ps) [] c.bytes c.entry_size 0 held.bytes_eq refl
          (omega (arith, size, held.off_fits, held.room)) proper in
      let odd : ((length c.off % 2) == 1) ≡ true = ground (arith, size) in
      let all_read : ((length es * 2 + 1) == length c.off) ≡ true =
        ground (arith, size, length-map entry_of (p ∷ ps)) in
      (
        record c { entries = q.sort Entry entrycmp es },
        changes_sort-at c (0 ∷ off) held.off_eq ∙ rw (odd, unsorted, filled, all_read) refl,
        record {
          held = record {
            bytes_eq = held.bytes_eq;
            off_eq = held.off_eq;
            off_fits = held.off_fits;
            bytes_fit = held.bytes_fit;
            room = held.room;
          };
          perm = q.sort-perm Entry entrycmp es;
          sorted = q.sort-IsSorted Entry entrycmp es entrycmp-IsOrder;
        },
      )

-- Several changes, one after the other.
abbrev pub add_all : Changes → List Change → Outcome Changes
add_all c [] = done c
add_all c ((k, v) ∷ ps) = changes_add c k v true false >>= λ c'. add_all c' ps

add_all-Holds :
    (c : Changes) (ps qs : List Change)
    → Holds c ps
    → c.entries ≡ []
    → (c' : Changes) × (add_all c qs ≡ done c') × Holds c' (ps ++ qs) × (c'.entries ≡ [])
add_all-Holds c ps [] held unsorted =
    (c, refl, subst (Holds c) (sym (append-nil ps)) held, unsorted)
add_all-Holds c ps ((k, v) ∷ qs) held unsorted =
    let (next, returns, held', unsorted') = changes_add-Holds held unsorted k v in
    let (c', rest, held'', unsorted'') =
      add_all-Holds next (ps ++ ((k, v) ∷ [])) qs held' unsorted' in
    (
      c',
      rw (returns, rest) refl,
      subst (Holds c') (append_assoc ps ((k, v) ∷ []) qs) held'',
      unsorted'',
    )

-- Changes with strings as keys and values that are not empty, added to a new journal: adding and
-- sorting return, and the entries are those of the changes, in the order of the keys.
pub changes_add-changes_sort :
    (q : QSort) (ps : List Change)
    → All ProperChange ps
    → (c : Changes) × (c' : Changes) × (add_all changes_init ps ≡ done c)
      × (changes_sort q c ≡ done c')
      × Perm c'.entries (map entry_of ps)
      × IsSorted entrycmp c'.entries
unfolding changes_init
changes_add-changes_sort q ps proper =
    let empty : Holds changes_init [] = record {
      bytes_eq = refl;
      off_eq = refl;
      off_fits = omega arith;
      bytes_fit = omega arith;
      room = omega arith;
    } in
    let (c, added, held, unsorted) = add_all-Holds changes_init [] ps empty refl in
    let (c', returns, sorts) = changes_sort-Sorts q c ps held unsorted proper in
    (c, c', added, returns, sorts.perm, sorts.sorted)

abbrev pub empty_value : Change → Bool
empty_value (k, v) = length v == 0

fill_entries-aborted :
    (bytes : List ℕ) (room from : ℕ) (ps : List Change)
    → any empty_value ps ≡ true
    → fill_entries bytes room from (ends from ps) ≡ aborted
unfolding fill_entries
fill_entries-aborted bytes room from [] h = absurd cc
fill_entries-aborted bytes room from ((k, v) ∷ ps) h =
    ground (arith, fill_entries-aborted bytes (room - 1) (from + (length k + 1) + length v) ps)

-- `laik_kvs_changes_sort` aborts where a journal holds a change with an empty value.
pub changes_sort-aborted :
    (q : QSort) (c : Changes) (ps : List Change)
    → Holds c ps
    → any empty_value ps ≡ true
    → changes_sort q c ≡ aborted
unfolding sort_at sort_from
changes_sort-aborted q c [] held h = absurd cc
changes_sort-aborted q c (p ∷ ps) held h =
    let failed = fill_entries-aborted c.bytes c.entry_size 0 (p ∷ ps) h in
    changes_sort-at q c (offsets (p ∷ ps)) held.off_eq ∙ ground arith
