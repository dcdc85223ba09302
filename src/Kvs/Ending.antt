-- ===== src/Kvs/Ending.antt =====
-- The end of `laik_kvs_sync`: the store is in order again, with the same map.
use laik.Prelude.{
  ◌+◌, false, ℕ, zero, suc, ◌/◌, ◌≤◌, true, leb, List, [], ◌∷◌, length-map, map, get_elem?, countp,
  ◌≡◌, refl, ap, sym, ◌∙◌, arith, if◌then◌else◌, done, bit,
}
use laik.Prelude.Sort.{QSort}
use laik.Kvs.{Entry, Changes, KvStore}
use laik.Kvs.Journal.{changes_set_size}
use laik.Kvs.Store.{synced, after_sync, kvs_sort}
use laik.Kvs.Search.{key_of, same_key}
use laik.Kvs.Map.{value_at}
use laik.Kvs.Refine.{Map}
use laik.Kvs.Invariant.{IsStore, Implements}
use laik.Kvs.Passes.{kvs_sort-Implements}
use laik.Kvs.Apply.{Syncing}

synced-key :
    (es : List Entry) (i : ℕ) → key_of (get_elem? (map synced es) i) ≡ key_of (get_elem? es i)
unfolding synced
synced-key [] i = refl
synced-key (e ∷ es) zero = refl
synced-key (e ∷ es) (suc i) = synced-key es i

synced-countp :
    (k : List ℕ) (es : List Entry) → countp (same_key k) (map synced es) ≡ countp (same_key k) es
unfolding synced
synced-countp k [] = refl
synced-countp k (e ∷ es) = ap (λ n. bit (same_key k e) + n) (synced-countp k es)

synced-value_at : (k : List ℕ) (es : List Entry) → value_at (map synced es) k ≡ value_at es k
unfolding synced value_at
synced-value_at k [] = refl
synced-value_at k (e ∷ es) = ap (λ o. if same_key k e then e.value else o) (synced-value_at k es)

pub after_sync-Implements :
    (q : QSort) {kvs : KvStore} {news m : Map}
    → Syncing kvs news m
    → kvs.changes.off_size / 2 ≤ kvs.changes.entry_size
    → (kvs' : KvStore) × (after_sync q kvs ≡ done kvs') × Implements kvs' m
unfolding after_sync changes_set_size
after_sync-Implements q {kvs} {news} {m} s room =
    let off : leb 0 kvs.changes.off_size ≡ true = ground arith in
    let bytes : leb 0 kvs.changes.bytes_size ≡ true = ground arith in
    let entries : leb 0 kvs.changes.entry_size ≡ true = ground arith in
    let c : Changes = record kvs.changes { off = []; bytes = []; entries = [] } in
    let closed : KvStore = record kvs {
      in_sync = false;
      changes = c;
      entries = map synced kvs.entries;
    } in
    let is : IsStore closed = record {
      distinct = λ k. omega (arith, synced-countp k kvs.entries, s.store.distinct k);
      sorted = λ i j a b lt le h l.
          s.store.sorted i j a b lt le (sym (synced-key kvs.entries i) ∙ h)
            (sym (synced-key kvs.entries j) ∙ l);
      upto = omega (arith, length-map synced kvs.entries, s.store.upto);
      fits = omega (arith, length-map synced kvs.entries, s.store.fits);
      positive = s.store.positive;
      pending = [];
      held = record {
        bytes_eq = refl;
        off_eq = refl;
        off_fits = omega arith;
        bytes_fit = omega arith;
        room = room;
      };
      unsorted = refl;
      outside = refl;
    } in
    let (is', same) = kvs_sort-Implements q is in
    (
      kvs_sort q closed,
      rw (off, bytes, entries) refl,
      (is', λ j. same j ∙ synced-value_at j kvs.entries ∙ s.values j),
    )
