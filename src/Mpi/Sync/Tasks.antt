-- ===== src/Mpi/Sync/Tasks.antt =====
-- What one task does in a synchronization.
use mathlib.Core.Option.{some-injective}
use laik.Prelude.{
  ℕ, true, List, [], All, get_elem?, Option, none, some, ◌≡◌, refl, ap, sym, ◌∙◌, subst, arith,
  done,
}
use laik.Kvs.{Entry, Changes, KvStore}
use laik.Kvs.Journal.{changes_init}
use laik.Kvs.Store.{changes_apply}
use laik.Kvs.Encode.{Change, Holds, encoded, offsets}
use laik.Kvs.Map.{value_at}
use laik.Kvs.Refine.{Map, Strings}
use laik.Kvs.Invariant.{IsStore}
use laik.Kvs.Union.{change_at, or_else}
use laik.Kvs.Apply.{Syncing, Syncing-map, IsString}
use laik.Kvs.Apply.Whole.{Announced, updated_by, changes_apply-Syncing}
use laik.Mpi.Sync.Collect.{Sendable, All-change_at, change_at-All, Extends}
use laik.Mpi.Sync.Received.{Fine}

-- A store with the changes `ps` since the last synchronization, after which its map was `m`.
pub record Since (kvs : KvStore) (m : Map) (ps : List Change) : Type 0 where
  pub store : IsStore kvs
  pub held : Holds kvs.changes ps
  pub values : (j : List ℕ) → value_at kvs.entries j ≡ updated_by ps m j
  pub tracked :
      (i : ℕ) (e : Entry)
      → get_elem? kvs.entries i ≡ some e
      → e.updated ≡ true
      → (v : List ℕ) × (e.value ≡ some v) × (change_at ps e.key ≡ some v)

-- The store in the synchronization, with a journal `c`.
abbrev pub inside : KvStore → Changes → KvStore
inside kvs c = record kvs { in_sync = true; changes = c }

Since-Syncing :
    {kvs : KvStore} {m news : Map} {ps : List Change} (c : Changes)
    → Since kvs m ps
    → Extends news ps
    → Syncing (inside kvs c) news (updated_by ps m)
unfolding changes_init
Since-Syncing {news = news} c s ext = record {
  store = record {
    distinct = s.store.distinct;
    sorted = s.store.sorted;
    upto = s.store.upto;
    fits = s.store.fits;
    positive = s.store.positive;
    pending = [];
    held = record {
      bytes_eq = refl;
      off_eq = refl;
      off_fits = omega arith;
      bytes_fit = omega arith;
      room = omega arith;
    };
    unsorted = refl;
    outside = refl;
  };
  inside = refl;
  values = s.values;
  settled = λ i e w at on new.
      let (v, value, change) = s.tracked i e at on in value ∙ sym (ext e.key v change) ∙ new;
}

Strings-updated_by :
    (ps : List Change) (m : Map) → All Sendable ps → Strings m → Strings (updated_by ps m)
Strings-updated_by ps m send strings k v e = from (change_at ps k) refl
  where
    from : (o : Option (List ℕ)) → change_at ps k ≡ o → IsString v
    from (some w) eq =
        subst IsString (some-injective _ _ (sym (ap (λ o. or_else o (m k)) eq) ∙ e))
          (All-change_at Sendable ps k w send eq).1
    from none eq = strings k v (sym (ap (λ o. or_else o (m k)) eq) ∙ e)

Fine-Announced : {news : Map} (qs : List Change) → Fine news qs → All (Announced news) qs
Fine-Announced {news} qs (dup, send, ext) = change_at-All (Announced news) qs dup (λ k v e.
    let sendable = All-change_at Sendable qs k v send e in (sendable.0, sendable.1, ext k v e))

-- The changes of one task are among those of all.
abbrev pub Among : List Change → List Change → Type 0
Among ps qs = (k : List ℕ) → change_at qs k ≡ none → change_at ps k ≡ none

updated_by-Among :
    (ps qs : List Change) (m : Map)
    → Among ps qs
    → (j : List ℕ) → updated_by qs (updated_by ps m) j ≡ updated_by qs m j
updated_by-Among ps qs m among j = from (change_at qs j) refl
  where
    from :
        (o : Option (List ℕ))
        → change_at qs j ≡ o
        → updated_by qs (updated_by ps m) j ≡ updated_by qs m j
    from (some w) eq =
        ap (λ o. or_else o (updated_by ps m j)) eq ∙ sym (ap (λ o. or_else o (m j)) eq)
    from none eq = ap (or_else (change_at qs j)) (ap (λ o. or_else o (m j)) (among j eq))

-- A task that applies the changes of all
pub apply_all :
    (behind : List ℕ → List ℕ) {kvs : KvStore} {m news : Map} {ps : List Change} (c d : Changes)
    (qs : List Change)
    → Since kvs m ps
    → Fine news ps
    → Strings m
    → Fine news qs
    → Among ps qs
    → c.off ≡ offsets qs
    → c.bytes ≡ encoded qs
    → (kvs' : KvStore) × (changes_apply behind c (inside kvs d) ≡ done kvs')
      × Syncing kvs' news (updated_by qs m)
      × (kvs'.changes ≡ d)
apply_all behind {kvs} {m} {news} {ps} c d qs since (dup, send, ext) strings fine among off bytes =
    let (kvs', returns, (s, journal)) =
      changes_apply-Syncing behind news c qs off bytes (Since-Syncing d since ext)
        (Strings-updated_by ps m send strings) (Fine-Announced qs fine) fine.0 in
    (kvs', returns, Syncing-map s (updated_by-Among ps qs m among), journal)
