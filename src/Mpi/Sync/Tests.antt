-- ===== src/Mpi/Sync/Tests.antt =====
-- A synchronization of three tasks, of which two have set the same key.
use laik.Mpi.Sync.Tasks.{Since}
use laik.Kvs.Store.{kvs_sets}
use laik.Mpi.Sync.Local.{kvs_sets-Since}
use laik.Prelude.{
  Option, ℕ, zero, suc, true, false, List, [], ◌∷◌, length, All, get_elem?, none, some, ◌≡◌, refl,
  ap, sym, arith, done,
}
use mathlib.Core.Option.{some-injective}
use laik.Prelude.Sort.{by_insertion}
use laik.Kvs.{Entry, Changes, KvStore, strcmp}
use laik.Kvs.Encode.{Change, offsets, encoded}
use laik.Kvs.Map.{value_at}
use laik.Kvs.Refine.{Map, Strings}
use laik.Kvs.Invariant.{Implements}
use laik.Kvs.Union.{change_at}
use laik.Kvs.Apply.Whole.{updated_by}
use laik.Mpi.Sync.{sync_world}
use laik.Mpi.Sync.Whole.{Task}
use laik.Mpi.Sync.World.{agreed, sync_world-agreed}

abbrev nothing : Map
nothing k = none

-- "a" is set to "x".
abbrev set_a : List Change
set_a = (97 ∷ [], 120 ∷ 0 ∷ []) ∷ []

abbrev journal_of : List Change → Changes
journal_of ps = record {
  off_size = 10;
  off = offsets ps;
  bytes_size = 1000;
  bytes = encoded ps;
  entry_size = 5;
  entries = [];
}

abbrev idle : KvStore
idle = record {
  entries = [];
  size = 1000;
  sorted_upto = 0;
  changes = journal_of [];
  in_sync = false;
}

abbrev busy : KvStore
busy = record {
  entries = record { key = 97 ∷ []; value = some (120 ∷ 0 ∷ []); updated = true } ∷ [];
  size = 1000;
  sorted_upto = 0;
  changes = journal_of set_a;
  in_sync = false;
}

no-Strings : Strings nothing
no-Strings k v e = absurd cc

news : Map
news k = change_at set_a k

idle-Task : Task nothing news (idle, [])
unfolding change_at value_at
idle-Task = (
  record {
    store = record {
      distinct = λ k. omega arith;
      sorted = λ i j a b lt le h l. absurd (omega arith);
      upto = omega arith;
      fits = omega arith;
      positive = omega arith;
      pending = [];
      held = record {
        bytes_eq = refl;
        off_eq = refl;
        off_fits = omega arith;
        bytes_fit = omega arith;
        room = omega arith;
      };
      unsorted = refl;
      outside = refl;
    };
    held = record {
      bytes_eq = refl;
      off_eq = refl;
      off_fits = omega arith;
      bytes_fit = omega arith;
      room = omega arith;
    };
    values = λ j. refl;
    tracked = λ i e at on. absurd cc;
  },
  (tt, tt, λ k v e. absurd cc),
)

busy-values : (j : List ℕ) → value_at busy.entries j ≡ updated_by set_a nothing j
unfolding value_at change_at
busy-values j = ground arith

busy-tracked :
    (i : ℕ) (e : Entry)
    → get_elem? busy.entries i ≡ some e
    → e.updated ≡ true
    → (v : List ℕ) × (e.value ≡ some v) × (change_at set_a e.key ≡ some v)
unfolding change_at strcmp
busy-tracked zero e at on =
    let same = sym (some-injective _ _ at) in
    (120 ∷ 0 ∷ [], ap (λ x. x.value) same, ap (λ x. change_at set_a x.key) same)
busy-tracked (suc i) e at on = absurd cc

busy-Task : Task nothing news (busy, set_a)
unfolding change_at news
busy-Task = (
  record {
    store = record {
      distinct = λ k. ground arith;
      sorted = λ i j a b lt le h l. absurd (omega arith);
      upto = omega arith;
      fits = omega arith;
      positive = omega arith;
      pending = set_a;
      held = record {
        bytes_eq = refl;
        off_eq = refl;
        off_fits = omega arith;
        bytes_fit = omega arith;
        room = omega arith;
      };
      unsorted = refl;
      outside = refl;
    };
    held = record {
      bytes_eq = refl;
      off_eq = refl;
      off_fits = omega arith;
      bytes_fit = omega arith;
      room = omega arith;
    };
    values = busy-values;
    tracked = busy-tracked;
  },
  (
    (refl, tt),
    (
      (
        ((λ e. absurd (omega arith)), tt),
        (120 ∷ [], refl, ((λ e. absurd (omega arith)), tt)),
        omega arith,
      ),
      tt,
    ),
    λ k v e. e,
  ),
)

sync_world-agreed_example :
    (kvs' : KvStore) × (others : List KvStore) × (sync_world by_insertion
        (λ v. [])
        idle
        (busy ∷ busy ∷ [])
      ≡ done (kvs', others))
    × (length others ≡ 2)
    × Implements kvs' (agreed nothing ([] ∷ set_a ∷ set_a ∷ []))
    × All (λ other. Implements other (agreed nothing ([] ∷ set_a ∷ set_a ∷ []))) others
unfolding change_at strcmp
sync_world-agreed_example =
    sync_world-agreed by_insertion (λ v. []) nothing news no-Strings idle []
      ((busy, set_a) ∷ (busy, set_a) ∷ []) (97 ∷ []) (120 ∷ 0 ∷ []) idle-Task
      (busy-Task, (busy-Task, tt)) refl

kvs_sets-Since_example :
    (kvs' : KvStore) × (o : Option ℕ) × (kvs_sets (λ v. []) idle (97 ∷ []) (120 ∷ [])
      ≡ done (kvs', o))
    × Since kvs' nothing set_a
unfolding change_at
kvs_sets-Since_example =
    kvs_sets-Since (λ v. []) idle-Task.0 no-Strings (97 ∷ []) (120 ∷ [])
      ((λ e. absurd (omega arith)), tt) refl (λ e. absurd cc)
