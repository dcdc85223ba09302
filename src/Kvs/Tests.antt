-- ===== src/Kvs/Tests.antt =====
-- Instances of the theorems on the key-value store.
use mathlib.Core.List.{Perm}
use laik.Prelude.{
  ℕ, zero, suc, false, List, [], ◌∷◌, map, Option, none, some, ◌≡◌, refl, arith, done, aborted,
}
use laik.Prelude.Sort.{by_insertion, IsSorted}
use laik.Kvs.{Entry, Changes, KvStore, strcmp}
use laik.Kvs.Journal.{changes_init, changes_sort, changes_merge, entrycmp}
use laik.Kvs.Store.{kvs_new, kvs_get, kvs_set, kvs_entry, search_linear}
use laik.Kvs.Search.{SortedUpto, Distinct}
use laik.Kvs.Lookup.{kvs_entry-search_linear}
use laik.Kvs.Encode.{Change, encoded, offsets}
use laik.Kvs.Map.{value_at, put}
use laik.Kvs.Invariant.{IsStore, Implements}
use laik.Kvs.Updates.{kept, kvs_set_lem}
use laik.Kvs.Refine.{Command, sets, remove, sort, runs, meanings, kvs_new-runs}
use laik.Kvs.Decode.{entry_of}
use laik.Kvs.Roundtrip.{add_all, changes_add-changes_sort, changes_sort-aborted}
use laik.Kvs.Merge.{Merges}
use laik.Kvs.Merge.Whole.{changes_merge-Merges}

abbrev calls : List Command
calls =
    sets (97 ∷ []) (120 ∷ [])
    ∷ sets (98 ∷ []) []
    ∷ sort
    ∷ sets (97 ∷ []) (121 ∷ 122 ∷ [])
    ∷ remove (98 ∷ [])
    ∷ []

-- some bytes that stand behind a value
abbrev garbage : List ℕ → List ℕ
garbage v = 7 ∷ 0 ∷ v

kvs_new-runs_example :
    (kvs : KvStore) × (kvs' : KvStore) × (kvs_new ≡ done kvs)
    × (runs by_insertion garbage calls kvs ≡ done kvs')
    × ((k : List ℕ) (n : ℕ) → (kvs_get kvs' k n).0 ≡ meanings calls (λ j. none) k)
kvs_new-runs_example = kvs_new-runs by_insertion garbage calls (ground arith)

abbrev entry : ℕ → List ℕ → Entry
entry x v = record { key = x ∷ []; value = some v; updated = false }

-- two sorted entries and one behind them
abbrev sample : KvStore
sample = record {
  entries = entry 97 (1 ∷ []) ∷ entry 99 (2 ∷ 3 ∷ []) ∷ entry 98 (4 ∷ []) ∷ [];
  size = 4;
  sorted_upto = 2;
  changes = record {
    off_size = 0;
    off = [];
    bytes_size = 0;
    bytes = [];
    entry_size = 0;
    entries = [];
  };
  in_sync = false;
}

sample-SortedUpto : SortedUpto 2 sample.entries
unfolding strcmp
sample-SortedUpto i zero a b lt le h l = absurd (omega arith)
sample-SortedUpto zero (suc zero) a b lt le h l = ground (arith, h, l)
sample-SortedUpto (suc i) (suc zero) a b lt le h l = absurd (omega arith)
sample-SortedUpto i (suc (suc j)) a b lt le h l = absurd (omega arith)

sample-Distinct : Distinct sample.entries
unfolding strcmp
sample-Distinct [] = omega arith
sample-Distinct (x ∷ []) = ground arith
sample-Distinct (x ∷ y ∷ ys) = ground arith

kvs_entry-search_linear_example :
    kvs_entry sample (98 ∷ []) ≡ search_linear 0 sample.entries (98 ∷ [])
kvs_entry-search_linear_example =
    kvs_entry-search_linear (98 ∷ []) sample sample-SortedUpto (omega arith) sample-Distinct

sample-IsStore : IsStore sample
sample-IsStore = record {
  distinct = sample-Distinct;
  sorted = sample-SortedUpto;
  upto = omega arith;
  fits = omega arith;
  positive = omega arith;
  pending = [];
  held = record {
    bytes_eq = refl;
    off_eq = refl;
    off_fits = omega arith;
    bytes_fit = omega arith;
    room = omega arith;
  };
  unsorted = refl;
  outside = refl;
}

kvs_set_lem_example :
    (kvs' : KvStore) × (o : Option ℕ) × (kvs_set garbage sample (99 ∷ []) (some (2 ∷ 4 ∷ []))
      ≡ done (kvs', o))
    × Implements kvs' (
        put
          (99 ∷ [])
          (some (kept garbage (value_at sample.entries (99 ∷ [])) (2 ∷ 4 ∷ [])))
          (value_at sample.entries))
kvs_set_lem_example = kvs_set_lem garbage sample-IsStore (99 ∷ []) (2 ∷ 4 ∷ [])

abbrev two_changes : List Change
two_changes = (98 ∷ [], 1 ∷ 0 ∷ []) ∷ (97 ∷ 97 ∷ [], 2 ∷ []) ∷ []

changes_add-changes_sort_example :
    (c : Changes) × (c' : Changes) × (add_all changes_init two_changes ≡ done c)
    × (changes_sort by_insertion c ≡ done c')
    × Perm c'.entries (map entry_of two_changes)
    × IsSorted entrycmp c'.entries
changes_add-changes_sort_example = changes_add-changes_sort by_insertion two_changes (ground arith)

-- a change and a removal
abbrev with_removal : List Change
with_removal = (98 ∷ [], 1 ∷ []) ∷ (98 ∷ [], []) ∷ []

abbrev removing : Changes
removing = record {
  off_size = 6;
  off = offsets with_removal;
  bytes_size = 20;
  bytes = encoded with_removal;
  entry_size = 3;
  entries = [];
}

changes_sort-aborted_example : changes_sort by_insertion removing ≡ aborted
changes_sort-aborted_example =
    changes_sort-aborted by_insertion removing with_removal
      (record {
        bytes_eq = refl;
        off_eq = refl;
        off_fits = omega arith;
        bytes_fit = omega arith;
        room = omega arith;
      })
      refl

abbrev ones : List Change
ones = (97 ∷ [], 1 ∷ []) ∷ (98 ∷ [], 2 ∷ 0 ∷ []) ∷ []

abbrev others : List Change
others = (98 ∷ [], 2 ∷ 0 ∷ []) ∷ (98 ∷ 1 ∷ [], 3 ∷ []) ∷ []

abbrev sorted_journal : List Change → Changes
sorted_journal ps = record {
  off_size = 5;
  off = offsets ps;
  bytes_size = 10;
  bytes = encoded ps;
  entry_size = 2;
  entries = map entry_of ps;
}

changes_merge-Merges_example :
    Merges [] ones others (changes_merge removing (sorted_journal ones) (sorted_journal others))
unfolding strcmp
changes_merge-Merges_example =
    changes_merge-Merges removing (sorted_journal ones) (sorted_journal others) ones others
      (omega arith)
      (record {
        ascending = (refl, (tt, tt));
        listed = refl;
        off_length = refl;
        bytes_length = refl;
      })
      (record {
        ascending = (refl, (tt, tt));
        listed = refl;
        off_length = refl;
        bytes_length = refl;
      })
