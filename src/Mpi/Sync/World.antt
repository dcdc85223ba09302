-- ===== src/Mpi/Sync/World.antt =====
-- `laik_kvs_sync` of all tasks with the MPI backend: all tasks have the same map afterwards.
use laik.Prelude.{
  fun_ext, ℕ, ◌*◌, ◌≤◌, ◌<◌, Bool, true, false, ltb, List, [], ◌∷◌, length, length-append, All, map,
  Option, none, some, ◌≡◌, refl, ap, ap₂, sym, ◌∙◌, subst, arith, if◌then◌else◌, done,
}
use laik.Prelude.Sort.{QSort}
use laik.Kvs.{Changes, KvStore}
use laik.Kvs.Journal.{changes_init, changes_sort}
use laik.Kvs.Store.{after_sync}
use laik.Kvs.Encode.{Change, encode, encoded, offsets, length-ends}
use laik.Kvs.Refine.{Map, Strings}
use laik.Kvs.Invariant.{Implements}
use laik.Kvs.Union.{change_at, or_else}
use laik.Kvs.Apply.Whole.{updated_by}
use laik.Kvs.Carry.{Carries, changes_sort-Carries}
use laik.Kvs.Ending.{after_sync-Implements}
use laik.Mpi.Sync.{Message, merge_received, sync_master, sync_world}
use laik.Mpi.Sync.Collect.{Sendable, Sendable-Proper, message_of, first_of, HasRoom}
use laik.Mpi.Sync.Received.{Fine, merge_received-Collected}
use laik.Mpi.Sync.Tasks.{Among, apply_all}
use laik.Mpi.Sync.Whole.{Task, store_of, changes_of, send_all-Tasks, receive_all-Implements}

changes_init-room : HasRoom changes_init
unfolding changes_init
changes_init-room = omega arith

Sendable-size : (qs : List Change) → All Sendable qs → 4 * length qs ≤ length (encoded qs)
Sendable-size [] h = omega arith
Sendable-size (q ∷ qs) h =
    omega (arith, h.0.2, Sendable-size qs h.1, length-append (encode q) (encoded qs))

-- More bytes than offsets
more_bytes :
    (q : Change) (qs : List Change)
    → All Sendable (q ∷ qs)
    → length (offsets (q ∷ qs)) < length (encoded (q ∷ qs))
more_bytes q qs h = omega (arith, Sendable-size (q ∷ qs) h, length-ends 0 (q ∷ qs))

or_else-none_left : (a b : Option (List ℕ)) → or_else a b ≡ none → (a ≡ none) × (b ≡ none)
or_else-none_left none b h = (refl, h)
or_else-none_left (some v) b h = absurd cc

first_of-Among :
    (tasks : List (KvStore × List Change)) (qs : List Change)
    → ((k : List ℕ) → change_at qs k ≡ none → first_of (map changes_of tasks) k ≡ none)
    → All (λ t. Among (changes_of t) qs) tasks
first_of-Among [] qs h = tt
first_of-Among ((kvs, ps) ∷ tasks) qs h = (
  λ k e. (or_else-none_left _ _ (h k e)).0,
  first_of-Among tasks qs (λ k e. (or_else-none_left _ _ (h k e)).1),
)

-- The map of the last synchronization with the changes of all tasks.
abbrev pub agreed : Map → List (List Change) → Map
agreed m pss k = or_else (first_of pss k) (m k)

module _ (q : QSort) (behind : List ℕ → List ℕ) (m news : Map) (strings : Strings m) where
  -- What task 0 gives, for the changes `all_changes` of all tasks.
  abbrev Masters : KvStore → List Message → Map → Type 0
  Masters kvs messages changed =
      (merged : KvStore) × (kvs' : KvStore) × (r : Change) × (qs : List Change) × (sync_master q
          behind messages (record kvs { in_sync = true })
        ≡ done (merged, message_of (r ∷ qs)))
      × (after_sync q merged ≡ done kvs')
      × Implements kvs' (updated_by (r ∷ qs) m)
      × Fine news (r ∷ qs)
      × ((k : List ℕ) → change_at (r ∷ qs) k ≡ changed k)

  master_end :
      (kvs : KvStore) (ps : List Change) (messages : List Message) (changed : Map)
      (c dst src : Changes) (own : Bool) (qs ws : List Change)
      → Task m news (kvs, ps)
      → changes_sort q kvs.changes ≡ done c
      → merge_received q messages c changes_init true changes_init ≡ done (dst, src, own)
      → Carries dst qs ws
      → HasRoom src
      → Fine news qs
      → ((k : List ℕ) → change_at qs k ≡ changed k)
      → Among ps qs
      → (k v : List ℕ) → changed k ≡ some v
      → Masters kvs messages changed
  unfolding sync_master change_at
  master_end kvs ps messages changed c dst src own [] ws task sorts merges carries room fine same
        among k v e =
      let missing = same k in absurd cc
  master_end kvs ps messages changed c dst src own (r ∷ qs) ws (since, fine_own) sorts merges
        carries room fine same among k v e =
      let d = if own then dst else src in
      let (merged, applied, s, journal) =
        apply_all behind dst d (r ∷ qs) since fine_own strings fine among carries.off_eq
          carries.bytes_eq in
      let has_room : (b : Bool) → HasRoom (if b then dst else src) = either carries.room room in
      let (kvs', ended, implements) =
        after_sync-Implements q s (subst HasRoom (sym journal) (has_room own)) in
      let counts : ltb (length dst.off) (length dst.bytes) ≡ true =
        ground
          (arith, ap length carries.off_eq, ap length carries.bytes_eq, more_bytes r qs fine.1) in
      (
        merged,
        kvs',
        r,
        qs,
        rw (sorts, merges, counts, applied)
            (ap₂ (λ o b. done (merged, (o, b))) carries.off_eq carries.bytes_eq),
        ended,
        implements,
        fine,
        same,
      )
    where
      either : HasRoom dst → HasRoom src → (b : Bool) → HasRoom (if b then dst else src)
      either h l true = h
      either h l false = l

  master-Implements :
      (kvs : KvStore) (ps : List Change) (tasks : List (KvStore × List Change)) (k v : List ℕ)
      → Task m news (kvs, ps)
      → All (Task m news) tasks
      → first_of (ps ∷ map changes_of tasks) k ≡ some v
      → Masters kvs (map message_of (map changes_of tasks)) (first_of (ps ∷ map changes_of tasks))
  master-Implements kvs ps tasks k v (since, fine) h e =
      let (c, ws, sorts, carries) =
        changes_sort-Carries q kvs.changes ps since.held since.store.unsorted
          (Sendable-Proper ps fine.1) fine.0 in
      let (dst, src, own, qs, ws', merges, carries', room, fine', same) =
        merge_received-Collected q news (map changes_of tasks) c changes_init changes_init true ps
          ws (fines tasks h) carries fine changes_init-room changes_init-room in
      master_end kvs ps (map message_of (map changes_of tasks))
        (first_of (ps ∷ map changes_of tasks)) c dst src own qs ws' (since, fine) sorts merges
        carries' room fine' same (λ j gone. (or_else-none_left _ _ (sym (same j) ∙ gone)).0) k v e
    where
      fines :
          (tasks : List (KvStore × List Change))
          → All (Task m news) tasks
          → All (Fine news) (map changes_of tasks)
      fines [] h = tt
      fines ((kvs, ps) ∷ tasks) h = (h.0.1, fines tasks h.1)

  -- `laik_kvs_sync` of all tasks with the MPI backend, on stores that had the same map of strings
  -- after the last synchronization, returns, and all tasks have the same map again: that of the last
  -- synchronization with the changes of all tasks. It holds where some task has changed a string to a
  -- string, where each task has changed a key once at most, where tasks that changed the same key
  -- gave it the same value, and where key and value of a change have together two characters at least.
  pub sync_world-agreed :
      (kvs : KvStore) (ps : List Change) (tasks : List (KvStore × List Change)) (k v : List ℕ)
      → Task m news (kvs, ps)
      → All (Task m news) tasks
      → first_of (ps ∷ map changes_of tasks) k ≡ some v
      → (kvs' : KvStore) × (others : List KvStore) × (sync_world q behind kvs (map store_of tasks)
          ≡ done (kvs', others))
        × (length others ≡ length tasks)
        × Implements kvs' (agreed m (ps ∷ map changes_of tasks))
        × All (λ other. Implements other (agreed m (ps ∷ map changes_of tasks))) others
  unfolding sync_world
  sync_world-agreed kvs ps tasks k v task h e =
      let all_changes = first_of (ps ∷ map changes_of tasks) in
      let (merged, kvs', r, qs, collected, ended, implements, fine, same) =
        master-Implements kvs ps tasks k v task h e in
      let among = first_of-Among tasks (r ∷ qs) (λ j gone.
        (or_else-none_left (change_at ps j) (first_of (map changes_of tasks) j)
          (sym (same j) ∙ gone)).1) in
      let (others, received, size, all_implement) =
        receive_all-Implements q behind m news strings tasks r qs h fine among in
      let maps : updated_by (r ∷ qs) m ≡ agreed m (ps ∷ map changes_of tasks) =
        fun_ext (λ j. ap (λ o. or_else o (m j)) (same j)) in
      (
        kvs',
        others,
        rw (send_all-Tasks q behind m news strings tasks h, collected, ended, received) refl,
        size,
        subst (Implements kvs') maps implements,
        subst (λ f. All (λ other. Implements other f) others) maps all_implement,
      )
