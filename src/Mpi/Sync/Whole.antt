-- ===== src/Mpi/Sync/Whole.antt =====
-- `laik_kvs_sync` of all tasks with the MPI backend.
use laik.Prelude.{
  suc, ℕ, ◌%◌, true, ◌||◌, ◌==◌, ltb, List, [], ◌∷◌, length, length-append, All, map, ◌≡◌, refl, ap,
  sym, ◌∙◌, subst, arith, done,
}
use laik.Prelude.Sort.{QSort}
use laik.Kvs.{Changes, KvStore}
use laik.Kvs.Journal.{changes_ensure_size, changes_set_size}
use laik.Kvs.Store.{after_sync, changes_apply}
use laik.Kvs.Encode.{Change, encode, encoded, offsets, length-encode, length-ends}
use laik.Kvs.Refine.{Map, Strings}
use laik.Kvs.Invariant.{Implements}
use laik.Kvs.Apply.Whole.{updated_by}
use laik.Kvs.Ending.{after_sync-Implements}
use laik.Mpi.Sync.{send_changes, receive_into, receive_changes, send_all, receive_all}
use laik.Mpi.Sync.Collect.{message_of, HasRoom, filled_with, ready_for-room, filled_with-set}
use laik.Mpi.Sync.Received.{Fine}
use laik.Mpi.Sync.Tasks.{Since, Among, apply_all}

send_changes-Since :
    {kvs : KvStore} {m : Map} (ps : List Change)
    → Since kvs m ps
    → send_changes (record kvs { in_sync = true }) ≡ done (message_of ps)
unfolding send_changes
send_changes-Since [] s = rw (s.held.off_eq, s.held.bytes_eq) refl
send_changes-Since (p ∷ ps) s =
    let n = length (offsets (p ∷ ps)) in
    let odd : (n == 0 || (n % 2) == 1) ≡ true = ground (arith, length-ends 0 (p ∷ ps)) in
    let some_offsets : ltb 0 n ≡ true = ground arith in
    let some_bytes : ltb 0 (length (encoded (p ∷ ps))) ≡ true =
      ground (arith, length-append (encode p) (encoded ps), length-encode p) in
    rw (s.held.off_eq, s.held.bytes_eq, odd, some_offsets, some_bytes) refl

receive_into-filled :
    (c : Changes) (p : Change) (ps : List Change)
    → c.entries ≡ []
    → receive_into c (message_of (p ∷ ps)) ≡ done (filled_with c (p ∷ ps))
unfolding receive_into changes_ensure_size changes_set_size
receive_into-filled c p ps unsorted =
    let some_bytes : ltb 0 (length (encoded (p ∷ ps))) ≡ true =
      ground (arith, length-append (encode p) (encoded ps), length-encode p) in
    rw (some_bytes, unsorted) (filled_with-set c p ps)

receive_changes-some :
    (behind : List ℕ → List ℕ) (kvs : KvStore) (off bytes : List ℕ) (c : Changes)
    → ltb 0 (length off) ≡ true
    → receive_into kvs.changes (off, bytes) ≡ done c
    → receive_changes behind kvs (off, bytes) ≡ changes_apply behind c (record kvs { changes = c })
unfolding receive_changes
receive_changes-some behind kvs off bytes c some_offsets received =
    rw (some_offsets, received, receive_changes) refl

-- A task and what it has changed.
abbrev pub Task : Map → Map → KvStore × List Change → Type 0
Task m news (kvs, ps) = Since kvs m ps × Fine news ps

abbrev pub store_of : KvStore × List Change → KvStore
store_of (kvs, ps) = kvs

abbrev pub changes_of : KvStore × List Change → List Change
changes_of (kvs, ps) = ps

module _ (q : QSort) (behind : List ℕ → List ℕ) (m news : Map) (strings : Strings m) where
  receive-Implements :
      {kvs : KvStore} {ps : List Change} (r : Change) (qs : List Change)
      → Task m news (kvs, ps)
      → Fine news (r ∷ qs)
      → Among ps (r ∷ qs)
      → (kvs1 : KvStore) × (kvs2 : KvStore) × (receive_changes behind
            (record kvs { in_sync = true })
            (message_of (r ∷ qs))
          ≡ done kvs1)
        × (after_sync q kvs1 ≡ done kvs2)
        × Implements kvs2 (updated_by (r ∷ qs) m)
  receive-Implements {kvs} {ps} r qs (since, fine) fine_all among =
      let all_changes = r ∷ qs in
      let c = filled_with kvs.changes all_changes in
      let (kvs1, applied, s, journal) =
        apply_all behind c c all_changes since fine strings fine_all among refl refl in
      let room : HasRoom kvs1.changes =
        subst HasRoom (sym journal) (ready_for-room kvs.changes all_changes since.held.room) in
      let (kvs2, ended, implements) = after_sync-Implements q s room in
      let some_offsets : ltb 0 (length (offsets all_changes)) ≡ true = ground arith in
      (
        kvs1,
        kvs2,
        receive_changes-some behind (record kvs { in_sync = true }) (offsets all_changes)
              (encoded all_changes) c some_offsets
              (receive_into-filled kvs.changes r qs since.store.unsorted)
            ∙ applied,
        ended,
        implements,
      )

  pub send_all-Tasks :
      (tasks : List (KvStore × List Change))
      → All (Task m news) tasks
      → send_all (map store_of tasks) ≡ done (map message_of (map changes_of tasks))
  unfolding send_all
  send_all-Tasks [] h = refl
  send_all-Tasks ((kvs, ps) ∷ tasks) ((since, fine), rest) =
      rw (send_changes-Since ps since, send_all-Tasks tasks rest) refl

  pub receive_all-Implements :
      (tasks : List (KvStore × List Change)) (r : Change) (qs : List Change)
      → All (Task m news) tasks
      → Fine news (r ∷ qs)
      → All (λ t. Among (changes_of t) (r ∷ qs)) tasks
      → (others : List KvStore) × (receive_all q behind (message_of (r ∷ qs)) (map store_of tasks)
          ≡ done others)
        × (length others ≡ length tasks)
        × All (λ kvs. Implements kvs (updated_by (r ∷ qs) m)) others
  unfolding receive_all
  receive_all-Implements [] r qs h fine among = ([], refl, refl, tt)
  receive_all-Implements ((kvs, ps) ∷ tasks) r qs (task, h) fine (one, among) =
      let (kvs1, kvs2, received, ended, implements) = receive-Implements r qs task fine one in
      let (others, returns, size, all_implement) = receive_all-Implements tasks r qs h fine among in
      (kvs2 ∷ others, rw (received, ended, returns) refl, ap suc size, (implements, all_implement))
