-- ===== src/Mpi/Sync.antt =====
-- `laik_mpi_sync` of src/backend-mpi.c: the messages between task 0 and the others, which hold
-- offsets and bytes of a journal, are arguments and results.
pub mod Collect
pub mod Received
pub mod Tasks
pub mod Whole
pub mod World
pub mod Local
pub mod Tests
use laik.Prelude.{
  ℕ, zero, suc, ◌+◌, ◌%◌, Bool, true, false, ◌||◌, not, ◌==◌, ltb, leb, if◌then◌else◌, List, [],
  ◌∷◌, length, Outcome, done, aborted, ◌>>=◌, ◌>>◌, assert,
}
use laik.Prelude.Sort.{QSort}
use laik.Kvs.{Changes, KvStore}
use laik.Kvs.Journal.{
  changes_init, changes_ensure_size, changes_set_size, changes_sort, changes_merge,
}
use laik.Kvs.Store.{changes_apply, after_sync}

-- the offsets and the bytes, both empty where there are no changes
abbrev pub Message : Type 0
Message = List ℕ × List ℕ

-- What a task other than 0 sends.
unfoldable pub send_changes : KvStore → Outcome Message
send_changes kvs =
    let off = kvs.changes.off in
    let bytes = kvs.changes.bytes in
    assert (length off == 0 || (length off % 2) == 1)
    >> (if ltb 0 (length off) then assert (ltb 0 (length bytes)) else assert (length bytes == 0))
    >> done (off, bytes)

-- A received journal is put into the arrays of a journal.
unfoldable pub receive_into : Changes → Message → Outcome Changes
receive_into c (off, bytes) =
    assert (ltb 0 (length bytes)) >> changes_ensure_size c (length off) (length bytes) >>= λ c'.
    changes_set_size c' off bytes

module _ (behind : List ℕ → List ℕ) where
  -- What a task other than 0 does with the changes of all.
  unfoldable pub receive_changes : KvStore → Message → Outcome KvStore
  receive_changes kvs (off, bytes) = elim (ltb 0 (length off)) [
    | true ↦ receive_into kvs.changes (off, bytes) >>= λ c.
        changes_apply behind c (record kvs { changes = c })
    | false ↦ assert (length bytes == 0) >> done kvs
  ]

-- The merge of all received journals, with the two journals that are swapped and the one that
-- receives; the result is in the first one. The Boolean tells whether it is that of the store.
module _ (q : QSort) where
  unfoldable pub merge_received :
      List Message → Changes → Changes → Bool → Changes → Outcome (Changes × Changes × Bool)
  merge_received [] dst src own recvd = done (dst, src, own)
  merge_received ((off, bytes) ∷ messages) dst src own recvd =
      changes_set_size recvd [] [] >>= λ cleared.
      changes_ensure_size cleared (length off) (length bytes) >>= λ ready. elim (length off == 0) [
        | true ↦ assert (length bytes == 0) >> merge_received messages dst src own ready
        | false ↦ assert (ltb 0 (length bytes)) >> changes_set_size ready off bytes >>= λ filled.
            changes_sort q filled >>= λ sorted. changes_merge src dst sorted >>= λ merged.
            merge_received messages merged dst (not own) sorted
      ]

  -- Task 0: the store, and what is sent to all others.
  unfoldable pub sync_master :
      (List ℕ → List ℕ) → List Message → KvStore → Outcome (KvStore × Message)
  sync_master behind messages kvs = changes_sort q kvs.changes >>= λ changes.
      merge_received messages changes changes_init true changes_init >>= λ (dst, src, own).
      assert (ltb (length dst.off) (length dst.bytes))
      >> changes_apply behind dst (record kvs { changes = if own then dst else src })
      >>= λ kvs'. done (kvs', (dst.off, dst.bytes))

-- All tasks but 0 send their changes.
unfoldable pub send_all : List KvStore → Outcome (List Message)
send_all [] = done []
send_all (kvs ∷ others) = send_changes (record kvs { in_sync = true }) >>= λ message.
    send_all others >>= λ messages. done (message ∷ messages)

module _ (q : QSort) (behind : List ℕ → List ℕ) where
  -- All tasks but 0 receive the changes of all, and end their synchronization.
  unfoldable pub receive_all : Message → List KvStore → Outcome (List KvStore)
  receive_all message [] = done []
  receive_all message (kvs ∷ others) =
      receive_changes behind (record kvs { in_sync = true }) message >>= λ received.
      after_sync q received >>= λ kvs'.
      receive_all message others >>= λ others'. done (kvs' ∷ others')

  -- `laik_kvs_sync` of all tasks: the messages of the others wait for task 0, and that of task 0 for
  -- the others.
  unfoldable pub sync_world : KvStore → List KvStore → Outcome (KvStore × List KvStore)
  sync_world kvs others = send_all others >>= λ messages.
      sync_master q behind messages (record kvs { in_sync = true }) >>= λ (merged, message).
      after_sync q merged >>= λ kvs'. receive_all message others >>= λ others'. done (kvs', others')
