-- ===== src/Mpi.antt =====
-- The transfer of a range by messages in src/backend-mpi.c. The layout's pointers to its pack and
-- unpack functions are arguments, as `laik_init_layout` leaves them. MPI is not part of the repository: a record holds what is used of it.
pub mod Chunks
pub mod Transfer
pub mod Whole
pub mod Sync
pub mod Tests
use laik.Prelude.{
  true, false, ℕ, zero, suc, ◌+◌, ◌*◌, ◌/◌, ◌≤◌, ◌≡◌, Option, none, some, List, [], ◌∷◌, ◌++◌,
  length, ltb, ◌==◌, Outcome, done, aborted, ◌>>=◌, ◌>>◌, assert,
}
use laik.Space.{Range, Index, index_is_equal}
use laik.Layout.Walk.{total}
use laik.Layout.Generic.{Mapping, LayoutFunctions}

-- The messages from one process to another with one tag: `MPI_Send` adds one behind the others,
-- `MPI_Recv` takes the first one, which must not have more elements than its count.
pub record Mpi (A : Type 0) : Type 1 where
  pub Channel : Type 0
  pub messages : Channel → List (List A)
  pub send : List A → Channel → Channel
  pub recv : ℕ → Channel → Option (List A × Channel)
  pub messages-send : (x : List A) (c : Channel) → messages (send x c) ≡ messages c ++ (x ∷ [])
  pub recv-first :
      (n : ℕ) (c : Channel) (x : List A) (xs : List (List A))
      → messages c ≡ x ∷ xs
      → length x ≤ n
      → (c' : Channel) × (recv n c ≡ some (x, c')) × (messages c' ≡ xs)

-- PACKBUFSIZE
abbrev pub packbuf_size : ℕ
packbuf_size = 10 * 1024 * 1024

module _ {A : Type 0} (mpi : Mpi A) (layout : LayoutFunctions A) where
  -- The loop of `laik_mpi_exec_packAndSend`, with fuel: the channel and the count.
  unfoldable pub send_loop :
      ℕ → ℕ → Mapping A → Range → Index → ℕ → mpi.Channel → Outcome (mpi.Channel × ℕ)
  send_loop zero dims m range idx count ch = aborted
  send_loop (suc n) dims m range idx count ch =
      layout.pack dims m range idx packbuf_size >>= λ (buf, next).
      assert (ltb 0 (length buf)) >> elim (index_is_equal dims next range.to) [
        | true ↦ done (mpi.send buf ch, count + length buf)
        | false ↦ send_loop n dims m range next (count + length buf) (mpi.send buf ch)
      ]

  -- `laik_mpi_exec_packAndSend`
  unfoldable pub pack_and_send : ℕ → Mapping A → Range → ℕ → mpi.Channel → Outcome mpi.Channel
  pack_and_send dims m range slc_size ch =
      send_loop (total dims range) dims m range range.from 0 ch >>= λ (ch', count).
      assert (count == slc_size) >> done ch'

  -- The loop of `laik_mpi_exec_recvAndUnpack`, with fuel: the channel, the memory and the count. A
  -- receive without a message waits, here for ever.
  unfoldable pub recv_loop :
      ℕ
      → ℕ
      → Mapping A
      → Range
      → ℕ
      → Index
      → (ℕ → A)
      → ℕ
      → mpi.Channel
      → Outcome (mpi.Channel × (ℕ → A) × ℕ)
  recv_loop zero dims m range elemsize idx mem count ch = aborted
  recv_loop (suc n) dims m range elemsize idx mem count ch =
      elim (mpi.recv (packbuf_size / elemsize) ch) [
        | none ↦ aborted
        | some (buf, ch') ↦
            layout.unpack dims (record m { mem = mem }) range idx buf (length buf * elemsize)
            >>= λ (mem', unpacked, next).
                assert (length buf == unpacked) >> elim (index_is_equal dims next range.to) [
                  | true ↦ done (ch', mem', count + unpacked)
                  | false ↦ recv_loop n dims m range elemsize next mem' (count + unpacked) ch'
                ]
      ]

  -- `laik_mpi_exec_recvAndUnpack`
  unfoldable pub recv_and_unpack :
      ℕ → Mapping A → Range → ℕ → ℕ → mpi.Channel → Outcome (mpi.Channel × (ℕ → A))
  recv_and_unpack dims m range slc_size elemsize ch =
      recv_loop (total dims range) dims m range elemsize range.from m.mem 0 ch
      >>= λ (ch', mem', count). assert (count == slc_size) >> done (ch', mem')
