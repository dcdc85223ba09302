-- ===== src/Mpi/Whole.antt =====
-- A range that one process sends and another receives as a whole.
use laik.Mpi.Chunks.{Chunks}
use laik.Prelude.{
  Bool, Option, none, ◌⊎◌, ◌>>◌, ◌>>=◌, ◌++◌, ap, ◌∙◌, subst, ℕ, ◌-◌, ◌<◌, ◌≤◌, ◌≡◌, true, [],
  arith, ◌==◌, done, assert,
}
use laik.Space.{Range, Index, SpaceRef}
use laik.Space.Points.{contains, filled}
use laik.Layout.Walk.{rank, total}
use laik.Layout.Ranks.{rank_lt}
use laik.Layout.Generic.{
  Mapping, LayoutFunctions, Pack, Unpack, init_layout, init_layout-pack, init_layout-unpack,
}
use laik.Layout.RoundTrip.{Visited}
use laik.Layout.Whole.{InMap, InMap-Serves, first_rank}
use laik.Mpi.{recv_loop, send_loop, Mpi, packbuf_size, pack_and_send, recv_and_unpack}
use laik.Mpi.Transfer.{send_loop_lem, recv_loop_lem}

module _ {A : Type 0} (mpi : Mpi A) (layout : LayoutFunctions A) (dims : ℕ) (r : Range)
    (m : Mapping A) where
  pack_and_send-counted :
      (size n : ℕ) (ch ch1 : mpi.Channel)
      → send_loop mpi layout (total dims r) dims m r r.from 0 ch ≡ done (ch1, n)
      → n ≡ size
      → pack_and_send mpi layout dims m r size ch ≡ done ch1
  unfolding pack_and_send
  pack_and_send-counted size n ch ch1 e k =
      ap (λ o. o >>= λ x. assert (x.1 == size) >> done x.0) e ∙ ground (arith, k)

  recv_and_unpack-counted :
      (size elemsize n : ℕ) (ch ch2 : mpi.Channel) (mem' : ℕ → A)
      → recv_loop mpi layout (total dims r) dims m r elemsize r.from m.mem 0 ch
        ≡ done (ch2, mem', n)
      → n ≡ size
      → recv_and_unpack mpi layout dims m r size elemsize ch ≡ done (ch2, mem')
  unfolding recv_and_unpack
  recv_and_unpack-counted size elemsize n ch ch2 mem' e k =
      ap (λ o. o >>= λ x. assert (x.2 == size) >> done (x.0, x.1)) e ∙ ground (arith, k)

-- A range that two processes hold in lexicographical layouts is sent by `laik_mpi_exec_packAndSend`
-- and received by `laik_mpi_exec_recvAndUnpack`, over an empty channel and with the size of the
-- range as count: both functions return, and no message is left. For each index of the range the
-- receiver's element is then that of the sender, and all other elements of the receiver's mapping
-- stay. `laik_init_layout` sets the sender's pack and the receiver's unpack to the generic ones: it
-- is given none, or the environment has LAIK_LAYOUT_GENERIC. The range is not empty, of 1 to 3
-- dimensions, and the elements are of one size that fits in the buffer.
pub pack_and_send-recv_and_unpack :
    {A : Type 0} (mpi : Mpi A) (s : SpaceRef) (r : Range) (src dst : Mapping A) (ch : mpi.Channel)
    (generic generic' : Bool) (pack pack' : Option (Pack A)) (unpack unpack' : Option (Unpack A))
    → (generic ≡ true) ⊎ (pack ≡ none)
    → (generic' ≡ true) ⊎ (unpack' ≡ none)
    → 0 < s.dims
    → s.dims ≤ 3
    → filled s.dims r ≡ true
    → (i : InMap s r src) → (j : InMap s r dst) → src.elemsize ≡ dst.elemsize
    → src.elemsize ≤ packbuf_size
    → mpi.messages ch ≡ []
    → (ch1 : mpi.Channel) × (ch2 : mpi.Channel) × (mem' : ℕ → A) × (pack_and_send mpi
          (init_layout generic pack unpack)
          s.dims
          src
          r
          (total s.dims r)
          ch
        ≡ done ch1)
      × (recv_and_unpack mpi
            (init_layout generic' pack' unpack')
            s.dims
            dst
            r
            (total s.dims r)
            dst.elemsize
            ch1
          ≡ done (ch2, mem'))
      × (mpi.messages ch2 ≡ [])
      × ((p : Index)
          → contains s.dims p r ≡ true
          → mem' (rank s.dims j.held p) ≡ src.mem (rank s.dims i.held p))
      × ((n : ℕ)
          → ((p : Index) → contains s.dims p r ≡ true → ¬ (rank s.dims j.held p ≡ n))
          → mem' n ≡ dst.mem n)
pack_and_send-recv_and_unpack mpi s r src dst ch generic generic' pack pack' unpack unpack' sg dg pd
      dl full i j same one empty =
    let f = rank s.dims i.held in
    let g = rank s.dims j.held in
    let size = total s.dims r in
    let zero_rank = first_rank s.dims r in
    let k : size - rank s.dims r r.from ≡ size = omega (arith, zero_rank) in
    let sender = init_layout generic pack unpack in
    let receiver = init_layout generic' pack' unpack' in
    let (ch1, bs, e, msgs, chunks) =
      send_loop_lem mpi sender s.dims r pd dl size src f r.from 0 ch
        (init_layout-pack generic pack unpack sg) (InMap-Serves s r pd dl src i) full one
        (omega arith) in
    let (ch2, mem', e', none_left, copy) =
      recv_loop_lem mpi receiver s.dims r pd dl dst g (InMap-Serves s r pd dl dst j) bs size f
        src.mem r.from dst.mem 0 ch1 (init_layout-unpack generic' pack' unpack' dg) full
        (subst (λ z. Chunks s.dims r f src.mem z r.from bs) same chunks)
        (msgs ∙ ap (λ xs. xs ++ bs) empty) (omega arith) in
    let visit : (p : Index)
        → contains s.dims p r ≡ true
        → Visited s.dims r r.from (size - rank s.dims r r.from) p =
      λ p c. record {
        inside = c;
        from = omega (arith, zero_rank);
        to = omega (arith, zero_rank, k, rank_lt s.dims r p c);
      } in
    (
      ch1,
      ch2,
      mem',
      pack_and_send-counted mpi sender s.dims r src size _ ch ch1 e (omega (arith, k)),
      recv_and_unpack-counted mpi receiver s.dims r dst size dst.elemsize _ ch1 ch2 mem' e'
          (omega (arith, k)),
      none_left,
      λ p c. copy.copied p (visit p c),
      λ n h. copy.kept n (λ p v. h p v.inside),
    )
