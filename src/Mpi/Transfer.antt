-- ===== src/Mpi/Transfer.antt =====
-- The send and the receive of a range together.
use laik.Layout.Copy.{Copied-join, Copied-Stores}
use native.Mathlib.Nat.{le-div_iff_mul-le}
use mathlib.Core.List.{append_assoc}
use laik.Prelude.{
  subst, some, ◌/◌, refl, inr, ◌∙◌, ap, inl, ◌++◌, done, Bool, ℕ, zero, suc, ◌+◌, ◌-◌, ◌*◌, ◌<◌,
  ◌≤◌, ◌≡◌, true, false, List, [], ◌∷◌, length, arith,
}
use laik.Space.{Range, Index, index_is_equal}
use laik.Space.Points.{contains}
use laik.Layout.Walk.{rank, total}
use laik.Layout.Ranks.{rank_lt}
use laik.Layout.Generic.{Mapping, LayoutFunctions, pack_gen, unpack_gen}
use laik.Layout.RoundTrip.{after}
use laik.Layout.Transfer.{Copied, Serves, not_at_end, pack_gen_lem, unpack_gen_lem, some_element}
use laik.Mpi.{Mpi, packbuf_size, send_loop, recv_loop}
use laik.Mpi.Chunks.{Chunks, Arrives, after-Arrives, index_is_equal_refl}

module _ {A : Type 0} (mpi : Mpi A) (layout : LayoutFunctions A) (dims : ℕ) (r : Range)
    (pos_dims : 0 < dims) (dims_le : dims ≤ 3) where
  send_loop-step :
      (n : ℕ) (m : Mapping A) (idx next : Index) (count : ℕ) (ch : mpi.Channel) (buf : List A)
      (b : Bool)
      → layout.pack dims m r idx packbuf_size ≡ done (buf, next)
      → 0 < length buf
      → index_is_equal dims next r.to ≡ b
      → send_loop mpi layout (suc n) dims m r idx count ch ≡ elim b [
        | true ↦ done (mpi.send buf ch, count + length buf)
        | false ↦ send_loop mpi layout n dims m r next (count + length buf) (mpi.send buf ch)
      ]
  unfolding send_loop
  send_loop-step n m idx next count ch buf true e h q = ground (arith, e, q)
  send_loop-step n m idx next count ch buf false e h q = ground (arith, e, q)

  pub send_loop_lem :
      (n : ℕ) (m : Mapping A) (f : Index → ℕ) (idx : Index) (count : ℕ) (ch : mpi.Channel)
      → layout.pack ≡ pack_gen
      → Serves dims r m f
      → contains dims idx r ≡ true
      → m.elemsize ≤ packbuf_size
      → total dims r - rank dims r idx ≤ n
      → (ch' : mpi.Channel) × (bs : List (List A)) × (send_loop mpi layout n dims m r idx count ch
          ≡ done (ch', count + (total dims r - rank dims r idx)))
        × (mpi.messages ch' ≡ mpi.messages ch ++ bs)
        × Chunks dims r f m.mem m.elemsize idx bs
  unfolding Chunks Arrives
  send_loop_lem zero m f idx count ch gen s c one h = absurd (omega (arith, rank_lt dims r idx c))
  send_loop_lem (suc n) m f idx count ch gen s c one h =
      let (buf, ep, holds, room) = pack_gen_lem dims r pos_dims dims_le m f idx packbuf_size s c in
      let e = ap (λ pack. pack dims m r idx packbuf_size) gen ∙ ep in
      let pos_buf =
        some_element dims r pos_dims dims_le idx m.elemsize packbuf_size buf c one room in
      elim (after-Arrives dims r (length buf) idx pos_dims dims_le c holds.fits) [
        | inl (at_end, full) ↦ (
          mpi.send buf ch,
          buf ∷ [],
          send_loop-step n m idx (after dims r (length buf) idx) count ch buf true e pos_buf
                (ap (λ i. index_is_equal dims i r.to) at_end ∙ index_is_equal_refl dims r.to)
              ∙ ap (λ k. done (mpi.send buf ch, k)) (omega (arith, full)),
          mpi.messages-send buf ch,
          (holds, pos_buf, room.enough, inl (refl, at_end, full)),
        )
        | inr (inside, up) ↦
            let next = after dims r (length buf) idx in
            let (ch', bs, e', msgs, chunks) =
              send_loop_lem n m f next (count + length buf) (mpi.send buf ch) gen s inside one
                (omega (arith, up, h, pos_buf)) in
            (
              ch',
              buf ∷ bs,
              send_loop-step n m idx next count ch buf false e pos_buf
                    (not_at_end dims dims r next inside)
                  ∙ e'
                  ∙ ap (λ k. done (ch', k)) (omega (arith, up, rank_lt dims r next inside)),
              msgs
                  ∙ ap (λ xs. xs ++ bs) (mpi.messages-send buf ch)
                  ∙ append_assoc (mpi.messages ch) (buf ∷ []) bs,
              (holds, pos_buf, room.enough, inr (inside, up, chunks)),
            )
      ]

  module _ (m : Mapping A) (g : Index → ℕ) (serves : Serves dims r m g) where
    with_mem : (mem : ℕ → A) → Serves dims r (record m { mem = mem }) g
    with_mem mem = record {
      offsets = serves.offsets;
      places = serves.places;
      required = serves.required;
      pos_size = serves.pos_size;
    }

    recv_loop-step :
        (n : ℕ) (idx next : Index) (mem mem' : ℕ → A) (count : ℕ) (ch ch' : mpi.Channel)
        (buf : List A) (b : Bool)
        → mpi.recv (packbuf_size / m.elemsize) ch ≡ some (buf, ch')
        → layout.unpack dims (record m { mem = mem }) r idx buf (length buf * m.elemsize)
          ≡ done (mem', length buf, next)
        → index_is_equal dims next r.to ≡ b
        → recv_loop mpi layout (suc n) dims m r m.elemsize idx mem count ch ≡ elim b [
          | true ↦ done (ch', mem', count + length buf)
          | false ↦ recv_loop mpi layout n dims m r m.elemsize next mem' (count + length buf) ch'
        ]
    unfolding recv_loop
    recv_loop-step n idx next mem mem' count ch ch' buf true e u q = ground (arith, e, u, q)
    recv_loop-step n idx next mem mem' count ch ch' buf false e u q = ground (arith, e, u, q)

    pub recv_loop_lem :
        (bs : List (List A)) (n : ℕ) (f : Index → ℕ) (smem : ℕ → A) (idx : Index) (mem : ℕ → A)
        (count : ℕ) (ch : mpi.Channel)
        → layout.unpack ≡ unpack_gen
        → contains dims idx r ≡ true
        → Chunks dims r f smem m.elemsize idx bs
        → mpi.messages ch ≡ bs
        → total dims r - rank dims r idx ≤ n
        → (ch' : mpi.Channel) × (mem' : ℕ → A) × (recv_loop mpi layout n dims m r m.elemsize idx mem
              count ch
            ≡ done (ch', mem', count + (total dims r - rank dims r idx)))
          × (mpi.messages ch' ≡ [])
          × Copied dims r f g idx (total dims r - rank dims r idx) smem mem mem'
    unfolding Chunks
    recv_loop_lem [] n f smem idx mem count ch gen c chunks e h = absurd chunks
    recv_loop_lem (b ∷ bs) zero f smem idx mem count ch gen c chunks e h =
        absurd (omega (arith, rank_lt dims r idx c))
    recv_loop_lem (b ∷ bs) (suc n) f smem idx mem count ch gen c (holds, pos_buf, enough, rest) e
          h =
        let fits_buf : length b ≤ packbuf_size / m.elemsize =
          (le-div_iff_mul-le serves.pos_size).1 enough in
        let (ch1, er, later) = mpi.recv-first (packbuf_size / m.elemsize) ch b bs e fits_buf in
        let (mem1, eg, st) =
          unpack_gen_lem dims r pos_dims dims_le (record m { mem = mem }) g idx b (with_mem mem) c
            pos_buf holds.fits in
        let eu =
          ap (λ unpack. unpack dims (record m { mem = mem }) r idx b (length b * m.elemsize)) gen
          ∙ eg in
        let one = Copied-Stores dims r f g idx b smem mem mem1 holds st in
        elim rest [
          | inl (none_left, at_end, full) ↦
              let k : length b ≡ total dims r - rank dims r idx = omega (arith, full) in
              (
                ch1,
                mem1,
                recv_loop-step n idx (after dims r (length b) idx) mem mem1 count ch ch1 b true er
                      eu
                      (ap (λ i. index_is_equal dims i r.to) at_end ∙ index_is_equal_refl dims r.to)
                    ∙ ap (λ j. done (ch1, mem1, count + j)) k,
                later ∙ none_left,
                subst (λ j. Copied dims r f g idx j smem mem mem1) k one,
              )
          | inr (inside, up, chunks) ↦
              let next = after dims r (length b) idx in
              let (ch', mem', el, em, two) =
                recv_loop_lem bs n f smem next mem1 (count + length b) ch1 gen inside chunks later
                  (omega (arith, up, h, pos_buf)) in
              let k : length b + (total dims r - rank dims r next)
                  ≡ total dims r - rank dims r idx =
                omega (arith, up, rank_lt dims r next inside) in
              (
                ch',
                mem',
                recv_loop-step n idx next mem mem1 count ch ch1 b false er eu
                      (not_at_end dims dims r next inside)
                    ∙ el
                    ∙ ap (λ j. done (ch', mem', j)) (omega (arith, k)),
                em,
                subst (λ j. Copied dims r f g idx j smem mem mem') k
                    (Copied-join dims r f g serves.places idx next (length b)
                      (total dims r - rank dims r next) smem mem mem1 mem' up one two),
              )
        ]
