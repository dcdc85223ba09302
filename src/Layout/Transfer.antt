-- ===== src/Layout/Transfer.antt =====
-- Packing a part of a range and unpacking it elsewhere.
use mathlib.Core.Option.{some-injective}
use laik.Layout.Offsets.{mul_pos}
use laik.Prelude.{
  sym, refl, inr, ◌∙◌, inl, ap, ℕ, ◌+◌, ◌*◌, ◌<◌, ◌≤◌, ◌≡◌, true, false, List, [], ◌∷◌, length,
  done, arith,
}
use laik.Space.{Range, Index, index_is_equal, range_within_range}
use laik.Space.Points.{contains, holds, within}
use laik.Layout.Walk.{rank, total}
use laik.Layout.Ranks.{Places, rank_lt}
use laik.Layout.Generic.{unpack_loop, pack_loop, Mapping, pack_gen, unpack_gen}
use laik.Layout.RoundTrip.{suc_mul, Visited, Room, Holds, after, pack_loop_lem}
use laik.Layout.Unpack.{Stores, unpack_loop_lem}

-- The mapping serves the indexes of `r`: they lie in its required range, and its layout's offset
-- function places them apart, at `f`.
pub record Serves {A : Type 0} (dims : ℕ) (r : Range) (m : Mapping A) (f : Index → ℕ) : Type 0 where
  pub offsets : (p : Index) → contains dims p r ≡ true → m.offset p ≡ done (f p)
  pub places : Places dims r f
  pub required : range_within_range r m.required ≡ done true
  pub pos_size : 0 < m.elemsize

pub not_at_end :
    (dims d : ℕ) (r : Range) (p : Index)
    → contains dims p r ≡ true
    → index_is_equal d p r.to ≡ false
unfolding contains holds within index_is_equal
not_at_end dims d r p c = ground arith

-- The `k` next elements from `idx` on are copied: `mem'` holds at `g` what `mem` holds at `f`,
-- and at every other place what `old` holds.
pub record Copied {A : Type 0} (dims : ℕ) (r : Range) (f g : Index → ℕ) (idx : Index) (k : ℕ)
    (mem old mem' : ℕ → A) : Type 0 where
  pub fits : rank dims r idx + k ≤ total dims r
  pub copied : (p : Index) → Visited dims r idx k p → mem' (g p) ≡ mem (f p)
  pub kept : (n : ℕ) → ((p : Index) → Visited dims r idx k p → ¬ (g p ≡ n)) → mem' n ≡ old n

module _ {A : Type 0} (dims : ℕ) (r : Range) (pos_dims : 0 < dims) (dims_le : dims ≤ 3) where
  pub some_element :
      (idx : Index) (elemsize size : ℕ) (buf : List A)
      → contains dims idx r ≡ true
      → elemsize ≤ size
      → Room dims r idx elemsize size (length buf)
      → 0 < length buf
  some_element idx elemsize size [] c one room = elim room.most [
    | inl full ↦ absurd (omega (arith, full, rank_lt dims r idx c))
    | inr less ↦ absurd (omega (arith, less, suc_mul 0 elemsize))
  ]
  some_element idx elemsize size (x ∷ buf) c one room = omega arith

  pack_gen-loop :
      (m : Mapping A) (f : Index → ℕ) (idx : Index) (size : ℕ)
      → Serves dims r m f
      → contains dims idx r ≡ true
      → pack_gen dims m r idx size ≡ pack_loop (size + 1) dims r m idx size
  unfolding pack_gen
  pack_gen-loop m f idx size s c = ground (arith, not_at_end dims m.dims r idx c, s.required)

  pub pack_gen_lem :
      (m : Mapping A) (f : Index → ℕ) (idx : Index) (size : ℕ)
      → Serves dims r m f
      → contains dims idx r ≡ true
      → (buf : List A) × (pack_gen dims m r idx size ≡ done (buf, after dims r (length buf) idx))
        × Holds dims r f m.mem idx buf
        × Room dims r idx m.elemsize size (length buf)
  pack_gen_lem m f idx size s c =
      let (buf, e, h, room) =
        pack_loop_lem dims r pos_dims dims_le m f s.places s.offsets s.pos_size (size + 1) idx size
          (omega arith) c in
      (buf, pack_gen-loop m f idx size s c ∙ e, h, room)

  unpack_gen-loop :
      (m : Mapping A) (g : Index → ℕ) (idx : Index) (buf : List A) (size : ℕ)
      → Serves dims r m g
      → contains dims idx r ≡ true
      → 0 < size
      → unpack_gen dims m r idx buf size
        ≡ unpack_loop (size + 1) dims r m.offset m.elemsize m.mem idx buf size 0
  unfolding unpack_gen
  unpack_gen-loop m g idx buf size s c pos_buf =
      ground (arith, not_at_end dims m.dims r idx c, s.required)

  pub unpack_gen_lem :
      (m : Mapping A) (g : Index → ℕ) (idx : Index) (buf : List A)
      → Serves dims r m g
      → contains dims idx r ≡ true
      → 0 < length buf
      → rank dims r idx + length buf ≤ total dims r
      → (mem' : ℕ → A) × (unpack_gen dims m r idx buf (length buf * m.elemsize)
          ≡ done (mem', length buf, after dims r (length buf) idx))
        × Stores dims r g idx buf m.mem mem'
  unpack_gen_lem m g idx buf s c pos_buf fits =
      let size = length buf * m.elemsize in
      let (mem', e, st) =
        unpack_loop_lem dims r pos_dims dims_le m.offset m.elemsize g s.places s.offsets s.pos_size
          (size + 1) m.mem idx buf size 0 (omega arith) c fits refl in
      (
        mem',
        unpack_gen-loop m g idx buf size s c (mul_pos (length buf) m.elemsize pos_buf s.pos_size)
            ∙ e
            ∙ ap (λ k. done (mem', k, after dims r (length buf) idx)) (omega arith),
        st,
      )

  -- What `laik_layout_pack_gen` packs from the index `idx` of the range on into a buffer that has
  -- room for an element, `laik_layout_unpack_gen` unpacks from there on into a mapping of another
  -- layout. Both serve the range and have elements of one size. At least one element is packed,
  -- and as many as the buffer has room for or as the range has left. Both stop at the same index,
  -- where the next call goes on, and exactly the packed elements are copied to their places.
  pub pack_gen-unpack_gen :
      (src dst : Mapping A) (f g : Index → ℕ) (idx : Index) (size : ℕ)
      → Serves dims r src f
      → Serves dims r dst g
      → src.elemsize ≡ dst.elemsize
      → contains dims idx r ≡ true
      → src.elemsize ≤ size
      → (buf : List A) × (next : Index) × (mem' : ℕ → A) × (pack_gen dims src r idx size
          ≡ done (buf, next))
        × (unpack_gen dims dst r idx buf (length buf * src.elemsize)
            ≡ done (mem', length buf, next))
        × (0 < length buf)
        × Room dims r idx src.elemsize size (length buf)
        × Copied dims r f g idx (length buf) src.mem dst.mem mem'
  pack_gen-unpack_gen src dst f g idx size s d same c one =
      let (buf, e, h, room) = pack_gen_lem src f idx size s c in
      let pos_buf = some_element idx src.elemsize size buf c one room in
      let (mem', e', st) = unpack_gen_lem dst g idx buf d c pos_buf h.fits in
      (
        buf,
        after dims r (length buf) idx,
        mem',
        e,
        ap (λ k. unpack_gen dims dst r idx buf (length buf * k)) same ∙ e',
        pos_buf,
        room,
        record {
          fits = h.fits;
          copied = λ p v. some-injective _ _ (sym (st.stored p v) ∙ h.content p v);
          kept = st.kept;
        },
      )
