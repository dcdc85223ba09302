-- ===== src/Layout/Whole.antt =====
-- A whole range is packed from one lexicographical layout and unpacked into another.
use laik.Layout.Copy.{copy_elements_lem}
use laik.Prelude.{
  ◌-◌, ltb→lt, if◌then◌else◌, inr, inl, ltb, Bool-cases, ◌∙◌, ap, All, ℕ, suc, ◌+◌, ◌*◌, ◌<◌, ◌≤◌,
  ◌≡◌, Bool, true, false, some, List, length, get_elem?, done, arith,
}
use laik.Space.{range_size, Range, SpaceRef, Index, range_within_range}
use laik.Space.Points.{contains, filled}
use laik.Layout.{LexLayout, offset_lex}
use laik.Layout.Walk.{rank, total, digit_first}
use laik.Layout.Ranks.{Places, rank_lt, rank-same, rank-injective}
use laik.Layout.Entries.{range_size-total, CanHold, IsLayout}
use laik.Layout.Bounds.{layout_offset}
use laik.Layout.Generic.{copy_gen, copy_elements, Mapping, pack_gen, unpack_gen}
use laik.Layout.RoundTrip.{ltb-false, suc_mul, Visited, Room}
use laik.Layout.Transfer.{Serves, pack_gen-unpack_gen}

Places-rank :
    (dims : ℕ) (r q : Range)
    → ((p : Index) → contains dims p r ≡ true → contains dims p q ≡ true)
    → Places dims r (rank dims q)
Places-rank dims r q sub = record {
  same = λ p p' c c' e. rank-same dims q p p' (rank-injective dims r p p' c c' e);
  apart = λ p p' c c' e. rank-same dims r p p' (rank-injective dims q p p' (sub p c) (sub p' c') e);
}

-- Map `n` of the lexicographical layout for `maps` holds the indexes of `r`, in a mapping `m` whose
-- required range has them; the range of the map is `held`.
pub record InMap {A : Type 0} (s : SpaceRef) (r : Range) (m : Mapping A) : Type 0 where
  pub maps : List Range
  pub layout : LexLayout
  pub is : IsLayout s maps layout
  pub hold : All (CanHold s) maps
  pub section : ℕ
  pub held : Range
  pub found : get_elem? maps section ≡ some held
  pub sub : (p : Index) → contains s.dims p r ≡ true → contains s.dims p held ≡ true
  pub required : range_within_range r m.required ≡ done true
  pub offset : m.offset ≡ offset_lex layout section
  pub pos_size : 0 < m.elemsize

module _ {A : Type 0} (s : SpaceRef) (r : Range) (pos_dims : 0 < s.dims)
    (dims_le : s.dims ≤ 3) where
  pub InMap-Serves : (m : Mapping A) (i : InMap s r m) → Serves s.dims r m (rank s.dims i.held)
  InMap-Serves m i = record {
    offsets = λ p c.
        ap (λ o. o p) i.offset
        ∙ layout_offset s i.maps pos_dims dims_le i.hold i.layout i.is i.section i.held p i.found
            (i.sub p c);
    places = Places-rank s.dims r i.held i.sub;
    required = i.required;
    pos_size = i.pos_size;
  }

zero_rank : (a b : Bool) (u v : ℕ) → 0 + u * ((if a then 0 else 0) + v * (if b then 0 else 0)) ≡ 0
zero_rank true true u v = grind arith
zero_rank true false u v = grind arith
zero_rank false true u v = grind arith
zero_rank false false u v = grind arith

mul_mono_le : (a b e : ℕ) → a ≤ b → a * e ≤ b * e
mul_mono_le a b e h = grind arith

pub first_rank : (dims : ℕ) (r : Range) → rank dims r r.from ≡ 0
unfolding rank
first_rank dims r =
    rw (digit_first r.from.i0, digit_first r.from.i1, digit_first r.from.i2)
      (zero_rank (ltb 1 dims) (ltb 2 dims) _ _)

all_fit :
    (dims : ℕ) (r : Range) (e size k : ℕ)
    → Room dims r r.from e size k
    → k ≤ total dims r
    → total dims r * e ≤ size
    → k ≡ total dims r
all_fit dims r e size k room le h = elim (Bool-cases (ltb k (total dims r))) [
  | inl less ↦ elim room.most [
    | inl full ↦ omega (arith, full, first_rank dims r)
    | inr no_room ↦ absurd (
        omega
          (arith, no_room, h, mul_mono_le (suc k) (total dims r) e (ltb→lt k (total dims r) less)))
  ]
  | inr more ↦ omega (arith, le, ltb-false k (total dims r) more)
]

-- A range that two lexicographical layouts hold is packed as a whole by the generic packing, into a
-- buffer with room for it, and unpacked as a whole by the generic unpacking: for each index of the
-- range, the element at its place in the one mapping is afterwards at its place in the other, all
-- other elements of which stay. The mappings have elements of one size, their required ranges
-- contain the range, and it is not empty.
pub pack_gen-whole :
    {A : Type 0} (s : SpaceRef) (r : Range) (src dst : Mapping A) (size : ℕ)
    → 0 < s.dims
    → s.dims ≤ 3
    → filled s.dims r ≡ true
    → (i : InMap s r src) → (j : InMap s r dst) → src.elemsize ≡ dst.elemsize
    → total s.dims r * src.elemsize ≤ size
    → (buf : List A) × (next : Index) × (mem' : ℕ → A) × (pack_gen s.dims src r r.from size
        ≡ done (buf, next))
      × (unpack_gen s.dims dst r r.from buf (length buf * src.elemsize)
          ≡ done (mem', length buf, next))
      × (length buf ≡ total s.dims r)
      × ((p : Index)
          → contains s.dims p r ≡ true
          → mem' (rank s.dims j.held p) ≡ src.mem (rank s.dims i.held p))
      × ((n : ℕ)
          → ((p : Index) → contains s.dims p r ≡ true → ¬ (rank s.dims j.held p ≡ n))
          → mem' n ≡ dst.mem n)
pack_gen-whole s r src dst size pd dl full i j same h =
    let some_index = rank_lt s.dims r r.from full in
    let (buf, next, mem', e, e', pos_buf, room, copy) =
      pack_gen-unpack_gen s.dims r pd dl src dst (rank s.dims i.held) (rank s.dims j.held) r.from
        size (InMap-Serves s r pd dl src i) (InMap-Serves s r pd dl dst j) same full
        (omega (
          arith,
          h,
          mul_mono_le 1 (total s.dims r) src.elemsize (omega (arith, some_index)),
          suc_mul 0 src.elemsize,
        )) in
    let all_of =
      all_fit s.dims r src.elemsize size (length buf) room
        (omega (arith, copy.fits, first_rank s.dims r)) h in
    let visit : (p : Index) → contains s.dims p r ≡ true → Visited s.dims r r.from (length buf) p =
      λ p c. record {
        inside = c;
        from = omega (arith, first_rank s.dims r);
        to = omega (arith, first_rank s.dims r, all_of, rank_lt s.dims r p c);
      } in
    (
      buf,
      next,
      mem',
      e,
      e',
      all_of,
      λ p c. copy.copied p (visit p c),
      λ n h'. copy.kept n (λ p v. h' p v.inside),
    )

copy_gen-counted :
    {A : Type 0} (dims : ℕ) (r : Range) (src dst : Mapping A) (mem' : ℕ → A) (size n : ℕ)
    → src.elemsize ≡ dst.elemsize
    → copy_elements (total dims r + 1) dims r src dst.offset r.from dst.mem 0 ≡ done (mem', n)
    → range_size r ≡ done size
    → n ≡ size
    → copy_gen dims r src dst ≡ done mem'
unfolding copy_gen
copy_gen-counted dims r src dst mem' size n same e z k = ground (arith, same, e, z, k)

-- `laik_layout_copy_gen` returns for a range that two lexicographical layouts hold: its count is the
-- size of the range, the elements of all its indexes are copied to their places in the other
-- mapping, and all other elements there stay. The mappings have elements of one size; the range
-- names the space, is not empty, and has less than 2^63 indexes.
pub copy_gen-whole :
    {A : Type 0} (s : SpaceRef) (r : Range) (src dst : Mapping A)
    → 0 < s.dims
    → s.dims ≤ 3
    → CanHold s r
    → (i : InMap s r src) → (j : InMap s r dst) → src.elemsize ≡ dst.elemsize
    → (mem' : ℕ → A) × (copy_gen s.dims r src dst ≡ done mem')
      × ((p : Index)
          → contains s.dims p r ≡ true
          → mem' (rank s.dims j.held p) ≡ src.mem (rank s.dims i.held p))
      × ((n : ℕ)
          → ((p : Index) → contains s.dims p r ≡ true → ¬ (rank s.dims j.held p ≡ n))
          → mem' n ≡ dst.mem n)
copy_gen-whole s r src dst pd dl can i j same =
    let size = total s.dims r in
    let zero_rank = first_rank s.dims r in
    let k : size - rank s.dims r r.from ≡ size = omega (arith, zero_rank) in
    let (mem', e, copy) =
      copy_elements_lem s.dims r pd dl src dst (rank s.dims i.held) (rank s.dims j.held)
        (InMap-Serves s r pd dl src i) (InMap-Serves s r pd dl dst j) (size + 1) r.from dst.mem 0
        can.full (omega arith) in
    let visit : (p : Index)
        → contains s.dims p r ≡ true
        → Visited s.dims r r.from (size - rank s.dims r r.from) p =
      λ p c. record {
        inside = c;
        from = omega (arith, zero_rank);
        to = omega (arith, zero_rank, k, rank_lt s.dims r p c);
      } in
    (
      mem',
      copy_gen-counted s.dims r src dst mem' size _ same e (range_size-total s r pd dl can)
          (omega (arith, k)),
      λ p c. copy.copied p (visit p c),
      λ n h. copy.kept n (λ p v. h p v.inside),
    )
