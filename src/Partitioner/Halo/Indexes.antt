-- ===== src/Partitioner/Halo/Indexes.antt =====
-- The indexes of the ranges that the halo partitioners make.
use laik.Prelude.{
  refl, [], ◌∷◌, ap₂, ap, ◌∙◌, any, any-append, ◌++◌, false, true, ◌||◌, Bool, if◌then◌else◌, arith,
  ◌≡◌, ◌&&◌,
}
use laik.Prelude.Int.{pos, ◌≤ℤ◌, ◌<ℤ◌, leb_ℤ, ℤ, ◌+ℤ◌, ◌-ℤ◌, ltb_ℤ}
use laik.Space.{Index, Range, Space, index_init, add_index, sub_index}
use laik.Space.Points.{contains, holds, within}
use laik.Partitioner.Halo.{halo_ranges, halo_dim, corner_halo, grow_dim}

-- `s` extended by `depth` in each dimension and direction
abbrev pub widened : ℤ → Range → Range
widened depth s = record s {
  from = sub_index s.from (index_init depth depth depth);
  to = add_index s.to (index_init depth depth depth);
}

low_grow :
    (x f sf depth : ℤ)
    → leb_ℤ (if ltb_ℤ (sf +ℤ depth) f then f -ℤ depth else sf) x
      ≡ (leb_ℤ sf x && leb_ℤ (f -ℤ depth) x)
unfolding ◌-ℤ◌ ◌+ℤ◌
low_grow x f sf depth = ground arith

high_grow :
    (x t st depth : ℤ)
    → ltb_ℤ x (if ltb_ℤ t (st -ℤ depth) then t +ℤ depth else st)
      ≡ (ltb_ℤ x st && ltb_ℤ x (t +ℤ depth))
unfolding ◌-ℤ◌ ◌+ℤ◌
high_grow x t st depth = ground arith

within_grow :
    (x f t sf st depth : ℤ)
    → within x
        (if ltb_ℤ (sf +ℤ depth) f then f -ℤ depth else sf)
        (if ltb_ℤ t (st -ℤ depth) then t +ℤ depth else st)
      ≡ (within x sf st && within x (f -ℤ depth) (t +ℤ depth))
unfolding within
within_grow x f t sf st depth = ground (arith, low_grow x f sf depth, high_grow x t st depth)

-- The range that the corner-halo partitioner makes of `s` holds exactly the indexes of the space
-- that are at most `depth` away from `s` in each dimension, with the corners.
pub corner_halo-contains :
    (depth : ℤ) (space : Space) (s : Range) (p : Index)
    → contains space.ref.dims p (corner_halo depth space s)
      ≡ (contains space.ref.dims p space.range && contains space.ref.dims p (widened depth s))
unfolding contains holds corner_halo grow_dim add_index sub_index
corner_halo-contains depth space s p = ground (
  arith,
  within_grow p.i0 s.from.i0 s.to.i0 space.range.from.i0 space.range.to.i0 depth,
  within_grow p.i1 s.from.i1 s.to.i1 space.range.from.i1 space.range.to.i1 depth,
  within_grow p.i2 s.from.i2 s.to.i2 space.range.from.i2 space.range.to.i2 depth,
)

both_sides :
    (x f t g u : ℤ) (a b : Bool)
    → f <ℤ t
    → g ≤ℤ f
    → t ≤ℤ u
    → (within x f t || ((a && within x g f) || (b && within x t u)))
      ≡ within x (if a then g else f) (if b then u else t)
unfolding within
both_sides x f t g u true true h k l = ground arith
both_sides x f t g u true false h k l = ground arith
both_sides x f t g u false true h k l = ground arith
both_sides x f t g u false false h k l = ground arith

below_sub : (f d : ℤ) → pos 0 ≤ℤ d → (f -ℤ d ≤ℤ f) × (f ≤ℤ f +ℤ d)
unfolding ◌-ℤ◌ ◌+ℤ◌
below_sub f d h = ground arith

any-halo_dim :
    (depth : ℤ) (sp s : Range) (p : Index)
    → any (contains 1 p) (halo_dim depth 0 sp s) ≡ (
        (ltb_ℤ (sp.from.i0 +ℤ depth) s.from.i0 && within p.i0 (s.from.i0 -ℤ depth) s.from.i0)
        || (ltb_ℤ s.to.i0 (sp.to.i0 -ℤ depth) && within p.i0 s.to.i0 (s.to.i0 +ℤ depth)))
unfolding halo_dim contains holds
any-halo_dim depth sp s p = ground arith

halo_ranges-line :
    (depth : ℤ) (space : Space) (s : Range)
    → space.ref.dims ≡ 1
    → halo_ranges depth space s ≡ s ∷ (halo_dim depth 0 space.range s ++ [])
unfolding halo_ranges
halo_ranges-line depth space s one = rw (one) refl

contains-line : (s : Range) (p : Index) → contains 1 p s ≡ within p.i0 s.from.i0 s.to.i0
unfolding contains holds
contains-line s p = ground arith

-- In a space of one dimension, where `s` is not empty and the depth is not negative: the ranges
-- that the halo partitioner makes of `s` hold together the indexes of `s` extended by `depth`, but
-- only in a direction in which more than `depth` indexes of the space follow; in the other
-- directions nothing is added, not even those indexes of the space that follow.
pub halo_ranges-contains :
    (depth : ℤ) (space : Space) (s : Range) (p : Index)
    → space.ref.dims ≡ 1
    → s.from.i0 <ℤ s.to.i0
    → pos 0 ≤ℤ depth
    → any (contains 1 p) (halo_ranges depth space s)
      ≡ within p.i0
          (if ltb_ℤ (space.range.from.i0 +ℤ depth) s.from.i0 then s.from.i0 -ℤ depth else s.from.i0)
          (if ltb_ℤ s.to.i0 (space.range.to.i0 -ℤ depth) then s.to.i0 +ℤ depth else s.to.i0)
halo_ranges-contains depth space s p one h k =
    let (a, _) = below_sub s.from.i0 depth k in
    let (_, d) = below_sub s.to.i0 depth k in
    ap (any (contains 1 p)) (halo_ranges-line depth space s one)
    ∙ ap₂ (λ x y. x || y) (contains-line s p)
        (any-append (contains 1 p) (halo_dim depth 0 space.range s) []
          ∙ ground (arith, any-halo_dim depth space.range s p))
    ∙ both_sides p.i0 s.from.i0 s.to.i0 (s.from.i0 -ℤ depth) (s.to.i0 +ℤ depth) _ _ h a d
