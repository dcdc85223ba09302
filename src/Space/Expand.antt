-- ===== src/Space/Expand.antt =====
-- `laik_range_expand` and the index sets of its arguments.
use laik.Prelude.{ℕ, zero, suc, ◌<◌, ◌≡◌, Bool, true, false, ◌||◌, some, arith, done, if◌then◌else◌}
use laik.Prelude.Int.{ℤ, ltb_ℤ}
use laik.Space.{
  SpaceRef, Index, Range, at, within_dim, within_dims, range_is_empty, expand_dims, range_expand,
}
use laik.Space.Points.{within, holds, contains}
use laik.Space.Compare.{range_is_empty-contains}

within-extend :
    (x f1 t1 f2 t2 : ℤ)
    → (within x f1 t1 || within x f2 t2) ≡ true
    → within x (if ltb_ℤ f2 f1 then f2 else f1) (if ltb_ℤ t1 t2 then t2 else t1) ≡ true
unfolding within
within-extend x f1 t1 f2 t2 h = ground arith

contains-expand_dims :
    (dims : ℕ) (dst src : Range) (p : Index)
    → 0 < dims
    → (contains dims p dst || contains dims p src) ≡ true
    → contains dims p (expand_dims dims dst src) ≡ true
unfolding expand_dims contains holds
contains-expand_dims dims dst src p pd h = ground (
  arith,
  within-extend p.i0 dst.from.i0 dst.to.i0 src.from.i0 src.to.i0,
  within-extend p.i1 dst.from.i1 dst.to.i1 src.from.i1 src.to.i1,
  within-extend p.i2 dst.from.i2 dst.to.i2 src.from.i2 src.to.i2,
)

extend-within :
    (f1 t1 f2 t2 f t : ℤ)
    → within f1 f1 t1 ≡ true
    → within f2 f2 t2 ≡ true
    → within_dim f1 t1 f t ≡ true
    → within_dim f2 t2 f t ≡ true
    → within_dim (if ltb_ℤ f2 f1 then f2 else f1) (if ltb_ℤ t1 t2 then t2 else t1) f t ≡ true
unfolding within within_dim
extend-within f1 t1 f2 t2 f t a b c d = ground arith

-- the bounds that `expand_dims` computes for dimension `d`
abbrev Grows : ℕ → Range → Range → Range → Type 0
Grows d dst src r =
    (at r.from d ≡ (if ltb_ℤ (at src.from d) (at dst.from d) then at src.from d else at dst.from d))
    × (at r.to d ≡ (if ltb_ℤ (at dst.to d) (at src.to d) then at src.to d else at dst.to d))

expand_dims-Grows0 : (dims : ℕ) (dst src : Range) → Grows 0 dst src (expand_dims dims dst src)
unfolding expand_dims
expand_dims-Grows0 dims dst src = ground arith

expand_dims-Grows1 :
    (dims : ℕ) (dst src : Range) → 1 < dims → Grows 1 dst src (expand_dims dims dst src)
unfolding expand_dims
expand_dims-Grows1 dims dst src h = ground arith

expand_dims-Grows2 :
    (dims : ℕ) (dst src : Range) → 2 < dims → Grows 2 dst src (expand_dims dims dst src)
unfolding expand_dims
expand_dims-Grows2 dims dst src h = ground arith

-- dimension `d` of `r` is within that of `q`
abbrev dim_within : ℕ → Range → Range → Bool
dim_within d r q = within_dim (at r.from d) (at r.to d) (at q.from d) (at q.to d)

Grows-within :
    (d : ℕ) (dst src r q : Range)
    → Grows d dst src r
    → holds d dst.from dst ≡ true
    → holds d src.from src ≡ true
    → dim_within d dst q ≡ true
    → dim_within d src q ≡ true
    → dim_within d r q ≡ true
unfolding holds
Grows-within d dst src r q (ef, et) a b c e =
    rw (ef, et)
      (extend-within (at dst.from d) (at dst.to d) (at src.from d) (at src.to d) (at q.from d)
        (at q.to d) a b c e)

expand_dims-within :
    (dims : ℕ) (dst src q : Range)
    → 0 < dims
    → contains dims dst.from dst ≡ true
    → contains dims src.from src ≡ true
    → within_dims dims dst q ≡ true
    → within_dims dims src q ≡ true
    → within_dims dims (expand_dims dims dst src) q ≡ true
unfolding contains within_dims
expand_dims-within zero dst src q pd a b c d = absurd (omega arith)
expand_dims-within (suc zero) dst src q pd a b c d =
    let r = expand_dims 1 dst src in
    ground (arith, Grows-within 0 dst src r q (expand_dims-Grows0 1 dst src))
expand_dims-within (suc (suc zero)) dst src q pd a b c d =
    let r = expand_dims 2 dst src in
    ground (
      arith,
      Grows-within 0 dst src r q (expand_dims-Grows0 2 dst src),
      Grows-within 1 dst src r q (expand_dims-Grows1 2 dst src (omega arith)),
    )
expand_dims-within (suc (suc (suc n))) dst src q pd a b c d =
    let dims = suc (suc (suc n)) in
    let r = expand_dims dims dst src in
    ground (
      arith,
      Grows-within 0 dst src r q (expand_dims-Grows0 dims dst src),
      Grows-within 1 dst src r q (expand_dims-Grows1 dims dst src (omega arith)),
      Grows-within 2 dst src r q (expand_dims-Grows2 dims dst src (omega arith)),
    )

range_expand-dims :
    (dst src : Range) {s : SpaceRef}
    → dst.space ≡ some s
    → src.space ≡ some s
    → range_expand dst src ≡ done (expand_dims s.dims dst src)
unfolding range_expand
range_expand-dims dst src e1 e2 = ground arith

-- For two non-empty ranges of one space `laik_range_expand` returns the least range around both:
-- it holds each of their indexes, and is within every range that both are within.
pub range_expand_least :
    (dst src : Range) {s : SpaceRef}
    → dst.space ≡ some s
    → src.space ≡ some s
    → 0 < s.dims
    → range_is_empty dst ≡ false
    → range_is_empty src ≡ false
    → (r : Range) × (range_expand dst src ≡ done r)
      × ((p : Index)
          → (contains s.dims p dst || contains s.dims p src) ≡ true
          → contains s.dims p r ≡ true)
      × ((q : Range)
          → within_dims s.dims dst q ≡ true
          → within_dims s.dims src q ≡ true
          → within_dims s.dims r q ≡ true)
range_expand_least dst src {s} e1 e2 pd n1 n2 = (
  expand_dims s.dims dst src,
  range_expand-dims dst src e1 e2,
  λ p h. contains-expand_dims s.dims dst src p pd h,
  λ q a b.
      expand_dims-within s.dims dst src q pd (ground (arith, range_is_empty-contains dst e1))
        (ground (arith, range_is_empty-contains src e2)) a b,
)
