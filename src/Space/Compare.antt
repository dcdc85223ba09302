-- ===== src/Space/Compare.antt =====
-- The comparisons of ranges and the index sets that the ranges stand for.
use laik.Prelude.{ℕ, ◌<◌, ◌≡◌, Bool, true, false, not, some, arith, done, ◌&&◌, ◌↔◌, sym, ◌∙◌}
use laik.Prelude.Int.{ℤ, pos, ◌-ℤ◌, eq_ℤ}
use laik.Space.{
  SpaceRef, Index, Range, index_init, within_dim, within_dims, range_within_range, range_is_empty,
  index_is_equal, range_is_equal,
}
use laik.Space.Points.{within, holds, contains}

-- A range of a space is empty exactly when its first index is not in it.
pub range_is_empty-contains :
    (r : Range) {s : SpaceRef}
    → r.space ≡ some s
    → range_is_empty r ≡ not (contains s.dims r.from r)
unfolding range_is_empty contains holds within
range_is_empty-contains r e = ground arith

within-start : (x f t : ℤ) → within x f t ≡ true → within f f t ≡ true
unfolding within
within-start x f t h = ground arith

contains-from :
    (dims : ℕ) (p : Index) (r : Range) → contains dims p r ≡ true → contains dims r.from r ≡ true
unfolding contains holds
contains-from dims p r h = ground (
  arith,
  within-start p.i0 r.from.i0 r.to.i0,
  within-start p.i1 r.from.i1 r.to.i1,
  within-start p.i2 r.from.i2 r.to.i2,
)

within-within_dim :
    (x f1 t1 f2 t2 : ℤ)
    → within_dim f1 t1 f2 t2 ≡ true
    → within x f1 t1 ≡ true
    → within x f2 t2 ≡ true
unfolding within_dim within
within-within_dim x f1 t1 f2 t2 h w = ground arith

pub contains-within_dims :
    (dims : ℕ) (p : Index) (r1 r2 : Range)
    → 0 < dims
    → within_dims dims r1 r2 ≡ true
    → contains dims p r1 ≡ true
    → contains dims p r2 ≡ true
unfolding within_dims contains holds
contains-within_dims dims p r1 r2 pd h c = ground (
  arith,
  within-within_dim p.i0 r1.from.i0 r1.to.i0 r2.from.i0 r2.to.i0,
  within-within_dim p.i1 r1.from.i1 r1.to.i1 r2.from.i1 r2.to.i1,
  within-within_dim p.i2 r1.from.i2 r1.to.i2 r2.from.i2 r2.to.i2,
)

-- the last index of an interval
abbrev last : ℤ → ℤ
last t = t -ℤ pos 1

last_index : Range → Index
last_index r = index_init (last r.to.i0) (last r.to.i1) (last r.to.i2)

last-within : (f t : ℤ) → within f f t ≡ true → within (last t) f t ≡ true
unfolding within ◌-ℤ◌
last-within f t h = ground arith

contains-last :
    (dims : ℕ) (r : Range) → contains dims r.from r ≡ true → contains dims (last_index r) r ≡ true
unfolding contains holds last_index
contains-last dims r h = ground (
  arith,
  last-within r.from.i0 r.to.i0,
  last-within r.from.i1 r.to.i1,
  last-within r.from.i2 r.to.i2,
)

ends-within_dim :
    (f1 t1 f2 t2 : ℤ)
    → within f1 f2 t2 ≡ true
    → within (last t1) f2 t2 ≡ true
    → within_dim f1 t1 f2 t2 ≡ true
unfolding within_dim within ◌-ℤ◌
ends-within_dim f1 t1 f2 t2 h k = ground arith

within_dims-ends :
    (dims : ℕ) (r1 r2 : Range)
    → 0 < dims
    → contains dims r1.from r2 ≡ true
    → contains dims (last_index r1) r2 ≡ true
    → within_dims dims r1 r2 ≡ true
unfolding within_dims contains holds last_index
within_dims-ends dims r1 r2 pd h k = ground (
  arith,
  ends-within_dim r1.from.i0 r1.to.i0 r2.from.i0 r2.to.i0,
  ends-within_dim r1.from.i1 r1.to.i1 r2.from.i1 r2.to.i1,
  ends-within_dim r1.from.i2 r1.to.i2 r2.from.i2 r2.to.i2,
)

pub range_within_range-dims :
    (r1 r2 : Range) {s : SpaceRef}
    → r1.space ≡ some s
    → r2.space ≡ some s
    → range_within_range r1 r2 ≡ done (within_dims s.dims r1 r2)
unfolding range_within_range
range_within_range-dims r1 r2 e1 e2 = ground arith

-- For a non-empty range and another one of the same space, `laik_range_within_range` returns, and
-- answers true exactly when every index of the first lies in the second.
pub range_within_range_iff :
    (r1 r2 : Range) {s : SpaceRef}
    → r1.space ≡ some s
    → r2.space ≡ some s
    → 0 < s.dims
    → range_is_empty r1 ≡ false
    → (b : Bool) × (range_within_range r1 r2 ≡ done b)
      × ((b ≡ true) ↔ ((p : Index) → contains s.dims p r1 ≡ true → contains s.dims p r2 ≡ true))
range_within_range_iff r1 r2 {s} e1 e2 pd ne =
    let full : contains s.dims r1.from r1 ≡ true = ground (arith, range_is_empty-contains r1 e1) in
    (
      within_dims s.dims r1 r2,
      range_within_range-dims r1 r2 e1 e2,
      (
        λ h p c. contains-within_dims s.dims p r1 r2 pd h c,
        λ h.
            within_dims-ends s.dims r1 r2 pd (h r1.from full)
              (h (last_index r1) (contains-last s.dims r1 full)),
      ),
    )

within-antisym :
    (f1 t1 f2 t2 : ℤ)
    → within f1 f2 t2 ≡ true
    → within (last t1) f2 t2 ≡ true
    → within f2 f1 t1 ≡ true
    → within (last t2) f1 t1 ≡ true
    → (eq_ℤ f1 f2 ≡ true) × (eq_ℤ t1 t2 ≡ true)
unfolding within ◌-ℤ◌
within-antisym f1 t1 f2 t2 a b c d = ground arith

within-eq :
    (x f1 t1 f2 t2 : ℤ) → eq_ℤ f1 f2 ≡ true → eq_ℤ t1 t2 ≡ true → within x f1 t1 ≡ within x f2 t2
unfolding within
within-eq x f1 t1 f2 t2 e e' = ground arith

contains-eq :
    (r1 r2 : Range) {s : SpaceRef} (p : Index)
    → r1.space ≡ some s
    → r2.space ≡ some s
    → 0 < s.dims
    → range_is_equal r1 r2 ≡ true
    → contains s.dims p r1 ≡ contains s.dims p r2
unfolding range_is_equal index_is_equal contains holds
contains-eq r1 r2 p e1 e2 pd h = ground (
  arith,
  within-eq p.i0 r1.from.i0 r1.to.i0 r2.from.i0 r2.to.i0,
  within-eq p.i1 r1.from.i1 r1.to.i1 r2.from.i1 r2.to.i1,
  within-eq p.i2 r1.from.i2 r1.to.i2 r2.from.i2 r2.to.i2,
)

range_is_equal-indexes :
    (r1 r2 : Range) {s : SpaceRef}
    → r1.space ≡ some s
    → r2.space ≡ some s
    → range_is_equal r1 r2
      ≡ (index_is_equal s.dims r1.from r2.from && index_is_equal s.dims r1.to r2.to)
unfolding range_is_equal
range_is_equal-indexes r1 r2 e1 e2 = ground arith

eq-ends :
    (dims : ℕ) (r1 r2 : Range)
    → 0 < dims
    → contains dims r1.from r2 ≡ true
    → contains dims (last_index r1) r2 ≡ true
    → contains dims r2.from r1 ≡ true
    → contains dims (last_index r2) r1 ≡ true
    → (index_is_equal dims r1.from r2.from && index_is_equal dims r1.to r2.to) ≡ true
unfolding index_is_equal contains holds last_index
eq-ends dims r1 r2 pd a b c d = ground (
  arith,
  within-antisym r1.from.i0 r1.to.i0 r2.from.i0 r2.to.i0,
  within-antisym r1.from.i1 r1.to.i1 r2.from.i1 r2.to.i1,
  within-antisym r1.from.i2 r1.to.i2 r2.from.i2 r2.to.i2,
)

-- `laik_range_isEqual` answers true for two non-empty ranges of one space exactly when the same
-- indexes lie in both.
pub range_is_equal_iff :
    (r1 r2 : Range) {s : SpaceRef}
    → r1.space ≡ some s
    → r2.space ≡ some s
    → 0 < s.dims
    → range_is_empty r1 ≡ false
    → range_is_empty r2 ≡ false
    → (range_is_equal r1 r2 ≡ true) ↔ ((p : Index) → contains s.dims p r1 ≡ contains s.dims p r2)
range_is_equal_iff r1 r2 {s} e1 e2 pd n1 n2 =
    let f1 : contains s.dims r1.from r1 ≡ true = ground (arith, range_is_empty-contains r1 e1) in
    let f2 : contains s.dims r2.from r2 ≡ true = ground (arith, range_is_empty-contains r2 e2) in
    (
      λ h p. contains-eq r1 r2 p e1 e2 pd h,
      λ h.
          range_is_equal-indexes r1 r2 e1 e2
          ∙ eq-ends s.dims r1 r2 pd (sym (h r1.from) ∙ f1)
              (sym (h (last_index r1)) ∙ contains-last s.dims r1 f1) (h r2.from ∙ f2)
              (h (last_index r2) ∙ contains-last s.dims r2 f2),
    )
