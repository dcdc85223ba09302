-- ===== src/Space/Intersect.antt =====
-- `laik_range_intersect` and the index sets of its arguments.
use laik.Prelude.{
  inr, inl, if◌then◌else◌, Option-cases, ℕ, ◌≡◌, sym, ap, ◌∙◌, true, Bool, false, ◌&&◌, Option,
  none, some, arith, done,
}
use laik.Prelude.Int.{ℤ, ltb_ℤ}
use laik.Space.{
  index_init, SpaceRef, Index, Range, intersect_range, intersect_dim, intersect_dims,
  range_intersect,
}
use laik.Space.Points.{filled, meets_all, within, holds, contains, contains?}

abbrev within? : ℤ → Option (ℤ × ℤ) → Bool
within? x none = false
within? x (some (f, t)) = within x f t

within-intersect_range :
    (x f1 t1 f2 t2 : ℤ)
    → within? x (intersect_range f1 t1 f2 t2) ≡ (within x f1 t1 && within x f2 t2)
unfolding intersect_range within
within-intersect_range x f1 t1 f2 t2 = ground arith

pub contains-intersect_dims :
    (dims : ℕ) (p : Index) (r r1 r2 : Range)
    → contains? dims p (intersect_dims dims r r1 r2) ≡ (contains dims p r1 && contains dims p r2)
unfolding intersect_dims intersect_dim contains holds
contains-intersect_dims dims p r r1 r2 = ground (
  arith,
  within-intersect_range p.i0 r1.from.i0 r1.to.i0 r2.from.i0 r2.to.i0,
  within-intersect_range p.i1 r1.from.i1 r1.to.i1 r2.from.i1 r2.to.i1,
  within-intersect_range p.i2 r1.from.i2 r1.to.i2 r2.from.i2 r2.to.i2,
)

abbrev is_some : Option Range → Bool
is_some none = false
is_some (some r) = true

abbrev is_some_pair : Option (ℤ × ℤ) → Bool
is_some_pair none = false
is_some_pair (some ft) = true

intersect_range-meets :
    (f1 t1 f2 t2 : ℤ) → is_some_pair (intersect_range f1 t1 f2 t2) ≡ (ltb_ℤ f1 t2 && ltb_ℤ f2 t1)
unfolding intersect_range
intersect_range-meets f1 t1 f2 t2 = ground arith

intersect_dims-meets :
    (dims : ℕ) (r r1 r2 : Range) → is_some (intersect_dims dims r r1 r2) ≡ meets_all dims r1 r2
unfolding intersect_dims intersect_dim
intersect_dims-meets dims r r1 r2 = ground (
  arith,
  intersect_range-meets r1.from.i0 r1.to.i0 r2.from.i0 r2.to.i0,
  intersect_range-meets r1.from.i1 r1.to.i1 r2.from.i1 r2.to.i1,
  intersect_range-meets r1.from.i2 r1.to.i2 r2.from.i2 r2.to.i2,
)

pub meets_all-intersect_dims :
    (dims : ℕ) (r r1 r2 : Range) {a : Range}
    → intersect_dims dims r r1 r2 ≡ some a
    → meets_all dims r1 r2 ≡ true
meets_all-intersect_dims dims r r1 r2 e = sym (intersect_dims-meets dims r r1 r2) ∙ ap is_some e

pub range_intersect-dims :
    (buf r1 r2 : Range) {s : SpaceRef}
    → r1.space ≡ some s
    → r2.space ≡ some s
    → range_intersect buf r1 r2 ≡ done (intersect_dims s.dims (record buf { space = some s }) r1 r2)
unfolding range_intersect
range_intersect-dims buf r1 r2 e1 e2 = ground arith

-- For two ranges of one space `laik_range_intersect` returns, and an index lies in the result (the
-- null pointer holds none) exactly when it lies in both ranges, whatever the static result buffer
-- held before the call.
pub contains-range_intersect :
    (buf r1 r2 : Range) {s : SpaceRef}
    → r1.space ≡ some s
    → r2.space ≡ some s
    → (o : Option Range) × (range_intersect buf r1 r2 ≡ done o)
      × ((p : Index) → contains? s.dims p o ≡ (contains s.dims p r1 && contains s.dims p r2))
contains-range_intersect buf r1 r2 {s} e1 e2 =
    let buf' : Range = record buf { space = some s } in
    (
      intersect_dims s.dims buf' r1 r2,
      range_intersect-dims buf r1 r2 e1 e2,
      λ p. contains-intersect_dims s.dims p buf' r1 r2,
    )

-- The greater start of two intervals that meet lies in both.
within-later :
    (f1 t1 f2 t2 : ℤ)
    → within f1 f1 t1 ≡ true
    → within f2 f2 t2 ≡ true
    → (ltb_ℤ f1 t2 && ltb_ℤ f2 t1) ≡ true
    → (within (if ltb_ℤ f1 f2 then f2 else f1) f1 t1 ≡ true)
      × (within (if ltb_ℤ f1 f2 then f2 else f1) f2 t2 ≡ true)
unfolding within
within-later f1 t1 f2 t2 a b m = ground arith

later_index : Range → Range → Index
later_index r1 r2 =
    index_init (if ltb_ℤ r1.from.i0 r2.from.i0 then r2.from.i0 else r1.from.i0)
      (if ltb_ℤ r1.from.i1 r2.from.i1 then r2.from.i1 else r1.from.i1)
      (if ltb_ℤ r1.from.i2 r2.from.i2 then r2.from.i2 else r1.from.i2)

contains-later_index :
    (dims : ℕ) (r1 r2 : Range)
    → filled dims r1 ≡ true
    → filled dims r2 ≡ true
    → meets_all dims r1 r2 ≡ true
    → (contains dims (later_index r1 r2) r1 ≡ true) × (contains dims (later_index r1 r2) r2 ≡ true)
unfolding contains holds later_index
contains-later_index dims r1 r2 a b m = ground (
  arith,
  within-later r1.from.i0 r1.to.i0 r2.from.i0 r2.to.i0,
  within-later r1.from.i1 r1.to.i1 r2.from.i1 r2.to.i1,
  within-later r1.from.i2 r1.to.i2 r2.from.i2 r2.to.i2,
)

-- No index lies in both.
abbrev pub Apart : ℕ → Range → Range → Type 0
Apart dims r1 r2 = (p : Index) → (contains dims p r1 && contains dims p r2) ≡ false

-- Two non-empty ranges with no common index have a null intersection.
pub intersect_dims-Apart :
    (dims : ℕ) (r r1 r2 : Range)
    → filled dims r1 ≡ true
    → filled dims r2 ≡ true
    → Apart dims r1 r2
    → intersect_dims dims r r1 r2 ≡ none
intersect_dims-Apart dims r r1 r2 a b d = elim (Option-cases (intersect_dims dims r r1 r2)) [
  | inl e ↦ e
  | inr (x, e) ↦
      let (c1, c2) =
        contains-later_index dims r1 r2 a b (meets_all-intersect_dims dims r r1 r2 e) in
      absurd (ground (arith, d (later_index r1 r2), c1, c2))
]
