-- ===== src/Partitioner/Bisection/Widths.antt =====
-- The widths of a range in the bisection, and the two index sets of a split.
use laik.Prelude.Int.{◌<ℤ◌, int_laws, pos, ◌+ℤ◌, ◌≤ℤ◌, pos_part, ◌-ℤ◌, ℤ}
use laik.Prelude.{zero, true, bit, ◌-◌, ◌≡◌, ◌+◌, ◌^◌, ◌/◌, arith, ◌≤◌, ◌<◌, ◌*◌, ℕ}
use native.Mathlib.Nat.{le-div_iff_mul-le, div-le_of_le-mul}
use laik.Space.{Index, Range, at}
use laik.Space.Points.{filled, holds, contains, within}
use laik.Partitioner.Bisection.{upper, lower, suc, width_at, widest, width_of}

-- the extent of a dimension, where it is not negative
abbrev pub extent_at : ℕ → Range → ℕ
extent_at d s = pos_part (at s.to d -ℤ at s.from d)

-- Every extent, times `scale`, fits in 64 bits.
pub record IsSmall (dims scale : ℕ) (s : Range) : Type 0 where
  pub small0 : extent_at 0 s * scale < 2 ^ 64
  pub small1 : 1 < dims → extent_at 1 s * scale < 2 ^ 64
  pub small2 : 2 < dims → extent_at 2 s * scale < 2 ^ 64

le-mul : (a b : ℕ) → 0 < b → a ≤ a * b
le-mul a b h = grind arith

width_of-extent :
    (from to : ℤ)
    → pos_part (to -ℤ from) < 2 ^ 64
    → from ≤ℤ to
    → width_of from to ≡ pos_part (to -ℤ from)
unfolding width_of ◌-ℤ◌
width_of-extent from to h k = ground arith

share-ge : (e j k : ℕ) → k * (k + j) ≤ (e + (k + j)) * k
share-ge e j k = grind arith

share-le : (e j k : ℕ) → (e + (k + j)) * k ≤ (k + j) * (e + k)
share-le e j k = grind arith

share_bounds :
    (e j k : ℕ) → 0 < k → (k ≤ (e + (k + j)) * k / (k + j)) × ((e + (k + j)) * k / (k + j) ≤ e + k)
share_bounds e j k p = (
  (le-div_iff_mul-le (omega arith)).1 (share-ge e j k),
  div-le_of_le-mul (k + j) (share-le e j k),
)

-- the share of `k` of `n` tasks in a width of at least `n`
pub cut_bounds : (w n k : ℕ) → n ≤ w → 0 < k → k ≤ n → (k ≤ w * k / n) × (w * k / n + (n - k) ≤ w)
cut_bounds w n k h p q =
    let en : k + (n - k) ≡ n = omega arith in
    let ew : (w - n) + n ≡ w = omega arith in
    let (a, b) = (rw (en, ew) at (share_bounds (w - n) (n - k) k p)) in (a, omega (arith, b))

within-cut :
    (x f m t : ℤ) → f ≤ℤ m → m ≤ℤ t → bit (within x f m) + bit (within x m t) ≡ bit (within x f t)
unfolding within
within-cut x f m t h k = ground arith

-- Each index of `s` lies in exactly one of the two parts.
pub split-contains :
    (dims d c : ℕ) (p : Index) (s : Range)
    → d < dims
    → dims ≤ 3
    → at s.from d +ℤ pos c ≤ℤ at s.to d
    → bit (contains dims p (lower s d c)) + bit (contains dims p (upper s d c))
      ≡ bit (contains dims p s)
unfolding contains holds
split-contains dims zero c p s h k m =
    ground (arith, within-cut p.i0 s.from.i0 (s.from.i0 +ℤ pos c) s.to.i0 (omega int_laws) m)
split-contains dims (suc zero) c p s h k m =
    ground (arith, within-cut p.i1 s.from.i1 (s.from.i1 +ℤ pos c) s.to.i1 (omega int_laws) m)
split-contains dims (suc (suc zero)) c p s h k m =
    ground (arith, within-cut p.i2 s.from.i2 (s.from.i2 +ℤ pos c) s.to.i2 (omega int_laws) m)
split-contains dims (suc (suc (suc d))) c p s h k m = absurd (omega arith)

pub widest-is :
    (dims : ℕ) (s : Range)
    → 0 < dims
    → ((widest dims s).0 < dims) × ((widest dims s).1 ≡ width_at (widest dims s).0 s)
unfolding widest
widest-is dims s h = ground arith

pub widest-ge : (dims d : ℕ) (s : Range) → d < dims → dims ≤ 3 → width_at d s ≤ (widest dims s).1
unfolding widest
widest-ge dims zero s h k = ground arith
widest-ge dims (suc zero) s h k = ground arith
widest-ge dims (suc (suc zero)) s h k = ground arith
widest-ge dims (suc (suc (suc d))) s h k = absurd (omega arith)

pub extent-lower : (f : ℤ) (c : ℕ) → pos_part ((f +ℤ pos c) -ℤ f) ≡ c
unfolding ◌-ℤ◌ ◌+ℤ◌
extent-lower f c = ground arith

pub extent-upper : (f t : ℤ) (c : ℕ) → pos_part (t -ℤ (f +ℤ pos c)) ≡ pos_part (t -ℤ f) - c
unfolding ◌-ℤ◌ ◌+ℤ◌
extent-upper f t c = ground arith

-- the widths of a non-empty, small range are its extents
pub filled-lt :
    (dims d : ℕ) (s : Range) → filled dims s ≡ true → d < dims → dims ≤ 3 → at s.from d <ℤ at s.to d
unfolding contains holds within
filled-lt dims zero s h k l = ground arith
filled-lt dims (suc zero) s h k l = ground arith
filled-lt dims (suc (suc zero)) s h k l = ground arith
filled-lt dims (suc (suc (suc d))) s h k l = absurd (omega arith)

pub small_at :
    (dims scale d : ℕ) (s : Range)
    → IsSmall dims scale s
    → d < dims
    → dims ≤ 3
    → extent_at d s * scale < 2 ^ 64
small_at dims scale zero s h k l = h.small0
small_at dims scale (suc zero) s h k l = h.small1 k
small_at dims scale (suc (suc zero)) s h k l = h.small2 k
small_at dims scale (suc (suc (suc d))) s h k l = absurd (omega arith)

pub width_at-extent :
    (dims scale d : ℕ) (s : Range)
    → IsSmall dims scale s
    → filled dims s ≡ true
    → 0 < scale
    → d < dims
    → dims ≤ 3
    → width_at d s ≡ extent_at d s
width_at-extent dims scale d s h f p k l =
    let lt = filled-lt dims d s f k l in
    width_of-extent (at s.from d) (at s.to d)
      (omega (arith, small_at dims scale d s h k l, le-mul (extent_at d s) scale p)) (omega arith)
