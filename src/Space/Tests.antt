-- ===== src/Space/Tests.antt =====
-- Runs of the range operations, and instances of their theorems.
use laik.Prelude.Int.{negsuc, ℤ, pos}
use laik.Prelude.{Option, some, none, done, refl, ◌≡◌, true, false, Bool, ◌&&◌, ◌||◌, ◌↔◌, arith}
use laik.Space.Points.{contains, contains?}
use laik.Space.Intersect.{contains-range_intersect}
use laik.Space.Compare.{range_within_range_iff, range_is_equal_iff}
use laik.Space.Expand.{range_expand_least}
use laik.Space.{
  range_is_empty, SpaceRef, Range, Index, index_init, range_intersect, range_within_range,
  range_is_equal, range_expand, range_size, within_dims,
}

abbrev pub plane : SpaceRef
plane = record { id = 0; dims = 2 }

abbrev pub rectangle : ℤ → ℤ → ℤ → ℤ → Range
rectangle x y x' y' = record {
  space = some plane;
  from = index_init x y (pos 0);
  to = index_init x' y' (pos 0);
}

abbrev pub left_half : Range
left_half = rectangle (pos 0) (pos 0) (pos 6) (pos 10)

abbrev pub right_half : Range
right_half = rectangle (pos 4) (negsuc 1) (pos 10) (pos 10)

abbrev pub corner : Range
corner = rectangle (pos 1) (pos 1) (pos 2) (pos 3)

full_corner : range_is_empty corner ≡ false
unfolding range_is_empty
full_corner = refl

full_left_half : range_is_empty left_half ≡ false
unfolding range_is_empty
full_left_half = refl

full_right_half : range_is_empty right_half ≡ false
unfolding range_is_empty
full_right_half = refl

overlap :
    range_intersect corner left_half right_half
    ≡ done (some (rectangle (pos 4) (pos 0) (pos 6) (pos 10)))
unfolding range_intersect laik.Space.intersect_dims laik.Space.intersect_dim
    laik.Space.intersect_range
overlap = refl

size_of_left_half : range_size left_half ≡ done 60
unfolding range_size laik.Prelude.Int.◌-ℤ◌
size_of_left_half = refl

contains-range_intersect_example :
    (o : Option Range) × (range_intersect corner left_half right_half ≡ done o)
    × ((p : Index) → contains? 2 p o ≡ (contains 2 p left_half && contains 2 p right_half))
contains-range_intersect_example = contains-range_intersect corner left_half right_half refl refl

range_within_range_iff_example :
    (b : Bool) × (range_within_range corner left_half ≡ done b)
    × ((b ≡ true) ↔ ((p : Index) → contains 2 p corner ≡ true → contains 2 p left_half ≡ true))
range_within_range_iff_example =
    range_within_range_iff corner left_half {s = plane} refl refl (omega arith) full_corner

range_is_equal_iff_example :
    (range_is_equal corner left_half ≡ true)
    ↔ ((p : Index) → contains 2 p corner ≡ contains 2 p left_half)
range_is_equal_iff_example =
    range_is_equal_iff corner left_half {s = plane} refl refl (omega arith) full_corner
      full_left_half

range_expand_least_example :
    (r : Range) × (range_expand corner right_half ≡ done r)
    × ((p : Index)
        → (contains 2 p corner || contains 2 p right_half) ≡ true
        → contains 2 p r ≡ true)
    × ((q : Range)
        → within_dims 2 corner q ≡ true
        → within_dims 2 right_half q ≡ true
        → within_dims 2 r q ≡ true)
range_expand_least_example =
    range_expand_least corner right_half {s = plane} refl refl (omega arith) full_corner
      full_right_half
