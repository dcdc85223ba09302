-- ===== src/RangeList/Samples.antt =====
-- Ranges of a one-dimensional space that the tests share.
use laik.Prelude.Int.{ℤ, pos}
use laik.Prelude.{some, ℕ}
use laik.Space.{SpaceRef, Space, Range, index_init}
use laik.RangeList.{TaskRange}

abbrev pub line : SpaceRef
line = record { id = 0; dims = 1 }

abbrev pub segment : ℤ → ℤ → Range
segment x y = record {
  space = some line;
  from = index_init x (pos 0) (pos 0);
  to = index_init y (pos 0) (pos 0);
}

abbrev pub ten : Space
ten = record { ref = line; range = segment (pos 0) (pos 10) }

abbrev pub piece_of : ℕ → ℤ → ℤ → TaskRange
piece_of k x y = record {
  task = k;
  range = segment x y;
  tag = pos 0;
  map_no = pos 0;
  user_data = 0;
}
