-- ===== src/RangeList/Cover/Tests.antt =====
-- A run of `laik_rangelist_coversSpace`, and instances of its theorems.
use laik.Prelude.Sort.{by_insertion}
use laik.Prelude.Int.{pos}
use laik.Prelude.{any, none, ◌↔◌, refl, done, [], ◌≡◌, ◌∷◌, arith, true, Bool}
use laik.Space.{index_init}
use laik.Space.Points.{contains}
use laik.RangeList.{RangeList}
use laik.RangeList.Cover.{covers_space}
use laik.RangeList.Cover.Whole.{Covered, covers_space_sound, covers_space_iff, covers_space_returns}
use laik.RangeList.Samples.{ten, piece_of, segment}

abbrev two_tasks : RangeList
two_tasks = record {
  space = ten;
  tid_count = 2;
  capacity = 4;
  trange =
      piece_of 1 (pos 5) (pos 10) ∷ piece_of 0 (pos 0) (pos 4) ∷ piece_of 0 (pos 3) (pos 6) ∷ [];
  tss1d = [];
  off = none;
  map_tid = none;
  map_off = [];
}

two_tasks_cover : covers_space by_insertion (segment (pos 0) (pos 0)) two_tasks ≡ done true
unfolding covers_space laik.RangeList.Cover.remove_all laik.Prelude.Sort.insertion_sort
    laik.Prelude.Sort.insert laik.RangeList.Cover.visit_all laik.RangeList.Cover.visit
    laik.Space.range_intersect laik.Space.intersect_dims laik.Space.intersect_dim
    laik.Space.intersect_range laik.RangeList.Cover.append_all laik.RangeList.Cover.append_uncovered
    laik.RangeList.Cover.subtract_from laik.RangeList.Cover.cut_before
    laik.RangeList.Cover.cut_after
two_tasks_cover = refl

covers_space_sound_example :
    any (λ t. contains 1 (index_init (pos 5) (pos 0) (pos 0)) t.range) two_tasks.trange ≡ true
unfolding laik.Space.Points.contains laik.Space.Points.holds laik.Space.Points.within
covers_space_sound_example =
    covers_space_sound by_insertion (segment (pos 0) (pos 0)) two_tasks refl
      (refl, (refl, (refl, tt))) (omega arith) (omega arith) (index_init (pos 5) (pos 0) (pos 0))
      two_tasks_cover refl

covers_space_iff_example : (true ≡ true) ↔ Covered by_insertion (segment (pos 0) (pos 0)) two_tasks
unfolding laik.Space.Points.contains laik.Space.Points.holds laik.Space.Points.within
covers_space_iff_example =
    covers_space_iff by_insertion (segment (pos 0) (pos 0)) two_tasks refl
      (refl, (refl, (refl, tt))) (omega arith) (omega arith) refl refl two_tasks_cover

covers_space_returns_example :
    (b : Bool) × (covers_space by_insertion (segment (pos 0) (pos 0)) two_tasks ≡ done b)
unfolding laik.Space.Points.contains laik.Space.Points.holds laik.Space.Points.within
covers_space_returns_example =
    covers_space_returns by_insertion (segment (pos 0) (pos 0)) two_tasks refl
      (refl, (refl, (refl, tt))) (omega arith) (omega arith) refl (omega arith)
