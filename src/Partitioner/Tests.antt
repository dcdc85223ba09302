-- ===== src/Partitioner/Tests.antt =====
-- Runs of the partitioners on small spaces.
use laik.Partitioner.Run.{bisection, run_partitioner-bisection}
use laik.RangeList.Samples.{line, segment, ten}
use laik.Partitioner.Halo.{halo_ranges, corner_halo}
use laik.Partitioner.Halo.Indexes.{halo_ranges-contains, corner_halo-contains, widened}
use laik.Partitioner.Bisection.Tiling.{Tiles}
use laik.Partitioner.Appends.{Collects}
use laik.RangeList.Queries.Slots.{IsFrozen}
use laik.RangeList.Freeze.{freeze}
use laik.Partitioner.Bisection.{do_bisection, run_bisection, width_of, widest}
use laik.Space.Points.{within, holds, contains}
use laik.Prelude.{
  aborted, ◌&&◌, any, bit, countp, false, done, ◌≡◌, ◌>>=◌, arith, refl, ℕ, none, some, List,
}
use laik.Prelude.Int.{◌+ℤ◌, ◌+ℤ◌, ◌-ℤ◌, pos}
use laik.Prelude.Sort.{by_insertion}
use laik.Space.{Index, Space, index_init}
use laik.RangeList.{new, RangeList}
use laik.Partitioner.{run_partitioner, Params}
use laik.Partitioner.Bisection.Whole.{run_bisection_lem, CanBisect, run_bisection-freeze}

-- a plane of 4 times 3 indexes
abbrev plane : Space
plane = record {
  ref = record { id = 7; dims = 2 };
  range = record {
    space = some (record { id = 7; dims = 2 });
    from = index_init (pos 0) (pos 0) (pos 0);
    to = index_init (pos 4) (pos 3) (pos 0);
  };
}

abbrev three_tasks : Params
three_tasks = record {
  space = plane;
  group = record { id = 1; size = 3; myid = some 0 };
  other = none;
}

three_tasks-CanBisect : CanBisect three_tasks
unfolding contains holds within ◌-ℤ◌ widest width_of
three_tasks-CanBisect = record {
  named = refl;
  pos_dims = omega arith;
  dims_le = omega arith;
  some_task = omega arith;
  full = refl;
  small = record {
    small0 = omega arith;
    small1 = λ h. omega (arith, h);
    small2 = λ h. absurd (omega (arith, h));
  };
  wide = omega arith;
}

run_bisection_lem_example :
    (out : RangeList) × (run_bisection none three_tasks (new plane 3) ≡ done out)
    × Collects plane 3 out
    × Tiles 2 plane.range 0 3 out.trange
run_bisection_lem_example = run_bisection_lem three_tasks three_tasks-CanBisect

run_bisection-freeze_example :
    (out : RangeList) × (offs : List ℕ) × ((run_bisection none three_tasks (new plane 3) >>= λ list.
    freeze by_insertion plane.range false list)
      ≡ done out)
    × IsFrozen out offs
    × ((x : Index) → countp (λ t. contains 2 x t.range) out.trange ≡ bit (contains 2 x plane.range))
run_bisection-freeze_example =
    run_bisection-freeze by_insertion plane.range three_tasks three_tasks-CanBisect

corner_halo-contains_example :
    contains 1
      (index_init (pos 1) (pos 0) (pos 0))
      (corner_halo (pos 2) ten (segment (pos 2) (pos 5)))
    ≡ (contains 1 (index_init (pos 1) (pos 0) (pos 0)) ten.range
        && contains 1
            (index_init (pos 1) (pos 0) (pos 0))
            (widened (pos 2) (segment (pos 2) (pos 5))))
corner_halo-contains_example =
    corner_halo-contains (pos 2) ten (segment (pos 2) (pos 5)) (index_init (pos 1) (pos 0) (pos 0))

-- two indexes of the space follow below, and the halo leaves them out
halo_ranges-contains_example :
    any
      (contains 1 (index_init (pos 1) (pos 0) (pos 0)))
      (halo_ranges (pos 2) ten (segment (pos 2) (pos 5)))
    ≡ within (pos 1) (pos 2) (pos 7)
unfolding ◌+ℤ◌ ◌-ℤ◌
halo_ranges-contains_example =
    halo_ranges-contains (pos 2) ten (segment (pos 2) (pos 5)) (index_init (pos 1) (pos 0) (pos 0))
      refl (omega arith) (omega arith)

-- Five tasks share two indexes: the cut gives the first two tasks an empty part, which is refused.
abbrev five_tasks : Params
five_tasks = record {
  space = record { ref = line; range = segment (pos 0) (pos 2) };
  group = record { id = 1; size = 5; myid = some 0 };
  other = none;
}

five_tasks_aborted : run_bisection none five_tasks (new five_tasks.space 5) ≡ aborted
unfolding run_bisection do_bisection widest width_of ◌-ℤ◌ ◌+ℤ◌
five_tasks_aborted = refl

run_partitioner-bisection_example :
    (out : RangeList) × (offs : List ℕ) × (run_partitioner by_insertion plane.range plane.range
        bisection none three_tasks
      ≡ done out)
    × IsFrozen out offs
    × ((x : Index) → countp (λ t. contains 2 x t.range) out.trange ≡ bit (contains 2 x plane.range))
run_partitioner-bisection_example =
    run_partitioner-bisection by_insertion plane.range plane.range three_tasks three_tasks-CanBisect
      refl (omega arith)
