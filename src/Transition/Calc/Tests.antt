-- ===== src/Transition/Calc/Tests.antt =====
-- A transition that two processes calculate, as an instance of the theorem on its messages.
use laik.Prelude.Sort.{by_insertion}
use laik.Prelude.Int.{pos}
use laik.Prelude.{refl, none, arith, ◌∷◌, some, done, [], Option, ◌≡◌, ℕ, Outcome, List}
use laik.RangeList.{TaskRange, RangeList}
use laik.RangeList.Samples.{line, ten, piece_of, segment}
use laik.Transition.{Reduction, DataFlow, no_ops}
use laik.Partitioning.{Partitioning}
use laik.Transition.Calc.{Transition, calc_transition}
use laik.Transition.Calc.Messages.{calc_transition_match}
use laik.Transition.Sweep.Step.{sent, got}

abbrev list_of : List TaskRange → RangeList
list_of ts = record {
  space = ten;
  tid_count = 3;
  capacity = 4;
  trange = ts;
  tss1d = [];
  off = none;
  map_tid = none;
  map_off = [];
}

abbrev froms : RangeList
froms = list_of (piece_of 0 (pos 0) (pos 5) ∷ piece_of 1 (pos 5) (pos 10) ∷ [])

abbrev tos : RangeList
tos = list_of (piece_of 1 (pos 2) (pos 7) ∷ piece_of 2 (pos 2) (pos 7) ∷ [])

-- a partitioning as process `k` sees it
abbrev seen_by : ℕ → RangeList → Partitioning
seen_by k list = record {
  space = line;
  group = record { id = 0; size = 3; myid = some k };
  inter_ranges = some list;
  all_ranges = none;
  my_ranges = none;
}

abbrev result_of : ℕ → Outcome (Option Transition)
result_of k =
    calc_transition by_insertion (segment (pos 0) (pos 0)) (segment (pos 0) (pos 0)) ten
      (some (seen_by k froms)) (some (seen_by k tos)) DataFlow.preserve Reduction.sum

abbrev transition_of : Outcome (Option Transition) → Transition
transition_of (done (some t)) = t
transition_of o = record {
  space = ten;
  group = record { id = 0; size = 0; myid = none };
  from_partitioning = none;
  to_partitioning = none;
  flow = DataFlow.no_flow;
  red_op = Reduction.no_reduction;
  action_count = 0;
  bufs = no_ops;
}

returns_0 : result_of 0 ≡ done (some (transition_of (result_of 0)))
unfolding calc_transition laik.Transition.Calc.do_calc_transition laik.Transition.Calc.group_of
    laik.Transition.Calc.init_part laik.Transition.Calc.preserve_part
    laik.Transition.Sweep.calc_add_reductions laik.Transition.Sweep.sweep_all
    laik.Transition.Sweep.sweep_from laik.Transition.Sweep.enter laik.Transition.Groups.add_task
    laik.Transition.Groups.insert_task laik.Transition.Groups.remove_task
    laik.Transition.Groups.delete_task laik.Transition.Groups.is_in_task_group
    laik.Transition.Groups.get_task_group laik.Transition.Groups.find_group
    laik.Transition.Groups.same_tasks laik.Transition.Sweep.leave laik.Transition.Sweep.emit
    laik.Transition.Sweep.emit_for laik.Transition.Sweep.give laik.Transition.Sweep.take_in
    laik.Transition.Sweep.reduce laik.Prelude.Sort.insertion_sort laik.Prelude.Sort.insert
    laik.Transition.Sweep.rb_cmp laik.Transition.Sweep.borders_of laik.Prelude.Int.◌-ℤ◌
    laik.Prelude.Int.◌+ℤ◌
returns_0 = refl

returns_1 : result_of 1 ≡ done (some (transition_of (result_of 1)))
unfolding calc_transition laik.Transition.Calc.do_calc_transition laik.Transition.Calc.group_of
    laik.Transition.Calc.init_part laik.Transition.Calc.preserve_part
    laik.Transition.Sweep.calc_add_reductions laik.Transition.Sweep.sweep_all
    laik.Transition.Sweep.sweep_from laik.Transition.Sweep.enter laik.Transition.Groups.add_task
    laik.Transition.Groups.insert_task laik.Transition.Groups.remove_task
    laik.Transition.Groups.delete_task laik.Transition.Groups.is_in_task_group
    laik.Transition.Groups.get_task_group laik.Transition.Groups.find_group
    laik.Transition.Groups.same_tasks laik.Transition.Sweep.leave laik.Transition.Sweep.emit
    laik.Transition.Sweep.emit_for laik.Transition.Sweep.give laik.Transition.Sweep.take_in
    laik.Transition.Sweep.reduce laik.Prelude.Sort.insertion_sort laik.Prelude.Sort.insert
    laik.Transition.Sweep.rb_cmp laik.Transition.Sweep.borders_of laik.Prelude.Int.◌-ℤ◌
    laik.Prelude.Int.◌+ℤ◌
returns_1 = refl

calc_transition_match_example :
    sent 1 (transition_of (result_of 0)).bufs.send ≡ got 0 (transition_of (result_of 1)).bufs.recv
calc_transition_match_example =
    calc_transition_match by_insertion (segment (pos 0) (pos 0)) (segment (pos 0) (pos 0)) ten
      (seen_by 0 froms) (seen_by 0 tos) (seen_by 1 froms) (seen_by 1 tos) Reduction.sum 0 1 froms
      tos (transition_of (result_of 0)) (transition_of (result_of 1)) refl (ground arith) refl refl
      (refl, refl) (refl, refl) returns_0 returns_1
