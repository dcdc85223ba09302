-- ===== src/Transition/Sweep/Tests.antt =====
-- Two processes that run `calcAddReductions`, as an instance of the theorem on their messages.
use laik.Prelude.Sort.{by_insertion}
use laik.Prelude.Int.{pos}
use laik.Prelude.{refl, arith, ◌≡◌, [], ◌∷◌, aborted, false, done, ℕ, Outcome, List}
use laik.RangeList.{TaskRange}
use laik.RangeList.Samples.{line, piece_of, segment}
use laik.Transition.{Bufs, Reduction, no_ops}
use laik.Transition.Sweep.{Params, calc_add_reductions}
use laik.Transition.Sweep.Step.{sent, got}
use laik.Transition.Sweep.Matching.{calc_add_reductions_match}

abbrev process : ℕ → Params
process k = record { myid = k; size = 3; red_op = Reduction.sum; keep = false }

abbrev halves : List TaskRange
halves = piece_of 0 (pos 0) (pos 5) ∷ piece_of 1 (pos 5) (pos 10) ∷ []

abbrev shifted : List TaskRange
shifted = piece_of 1 (pos 2) (pos 7) ∷ piece_of 2 (pos 2) (pos 7) ∷ []

abbrev result_of : ℕ → Outcome Bufs
result_of k =
    calc_add_reductions (process k) by_insertion line (segment (pos 0) (pos 0)) halves shifted
      no_ops

abbrev ops_of : Outcome Bufs → Bufs
ops_of aborted = no_ops
ops_of (done b) = b

returns_0 : result_of 0 ≡ done (ops_of (result_of 0))
unfolding calc_add_reductions laik.Transition.Sweep.sweep_all laik.Transition.Sweep.sweep_from
    laik.Transition.Sweep.enter laik.Transition.Groups.add_task laik.Transition.Groups.insert_task
    laik.Transition.Groups.remove_task laik.Transition.Groups.delete_task
    laik.Transition.Groups.is_in_task_group laik.Transition.Groups.get_task_group
    laik.Transition.Groups.find_group laik.Transition.Groups.same_tasks laik.Transition.Sweep.leave
    laik.Transition.Sweep.emit laik.Transition.Sweep.emit_for laik.Transition.Sweep.give
    laik.Transition.Sweep.take_in laik.Transition.Sweep.reduce laik.Prelude.Sort.insertion_sort
    laik.Prelude.Sort.insert laik.Transition.Sweep.rb_cmp laik.Transition.Sweep.borders_of
    laik.Prelude.Int.◌-ℤ◌ laik.Prelude.Int.◌+ℤ◌
returns_0 = refl

returns_1 : result_of 1 ≡ done (ops_of (result_of 1))
unfolding calc_add_reductions laik.Transition.Sweep.sweep_all laik.Transition.Sweep.sweep_from
    laik.Transition.Sweep.enter laik.Transition.Groups.add_task laik.Transition.Groups.insert_task
    laik.Transition.Groups.remove_task laik.Transition.Groups.delete_task
    laik.Transition.Groups.is_in_task_group laik.Transition.Groups.get_task_group
    laik.Transition.Groups.find_group laik.Transition.Groups.same_tasks laik.Transition.Sweep.leave
    laik.Transition.Sweep.emit laik.Transition.Sweep.emit_for laik.Transition.Sweep.give
    laik.Transition.Sweep.take_in laik.Transition.Sweep.reduce laik.Prelude.Sort.insertion_sort
    laik.Prelude.Sort.insert laik.Transition.Sweep.rb_cmp laik.Transition.Sweep.borders_of
    laik.Prelude.Int.◌-ℤ◌ laik.Prelude.Int.◌+ℤ◌
returns_1 = refl

calc_add_reductions_match_example :
    sent 1 (ops_of (result_of 0)).send ≡ got 0 (ops_of (result_of 1)).recv
calc_add_reductions_match_example =
    calc_add_reductions_match line (segment (pos 0) (pos 0)) (process 0) (process 1) refl refl
      (ground arith) by_insertion halves shifted no_ops no_ops (ops_of (result_of 0))
      (ops_of (result_of 1)) refl refl returns_0 returns_1
