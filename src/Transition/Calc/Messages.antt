-- ===== src/Transition/Calc/Messages.antt =====
-- What two processes exchange in a transition between partitionings of a one-dimensional space.
use laik.Prelude.{inr, arith, inl, refl, Outcome-cases, false, done, ◌≢◌, some, ◌≡◌, ℕ}
use laik.Prelude.Sort.{QSort}
use laik.Space.{Range, Space}
use laik.Transition.{Reduction, DataFlow, Bufs, no_ops}
use laik.Transition.Sweep.Step.{sent, got}
use laik.Transition.Sweep.Matching.{calc_add_reductions_match}
use laik.Partitioning.{Partitioning}
use laik.Transition.Calc.{calc_add_reductions, RangeList, Transition, calc_transition}

module _ (q : QSort) (buf junk : Range) where
  swept :
      (space : Space) (from to : Partitioning) (red_op : Reduction) (myid : ℕ)
      {froms tos : RangeList} {x : Transition}
      → space.ref.dims ≡ 1
      → from.group.myid ≡ some myid
      → from.inter_ranges ≡ some froms
      → to.inter_ranges ≡ some tos
      → calc_transition q buf junk space (some from) (some to) DataFlow.preserve red_op
        ≡ done (some x)
      → calc_add_reductions
          (record { myid = myid; size = from.group.size; red_op = red_op; keep = false })
          q
          space.ref
          junk
          froms.trange
          tos.trange
          no_ops
        ≡ done x.bufs
  unfolding calc_transition laik.Transition.Calc.do_calc_transition laik.Transition.Calc.group_of
      laik.Transition.Calc.init_part laik.Transition.Calc.preserve_part
  swept space from to red_op myid {froms} {tos} {x} d m f t e =
      elim (Outcome-cases (
        calc_add_reductions
          (record { myid = myid; size = from.group.size; red_op = red_op; keep = false }) q
          space.ref junk froms.trange tos.trange no_ops)) [
            | inl n ↦ absurd (ground arith)
            | inr (b, n) ↦ ground arith
          ]

  -- Two processes a and b calculate the transition that preserves data between two partitionings of
  -- a one-dimensional space, and both have the same range lists of the partitionings. If both
  -- calculations return a transition, then the ranges that a sends to b in its transition are those
  -- that b receives from a in its own, in the same order.
  pub calc_transition_match :
      (space : Space) (from_a to_a from_b to_b : Partitioning) (red_op : Reduction) (a b : ℕ)
      (froms tos : RangeList) (x y : Transition)
      → space.ref.dims ≡ 1
      → a ≢ b
      → from_a.group.myid ≡ some a
      → from_b.group.myid ≡ some b
      → (from_a.inter_ranges ≡ some froms) × (to_a.inter_ranges ≡ some tos)
      → (from_b.inter_ranges ≡ some froms) × (to_b.inter_ranges ≡ some tos)
      → calc_transition q buf junk space (some from_a) (some to_a) DataFlow.preserve red_op
        ≡ done (some x)
      → calc_transition q buf junk space (some from_b) (some to_b) DataFlow.preserve red_op
        ≡ done (some y)
      → sent b x.bufs.send ≡ got a y.bufs.recv
  calc_transition_match space from_a to_a from_b to_b red_op a b froms tos x y d ne ma mb ra rb ea
        eb =
      calc_add_reductions_match space.ref junk
        (record { myid = a; size = from_a.group.size; red_op = red_op; keep = false })
        (record { myid = b; size = from_b.group.size; red_op = red_op; keep = false }) refl refl ne
        q froms.trange tos.trange no_ops no_ops x.bufs y.bufs refl refl
        (swept space from_a to_a red_op a d ma ra.0 ra.1 ea)
        (swept space from_b to_b red_op b d mb rb.0 rb.1 eb)
