-- ===== src/Partitioner/Bisection/Whole.antt =====
-- The bisection partitioner on the whole space, and its list after freezing.
use laik.RangeList.Queries.Slots.{IsFrozen}
use laik.RangeList.Freeze.Offsets.{unnumbered}
use laik.RangeList.Freeze.Whole.{freeze_plain}
use laik.RangeList.Freeze.{trgen_cmp, freeze}
use laik.Prelude.{
  countp-perm, countp-map, bit, false, countp, ◌>>=◌, ◌-◌, Bool, [], zero, drop, get_or, ap, ◌∷◌,
  All, map, ◌+◌, List, refl, ℕ, none, done, true, arith, ◌≡◌, ◌≤◌, ◌<◌, some, ◌∙◌, sym, subst,
}
use laik.Prelude.Int.{ℤ}
use laik.Prelude.Sort.{QSort}
use laik.Space.{Space, Range, Index, within_dim, within_dims}
use laik.Space.Points.{contains, filled}
use laik.RangeList.{TaskRange, RangeList, new}
use laik.Partitioner.{suc, Params}
use laik.Partitioner.Bisection.{run_bisection, widest}
use laik.Partitioner.Bisection.Split.{Part, within_dims_list}
use laik.Partitioner.Bisection.Widths.{IsSmall}
use laik.Partitioner.Appends.{Collects}
use laik.Partitioner.Bisection.Tiling.{Tiles, do_bisection_lem, tasks_from}

Collects-new : (space : Space) (n : ℕ) → Collects space n (new space n)
unfolding new
Collects-new space n = record {
  of_space = refl;
  tasks = refl;
  no_singles = refl;
  not_frozen = refl;
}

-- The space's own range is not empty, names the space, and is at least as wide as the group is
-- large in one dimension; every extent times the group's size fits in 64 bits.
pub record CanBisect (p : Params) : Type 0 where
  pub named : p.space.range.space ≡ some p.space.ref
  pub pos_dims : 0 < p.space.ref.dims
  pub dims_le : p.space.ref.dims ≤ 3
  pub some_task : 0 < p.group.size
  pub full : filled p.space.ref.dims p.space.range ≡ true
  pub small : IsSmall p.space.ref.dims p.group.size p.space.range
  pub wide : p.group.size ≤ (widest p.space.ref.dims p.space.range).1

within_dim_refl : (f t : ℤ) → within_dim f t f t ≡ true
unfolding within_dim
within_dim_refl f t = ground arith

within_dims_refl : (dims : ℕ) (s : Range) → 0 < dims → dims ≤ 3 → within_dims dims s s ≡ true
within_dims_refl dims s p l = ground (
  arith,
  within_dims_list dims s s p l,
  within_dim_refl s.from.i0 s.to.i0,
  within_dim_refl s.from.i1 s.to.i1,
  within_dim_refl s.from.i2 s.to.i2,
)

Part-whole :
    (p : Params)
    → CanBisect p
    → Part p.space.ref.dims p.group.size p.group.size p.space.range p.space.range
Part-whole p h = record {
  same_space = refl;
  inside = within_dims_refl p.space.ref.dims p.space.range h.pos_dims h.dims_le;
  full = h.full;
  small = h.small;
  wide = h.wide;
}

-- The bisection partitioner, without a filter and on a new list, returns a list with one range for
-- each task, in the order of the tasks: the ranges are not empty, and each index of the space lies
-- in exactly one of them, each other index in none. The space's own range is not empty and names
-- the space, of 1 to 3 dimensions, there is a task, the space is in one dimension at least as wide
-- as there are tasks, and each extent times the number of tasks fits in 64 bits.
pub run_bisection_lem :
    (p : Params)
    → CanBisect p
    → (out : RangeList) × (run_bisection none p (new p.space p.group.size) ≡ done out)
      × Collects p.space p.group.size out
      × Tiles p.space.ref.dims p.space.range 0 p.group.size out.trange
unfolding run_bisection new
run_bisection_lem p h =
    let same : p.group.size - 0 ≡ p.group.size = omega arith in
    let (tiles, (cuts, ts)) =
      do_bisection_lem p.space p.group.size h.named h.pos_dims h.dims_le (p.group.size + 1)
        p.space.range 0 p.group.size (omega arith)
        (h.some_task, (omega arith, rw (same) (Part-whole p h))) in
    let a = cuts (new p.space p.group.size) (Collects-new p.space p.group.size) in
    (
      a.out,
      a.returns,
      a.collects,
      subst (Tiles p.space.ref.dims p.space.range 0 p.group.size) (sym a.ranges)
          (subst (λ k. Tiles p.space.ref.dims p.space.range 0 k tiles) same ts),
    )

pub below_tasks :
    (n from k : ℕ) (ts : List TaskRange)
    → map TaskRange.task ts ≡ tasks_from from k
    → from + k ≤ n
    → All (λ t. t.task < n) ts
below_tasks n from zero [] e h = tt
below_tasks n from zero (t ∷ ts) e h = absurd (cc e)
below_tasks n from (suc k) [] e h = absurd (cc e)
below_tasks n from (suc k) (t ∷ ts) e h = (
  omega (arith, ap (λ xs. get_or xs 0 from) e),
  below_tasks n (suc from) k ts (ap (drop 1) e) (omega arith),
)

countp-unnumbered :
    (f : Range → Bool) (ts us : List TaskRange)
    → map unnumbered ts ≡ map unnumbered us
    → countp (λ t. f t.range) ts ≡ countp (λ t. f t.range) us
countp-unnumbered f ts us e =
    sym (countp-map (λ (t : TaskRange). f t.range) unnumbered ts)
    ∙ ap (countp (λ t. f t.range)) e
    ∙ countp-map (λ (t : TaskRange). f t.range) unnumbered us

-- The list of the bisection partitioner is frozen without merging, as `laik_run_partitioner` does
-- it, to a list whose offsets delimit the ranges of each task, and in which each index of the
-- space lies in exactly one range, each other index in none. The space's own range is not empty and
-- names the space, of 1 to 3 dimensions, there is a task, the space is in one dimension at least as
-- wide as there are tasks, and each extent times the number of tasks fits in 64 bits.
pub run_bisection-freeze :
    (q : QSort) (junk : Range) (p : Params)
    → CanBisect p
    → (out : RangeList) × (offs : List ℕ) × ((run_bisection none p (new p.space p.group.size)
          >>= λ list. freeze q junk false list)
        ≡ done out)
      × IsFrozen out offs
      × ((x : Index)
          → countp (λ t. contains p.space.ref.dims x t.range) out.trange
            ≡ bit (contains p.space.ref.dims x p.space.range))
run_bisection-freeze q junk p h =
    let (list, e, c, t) = run_bisection_lem p h in
    let (out, offs, f, z, same, _) =
      freeze_plain q junk list c.not_frozen c.no_singles (
        rw (c.tasks) (below_tasks p.group.size 0 p.group.size list.trange t.tasks (omega arith))) in
    (
      out,
      offs,
      ap (λ o. o >>= λ l. freeze q junk false l) e ∙ f,
      z,
      λ x.
          countp-unnumbered (contains p.space.ref.dims x) out.trange
            (q.sort TaskRange trgen_cmp list.trange) same
          ∙ countp-perm (λ t. contains p.space.ref.dims x t.range)
              (q.sort-perm TaskRange trgen_cmp list.trange)
          ∙ t.once x,
    )
