-- ===== src/Partitioner/Run.antt =====
-- `laik_run_partitioner` as a whole, for the bisection partitioner.
use laik.RangeList.Cover.Exact.{InSpace}
use laik.Prelude.{
  zero, bit, length-perm, length-map, countp-perm, countp-map, all-perm, all-map, length, All-perm,
  ◌∙◌, ◌<◌, all, All-map, sym, subst, ap, Bool, ℕ, arith, refl, true, false, none, done, ◌≡◌, ◌≤◌,
  List, [], ◌∷◌, map, All, any, countp,
}
use mathlib.Core.List.Perm
use laik.Prelude.Sort.{QSort}
use laik.Space.{Space, Range, Index, SpaceRef}
use laik.Space.Points.{contains, filled}
use laik.RangeList.{TaskRange, RangeList, new}
use laik.RangeList.Freeze.{freeze, trgen_cmp}
use laik.RangeList.Freeze.Offsets.{unnumbered}
use laik.RangeList.Freeze.Whole.{freeze_plain}
use laik.RangeList.Queries.Slots.{IsFrozen}
use laik.RangeList.Cover.{covers_space, range_of}
use laik.RangeList.Cover.Room.{enough_ranges}
use laik.RangeList.Cover.Whole.{covers_space_returns, covers_space_iff}
use laik.Partitioner.{suc, Partitioner, Params, run_partitioner, check_coverage, same_group}
use laik.Partitioner.Bisection.{run_bisection}
use laik.Partitioner.Bisection.Tiling.{tasks_from}
use laik.Partitioner.Bisection.Whole.{CanBisect, run_bisection_lem, below_tasks}

-- `laik_new_bisection_partitioner`, which has no flags
abbrev pub bisection : Partitioner
bisection = record { run = run_bisection; merge = false; no_full_coverage = false }

map-range_of : (ts : List TaskRange) → map range_of (map unnumbered ts) ≡ map range_of ts
map-range_of [] = refl
map-range_of (t ∷ ts) = ap (λ rs. t.range ∷ rs) (map-range_of ts)

All-unmap :
    (P : Range → Type 0) (ts : List TaskRange) → All P (map range_of ts) → All (λ t. P t.range) ts
All-unmap P [] h = tt
All-unmap P (t ∷ ts) h = (h.0, All-unmap P ts h.1)

any-countp : {A : Type 0} (p : A → Bool) (xs : List A) → 0 < countp p xs → any p xs ≡ true
any-countp p [] h = absurd (omega arith)
any-countp p (x ∷ xs) h = ground (arith, any-countp p xs)

InSpace-prop : (s : SpaceRef) (r : Range) → IsProp (InSpace s r)
InSpace-prop s r = hlevel

-- Both lists have the same ranges, in some order.
record SameRanges (ts us : List TaskRange) : Type 0 where
  same_all : (s : SpaceRef) → All (λ t. InSpace s t.range) ts → All (λ t. InSpace s t.range) us
  same_test : (f : Range → Bool) → all (λ t. f t.range) us ≡ all (λ t. f t.range) ts
  same_count : (f : Range → Bool) → countp (λ t. f t.range) us ≡ countp (λ t. f t.range) ts
  same_length : length us ≡ length ts

module _ (q : QSort) (ts us : List TaskRange)
    (e : map unnumbered us ≡ map unnumbered (q.sort TaskRange trgen_cmp ts)) where
  same_map : map range_of us ≡ map range_of (q.sort TaskRange trgen_cmp ts)
  same_map =
      sym (map-range_of us) ∙ ap (map range_of) e ∙ map-range_of (q.sort TaskRange trgen_cmp ts)

  frozen-SameRanges : SameRanges ts us
  frozen-SameRanges =
      let perm = q.sort-perm TaskRange trgen_cmp ts in
      record {
        same_all = λ s h. All-unmap (InSpace s) us (
            subst (All (InSpace s)) (sym same_map) (
              All-map (InSpace s) range_of (q.sort TaskRange trgen_cmp ts) (
                All-perm (λ (t : TaskRange). InSpace s t.range) (λ t. InSpace-prop s t.range)
                  (Perm.symm perm) h)));
        same_test = λ f.
            sym (all-map f range_of us)
            ∙ ap (all f) same_map
            ∙ all-map f range_of (q.sort TaskRange trgen_cmp ts)
            ∙ all-perm (λ (t : TaskRange). f t.range) perm;
        same_count = λ f.
            sym (countp-map f range_of us)
            ∙ ap (countp f) same_map
            ∙ countp-map f range_of (q.sort TaskRange trgen_cmp ts)
            ∙ countp-perm (λ (t : TaskRange). f t.range) perm;
        same_length =
            sym (length-map range_of us)
            ∙ ap length same_map
            ∙ length-map range_of (q.sort TaskRange trgen_cmp ts)
            ∙ length-perm perm;
      }

-- The coverage check succeeds on a list of non-empty ranges that cover the space.
check_coverage-Covered :
    (q : QSort) (buf junk : Range) (list : RangeList) (b : Bool)
    → covers_space q buf list ≡ done b
    → b ≡ true
    → check_coverage q buf junk none bisection list ≡ done list
unfolding check_coverage
check_coverage-Covered q buf junk list b e t = ground (arith, e, t)

run_partitioner-steps :
    (q : QSort) (buf junk : Range) (p : Params) (list out : RangeList)
    → same_group p ≡ true
    → run_bisection none p (new p.space p.group.size) ≡ done list
    → freeze q junk false list ≡ done out
    → run_partitioner q buf junk bisection none p ≡ check_coverage q buf junk none bisection out
unfolding run_partitioner
run_partitioner-steps q buf junk p list out g e f = ground (arith, g, e, f)

length-tasks_from : (n from : ℕ) → length (tasks_from from n) ≡ n
length-tasks_from zero from = refl
length-tasks_from (suc n) from = ap suc (length-tasks_from n (suc from))

-- A list of non-empty ranges in which each index of its space lies once passes the check.
covered_list :
    (q : QSort) (buf : Range) (out : RangeList) (space : Space)
    → out.space ≡ space
    → All (λ t. InSpace space.ref t.range) out.trange
    → InSpace space.ref space.range
    → 0 < space.ref.dims
    → space.ref.dims ≤ 3
    → filled space.ref.dims space.range ≡ true
    → all (λ t. filled space.ref.dims t.range) out.trange ≡ true
    → length out.trange ≤ enough_ranges space.ref.dims
    → ((x : Index)
        → countp (λ t. contains space.ref.dims x t.range) out.trange
          ≡ bit (contains space.ref.dims x space.range))
    → covers_space q buf out ≡ done true
covered_list q buf out space os named sn pd dl full fulls fits once =
    subst
      (λ (s : Space).
        All (λ t. InSpace s.ref t.range) out.trange
        → InSpace s.ref s.range
        → 0 < s.ref.dims
        → s.ref.dims ≤ 3
        → filled s.ref.dims s.range ≡ true
        → all (λ t. filled s.ref.dims t.range) out.trange ≡ true
        → length out.trange ≤ enough_ranges s.ref.dims
        → ((x : Index)
            → countp (λ t. contains s.ref.dims x t.range) out.trange
              ≡ bit (contains s.ref.dims x s.range))
        → covers_space q buf out ≡ done true)
      os go named sn pd dl full fulls fits once
  where
    go :
        All (λ t. InSpace out.space.ref t.range) out.trange
        → InSpace out.space.ref out.space.range
        → 0 < out.space.ref.dims
        → out.space.ref.dims ≤ 3
        → filled out.space.ref.dims out.space.range ≡ true
        → all (λ t. filled out.space.ref.dims t.range) out.trange ≡ true
        → length out.trange ≤ enough_ranges out.space.ref.dims
        → ((x : Index)
            → countp (λ t. contains out.space.ref.dims x t.range) out.trange
              ≡ bit (contains out.space.ref.dims x out.space.range))
        → covers_space q buf out ≡ done true
    go named sn pd dl full fulls fits once =
        let (b, e) = covers_space_returns q buf out sn named pd dl fulls fits in
        let iff = covers_space_iff q buf out sn named pd dl full fulls e in
        let b_true = iff.1 (λ x inside.
          any-countp (λ t. contains out.space.ref.dims x t.range) out.trange
            (omega (arith, once x, ap bit inside))) in
        e ∙ ap done b_true

-- `laik_run_partitioner` with the bisection partitioner and without a filter returns a frozen list,
-- whose offsets delimit the ranges of each task, and in which each index of the space lies in
-- exactly one range, each other index in none; its check that the list covers the space succeeds.
-- The conditions are those of the bisection (the space's own range is not empty and names the
-- space, of 1 to 3 dimensions, there is a task, the space is in one dimension at least as wide as
-- there are tasks, and each extent times the number of tasks fits in 64 bits), that another
-- partitioning given is of the same group, and that there are at most 49 tasks in one dimension, 3
-- in two, or 2 in three, for the buffer of the check.
pub run_partitioner-bisection :
    (q : QSort) (buf junk : Range) (p : Params)
    → CanBisect p
    → same_group p ≡ true
    → p.group.size ≤ enough_ranges p.space.ref.dims
    → (out : RangeList) × (offs : List ℕ) × (run_partitioner q buf junk bisection none p ≡ done out)
      × IsFrozen out offs
      × ((x : Index)
          → countp (λ t. contains p.space.ref.dims x t.range) out.trange
            ≡ bit (contains p.space.ref.dims x p.space.range))
run_partitioner-bisection q buf junk p h g fits =
    let dims = p.space.ref.dims in
    let (list, e, c, t) = run_bisection_lem p h in
    let (out, offs, f, z, same, sp) =
      freeze_plain q junk list c.not_frozen c.no_singles (
        rw (c.tasks) (below_tasks p.group.size 0 p.group.size list.trange t.tasks (omega arith))) in
    let alike = frozen-SameRanges q list.trange out.trange same in
    let of_space : out.space ≡ p.space = sp ∙ c.of_space in
    let once : (x : Index)
        → countp (λ t. contains dims x t.range) out.trange ≡ bit (contains dims x p.space.range) =
      λ x. alike.same_count (contains dims x) ∙ t.once x in
    let named_ranges =
      alike.same_all p.space.ref
        (subst (λ z. All (λ t. t.range.space ≡ z) list.trange) h.named t.named) in
    let count : length out.trange ≡ p.group.size =
      alike.same_length
      ∙ sym (length-map TaskRange.task list.trange)
      ∙ ap length t.tasks
      ∙ length-tasks_from p.group.size 0 in
    let small_enough : length out.trange ≤ enough_ranges dims =
      subst (λ k. k ≤ enough_ranges dims) (sym count) fits in
    let covers =
      covered_list q buf out p.space of_space named_ranges h.named h.pos_dims h.dims_le h.full
        (alike.same_test (filled dims) ∙ t.full) small_enough once in
    (
      out,
      offs,
      run_partitioner-steps q buf junk p list out g e f
          ∙ check_coverage-Covered q buf junk out true covers refl,
      z,
      once,
    )
