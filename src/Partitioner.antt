-- ===== src/Partitioner.antt =====
-- src/partitioner.c: running a partitioner, the receiver of its ranges, and the partitioners without
-- parameters.
pub mod Appends
pub mod Bisection
pub mod Halo
pub mod Run
pub mod Tests
use laik.Prelude.Int.{◌+ℤ◌, ℤ, pos}
use laik.Prelude.Sort.{QSort}
use laik.Prelude.{
  ◌==◌, zero, not, ltb, false, [], ◌∷◌, ◌&&◌, suc, some, assert, aborted, ◌>>◌, ◌>>=◌, true, none,
  if◌then◌else◌, done, List, ℕ, Outcome, Option, Bool,
}
use laik.Space.{Range, Space, at, put_at, eq_ref, range_init_1d}
use laik.RangeList.{TaskRange, RangeList, new, append, append_single1d}
use laik.RangeList.Freeze.{freeze}
use laik.RangeList.Cover.{covers_space}
use laik.Partitioning.{Group, Partitioning}

-- the filter function of a `Laik_RangeFilter`: whether the range of the task is kept
abbrev pub Filter : Type 0
Filter = Option (ℕ → Range → Bool)

-- `Laik_PartitionerParams`, without the partitioner
pub record Params : Type 0 where
  pub space : Space
  pub group : Group
  pub other : Option Partitioning

-- `laik_append_range`; the receiver is its filter and its list.
unfoldable pub append_range : Filter → RangeList → ℕ → Range → ℤ → ℕ → Outcome RangeList
append_range filter list task range tag user_data = elim filter [
  | none ↦ append list task range tag user_data
  | some keep ↦ if keep task range then append list task range tag user_data else done list
]

-- `laik_append_index_1d`; `junk` is the local range variable.
pub append_index_1d : Filter → Range → RangeList → ℕ → ℤ → Outcome RangeList
append_index_1d filter junk list task idx = elim filter [
  | none ↦ append_single1d list task idx
  | some keep ↦ do
    range ← range_init_1d junk list.space.ref idx (idx +ℤ pos 1)
    (if keep task range then append_single1d list task idx else done list)
]

-- The loop of `runAllPartitioner`: `n` tasks are left, `task` is the next.
all_loop : Filter → Range → ℕ → ℕ → RangeList → Outcome RangeList
all_loop filter range zero task list = done list
all_loop filter range (suc n) task list = append_range filter list task range (pos 0) 0 >>= λ list'.
    all_loop filter range n (suc task) list'

-- `runAllPartitioner`
pub run_all : Filter → Params → RangeList → Outcome RangeList
unfolding all_loop
run_all filter p list = all_loop filter p.space.range p.group.size 0 list

-- `runMasterPartitioner`
unfoldable pub run_master : Filter → Params → RangeList → Outcome RangeList
run_master filter p list = append_range filter list 0 p.space.range (pos 0) 0

-- The ranges of the base partitioning, which must use the group of `p`.
pub base_ranges : Params → Outcome (Partitioning × List TaskRange)
base_ranges p = elim p.other [
  | none ↦ aborted
  | some o ↦ do
    assert (o.group.id == p.group.id)
    (elim o.all_ranges [ none ↦ aborted | some list ↦ done (o, list.trange) ])
]

-- the range that the copy partitioner makes of `s`
abbrev copied : Space → ℕ → ℕ → Range → Range
copied space from_dim to_dim s = record space.range {
  from = put_at space.range.from to_dim (at s.from from_dim);
  to = put_at space.range.to to_dim (at s.to from_dim);
}

-- the loop of `runCopyPartitioner`
copy_loop : Filter → Space → ℕ → ℕ → List TaskRange → RangeList → Outcome RangeList
copy_loop filter space from_dim to_dim [] list = done list
copy_loop filter space from_dim to_dim (t ∷ ts) list =
    append_range filter list t.task (copied space from_dim to_dim t.range) t.tag 0 >>= λ list'.
    copy_loop filter space from_dim to_dim ts list'

-- `runCopyPartitioner`
pub run_copy : ℕ → ℕ → Filter → Params → RangeList → Outcome RangeList
unfolding copy_loop base_ranges
run_copy from_dim to_dim filter p list = do
  b ← base_ranges p
  assert (ltb from_dim b.0.space.dims)
  assert (ltb to_dim p.space.ref.dims)
  copy_loop filter p.space from_dim to_dim b.1 list

-- A `Laik_Partitioner`: its run function on its data, and the two flags that are read here.
pub record Partitioner : Type 0 where
  pub run : Filter → Params → RangeList → Outcome RangeList
  pub merge : Bool
  pub no_full_coverage : Bool

abbrev no_filter : Filter → Bool
no_filter none = true
no_filter (some f) = false

-- The check of the base partitioning's group.
abbrev same_group : Params → Bool
same_group p = elim p.other [ none ↦ true | some o ↦ o.group.id == p.group.id ]

module _ (q : QSort) (buf junk : Range) where
  -- The coverage check at the end; a failed check panics.
  unfoldable pub check_coverage : Filter → Partitioner → RangeList → Outcome RangeList
  check_coverage filter pr list =
      if no_filter filter && not pr.no_full_coverage
      then (do covers ← covers_space q buf list; assert covers; done list)
      else done list

  -- `laik_run_partitioner`
  unfoldable pub run_partitioner : Partitioner → Filter → Params → Outcome RangeList
  unfolding check_coverage
  run_partitioner pr filter p = do
    assert (same_group p)
    list ← pr.run filter p (new p.space p.group.size)
    frozen ← freeze q junk pr.merge list
    check_coverage filter pr frozen
