-- ===== src/RangeList/Freeze.antt =====
-- Freezing a range list, in src/rangelist.c: sorting the ranges, merging neighbours, the offset of
-- each task and the mapping numbers, and the change of task ids of a frozen list.
pub mod Order
pub mod Merge
pub mod Offsets
pub mod Whole
pub mod Tests
use laik.Prelude.{
  zero, ◌++◌, length, ◌+◌, ◌&&◌, ltb, assert, ◌>>◌, ◌>>=◌, ◌==◌, none, if◌then◌else◌, ◌||◌, false,
  suc, done, aborted, [], ◌∷◌, true, not, Outcome, some, Option, List, Bool, ℕ,
}
use laik.Prelude.Int.{to_int32, ◌-ℤ◌, sub_ℕ, ltb_ℤ, ◌+ℤ◌, pos, negsuc, eq_ℤ, ℤ}
use laik.Prelude.Sort.{QSort}
use laik.Space.{Range, SpaceRef, put_at}
use laik.RangeList.{TaskRange, Single, RangeList}

-- the sign that `from` decides when the tasks and the tags agree
abbrev compare_ℤ : ℤ → ℤ → ℤ
compare_ℤ a b = if ltb_ℤ b a then pos 1 else if eq_ℤ a b then pos 0 else negsuc 0

-- `trgen_cmp`: by task, then tag, then start index. The differences are integers: this is the C
-- function where no difference of two `int` values overflows, which is undefined there.
unfoldable pub trgen_cmp : TaskRange → TaskRange → ℤ
trgen_cmp t u =
    if t.task == u.task
    then (if eq_ℤ t.tag u.tag then compare_ℤ t.range.from.i0 u.range.from.i0 else t.tag -ℤ u.tag)
    else sub_ℕ t.task u.task

-- `trgen_cmp` where an `int` difference that overflows wraps around
unfoldable pub trgen_cmp_int : TaskRange → TaskRange → ℤ
trgen_cmp_int t u =
    if t.task == u.task
    then (if eq_ℤ t.tag u.tag
        then compare_ℤ t.range.from.i0 u.range.from.i0
        else to_int32 (t.tag -ℤ u.tag))
    else to_int32 (sub_ℕ t.task u.task)

-- `tss1d_cmp`: by task, then index
unfoldable pub tss1d_cmp : Single → Single → ℤ
tss1d_cmp t u = if t.task == u.task then compare_ℤ t.idx u.idx else sub_ℕ t.task u.task

-- `t` is of another task or mapping than `cur`, or leaves a gap behind it.
abbrev pub not_mergable : TaskRange → TaskRange → Bool
not_mergable cur t =
    not (t.task == cur.task) || (not (eq_ℤ t.tag cur.tag) || ltb_ℤ cur.range.to.i0 t.range.from.i0)

-- `cur` with its end moved to that of `t`, if it lies behind
abbrev pub extend : TaskRange → TaskRange → TaskRange
extend cur t =
    if ltb_ℤ cur.range.to.i0 t.range.to.i0
    then record cur { range = record cur.range { to = put_at cur.range.to 0 t.range.to.i0 } }
    else cur

-- The loop of `mergeSortedRanges`: `cur` is the entry at `dstOff`, the list is from `srcOff` on.
pub merge_from : TaskRange → List TaskRange → List TaskRange
merge_from cur [] = cur ∷ []
merge_from cur (t ∷ ts) = elim (not_mergable cur t) [
  | true ↦ cur ∷ merge_from t ts
  | false ↦ merge_from (extend cur t) ts
]

-- `mergeSortedRanges`; the array pointer is null when no range was added.
pub merge_sorted_ranges : ℕ → List TaskRange → Outcome (List TaskRange)
unfolding merge_from
merge_sorted_ranges dims [] = aborted
merge_sorted_ranges dims (t ∷ ts) = do assert (dims == 1); done (merge_from t ts)

-- The inner loop of `updateOffsets`: the ranges of `task` with their mapping numbers, and the rest.
pub number_task : ℕ → ℤ → ℤ → List TaskRange → Outcome (List TaskRange × List TaskRange)
number_task task map_no last_tag [] = done ([], [])
number_task task map_no last_tag (t ∷ ts) =
    let next = eq_ℤ t.tag (pos 0) || not (eq_ℤ t.tag last_tag) in
    let map_no' = if next then map_no +ℤ pos 1 else map_no in
    let more = number_task task map_no' (if next then t.tag else last_tag) ts in
    if ltb task t.task
    then done ([], t ∷ ts)
    else (do assert (t.task == task); r ← more; done (record t { map_no = map_no' } ∷ r.0, r.1))

-- The loop of `updateOffsets` over the tasks: `n` are left, `task` is the next.
pub offsets_from : ℕ → ℕ → ℕ → List TaskRange → Outcome (List ℕ × List TaskRange)
offsets_from zero task off [] = done (off ∷ [], [])
offsets_from zero task off (t ∷ ts) = aborted
offsets_from (suc n) task off ts = number_task task (negsuc 0) (negsuc 0) ts >>= λ (mine, rest).
    offsets_from n (suc task) (off + length mine) rest >>= λ (offs, later).
    done (off ∷ offs, mine ++ later)

-- `updateOffsets`: the offset array and the numbered ranges
pub update_offsets : ℕ → List TaskRange → Outcome (List ℕ × List TaskRange)
update_offsets tid_count ts = offsets_from tid_count 0 0 ts

-- The counting pass of `updateOffsetsSI`: the runs that begin behind the current one.
pub count_runs : ℕ → ℤ → List Single → ℕ
count_runs task idx [] = 0
count_runs task idx (t ∷ ts) = elim (t.task == task && eq_ℤ t.idx idx) [
  | true ↦ count_runs task idx ts
  | false ↦ elim (t.task == task && eq_ℤ t.idx (idx +ℤ pos 1)) [
    | true ↦ count_runs task (idx +ℤ pos 1) ts
    | false ↦ suc (count_runs t.task t.idx ts)
  ]
]

-- the generic range of a run; `junk` is what the new memory holds
abbrev pub run_range : SpaceRef → Range → ℕ → ℤ → ℤ → TaskRange
run_range space junk task idx0 idx = record {
  task = task;
  range = record {
    space = some space;
    from = put_at junk.from 0 idx0;
    to = put_at junk.to 0 (idx +ℤ pos 1);
  };
  tag = pos 0;
  user_data = 0;
  map_no = pos 0;
}

-- The converting pass: the run of `task` from `idx0` to `idx`, and those behind it.
pub runs_from : SpaceRef → Range → ℕ → ℤ → ℤ → List Single → List TaskRange
runs_from space junk task idx0 idx [] = run_range space junk task idx0 idx ∷ []
runs_from space junk task idx0 idx (t ∷ ts) = elim (t.task == task && eq_ℤ t.idx idx) [
  | true ↦ runs_from space junk task idx0 idx ts
  | false ↦ elim (t.task == task && eq_ℤ t.idx (idx +ℤ pos 1)) [
    | true ↦ runs_from space junk task idx0 (idx +ℤ pos 1) ts
    | false ↦ run_range space junk task idx0 idx ∷ runs_from space junk t.task t.idx t.idx ts
  ]
]

-- The ranges of `task` and the rest, as the last loop of `updateOffsetsSI` walks them.
pub span_task : ℕ → List TaskRange → Outcome (List TaskRange × List TaskRange)
span_task task [] = done ([], [])
span_task task (t ∷ ts) =
    let more = span_task task ts in
    if ltb task t.task
    then done ([], t ∷ ts)
    else (do assert (t.task == task); r ← more; done (t ∷ r.0, r.1))

pub offsets_si_from : ℕ → ℕ → ℕ → List TaskRange → Outcome (List ℕ)
offsets_si_from zero task off [] = done (off ∷ [])
offsets_si_from zero task off (t ∷ ts) = aborted
offsets_si_from (suc n) task off ts = span_task task ts >>= λ (mine, rest).
    offsets_si_from n (suc task) (off + length mine) rest >>= λ offs. done (off ∷ offs)

-- The two passes of `updateOffsetsSI` over the sorted indexes.
pub runs_of : SpaceRef → Range → List Single → Outcome (List TaskRange)
runs_of space junk [] = aborted
runs_of space junk (t ∷ ts) = do
  let runs = runs_from space junk t.task t.idx t.idx ts
  assert (suc (count_runs t.task t.idx ts) == length runs)
  done runs

module _ (q : QSort) where
  -- `sortRanges`
  unfoldable pub sort_ranges : List TaskRange → List TaskRange
  sort_ranges ts = q.sort TaskRange trgen_cmp ts

  -- `updateOffsetsSI`
  pub update_offsets_si : SpaceRef → Range → ℕ → List Single → Outcome (List ℕ × List TaskRange)
  update_offsets_si space junk tid_count ss = do
    runs ← runs_of space junk (q.sort Single tss1d_cmp ss)
    offs ← offsets_si_from tid_count 0 0 runs
    done (offs, runs)

  -- the generic branch of `laik_rangelist_freeze`
  freeze_gen : ℕ → ℕ → Bool → List TaskRange → Outcome (List ℕ × List TaskRange)
  freeze_gen dims tid_count do_merge ts = do
    merged ← if do_merge then merge_sorted_ranges dims (sort_ranges ts) else done (sort_ranges ts)
    update_offsets tid_count merged

  -- `laik_rangelist_freeze`
  pub freeze : Range → Bool → RangeList → Outcome RangeList
  unfolding freeze_gen
  freeze junk do_merge list = do
    assert (elim list.off [ none ↦ true | some off ↦ false ])
    frozen ← elim list.tss1d [
      | [] ↦ freeze_gen list.space.ref.dims list.tid_count do_merge list.trange
      | s ∷ ss ↦ update_offsets_si list.space.ref junk list.tid_count (s ∷ ss)
    ]
    done (record list { off = some frozen.0; trange = frozen.1; tss1d = [] })

  -- The task ids of `laik_rangelist_migrate`, one by one; `idmap` is `none` at a removed task.
  relabel : (ℕ → Option ℕ) → ℕ → ℕ → List TaskRange → Outcome (List TaskRange)
  relabel idmap tid_count new_count [] = done []
  relabel idmap tid_count new_count (t ∷ ts) = do
    assert (ltb t.task tid_count)
    new_id ← elim (idmap t.task) [ none ↦ aborted | some n ↦ done n ]
    assert (ltb new_id new_count)
    more ← relabel idmap tid_count new_count ts
    done (record t { task = new_id } ∷ more)

  -- No removed task has ranges: `off` is the offset array from task `i` on.
  none_removed : (ℕ → Option ℕ) → ℕ → List ℕ → Bool
  none_removed idmap i [] = true
  none_removed idmap i (o ∷ offs) =
      let more = none_removed idmap (suc i) offs in
      elim offs [ [] ↦ true | o' ∷ r ↦ (elim (idmap i) [ none ↦ o == o' | some n ↦ true ]) && more ]

  -- `laik_rangelist_migrate`
  pub migrate : (ℕ → Option ℕ) → ℕ → RangeList → Outcome RangeList
  unfolding relabel none_removed
  migrate idmap new_count list = do
    offs ← elim list.off [ none ↦ aborted | some offs ↦ done offs ]
    assert (none_removed idmap 0 offs)
    relabelled ← relabel idmap list.tid_count new_count list.trange
    frozen ← update_offsets new_count (sort_ranges relabelled)
    done (record list { tid_count = new_count; off = some frozen.0; trange = frozen.1 })
