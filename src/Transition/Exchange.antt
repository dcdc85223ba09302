-- ===== src/Transition/Exchange.antt =====
-- The exchange between two partitionings of a space with several dimensions, in
-- `do_calc_transition` of src/space.c: the loops over own ranges and those of the other tasks.
pub mod Rows
pub mod Matching
pub mod Tests
use laik.Prelude.Int.{pos}
use laik.Prelude.{
  drop, ◌-◌, zero, take, assert, ◌>>◌, ◌==◌, ◌++◌, true, get_or, ◌>>=◌, suc, some, if◌then◌else◌,
  ◌∷◌, false, [], none, done, Bool, Outcome, List, ℕ,
}
use laik.Space.{range_is_empty, Range, range_intersect, range_is_equal}
use laik.RangeList.{TaskRange, RangeList}
use laik.Transition.{is_reduction, LocalOp, SendOp, RecvOp, InitOp, Reduction}

-- the ranges of `task`: those from `off[task]` to before `off[task + 1]`
unfoldable pub own : RangeList → ℕ → List TaskRange
own list task = elim list.off [
  | none ↦ []
  | some offs ↦
      let first = get_or offs task 0 in
      take (get_or offs (suc task) 0 - first) (drop first list.trange)
]

-- The loop of the init operations over own ranges; `i` is the number of the next range.
pub init_ops : Reduction → ℕ → List TaskRange → Outcome (List InitOp)
init_ops red_op i [] = done []
init_ops red_op i (t ∷ ts) =
    let more = init_ops red_op (suc i) ts in
    if range_is_empty t.range then more else (do
      assert (is_reduction red_op)
      ops ← more
      done (record { range = t.range; range_no = pos i; map_no = t.map_no; red_op = red_op } ∷ ops))

-- Some range of the list is equal to `r`.
pub has_equal : Range → List TaskRange → Bool
has_equal r [] = false
has_equal r (t ∷ ts) = let more = has_equal r ts in if range_is_equal r t.range then true else more

module _ (buf : Range) where
  -- the loop over `o2` for the local operations
  local_row : ℕ → TaskRange → ℕ → List TaskRange → Outcome (List LocalOp)
  local_row i t1 j [] = done []
  local_row i t1 j (t2 ∷ ts) = do
    range ← range_intersect buf t1.range t2.range
    more ← local_row i t1 (suc j) ts
    done (elim range [
      | none ↦ more
      | some r ↦
          record {
            range = r;
            from_range_no = pos i;
            to_range_no = pos j;
            from_map_no = t1.map_no;
            to_map_no = t2.map_no;
          }
          ∷ more
    ])

  -- the local ranges to keep
  pub local_ops : ℕ → List TaskRange → List TaskRange → Outcome (List LocalOp)
  unfolding local_row
  local_ops i [] tos = done []
  local_ops i (t1 ∷ froms) tos = do
    row ← local_row i t1 0 tos
    more ← local_ops (suc i) froms tos
    done (row ++ more)

  -- the loop over the ranges `ts` of the receiver `task`
  pub send_row : ℕ → ℕ → TaskRange → List TaskRange → Outcome (List SendOp)
  send_row task i t1 [] = done []
  send_row task i t1 (t2 ∷ ts) = do
    range ← range_intersect buf t1.range t2.range
    more ← send_row task i t1 ts
    done (elim range [
      | none ↦ more
      | some r ↦ record { range = r; range_no = pos i; map_no = t1.map_no; to_task = task } ∷ more
    ])

  -- What goes to `task`: from own ranges, the first of number `i`, to its ranges `tos`; a range
  -- that is equal to one of its old ranges `has` is not sent.
  pub sends_to : ℕ → List TaskRange → List TaskRange → ℕ → List TaskRange → Outcome (List SendOp)
  sends_to task has tos i [] = done []
  sends_to task has tos i (t1 ∷ froms) =
      let more = sends_to task has tos (suc i) froms in
      if has_equal t1.range has
      then more
      else (do row ← send_row task i t1 tos; ops ← more; done (row ++ ops))

  -- the loop over the ranges `ts` of the sender `task`
  pub recv_row : ℕ → ℕ → TaskRange → List TaskRange → Outcome (List RecvOp)
  recv_row task i t1 [] = done []
  recv_row task i t1 (t2 ∷ ts) = do
    range ← range_intersect buf t2.range t1.range
    more ← recv_row task i t1 ts
    done (elim range [
      | none ↦ more
      | some r ↦ record { range = r; range_no = pos i; map_no = t1.map_no; from_task = task } ∷ more
    ])

  -- What comes from `task` with old ranges `froms`: for own new ranges, the first of number `i`; a
  -- range that is equal to one of the own old ranges `has` is not received.
  pub recvs_from : ℕ → List TaskRange → List TaskRange → ℕ → List TaskRange → Outcome (List RecvOp)
  recvs_from task has froms i [] = done []
  recvs_from task has froms i (t1 ∷ tos) =
      let more = recvs_from task has froms (suc i) tos in
      if has_equal t1.range has
      then more
      else (do row ← recv_row task i t1 froms; ops ← more; done (row ++ ops))

  -- The loops over all tasks but `me`: `n` are left, `task` is the next.
  pub all_recvs : RangeList → RangeList → ℕ → ℕ → ℕ → Outcome (List RecvOp)
  all_recvs from_rl to_rl me zero task = done []
  all_recvs from_rl to_rl me (suc n) task =
      let more = all_recvs from_rl to_rl me n (suc task) in
      if task == me then more else (do
        ops ← recvs_from task (own from_rl me) (own from_rl task) 0 (own to_rl me)
        later ← more
        done (ops ++ later))

  pub all_sends : RangeList → RangeList → ℕ → ℕ → ℕ → Outcome (List SendOp)
  all_sends from_rl to_rl me zero task = done []
  all_sends from_rl to_rl me (suc n) task =
      let more = all_sends from_rl to_rl me n (suc task) in
      if task == me then more else (do
        ops ← sends_to task (own from_rl task) (own to_rl task) 0 (own from_rl me)
        later ← more
        done (ops ++ later))
