-- ===== src/Transition/Calc.antt =====
-- `do_calc_transition` of src/space.c, which puts the operations of a transition together, and the
-- queries on the task groups of a transition.
pub mod Messages
pub mod Tests
use laik.Prelude.Int.{pos}
use laik.Prelude.Sort.{QSort}
use laik.Prelude.{
  [], ◌∷◌, get_elem?, ltb, List, ◌+◌, length, ◌==◌, not, none, done, assert, ◌>>◌, ◌>>=◌, some,
  if◌then◌else◌, false, aborted, true, Outcome, ℕ, Option, Bool,
}
use laik.Space.{Range, Space, SpaceRef, eq_ref}
use laik.RangeList.{RangeList, is_all, is_single}
use laik.Partitioning.{Group, Partitioning}
use laik.Transition.{Reduction, DataFlow, Bufs, no_ops, is_reduction, append_red}
use laik.Transition.Groups.{get_task_group_single}
use laik.Transition.Exchange.{own, init_ops, local_ops, all_recvs, all_sends}
use laik.Transition.Sweep.{Params, calc_add_reductions}

-- the fields of a `Laik_Transition`, without its id and name
pub record Transition : Type 0 where
  pub space : Space
  pub group : Group
  pub from_partitioning : Option Partitioning
  pub to_partitioning : Option Partitioning
  pub flow : DataFlow
  pub red_op : Reduction
  pub action_count : ℕ
  pub bufs : Bufs

abbrev is_none : DataFlow → Bool
is_none DataFlow.no_flow = true
is_none f = false

-- The consistency checks, and the group.
group_of : SpaceRef → DataFlow → Option Partitioning → Option Partitioning → Outcome Group
group_of s flow none none = aborted
group_of s flow none (some to) = assert (eq_ref to.space s) >> done to.group
group_of s flow (some from) none =
    assert (is_none flow) >> assert (eq_ref from.space s) >> done from.group
group_of s flow (some from) (some to) =
    assert (eq_ref from.space s)
    >> assert (eq_ref to.space s)
    >> assert (to.group.id == from.group.id)
    >> done from.group

abbrev known : Option RangeList → Outcome RangeList
known none = aborted
known (some l) = done l

-- the request to initialize values
init_part : ℕ → DataFlow → Reduction → Option Partitioning → Bufs → Outcome Bufs
init_part myid DataFlow.init red_op (some to) bufs = do
  list ← known to.my_ranges
  ops ← init_ops red_op 0 (own list myid)
  done (record bufs { init = ops })
init_part myid flow red_op to bufs = done bufs

-- The output group of the reduction from all tasks on the full space, if it is one: `none` as
-- group is the group of all tasks.
all_to : ℕ → RangeList → RangeList → Bufs → Outcome (Option (Option ℕ × Bufs))
all_to size froms tos bufs = if not (is_all froms) then done none else (elim (is_single tos) [
  | none ↦ done (if is_all tos then some (none, bufs) else none)
  | some task ↦
      let g = get_task_group_single bufs.groups task in
      let bufs' = record bufs { groups = g.1 } in
      if size == 1
      then assert (task == 0) >> done (some (none, bufs'))
      else done (some (some g.0, bufs'))
])

module _ (q : QSort) (buf junk : Range) where
  -- spaces of more than one dimension
  exchange_part : Space → Group → ℕ → Reduction → Partitioning → Partitioning → Bufs → Outcome Bufs
  unfolding all_to
  exchange_part space group myid red_op from to bufs = do
    froms ← known from.all_ranges
    tos ← known to.all_ranges
    locals ← local_ops buf 0 (own froms myid) (own tos myid)
    let bufs0 = record bufs { local = locals }
    bufs1 ←
        if is_reduction red_op
        then (do
          target ← all_to group.size froms tos bufs0
          (elim target [
            | none ↦ aborted
            | some t ↦ done (
                append_red
                  (record {
                    range = space.range;
                    red_op = red_op;
                    input_group = none;
                    output_group = t.0;
                    my_input_range_no = pos 0;
                    my_output_range_no = pos 0;
                    my_input_map_no = pos 0;
                    my_output_map_no = pos 0;
                  })
                  t.1)
          ]))
        else (do
          recvs ← all_recvs buf froms tos myid group.size 0
          done (record bufs0 { recv = recvs }))
    sends ← all_sends buf froms tos myid group.size 0
    done (record bufs1 { send = sends })

  -- preserving the data between two partitionings
  preserve_part :
      Space
      → Group
      → ℕ
      → DataFlow
      → Reduction
      → Option Partitioning
      → Option Partitioning
      → Bufs
      → Outcome Bufs
  unfolding exchange_part
  preserve_part space group myid DataFlow.preserve red_op (some from) (some to) bufs =
      if space.ref.dims == 1
      then (do
        froms ← known from.inter_ranges
        tos ← known to.inter_ranges
        calc_add_reductions
            (record { myid = myid; size = group.size; red_op = red_op; keep = false }) q space.ref
            junk froms.trange tos.trange bufs)
      else exchange_part space group myid red_op from to bufs
  preserve_part space group myid flow red_op from to bufs = done bufs

  -- `do_calc_transition`; `none` for the null pointer of a process outside of the group.
  pub do_calc_transition :
      Space
      → Option Partitioning
      → Option Partitioning
      → DataFlow
      → Reduction
      → Outcome (Option Transition)
  unfolding group_of init_part preserve_part
  do_calc_transition space from to flow red_op = do
    group ← group_of space.ref flow from to
    (elim group.myid [
      | none ↦ done none
      | some myid ↦ do
        bufs ← init_part myid flow red_op to no_ops
        bufs' ← preserve_part space group myid flow red_op from to bufs
        done (
            some (record {
              space = space;
              group = group;
              from_partitioning = from;
              to_partitioning = to;
              flow = flow;
              red_op = red_op;
              action_count =
                  length bufs'.local
                  + length bufs'.init
                  + length bufs'.send
                  + length bufs'.recv
                  + length bufs'.red;
              bufs = bufs';
            }))
    ])

  -- `laik_calc_transition`
  pub calc_transition :
      Space
      → Option Partitioning
      → Option Partitioning
      → DataFlow
      → Reduction
      → Outcome (Option Transition)
  unfolding do_calc_transition
  calc_transition space from to flow red_op = do
    assert (elim from [
      | none ↦ true
      | some f ↦ elim to [ none ↦ true | some t ↦ f.group.id == t.group.id ]
    ])
    do_calc_transition space from to flow red_op

-- The task group with the number `subgroup` of the transition; an invalid number fails the assert.
subgroup_of : Transition → ℕ → Outcome (List ℕ)
subgroup_of t subgroup = elim (get_elem? t.bufs.groups subgroup) [
  | none ↦ aborted
  | some g ↦ done g
]

-- `laik_trans_groupCount`; `none` as subgroup is -1, the group of all tasks.
pub trans_group_count : Transition → Option ℕ → Outcome ℕ
unfolding subgroup_of
trans_group_count t none = done t.group.size
trans_group_count t (some subgroup) = do g ← subgroup_of t subgroup; done (length g)

-- `laik_trans_taskInGroup`
pub trans_task_in_group : Transition → Option ℕ → ℕ → Outcome ℕ
unfolding subgroup_of
trans_task_in_group t none i = assert (ltb i t.group.size) >> done i
trans_task_in_group t (some subgroup) i = do
  g ← subgroup_of t subgroup
  elim (get_elem? g i) [ none ↦ aborted | some task ↦ done task ]

-- the search loop of `laik_trans_isInGroup`
abbrev holds_task : List ℕ → ℕ → Bool
holds_task [] task = false
holds_task (x ∷ xs) task = let more = holds_task xs task in if x == task then true else more

-- `laik_trans_isInGroup`
pub trans_is_in_group : Transition → Option ℕ → ℕ → Outcome Bool
unfolding subgroup_of
trans_is_in_group t none task = done true
trans_is_in_group t (some subgroup) task = do g ← subgroup_of t subgroup; done (holds_task g task)
