-- ===== src/Transition/Sweep.antt =====
-- `calcAddReductions` of src/space.c: for one-dimensional spaces, a sweep over the range borders of
-- both partitionings that keeps the tasks with input and those that want output.
pub mod Own
pub mod Step
pub mod Leave
pub mod Matching
pub mod Tests
use laik.Prelude.{
  bit, ltb, ◌-◌, ◌++◌, ◌&&◌, ◌+◌, some, length, ◌||◌, ◌^◌, ◌>>=◌, not, none, assert, ◌∷◌, ◌>>◌,
  ◌==◌, ◌%◌, true, false, done, Option, if◌then◌else◌, [], Outcome, List, Bool, ℕ,
}
use laik.Prelude.Int.{to_int32, ◌+ℤ◌, neg_part, ◌-ℤ◌, pos, sub_ℕ, negsuc, ltb_ℤ, eq_ℤ, pos_part, ℤ}
use laik.Prelude.Sort.{QSort}
use laik.Space.{Range, SpaceRef, put_at}
use laik.RangeList.{TaskRange}
use laik.Transition.{
  Reduction, Bufs, is_reduction, one_input_is_copy, append_local, append_send, append_recv,
  append_red,
}
use laik.Transition.Groups.{add_task, remove_task, is_in_task_group, get_task_group}

-- `RangeBorder`
pub record Border : Type 0 where
  pub b : ℤ
  pub task : ℕ
  pub range_no : ℤ
  pub map_no : ℤ
  pub is_start : Bool
  pub is_input : Bool

-- `rb_cmp`
unfoldable pub rb_cmp : Border → Border → ℤ
rb_cmp x y = if eq_ℤ x.b y.b then sub_ℕ (bit x.is_start) (bit y.is_start) else to_int32 (x.b -ℤ y.b)

-- The two loops that append the borders: `last_task` is `none` for -1, and the number starts anew
-- at each change of task or mapping.
unfoldable pub borders_of : Bool → ℤ → Option ℕ → ℤ → List TaskRange → List Border
borders_of is_input range_no last_task last_map [] = []
borders_of is_input range_no last_task last_map (t ∷ ts) =
    let same = (elim last_task [ none ↦ false | some l ↦ t.task == l ]) && eq_ℤ t.map_no last_map in
    let no = if same then range_no else pos 0 in
    record {
      b = t.range.from.i0;
      task = t.task;
      range_no = no;
      map_no = t.map_no;
      is_start = true;
      is_input = is_input;
    }
    ∷ record {
      b = t.range.to.i0;
      task = t.task;
      range_no = no;
      map_no = t.map_no;
      is_start = false;
      is_input = is_input;
    }
    ∷ borders_of is_input (no +ℤ pos 1) (some t.task) t.map_no ts

-- the variables of the sweep; `active_in` and `active_out` are the two bits of `myActivity`
pub record Sweep : Type 0 where
  pub input : List ℕ
  pub output : List ℕ
  pub active_in : Bool
  pub active_out : Bool
  pub in_range_no : ℤ
  pub in_map_no : ℤ
  pub out_range_no : ℤ
  pub out_map_no : ℤ
  pub bufs : Bufs

abbrev pub max_tasks : ℕ
max_tasks = 65536

abbrev pub sweep_start : Bufs → Sweep
sweep_start bufs = record {
  input = [];
  output = [];
  active_in = false;
  active_out = false;
  in_range_no = negsuc 0;
  in_map_no = negsuc 0;
  out_range_no = negsuc 0;
  out_map_no = negsuc 0;
  bufs = bufs;
}

-- The update of the task groups and of the own activity at one border.
unfoldable pub enter : ℕ → Border → Sweep → Outcome Sweep
enter myid x s =
    let mine = x.task == myid in
    if x.is_input
    then (if x.is_start
        then (do
          r ← add_task max_tasks s.input x.task
          assert r.0
          done (record s {
            input = r.1;
            active_in = if mine then true else s.active_in;
            in_range_no = if mine then x.range_no else s.in_range_no;
            in_map_no = if mine then x.map_no else s.in_map_no;
          }))
        else (do
          let r = remove_task s.input x.task
          assert r.0
          done (record s { input = r.1; active_in = if mine then false else s.active_in })))
    else (if x.is_start
        then (do
          r ← add_task max_tasks s.output x.task
          assert r.0
          done (record s {
            output = r.1;
            active_out = if mine then true else s.active_out;
            out_range_no = if mine then x.range_no else s.out_range_no;
            out_map_no = if mine then x.map_no else s.out_map_no;
          }))
        else (do
          let r = remove_task s.output x.task
          assert r.0
          done (record s { output = r.1; active_out = if mine then false else s.active_out })))

-- what is fixed during the sweep: own id, size of the group, operation, LAIK_TF_KEEP_REDUCTIONS
pub record Params : Type 0 where
  pub myid : ℕ
  pub size : ℕ
  pub red_op : Reduction
  pub keep : Bool

abbrev pub no_tasks : List ℕ → Bool
no_tasks [] = true
no_tasks (x ∷ xs) = false

module _ (c : Params) where
  abbrev pub copy_op : Range → Sweep → Bufs → Bufs
  copy_op r s = append_local (record {
    range = r;
    from_range_no = s.in_range_no;
    to_range_no = s.out_range_no;
    from_map_no = s.in_map_no;
    to_map_no = s.out_map_no;
  })

  abbrev pub give_one : Range → Sweep → ℕ → Bufs → Bufs
  give_one r s out b =
      if out == c.myid
      then copy_op r s b
      else append_send
          (record { range = r; range_no = s.in_range_no; map_no = s.in_map_no; to_task = out }) b

  -- own input is the only one: a copy to own output, and a message to each other
  unfoldable pub give : Range → Sweep → List ℕ → Bufs → Bufs
  give r s [] b = b
  give r s (out ∷ outs) b = give r s outs (give_one r s out b)

  abbrev pub take_one : Range → Sweep → ℕ → ℕ → Bufs → Bufs
  take_one r s from out b =
      if not (out == c.myid)
      then b
      else append_recv
          (record { range = r; range_no = s.out_range_no; map_no = s.out_map_no; from_task = from })
          b

  -- the only input is that of `from`: a message for own output
  unfoldable pub take_in : Range → Sweep → ℕ → List ℕ → Bufs → Bufs
  take_in r s from [] b = b
  take_in r s from (out ∷ outs) b = take_in r s from outs (take_one r s from out b)

  -- the reduction with the current groups
  unfoldable pub reduce : Range → Sweep → Bufs → Outcome Bufs
  reduce r s b = do
    let (i, groups) = get_task_group b.groups s.input
    let (o, groups') = get_task_group groups s.output
    assert (is_reduction c.red_op)
    done (
        append_red
          (record {
            range = r;
            red_op = c.red_op;
            input_group = if length s.input == c.size then none else some i;
            output_group = if length s.output == c.size then none else some o;
            my_input_range_no = s.in_range_no;
            my_output_range_no = s.out_range_no;
            my_input_map_no = s.in_map_no;
            my_output_map_no = s.out_map_no;
          })
          (record b { groups = groups' }))

  abbrev pub only : List ℕ → Bool
  only [] = false
  only (x ∷ xs) = elim xs [ [] ↦ x == c.myid | y ∷ ys ↦ false ]

  -- the operations for the part `r` between two borders, where `input` is the input group
  unfoldable pub emit_for : Range → Sweep → List ℕ → Outcome Bufs
  emit_for r s [] = reduce r s s.bufs
  emit_for r s (x ∷ (y ∷ ys)) = reduce r s s.bufs
  emit_for r s (x ∷ []) =
      assert (one_input_is_copy c.red_op)
      >> (if x == c.myid
          then (if only s.output
              then done (copy_op r s s.bufs)
              else if c.keep
              then reduce r s s.bufs
              else done (give r s s.output s.bufs))
          else if c.keep
          then reduce r s s.bufs
          else done (take_in r s x s.output s.bufs))

  unfoldable pub emit : Range → Sweep → Outcome Bufs
  unfolding give take_in reduce emit_for
  emit r s = emit_for r s s.input

  -- The part behind a border: `next` is the next border. `junk` is the local range variable.
  unfoldable pub leave : SpaceRef → Range → ℤ → ℤ → Sweep → Outcome Sweep
  unfolding emit
  leave space junk b next s =
      if ltb_ℤ b next
      then (if s.active_in || s.active_out
          then (do
            assert (is_in_task_group s.input c.myid || is_in_task_group s.output c.myid)
            bufs ←
                emit
                  (record {
                    space = some space;
                    from = put_at junk.from 0 b;
                    to = put_at junk.to 0 next;
                  })
                  s
            done (record s { bufs = bufs }))
          else done s)
      else done s

  -- the sweep over the sorted borders
  unfoldable pub sweep_from : SpaceRef → Range → List Border → Sweep → Outcome Sweep
  sweep_from space junk [] s = done s
  sweep_from space junk (x ∷ xs) s = enter c.myid x s >>= λ s'.
      (elim xs [ [] ↦ done s' | y ∷ ys ↦ leave space junk x.b y.b s' ]) >>= λ s''.
      sweep_from space junk xs s''

  -- the sweep over all sorted borders, with the final checks
  unfoldable pub sweep_all : SpaceRef → Range → Bufs → List Border → Outcome Bufs
  unfolding sweep_from
  sweep_all space junk bufs [] = done bufs
  sweep_all space junk bufs (x ∷ xs) = sweep_from space junk (x ∷ xs) (sweep_start bufs) >>= λ s.
      assert (no_tasks s.input) >> assert (no_tasks s.output) >> done s.bufs

  -- `calcAddReductions`, on the range lists of both partitionings
  module _ (q : QSort) where
    unfoldable pub calc_add_reductions :
        SpaceRef → Range → List TaskRange → List TaskRange → Bufs → Outcome Bufs
    unfolding sweep_all
    calc_add_reductions space junk froms tos bufs = do
      assert (space.dims == 1)
      let borders =
          borders_of true (pos 0) none (negsuc 0) froms
          ++ borders_of false (pos 0) none (negsuc 0) tos
      sweep_all space junk bufs (q.sort Border rb_cmp borders)
