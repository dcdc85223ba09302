-- ===== src/RangeList.antt =====
-- src/rangelist.c and the list types of include/laik/space-internal.h: the ranges that a
-- partitioner assigns to tasks, while they are collected and after the list is frozen.
-- Task ids are the `int`s that the code asserts to be at least 0. An array is a list; its pointer is
-- null exactly while it is empty. Memory is never exhausted.
pub mod Cover
pub mod Freeze
pub mod Samples
pub mod Queries
use laik.Prelude.{
  ℕ, zero, suc, ◌+◌, ◌-◌, ◌*◌, Bool, true, false, not, ◌&&◌, Option, none, some, List, [], ◌∷◌,
  ◌++◌, length, get_elem?, ltb, leb, ◌==◌, if◌then◌else◌, Outcome, done, aborted, ◌>>=◌, ◌>>◌,
  assert,
}
use laik.Prelude.Int.{ℤ, pos, negsuc, ◌+ℤ◌, eq_ℤ, leb_ℤ, ltb_ℤ}
use laik.Space.{Range, Space, eq_ref, range_is_equal, range_within_space}

-- `Laik_TaskRange_Gen`; the user's `data` pointer is a number that is only copied.
pub record TaskRange : Type 0 where
  pub task : ℕ
  pub range : Range
  pub tag : ℤ
  pub user_data : ℕ
  pub map_no : ℤ

-- `Laik_TaskRange_Single1d`
pub record Single : Type 0 where
  pub task : ℕ
  pub idx : ℤ

-- `off` is `none` until the list is frozen; `map_tid` is `none` for -1.
pub record RangeList : Type 0 where
  pub space : Space
  pub tid_count : ℕ
  pub capacity : ℕ
  pub trange : List TaskRange
  pub tss1d : List Single
  pub off : Option (List ℕ)
  pub map_tid : Option ℕ
  pub map_off : List ℕ

-- `laik_rangelist_new`
unfoldable pub new : Space → ℕ → RangeList
new space tid_count = record {
  space = space;
  tid_count = tid_count;
  capacity = 0;
  trange = [];
  tss1d = [];
  off = none;
  map_tid = none;
  map_off = [];
}

-- the capacity after the check before an append of element `count`
abbrev pub grow : ℕ → ℕ → ℕ
grow count capacity = if count == capacity then (capacity + 2) * 2 else capacity

-- `laik_rangelist_append`
unfoldable pub append : RangeList → ℕ → Range → ℤ → ℕ → Outcome RangeList
append list tid range tag user_data = do
  assert (elim range.space [ none ↦ false | some s ↦ eq_ref s list.space.ref ])
  assert (length list.tss1d == 0)
  assert (ltb tid list.tid_count)
  inside ← range_within_space range list.space
  assert inside
  done (record list {
    capacity = grow (length list.trange) list.capacity;
    trange =
        list.trange
        ++ (record { task = tid; range = range; tag = tag; user_data = user_data; map_no = pos 0 }
            ∷ []);
  })

-- `laik_rangelist_append_single1d`
unfoldable pub append_single1d : RangeList → ℕ → ℤ → Outcome RangeList
append_single1d list tid idx = do
  assert (length list.trange == 0)
  assert (ltb tid list.tid_count)
  assert (leb_ℤ list.space.range.from.i0 idx && ltb_ℤ idx list.space.range.to.i0)
  done (record list {
    capacity = grow (length list.tss1d) list.capacity;
    tss1d = list.tss1d ++ (record { task = tid; idx = idx } ∷ []);
  })

-- the loop of `laik_rangelist_isAll`, from range `i` on
is_all_from : ℕ → Range → List TaskRange → Bool
is_all_from i full [] = true
is_all_from i full (t ∷ ts) =
    let rest = is_all_from (suc i) full ts in
    if not (t.task == i) then false else if not (range_is_equal t.range full) then false else rest

-- `laik_rangelist_isAll`
pub is_all : RangeList → Bool
unfolding is_all_from
is_all list =
    if not (length list.trange == list.tid_count)
    then false
    else is_all_from 0 list.space.range list.trange

-- `laik_rangelist_isSingle`; `none` for -1
pub is_single : RangeList → Option ℕ
is_single list = elim list.trange [
  | [] ↦ none
  | t ∷ ts ↦ elim ts [
    | [] ↦ if not (range_is_equal t.range list.space.range) then none else some t.task
    | _ ↦ none
  ]
]
