-- ===== src/Transition.antt =====
-- src/space.c, the computation of transitions, and the transition types of
-- include/laik/space-internal.h: the operations by which a process goes from one partitioning to
-- another.
pub mod Groups
pub mod Exchange
pub mod Sweep
pub mod Calc
use laik.Prelude.Int.{ℤ}
use laik.Prelude.{true, ◌∷◌, false, ◌++◌, [], Option, List, Bool, ℕ}
use laik.Space.{Range}

-- `Laik_ReductionOperation`; `custom n` is LAIK_RO_Custom + n.
pub data Reduction : Type 0 where
  no_reduction sum prod min max and or any_of single : Reduction
  custom : ℕ → Reduction

-- `Laik_DataFlow`
pub data DataFlow : Type 0 where
  no_flow preserve init : DataFlow

-- `laik_is_reduction`
abbrev pub is_reduction : Reduction → Bool
is_reduction Reduction.no_reduction = false
is_reduction r = true

-- `oneInputIsCopy`
abbrev pub one_input_is_copy : Reduction → Bool
one_input_is_copy (Reduction.custom n) = false
one_input_is_copy r = true

-- `struct localTOp`
pub record LocalOp : Type 0 where
  pub range : Range
  pub from_range_no : ℤ
  pub to_range_no : ℤ
  pub from_map_no : ℤ
  pub to_map_no : ℤ

-- `struct initTOp`
pub record InitOp : Type 0 where
  pub range : Range
  pub range_no : ℤ
  pub map_no : ℤ
  pub red_op : Reduction

-- `struct sendTOp`
pub record SendOp : Type 0 where
  pub range : Range
  pub range_no : ℤ
  pub map_no : ℤ
  pub to_task : ℕ

-- `struct recvTOp`
pub record RecvOp : Type 0 where
  pub range : Range
  pub range_no : ℤ
  pub map_no : ℤ
  pub from_task : ℕ

-- `struct redTOp`; a group is an index into the group list, and `none` is the group of all, -1.
pub record RedOp : Type 0 where
  pub range : Range
  pub red_op : Reduction
  pub input_group : Option ℕ
  pub output_group : Option ℕ
  pub my_input_range_no : ℤ
  pub my_output_range_no : ℤ
  pub my_input_map_no : ℤ
  pub my_output_map_no : ℤ

-- the buffers of operations and the group list that are filled while a transition is computed
pub record Bufs : Type 0 where
  pub local : List LocalOp
  pub init : List InitOp
  pub send : List SendOp
  pub recv : List RecvOp
  pub red : List RedOp
  pub groups : List (List ℕ)

-- `cleanTOpBufs` and `cleanGroupList`
abbrev pub no_ops : Bufs
no_ops = record { local = []; init = []; send = []; recv = []; red = []; groups = [] }

abbrev pub append_local : LocalOp → Bufs → Bufs
append_local op b = record b { local = b.local ++ (op ∷ []) }

abbrev pub append_init : InitOp → Bufs → Bufs
append_init op b = record b { init = b.init ++ (op ∷ []) }

abbrev pub append_send : SendOp → Bufs → Bufs
append_send op b = record b { send = b.send ++ (op ∷ []) }

abbrev pub append_recv : RecvOp → Bufs → Bufs
append_recv op b = record b { recv = b.recv ++ (op ∷ []) }

abbrev pub append_red : RedOp → Bufs → Bufs
append_red op b = record b { red = b.red ++ (op ∷ []) }
