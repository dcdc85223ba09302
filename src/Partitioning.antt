-- ===== src/Partitioning.antt =====
-- include/laik/space-internal.h and include/laik/core-internal.h: partitionings and process groups,
-- with the fields that the modelled functions read.
use laik.Prelude.{ℕ, Option}
use laik.Space.{SpaceRef}
use laik.RangeList.{RangeList}

-- A `Laik_Group*` with what is read through it; `myid` is `none` for -1.
pub record Group : Type 0 where
  pub id : ℕ
  pub size : ℕ
  pub myid : Option ℕ

-- What is read of a `Laik_Partitioning`: the range lists that its lookups return, where `none` is
-- the null pointer. `inter_ranges` is that of the intersection with the other partitioning.
pub record Partitioning : Type 0 where
  pub space : SpaceRef
  pub group : Group
  pub inter_ranges : Option RangeList
  pub all_ranges : Option RangeList
  pub my_ranges : Option RangeList
