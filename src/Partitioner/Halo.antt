-- ===== src/Partitioner/Halo.antt =====
-- The halo partitioners of src/partitioner.c, which extend the ranges of a base partitioning.
pub mod Indexes
use laik.Prelude.Int.{◌-ℤ◌, pos, ◌+ℤ◌, ltb_ℤ, ℤ}
use laik.Prelude.{◌++◌, assert, [], ◌∷◌, ◌>>◌, ltb, done, ◌>>=◌, if◌then◌else◌, List, ℕ, Outcome}
use laik.Space.{Range, Space, SpaceRef, at, put_at, eq_ref}
use laik.RangeList.{TaskRange, RangeList}
use laik.Partitioning.{Partitioning}
use laik.Partitioner.{Filter, Params, append_range, base_ranges}

-- The ranges of the base partitioning, which must be of the space of `p` too.
base_of_space : Params → Outcome (List TaskRange)
base_of_space p = do b ← base_ranges p; assert (eq_ref b.0.space p.space.ref); done b.1

-- One dimension of the corner halo: `range` starts as the space's range.
grow_dim : ℤ → ℕ → Range → Range → Range
grow_dim depth d s range = record range {
  from =
      if ltb_ℤ (at range.from d +ℤ depth) (at s.from d)
      then put_at range.from d (at s.from d -ℤ depth)
      else range.from;
  to =
      if ltb_ℤ (at s.to d) (at range.to d -ℤ depth)
      then put_at range.to d (at s.to d +ℤ depth)
      else range.to;
}

-- the range that the corner-halo partitioner makes of `s`
pub corner_halo : ℤ → Space → Range → Range
unfolding grow_dim
corner_halo depth space s =
    let one = grow_dim depth 0 s space.range in
    if ltb 1 space.ref.dims
    then (let two = grow_dim depth 1 s one in
        if ltb 2 space.ref.dims then grow_dim depth 2 s two else two)
    else one

corner_loop : ℤ → Filter → Space → List TaskRange → RangeList → Outcome RangeList
corner_loop depth filter space [] list = done list
corner_loop depth filter space (t ∷ ts) list =
    append_range filter list t.task (corner_halo depth space t.range) t.tag 0 >>= λ list'.
    corner_loop depth filter space ts list'

-- `runCornerHaloPartitioner`
pub run_corner_halo : ℤ → Filter → Params → RangeList → Outcome RangeList
unfolding corner_loop base_of_space
run_corner_halo depth filter p list =
    base_of_space p >>= λ ts. corner_loop depth filter p.space ts list

-- The halos of `s` in dimension `d`, below and above it.
halo_dim : ℤ → ℕ → Range → Range → List Range
halo_dim depth d sp s =
    (if ltb_ℤ (at sp.from d +ℤ depth) (at s.from d)
      then record s {
        to = put_at s.to d (at s.from d);
        from = put_at s.from d (at s.from d -ℤ depth);
      }
        ∷ []
      else [])
    ++ (if ltb_ℤ (at s.to d) (at sp.to d -ℤ depth)
        then record s {
          from = put_at s.from d (at s.to d);
          to = put_at s.to d (at s.to d +ℤ depth);
        }
          ∷ []
        else [])

-- the ranges that the halo partitioner appends for `s`, in their order
pub halo_ranges : ℤ → Space → Range → List Range
unfolding halo_dim
halo_ranges depth space s =
    s
    ∷ (halo_dim depth 0 space.range s
        ++ (if ltb 1 space.ref.dims
            then halo_dim depth 1 space.range s
              ++ (if ltb 2 space.ref.dims then halo_dim depth 2 space.range s else [])
            else []))

append_ranges : Filter → ℕ → ℤ → List Range → RangeList → Outcome RangeList
append_ranges filter task tag [] list = done list
append_ranges filter task tag (r ∷ rs) list =
    append_range filter list task r tag 0 >>= λ list'. append_ranges filter task tag rs list'

halo_loop : ℤ → Filter → Space → List TaskRange → RangeList → Outcome RangeList
unfolding append_ranges
halo_loop depth filter space [] list = done list
halo_loop depth filter space (t ∷ ts) list =
    assert (ltb_ℤ (pos 0) t.tag)
    >> (append_ranges filter t.task t.tag (halo_ranges depth space t.range) list >>= λ list'.
        halo_loop depth filter space ts list')

-- `runHaloPartitioner`
pub run_halo : ℤ → Filter → Params → RangeList → Outcome RangeList
unfolding halo_loop base_of_space
run_halo depth filter p list = base_of_space p >>= λ ts. halo_loop depth filter p.space ts list
