-- ===== src/Partitioner/Bisection.antt =====
-- The bisection partitioner of src/partitioner.c.
use laik.Prelude.Int.{neg_part, pos_part, pos, ◌-ℤ◌, ◌+ℤ◌, ℤ}
use laik.Prelude.{
  zero, suc, ◌==◌, ◌>>◌, ◌%◌, assert, ◌^◌, ◌>>=◌, ◌-◌, ◌/◌, ltb, ◌+◌, if◌then◌else◌, aborted, ℕ,
  Outcome,
}
pub mod Widths
pub mod Split
pub mod Tiling
pub mod Whole
use laik.Space.{Range, Space, at, put_at, mul64}
use laik.RangeList.{RangeList}
use laik.Partitioner.{Filter, Params, append_range}

-- the conversion of an `int64_t` difference to `uint64_t`
unfoldable pub width_of : ℤ → ℤ → ℕ
width_of from to = let d = to -ℤ from in (pos_part d + 2 ^ 64 - neg_part d % 2 ^ 64) % 2 ^ 64

abbrev pub width_at : ℕ → Range → ℕ
width_at d s = width_of (at s.from d) (at s.to d)

-- The dimension with the largest width, and that width.
unfoldable pub widest : ℕ → Range → ℕ × ℕ
widest dims s =
    let first : ℕ × ℕ = (0, width_at 0 s) in
    if ltb 1 dims
    then (let second : ℕ × ℕ = if ltb first.1 (width_at 1 s) then (1, width_at 1 s) else first in
        if ltb 2 dims
        then (if ltb second.1 (width_at 2 s) then (2, width_at 2 s) else second)
        else second)
    else first

-- where the recursion splits `s` for the tasks in `[from;to[`
abbrev pub cut_width : ℕ → ℕ → ℕ → ℕ
cut_width width from to = mul64 width ((from + to) / 2 - from) / (to - from)

abbrev pub lower : Range → ℕ → ℕ → Range
lower s d w = record s { to = put_at s.to d (at s.from d +ℤ pos w) }

abbrev pub upper : Range → ℕ → ℕ → Range
upper s d w = record s { from = put_at s.from d (at s.from d +ℤ pos w) }

-- `doBisection`, with fuel: each call has fewer tasks.
unfoldable pub do_bisection : ℕ → Filter → Space → Range → ℕ → ℕ → RangeList → Outcome RangeList
do_bisection zero filter space s from to list = aborted
do_bisection (suc n) filter space s from to list =
    let w = widest space.ref.dims s in
    let mid = (from + to) / 2 in
    let cut = cut_width w.1 from to in
    let deeper = do_bisection n filter space (lower s w.0 cut) from mid list >>= λ list'.
    do_bisection n filter space (upper s w.0 cut) mid to list' in
    assert (ltb from to)
    >> (if to - from == 1
        then append_range filter list from s (pos 1) 0
        else assert (ltb 0 w.1)
          >> (if w.1 == 1 then append_range filter list from s (pos 1) 0 else deeper))

-- `runBisectionPartitioner`
unfoldable pub run_bisection : Filter → Params → RangeList → Outcome RangeList
unfolding do_bisection
run_bisection filter p list =
    do_bisection (p.group.size + 1) filter p.space p.space.range 0 p.group.size list
