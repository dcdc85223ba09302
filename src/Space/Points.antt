-- ===== src/Space/Points.antt =====
-- The indexes that a range stands for, and how the pieces of a range cover them.
use laik.Prelude.{ℕ, Bool, not, ◌&&◌, ◌||◌, Option, none, some, ltb}
use laik.Prelude.Int.{ℤ, ltb_ℤ, leb_ℤ}
use laik.Space.{Index, Range, at}

-- `x` lies in `[from;to[`.
unfoldable pub within : ℤ → ℤ → ℤ → Bool
within x from to = leb_ℤ from x && ltb_ℤ x to

-- dimension `d` of `p` lies in that of `r`
unfoldable pub holds : ℕ → Index → Range → Bool
holds d p r = within (at p d) (at r.from d) (at r.to d)

-- The index `p` lies in `r`, in a space of `dims` dimensions.
unfoldable pub contains : ℕ → Index → Range → Bool
contains dims p r =
    holds 0 p r && ((not (ltb 1 dims) || holds 1 p r) && (not (ltb 2 dims) || holds 2 p r))

-- the same of a result that may be the null pointer
abbrev pub contains? : ℕ → Index → Option Range → Bool
contains? dims p none = Bool.false
contains? dims p (some r) = contains dims p r

-- the two intervals of dimension `d` meet, as `laik_range_intersect` tests it
abbrev pub meets : ℕ → Range → Range → Bool
meets d a b = ltb_ℤ (at a.from d) (at b.to d) && ltb_ℤ (at b.from d) (at a.to d)

abbrev pub meets_all : ℕ → Range → Range → Bool
meets_all dims a b =
    meets 0 a b && ((not (ltb 1 dims) || meets 1 a b) && (not (ltb 2 dims) || meets 2 a b))

-- A range of `dims` dimensions that has an index.
abbrev pub filled : ℕ → Range → Bool
filled dims r = contains dims r.from r
