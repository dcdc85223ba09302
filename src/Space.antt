-- ===== src/Space.antt =====
-- src/space.c and include/laik/space.h: index spaces, indexes and ranges.
-- An `int64_t` is an integer; arithmetic on it stays in range in the source (overflow is undefined
-- there). A pointer to a space is its identity with the `dims` that is read through it.
pub mod Points
pub mod Intersect
pub mod Compare
pub mod Expand
pub mod Tests
use laik.Prelude.{
  ℕ, zero, suc, ◌+◌, ◌-◌, ◌*◌, ◌%◌, ◌^◌, Bool, true, false, not, ◌&&◌, ◌||◌, Option, none, some,
  ltb, ◌==◌, if◌then◌else◌, Outcome, done, aborted, ◌>>=◌, ◌>>◌, assert,
}
use laik.Prelude.Int.{ℤ, pos, pos_part, ◌+ℤ◌, ◌-ℤ◌, ltb_ℤ, leb_ℤ, eq_ℤ}

-- a `Laik_Space*`
pub record SpaceRef : Type 0 where
  pub id : ℕ
  pub dims : ℕ

pub record Index : Type 0 where
  pub i0 : ℤ
  pub i1 : ℤ
  pub i2 : ℤ

-- `space` is `none` for a null pointer, which makes the range invalid.
pub record Range : Type 0 where
  pub space : Option SpaceRef
  pub from : Index
  pub to : Index

pub record Space : Type 0 where
  pub ref : SpaceRef
  pub range : Range

-- comparison of two space pointers
abbrev pub eq_ref : SpaceRef → SpaceRef → Bool
eq_ref s t = s.id == t.id

abbrev pub index_init : ℤ → ℤ → ℤ → Index
index_init a b c = record { i0 = a; i1 = b; i2 = c }

-- `i[d]`, read and written; `d` is below 3.
abbrev pub at : Index → ℕ → ℤ
at x zero = x.i0
at x (suc zero) = x.i1
at x (suc (suc d)) = x.i2

abbrev pub put_at : Index → ℕ → ℤ → Index
put_at x zero v = record x { i0 = v }
put_at x (suc zero) v = record x { i1 = v }
put_at x (suc (suc d)) v = record x { i2 = v }

unfoldable pub add_index : Index → Index → Index
add_index a b = index_init (a.i0 +ℤ b.i0) (a.i1 +ℤ b.i1) (a.i2 +ℤ b.i2)

unfoldable pub sub_index : Index → Index → Index
sub_index a b = index_init (a.i0 -ℤ b.i0) (a.i1 -ℤ b.i1) (a.i2 -ℤ b.i2)

unfoldable pub index_is_equal : ℕ → Index → Index → Bool
index_is_equal dims a b =
    if not (eq_ℤ a.i0 b.i0)
    then false
    else if dims == 1
    then true
    else if not (eq_ℤ a.i1 b.i1)
    then false
    else if dims == 2
    then true
    else if not (eq_ℤ a.i2 b.i2)
    then false
    else true

unfoldable pub range_is_empty : Range → Bool
range_is_empty r = elim r.space [
  | none ↦ true
  | some s ↦
      if leb_ℤ r.to.i0 r.from.i0
      then true
      else if ltb 1 s.dims
      then (if leb_ℤ r.to.i1 r.from.i1
          then true
          else if ltb 2 s.dims
          then (if leb_ℤ r.to.i2 r.from.i2 then true else false)
          else false)
      else false
]

-- The start and the end of the intersection of two intervals, if they meet.
unfoldable pub intersect_range : ℤ → ℤ → ℤ → ℤ → Option (ℤ × ℤ)
intersect_range from1 to1 from2 to2 =
    if leb_ℤ to2 from1
    then none
    else if leb_ℤ to1 from2
    then none
    else some (if ltb_ℤ from2 from1 then from1 else from2, if ltb_ℤ to2 to1 then to2 else to1)

-- What the static result `r` holds after the write of dimension `d`.
abbrev put_range : Range → ℕ → ℤ × ℤ → Range
put_range r d (f, t) = record r { from = put_at r.from d f; to = put_at r.to d t }

unfoldable pub intersect_dim : ℕ → Range → Range → Range → Option Range
intersect_dim d r r1 r2 =
    elim (intersect_range (at r1.from d) (at r1.to d) (at r2.from d) (at r2.to d)) [
      | none ↦ none
      | some ft ↦ some (put_range r d ft)
    ]

-- `buf` is what the static result holds before the call; dimensions that the space does not have
-- keep what they held. The inner `none` is the null pointer for an empty intersection.
unfoldable pub intersect_dims : ℕ → Range → Range → Range → Option Range
intersect_dims dims r r1 r2 = elim (intersect_dim 0 r r1 r2) [
  | none ↦ none
  | some ra ↦
      if ltb 1 dims
      then elim (intersect_dim 1 ra r1 r2) [
        | none ↦ none
        | some rb ↦ if ltb 2 dims then intersect_dim 2 rb r1 r2 else some rb
      ]
      else some ra
]

unfoldable pub range_intersect : Range → Range → Range → Outcome (Option Range)
range_intersect buf r1 r2 = elim r1.space [
  | none ↦ done (some (record buf { space = none }))
  | some s1 ↦ elim r2.space [
    | none ↦ done (some (record buf { space = none }))
    | some s2 ↦ do
      assert (eq_ref s1 s2)
      done (intersect_dims s1.dims (record buf { space = some s1 }) r1 r2)
  ]
]

-- one dimension of `laik_range_expand`
expand_dim : ℕ → Range → Range → Range
expand_dim d dst src = record dst {
  from =
      if ltb_ℤ (at src.from d) (at dst.from d) then put_at dst.from d (at src.from d) else dst.from;
  to = if ltb_ℤ (at dst.to d) (at src.to d) then put_at dst.to d (at src.to d) else dst.to;
}

pub expand_dims : ℕ → Range → Range → Range
unfolding expand_dim
expand_dims dims dst src =
    let one = expand_dim 0 dst src in
    if dims == 1
    then one
    else (let two = expand_dim 1 one src in if dims == 2 then two else expand_dim 2 two src)

pub range_expand : Range → Range → Outcome Range
range_expand dst src = elim dst.space [
  | none ↦ done dst
  | some d ↦ elim src.space [
    | none ↦ aborted
    | some s ↦ do assert (eq_ref s d); done (expand_dims s.dims dst src)
  ]
]

-- one dimension of `laik_range_within_range`: an empty extent is within any other
unfoldable pub within_dim : ℤ → ℤ → ℤ → ℤ → Bool
within_dim from1 to1 from2 to2 =
    if ltb_ℤ from1 to1
    then (if ltb_ℤ from1 from2 then false else if ltb_ℤ to2 to1 then false else true)
    else true

unfoldable pub within_dims : ℕ → Range → Range → Bool
unfolding within_dim
within_dims dims r1 r2 =
    if within_dim r1.from.i0 r1.to.i0 r2.from.i0 r2.to.i0
    then (if dims == 1
        then true
        else if within_dim r1.from.i1 r1.to.i1 r2.from.i1 r2.to.i1
        then (if dims == 2 then true else within_dim r1.from.i2 r1.to.i2 r2.from.i2 r2.to.i2)
        else false)
    else false

unfoldable pub range_within_range : Range → Range → Outcome Bool
unfolding within_dims
range_within_range r1 r2 = elim r1.space [
  | none ↦ done false
  | some s1 ↦ elim r2.space [
    | none ↦ done false
    | some s2 ↦ do assert (eq_ref s1 s2); done (within_dims s1.dims r1 r2)
  ]
]

unfoldable pub range_within_space : Range → Space → Outcome Bool
range_within_space r sp = range_within_range r sp.range

pub range_is_equal : Range → Range → Bool
unfolding index_is_equal
range_is_equal r1 r2 = elim r1.space [
  | none ↦ false
  | some s1 ↦ elim r2.space [
    | none ↦ false
    | some s2 ↦
        if not (eq_ref s1 s2)
        then false
        else if not (index_is_equal s1.dims r1.from r2.from)
        then false
        else if not (index_is_equal s1.dims r1.to r2.to)
        then false
        else true
  ]
]

-- `(uint64_t)(to - from)`, which the source computes only for `from <= to`
abbrev pub extent : ℤ → ℤ → ℕ
extent from to = pos_part (to -ℤ from) % 2 ^ 64

abbrev pub mul64 : ℕ → ℕ → ℕ
mul64 a b = a * b % 2 ^ 64

unfoldable pub size_dims : ℕ → Index → Index → Outcome ℕ
size_dims dims from to = do
  assert (leb_ℤ from.i0 to.i0)
  let size0 = extent from.i0 to.i0
  (if ltb 1 dims
      then assert (leb_ℤ from.i1 to.i1)
        >> (let size1 = mul64 size0 (extent from.i1 to.i1) in
            if ltb 2 dims
            then assert (leb_ℤ from.i2 to.i2) >> done (mul64 size1 (extent from.i2 to.i2))
            else done size1)
      else done size0)

unfoldable pub range_size : Range → Outcome ℕ
unfolding size_dims
range_size r = elim r.space [ none ↦ done 0 | some s ↦ size_dims s.dims r.from r.to ]

unfoldable pub space_size : Space → Outcome ℕ
unfolding range_size
space_size s = range_size s.range

abbrev pub space_as_range : Space → Range
space_as_range s = s.range

-- `laik_range_init_1d`, `_2d` and `_3d`: dimensions beyond keep what `r` holds.
unfoldable pub range_init_1d : Range → SpaceRef → ℤ → ℤ → Outcome Range
range_init_1d r s from to = do
  assert (s.dims == 1)
  done (record { space = some s; from = put_at r.from 0 from; to = put_at r.to 0 to })

unfoldable pub range_init_2d : Range → SpaceRef → ℤ → ℤ → ℤ → ℤ → Outcome Range
range_init_2d r s from1 to1 from2 to2 = do
  assert (s.dims == 2)
  done (record {
    space = some s;
    from = put_at (put_at r.from 0 from1) 1 from2;
    to = put_at (put_at r.to 0 to1) 1 to2;
  })

unfoldable pub range_init_3d : SpaceRef → ℤ → ℤ → ℤ → ℤ → ℤ → ℤ → Outcome Range
range_init_3d s from1 to1 from2 to2 from3 to3 = do
  assert (s.dims == 3)
  done (record { space = some s; from = index_init from1 from2 from3; to = index_init to1 to2 to3 })
