-- ===== src/RangeList/Cover.antt =====
-- `laik_rangelist_coversSpace` of src/rangelist.c: the ranges that are not covered yet, from which
-- the ranges of the list are subtracted one by one.
pub mod Subtract
pub mod Filled
pub mod Count
pub mod Exact
pub mod Room
pub mod Whole
pub mod Tests
use laik.Prelude.{
  ℕ, zero, suc, ◌+◌, ◌≤◌, ◌≡◌, Bool, true, false, Option, none, some, List, [], ◌∷◌, ◌++◌, map,
  length, ltb, if◌then◌else◌, Outcome, done, aborted, ◌>>=◌, ◌>>◌, assert,
}
use laik.Prelude.Sort.{QSort}
use laik.Prelude.Int.{ℤ, pos, negsuc, ltb_ℤ, eq_ℤ}
use laik.Space.{Range, at, put_at, range_intersect}
use laik.RangeList.{TaskRange, RangeList}

-- COVERLIST_MAX
abbrev pub coverlist_max : ℕ
coverlist_max = 100

-- `appendToNotcovered`, where `base` old ranges stand before the appended ones
pub append_uncovered : ℕ → List Range → Range → Outcome (List Range)
append_uncovered base appended s = do
  assert (ltb (base + length appended) coverlist_max)
  done (appended ++ (s ∷ []))

pub append_all : ℕ → List Range → List Range → Outcome (List Range)
unfolding append_uncovered
append_all base appended [] = done appended
append_all base appended (s ∷ ss) =
    append_uncovered base appended s >>= λ appended'. append_all base appended' ss

-- The part of `orig` before `to_remove` in dimension `d`, and what is left of `orig`.
unfoldable pub cut_before : ℕ → Range → Range → List Range × Range
cut_before d to_remove orig =
    if ltb_ℤ (at orig.from d) (at to_remove.from d)
    then (
      record orig { to = put_at orig.to d (at to_remove.from d) } ∷ [],
      record orig { from = put_at orig.from d (at to_remove.from d) },
    )
    else ([], orig)

-- The part of `orig` after `to_remove` in dimension `d`, and what is left of `orig`.
unfoldable pub cut_after : ℕ → Range → Range → List Range × Range
cut_after d to_remove orig =
    if ltb_ℤ (at to_remove.to d) (at orig.to d)
    then (
      record orig { from = put_at orig.from d (at to_remove.to d) } ∷ [],
      record orig { to = put_at orig.to d (at to_remove.to d) },
    )
    else ([], orig)

-- The loop over the dimensions: `n` are left, `d` is the next.
pub subtract_from : ℕ → ℕ → Range → Range → List Range
subtract_from zero d to_remove orig = []
subtract_from (suc n) d to_remove orig =
    let before = cut_before d to_remove orig in
    let after = cut_after d to_remove before.1 in
    before.0 ++ (after.0 ++ subtract_from n (suc d) to_remove after.1)

-- what the visit of one uncovered range appends
pub visit : ℕ → Range → Range → Range → Outcome (List Range)
visit dims buf to_remove orig = do
  meet ← range_intersect buf orig to_remove
  done (elim meet [ none ↦ orig ∷ [] | some r ↦ subtract_from dims 0 to_remove orig ])

-- the visits of all `base` uncovered ranges
pub visit_all : ℕ → Range → ℕ → Range → List Range → List Range → Outcome (List Range)
unfolding append_all
visit_all dims buf base to_remove appended [] = done appended
visit_all dims buf base to_remove appended (orig ∷ rest) =
    visit dims buf to_remove orig >>= λ pieces. append_all base appended pieces >>= λ appended'.
    visit_all dims buf base to_remove appended' rest

-- the loop over the ranges of the list, with the ranges that are not covered yet
pub remove_all : ℕ → Range → List Range → List Range → Outcome (List Range)
remove_all dims buf notcovered [] = done notcovered
remove_all dims buf notcovered (r ∷ rs) =
    visit_all dims buf (length notcovered) r [] notcovered >>= λ left. elim left [
      | [] ↦ done []
      | s ∷ ss ↦ remove_all dims buf (s ∷ ss) rs
    ]

-- `trgen_cmpfrom`
abbrev pub cmp_from : TaskRange → TaskRange → ℤ
cmp_from t u =
    if ltb_ℤ u.range.from.i0 t.range.from.i0
    then pos 1
    else if eq_ℤ t.range.from.i0 u.range.from.i0
    then pos 0
    else negsuc 0

abbrev pub range_of : TaskRange → Range
range_of t = t.range

abbrev pub is_nil : List Range → Bool
is_nil [] = true
is_nil (r ∷ rs) = false

-- `laik_rangelist_coversSpace`; `buf` is what the static result of `laik_range_intersect` holds.
module _ (q : QSort) where
  pub covers_space : Range → RangeList → Outcome Bool
  unfolding append_uncovered
  covers_space buf list = do
    start ← append_uncovered 0 [] list.space.range
    let sorted = q.sort TaskRange cmp_from list.trange
    left ← remove_all list.space.ref.dims buf start (map range_of sorted)
    done (is_nil left)
