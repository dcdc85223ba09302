-- ===== src/RangeList/Freeze/Order.antt =====
-- The comparison functions of src/rangelist.c as orders.
use laik.Prelude.{◌<◌, ◌^◌, ◌&&◌, ◌==◌, ◌||◌, sym, ◌∙◌, ltb, true, Bool, ◌⊎◌, ◌≤◌, ◌≡◌, arith}
use laik.Prelude.Int.{
  ℤ, negsuc, sub_ℕ, pos_part, neg_part, to_int32, ◌<ℤ◌, eq_ℤ, ltb_ℤ, le→leb_ℤ, leb_ℤ→le, leb_ℤ, pos,
  ◌≤ℤ◌, ◌-ℤ◌,
}
use laik.Prelude.Sort.{IsOrder}
use laik.RangeList.{TaskRange, Single}
use laik.RangeList.Freeze.{trgen_cmp, trgen_cmp_int, tss1d_cmp}

trgen_cmp_total : (t u : TaskRange) → (trgen_cmp t u ≤ℤ pos 0) ⊎ (trgen_cmp u t ≤ℤ pos 0)
unfolding trgen_cmp ◌-ℤ◌
trgen_cmp_total t u = ground arith

-- the lexicographic order that `trgen_cmp` decides
abbrev pub lex : TaskRange → TaskRange → Bool
lex t u =
    ltb t.task u.task
    || ((t.task == u.task)
        && (ltb_ℤ t.tag u.tag || (eq_ℤ t.tag u.tag && leb_ℤ t.range.from.i0 u.range.from.i0)))

pub trgen_cmp-lex : (t u : TaskRange) → leb_ℤ (trgen_cmp t u) (pos 0) ≡ lex t u
unfolding trgen_cmp ◌-ℤ◌
trgen_cmp-lex t u = ground arith

lex_trans : (t u v : TaskRange) → lex t u ≡ true → lex u v ≡ true → lex t v ≡ true
lex_trans t u v h k = ground arith

trgen_cmp_trans :
    (t u v : TaskRange) → trgen_cmp t u ≤ℤ pos 0 → trgen_cmp u v ≤ℤ pos 0 → trgen_cmp t v ≤ℤ pos 0
trgen_cmp_trans t u v h k = leb_ℤ→le (trgen_cmp t v) (pos 0) (
    trgen_cmp-lex t v
    ∙ lex_trans t u v (sym (trgen_cmp-lex t u) ∙ le→leb_ℤ (trgen_cmp t u) (pos 0) h)
        (sym (trgen_cmp-lex u v) ∙ le→leb_ℤ (trgen_cmp u v) (pos 0) k))

-- What `trgen_cmp` says of two ranges in order.
pub trgen_cmp_task : (t u : TaskRange) → trgen_cmp t u ≤ℤ pos 0 → t.task ≤ u.task
unfolding trgen_cmp
trgen_cmp_task t u h = ground arith

pub trgen_cmp_from :
    (t u : TaskRange)
    → trgen_cmp t u ≤ℤ pos 0
    → t.task ≡ u.task
    → t.tag ≡ u.tag
    → t.range.from.i0 ≤ℤ u.range.from.i0
unfolding trgen_cmp
trgen_cmp_from t u h e e' = ground arith

pub trgen_cmp-IsOrder : IsOrder trgen_cmp
trgen_cmp-IsOrder = record { total = trgen_cmp_total; trans = trgen_cmp_trans }

-- The task is an `int`, and the tag is one that is not negative.
pub record HasInts (t : TaskRange) : Type 0 where
  pub task_lt : t.task < 2 ^ 31
  pub tag_ge : pos 0 ≤ℤ t.tag
  pub tag_lt : t.tag <ℤ pos (2 ^ 31)

to_int32_small : (z : ℤ) → pos_part z < 2 ^ 31 → neg_part z < 2 ^ 31 → to_int32 z ≡ z
to_int32_small (pos n) h k = ground arith
to_int32_small (negsuc n) h k = ground arith

trgen_cmp_int_same : (t u : TaskRange) → HasInts t → HasInts u → trgen_cmp_int t u ≡ trgen_cmp t u
unfolding trgen_cmp_int trgen_cmp ◌-ℤ◌
trgen_cmp_int_same t u h k = ground (
  arith,
  to_int32_small (t.tag -ℤ u.tag) (ground arith) (ground arith),
  to_int32_small (sub_ℕ t.task u.task) (ground arith) (ground arith),
)

-- For ranges whose tasks and tags are from 0 to 2^31 - 1, `trgen_cmp` with the wrap-around of `int`
-- is total and transitive, as `qsort` requires, and equal to the comparison on integers by which
-- the ranges are sorted here.
pub trgen_cmp_int-IsOrder :
    (t u v : TaskRange)
    → HasInts t
    → HasInts u
    → HasInts v
    → ((trgen_cmp_int t u ≤ℤ pos 0) ⊎ (trgen_cmp_int u t ≤ℤ pos 0))
      × (trgen_cmp_int t u ≤ℤ pos 0 → trgen_cmp_int u v ≤ℤ pos 0 → trgen_cmp_int t v ≤ℤ pos 0)
      × (trgen_cmp_int t u ≡ trgen_cmp t u)
trgen_cmp_int-IsOrder t u v ht hu hv = (
  rw (trgen_cmp_int_same t u ht hu, trgen_cmp_int_same u t hu ht) (trgen_cmp_total t u),
  rw (trgen_cmp_int_same t u ht hu, trgen_cmp_int_same u v hu hv, trgen_cmp_int_same t v ht hv)
      (trgen_cmp_trans t u v),
  trgen_cmp_int_same t u ht hu,
)

tss1d_cmp_total : (t u : Single) → (tss1d_cmp t u ≤ℤ pos 0) ⊎ (tss1d_cmp u t ≤ℤ pos 0)
unfolding tss1d_cmp
tss1d_cmp_total t u = ground arith

tss1d_cmp_trans :
    (t u v : Single) → tss1d_cmp t u ≤ℤ pos 0 → tss1d_cmp u v ≤ℤ pos 0 → tss1d_cmp t v ≤ℤ pos 0
unfolding tss1d_cmp
tss1d_cmp_trans t u v h k = ground arith

pub tss1d_cmp-IsOrder : IsOrder tss1d_cmp
tss1d_cmp-IsOrder = record { total = tss1d_cmp_total; trans = tss1d_cmp_trans }
