-- ===== src/RangeList/Freeze/Whole.antt =====
-- `laik_rangelist_freeze` with merging as a whole, for one-dimensional ranges.
use laik.Prelude.Sort.{IsSorted, QSort}
use laik.Prelude.Int.{ℤ}
use laik.Prelude.{
  false, refl, any-perm, some, ap, ◌∙◌, All-perm, subst, length-perm, any-map, true, sym,
  done-injective, none, done, any, ◌≡◌, map, length, arith, [], ◌∷◌, All, ◌<◌, List, ℕ,
}
use mathlib.Core.List.Perm
use native.Mathlib.Bridge.{le_prop}
use laik.Space.{Range}
use laik.RangeList.{TaskRange, RangeList}
use laik.RangeList.Freeze.{
  extend, trgen_cmp, merge_from, merge_sorted_ranges, freeze, freeze_gen, sort_ranges,
}
use laik.RangeList.Freeze.Order.{trgen_cmp-IsOrder}
use laik.RangeList.Freeze.Merge.{owned, Separated, merge_sorted_ranges_lem}
use laik.RangeList.Freeze.Offsets.{unnumbered, IsSorted-ByTask, update_offsets_lem}
use laik.RangeList.Queries.Slots.{IsFrozen}

-- Merging gives a range a new end, and keeps its task.
merge_from-tasks :
    (n : ℕ) (cur : TaskRange) (ts : List TaskRange)
    → cur.task < n
    → All (λ t. t.task < n) ts
    → All (λ t. t.task < n) (merge_from cur ts)
unfolding merge_from
merge_from-tasks n cur [] h k = (h, tt)
merge_from-tasks n cur (t ∷ ts) h k = ground (
  arith,
  merge_from-tasks n t ts k.0 k.1,
  merge_from-tasks n (extend cur t) ts (ground arith) k.1,
)

-- the merge of a sorted list, without its first range set apart
merged :
    (n : ℕ) (ts : List TaskRange)
    → 0 < length ts
    → IsSorted trgen_cmp ts
    → All (λ t. t.task < n) ts
    → (out : List TaskRange) × (merge_sorted_ranges 1 ts ≡ done out)
      × ((k : ℕ) (g x : ℤ) → any (owned k g x) out ≡ any (owned k g x) ts)
      × Separated out
      × IsSorted trgen_cmp out
      × All (λ t. t.task < n) out
unfolding merge_sorted_ranges
merged n [] h s a = absurd (omega arith)
merged n (t ∷ ts) h s a =
    let (out, e, m, p, o) = merge_sorted_ranges_lem t ts s in
    let eq : merge_from t ts ≡ out = done-injective e in
    (out, e, m, p, o, subst (All (λ u. u.task < n)) eq (merge_from-tasks n t ts a.0 a.1))

any-unnumbered :
    (k : ℕ) (g x : ℤ) (ts us : List TaskRange)
    → map unnumbered ts ≡ map unnumbered us
    → any (owned k g x) ts ≡ any (owned k g x) us
unfolding owned
any-unnumbered k g x ts us e =
    sym (any-map (owned k g x) unnumbered ts)
    ∙ ap (any (owned k g x)) e
    ∙ any-map (owned k g x) unnumbered us

-- A list that is not frozen yet, with at least one range, all generic, one-dimensional and of tasks
-- below `tid_count`, is frozen with merging: the function returns a list whose offsets delimit the
-- ranges of each task, and in which every task owns, under each tag, exactly the indexes that it
-- owned before.
pub freeze_lem :
    (q : QSort) (junk : Range) (list : RangeList)
    → list.off ≡ none
    → list.tss1d ≡ []
    → list.space.ref.dims ≡ 1
    → 0 < length list.trange
    → All (λ t. t.task < list.tid_count) list.trange
    → (out : RangeList) × (offs : List ℕ) × (freeze q junk true list ≡ done out)
      × IsFrozen out offs
      × ((k : ℕ) (g x : ℤ) → any (owned k g x) out.trange ≡ any (owned k g x) list.trange)
unfolding freeze freeze_gen sort_ranges
freeze_lem q junk list no_off no_tss dims full below =
    let sorted = q.sort TaskRange trgen_cmp list.trange in
    let perm = q.sort-perm TaskRange trgen_cmp list.trange in
    let (ms, em, same_m, apart, sm, tm) =
      merged list.tid_count sorted (rw (length-perm perm) full)
        (q.sort-IsSorted TaskRange trgen_cmp list.trange trgen_cmp-IsOrder)
        (All-perm (λ (t : TaskRange). t.task < list.tid_count) (λ t. le_prop) (Perm.symm perm)
          below) in
    let (offs, out, eo, count, same_o, holds_i, in_slot) =
      update_offsets_lem list.tid_count ms (IsSorted-ByTask ms sm) tm in
    (
      record list { off = some offs; trange = out; tss1d = [] },
      offs,
      ground (arith, eo),
      record { has_off = refl; count = count; slot_of = holds_i; in_slot = in_slot },
      λ k g x. any-unnumbered k g x out ms same_o ∙ same_m k g x ∙ any-perm (owned k g x) perm,
    )

-- Freezing without merging: the ranges stay, in any dimension, but for their order and numbers.
pub freeze_plain :
    (q : QSort) (junk : Range) (list : RangeList)
    → list.off ≡ none
    → list.tss1d ≡ []
    → All (λ t. t.task < list.tid_count) list.trange
    → (out : RangeList) × (offs : List ℕ) × (freeze q junk false list ≡ done out)
      × IsFrozen out offs
      × (map unnumbered out.trange ≡ map unnumbered (q.sort TaskRange trgen_cmp list.trange))
      × (out.space ≡ list.space)
unfolding freeze freeze_gen sort_ranges
freeze_plain q junk list no_off no_tss below =
    let sorted = q.sort TaskRange trgen_cmp list.trange in
    let perm = q.sort-perm TaskRange trgen_cmp list.trange in
    let ordered = q.sort-IsSorted TaskRange trgen_cmp list.trange trgen_cmp-IsOrder in
    let (offs, out, eo, count, same_o, holds_i, in_slot) =
      update_offsets_lem list.tid_count sorted (IsSorted-ByTask sorted ordered) (
        All-perm (λ (t : TaskRange). t.task < list.tid_count) (λ t. le_prop) (Perm.symm perm)
          below) in
    (
      record list { off = some offs; trange = out; tss1d = [] },
      offs,
      ground (arith, eo),
      record { has_off = refl; count = count; slot_of = holds_i; in_slot = in_slot },
      same_o,
      refl,
    )
