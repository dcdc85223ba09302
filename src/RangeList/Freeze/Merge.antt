-- ===== src/RangeList/Freeze/Merge.antt =====
-- `mergeSortedRanges`: the index sets of tasks and tags before and after merging.
use laik.Prelude.{
  refl, sym, inr, inl, ◌||◌, if◌then◌else◌, Bool-cases, ◌&&◌, true, done, any, [], ◌∷◌, ◌==◌, false,
  ◌≡◌, ◌∙◌, arith, List, Bool, ℕ,
}
use laik.Prelude.Int.{le→leb_ℤ, eq_ℤ, pos, leb_ℤ, ◌≤ℤ◌, ltb_ℤ, ℤ}
use laik.Prelude.Sort.{IsSorted, Below}
use laik.Space.Points.{within}
use laik.RangeList.{TaskRange}
use laik.RangeList.Freeze.{trgen_cmp, not_mergable, extend, merge_from, merge_sorted_ranges}
use laik.RangeList.Freeze.Order.{lex, trgen_cmp-lex}

-- `x` is an index of the range `t` of task `k` with tag `g`.
unfoldable pub owned : ℕ → ℤ → ℤ → TaskRange → Bool
owned k g x t = (t.task == k) && (eq_ℤ t.tag g && within x t.range.from.i0 t.range.to.i0)

-- Neighbours differ in task or tag, or have a gap between them.
abbrev pub Gap : TaskRange → List TaskRange → Type 0
Gap t [] = Unit
Gap t (u ∷ us) = not_mergable t u ≡ true

abbrev pub Separated : List TaskRange → Type 0
Separated [] = Unit
Separated (t ∷ ts) = Gap t ts × Separated ts

-- what sorting and merging read of a range
abbrev SameKey : TaskRange → TaskRange → Type 0
SameKey t u = (t.task ≡ u.task) × (t.tag ≡ u.tag) × (t.range.from.i0 ≡ u.range.from.i0)

extend-SameKey : (cur t : TaskRange) → SameKey (extend cur t) cur
extend-SameKey cur t = ground arith

SameKey-trans : (a b c : TaskRange) → SameKey a b → SameKey b c → SameKey a c
SameKey-trans a b c (p, q, r) (p', q', r') = (p ∙ p', q ∙ q', r ∙ r')

trgen_cmp-SameKey : (a b c : TaskRange) → SameKey a b → trgen_cmp a c ≡ trgen_cmp b c
unfolding trgen_cmp
trgen_cmp-SameKey a b c (p, q, r) = rw (p, q, r) refl

trgen_cmp-SameKey_right : (a b c : TaskRange) → SameKey a b → trgen_cmp c a ≡ trgen_cmp c b
unfolding trgen_cmp
trgen_cmp-SameKey_right a b c (p, q, r) = rw (p, q, r) refl

not_mergable-SameKey : (a b c : TaskRange) → SameKey a b → not_mergable c a ≡ not_mergable c b
not_mergable-SameKey a b c (p, q, r) = rw (p, q, r) refl

Below-SameKey :
    (a b : TaskRange) (ts : List TaskRange)
    → SameKey a b
    → Below trgen_cmp b ts
    → Below trgen_cmp a ts
Below-SameKey a b [] k h = tt
Below-SameKey a b (t ∷ ts) k h = (rw (trgen_cmp-SameKey a b t k) h.0, Below-SameKey a b ts k h.1)

within-extend :
    (x f t f' t' : ℤ)
    → ltb_ℤ t f' ≡ false
    → leb_ℤ f f' ≡ true
    → within x f (if ltb_ℤ t t' then t' else t) ≡ (within x f t || within x f' t')
unfolding within
within-extend x f t f' t' h k = ground arith

owned-extend :
    (k : ℕ) (g x : ℤ) (cur t : TaskRange)
    → not_mergable cur t ≡ false
    → lex cur t ≡ true
    → owned k g x (extend cur t) ≡ (owned k g x cur || owned k g x t)
unfolding owned
owned-extend k g x cur t h l =
    ground (arith, within-extend x cur.range.from.i0 cur.range.to.i0 t.range.from.i0 t.range.to.i0)

-- What the loop makes of the range `cur` and the ranges `ts` behind it.
record Merged (cur : TaskRange) (ts out : List TaskRange) : Type 0 where
  head : TaskRange
  rest : List TaskRange
  shape : out ≡ head ∷ rest
  key : SameKey head cur
  same : (k : ℕ) (g x : ℤ) → any (owned k g x) out ≡ (owned k g x cur || any (owned k g x) ts)
  apart : Separated out
  sorted : IsSorted trgen_cmp out

merge_from-apart :
    (cur t : TaskRange) (ts : List TaskRange)
    → not_mergable cur t ≡ true
    → merge_from cur (t ∷ ts) ≡ cur ∷ merge_from t ts
unfolding merge_from
merge_from-apart cur t ts e = rw (e, merge_from) refl

merge_from-join :
    (cur t : TaskRange) (ts : List TaskRange)
    → not_mergable cur t ≡ false
    → merge_from cur (t ∷ ts) ≡ merge_from (extend cur t) ts
unfolding merge_from
merge_from-join cur t ts e = rw (e, merge_from) refl

merge_from-nil : (cur : TaskRange) → merge_from cur [] ≡ cur ∷ []
unfolding merge_from
merge_from-nil cur = refl

-- A bound of everything in `cur ∷ ts` bounds what the loop makes of it.
Below-merge_from :
    (a cur : TaskRange) (ts : List TaskRange)
    → trgen_cmp a cur ≤ℤ pos 0
    → Below trgen_cmp a ts
    → Below trgen_cmp a (merge_from cur ts)
Below-merge_from a cur [] h b = rw (merge_from-nil cur) (h, tt)
Below-merge_from a cur (t ∷ ts) h b = elim (Bool-cases (not_mergable cur t)) [
  | inl e ↦ rw (merge_from-apart cur t ts e) (h, Below-merge_from a t ts b.0 b.1)
  | inr e ↦ rw (merge_from-join cur t ts e) (
      Below-merge_from a (extend cur t) ts
        (rw (trgen_cmp-SameKey_right (extend cur t) cur a (extend-SameKey cur t)) h) b.1)
]

merge_from-Merged :
    (cur : TaskRange) (ts : List TaskRange)
    → IsSorted trgen_cmp (cur ∷ ts)
    → Merged cur ts (merge_from cur ts)
merge_from-Merged cur [] s = rw (merge_from-nil cur) (record {
  head = cur;
  rest = [];
  shape = refl;
  key = (refl, refl, refl);
  same = λ k g x. refl;
  apart = (tt, tt);
  sorted = (tt, tt);
})
merge_from-Merged cur (t ∷ ts) s = elim (Bool-cases (not_mergable cur t)) [
  | inl e ↦
      let m = merge_from-Merged t ts s.1 in
      rw (merge_from-apart cur t ts e) (record {
        head = cur;
        rest = merge_from t ts;
        shape = refl;
        key = (refl, refl, refl);
        same = λ k g x. ground (arith, m.same k g x);
        apart = (
          first (merge_from t ts) m.head m.rest m.shape
              (not_mergable-SameKey m.head t cur m.key ∙ e),
          m.apart,
        );
        sorted = (Below-merge_from cur t ts s.0.0 s.0.1, m.sorted);
      })
  | inr e ↦
      let key = extend-SameKey cur t in
      let m =
        merge_from-Merged (extend cur t) ts
          (Below-SameKey (extend cur t) cur ts key s.0.1, s.1.1) in
      rw (merge_from-join cur t ts e) (record {
        head = m.head;
        rest = m.rest;
        shape = m.shape;
        key = SameKey-trans m.head (extend cur t) cur m.key key;
        same = λ k g x. ground (
          arith,
          m.same k g x,
          owned-extend k g x cur t e
              (sym (trgen_cmp-lex cur t) ∙ le→leb_ℤ (trgen_cmp cur t) (pos 0) s.0.0),
        );
        apart = m.apart;
        sorted = m.sorted;
      })
]
  where
    first :
        (out : List TaskRange) (h : TaskRange) (r : List TaskRange)
        → out ≡ h ∷ r
        → not_mergable cur h ≡ true
        → Gap cur out
    first out h r e n = rw e n

-- On a non-empty list of one-dimensional ranges that `sortRanges` has sorted, `mergeSortedRanges`
-- returns a sorted list in which every task owns, under each tag, exactly the indexes that it owned
-- before, and in which no range can be merged with the next one.
pub merge_sorted_ranges_lem :
    (t : TaskRange) (ts : List TaskRange)
    → IsSorted trgen_cmp (t ∷ ts)
    → (out : List TaskRange) × (merge_sorted_ranges 1 (t ∷ ts) ≡ done out)
      × ((k : ℕ) (g x : ℤ) → any (owned k g x) out ≡ any (owned k g x) (t ∷ ts))
      × Separated out
      × IsSorted trgen_cmp out
unfolding merge_sorted_ranges
merge_sorted_ranges_lem t ts s =
    let m = merge_from-Merged t ts s in (merge_from t ts, refl, m.same, m.apart, m.sorted)
