-- ===== src/RangeList/Cover/Count.antt =====
-- The number of the pieces that the visit of one uncovered range leaves in one dimension.
use laik.Prelude.{
  ℕ, ◌+◌, ◌≤◌, ◌≡◌, true, bit, countp, length, length-append, countp-append, ◌++◌, [], ◌∷◌, List,
  arith, subst, sym,
}
use laik.Space.{Index, Range}
use laik.Space.Points.{within, holds, contains, meets, meets_all, filled}
use laik.RangeList.Cover.{cut_before, cut_after, subtract_from}

-- Removing `rm` cuts one of the ranges `before` at most, the one with the start of `rm`, in two:
-- the ranges `ps` are left, and no index lies in more of them than before.
pub record Counted (dims : ℕ) (rm : Range) (before ps : List Range) : Type 0 where
  pub once : (x : Index) → countp (contains dims x) ps ≤ countp (contains dims x) before
  pub one_more : length ps ≤ length before + countp (contains dims rm.from) before

subtract-once :
    (x : Index) (rm o : Range)
    → meets 0 o rm ≡ true
    → filled 1 rm ≡ true
    → countp (contains 1 x) (subtract_from 1 0 rm o) ≤ bit (contains 1 x o) + 0
unfolding subtract_from cut_before cut_after contains holds within
subtract-once x rm o m f = ground arith

subtract-one_more :
    (rm o : Range)
    → meets 0 o rm ≡ true
    → length (subtract_from 1 0 rm o) ≤ 1 + (bit (contains 1 rm.from o) + 0)
unfolding subtract_from cut_before cut_after contains holds within
subtract-one_more rm o m = ground arith

in_line :
    (rm o : Range)
    → meets_all 1 o rm ≡ true
    → filled 1 rm ≡ true
    → Counted 1 rm (o ∷ []) (subtract_from 1 0 rm o)
in_line rm o m f = record {
  once = λ x. subtract-once x rm o (ground arith) f;
  one_more = subtract-one_more rm o (ground arith);
}

pub subtract_from-Counted :
    (dims : ℕ) (rm o : Range)
    → dims ≡ 1
    → meets_all dims o rm ≡ true
    → filled dims rm ≡ true
    → Counted dims rm (o ∷ []) (subtract_from dims 0 rm o)
subtract_from-Counted dims rm o e =
    subst
      (λ k.
        meets_all k o rm ≡ true
        → filled k rm ≡ true
        → Counted k rm (o ∷ []) (subtract_from k 0 rm o))
      (sym e) (in_line rm o)

pub kept-Counted : (dims : ℕ) (rm : Range) (before : List Range) → Counted dims rm before before
kept-Counted dims rm before = record { once = λ x. omega arith; one_more = omega arith }

pub Counted-append :
    (dims : ℕ) (rm o : Range) (rest ps qs : List Range)
    → Counted dims rm (o ∷ []) ps
    → Counted dims rm rest qs
    → Counted dims rm (o ∷ rest) (ps ++ qs)
Counted-append dims rm o rest ps qs a b = record {
  once = λ x. omega (arith, countp-append (contains dims x) ps qs, a.once x, b.once x);
  one_more = omega (arith, length-append ps qs, a.one_more, b.one_more);
}
