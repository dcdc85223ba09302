-- ===== src/Layout/Ranks.antt =====
-- The rank of an index in a range determines the index.
use laik.Prelude.Int.{ℤ, pos_part, ◌-ℤ◌, eq_of_parts}
use laik.Prelude.{
  refl, ltb→lt, ltb, false, if◌then◌else◌, ap, ap₂, Bool, ℕ, ◌+◌, ◌*◌, ◌<◌, ◌≡◌, true, arith,
}
use laik.Space.{Range, Index}
use laik.Space.Points.{contains, holds, within}
use laik.Layout.Walk.{rank, total, digit_of, span_of, span, digit_lt, pair_lt, pair_first}

-- `p` and `q` agree in the dimensions that there are.
pub record SameIndex (dims : ℕ) (p q : Index) : Type 0 where
  pub same0 : p.i0 ≡ q.i0
  pub same1 : 1 < dims → p.i1 ≡ q.i1
  pub same2 : 2 < dims → p.i2 ≡ q.i2

digit0_lt :
    (dims : ℕ) (r : Range) (p : Index)
    → contains dims p r ≡ true
    → pos_part (p.i0 -ℤ r.from.i0) < span 0 r
unfolding contains holds
digit0_lt dims r p h = ground (arith, digit_lt p.i0 r.from.i0 r.to.i0)

digit1_lt :
    (dims : ℕ) (r : Range) (p : Index)
    → contains dims p r ≡ true
    → digit_of dims 1 r p < span_of dims 1 r
unfolding contains holds
digit1_lt dims r p h = ground (arith, digit_lt p.i1 r.from.i1 r.to.i1)

digit2_lt :
    (dims : ℕ) (r : Range) (p : Index)
    → contains dims p r ≡ true
    → digit_of dims 2 r p < span_of dims 2 r
unfolding contains holds
digit2_lt dims r p h = ground (arith, digit_lt p.i2 r.from.i2 r.to.i2)

pub rank_lt :
    (dims : ℕ) (r : Range) (p : Index) → contains dims p r ≡ true → rank dims r p < total dims r
unfolding rank total
rank_lt dims r p h =
    pair_lt _ _ _ _ (digit0_lt dims r p h)
      (pair_lt _ _ _ _ (digit1_lt dims r p h) (digit2_lt dims r p h))

digit-injective :
    (x y f t : ℤ)
    → within x f t ≡ true
    → within y f t ≡ true
    → pos_part (x -ℤ f) ≡ pos_part (y -ℤ f)
    → x ≡ y
unfolding within ◌-ℤ◌
digit-injective x y f t h k e = eq_of_parts x y (ground arith)

pub rank-injective :
    (dims : ℕ) (r : Range) (p q : Index)
    → contains dims p r ≡ true
    → contains dims q r ≡ true
    → rank dims r p ≡ rank dims r q
    → SameIndex dims p q
unfolding rank contains holds
rank-injective dims r p q h k e =
    let (e0, rest) = pair_first _ _ _ _ _ (digit0_lt dims r p h) (digit0_lt dims r q k) e in
    let (e1, e2) = pair_first _ _ _ _ _ (digit1_lt dims r p h) (digit1_lt dims r q k) rest in
    record {
      same0 = digit-injective p.i0 q.i0 r.from.i0 r.to.i0 (ground arith) (ground arith) e0;
      same1 = λ l.
          digit-injective p.i1 q.i1 r.from.i1 r.to.i1 (ground arith) (ground arith)
            (ground (arith, e1));
      same2 = λ l.
          digit-injective p.i2 q.i2 r.from.i2 r.to.i2 (ground arith) (ground arith)
            (ground (arith, e2));
    }

digit_of_same :
    (b : Bool) (x y f : ℤ)
    → (b ≡ true → x ≡ y)
    → (if b then pos_part (x -ℤ f) else 0) ≡ (if b then pos_part (y -ℤ f) else 0)
digit_of_same true x y f h = ap (λ z. pos_part (z -ℤ f)) (h refl)
digit_of_same false x y f h = refl

pub rank-same :
    (dims : ℕ) (r : Range) (p q : Index) → SameIndex dims p q → rank dims r p ≡ rank dims r q
unfolding rank
rank-same dims r p q s =
    ap₂ (λ a b. a + span 0 r * b) (ap (λ z. pos_part (z -ℤ r.from.i0)) s.same0)
      (ap₂ (λ a b. a + span_of dims 1 r * b)
        (digit_of_same (ltb 1 dims) p.i1 q.i1 r.from.i1 (λ e. s.same1 (ltb→lt 1 dims e)))
        (digit_of_same (ltb 2 dims) p.i2 q.i2 r.from.i2 (λ e. s.same2 (ltb→lt 2 dims e))))

-- `f` places the indexes of `r` apart from each other.
pub record Places (dims : ℕ) (r : Range) (f : Index → ℕ) : Type 0 where
  pub same :
      (p q : Index)
      → contains dims p r ≡ true
      → contains dims q r ≡ true
      → rank dims r p ≡ rank dims r q
      → f p ≡ f q
  pub apart :
      (p q : Index)
      → contains dims p r ≡ true
      → contains dims q r ≡ true
      → f p ≡ f q
      → rank dims r p ≡ rank dims r q
