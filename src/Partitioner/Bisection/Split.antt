-- ===== src/Partitioner/Bisection/Split.antt =====
-- The parts of a range that a split of the bisection makes.
use laik.Prelude.Int.{◌<ℤ◌, pos, ◌+ℤ◌, ◌≤ℤ◌, pos_part, ◌-ℤ◌, ℤ}
use laik.Prelude.{
  false, if◌then◌else◌, Bool, ◌||◌, ltb, not, ◌&&◌, refl, ◌∙◌, zero, true, ◌-◌, ◌≡◌, ◌+◌, arith,
  ◌≤◌, ◌<◌, ◌*◌, ℕ,
}
use laik.Space.{within_dim, within_dims, Range, at}
use laik.Space.Points.{filled, holds, contains, within}
use laik.Partitioner.Bisection.{upper, lower, suc, widest}
use laik.Partitioner.Bisection.Widths.{
  extent_at, IsSmall, widest-ge, filled-lt, width_at-extent, extent-lower, extent-upper,
}

-- A part of `s` that `n` tasks share.
pub record Part (dims scale n : ℕ) (whole s : Range) : Type 0 where
  pub same_space : s.space ≡ whole.space
  pub inside : within_dims dims s whole ≡ true
  pub full : filled dims s ≡ true
  pub small : IsSmall dims scale s
  pub wide : n ≤ (widest dims s).1

-- the interval `[f';t'[` is not empty and lies in `[f;t[`
abbrev Sub : ℤ → ℤ → ℤ → ℤ → Type 0
Sub f t f' t' = (f ≤ℤ f') × (f' <ℤ t') × (t' ≤ℤ t)

record Narrower (dims : ℕ) (s r : Range) : Type 0 where
  at0 : Sub s.from.i0 s.to.i0 r.from.i0 r.to.i0
  at1 : 1 < dims → Sub s.from.i1 s.to.i1 r.from.i1 r.to.i1
  at2 : 2 < dims → Sub s.from.i2 s.to.i2 r.from.i2 r.to.i2

within_dim-Sub :
    (f t f' t' a b : ℤ) → within_dim f t a b ≡ true → Sub f t f' t' → within_dim f' t' a b ≡ true
unfolding within_dim
within_dim-Sub f t f' t' a b h k = ground arith

within-Sub : (f t f' t' : ℤ) → Sub f t f' t' → within f' f' t' ≡ true
unfolding within
within-Sub f t f' t' k = ground arith

extent-Sub : (f t f' t' : ℤ) → Sub f t f' t' → pos_part (t' -ℤ f') ≤ pos_part (t -ℤ f)
unfolding ◌-ℤ◌
extent-Sub f t f' t' k = ground arith

mul_mono : (a b c m : ℕ) → a ≤ b → b * c < m → a * c < m
mul_mono a b c m h k = grind arith

pub within_dims_list :
    (dims : ℕ) (s r : Range)
    → 0 < dims
    → dims ≤ 3
    → within_dims dims s r ≡ (
        within_dim s.from.i0 s.to.i0 r.from.i0 r.to.i0
        && ((not (ltb 1 dims) || within_dim s.from.i1 s.to.i1 r.from.i1 r.to.i1)
            && (not (ltb 2 dims) || within_dim s.from.i2 s.to.i2 r.from.i2 r.to.i2)))
unfolding within_dims
within_dims_list zero s r p l = absurd (omega arith)
within_dims_list (suc zero) s r p l = tests (within_dim s.from.i0 s.to.i0 r.from.i0 r.to.i0)
  where
    tests : (a : Bool) → (if a then true else false) ≡ (a && (true && true))
    tests a = ground arith
within_dims_list (suc (suc zero)) s r p l =
    tests (within_dim s.from.i0 s.to.i0 r.from.i0 r.to.i0)
      (within_dim s.from.i1 s.to.i1 r.from.i1 r.to.i1)
  where
    tests :
        (a b : Bool)
        → (if a then if b then true else false else false) ≡ (a && ((false || b) && true))
    tests a b = ground arith
within_dims_list (suc (suc (suc zero))) s r p l =
    tests (within_dim s.from.i0 s.to.i0 r.from.i0 r.to.i0)
      (within_dim s.from.i1 s.to.i1 r.from.i1 r.to.i1)
      (within_dim s.from.i2 s.to.i2 r.from.i2 r.to.i2)
  where
    tests :
        (a b c : Bool)
        → (if a then if b then c else false else false) ≡ (a && ((false || b) && (false || c)))
    tests a b c = ground arith
within_dims_list (suc (suc (suc (suc n)))) s r p l = absurd (omega arith)

within_dims-Narrower :
    (dims : ℕ) (s r whole : Range)
    → Narrower dims s r
    → 0 < dims
    → dims ≤ 3
    → within_dims dims s whole ≡ true
    → within_dims dims r whole ≡ true
within_dims-Narrower dims s r whole n pd le h = ground (
  arith,
  n.at1,
  n.at2,
  within_dims_list dims s whole pd le,
  within_dims_list dims r whole pd le,
  within_dim-Sub s.from.i0 s.to.i0 r.from.i0 r.to.i0 whole.from.i0 whole.to.i0,
  within_dim-Sub s.from.i1 s.to.i1 r.from.i1 r.to.i1 whole.from.i1 whole.to.i1,
  within_dim-Sub s.from.i2 s.to.i2 r.from.i2 r.to.i2 whole.from.i2 whole.to.i2,
)

filled-Narrower : (dims : ℕ) (s r : Range) → Narrower dims s r → filled dims r ≡ true
unfolding contains holds
filled-Narrower dims s r n = ground (
  arith,
  n.at1,
  n.at2,
  within-Sub s.from.i0 s.to.i0 r.from.i0 r.to.i0,
  within-Sub s.from.i1 s.to.i1 r.from.i1 r.to.i1,
  within-Sub s.from.i2 s.to.i2 r.from.i2 r.to.i2,
)

IsSmall-Narrower :
    (dims scale : ℕ) (s r : Range) → Narrower dims s r → IsSmall dims scale s → IsSmall dims scale r
IsSmall-Narrower dims scale s r n h = record {
  small0 = mul_mono _ _ scale _ (extent-Sub _ _ _ _ n.at0) h.small0;
  small1 = λ k. mul_mono _ _ scale _ (extent-Sub _ _ _ _ (n.at1 k)) (h.small1 k);
  small2 = λ k. mul_mono _ _ scale _ (extent-Sub _ _ _ _ (n.at2 k)) (h.small2 k);
}

Sub-cut :
    (f t : ℤ) (c : ℕ)
    → 0 < c
    → c < pos_part (t -ℤ f)
    → Sub f t f (f +ℤ pos c) × Sub f t (f +ℤ pos c) t
unfolding ◌-ℤ◌ ◌+ℤ◌
Sub-cut f t c p q = ground arith

Sub-refl : (f t : ℤ) → f <ℤ t → Sub f t f t
Sub-refl f t h = (omega arith, h, omega arith)

Narrower-split :
    (dims d c : ℕ) (s : Range)
    → filled dims s ≡ true
    → d < dims
    → dims ≤ 3
    → 0 < c
    → c < extent_at d s
    → Narrower dims s (lower s d c) × Narrower dims s (upper s d c)
Narrower-split dims d c s h k l p q = by_dim d k q
  where
    same : (e : ℕ) → e < dims → Sub (at s.from e) (at s.to e) (at s.from e) (at s.to e)
    same e j = Sub-refl (at s.from e) (at s.to e) (filled-lt dims e s h j l)

    by_dim :
        (d : ℕ)
        → d < dims
        → c < extent_at d s
        → Narrower dims s (lower s d c) × Narrower dims s (upper s d c)
    by_dim zero k q =
        let (a, b) = Sub-cut s.from.i0 s.to.i0 c p q in
        (
          record { at0 = a; at1 = same 1; at2 = same 2 },
          record { at0 = b; at1 = same 1; at2 = same 2 },
        )
    by_dim (suc zero) k q =
        let (a, b) = Sub-cut s.from.i1 s.to.i1 c p q in
        let first = same 0 (omega arith) in
        (
          record { at0 = first; at1 = λ j. a; at2 = same 2 },
          record { at0 = first; at1 = λ j. b; at2 = same 2 },
        )
    by_dim (suc (suc zero)) k q =
        let (a, b) = Sub-cut s.from.i2 s.to.i2 c p q in
        let first = same 0 (omega arith) in
        (
          record { at0 = first; at1 = same 1; at2 = λ j. a },
          record { at0 = first; at1 = same 1; at2 = λ j. b },
        )
    by_dim (suc (suc (suc d))) k q = absurd (omega arith)

extent-split :
    (d c : ℕ) (s : Range)
    → d < 3
    → (extent_at d (lower s d c) ≡ c) × (extent_at d (upper s d c) ≡ extent_at d s - c)
extent-split zero c s h = (extent-lower s.from.i0 c, extent-upper s.from.i0 s.to.i0 c)
extent-split (suc zero) c s h = (extent-lower s.from.i1 c, extent-upper s.from.i1 s.to.i1 c)
extent-split (suc (suc zero)) c s h = (extent-lower s.from.i2 c, extent-upper s.from.i2 s.to.i2 c)
extent-split (suc (suc (suc d))) c s h = absurd (omega arith)

-- Both parts of a split in dimension `d` are parts for as many tasks as they are wide there.
pub Part-split :
    (dims scale n d c k j : ℕ) (whole s : Range)
    → Part dims scale n whole s
    → d < dims
    → dims ≤ 3
    → 0 < scale
    → 0 < k
    → 0 < j
    → k ≤ c
    → c + j ≤ extent_at d s
    → Part dims scale k whole (lower s d c) × Part dims scale j whole (upper s d c)
Part-split dims scale n d c k j whole s p h l sp pk pj kc cj =
    let (a, b) = Narrower-split dims d c s p.full h l (omega arith) (omega arith) in
    let (ea, eb) = extent-split d c s (omega arith) in
    (
      part k (lower s d c) a refl (omega (arith, ea)),
      part j (upper s d c) b refl (omega (arith, eb)),
    )
  where
    part :
        (m : ℕ) (r : Range)
        → Narrower dims s r
        → r.space ≡ s.space
        → m ≤ extent_at d r
        → Part dims scale m whole r
    part m r nar e w =
        let full = filled-Narrower dims s r nar in
        let small = IsSmall-Narrower dims scale s r nar p.small in
        record {
          same_space = e ∙ p.same_space;
          inside = within_dims-Narrower dims s r whole nar (omega arith) l p.inside;
          full = full;
          small = small;
          wide =
              omega (
                arith,
                w,
                widest-ge dims d r h l,
                width_at-extent dims scale d r small full sp h l,
              );
        }
