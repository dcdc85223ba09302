-- ===== src/Layout/Walk.antt =====
-- `next_lex` of src/layout.c: the walk over the indexes of a range, and the rank of an index in it.
use native.Mathlib.Nat.{div-eq_of_lt, add-mul-div_left, mod-eq_of_lt, add-mul-mod_self_left}
use laik.Prelude.Int.{ℤ, pos, pos_part, ◌+ℤ◌, ◌-ℤ◌, ltb_ℤ}
use laik.Prelude.{
  refl, ap, ◌∙◌, ◌/◌, ◌%◌, sym, ℕ, zero, suc, ◌+◌, ◌*◌, ◌<◌, ◌≤◌, ◌≡◌, Bool, true, false, ltb, ◌==◌,
  if◌then◌else◌, arith,
}
use laik.Space.{Range, Index, at, put_at}
use laik.Space.Points.{contains, holds, within}

-- `next_lex`: whether there is a next index, and what `idx` holds afterwards.
unfoldable pub next_lex : ℕ → Range → Index → Bool × Index
next_lex dims r idx =
    let one = put_at idx 0 (idx.i0 +ℤ pos 1) in
    if ltb_ℤ one.i0 r.to.i0
    then (true, one)
    else if dims == 1
    then (false, one)
    else (let two = put_at (put_at one 1 (one.i1 +ℤ pos 1)) 0 r.from.i0 in
        if ltb_ℤ two.i1 r.to.i1
        then (true, two)
        else if dims == 2
        then (false, two)
        else (let three = put_at (put_at two 2 (two.i2 +ℤ pos 1)) 1 r.from.i1 in
            if ltb_ℤ three.i2 r.to.i2 then (true, three) else (false, three)))

-- the position of `p` in dimension `d` of `r`, and the extent of that dimension
abbrev digit : ℕ → Range → Index → ℕ
digit d r p = pos_part (at p d -ℤ at r.from d)

abbrev pub span : ℕ → Range → ℕ
span d r = pos_part (at r.to d -ℤ at r.from d)

-- the same, where a missing dimension has one index
abbrev pub digit_of : ℕ → ℕ → Range → Index → ℕ
digit_of dims d r p = if ltb d dims then digit d r p else 0

abbrev pub span_of : ℕ → ℕ → Range → ℕ
span_of dims d r = if ltb d dims then span d r else 1

-- How many indexes of `r` come before `p` in the lexicographic order, and how many `r` has.
unfoldable pub rank : ℕ → Range → Index → ℕ
rank dims r p =
    digit 0 r p + span 0 r * (digit_of dims 1 r p + span_of dims 1 r * digit_of dims 2 r p)

unfoldable pub total : ℕ → Range → ℕ
total dims r = span 0 r * (span_of dims 1 r * span_of dims 2 r)

pub pair_lt : (a u b v : ℕ) → a < u → b < v → a + u * b < u * v
pair_lt a u b v h k = grind arith

pair_step : (a u b : ℕ) → suc a ≡ u → u * suc b ≡ suc (a + u * b)
pair_step a u b h = grind arith

pair_mod : (a u x : ℕ) → a < u → (a + u * x) % u ≡ a
pair_mod a u x h = add-mul-mod_self_left a u x ∙ mod-eq_of_lt h

pair_div : (a u x : ℕ) → a < u → (a + u * x) / u ≡ x
pair_div a u x h = add-mul-div_left a x (omega (arith, h)) ∙ omega (arith, div-eq_of_lt h)

-- The pair determines both numbers.
pub pair_first : (a b u x y : ℕ) → a < u → b < u → a + u * x ≡ b + u * y → (a ≡ b) × (x ≡ y)
pair_first a b u x y h k e = (
  sym (pair_mod a u x h) ∙ ap (λ n. n % u) e ∙ pair_mod b u y k,
  sym (pair_div a u x h) ∙ ap (λ n. n / u) e ∙ pair_div b u y k,
)

pub digit_lt : (x f t : ℤ) → within x f t ≡ true → pos_part (x -ℤ f) < pos_part (t -ℤ f)
unfolding within ◌-ℤ◌
digit_lt x f t h = ground arith

within_next :
    (x f t : ℤ) → within x f t ≡ true → ltb_ℤ (x +ℤ pos 1) t ≡ true → within (x +ℤ pos 1) f t ≡ true
unfolding within ◌+ℤ◌
within_next x f t h k = ground arith

digit_next :
    (x f t : ℤ) → within x f t ≡ true → pos_part (x +ℤ pos 1 -ℤ f) ≡ suc (pos_part (x -ℤ f))
unfolding within ◌+ℤ◌ ◌-ℤ◌
digit_next x f t h = ground arith

digit_last :
    (x f t : ℤ)
    → within x f t ≡ true
    → ltb_ℤ (x +ℤ pos 1) t ≡ false
    → suc (pos_part (x -ℤ f)) ≡ pos_part (t -ℤ f)
unfolding within ◌+ℤ◌ ◌-ℤ◌
digit_last x f t h k = ground arith

within_first : (x f t : ℤ) → within x f t ≡ true → within f f t ≡ true
unfolding within
within_first x f t h = ground arith

pub digit_first : (f : ℤ) → pos_part (f -ℤ f) ≡ 0
unfolding ◌-ℤ◌
digit_first f = ground arith

step1 : (a b c u v : ℕ) → suc a ≡ u → 0 + u * (suc b + v * c) ≡ suc (a + u * (b + v * c))
step1 a b c u v h =
    let e : suc b + v * c ≡ suc (b + v * c) = omega arith in
    omega (arith, ap (λ k. u * k) e, pair_step a u (b + v * c) h)

step2 :
    (a b c u v : ℕ) → suc a ≡ u → suc b ≡ v → 0 + u * (0 + v * suc c) ≡ suc (a + u * (b + v * c))
step2 a b c u v h k =
    let e : 0 + v * suc c ≡ suc (b + v * c) = omega (arith, pair_step b v c k) in
    omega (arith, ap (λ k. u * k) e, pair_step a u (b + v * c) h)

step3 :
    (a b c u v w : ℕ) → suc a ≡ u → suc b ≡ v → suc c ≡ w → suc (a + u * (b + v * c)) ≡ u * (v * w)
step3 a b c u v w h k l =
    let e : v * w ≡ suc (b + v * c) = ap (λ k. v * k) (sym l) ∙ pair_step b v c k in
    omega (arith, ap (λ k. u * k) e, pair_step a u (b + v * c) h)

-- What a step of the walk does to an index of the range.
pub record Steps (dims : ℕ) (r : Range) (p : Index) (next : Bool × Index) : Type 0 where
  pub inside : next.0 ≡ true → contains dims next.1 r ≡ true
  pub up : next.0 ≡ true → rank dims r next.1 ≡ suc (rank dims r p)
  pub last : next.0 ≡ false → suc (rank dims r p) ≡ total dims r

module _ (dims : ℕ) (r : Range) (p : Index) where
  Steps-more :
      (q : Index)
      → contains dims q r ≡ true
      → rank dims r q ≡ suc (rank dims r p)
      → Steps dims r p (true, q)
  Steps-more q h k = record { inside = λ _. h; up = λ _. k; last = λ e. absurd (cc e) }

  Steps-end : (q : Index) → suc (rank dims r p) ≡ total dims r → Steps dims r p (false, q)
  Steps-end q h = record { inside = λ e. absurd (cc e); up = λ e. absurd (cc e); last = λ _. h }

-- dimension `d` has a next position, as `next_lex` tests it
abbrev goes_on : ℕ → Range → Index → Bool
goes_on d r p = ltb_ℤ (at p d +ℤ pos 1) (at r.to d)

abbrev in_row : Index → Index
in_row p = record p { i0 = p.i0 +ℤ pos 1 }

abbrev in_plane : Range → Index → Index
in_plane r p = record p { i0 = r.from.i0; i1 = p.i1 +ℤ pos 1 }

abbrev in_cube : Range → Index → Index
in_cube r p = record { i0 = r.from.i0; i1 = r.from.i1; i2 = p.i2 +ℤ pos 1 }

next_line : (r : Range) (p : Index) → contains 1 p r ≡ true → Steps 1 r p (next_lex 1 r p)
unfolding next_lex contains holds rank total
next_line r p c = go (goes_on 0 r p) refl
  where
    c0 : within p.i0 r.from.i0 r.to.i0 ≡ true
    c0 = ground arith

    go :
        (b : Bool)
        → goes_on 0 r p ≡ b
        → Steps 1 r p (if b then (true, in_row p) else (false, in_row p))
    go true e =
        Steps-more 1 r p (in_row p) (ground (arith, within_next p.i0 r.from.i0 r.to.i0 c0 e))
          (omega (arith, digit_next p.i0 r.from.i0 r.to.i0 c0))
    go false e =
        Steps-end 1 r p (in_row p)
          (step3 _ 0 0 _ 1 1 (digit_last p.i0 r.from.i0 r.to.i0 c0 e) refl refl)

next_plane : (r : Range) (p : Index) → contains 2 p r ≡ true → Steps 2 r p (next_lex 2 r p)
unfolding next_lex contains holds rank total
next_plane r p c = go (goes_on 0 r p) (goes_on 1 r p) refl refl
  where
    c0 : within p.i0 r.from.i0 r.to.i0 ≡ true
    c0 = ground arith

    c1 : within p.i1 r.from.i1 r.to.i1 ≡ true
    c1 = ground arith

    go :
        (b b' : Bool)
        → goes_on 0 r p ≡ b
        → goes_on 1 r p ≡ b'
        → Steps 2 r p (
            if b
            then (true, in_row p)
            else (if b' then (true, in_plane r p) else (false, in_plane r p)))
    go true b' e e' =
        Steps-more 2 r p (in_row p) (ground (arith, within_next p.i0 r.from.i0 r.to.i0 c0 e))
          (omega (arith, digit_next p.i0 r.from.i0 r.to.i0 c0))
    go false true e e' =
        Steps-more 2 r p (in_plane r p)
          (ground (
            arith,
            within_first p.i0 r.from.i0 r.to.i0 c0,
            within_next p.i1 r.from.i1 r.to.i1 c1 e',
          ))
          (rw (digit_first r.from.i0, digit_next p.i1 r.from.i1 r.to.i1 c1)
            (step1 _ _ 0 _ _ (digit_last p.i0 r.from.i0 r.to.i0 c0 e)))
    go false false e e' = Steps-end 2 r p (in_plane r p) (
        step3 _ _ 0 _ _ 1 (digit_last p.i0 r.from.i0 r.to.i0 c0 e)
          (digit_last p.i1 r.from.i1 r.to.i1 c1 e') refl)

next_space : (r : Range) (p : Index) → contains 3 p r ≡ true → Steps 3 r p (next_lex 3 r p)
unfolding next_lex contains holds rank total
next_space r p c = go (goes_on 0 r p) (goes_on 1 r p) (goes_on 2 r p) refl refl refl
  where
    c0 : within p.i0 r.from.i0 r.to.i0 ≡ true
    c0 = ground arith

    c1 : within p.i1 r.from.i1 r.to.i1 ≡ true
    c1 = ground arith

    c2 : within p.i2 r.from.i2 r.to.i2 ≡ true
    c2 = ground arith

    go :
        (b b' b'' : Bool)
        → goes_on 0 r p ≡ b
        → goes_on 1 r p ≡ b'
        → goes_on 2 r p ≡ b''
        → Steps 3 r p (
            if b
            then (true, in_row p)
            else (if b'
                then (true, in_plane r p)
                else (if b'' then (true, in_cube r p) else (false, in_cube r p))))
    go true b' b'' e e' e'' =
        Steps-more 3 r p (in_row p) (ground (arith, within_next p.i0 r.from.i0 r.to.i0 c0 e))
          (omega (arith, digit_next p.i0 r.from.i0 r.to.i0 c0))
    go false true b'' e e' e'' =
        Steps-more 3 r p (in_plane r p)
          (ground (
            arith,
            within_first p.i0 r.from.i0 r.to.i0 c0,
            within_next p.i1 r.from.i1 r.to.i1 c1 e',
          ))
          (rw (digit_first r.from.i0, digit_next p.i1 r.from.i1 r.to.i1 c1)
            (step1 _ _ _ _ _ (digit_last p.i0 r.from.i0 r.to.i0 c0 e)))
    go false false true e e' e'' =
        Steps-more 3 r p (in_cube r p)
          (ground (
            arith,
            within_first p.i0 r.from.i0 r.to.i0 c0,
            within_first p.i1 r.from.i1 r.to.i1 c1,
            within_next p.i2 r.from.i2 r.to.i2 c2 e'',
          ))
          (rw (digit_first r.from.i0, digit_first r.from.i1, digit_next p.i2 r.from.i2 r.to.i2 c2)
            (step2 _ _ _ _ _ (digit_last p.i0 r.from.i0 r.to.i0 c0 e)
              (digit_last p.i1 r.from.i1 r.to.i1 c1 e')))
    go false false false e e' e'' = Steps-end 3 r p (in_cube r p) (
        step3 _ _ _ _ _ _ (digit_last p.i0 r.from.i0 r.to.i0 c0 e)
          (digit_last p.i1 r.from.i1 r.to.i1 c1 e') (digit_last p.i2 r.from.i2 r.to.i2 c2 e''))

-- A step of the walk from an index of the range goes to the index of the next rank, or ends at the
-- last one.
pub next_lex-Steps :
    (dims : ℕ) (r : Range) (p : Index)
    → 0 < dims
    → dims ≤ 3
    → contains dims p r ≡ true
    → Steps dims r p (next_lex dims r p)
next_lex-Steps zero r p h k c = absurd (omega arith)
next_lex-Steps (suc zero) r p h k c = next_line r p c
next_lex-Steps (suc (suc zero)) r p h k c = next_plane r p c
next_lex-Steps (suc (suc (suc zero))) r p h k c = next_space r p c
next_lex-Steps (suc (suc (suc (suc n)))) r p h k c = absurd (omega arith)
