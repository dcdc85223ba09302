-- ===== src/Layout/Offsets.antt =====
-- `offset_lex` on the entries that `laik_new_layout_lex` makes.
use native.Mathlib.Nat.{mod-eq_of_lt}
use laik.Prelude.Int.{ltb_ℤ, leb_ℤ, ℤ, pos, pos_part, ◌-ℤ◌}
use laik.Prelude.{
  assert, ◌>>=◌, ◌>>◌, ◌&&◌, done, some, ap, ◌∙◌, get_elem?, ap₂, ◌%◌, ◌^◌, ℕ, zero, suc, ◌+◌, ◌*◌,
  ◌<◌, ◌≤◌, ◌≡◌, true, arith,
}
use laik.Space.{Index}
use laik.Space.Points.{contains, holds, within}
use laik.Layout.{
  entry_at, offset_lex, LexLayout, LexEntry, to_u64, to_i64, add_stride, raw_offset, checked,
}
use laik.Layout.Walk.{rank, total, span, digit_lt}
use laik.Layout.Ranks.{rank_lt}

-- What an entry holds for its range, whose indexes fit in an `int64_t`.
pub record Regular (dims : ℕ) (e : LexEntry) : Type 0 where
  pub counts : e.count ≡ total dims e.range
  pub row : 1 < dims → e.stride1 ≡ span 0 e.range
  pub layer : 2 < dims → e.stride2 ≡ span 0 e.range * span 1 e.range
  pub fits : total dims e.range < 2 ^ 63

to_i64-small : (n : ℕ) → n < 2 ^ 63 → to_i64 n ≡ pos n
unfolding to_i64
to_i64-small n h = ground arith

pub to_u64-pos : (n : ℕ) → n < 2 ^ 64 → to_u64 (pos n) ≡ n
unfolding to_u64
to_u64-pos n h = omega arith

le_mul : (d s : ℕ) → 0 < s → d ≤ d * s
le_mul d s h = grind arith

pub mul_pos : (u v : ℕ) → 0 < u → 0 < v → 0 < u * v
mul_pos u v h k = grind arith

add_stride-pos :
    (a d s : ℕ) → 0 < s → a + d * s < 2 ^ 63 → add_stride (pos a) (pos d) s ≡ pos (a + d * s)
unfolding add_stride
add_stride-pos a d s p h =
    let ed = to_u64-pos d (omega (arith, le_mul d s p)) in
    let ea = to_u64-pos a (omega arith) in
    let em : d * s % 2 ^ 64 ≡ d * s = mod-eq_of_lt (omega arith) in
    let es : (a + d * s) % 2 ^ 64 ≡ a + d * s = mod-eq_of_lt (omega arith) in
    rw (ed, ea, em, es) (to_i64-small (a + d * s) h)

sub_pos : (x f t : ℤ) → within x f t ≡ true → x -ℤ f ≡ pos (pos_part (x -ℤ f))
unfolding within ◌-ℤ◌
sub_pos x f t h = ground arith

plane_rank : (a b u v : ℕ) → a + b * u ≡ a + u * (b + v * 0)
plane_rank a b u v = grind arith

space_rank : (a b c u v : ℕ) → a + b * u + c * (u * v) ≡ a + u * (b + v * c)
space_rank a b c u v = grind arith

line_offset :
    (e : LexEntry) (p : Index)
    → contains 1 p e.range ≡ true
    → raw_offset 1 e p ≡ pos (rank 1 e.range p)
unfolding raw_offset contains holds rank
line_offset e p c = sub_pos p.i0 e.range.from.i0 e.range.to.i0 (ground arith) ∙ ap pos (omega arith)

plane_offset :
    (e : LexEntry) (p : Index)
    → Regular 2 e
    → contains 2 p e.range ≡ true
    → raw_offset 2 e p ≡ pos (rank 2 e.range p)
unfolding raw_offset contains holds rank total
plane_offset e p h c =
    let c0 : within p.i0 e.range.from.i0 e.range.to.i0 ≡ true = ground arith in
    let c1 : within p.i1 e.range.from.i1 e.range.to.i1 ≡ true = ground arith in
    let s0 = sub_pos p.i0 e.range.from.i0 e.range.to.i0 c0 in
    let s1 = sub_pos p.i1 e.range.from.i1 e.range.to.i1 c1 in
    let d0 = pos_part (p.i0 -ℤ e.range.from.i0) in
    let d1 = pos_part (p.i1 -ℤ e.range.from.i1) in
    let eq = plane_rank d0 d1 (span 0 e.range) (span 1 e.range) in
    ap₂ (λ a b. add_stride a b e.stride1) s0 s1
    ∙ ap (add_stride (pos d0) (pos d1)) (h.row (omega arith))
    ∙ add_stride-pos d0 d1 (span 0 e.range)
        (omega (arith, digit_lt p.i0 e.range.from.i0 e.range.to.i0 c0))
        (omega (arith, eq, rank_lt 2 e.range p c, h.fits))
    ∙ ap pos eq

space_offset :
    (e : LexEntry) (p : Index)
    → Regular 3 e
    → contains 3 p e.range ≡ true
    → raw_offset 3 e p ≡ pos (rank 3 e.range p)
unfolding raw_offset contains holds rank total
space_offset e p h c =
    let c0 : within p.i0 e.range.from.i0 e.range.to.i0 ≡ true = ground arith in
    let c1 : within p.i1 e.range.from.i1 e.range.to.i1 ≡ true = ground arith in
    let c2 : within p.i2 e.range.from.i2 e.range.to.i2 ≡ true = ground arith in
    let s0 = sub_pos p.i0 e.range.from.i0 e.range.to.i0 c0 in
    let s1 = sub_pos p.i1 e.range.from.i1 e.range.to.i1 c1 in
    let s2 = sub_pos p.i2 e.range.from.i2 e.range.to.i2 c2 in
    let d0 = pos_part (p.i0 -ℤ e.range.from.i0) in
    let d1 = pos_part (p.i1 -ℤ e.range.from.i1) in
    let d2 = pos_part (p.i2 -ℤ e.range.from.i2) in
    let u = span 0 e.range in
    let v = span 1 e.range in
    let eq = space_rank d0 d1 d2 u v in
    let pu = digit_lt p.i0 e.range.from.i0 e.range.to.i0 c0 in
    let pv = digit_lt p.i1 e.range.from.i1 e.range.to.i1 c1 in
    let bound = rank_lt 3 e.range p c in
    ap₂ (λ a b. add_stride a b e.stride2)
      (ap₂ (λ a b. add_stride a b e.stride1) s0 s1
        ∙ ap (add_stride (pos d0) (pos d1)) (h.row (omega arith))
        ∙ add_stride-pos d0 d1 u (omega (arith, pu)) (omega (arith, eq, bound, h.fits)))
      s2
    ∙ ap (add_stride (pos (d0 + d1 * u)) (pos d2)) (h.layer (omega arith))
    ∙ add_stride-pos (d0 + d1 * u) d2 (u * v) (mul_pos u v (omega (arith, pu)) (omega (arith, pv)))
        (omega (arith, eq, bound, h.fits))
    ∙ ap pos eq

-- The offset of an index of the entry's range, before the check, is its rank in the range.
pub raw_offset-rank :
    (dims : ℕ) (e : LexEntry) (p : Index)
    → 0 < dims
    → dims ≤ 3
    → Regular dims e
    → contains dims p e.range ≡ true
    → raw_offset dims e p ≡ pos (rank dims e.range p)
raw_offset-rank zero e p h k r c = absurd (omega arith)
raw_offset-rank (suc zero) e p h k r c = line_offset e p c
raw_offset-rank (suc (suc zero)) e p h k r c = plane_offset e p r c
raw_offset-rank (suc (suc (suc zero))) e p h k r c = space_offset e p r c
raw_offset-rank (suc (suc (suc (suc n)))) e p h k r c = absurd (omega arith)

pub entry_at-some :
    (l : LexLayout) (n : ℕ) (e : LexEntry) → get_elem? l.entries n ≡ some e → entry_at l n ≡ done e
entry_at-some l n e g = ground (arith, g)

checked-lt : (count k : ℕ) → k < count → count < 2 ^ 63 → checked count (pos k) ≡ done k
unfolding checked
checked-lt count k h l =
    ap (λ t. assert (leb_ℤ (pos 0) (pos k) && ltb_ℤ (pos k) t) >> done k) (to_i64-small count l)
    ∙ ground (arith, h)

-- An index of the range has the offset of its rank, which lies below the count.
pub offset_lex-rank :
    (l : LexLayout) (n : ℕ) (e : LexEntry) (p : Index)
    → 0 < l.dims
    → l.dims ≤ 3
    → get_elem? l.entries n ≡ some e
    → Regular l.dims e
    → contains l.dims p e.range ≡ true
    → offset_lex l n p ≡ done (rank l.dims e.range p)
unfolding offset_lex
offset_lex-rank l n e p h k g r c =
    let bound : rank l.dims e.range p < e.count =
      omega (arith, rank_lt l.dims e.range p c, r.counts) in
    ap (λ o. o >>= λ e'. checked e'.count (raw_offset l.dims e' p)) (entry_at-some l n e g)
    ∙ ap (checked e.count) (raw_offset-rank l.dims e p h k r c)
    ∙ checked-lt e.count (rank l.dims e.range p) bound (omega (arith, r.counts, r.fits))
