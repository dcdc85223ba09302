-- ===== src/Layout/Entries.antt =====
-- `laik_new_layout_lex`: the entries that it makes, and the offsets in them.
use laik.Layout.Offsets.{Regular, mul_pos}
use laik.Layout.{new_layout_lex, new_entries, finish_entry, LexLayout, new_entry, to_u64, LexEntry}
use native.Mathlib.Nat.{mod-eq_of_lt}
use laik.Prelude.Int.{ℤ, pos_part, ◌-ℤ◌, ltb_ℤ, leb_ℤ}
use laik.Prelude.{
  aborted, Outcome, [], ◌+◌, ◌∷◌, map, All, List, ltb, ◌>>=◌, refl, if◌then◌else◌, zero, sym, ◌∙◌,
  suc, none, ap, ◌%◌, done, ◌^◌, some, ℕ, ◌*◌, ◌<◌, ◌≤◌, ◌≡◌, true, arith,
}
use laik.Space.{range_size, Range, SpaceRef, Index, mul64, extent, size_dims}
use laik.Space.Points.{holds, contains, within, filled}
use laik.Layout.Walk.{span_of, span, total}

-- A range of the space that a layout can hold: it is not empty and its indexes fit in an `int64_t`.
pub record CanHold (s : SpaceRef) (r : Range) : Type 0 where
  pub named : r.space ≡ some s
  pub full : filled s.dims r ≡ true
  pub fits : total s.dims r < 2 ^ 63

factor_le : (u v : ℕ) → 0 < v → u ≤ u * v
factor_le u v h = grind arith

le_factor : (u v : ℕ) → 0 < u → v ≤ u * v
le_factor u v h = grind arith

assoc : (u v w : ℕ) → u * v * w ≡ u * (v * w)
assoc u v w = grind arith

-- the extent of a dimension that has an index
span_pos : (f t : ℤ) → within f f t ≡ true → 0 < pos_part (t -ℤ f)
unfolding within ◌-ℤ◌
span_pos f t h = ground arith

leb_within : (f t : ℤ) → within f f t ≡ true → leb_ℤ f t ≡ true
unfolding within
leb_within f t h = ground arith

ltb_within : (f t : ℤ) → within f f t ≡ true → ltb_ℤ f t ≡ true
unfolding within
ltb_within f t h = ground arith

line_size :
    (from to : Index)
    → within from.i0 from.i0 to.i0 ≡ true
    → pos_part (to.i0 -ℤ from.i0) < 2 ^ 63
    → size_dims 1 from to ≡ done (pos_part (to.i0 -ℤ from.i0))
unfolding size_dims
line_size from to c0 f =
    let e0 : extent from.i0 to.i0 ≡ pos_part (to.i0 -ℤ from.i0) = mod-eq_of_lt (omega arith) in
    ground (arith, leb_within from.i0 to.i0 c0, e0)

plane_size :
    (from to : Index)
    → within from.i0 from.i0 to.i0 ≡ true
    → within from.i1 from.i1 to.i1 ≡ true
    → pos_part (to.i0 -ℤ from.i0) * pos_part (to.i1 -ℤ from.i1) < 2 ^ 63
    → size_dims 2 from to ≡ done (pos_part (to.i0 -ℤ from.i0) * pos_part (to.i1 -ℤ from.i1))
unfolding size_dims
plane_size from to c0 c1 f =
    let u = pos_part (to.i0 -ℤ from.i0) in
    let v = pos_part (to.i1 -ℤ from.i1) in
    let e0 : u % 2 ^ 64 ≡ u =
      mod-eq_of_lt (omega (arith, factor_le u v (span_pos from.i1 to.i1 c1))) in
    let e1 : v % 2 ^ 64 ≡ v =
      mod-eq_of_lt (omega (arith, le_factor u v (span_pos from.i0 to.i0 c0))) in
    let e : mul64 (extent from.i0 to.i0) (extent from.i1 to.i1) ≡ u * v =
      rw (e0, e1) (mod-eq_of_lt (omega (arith, f))) in
    ground (arith, leb_within from.i0 to.i0 c0, leb_within from.i1 to.i1 c1, e)

space_size3 :
    (from to : Index)
    → within from.i0 from.i0 to.i0 ≡ true
    → within from.i1 from.i1 to.i1 ≡ true
    → within from.i2 from.i2 to.i2 ≡ true
    → pos_part (to.i0 -ℤ from.i0) * (pos_part (to.i1 -ℤ from.i1) * pos_part (to.i2 -ℤ from.i2))
      < 2 ^ 63
    → size_dims 3 from to
      ≡ done (
          pos_part (to.i0 -ℤ from.i0) * (pos_part (to.i1 -ℤ from.i1) * pos_part (to.i2 -ℤ from.i2)))
unfolding size_dims
space_size3 from to c0 c1 c2 f =
    let u = pos_part (to.i0 -ℤ from.i0) in
    let v = pos_part (to.i1 -ℤ from.i1) in
    let w = pos_part (to.i2 -ℤ from.i2) in
    let pu = span_pos from.i0 to.i0 c0 in
    let pv = span_pos from.i1 to.i1 c1 in
    let pw = span_pos from.i2 to.i2 c2 in
    let uv : u * v ≤ u * (v * w) = omega (arith, factor_le (u * v) w pw, assoc u v w) in
    let e0 : u % 2 ^ 64 ≡ u = mod-eq_of_lt (omega (arith, factor_le u v pv, uv)) in
    let e1 : v % 2 ^ 64 ≡ v = mod-eq_of_lt (omega (arith, le_factor u v pu, uv)) in
    let e2 : w % 2 ^ 64 ≡ w =
      mod-eq_of_lt (omega (arith, le_factor (u * v) w (mul_pos u v pu pv), assoc u v w)) in
    let e3 : u * v % 2 ^ 64 ≡ u * v = mod-eq_of_lt (omega (arith, uv, f)) in
    let e : mul64 (mul64 (extent from.i0 to.i0) (extent from.i1 to.i1)) (extent from.i2 to.i2)
        ≡ u * (v * w) =
      rw (e0, e1, e2, e3) (mod-eq_of_lt (omega (arith, assoc u v w, f)) ∙ assoc u v w) in
    ground (
      arith,
      leb_within from.i0 to.i0 c0,
      leb_within from.i1 to.i1 c1,
      leb_within from.i2 to.i2 c2,
      e,
    )

size_dims-total :
    (dims : ℕ) (r : Range)
    → 0 < dims
    → dims ≤ 3
    → filled dims r ≡ true
    → total dims r < 2 ^ 63
    → size_dims dims r.from r.to ≡ done (total dims r)
unfolding total contains holds
size_dims-total zero r h k f t = absurd (omega arith)
size_dims-total (suc zero) r h k f t =
    line_size r.from r.to (ground arith) (omega (arith, t)) ∙ ap done (omega arith)
size_dims-total (suc (suc zero)) r h k f t =
    let e : span 1 r * 1 ≡ span 1 r = omega arith in
    let e' : span 0 r * (span 1 r * 1) ≡ span 0 r * span 1 r = ap (λ n. span 0 r * n) e in
    plane_size r.from r.to (ground arith) (ground arith) (omega (arith, t, e')) ∙ ap done (sym e')
size_dims-total (suc (suc (suc zero))) r h k f t =
    space_size3 r.from r.to (ground arith) (ground arith) (ground arith) t
size_dims-total (suc (suc (suc (suc n)))) r h k f t = absurd (omega arith)

pub range_size-total :
    (s : SpaceRef) (r : Range)
    → 0 < s.dims
    → s.dims ≤ 3
    → CanHold s r
    → range_size r ≡ done (total s.dims r)
unfolding range_size
range_size-total s r h k c =
    ap (λ o. elim o [ none ↦ done 0 | some t ↦ size_dims t.dims r.from r.to ]) c.named
    ∙ size_dims-total s.dims r h k c.full c.fits

-- the entry for `r`
abbrev pub entry_of : ℕ → Range → LexEntry
entry_of dims r = record {
  range = r;
  count = total dims r;
  stride0 = 1;
  stride1 = if ltb 1 dims then span 0 r else 0;
  stride2 = if ltb 2 dims then span 0 r * span 1 r else 0;
}

pub entry_of-Regular : (s : SpaceRef) (r : Range) → CanHold s r → Regular s.dims (entry_of s.dims r)
entry_of-Regular s r c = record {
  counts = refl;
  row = λ h. ground arith;
  layer = λ h. ground arith;
  fits = c.fits;
}

width-span :
    (f t : ℤ)
    → within f f t ≡ true
    → pos_part (t -ℤ f) < 2 ^ 63
    → to_u64 (t -ℤ f) ≡ pos_part (t -ℤ f)
unfolding to_u64 within ◌-ℤ◌
width-span f t h k = ground arith

-- the widths of a range are below the product of them all
spans_lt :
    (dims : ℕ) (r : Range)
    → filled dims r ≡ true
    → total dims r < 2 ^ 63
    → (span 0 r < 2 ^ 63)
      × ((1 < dims → span 1 r < 2 ^ 63) × (2 < dims → span 0 r * span 1 r < 2 ^ 63))
unfolding total contains holds
spans_lt dims r f t =
    let pu : 0 < span 0 r = ground (arith, span_pos r.from.i0 r.to.i0) in
    let pv : 0 < span_of dims 1 r = ground (arith, span_pos r.from.i1 r.to.i1) in
    let pw : 0 < span_of dims 2 r = ground (arith, span_pos r.from.i2 r.to.i2) in
    let v = span_of dims 1 r in
    let w = span_of dims 2 r in
    let a = factor_le (span 0 r) (v * w) (mul_pos v w pv pw) in
    let b : v ≤ span 0 r * (v * w) =
      omega (arith, factor_le v w pw, le_factor (span 0 r) (v * w) pu) in
    let c = factor_le (span 0 r * v) w pw in
    let e = assoc (span 0 r) v w in
    (
      omega (arith, a, t),
      (
        λ h. ground (arith, b, t),
        λ h.
            let same : span_of dims 1 r ≡ span 1 r = ground arith in
            omega (arith, ap (λ k. span 0 r * k) same, c, e, t),
      ),
    )

finish_entry-returns :
    (dims : ℕ) (r : Range)
    → 0 < dims
    → dims ≤ 3
    → filled dims r ≡ true
    → total dims r < 2 ^ 63
    → finish_entry dims r (total dims r) ≡ done (entry_of dims r)
unfolding finish_entry contains holds
finish_entry-returns zero r h k f t = absurd (omega arith)
finish_entry-returns (suc zero) r h k f t = ground (arith, ltb_within r.from.i0 r.to.i0)
finish_entry-returns (suc (suc zero)) r h k f t =
    let (l0, _) = spans_lt 2 r f t in
    let c0 : within r.from.i0 r.from.i0 r.to.i0 ≡ true = ground arith in
    rw (width-span r.from.i0 r.to.i0 c0 l0)
      (ground (arith, ltb_within r.from.i0 r.to.i0, ltb_within r.from.i1 r.to.i1))
finish_entry-returns (suc (suc (suc zero))) r h k f t =
    let (l0, (l1, l2)) = spans_lt 3 r f t in
    let c0 : within r.from.i0 r.from.i0 r.to.i0 ≡ true = ground arith in
    let c1 : within r.from.i1 r.from.i1 r.to.i1 ≡ true = ground arith in
    let e : span 0 r * span 1 r % 2 ^ 64 ≡ span 0 r * span 1 r =
      mod-eq_of_lt (omega (arith, l2 (omega arith))) in
    rw (width-span r.from.i0 r.to.i0 c0 l0, width-span r.from.i1 r.to.i1 c1 (l1 (omega arith)), e)
      (ground (
        arith,
        ltb_within r.from.i0 r.to.i0,
        ltb_within r.from.i1 r.to.i1,
        ltb_within r.from.i2 r.to.i2,
      ))
finish_entry-returns (suc (suc (suc (suc n)))) r h k f t = absurd (omega arith)

pub new_entry-returns :
    (s : SpaceRef) (r : Range)
    → 0 < s.dims
    → s.dims ≤ 3
    → CanHold s r
    → new_entry s.dims r ≡ done (entry_of s.dims r)
unfolding new_entry
new_entry-returns s r h k c =
    ap (λ o. o >>= λ count. finish_entry s.dims r count) (range_size-total s r h k c)
    ∙ finish_entry-returns s.dims r h k c.full c.fits

-- the sum of the counts, which wraps around
abbrev counts : ℕ → ℕ → List Range → ℕ
counts dims n [] = n
counts dims n (r ∷ rs) = counts dims ((n + total dims r) % 2 ^ 64) rs

new_entries-returns :
    (s : SpaceRef) (n : ℕ) (rs : List Range)
    → 0 < s.dims
    → s.dims ≤ 3
    → All (CanHold s) rs
    → new_entries s.dims n rs ≡ done (counts s.dims n rs, map (entry_of s.dims) rs)
unfolding new_entries
new_entries-returns s n [] h k c = refl
new_entries-returns s n (r ∷ rs) h k c =
    rw
      (
        new_entry-returns s r h k c.0,
        new_entries-returns s ((n + total s.dims r) % 2 ^ 64) rs h k c.1,
      )
      refl

abbrev finish : ℕ → ℕ × List LexEntry → Outcome LexLayout
finish dims m = done (record { dims = dims; count = m.0; entries = m.1 })

-- The layout that is made for `rs`.
pub record IsLayout (s : SpaceRef) (rs : List Range) (l : LexLayout) : Type 0 where
  pub dims : l.dims ≡ s.dims
  pub entries : l.entries ≡ map (entry_of s.dims) rs

pub new_layout_lex-returns :
    (s : SpaceRef) (r : Range) (rs : List Range)
    → 0 < s.dims
    → s.dims ≤ 3
    → All (CanHold s) (r ∷ rs)
    → (l : LexLayout) × (new_layout_lex (r ∷ rs) ≡ done l) × IsLayout s (r ∷ rs) l
unfolding new_layout_lex
new_layout_lex-returns s r rs h k c = (
  record {
    dims = s.dims;
    count = counts s.dims 0 (r ∷ rs);
    entries = map (entry_of s.dims) (r ∷ rs);
  },
  ap
        (λ o. elim o [
          | none ↦ aborted
          | some t ↦ new_entries t.dims 0 (r ∷ rs) >>= λ m. finish t.dims m
        ])
        c.0.named
      ∙ ap (λ m. m >>= λ m'. finish s.dims m') (new_entries-returns s 0 (r ∷ rs) h k c),
  record { dims = refl; entries = refl },
)
