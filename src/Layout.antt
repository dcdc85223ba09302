-- ===== src/Layout.antt =====
-- src/layout_lex.c, src/layout.c and include/laik/data-internal.h: the lexicographical layout of
-- indexes in memory. An offset is a number of elements. The functions are those of a layout whose
-- function pointers are the lexicographical ones.
pub mod Walk
pub mod Ranks
pub mod Offsets
pub mod Reuse
pub mod Entries
pub mod Bounds
pub mod Generic
pub mod RoundTrip
pub mod Unpack
pub mod Transfer
pub mod Copy
pub mod Whole
pub mod Tests
use laik.Prelude.Int.{ℤ, pos, negsuc, pos_part, neg_part, ◌-ℤ◌, ltb_ℤ, leb_ℤ}
use laik.Prelude.{
  ℕ, zero, suc, ◌+◌, ◌-◌, ◌%◌, ◌^◌, Bool, true, false, not, ◌&&◌, ◌||◌, Option, none, some, List,
  [], ◌∷◌, length, get_elem?, ltb, if◌then◌else◌, Outcome, done, aborted, ◌>>=◌, ◌>>◌, assert,
}
use laik.Space.{Range, Index, at, mul64, range_size, range_within_range}

-- the conversions between `int64_t` and `uint64_t`
unfoldable pub to_u64 : ℤ → ℕ
to_u64 z = (pos_part z + (2 ^ 64 - neg_part z % 2 ^ 64)) % 2 ^ 64

unfoldable pub to_i64 : ℕ → ℤ
to_i64 n = if ltb n (2 ^ 63) then pos n else negsuc (2 ^ 64 - n - 1)

-- `Lex_Entry`
pub record LexEntry : Type 0 where
  pub range : Range
  pub count : ℕ
  pub stride0 : ℕ
  pub stride1 : ℕ
  pub stride2 : ℕ

-- `Laik_Layout_Lex` with the numbers of its `Laik_Layout`; there are `maps_of` entries.
pub record LexLayout : Type 0 where
  pub dims : ℕ
  pub count : ℕ
  pub entries : List LexEntry

abbrev pub maps_of : LexLayout → ℕ
maps_of l = length l.entries

-- `l->e[n]` behind the check of `n`, which an `int` below 0 fails too
abbrev pub entry_at : LexLayout → ℕ → Outcome LexEntry
entry_at l n = elim (get_elem? l.entries n) [ none ↦ aborted | some e ↦ done e ]

-- the test for an index of dimension `d`
abbrev pub outside : ℕ → Index → Range → Bool
outside d idx r = ltb_ℤ (at idx d) (at r.from d) || leb_ℤ (at r.to d) (at idx d)

-- The loop of `section_lex` from entry `i` on; `none` is -1.
unfoldable pub section_from : ℕ → Index → ℕ → List LexEntry → Option ℕ
section_from dims idx i [] = none
section_from dims idx i (e ∷ es) =
    let more = section_from dims idx (suc i) es in
    if outside 0 idx e.range
    then more
    else if ltb 1 dims
    then (if outside 1 idx e.range
        then more
        else if ltb 2 dims
        then (if outside 2 idx e.range then more else some i)
        else some i)
    else some i

-- `section_lex`
unfoldable pub section_lex : LexLayout → Index → Option ℕ
unfolding section_from
section_lex l idx = section_from l.dims idx 0 l.entries

-- `mapno_lex`
pub mapno_lex : LexLayout → ℕ → Outcome ℕ
mapno_lex l n = do assert (ltb n (maps_of l)); done n

-- `off += (a - b) * stride`: the product and the sum are unsigned.
unfoldable pub add_stride : ℤ → ℤ → ℕ → ℤ
add_stride off d stride = to_i64 ((to_u64 off + mul64 (to_u64 d) stride) % 2 ^ 64)

-- the offset of `idx` in the range of `e`, before it is checked
unfoldable pub raw_offset : ℕ → LexEntry → Index → ℤ
raw_offset dims e idx =
    let off0 = idx.i0 -ℤ e.range.from.i0 in
    if ltb 1 dims
    then (let off1 = add_stride off0 (idx.i1 -ℤ e.range.from.i1) e.stride1 in
        if ltb 2 dims then add_stride off1 (idx.i2 -ℤ e.range.from.i2) e.stride2 else off1)
    else off0

-- the check of an offset, and the offset
unfoldable pub checked : ℕ → ℤ → Outcome ℕ
checked count off = do assert (leb_ℤ (pos 0) off && ltb_ℤ off (to_i64 count)); done (pos_part off)

-- `offset_lex`
unfoldable pub offset_lex : LexLayout → ℕ → Index → Outcome ℕ
offset_lex l n idx = do e ← entry_at l n; checked e.count (raw_offset l.dims e idx)

-- the entries with the one at `n` replaced
abbrev pub put_entry : List LexEntry → ℕ → LexEntry → List LexEntry
put_entry [] n e = []
put_entry (x ∷ xs) zero e = e ∷ xs
put_entry (x ∷ xs) (suc n) e = x ∷ put_entry xs n e

-- `reuse_lex`: whether map `nold` of `old` serves for map `n`, and the layout afterwards; `nold` is
-- a map of `old`.
unfoldable pub reuse_lex : LexLayout → ℕ → LexLayout → ℕ → Outcome (Bool × LexLayout)
reuse_lex l n old nold = do
  e_new ← entry_at l n
  e_old ← entry_at old nold
  fits ← range_within_range e_new.range e_old.range
  (if not fits
      then done (false, l)
      else done (
        true,
        record l {
          count = (l.count + (e_old.count + 2 ^ 64 - e_new.count)) % 2 ^ 64;
          entries = put_entry l.entries n e_old;
        },
      ))

-- the extent of a dimension, which is checked to be positive, as `uint64_t`
abbrev width : ℕ → Range → ℕ
width d r = to_u64 (at r.to d -ℤ at r.from d)

-- The checks of a range and its entry, for the size of the range.
unfoldable pub finish_entry : ℕ → Range → ℕ → Outcome LexEntry
finish_entry dims r count = do
  assert (ltb_ℤ r.from.i0 r.to.i0)
  (if ltb 1 dims then assert (ltb_ℤ r.from.i1 r.to.i1) else done tt)
  (if ltb 2 dims then assert (ltb_ℤ r.from.i2 r.to.i2) else done tt)
  done (record {
    range = r;
    count = count;
    stride0 = 1;
    stride1 = if ltb 1 dims then width 0 r else 0;
    stride2 = if ltb 2 dims then mul64 (if ltb 1 dims then width 0 r else 0) (width 1 r) else 0;
  })

-- one entry of `laik_new_layout_lex`
unfoldable pub new_entry : ℕ → Range → Outcome LexEntry
new_entry dims r = range_size r >>= λ count. finish_entry dims r count

-- the loop of `laik_new_layout_lex`: the sum of the counts and the entries
unfoldable pub new_entries : ℕ → ℕ → List Range → Outcome (ℕ × List LexEntry)
new_entries dims count [] = done (count, [])
new_entries dims count (r ∷ rs) = new_entry dims r >>= λ e.
    new_entries dims ((count + e.count) % 2 ^ 64) rs >>= λ more. done (more.0, e ∷ more.1)

-- `laik_new_layout_lex`; the dimensions are those of the first range's space.
unfoldable pub new_layout_lex : List Range → Outcome LexLayout
unfolding new_entries
new_layout_lex [] = aborted
new_layout_lex (r ∷ rs) = elim r.space [
  | none ↦ aborted
  | some s ↦ do
    more ← new_entries s.dims 0 (r ∷ rs)
    done (record { dims = s.dims; count = more.0; entries = more.1 })
]

-- `laik_layout_lex_stride`
pub layout_lex_stride : LexLayout → ℕ → ℕ → Outcome ℕ
layout_lex_stride l n d = do
  e ← entry_at l n
  assert (ltb d l.dims)
  done (elim d [ zero ↦ e.stride0 | suc k ↦ elim k [ zero ↦ e.stride1 | suc j ↦ e.stride2 ] ])
