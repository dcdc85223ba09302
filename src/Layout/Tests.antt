-- ===== src/Layout/Tests.antt =====
-- Runs of the lexicographical layout on a plane and a part of it.
use laik.Layout.Reuse.{reuse_lex-offset}
use laik.Prelude.{
  ◌⊎◌, not, ◌<◌, ◌*◌, all, none, length, get_elem?, done, ◌≡◌, arith, refl, ℕ, true, some, ◌∷◌, [],
  List,
}
use laik.Prelude.Int.{ℤ, pos, ◌-ℤ◌}
use laik.Space.{within_dim, within_dims, range_within_range, SpaceRef, Range, Index, index_init}
use laik.Space.Points.{contains, holds, within}
use laik.Layout.{reuse_lex, LexLayout, new_layout_lex, offset_lex, section_lex}
use laik.Layout.Walk.{next_lex-Steps, next_lex, Steps, rank, total}
use laik.Layout.Ranks.{SameIndex}
use laik.Layout.Entries.{CanHold, entry_of}
use laik.Layout.Bounds.{Found, new_layout_lex-offset, section_lex-offset}
use laik.Layout.Generic.{copy_gen, Mapping, pack_gen, unpack_gen}
use laik.Layout.RoundTrip.{Room}
use laik.Layout.Transfer.{Copied, pack_gen-unpack_gen}
use laik.Layout.Whole.{copy_gen-whole, InMap, InMap-Serves, pack_gen-whole}

abbrev pub flat : SpaceRef
flat = record { id = 7; dims = 2 }

abbrev pub block : ℤ → ℤ → ℤ → ℤ → Range
block a b c d = record {
  space = some flat;
  from = index_init a b (pos 0);
  to = index_init c d (pos 0);
}

-- 4 times 3 indexes, and 2 times 2 of them
abbrev pub large : Range
large = block (pos 0) (pos 0) (pos 4) (pos 3)

abbrev pub small : Range
small = block (pos 1) (pos 1) (pos 3) (pos 3)

abbrev corner : Index
corner = index_init (pos 2) (pos 1) (pos 0)

large-CanHold : CanHold flat large
unfolding contains holds within total ◌-ℤ◌
large-CanHold = record { named = refl; full = refl; fits = omega arith }

small-CanHold : CanHold flat small
unfolding contains holds within total ◌-ℤ◌
small-CanHold = record { named = refl; full = refl; fits = omega arith }

new_layout_lex-offset_example :
    (l : LexLayout) × (new_layout_lex (large ∷ small ∷ []) ≡ done l)
    × ((n : ℕ) (q : Range) (p : Index)
        → get_elem? (large ∷ small ∷ []) n ≡ some q
        → contains 2 p q ≡ true
        → (k : ℕ) × (offset_lex l n p ≡ done k) × (k < total 2 q))
    × ((n : ℕ) (q : Range) (p p' : Index)
        → get_elem? (large ∷ small ∷ []) n ≡ some q
        → contains 2 p q ≡ true
        → contains 2 p' q ≡ true
        → offset_lex l n p ≡ offset_lex l n p'
        → SameIndex 2 p p')
new_layout_lex-offset_example =
    new_layout_lex-offset flat large (small ∷ []) (omega arith) (omega arith)
      (large-CanHold, (small-CanHold, tt))

section_lex-offset_example :
    (l : LexLayout) × (new_layout_lex (small ∷ large ∷ []) ≡ done l)
    × (((section_lex l corner ≡ none)
          × (all (λ q. not (contains 2 corner q)) (small ∷ large ∷ []) ≡ true))
        ⊎ ((n : ℕ) × (k : ℕ) × (section_lex l corner ≡ some n)
            × (offset_lex l n corner ≡ done k)
            × (f : Found 2 (small ∷ large ∷ []) corner n) × (k < total 2 f.range)))
section_lex-offset_example =
    section_lex-offset flat small (large ∷ []) corner (omega arith) (omega arith)
      (small-CanHold, (large-CanHold, tt))

abbrev pub layout_for : Range → LexLayout
layout_for r = record { dims = 2; count = total 2 r; entries = entry_of 2 r ∷ [] }

-- mappings of elements of 8 bytes, with their numbers and with zeros as contents
abbrev pub numbers : Mapping ℕ
numbers = record {
  offset = offset_lex (layout_for large) 0;
  required = large;
  dims = 2;
  elemsize = 8;
  mem = λ n. n;
}

abbrev pub zeros : Mapping ℕ
zeros = record {
  offset = offset_lex (layout_for small) 0;
  required = small;
  dims = 2;
  elemsize = 8;
  mem = λ n. 0;
}

small-large : (p : Index) → contains 2 p small ≡ true → contains 2 p large ≡ true
unfolding contains holds within
small-large p h = ground arith

pub numbers-InMap : InMap flat small numbers
unfolding range_within_range within_dims within_dim
numbers-InMap = record {
  maps = large ∷ [];
  layout = layout_for large;
  is = record { dims = refl; entries = refl };
  hold = (large-CanHold, tt);
  section = 0;
  held = large;
  found = refl;
  sub = small-large;
  required = refl;
  offset = refl;
  pos_size = omega arith;
}

pub zeros-InMap : InMap flat small zeros
unfolding range_within_range within_dims within_dim
zeros-InMap = record {
  maps = small ∷ [];
  layout = layout_for small;
  is = record { dims = refl; entries = refl };
  hold = (small-CanHold, tt);
  section = 0;
  held = small;
  found = refl;
  sub = λ p h. h;
  required = refl;
  offset = refl;
  pos_size = omega arith;
}

-- a buffer of 30 bytes, which three elements fit in
pack_gen-unpack_gen_example :
    (buf : List ℕ) × (next : Index) × (mem' : ℕ → ℕ) × (pack_gen 2 numbers small corner 30
      ≡ done (buf, next))
    × (unpack_gen 2 zeros small corner buf (length buf * 8) ≡ done (mem', length buf, next))
    × (0 < length buf)
    × Room 2 small corner 8 30 (length buf)
    × Copied 2 small
        (rank 2 numbers-InMap.held)
        (rank 2 zeros-InMap.held)
        corner
        (length buf)
        (λ n. n)
        (λ n. 0)
        mem'
unfolding contains holds within
pack_gen-unpack_gen_example =
    pack_gen-unpack_gen 2 small (omega arith) (omega arith) numbers zeros
      (rank 2 numbers-InMap.held) (rank 2 zeros-InMap.held) corner 30
      (InMap-Serves flat small (omega arith) (omega arith) numbers numbers-InMap)
      (InMap-Serves flat small (omega arith) (omega arith) zeros zeros-InMap) refl refl
      (omega arith)

pack_gen-whole_example :
    (buf : List ℕ) × (next : Index) × (mem' : ℕ → ℕ) × (pack_gen 2 numbers small small.from 32
      ≡ done (buf, next))
    × (unpack_gen 2 zeros small small.from buf (length buf * 8) ≡ done (mem', length buf, next))
    × (length buf ≡ total 2 small)
    × ((p : Index)
        → contains 2 p small ≡ true
        → mem' (rank 2 zeros-InMap.held p) ≡ rank 2 numbers-InMap.held p)
    × ((n : ℕ)
        → ((p : Index) → contains 2 p small ≡ true → ¬ (rank 2 zeros-InMap.held p ≡ n))
        → mem' n ≡ 0)
unfolding total ◌-ℤ◌ contains holds within
pack_gen-whole_example =
    pack_gen-whole flat small numbers zeros 32 (omega arith) (omega arith) refl numbers-InMap
      zeros-InMap refl (omega arith)

next_lex-Steps_example : Steps 2 small corner (next_lex 2 small corner)
unfolding contains holds within
next_lex-Steps_example = next_lex-Steps 2 small corner (omega arith) (omega arith) refl

copy_gen-whole_example :
    (mem' : ℕ → ℕ) × (copy_gen 2 small numbers zeros ≡ done mem')
    × ((p : Index)
        → contains 2 p small ≡ true
        → mem' (rank 2 zeros-InMap.held p) ≡ rank 2 numbers-InMap.held p)
    × ((n : ℕ)
        → ((p : Index) → contains 2 p small ≡ true → ¬ (rank 2 zeros-InMap.held p ≡ n))
        → mem' n ≡ 0)
copy_gen-whole_example =
    copy_gen-whole flat small numbers zeros (omega arith) (omega arith) small-CanHold numbers-InMap
      zeros-InMap refl

reuse_lex-offset_example :
    (l' : LexLayout) × (reuse_lex (layout_for small) 0 (layout_for large) 0 ≡ done (true, l'))
    × ((p : Index) → offset_lex l' 0 p ≡ offset_lex (layout_for large) 0 p)
    × ((k : ℕ) (p : Index) → ¬ (0 ≡ k) → offset_lex l' k p ≡ offset_lex (layout_for small) k p)
unfolding range_within_range within_dims within_dim
reuse_lex-offset_example =
    reuse_lex-offset (layout_for small) (layout_for large) 0 0 (entry_of 2 small) (entry_of 2 large)
      refl refl refl refl
