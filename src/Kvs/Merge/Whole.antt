-- ===== src/Kvs/Merge/Whole.antt =====
-- `laik_kvs_changes_merge` as a whole.
use laik.Prelude.{
  ℕ, ◌+◌, ◌*◌, ◌/◌, ◌≤◌, ◌<◌, true, leb, List, [], ◌∷◌, length, map, ◌≡◌, refl, ap₂, sym, ◌∙◌,
  subst, arith,
}
use laik.Kvs.{Changes}
use laik.Kvs.Journal.{
  sorts_after, merge_loop, changes_merge, changes_set_size, changes_ensure_size, grown,
}
use laik.Kvs.Encode.{Change, encoded, offsets, length-ends}
use laik.Kvs.Decode.{entry_of}
use laik.Kvs.Append.{Filled, Filled-less, Ascending, After}
use laik.Kvs.Merge.{Merges, merge_loop-Merges}

-- A sorted journal: its entries are those of changes with ascending keys, its offsets and bytes
-- have their size.
pub record IsSortedJournal (c : Changes) (ps : List Change) : Type 0 where
  pub ascending : Ascending ps
  pub listed : c.entries ≡ map entry_of ps
  pub off_length : length c.off ≡ length (offsets ps)
  pub bytes_length : length c.bytes ≡ length (encoded ps)

length-offsets :
    (ps : List Change)
    → (length (offsets ps) ≤ 2 * length ps + 1)
      × (2 * length ps ≤ length (offsets ps))
      × (0 < length ps → length (offsets ps) ≡ 2 * length ps + 1)
length-offsets [] = (omega arith, omega arith, λ h. absurd (omega arith))
length-offsets (p ∷ ps) = (
  omega (arith, length-ends 0 (p ∷ ps)),
  omega (arith, length-ends 0 (p ∷ ps)),
  λ h. omega (arith, length-ends 0 (p ∷ ps)),
)

After-nil : (ps : List Change) → After [] ps
unfolding sorts_after
After-nil [] = tt
After-nil (p ∷ ps) = refl

-- The destination, cleared and enlarged.
abbrev enlarged : Changes → ℕ → ℕ → Changes
enlarged dst n b = record dst {
  off = [];
  bytes = [];
  entries = [];
  off_size = grown dst.off_size n;
  bytes_size = grown dst.bytes_size b;
  entry_size = grown dst.entry_size (n / 2);
}

changes_merge-enlarged :
    (dst src1 src2 : Changes)
    → changes_merge dst src1 src2
      ≡ merge_loop
          (enlarged dst (length src1.off + length src2.off) (length src1.bytes + length src2.bytes))
          src1.entries
          src2.entries
unfolding changes_merge changes_set_size changes_ensure_size grown
changes_merge-enlarged dst src1 src2 =
    let off : leb 0 dst.off_size ≡ true = ground arith in
    let bytes : leb 0 dst.bytes_size ≡ true = ground arith in
    let entries : leb 0 dst.entry_size ≡ true = ground arith in rw (off, bytes, entries) refl

enlarged-Filled :
    (dst : Changes) (n b m : ℕ)
    → dst.off_size / 2 ≤ dst.entry_size
    → (0 < m → 2 * m + 1 ≤ n)
    → m ≤ n / 2
    → Filled (enlarged dst n b) [] m b
unfolding grown
enlarged-Filled dst n b m room off half = record {
  held = record {
    bytes_eq = refl;
    off_eq = refl;
    off_fits = omega arith;
    bytes_fit = omega arith;
    room = ground (arith, room);
  };
  listed = refl;
  off_free = λ some_left. ground (arith, off some_left);
  bytes_free = ground arith;
  entry_free = ground arith;
}

-- Merging two sorted journals either aborts, where both change a key to values that `strncmp`
-- tells apart, or returns a sorted journal of their union, whatever the destination held before. Its
-- entry array has room for half of its offsets.
pub changes_merge-Merges :
    (dst src1 src2 : Changes) (xs ys : List Change)
    → dst.off_size / 2 ≤ dst.entry_size
    → IsSortedJournal src1 xs
    → IsSortedJournal src2 ys
    → Merges [] xs ys (changes_merge dst src1 src2)
changes_merge-Merges dst src1 src2 xs ys room one two =
    let n = length src1.off + length src2.off in
    let b = length src1.bytes + length src2.bytes in
    let (_, atleastx, consx) = length-offsets xs in
    let (_, atleasty, consy) = length-offsets ys in
    let filled : Filled (enlarged dst n b) [] (length xs + length ys) b =
      enlarged-Filled dst n b (length xs + length ys) room
        (λ some_left. ground (arith, one.off_length, two.off_length, consx, consy))
        (omega (arith, one.off_length, two.off_length, atleastx, atleasty)) in
    subst (Merges [] xs ys)
      (sym (
        changes_merge-enlarged dst src1 src2
        ∙ ap₂ (merge_loop (enlarged dst n b)) one.listed two.listed))
      (merge_loop-Merges xs ys (enlarged dst n b) [] (
        Filled-less filled (omega arith) (omega (arith, one.bytes_length, two.bytes_length)),
        one.ascending,
        two.ascending,
        After-nil xs,
        After-nil ys,
      ))
