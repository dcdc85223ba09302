-- ===== src/RangeList/Freeze/Tests.antt =====
-- Runs of the parts of `laik_rangelist_freeze`, and instances of their theorems.
use laik.RangeList.Freeze.Order.{trgen_cmp_int-IsOrder}
use laik.Prelude.Sort.{by_insertion, IsSorted}
use laik.Prelude.Int.{◌<ℤ◌, negsuc, ◌≤ℤ◌, ◌-ℤ◌, ℤ, pos}
use laik.Prelude.{
  ◌⊎◌, true, none, ◌<◌, ◌≤◌, suc, some, get_elem?, map, any, refl, length, done, ◌≡◌, ℕ, arith, [],
  ◌∷◌, List,
}
use laik.RangeList.{TaskRange, RangeList}
use laik.RangeList.Freeze.Whole.{freeze_lem}
use laik.RangeList.Queries.Slots.{IsFrozen}
use laik.RangeList.Freeze.{trgen_cmp_int, freeze, trgen_cmp, merge_sorted_ranges, update_offsets}
use laik.RangeList.Freeze.Merge.{owned, Separated, merge_sorted_ranges_lem}
use laik.RangeList.Freeze.Offsets.{unnumbered, update_offsets_lem}
use laik.RangeList.Samples.{ten, segment, piece_of}

abbrev first_piece : TaskRange
first_piece = piece_of 0 (pos 0) (pos 4)

abbrev more_pieces : List TaskRange
more_pieces =
    piece_of 0 (pos 3) (pos 6) ∷ piece_of 0 (pos 8) (pos 9) ∷ piece_of 1 (pos 5) (pos 10) ∷ []

pieces_sorted : IsSorted trgen_cmp (first_piece ∷ more_pieces)
unfolding trgen_cmp
pieces_sorted = ground arith

merge_run :
    merge_sorted_ranges 1 (first_piece ∷ more_pieces)
    ≡ done
        (piece_of 0 (pos 0) (pos 6) ∷ piece_of 0 (pos 8) (pos 9) ∷ piece_of 1 (pos 5) (pos 10) ∷ [])
unfolding merge_sorted_ranges
merge_run = refl

merge_sorted_ranges_lem_example :
    (out : List TaskRange) × (merge_sorted_ranges 1 (first_piece ∷ more_pieces) ≡ done out)
    × ((k : ℕ) (g x : ℤ) → any (owned k g x) out ≡ any (owned k g x) (first_piece ∷ more_pieces))
    × Separated out
    × IsSorted trgen_cmp out
merge_sorted_ranges_lem_example = merge_sorted_ranges_lem first_piece more_pieces pieces_sorted

update_offsets_lem_example :
    (offs : List ℕ) × (out : List TaskRange) × (update_offsets 2 (first_piece ∷ more_pieces)
      ≡ done (offs, out))
    × (length offs ≡ 3)
    × (map unnumbered out ≡ map unnumbered (first_piece ∷ more_pieces))
    × ((i : ℕ) (t : TaskRange)
        → get_elem? out i ≡ some t
        → (a b : ℕ) × (get_elem? offs t.task ≡ some a)
          × (get_elem? offs (suc t.task) ≡ some b)
          × (a ≤ i)
          × (i < b))
    × ((k a b i : ℕ)
        → get_elem? offs k ≡ some a
        → get_elem? offs (suc k) ≡ some b
        → a ≤ i
        → i < b
        → (t : TaskRange) × (get_elem? out i ≡ some t) × (t.task ≡ k))
update_offsets_lem_example =
    update_offsets_lem 2 (first_piece ∷ more_pieces) (ground arith) (ground arith)

abbrev unsorted : RangeList
unsorted = record {
  space = ten;
  tid_count = 2;
  capacity = 4;
  trange =
      piece_of 1 (pos 5) (pos 10) ∷ piece_of 0 (pos 3) (pos 6) ∷ piece_of 0 (pos 0) (pos 4) ∷ [];
  tss1d = [];
  off = none;
  map_tid = none;
  map_off = [];
}

freeze_lem_example :
    (out : RangeList) × (offs : List ℕ) × (freeze by_insertion
        (segment (pos 0) (pos 0))
        true
        unsorted
      ≡ done out)
    × IsFrozen out offs
    × ((k : ℕ) (g x : ℤ) → any (owned k g x) out.trange ≡ any (owned k g x) unsorted.trange)
freeze_lem_example =
    freeze_lem by_insertion (segment (pos 0) (pos 0)) unsorted refl refl refl (omega arith)
      (ground arith)

abbrev tagged : ℤ → TaskRange
tagged g = record (piece_of 0 (pos 0) (pos 4)) { tag = g }

trgen_cmp_int-IsOrder_example :
    ((trgen_cmp_int (tagged (pos 7)) (tagged (pos 2147483647)) ≤ℤ pos 0)
      ⊎ (trgen_cmp_int (tagged (pos 2147483647)) (tagged (pos 7)) ≤ℤ pos 0))
    × (trgen_cmp_int (tagged (pos 7)) (tagged (pos 2147483647)) ≤ℤ pos 0
        → trgen_cmp_int (tagged (pos 2147483647)) (piece_of 1 (pos 0) (pos 4)) ≤ℤ pos 0
        → trgen_cmp_int (tagged (pos 7)) (piece_of 1 (pos 0) (pos 4)) ≤ℤ pos 0)
    × (trgen_cmp_int (tagged (pos 7)) (tagged (pos 2147483647))
        ≡ trgen_cmp (tagged (pos 7)) (tagged (pos 2147483647)))
trgen_cmp_int-IsOrder_example =
    trgen_cmp_int-IsOrder (tagged (pos 7)) (tagged (pos 2147483647)) (piece_of 1 (pos 0) (pos 4))
      (record { task_lt = omega arith; tag_ge = omega arith; tag_lt = omega arith })
      (record { task_lt = omega arith; tag_ge = omega arith; tag_lt = omega arith })
      (record { task_lt = omega arith; tag_ge = omega arith; tag_lt = omega arith })

-- With a negative tag the wrap-around makes the comparison a cycle.
tags_cycle :
    (trgen_cmp_int (tagged (pos 2147483647)) (tagged (negsuc 1)) <ℤ pos 0)
    × (trgen_cmp_int (tagged (negsuc 1)) (tagged (pos 0)) <ℤ pos 0)
    × (trgen_cmp_int (tagged (pos 0)) (tagged (pos 2147483647)) <ℤ pos 0)
unfolding trgen_cmp_int ◌-ℤ◌
tags_cycle = (omega arith, omega arith, omega arith)
