-- ===== src/RangeList/Cover/Subtract.antt =====
-- The index sets of the pieces that the visit of one uncovered range leaves.
use laik.Prelude.{
  ℕ, zero, suc, ◌≤◌, ◌<◌, ◌≡◌, refl, true, false, not, ◌&&◌, ◌||◌, List, ◌++◌, any, any-append,
  arith, if◌then◌else◌,
}
use laik.Prelude.Int.{ℤ, ltb_ℤ}
use laik.Space.{Index, Range}
use laik.Space.Points.{meets, meets_all, within, holds, contains}
use laik.RangeList.Cover.{cut_before, cut_after, subtract_from}

-- the range that is left of dimension `d`
abbrev pub rest : ℕ → Range → Range → Range
rest d rm o = (cut_after d rm (cut_before d rm o).1).1

abbrev pub pieces : ℕ → Range → Range → List Range
pieces d rm o = (cut_before d rm o).0 ++ (cut_after d rm (cut_before d rm o).1).0

-- One interval, cut at the ends of another one that meets it.
cut-middle :
    (x f t rf rt : ℤ)
    → (ltb_ℤ f rt && ltb_ℤ rf t) ≡ true
    → within x (if ltb_ℤ f rf then rf else f) (if ltb_ℤ rt t then rt else t)
      ≡ (within x f t && within x rf rt)
unfolding within
cut-middle x f t rf rt m = ground arith

cut-outer :
    (x f t rf rt : ℤ)
    → (ltb_ℤ f rt && ltb_ℤ rf t) ≡ true
    → ((if ltb_ℤ f rf then within x f rf else false)
        || (if ltb_ℤ rt t then within x rt t else false))
      ≡ (within x f t && not (within x rf rt))
unfolding within
cut-outer x f t rf rt m = ground arith

module _ (dims : ℕ) (p : Index) (rm o : Range) where
  pieces0 :
      meets 0 o rm ≡ true
      → (any (contains dims p) (pieces 0 rm o) ≡ (contains dims p o && not (holds 0 p rm)))
        × (contains dims p (rest 0 rm o) ≡ (contains dims p o && holds 0 p rm))
  unfolding contains holds cut_before cut_after
  pieces0 m = ground (
    arith,
    cut-middle p.i0 o.from.i0 o.to.i0 rm.from.i0 rm.to.i0 m,
    cut-outer p.i0 o.from.i0 o.to.i0 rm.from.i0 rm.to.i0 m,
  )

  pieces1 :
      1 < dims
      → meets 1 o rm ≡ true
      → (any (contains dims p) (pieces 1 rm o) ≡ (contains dims p o && not (holds 1 p rm)))
        × (contains dims p (rest 1 rm o) ≡ (contains dims p o && holds 1 p rm))
  unfolding contains holds cut_before cut_after
  pieces1 h m = ground (
    arith,
    cut-middle p.i1 o.from.i1 o.to.i1 rm.from.i1 rm.to.i1 m,
    cut-outer p.i1 o.from.i1 o.to.i1 rm.from.i1 rm.to.i1 m,
  )

  pieces2 :
      2 < dims
      → meets 2 o rm ≡ true
      → (any (contains dims p) (pieces 2 rm o) ≡ (contains dims p o && not (holds 2 p rm)))
        × (contains dims p (rest 2 rm o) ≡ (contains dims p o && holds 2 p rm))
  unfolding contains holds cut_before cut_after
  pieces2 h m = ground (
    arith,
    cut-middle p.i2 o.from.i2 o.to.i2 rm.from.i2 rm.to.i2 m,
    cut-outer p.i2 o.from.i2 o.to.i2 rm.from.i2 rm.to.i2 m,
  )

  any-subtract_from :
      (n d : ℕ)
      → any (contains dims p) (subtract_from (suc n) d rm o) ≡ (
          any (contains dims p) (pieces d rm o)
          || any (contains dims p) (subtract_from n (suc d) rm (rest d rm o)))
  unfolding subtract_from
  any-subtract_from n d =
      let before = cut_before d rm o in
      let after = cut_after d rm before.1 in
      let later = subtract_from n (suc d) rm after.1 in
      ground (
        arith,
        any-append (contains dims p) before.0 after.0,
        any-append (contains dims p) before.0 (after.0 ++ later),
        any-append (contains dims p) after.0 later,
      )

-- A cut leaves the other dimensions alone.
pub meets1-rest0 : (rm o : Range) → meets 1 (rest 0 rm o) rm ≡ meets 1 o rm
unfolding cut_before cut_after
meets1-rest0 rm o = ground arith

pub meets2-rest0 : (rm o : Range) → meets 2 (rest 0 rm o) rm ≡ meets 2 o rm
unfolding cut_before cut_after
meets2-rest0 rm o = ground arith

pub meets2-rest1 : (rm o : Range) → meets 2 (rest 1 rm o) rm ≡ meets 2 o rm
unfolding cut_before cut_after
meets2-rest1 rm o = ground arith

no_pieces :
    (dims d : ℕ) (p : Index) (rm o : Range) → any (contains dims p) (subtract_from 0 d rm o) ≡ false
unfolding subtract_from
no_pieces dims d p rm o = refl

-- Subtracting a range that meets `o` leaves the indexes of `o` that are not in it.
pub contains-subtract_from :
    (dims : ℕ) (p : Index) (rm o : Range)
    → 0 < dims
    → dims ≤ 3
    → meets_all dims o rm ≡ true
    → any (contains dims p) (subtract_from dims 0 rm o)
      ≡ (contains dims p o && not (contains dims p rm))
unfolding contains
contains-subtract_from zero p rm o h k m = absurd (omega arith)
contains-subtract_from (suc zero) p rm o h k m =
    ground
      (arith, any-subtract_from 1 p rm o 0 0, no_pieces 1 1 p rm (rest 0 rm o), pieces0 1 p rm o)
contains-subtract_from (suc (suc zero)) p rm o h k m =
    let o1 = rest 0 rm o in
    ground (
      arith,
      any-subtract_from 2 p rm o 1 0,
      any-subtract_from 2 p rm o1 0 1,
      no_pieces 2 2 p rm (rest 1 rm o1),
      pieces0 2 p rm o,
      pieces1 2 p rm o1 (omega arith),
      meets1-rest0 rm o,
    )
contains-subtract_from (suc (suc (suc zero))) p rm o h k m =
    let o1 = rest 0 rm o in
    let o2 = rest 1 rm o1 in
    ground (
      arith,
      any-subtract_from 3 p rm o 2 0,
      any-subtract_from 3 p rm o1 1 1,
      any-subtract_from 3 p rm o2 0 2,
      no_pieces 3 3 p rm (rest 2 rm o2),
      pieces0 3 p rm o,
      pieces1 3 p rm o1 (omega arith),
      pieces2 3 p rm o2 (omega arith),
      meets1-rest0 rm o,
      meets2-rest0 rm o,
      meets2-rest1 rm o1,
    )
contains-subtract_from (suc (suc (suc (suc n)))) p rm o h k m = absurd (omega arith)
