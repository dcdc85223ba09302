-- ===== src/RangeList/Cover/Filled.antt =====
-- Lemmas on the visit of an uncovered range that has indexes.
use laik.Prelude.{
  ℕ, zero, suc, ◌≤◌, ◌<◌, ◌≡◌, refl, true, ◌&&◌, ◌++◌, all, all-append, arith, if◌then◌else◌,
}
use laik.Prelude.Int.{ℤ, ltb_ℤ}
use laik.Space.{Range}
use laik.Space.Points.{within, holds, contains, meets, meets_all, filled}
use laik.RangeList.Cover.{cut_before, cut_after, subtract_from}
use laik.RangeList.Cover.Subtract.{pieces, rest, meets1-rest0, meets2-rest0, meets2-rest1}

cut-filled :
    (f t rf rt : ℤ)
    → (ltb_ℤ f rt && ltb_ℤ rf t) ≡ true
    → within f f t ≡ true
    → within rf rf rt ≡ true
    → ((if ltb_ℤ f rf then within f f rf else true) ≡ true)
      × ((if ltb_ℤ rt t then within rt rt t else true) ≡ true)
      × (within
            (if ltb_ℤ f rf then rf else f)
            (if ltb_ℤ f rf then rf else f)
            (if ltb_ℤ rt t then rt else t)
          ≡ true)
unfolding within
cut-filled f t rf rt m a b = ground arith

module _ (dims : ℕ) (rm o : Range) where
  filled0 :
      meets 0 o rm ≡ true
      → filled dims rm ≡ true
      → filled dims o ≡ true
      → (all (filled dims) (pieces 0 rm o) ≡ true) × (filled dims (rest 0 rm o) ≡ true)
  unfolding contains holds cut_before cut_after
  filled0 m a b = ground (arith, cut-filled o.from.i0 o.to.i0 rm.from.i0 rm.to.i0 m)

  filled1 :
      1 < dims
      → meets 1 o rm ≡ true
      → filled dims rm ≡ true
      → filled dims o ≡ true
      → (all (filled dims) (pieces 1 rm o) ≡ true) × (filled dims (rest 1 rm o) ≡ true)
  unfolding contains holds cut_before cut_after
  filled1 h m a b = ground (arith, cut-filled o.from.i1 o.to.i1 rm.from.i1 rm.to.i1 m)

  filled2 :
      2 < dims
      → meets 2 o rm ≡ true
      → filled dims rm ≡ true
      → filled dims o ≡ true
      → (all (filled dims) (pieces 2 rm o) ≡ true) × (filled dims (rest 2 rm o) ≡ true)
  unfolding contains holds cut_before cut_after
  filled2 h m a b = ground (arith, cut-filled o.from.i2 o.to.i2 rm.from.i2 rm.to.i2 m)

  all-subtract_from :
      (n d : ℕ)
      → all (filled dims) (subtract_from (suc n) d rm o) ≡ (
          all (filled dims) (pieces d rm o)
          && all (filled dims) (subtract_from n (suc d) rm (rest d rm o)))
  unfolding subtract_from
  all-subtract_from n d =
      let before = cut_before d rm o in
      let after = cut_after d rm before.1 in
      let later = subtract_from n (suc d) rm after.1 in
      ground (
        arith,
        all-append (filled dims) before.0 after.0,
        all-append (filled dims) before.0 (after.0 ++ later),
        all-append (filled dims) after.0 later,
      )

no_pieces : (dims d : ℕ) (rm o : Range) → all (filled dims) (subtract_from 0 d rm o) ≡ true
unfolding subtract_from
no_pieces dims d rm o = refl

pub filled-subtract_from :
    (dims : ℕ) (rm o : Range)
    → 0 < dims
    → dims ≤ 3
    → meets_all dims o rm ≡ true
    → filled dims rm ≡ true
    → filled dims o ≡ true
    → all (filled dims) (subtract_from dims 0 rm o) ≡ true
filled-subtract_from zero rm o h k m a b = absurd (omega arith)
filled-subtract_from (suc zero) rm o h k m a b =
    ground (arith, all-subtract_from 1 rm o 0 0, no_pieces 1 1 rm (rest 0 rm o), filled0 1 rm o)
filled-subtract_from (suc (suc zero)) rm o h k m a b =
    let o1 = rest 0 rm o in
    ground (
      arith,
      all-subtract_from 2 rm o 1 0,
      all-subtract_from 2 rm o1 0 1,
      no_pieces 2 2 rm (rest 1 rm o1),
      filled0 2 rm o,
      filled1 2 rm o1 (omega arith),
      meets1-rest0 rm o,
    )
filled-subtract_from (suc (suc (suc zero))) rm o h k m a b =
    let o1 = rest 0 rm o in
    let o2 = rest 1 rm o1 in
    ground (
      arith,
      all-subtract_from 3 rm o 2 0,
      all-subtract_from 3 rm o1 1 1,
      all-subtract_from 3 rm o2 0 2,
      no_pieces 3 3 rm (rest 2 rm o2),
      filled0 3 rm o,
      filled1 3 rm o1 (omega arith),
      filled2 3 rm o2 (omega arith),
      meets1-rest0 rm o,
      meets2-rest0 rm o,
      meets2-rest1 rm o1,
    )
filled-subtract_from (suc (suc (suc (suc n)))) rm o h k m a b = absurd (omega arith)
