-- ===== src/Transition/Exchange/Matching.antt =====
-- The send operations of one task and the receive operations of another.
use mathlib.Core.List.{Perm}
use laik.Prelude.{
  some, flat_map_swap, ◌∙◌, subst, ◌++◌, sym, All-fst, refl, map, inr, inl, ap₂, ◌∷◌, if◌then◌else◌,
  done, arith, [], Bool-cases, All-zip, true, false, All, ◌≡◌, ◌<◌, flat_map, List, ℕ,
}
use laik.Space.{range_is_empty, Range, SpaceRef, Index, range_is_equal}
use laik.Space.Points.{contains, filled}
use laik.Space.Intersect.{Apart, intersect_dims-Apart}
use laik.Space.Compare.{range_is_empty-contains, range_is_equal_iff}
use laik.RangeList.{TaskRange}
use laik.RangeList.Cover.Exact.{InSpace}
use laik.Transition.{SendOp, RecvOp}
use laik.Transition.Exchange.{has_equal, sends_to, recvs_from}
use laik.Transition.Exchange.Rows.{piece-none, piece, sends_to-pieces, recvs_from-pieces}

-- a non-empty range of the space `s`
abbrev pub Proper : SpaceRef → TaskRange → Type 0
Proper s t = InSpace s t.range × (filled s.dims t.range ≡ true)

-- no range of the one list has an index in common with a range of the other
abbrev pub Disjoint : ℕ → List TaskRange → List TaskRange → Type 0
Disjoint dims ts us = All (λ t. All (λ u. Apart dims t.range u.range) us) ts

-- the first range of the list that is equal to `r`
has_equal-some :
    (P : TaskRange → Type 0) (r : Range) (ts : List TaskRange)
    → All P ts
    → has_equal r ts ≡ true
    → (t : TaskRange) × P t × (range_is_equal r t.range ≡ true)
unfolding has_equal
has_equal-some P r [] h e = cc
has_equal-some P r (t ∷ ts) h e = elim (Bool-cases (range_is_equal r t.range)) [
  | inl q ↦ (t, h.0, q)
  | inr q ↦ has_equal-some P r ts h.1 (ground arith)
]

flat_map_congr :
    (f g : TaskRange → List Range) (ts : List TaskRange)
    → All (λ t. f t ≡ g t) ts
    → flat_map f ts ≡ flat_map g ts
unfolding flat_map
flat_map_congr f g [] h = refl
flat_map_congr f g (t ∷ ts) h = ap₂ ◌++◌ h.0 (flat_map_congr f g ts h.1)

flat_map-empty :
    (f : TaskRange → List Range) (ts : List TaskRange) → All (λ t. f t ≡ []) ts → flat_map f ts ≡ []
unfolding flat_map
flat_map-empty f [] h = refl
flat_map-empty f (t ∷ ts) h = ap₂ ◌++◌ h.0 (flat_map-empty f ts h.1)

module _ (s : SpaceRef) (buf : Range) (pos_dims : 0 < s.dims) where
  piece-Apart :
      (a b : TaskRange)
      → Proper s a
      → Proper s b
      → Apart s.dims a.range b.range
      → piece s buf a.range b.range ≡ []
  piece-Apart a b pa pb d =
      piece-none s buf a.range b.range
        (intersect_dims-Apart s.dims (record buf { space = some s }) a.range b.range pa.1 pb.1 d)

  not_empty : (t : TaskRange) → Proper s t → range_is_empty t.range ≡ false
  not_empty t p = ground (arith, range_is_empty-contains t.range p.0)

  same_indexes :
      (a b : TaskRange)
      → Proper s a
      → Proper s b
      → range_is_equal a.range b.range ≡ true
      → (p : Index) → contains s.dims p a.range ≡ contains s.dims p b.range
  same_indexes a b pa pb e =
      (range_is_equal_iff a.range b.range pa.0 pb.0 pos_dims (not_empty a pa) (not_empty b pb)).0 e

  -- A range that has no index in common with those of a list is equal to none of them.
  has_equal-Apart :
      (t : TaskRange) (us : List TaskRange)
      → Proper s t
      → All (Proper s) us
      → All (λ u. Apart s.dims t.range u.range) us
      → has_equal t.range us ≡ false
  has_equal-Apart t us p ps d = elim (Bool-cases (has_equal t.range us)) [
    | inr q ↦ q
    | inl q ↦
        let (u, (pu, du), e) =
          has_equal-some (λ u. Proper s u × Apart s.dims t.range u.range) t.range us
            (All-zip (Proper s) (λ u. Apart s.dims t.range u.range) us ps d) q in
        absurd (ground (arith, du t.range.from, same_indexes t u p pu e t.range.from, p.1))
  ]

  -- A range that is equal to one of a list meets no range that is apart from the list.
  Apart-of_equal :
      (a t : TaskRange) (has : List TaskRange)
      → Proper s t
      → All (Proper s) has
      → All (λ u. Apart s.dims a.range u.range) has
      → has_equal t.range has ≡ true
      → Apart s.dims a.range t.range
  Apart-of_equal a t has pt ps d q x =
      let (u, (pu, du), e) =
        has_equal-some (λ u. Proper s u × Apart s.dims a.range u.range) t.range has
          (All-zip (Proper s) (λ u. Apart s.dims a.range u.range) has ps d) q in
      ground (arith, du x, same_indexes t u pt pu e x)

  module _ (from_a from_b to_b : List TaskRange) (pa : All (Proper s) from_a)
      (pb : All (Proper s) from_b) (pt : All (Proper s) to_b)
      (d : Disjoint s.dims from_a from_b) where
    sent :
        (ts : List TaskRange)
        → All (Proper s) ts
        → Disjoint s.dims ts from_b
        → All
            (λ t1.
              (if has_equal t1.range from_b
                then []
                else flat_map (λ t2. piece s buf t1.range t2.range) to_b)
              ≡ flat_map (λ t2. piece s buf t1.range t2.range) to_b)
            ts
    sent [] p h = tt
    sent (t ∷ ts) p h = (rw (has_equal-Apart t from_b p.0 pb h.0) refl, sent ts p.1 h.1)

    no_row :
        (t : TaskRange) (as' : List TaskRange)
        → Proper s t
        → All (Proper s) as'
        → Disjoint s.dims as' from_b
        → has_equal t.range from_b ≡ true
        → All (λ t2. piece s buf t2.range t.range ≡ []) as'
    no_row t [] p ps h q = tt
    no_row t (a ∷ as') p ps h q =
        (piece-Apart a t ps.0 p (Apart-of_equal a t from_b p pb h.0 q), no_row t as' p ps.1 h.1 q)

    received :
        (ts : List TaskRange)
        → All (Proper s) ts
        → All
            (λ t1.
              (if has_equal t1.range from_b
                then []
                else flat_map (λ t2. piece s buf t2.range t1.range) from_a)
              ≡ flat_map (λ t2. piece s buf t2.range t1.range) from_a)
            ts
    received [] p = tt
    received (t ∷ ts) p = (
      elim (Bool-cases (has_equal t.range from_b)) [
        | inl q ↦ rw q (
            sym (
              flat_map-empty (λ t2. piece s buf t2.range t.range) from_a
                (no_row t from_a p.0 pa d q)))
        | inr q ↦ rw q refl
      ],
      received ts p.1,
    )

    -- Task `a` has the old ranges `from_a`, task `b` the old ranges `from_b` and the new ranges
    -- `to_b`; all of them are non-empty ranges of the space, which has dimensions, and no old range
    -- of `a` has an index in common with one of `b`. Then both loops return, and the ranges of the
    -- send operations of `a` to `b` are those of the receive operations of `b` from `a`, each as
    -- often, in some order.
    pub sends_match_recvs :
        (a b : ℕ)
        → (sends : List SendOp) × (recvs : List RecvOp) × (sends_to buf b from_b to_b 0 from_a
            ≡ done sends)
          × (recvs_from buf a from_b from_a 0 to_b ≡ done recvs)
          × Perm (map SendOp.range sends) (map RecvOp.range recvs)
    sends_match_recvs a b =
        let in_space = λ (ts : List TaskRange) (p : All (Proper s) ts).
          All-fst (λ t. InSpace s t.range) (λ t. filled s.dims t.range ≡ true) ts p in
        let (sends, es, ms) =
          sends_to-pieces s buf b from_b to_b 0 from_a (in_space to_b pt) (in_space from_a pa) in
        let (recvs, er, mr) =
          recvs_from-pieces s buf a from_b from_a 0 to_b (in_space to_b pt) (in_space from_a pa) in
        (
          sends,
          recvs,
          es,
          er,
          subst (λ xs. Perm xs (map RecvOp.range recvs))
              (sym (ms ∙ flat_map_congr _ _ from_a (sent from_a pa d)))
              (subst
                (λ ys.
                  Perm (flat_map (λ t1. flat_map (λ t2. piece s buf t1.range t2.range) to_b) from_a)
                    ys)
                (sym (mr ∙ flat_map_congr _ _ to_b (received to_b pt)))
                (flat_map_swap (λ t1 t2. piece s buf t1.range t2.range) from_a to_b)),
        )
