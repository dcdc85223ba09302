-- ===== src/Transition/Exchange/Rows.antt =====
-- The loops of the exchange as tables of intersections.
use mathlib.Core.List.{map-append}
use laik.Prelude.Int.{pos}
use laik.Prelude.{
  ap₂, ◌∙◌, ◌++◌, Bool-cases, suc, if◌then◌else◌, refl, ap, inr, inl, Option-cases, ◌∷◌, map, [],
  none, done, ◌≡◌, some, All, flat_map, List, ℕ,
}
use laik.Space.{Range, SpaceRef, intersect_dims}
use laik.Space.Intersect.{range_intersect-dims}
use laik.RangeList.{TaskRange}
use laik.RangeList.Cover.Exact.{InSpace}
use laik.Transition.{SendOp, RecvOp}
use laik.Transition.Exchange.{has_equal, send_row, sends_to, recv_row, recvs_from}

module _ (s : SpaceRef) (buf : Range) where
  -- the intersection of two ranges, as no or one range
  pub piece : Range → Range → List Range
  piece a b = elim (intersect_dims s.dims (record buf { space = some s }) a b) [
    | none ↦ []
    | some r ↦ r ∷ []
  ]

  pub piece-none :
      (a b : Range)
      → intersect_dims s.dims (record buf { space = some s }) a b ≡ none
      → piece a b ≡ []
  unfolding piece
  piece-none a b e = rw (e, piece) refl

  abbrev pub InSpaceAll : List TaskRange → Type 0
  InSpaceAll = All (λ t. InSpace s t.range)

  send_row-pieces :
      (task i : ℕ) (t1 : TaskRange) (ts : List TaskRange)
      → InSpace s t1.range
      → InSpaceAll ts
      → (ops : List SendOp) × (send_row buf task i t1 ts ≡ done ops)
        × (map SendOp.range ops ≡ flat_map (λ t2. piece t1.range t2.range) ts)
  unfolding send_row flat_map piece
  send_row-pieces task i t1 [] h k = ([], refl, refl)
  send_row-pieces task i t1 (t2 ∷ ts) h k =
      let (ops, e, m) = send_row-pieces task i t1 ts h k.1 in
      elim (Option-cases
        (intersect_dims s.dims (record buf { space = some s }) t1.range t2.range)) [
          | inl n ↦ (
            ops,
            rw (range_intersect-dims buf t1.range t2.range h k.0, e, n) refl,
            rw (n, piece) m,
          )
          | inr (r, n) ↦ (
            record { range = r; range_no = pos i; map_no = t1.map_no; to_task = task } ∷ ops,
            rw (range_intersect-dims buf t1.range t2.range h k.0, e, n) refl,
            rw (n, piece) (ap (λ rs. r ∷ rs) m),
          )
        ]

  recv_row-pieces :
      (task i : ℕ) (t1 : TaskRange) (ts : List TaskRange)
      → InSpace s t1.range
      → InSpaceAll ts
      → (ops : List RecvOp) × (recv_row buf task i t1 ts ≡ done ops)
        × (map RecvOp.range ops ≡ flat_map (λ t2. piece t2.range t1.range) ts)
  unfolding recv_row flat_map piece
  recv_row-pieces task i t1 [] h k = ([], refl, refl)
  recv_row-pieces task i t1 (t2 ∷ ts) h k =
      let (ops, e, m) = recv_row-pieces task i t1 ts h k.1 in
      elim (Option-cases
        (intersect_dims s.dims (record buf { space = some s }) t2.range t1.range)) [
          | inl n ↦ (
            ops,
            rw (range_intersect-dims buf t2.range t1.range k.0 h, e, n) refl,
            rw (n, piece) m,
          )
          | inr (r, n) ↦ (
            record { range = r; range_no = pos i; map_no = t1.map_no; from_task = task } ∷ ops,
            rw (range_intersect-dims buf t2.range t1.range k.0 h, e, n) refl,
            rw (n, piece) (ap (λ rs. r ∷ rs) m),
          )
        ]

  -- The ranges that are sent: a row for each own range that the receiver does not have.
  pub sends_to-pieces :
      (task : ℕ) (has tos : List TaskRange) (i : ℕ) (froms : List TaskRange)
      → InSpaceAll tos
      → InSpaceAll froms
      → (ops : List SendOp) × (sends_to buf task has tos i froms ≡ done ops)
        × (map SendOp.range ops
            ≡ flat_map
                (λ t1.
                  if has_equal t1.range has
                  then []
                  else flat_map (λ t2. piece t1.range t2.range) tos)
                froms)
  unfolding sends_to flat_map
  sends_to-pieces task has tos i [] h k = ([], refl, refl)
  sends_to-pieces task has tos i (t1 ∷ froms) h k =
      let (ops, e, m) = sends_to-pieces task has tos (suc i) froms h k.1 in
      let (row, er, mr) = send_row-pieces task i t1 tos k.0 h in
      elim (Bool-cases (has_equal t1.range has)) [
        | inl q ↦ (ops, rw (q, sends_to) e, rw q m)
        | inr q ↦ (
          row ++ ops,
          rw (q, sends_to, er, e) refl,
          rw q (map-append SendOp.range row ops ∙ ap₂ ◌++◌ mr m),
        )
      ]

  -- The ranges that are received: a row for each own new range that is not an old one.
  pub recvs_from-pieces :
      (task : ℕ) (has froms : List TaskRange) (i : ℕ) (tos : List TaskRange)
      → InSpaceAll tos
      → InSpaceAll froms
      → (ops : List RecvOp) × (recvs_from buf task has froms i tos ≡ done ops)
        × (map RecvOp.range ops
            ≡ flat_map
                (λ t1.
                  if has_equal t1.range has
                  then []
                  else flat_map (λ t2. piece t2.range t1.range) froms)
                tos)
  unfolding recvs_from flat_map
  recvs_from-pieces task has froms i [] h k = ([], refl, refl)
  recvs_from-pieces task has froms i (t1 ∷ tos) h k =
      let (ops, e, m) = recvs_from-pieces task has froms (suc i) tos h.1 k in
      let (row, er, mr) = recv_row-pieces task i t1 froms h.0 k in
      elim (Bool-cases (has_equal t1.range has)) [
        | inl q ↦ (ops, rw (q, recvs_from) e, rw q m)
        | inr q ↦ (
          row ++ ops,
          rw (q, recvs_from, er, e) refl,
          rw q (map-append RecvOp.range row ops ∙ ap₂ ◌++◌ mr m),
        )
      ]
