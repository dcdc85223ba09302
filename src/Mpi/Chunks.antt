-- ===== src/Mpi/Chunks.antt =====
-- The pieces in which a range is sent.
use laik.Prelude.{
  ap, ◌∙◌, inl, inr, ℕ, zero, suc, ◌+◌, ◌*◌, ◌<◌, ◌≤◌, ◌≡◌, ◌⊎◌, true, List, [], ◌∷◌, length, arith,
}
use laik.Space.{Range, Index, index_is_equal}
use laik.Space.Points.{contains}
use laik.Layout.Walk.{rank, total}
use laik.Layout.RoundTrip.{Holds, after, step-cases, after-more, after-last}
use laik.Mpi.{packbuf_size}

pub index_is_equal_refl : (dims : ℕ) (p : Index) → index_is_equal dims p p ≡ true
unfolding index_is_equal
index_is_equal_refl dims p = ground arith

-- The walk has gone on by `k` indexes, to one of the range, or to its end.
unfoldable pub Arrives : ℕ → Range → Index → ℕ → Type 0
Arrives dims r idx k =
    ((after dims r k idx ≡ r.to) × (rank dims r idx + k ≡ total dims r))
    ⊎ ((contains dims (after dims r k idx) r ≡ true)
        × (rank dims r (after dims r k idx) ≡ rank dims r idx + k))

pub after-Arrives :
    (dims : ℕ) (r : Range) (k : ℕ) (idx : Index)
    → 0 < dims
    → dims ≤ 3
    → contains dims idx r ≡ true
    → rank dims r idx + k ≤ total dims r
    → Arrives dims r idx k
unfolding Arrives after
after-Arrives dims r zero idx pd dl c h = inr (c, omega arith)
after-Arrives dims r (suc k) idx pd dl c h =
    let (next, cases) = step-cases dims r pd dl idx c in
    elim cases [
      | inl (e, c', up) ↦ elim (after-Arrives dims r k next pd dl c' (omega (arith, h, up))) [
        | inl (a, b) ↦ inl (after-more dims r k idx next e ∙ a, omega (arith, b, up))
        | inr (a, b) ↦ inr (
          ap (λ i. contains dims i r) (after-more dims r k idx next e) ∙ a,
          ap (rank dims r) (after-more dims r k idx next e) ∙ omega (arith, b, up),
        )
      ]
      | inr (e, last) ↦ inl (after-last dims r k idx next e, omega (arith, h, last))
    ]

module _ {A : Type 0} (dims : ℕ) (r : Range) (f : Index → ℕ) (mem : ℕ → A) (elemsize : ℕ) where
  -- The chunks hold, in order, the elements of `mem` at all indexes from `idx` on.
  unfoldable pub Chunks : Index → List (List A) → Type 0
  Chunks idx [] = ⊥
  Chunks idx (b ∷ bs) =
      Holds dims r f mem idx b
      × (0 < length b)
      × (length b * elemsize ≤ packbuf_size)
      × (((bs ≡ [])
            × (after dims r (length b) idx ≡ r.to)
            × (rank dims r idx + length b ≡ total dims r))
          ⊎ ((contains dims (after dims r (length b) idx) r ≡ true)
              × (rank dims r (after dims r (length b) idx) ≡ rank dims r idx + length b)
              × Chunks (after dims r (length b) idx) bs))
