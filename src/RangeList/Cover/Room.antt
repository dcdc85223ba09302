-- ===== src/RangeList/Cover/Room.antt =====
-- The room that the removals need in the buffer of `laik_rangelist_coversSpace`: a round keeps the
-- old ranges in front of the new ones until its end.
use laik.Prelude.{
  ℕ, zero, suc, ◌+◌, ◌*◌, ◌≤◌, ◌<◌, ◌≡◌, Bool, true, false, Bool-cases, ◌==◌, bit, countp, List, [],
  ◌∷◌, All, all, length, Outcome, done, inl, inr, refl, arith, if◌then◌else◌,
}
use laik.Space.{Range, SpaceRef, Index}
use laik.Space.Points.{contains, filled}
use laik.RangeList.Cover.{coverlist_max, remove_all}
use laik.RangeList.Cover.Exact.{InSpace, Leaves, visit_all-Leaves, append_all-fits}

-- How many ranges the removal of one leaves of `n` at most: in one dimension only one of them can be
-- cut in two, since no index lies in two of them; else each may leave two pieces in each dimension.
abbrev pub most : ℕ → ℕ → ℕ
most dims n = if dims == 1 then n + 1 else 2 * dims * n

-- `k` rounds that start with `n` ranges fit in the buffer.
abbrev pub Fits : ℕ → ℕ → ℕ → Type 0
Fits dims zero n = Unit
Fits dims (suc k) n = (n + most dims n ≤ coverlist_max) × Fits dims k (most dims n)

most_mono : (dims n m : ℕ) → n ≤ m → most dims n ≤ most dims m
most_mono dims n m h = elim (Bool-cases (dims == 1)) [
  | inl e ↦ ground (arith, h)
  | inr e ↦ rw e (grind (arith, h))
]

Fits-mono : (dims k n m : ℕ) → n ≤ m → Fits dims k m → Fits dims k n
Fits-mono dims zero n m h f = tt
Fits-mono dims (suc k) n m h f =
    let up = most_mono dims n m h in
    (omega (arith, h, up, f.0), Fits-mono dims k (most dims n) (most dims m) up f.1)

-- How many ranges the buffer is enough for whatever they are.
abbrev pub enough_ranges : ℕ → ℕ
enough_ranges dims = if dims == 1 then 49 else if dims == 2 then 3 else 2

line-Fits : (k n : ℕ) → 2 * n + 2 * k ≤ 101 → Fits 1 k n
line-Fits zero n h = tt
line-Fits (suc k) n h = (omega (arith, h), line-Fits k (n + 1) (omega (arith, h)))

plane-Fits : (k : ℕ) → k ≤ 3 → Fits 2 k 1
plane-Fits zero h = tt
plane-Fits (suc zero) h = (omega arith, tt)
plane-Fits (suc (suc zero)) h = (omega arith, (omega arith, tt))
plane-Fits (suc (suc (suc zero))) h = (omega arith, (omega arith, (omega arith, tt)))
plane-Fits (suc (suc (suc (suc k)))) h = absurd (omega (arith, h))

solid-Fits : (k : ℕ) → k ≤ 2 → Fits 3 k 1
solid-Fits zero h = tt
solid-Fits (suc zero) h = (omega arith, tt)
solid-Fits (suc (suc zero)) h = (omega arith, (omega arith, tt))
solid-Fits (suc (suc (suc k))) h = absurd (omega (arith, h))

pub enough_ranges-Fits : (dims k : ℕ) → 0 < dims → dims ≤ 3 → k ≤ enough_ranges dims → Fits dims k 1
enough_ranges-Fits zero k p l h = absurd (omega (arith, p))
enough_ranges-Fits (suc zero) k p l h = line-Fits k 1 (omega (arith, h))
enough_ranges-Fits (suc (suc zero)) k p l h = plane-Fits k h
enough_ranges-Fits (suc (suc (suc zero))) k p l h = solid-Fits k h
enough_ranges-Fits (suc (suc (suc (suc n)))) k p l h = absurd (omega (arith, l))

pub bit_le : (b : Bool) → bit b + 0 ≤ 1
bit_le true = omega arith
bit_le false = omega arith

-- In one dimension no index lies in two of the ranges.
abbrev Unshared : SpaceRef → List Range → Type 0
Unshared s rs = s.dims ≡ 1 → (x : Index) → countp (contains s.dims x) rs ≤ 1

module _ (s : SpaceRef) (buf : Range) (pos_dims : 0 < s.dims) (dims_le : s.dims ≤ 3) where
  Leaves-most :
      (r : Range) (before new : List Range)
      → Leaves s r before new
      → filled s.dims r ≡ true
      → Unshared s before
      → (length new ≤ most s.dims (length before)) × Unshared s new
  Leaves-most r before new l f single = elim (Bool-cases (s.dims == 1)) [
    | inl e ↦
        let d : s.dims ≡ 1 = ground (arith, e) in
        let c = l.counted d f in
        (
          rw e (omega (arith, c.one_more, single d r.from)),
          λ d' x. omega (arith, c.once x, single d' x),
        )
    | inr e ↦ (rw e l.size, λ d x. absurd (ground (arith, e, d)))
  ]

  abbrev go_on : List Range → List Range → Outcome (List Range)
  go_on rs left = elim left [ [] ↦ done [] | x ∷ xs ↦ remove_all s.dims buf (x ∷ xs) rs ]

  pub remove_all_returns :
      (rs before : List Range)
      → All (InSpace s) before
      → All (InSpace s) rs
      → all (filled s.dims) rs ≡ true
      → Unshared s before
      → Fits s.dims (length rs) (length before)
      → (left : List Range) × (remove_all s.dims buf before rs ≡ done left)
  unfolding remove_all
  remove_all_returns [] before h k f single e = (before, refl)
  remove_all_returns (r ∷ rs) before h k f single e =
      let (new, ev, lv) = visit_all-Leaves s buf r pos_dims dims_le k.0 (length before) before h in
      let (fewer, single') = Leaves-most r before new lv (ground (arith, f)) single in
      let fits = append_all-fits (length before) [] new (omega (arith, fewer, e.0)) in
      let (left, el) =
        step new lv.in_space single'
          (Fits-mono s.dims (length rs) (length new) (most s.dims (length before)) fewer e.1)
          (λ x xs. remove_all_returns rs (x ∷ xs)) in
      (left, rw (ev [], fits) el)
    where
      step :
          (new : List Range)
          → All (InSpace s) new
          → Unshared s new
          → Fits s.dims (length rs) (length new)
          → ((x : Range) (xs : List Range)
              → All (InSpace s) (x ∷ xs)
              → All (InSpace s) rs
              → all (filled s.dims) rs ≡ true
              → Unshared s (x ∷ xs)
              → Fits s.dims (length rs) (length (x ∷ xs))
              → (left : List Range) × (remove_all s.dims buf (x ∷ xs) rs ≡ done left))
          → (left : List Range) × (go_on rs new ≡ done left)
      step [] hs o e' ih = ([], refl)
      step (x ∷ xs) hs o e' ih = ih x xs hs k.1 (ground (arith, f)) o e'
