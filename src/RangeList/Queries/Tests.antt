-- ===== src/RangeList/Queries/Tests.antt =====
-- The queries on a list of two tasks, as an instance of their theorem.
use mathlib.Core.Option.{some-injective}
use laik.Prelude.{ap, refl, zero, suc}
use laik.Prelude.Int.{sub_ℕ, pos}
use laik.Prelude.{arith, ◌<◌, ◌≤◌, ◌+◌, suc, none, some, get_elem?, done, ◌≡◌, [], ◌∷◌, ℕ}
use laik.RangeList.{TaskRange, RangeList}
use laik.RangeList.Queries.{tid_range_count, tid_range}
use laik.RangeList.Queries.Slots.{IsFrozen, tid_range_lem}
use laik.RangeList.Samples.{ten, piece_of}

abbrev frozen_pieces : RangeList
frozen_pieces = record {
  space = ten;
  tid_count = 2;
  capacity = 2;
  trange = piece_of 0 (pos 0) (pos 4) ∷ piece_of 1 (pos 4) (pos 10) ∷ [];
  tss1d = [];
  off = some (0 ∷ 1 ∷ 2 ∷ []);
  map_tid = none;
  map_off = [];
}

pieces_IsFrozen : IsFrozen frozen_pieces (0 ∷ 1 ∷ 2 ∷ [])
pieces_IsFrozen = record { has_off = refl; count = refl; slot_of = slot_of; in_slot = slots }
  where
    slot_of :
        (i : ℕ) (t : TaskRange)
        → get_elem? frozen_pieces.trange i ≡ some t
        → (a b : ℕ) × (get_elem? (0 ∷ 1 ∷ 2 ∷ []) t.task ≡ some a)
          × (get_elem? (0 ∷ 1 ∷ 2 ∷ []) (suc t.task) ≡ some b)
          × (a ≤ i)
          × (i < b)
    slot_of zero t e =
        let eq : 0 ≡ t.task = ap TaskRange.task (some-injective _ _ e) in
        rw (← eq) (0, 1, refl, refl, omega arith, omega arith)
    slot_of (suc zero) t e =
        let eq : 1 ≡ t.task = ap TaskRange.task (some-injective _ _ e) in
        rw (← eq) (1, 2, refl, refl, omega arith, omega arith)
    slot_of (suc (suc i)) t e = absurd (ground arith)

    slots :
        (k a b i : ℕ)
        → get_elem? (0 ∷ 1 ∷ 2 ∷ []) k ≡ some a
        → get_elem? (0 ∷ 1 ∷ 2 ∷ []) (suc k) ≡ some b
        → a ≤ i
        → i < b
        → (t : TaskRange) × (get_elem? frozen_pieces.trange i ≡ some t) × (t.task ≡ k)
    slots zero a b zero ea eb h l = (piece_of 0 (pos 0) (pos 4), refl, refl)
    slots zero a b (suc i) ea eb h l = absurd (ground arith)
    slots (suc zero) a b zero ea eb h l = absurd (ground arith)
    slots (suc zero) a b (suc zero) ea eb h l = (piece_of 1 (pos 4) (pos 10), refl, refl)
    slots (suc zero) a b (suc (suc i)) ea eb h l = absurd (ground arith)
    slots (suc (suc zero)) a b i ea eb h l = absurd (ground arith)
    slots (suc (suc (suc k))) a b i ea eb h l = absurd (ground arith)

tid_range_lem_example :
    (a b : ℕ) × (get_elem? (0 ∷ 1 ∷ 2 ∷ []) 1 ≡ some a)
    × (get_elem? (0 ∷ 1 ∷ 2 ∷ []) 2 ≡ some b)
    × ((i : ℕ) (t : TaskRange)
        → get_elem? frozen_pieces.trange i ≡ some t
        → t.task ≡ 1
        → (a ≤ i) × (i < b))
    × (tid_range_count frozen_pieces 1 ≡ done (sub_ℕ b a))
    × ((n : ℕ)
        → a + n < b
        → (tid_range frozen_pieces 1 (pos n) ≡ done (some (pos (a + n))))
          × ((t : TaskRange) × (get_elem? frozen_pieces.trange (a + n) ≡ some t) × (t.task ≡ 1)))
    × ((n : ℕ) → b ≤ a + n → tid_range frozen_pieces 1 (pos n) ≡ done none)
tid_range_lem_example = tid_range_lem frozen_pieces (0 ∷ 1 ∷ 2 ∷ []) 1 pieces_IsFrozen (omega arith)
