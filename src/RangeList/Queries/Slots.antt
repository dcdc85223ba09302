-- ===== src/RangeList/Queries/Slots.antt =====
-- The queries by task on a frozen range list.
use mathlib.Core.Option.{some-injective}
use laik.Prelude.Int.{pos, sub_ℕ}
use laik.Prelude.{
  sym, ap, ◌∙◌, zero, [], ◌∷◌, refl, get_elem?-some, arith, none, ◌≤◌, suc, get_elem?, ◌+◌, length,
  some, done, ◌≡◌, ◌<◌, ℕ, List,
}
use laik.RangeList.{TaskRange, RangeList}
use laik.RangeList.Queries.{tid_range_count, tid_range, task_range, slot}

-- The offset array of the list is `offs`, and the ranges at the positions from `offs[k]` to before
-- `offs[k + 1]` are those of task `k`.
pub record IsFrozen (list : RangeList) (offs : List ℕ) : Type 0 where
  pub has_off : list.off ≡ some offs
  pub count : length offs ≡ list.tid_count + 1
  pub slot_of :
      (i : ℕ) (t : TaskRange)
      → get_elem? list.trange i ≡ some t
      → (a b : ℕ) × (get_elem? offs t.task ≡ some a)
        × (get_elem? offs (suc t.task) ≡ some b)
        × (a ≤ i)
        × (i < b)
  pub in_slot :
      (k a b i : ℕ)
      → get_elem? offs k ≡ some a
      → get_elem? offs (suc k) ≡ some b
      → a ≤ i
      → i < b
      → (t : TaskRange) × (get_elem? list.trange i ≡ some t) × (t.task ≡ k)

slot-done :
    (list : RangeList) (offs : List ℕ) (tid : ℕ) {a b : ℕ}
    → IsFrozen list offs
    → tid < list.tid_count
    → get_elem? offs tid ≡ some a
    → get_elem? offs (suc tid) ≡ some b
    → slot list tid ≡ done (a, b)
unfolding slot
slot-done list offs tid f h ea eb = ground (arith, f.has_off)

tid_range_count-slot :
    (list : RangeList) (tid : ℕ) {a b : ℕ}
    → slot list tid ≡ done (a, b)
    → tid_range_count list tid ≡ done (sub_ℕ b a)
unfolding tid_range_count
tid_range_count-slot list tid es = rw es refl

in_range : (xs : List TaskRange) (i : ℕ) {t : TaskRange} → get_elem? xs i ≡ some t → i < length xs
in_range [] i e = cc
in_range (x ∷ xs) zero e = omega arith
in_range (x ∷ xs) (suc i) e = omega (arith, in_range xs i e)

tid_range-inside :
    (list : RangeList) (tid n : ℕ) {a b : ℕ} {t : TaskRange}
    → slot list tid ≡ done (a, b)
    → get_elem? list.trange (a + n) ≡ some t
    → t.task ≡ tid
    → a + n < b
    → tid_range list tid (pos n) ≡ done (some (pos (a + n)))
unfolding tid_range task_range
tid_range-inside list tid n {a} es et ek k = ground (arith, in_range list.trange (a + n) et)

tid_range-outside :
    (list : RangeList) (tid n : ℕ) {a b : ℕ}
    → slot list tid ≡ done (a, b)
    → b ≤ a + n
    → tid_range list tid (pos n) ≡ done none
unfolding tid_range
tid_range-outside list tid n es k = ground arith

slot_of_task :
    (list : RangeList) (offs : List ℕ) (tid i : ℕ) (t : TaskRange) {a b : ℕ}
    → IsFrozen list offs
    → get_elem? offs tid ≡ some a
    → get_elem? offs (suc tid) ≡ some b
    → get_elem? list.trange i ≡ some t
    → t.task ≡ tid
    → (a ≤ i) × (i < b)
slot_of_task list offs tid i t {a} {b} f ea eb et ek =
    let (a', b', ea', eb', from, to) = f.slot_of i t et in
    let same_from : a' ≡ a = some-injective _ _ (sym ea' ∙ ap (get_elem? offs) ek ∙ ea) in
    let same_to : b' ≡ b =
      some-injective _ _ (sym eb' ∙ ap (λ k. get_elem? offs (suc k)) ek ∙ eb) in
    (omega (arith, same_from, from), omega (arith, same_to, to))

-- In a frozen list with the offset array `offs`, a task below `tid_count` has the offsets
-- `a = offs[tid]` and `b = offs[tid + 1]`. The ranges of the task are at positions from `a` to
-- before `b`, `laik_rangelist_tidrangecount` returns `b - a`, and `laik_rangelist_tidrange` returns
-- the handle of the range at `a + n`, which is a range of that task, if this is before `b`, and the
-- null pointer if it is not.
pub tid_range_lem :
    (list : RangeList) (offs : List ℕ) (tid : ℕ)
    → IsFrozen list offs
    → tid < list.tid_count
    → (a b : ℕ) × (get_elem? offs tid ≡ some a)
      × (get_elem? offs (suc tid) ≡ some b)
      × ((i : ℕ) (t : TaskRange)
          → get_elem? list.trange i ≡ some t
          → t.task ≡ tid
          → (a ≤ i) × (i < b))
      × (tid_range_count list tid ≡ done (sub_ℕ b a))
      × ((n : ℕ)
          → a + n < b
          → (tid_range list tid (pos n) ≡ done (some (pos (a + n))))
            × ((t : TaskRange) × (get_elem? list.trange (a + n) ≡ some t) × (t.task ≡ tid)))
      × ((n : ℕ) → b ≤ a + n → tid_range list tid (pos n) ≡ done none)
tid_range_lem list offs tid f h =
    let (a, ea) = get_elem?-some offs tid (omega (arith, f.count)) in
    let (b, eb) = get_elem?-some offs (suc tid) (omega (arith, f.count)) in
    let es = slot-done list offs tid f h ea eb in
    (
      a,
      b,
      ea,
      eb,
      λ i t et ek. slot_of_task list offs tid i t f ea eb et ek,
      tid_range_count-slot list tid es,
      λ n k.
          let (t, et, ek) = f.in_slot tid a b (a + n) ea eb (omega arith) (omega arith) in
          (tid_range-inside list tid n es et ek k, (t, et, ek)),
      λ n k. tid_range-outside list tid n es k,
    )
