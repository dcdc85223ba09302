-- ===== src/RangeList/Freeze/Offsets.antt =====
-- `updateOffsets`: the offset array and the ranges of each task.
use mathlib.Core.List.{map-append}
use native.Mathlib.Nat.{zero-add}
use native.Mathlib.Decide.{dec_lt}
use laik.Prelude.{
  subst, if◌then◌else◌, not, ◌||◌, zero, true, refl, ap, cons-head, cons-tail, ◌==◌,
  get_elem?-append_left, get_elem?-append_right, get_elem?-some, All-get_elem?, sym, ◌∙◌, ◌-◌, ◌==◌,
  inr, ◌<◌, ltb→lt, ◌+◌, inl, ◌++◌, some, ltb, map, get_elem?, Bool-cases, suc, done, arith, [],
  ◌≤◌, ◌≡◌, ◌∷◌, length, All, List, ℕ,
}
use laik.Prelude.Int.{◌+ℤ◌, eq_ℤ, negsuc, pos, ℤ}
use laik.Prelude.Sort.{IsSorted}
use laik.RangeList.{TaskRange}
use laik.RangeList.Freeze.{trgen_cmp, number_task, offsets_from, update_offsets}
use laik.RangeList.Freeze.Order.{trgen_cmp_task}

-- The tasks are at least `k` and do not fall.
abbrev pub ByTask : ℕ → List TaskRange → Type 0
ByTask k [] = Unit
ByTask k (t ∷ ts) = (k ≤ t.task) × ByTask t.task ts

ByTask_mono : (k j : ℕ) (ts : List TaskRange) → k ≤ j → ByTask j ts → ByTask k ts
ByTask_mono k j [] h b = tt
ByTask_mono k j (t ∷ ts) h b = (omega arith, b.1)

IsSorted-ByTask_from :
    (t : TaskRange) (ts : List TaskRange) → IsSorted trgen_cmp (t ∷ ts) → ByTask t.task ts
IsSorted-ByTask_from t [] s = tt
IsSorted-ByTask_from t (u ∷ us) s = (trgen_cmp_task t u s.0.0, IsSorted-ByTask_from u us s.1)

-- What `sortRanges` and `mergeSortedRanges` return is sorted by task.
pub IsSorted-ByTask : (ts : List TaskRange) → IsSorted trgen_cmp ts → ByTask 0 ts
IsSorted-ByTask [] s = tt
IsSorted-ByTask (t ∷ ts) s = (omega arith, IsSorted-ByTask_from t ts s)

-- the range without its mapping number, which `updateOffsets` sets
abbrev pub unnumbered : TaskRange → TaskRange
unnumbered t = record t { map_no = pos 0 }

-- The ranges of `task` are split off, and nothing else is changed but mapping numbers.
record Split (task : ℕ) (ts mine rest : List TaskRange) : Type 0 where
  mine_task : All (λ t. t.task ≡ task) mine
  later : ByTask (suc task) rest
  same : map unnumbered (mine ++ rest) ≡ map unnumbered ts

number_task-Split :
    (task : ℕ) (m l : ℤ) (ts : List TaskRange)
    → ByTask task ts
    → (mine : List TaskRange) × (rest : List TaskRange) × (number_task task m l ts
        ≡ done (mine, rest))
      × Split task ts mine rest
unfolding number_task
number_task-Split task m l [] b = ([], [], refl, record { mine_task = tt; later = tt; same = refl })
number_task-Split task m l (t ∷ ts) b = elim (Bool-cases (ltb task t.task)) [
  | inl e ↦ (
    [],
    t ∷ ts,
    rw (e, number_task) refl,
    record { mine_task = tt; later = (ltb→lt task t.task e, b.1); same = refl },
  )
  | inr e ↦
      let eq : t.task ≡ task = ground arith in
      let test : (t.task == task) ≡ true = ground arith in
      let next = eq_ℤ t.tag (pos 0) || not (eq_ℤ t.tag l) in
      let m' = if next then m +ℤ pos 1 else m in
      let (mine, rest, done_eq, s) =
        number_task-Split task m' (if next then t.tag else l) ts
          (ByTask_mono task t.task ts (omega arith) b.1) in
      (
        record t { map_no = m' } ∷ mine,
        rest,
        rw (e, number_task, test, done_eq) refl,
        record {
          mine_task = (eq, s.mine_task);
          later = s.later;
          same = ap (λ us. unnumbered t ∷ us) s.same;
        },
      )
]

-- What the loop over `n` tasks from `task` on returns for the ranges `ts` that begin at `off`.
record Slots (n task off : ℕ) (ts : List TaskRange) (offs : List ℕ) (out : List TaskRange)
    : Type 0 where
  count : length offs ≡ suc n
  first : get_elem? offs 0 ≡ some off
  same : map unnumbered out ≡ map unnumbered ts
  at_least : (k a : ℕ) → get_elem? offs k ≡ some a → off ≤ a
  slot_of :
      (i : ℕ) (t : TaskRange)
      → get_elem? out i ≡ some t
      → (d a b : ℕ) × (t.task ≡ task + d)
        × (get_elem? offs d ≡ some a)
        × (get_elem? offs (suc d) ≡ some b)
        × (a ≤ off + i)
        × (off + i < b)
  in_slot :
      (d a b i : ℕ)
      → get_elem? offs d ≡ some a
      → get_elem? offs (suc d) ≡ some b
      → a ≤ off + i
      → off + i < b
      → (t : TaskRange) × (get_elem? out i ≡ some t) × (t.task ≡ task + d)

Slots-zero : (task off : ℕ) → Slots 0 task off [] (off ∷ []) []
Slots-zero task off = record {
  count = refl;
  first = refl;
  same = refl;
  at_least = at_least;
  slot_of = λ i t e. cc;
  in_slot = λ d a b i ea eb. cc;
}
  where
    at_least : (k a : ℕ) → get_elem? (off ∷ []) k ≡ some a → off ≤ a
    at_least zero a e = ground arith
    at_least (suc k) a e = cc

module _ (n task off : ℕ) (ts mine rest : List TaskRange) (s : Split task ts mine rest)
    (offs : List ℕ) (later : List TaskRange)
    (r : Slots n (suc task) (off + length mine) rest offs later) where
  at_least-cons : (k a : ℕ) → get_elem? (off ∷ offs) k ≡ some a → off ≤ a
  at_least-cons zero a e = ground arith
  at_least-cons (suc k) a e = omega (arith, r.at_least k a e)

  slot_of-cons :
      (i : ℕ) (t : TaskRange)
      → get_elem? (mine ++ later) i ≡ some t
      → (d a b : ℕ) × (t.task ≡ task + d)
        × (get_elem? (off ∷ offs) d ≡ some a)
        × (get_elem? (off ∷ offs) (suc d) ≡ some b)
        × (a ≤ off + i)
        × (off + i < b)
  slot_of-cons i t e = elim (dec_lt i (length mine)) [
    | yes h ↦ (
      0,
      off,
      off + length mine,
      omega (
        arith,
        All-get_elem? (λ u. u.task ≡ task) mine i s.mine_task
            (sym (get_elem?-append_left mine later i h) ∙ e),
      ),
      refl,
      r.first,
      omega arith,
      omega arith,
    )
    | no h ↦
        let (d, a, b, et, ea, eb, lo, hi) =
          r.slot_of (i - length mine) t
            (sym (get_elem?-append_right mine later i (omega arith)) ∙ e) in
        (suc d, a, b, omega arith, ea, eb, omega arith, omega arith)
  ]

  in_slot-cons :
      (d a b i : ℕ)
      → get_elem? (off ∷ offs) d ≡ some a
      → get_elem? (off ∷ offs) (suc d) ≡ some b
      → a ≤ off + i
      → off + i < b
      → (t : TaskRange) × (get_elem? (mine ++ later) i ≡ some t) × (t.task ≡ task + d)
  in_slot-cons zero a b i ea eb lo hi =
      let h : i < length mine = ground (arith, r.first) in
      let (t, e) = get_elem?-some mine i h in
      (
        t,
        get_elem?-append_left mine later i h ∙ e,
        omega (arith, All-get_elem? (λ u. u.task ≡ task) mine i s.mine_task e),
      )
  in_slot-cons (suc d) a b i ea eb lo hi =
      let h : length mine ≤ i = omega (arith, r.at_least d a ea) in
      let (t, e, et) = r.in_slot d a b (i - length mine) ea eb (omega arith) (omega arith) in
      (t, get_elem?-append_right mine later i h ∙ e, omega arith)

  Slots-cons : Slots (suc n) task off ts (off ∷ offs) (mine ++ later)
  Slots-cons = record {
    count = omega (arith, r.count);
    first = refl;
    same =
        map-append unnumbered mine later
        ∙ ap (λ us. map unnumbered mine ++ us) r.same
        ∙ sym (map-append unnumbered mine rest)
        ∙ s.same;
    at_least = at_least-cons;
    slot_of = slot_of-cons;
    in_slot = in_slot-cons;
  }

-- all tasks are below `k`
abbrev BelowTask : ℕ → List TaskRange → Type 0
BelowTask k = All (λ t. t.task < k)

BelowTask-unnumbered :
    (k : ℕ) (ts us : List TaskRange)
    → map unnumbered us ≡ map unnumbered ts
    → BelowTask k ts
    → BelowTask k us
BelowTask-unnumbered k ts [] e h = tt
BelowTask-unnumbered k [] (u ∷ us) e h = cc
BelowTask-unnumbered k (t ∷ ts) (u ∷ us) e h =
    (rw (ap TaskRange.task (cons-head e)) h.0, BelowTask-unnumbered k ts us (cons-tail e) h.1)

BelowTask-rest :
    (k : ℕ) (mine rest : List TaskRange) → BelowTask k (mine ++ rest) → BelowTask k rest
BelowTask-rest k [] rest h = h
BelowTask-rest k (t ∷ mine) rest h = BelowTask-rest k mine rest h.1

offsets_from-Slots :
    (n task off : ℕ) (ts : List TaskRange)
    → ByTask task ts
    → BelowTask (task + n) ts
    → (offs : List ℕ) × (out : List TaskRange) × (offsets_from n task off ts ≡ done (offs, out))
      × Slots n task off ts offs out
unfolding offsets_from
offsets_from-Slots zero task off [] b h = (off ∷ [], [], refl, Slots-zero task off)
offsets_from-Slots zero task off (t ∷ ts) b h = absurd (omega arith)
offsets_from-Slots (suc n) task off ts b h =
    let (mine, rest, e, s) = number_task-Split task (negsuc 0) (negsuc 0) ts b in
    let below : BelowTask (suc task + n) rest = rw (shift n) at (
      BelowTask-rest (task + suc n) mine rest
        (BelowTask-unnumbered (task + suc n) ts (mine ++ rest) s.same h)) in
    let (offs, later, e', r) =
      offsets_from-Slots n (suc task) (off + length mine) rest s.later below in
    (off ∷ offs, mine ++ later, rw (e, e') refl, Slots-cons n task off ts mine rest s offs later r)
  where
    shift : (n : ℕ) → task + suc n ≡ suc task + n
    shift n = omega arith

-- On ranges that are sorted by task, all of tasks below `tid_count`, `updateOffsets` succeeds. It
-- changes nothing but mapping numbers, fills `tid_count + 1` offsets, and the ranges at the
-- positions from `off[k]` to before `off[k + 1]` are exactly those of task `k`.
pub update_offsets_lem :
    (tid_count : ℕ) (ts : List TaskRange)
    → ByTask 0 ts
    → All (λ t. t.task < tid_count) ts
    → (offs : List ℕ) × (out : List TaskRange) × (update_offsets tid_count ts ≡ done (offs, out))
      × (length offs ≡ tid_count + 1)
      × (map unnumbered out ≡ map unnumbered ts)
      × ((i : ℕ) (t : TaskRange)
          → get_elem? out i ≡ some t
          → (a b : ℕ) × (get_elem? offs t.task ≡ some a)
            × (get_elem? offs (suc t.task) ≡ some b)
            × (a ≤ i)
            × (i < b))
      × ((k a b i : ℕ)
          → get_elem? offs k ≡ some a
          → get_elem? offs (suc k) ≡ some b
          → a ≤ i
          → i < b
          → (t : TaskRange) × (get_elem? out i ≡ some t) × (t.task ≡ k))
unfolding update_offsets
update_offsets_lem tid_count ts b h =
    let (offs, out, e, s) = offsets_from-Slots tid_count 0 0 ts b (rw (zero-add tid_count) h) in
    (
      offs,
      out,
      e,
      omega (arith, s.count),
      s.same,
      λ i t ei.
          let (d, a, b, et, ea, eb, lo, hi) = s.slot_of i t ei in
          let ed : d ≡ t.task = omega arith in
          (
            a,
            b,
            subst (λ x. get_elem? offs x ≡ some a) ed ea,
            subst (λ x. get_elem? offs (suc x) ≡ some b) ed eb,
            omega arith,
            omega arith,
          ),
      λ k a b i ea eb lo hi.
          let (t, et, ek) = s.in_slot k a b i ea eb (omega arith) (omega arith) in
          (t, et, omega arith),
    )
