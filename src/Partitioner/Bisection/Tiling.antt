-- ===== src/Partitioner/Bisection/Tiling.antt =====
-- The ranges that the bisection partitioner appends, and the indexes of the space.
use laik.Partitioner.Appends.{Appended-bind, append-Appended, entry, Collects, Appended}
use laik.Prelude.Int.{pos, pos_part, ◌≤ℤ◌, ◌+ℤ◌, ◌-ℤ◌, ℤ}
use native.Mathlib.Nat.{mod-eq_of_lt}
use laik.Partitioner.Bisection.Split.{Part-split, Part}
use laik.Partitioner.Bisection.Widths.{
  filled-lt, extent_at, width_at-extent, small_at, widest-is, split-contains, cut_bounds,
}
use mathlib.Core.List.{map-append}
use laik.Prelude.{
  All-append, All, subst, inr, ◌>>=◌, inl, ◌⊎◌, none, Outcome, sym, some, ◌^◌, ◌*◌, ◌/◌, ◌<◌,
  countp-append, all-append, refl, ap₂, ◌∙◌, countp, ◌-◌, zero, true, arith, ◌≤◌, ◌∷◌, ap, all, ◌≡◌,
  ◌+◌, map, bit, [], ◌++◌, List, ℕ,
}
use laik.Space.{at, Space, Range, Index}
use laik.Space.Points.{contains, filled}
use laik.RangeList.{RangeList, TaskRange}
use laik.Partitioner.{append_range, suc}
use laik.Partitioner.Bisection.{do_bisection, widest, cut_width, lower, upper}

-- the tasks from `from` on, `n` of them
abbrev pub tasks_from : ℕ → ℕ → List ℕ
tasks_from from zero = []
tasks_from from (suc n) = from ∷ tasks_from (suc from) n

-- The ranges of `new` are of the space of `s` and not empty, they go to the `n` tasks from `from` on, one to each, and each
-- index of `s` lies in exactly one of them, each other index in none.
pub record Tiles (dims : ℕ) (s : Range) (from n : ℕ) (new : List TaskRange) : Type 0 where
  pub tasks : map TaskRange.task new ≡ tasks_from from n
  pub named : All (λ t. t.range.space ≡ s.space) new
  pub full : all (λ t. filled dims t.range) new ≡ true
  pub once : (p : Index) → countp (λ t. contains dims p t.range) new ≡ bit (contains dims p s)

tasks_from-append :
    (from n m : ℕ) → tasks_from from n ++ tasks_from (from + n) m ≡ tasks_from from (n + m)
tasks_from-append from zero m =
    let e1 : from + 0 ≡ from = omega arith in let e2 : 0 + m ≡ m = omega arith in rw (e1, e2) refl
tasks_from-append from (suc n) m =
    let e1 : from + suc n ≡ suc from + n = omega arith in
    let e2 : suc n + m ≡ suc (n + m) = omega arith in
    rw (e1, e2) (ap (λ xs. from ∷ xs) (tasks_from-append (suc from) n m))

Tiles-append :
    (dims d c : ℕ) (s : Range) (from mid to : ℕ) (xs ys : List TaskRange)
    → ((p : Index)
        → bit (contains dims p (lower s d c)) + bit (contains dims p (upper s d c))
          ≡ bit (contains dims p s))
    → from ≤ mid
    → mid ≤ to
    → Tiles dims (lower s d c) from (mid - from) xs
    → Tiles dims (upper s d c) mid (to - mid) ys
    → Tiles dims s from (to - from) (xs ++ ys)
Tiles-append dims d c s from mid to xs ys h l m a b = record {
  tasks =
      map-append TaskRange.task xs ys
      ∙ ap₂ (λ x y. x ++ y) a.tasks (b.tasks ∙ ap (λ k. tasks_from k (to - mid)) (omega arith))
      ∙ tasks_from-append from (mid - from) (to - mid)
      ∙ ap (tasks_from from) (omega arith);
  named = All-append (λ (t : TaskRange). t.range.space ≡ s.space) xs ys a.named b.named;
  full = ground (arith, all-append (λ (t : TaskRange). filled dims t.range) xs ys, a.full, b.full);
  once = λ p. omega (
    arith,
    countp-append (λ (t : TaskRange). contains dims p t.range) xs ys,
    a.once p,
    b.once p,
    h p,
  );
}

-- the tasks `[from;to[` share the part `s` of the space
abbrev pub Ready : Space → ℕ → Range → ℕ → ℕ → Type 0
Ready space tid_count s from to =
    (from < to) × ((to ≤ tid_count) × Part space.ref.dims tid_count (to - from) space.range s)

one_or_more : (k : ℕ) → 0 < k → (k ≡ 1) ⊎ (1 < k)
one_or_more zero h = absurd (omega arith)
one_or_more (suc zero) h = inl refl
one_or_more (suc (suc k)) h = inr (omega arith)

mul_lt : (w k n m : ℕ) → k ≤ n → w * n < m → w * k < m
mul_lt w k n m h l = grind arith

-- how the middle task cuts the width `w`
cut_width_mid :
    (w n from to : ℕ)
    → w * n < 2 ^ 64
    → 1 < to - from
    → to - from ≤ w
    → to ≤ n
    → (from < (from + to) / 2)
      × (((from + to) / 2 < to)
          × (((from + to) / 2 - from ≤ cut_width w from to)
              × (cut_width w from to + (to - (from + to) / 2) ≤ w)))
cut_width_mid w n from to small h l t =
    let mid = (from + to) / 2 in
    let lo : from < (from + to) / 2 = omega arith in
    let hi : (from + to) / 2 < to = omega arith in
    let fits : w * (mid - from) < 2 ^ 64 = mul_lt w (mid - from) n _ (omega arith) small in
    let exact : cut_width w from to ≡ w * (mid - from) / (to - from) =
      ap (λ k. k / (to - from)) (mod-eq_of_lt fits) in
    let (a, b) = cut_bounds w (to - from) (mid - from) l (omega arith) (omega arith) in
    (lo, (hi, (omega (arith, a, exact), omega (arith, b, exact))))

module _ (space : Space) (tid_count : ℕ) (named : space.range.space ≡ some space.ref)
    (pos_dims : 0 < space.ref.dims) (dims_le : space.ref.dims ≤ 3) where
  -- the middle task, the dimension of a split and the cut in it
  abbrev mid_of : ℕ → ℕ → ℕ
  mid_of from to = (from + to) / 2

  abbrev dim_of : Range → ℕ
  dim_of s = (widest space.ref.dims s).0

  abbrev cut_of : Range → ℕ → ℕ → ℕ
  cut_of s from to = cut_width (widest space.ref.dims s).1 from to

  -- A split makes two parts for the tasks of both halves, which hold each index of `s` once.
  record Split (s : Range) (from to : ℕ) : Type 0 where
    lo : from < mid_of from to
    hi : mid_of from to < to
    below : Ready space tid_count (lower s (dim_of s) (cut_of s from to)) from (mid_of from to)
    above : Ready space tid_count (upper s (dim_of s) (cut_of s from to)) (mid_of from to) to
    parts :
        (p : Index)
        → bit (contains space.ref.dims p (lower s (dim_of s) (cut_of s from to)))
            + bit (contains space.ref.dims p (upper s (dim_of s) (cut_of s from to)))
          ≡ bit (contains space.ref.dims p s)

  add_extent : (f t : ℤ) (c : ℕ) → f ≤ℤ t → c ≤ pos_part (t -ℤ f) → f +ℤ pos c ≤ℤ t
  unfolding ◌-ℤ◌ ◌+ℤ◌
  add_extent f t c h k = ground arith

  Ready-Split :
      (s : Range) (from to : ℕ) → Ready space tid_count s from to → 1 < to - from → Split s from to
  Ready-Split s from to r two =
      let dims = space.ref.dims in
      let p = r.1.1 in
      let d = dim_of s in
      let (dlt, dw) = widest-is dims s pos_dims in
      let pt : 0 < tid_count = omega (arith, r.0, r.1.0) in
      let ext = width_at-extent dims tid_count d s p.small p.full pt dlt dims_le in
      let small = small_at dims tid_count d s p.small dlt dims_le in
      let we : (widest dims s).1 ≡ extent_at d s = dw ∙ ext in
      let (lo, (hi, (low, high))) =
        cut_width_mid (widest dims s).1 tid_count from to (rw (we) small) two p.wide r.1.0 in
      let (a, b) =
        Part-split dims tid_count (to - from) d (cut_of s from to) (mid_of from to - from)
          (to - mid_of from to) space.range s p dlt dims_le pt (omega arith) (omega arith) low
          (rw (sym we) high) in
      record {
        lo = lo;
        hi = hi;
        below = (lo, (omega (arith, r.1.0, hi), a));
        above = (hi, (r.1.0, b));
        parts = λ x. split-contains dims d (cut_of s from to) x s dlt dims_le (
            add_extent (at s.from d) (at s.to d) (cut_of s from to)
              (omega (arith, filled-lt dims d s p.full dlt dims_le)) (omega (arith, high, we)));
      }

  do_bisection-one :
      (n : ℕ) (s : Range) (from to : ℕ) (list : RangeList)
      → from < to
      → to - from ≡ 1
      → do_bisection (suc n) none space s from to list ≡ append_range none list from s (pos 1) 0
  unfolding do_bisection
  do_bisection-one n s from to list h e = ground arith

  -- what a call does that splits
  abbrev deeper : ℕ → Range → ℕ → ℕ → RangeList → Outcome RangeList
  deeper n s from to list =
      do_bisection n none space (lower s (dim_of s) (cut_of s from to)) from (mid_of from to) list
      >>= λ list'.
          do_bisection n none space (upper s (dim_of s) (cut_of s from to)) (mid_of from to) to
            list'

  do_bisection-deeper :
      (n : ℕ) (s : Range) (from to : ℕ) (list : RangeList)
      → 1 < to - from
      → to - from ≤ (widest space.ref.dims s).1
      → do_bisection (suc n) none space s from to list ≡ deeper n s from to list
  unfolding do_bisection
  do_bisection-deeper n s from to list h e = ground arith

  -- a call for `s` appends `tiles` to any list
  abbrev pub Cuts : ℕ → Range → ℕ → ℕ → List TaskRange → Type 0
  Cuts n s from to tiles =
      (list : RangeList)
      → Collects space tid_count list
      → Appended space tid_count list tiles (do_bisection n none space s from to list)

  Cuts-one :
      (n : ℕ) (s : Range) (from to : ℕ)
      → to - from ≡ 1
      → Ready space tid_count s from to
      → Cuts (suc n) s from to (entry from s (pos 1) 0 ∷ [])
  unfolding append_range
  Cuts-one n s from to one r list c =
      let p = r.1.1 in
      subst (λ o. Appended space tid_count list (entry from s (pos 1) 0 ∷ []) o)
        (sym (do_bisection-one n s from to list r.0 one))
        (append-Appended space tid_count list from s (pos 1) 0 c named (p.same_space ∙ named)
          p.inside (omega (arith, r.0, r.1.0)))

  Tiles-one :
      (s : Range) (from n : ℕ)
      → n ≡ 1
      → filled space.ref.dims s ≡ true
      → Tiles space.ref.dims s from n (entry from s (pos 1) 0 ∷ [])
  Tiles-one s from n e f = record {
    tasks = rw (e) refl;
    named = (refl, tt);
    full = ground (arith, f);
    once = λ p. omega arith;
  }

  -- With fuel for the tasks, a part of the space is cut into one tile per task.
  pub do_bisection_lem :
      (n : ℕ) (s : Range) (from to : ℕ)
      → to - from ≤ n
      → Ready space tid_count s from to
      → (tiles : List TaskRange) × (Cuts n s from to tiles
          × Tiles space.ref.dims s from (to - from) tiles)
  do_bisection_lem zero s from to h r = absurd (omega (arith, r.0))
  do_bisection_lem (suc n) s from to h r = elim (one_or_more (to - from) (omega (arith, r.0))) [
    | inl one ↦ (
      entry from s (pos 1) 0 ∷ [],
      (Cuts-one n s from to one r, Tiles-one s from (to - from) one r.1.1.full),
    )
    | inr two ↦
        let sp = Ready-Split s from to r two in
        let d = dim_of s in
        let cut = cut_of s from to in
        let mid = mid_of from to in
        let (xs, (fx, tx)) =
          do_bisection_lem n (lower s d cut) from mid (omega (arith, h, sp.hi)) sp.below in
        let (ys, (fy, ty)) =
          do_bisection_lem n (upper s d cut) mid to (omega (arith, h, sp.lo)) sp.above in
        (
          xs ++ ys,
          (
            λ list c.
                subst (λ o. Appended space tid_count list (xs ++ ys) o)
                  (sym (do_bisection-deeper n s from to list two r.1.1.wide))
                  (Appended-bind space tid_count list xs ys
                    (do_bisection n none space (lower s d cut) from mid list)
                    (λ list'. do_bisection n none space (upper s d cut) mid to list') (fx list c)
                    fy),
            Tiles-append space.ref.dims d cut s from mid to xs ys sp.parts (omega (arith, sp.lo))
                (omega (arith, sp.hi)) tx ty,
          ),
        )
  ]
