-- ===== src/RangeList/Cover/Whole.antt =====
-- `laik_rangelist_coversSpace` as a whole: the meaning of its answer, and its buffer.
use mathlib.Core.List.Perm
use laik.Prelude.Sort.{QSort}
use laik.RangeList.{TaskRange, RangeList}
use laik.Prelude.{
  length-map, done-injective, all-map, All-map, false, ℕ, Bool, true, any-map, any-perm,
  length-perm, All-perm, all-perm, map, ap, sym, ◌∙◌, ◌↔◌, ◌≤◌, ◌<◌, ◌≡◌, refl, true, ◌&&◌, not,
  List, [], ◌∷◌, all, any, All, length, arith, done, Outcome, Outcome-cases, inl, inr, subst,
}
use laik.Space.{Range, SpaceRef, Index}
use laik.Space.Points.{contains, filled}
use laik.RangeList.Cover.{cmp_from, range_of, is_nil, covers_space, append_all, remove_all}
use laik.RangeList.Cover.Room.{enough_ranges, enough_ranges-Fits, remove_all_returns, bit_le}
use laik.RangeList.Cover.Exact.{InSpace, Leaves, visit_all-Leaves, append_all-done}

-- What is left of the ranges `before` when those of `rs` are removed.
record Remains (s : SpaceRef) (rs before left : List Range) : Type 0 where
  exact :
      (p : Index)
      → any (contains s.dims p) left
        ≡ (any (contains s.dims p) before && not (any (contains s.dims p) rs))
  no_holes :
      all (filled s.dims) rs ≡ true
      → all (filled s.dims) before ≡ true
      → all (filled s.dims) left ≡ true

Remains-cons :
    (s : SpaceRef) (r : Range) (rs before new left : List Range)
    → Leaves s r before new
    → Remains s rs new left
    → Remains s (r ∷ rs) before left
Remains-cons s r rs before new left l m = record {
  exact = λ p. ground (arith, l.exact p, m.exact p);
  no_holes = λ a b. ground (arith, l.no_holes, m.no_holes);
}

Remains-nil : (s : SpaceRef) (rs : List Range) → Remains s rs [] []
Remains-nil s rs = record { exact = λ p. refl; no_holes = λ a b. refl }

Remains-all : (s : SpaceRef) (before : List Range) → Remains s [] before before
Remains-all s before = record { exact = λ p. ground arith; no_holes = λ a b. b }

module _ (s : SpaceRef) (buf : Range) (pos_dims : 0 < s.dims) (dims_le : s.dims ≤ 3) where
  abbrev go_on : List Range → List Range → Outcome (List Range)
  go_on rs left = elim left [ [] ↦ done [] | x ∷ xs ↦ remove_all s.dims buf (x ∷ xs) rs ]

  remove_all-Remains :
      (rs before : List Range) {left : List Range}
      → All (InSpace s) before
      → All (InSpace s) rs
      → remove_all s.dims buf before rs ≡ done left
      → Remains s rs before left
  unfolding remove_all
  remove_all-Remains [] before {left} h k e =
      subst (Remains s [] before) (cc) (Remains-all s before)
  remove_all-Remains (r ∷ rs) before {left} h k e =
      let (new, ev, lv) = visit_all-Leaves s buf r pos_dims dims_le k.0 (length before) before h in
      elim (Outcome-cases (append_all (length before) [] new)) [
        | inl f ↦ absurd (cc (rw (ev [], f) at e))
        | inr (a, f) ↦
            step new lv (rw (ev [], f, append_all-done (length before) [] new f) at e)
              (λ x xs. remove_all-Remains rs (x ∷ xs))
      ]
    where
      step :
          (new : List Range)
          → Leaves s r before new
          → go_on rs new ≡ done left
          → ((x : Range) (xs : List Range)
              → All (InSpace s) (x ∷ xs)
              → All (InSpace s) rs
              → remove_all s.dims buf (x ∷ xs) rs ≡ done left
              → Remains s rs (x ∷ xs) left)
          → Remains s (r ∷ rs) before left
      step [] lv e' ih =
          Remains-cons s r rs before [] left lv (subst (Remains s rs []) (cc) (Remains-nil s rs))
      step (x ∷ xs) lv e' ih =
          Remains-cons s r rs before (x ∷ xs) left lv (ih x xs lv.in_space k.1 e')

InSpace-prop : (s : SpaceRef) (r : Range) → IsProp (InSpace s r)
InSpace-prop s r = hlevel

is_nil_iff :
    (dims : ℕ) (left : List Range)
    → all (filled dims) left ≡ true
    → ((p : Index) → any (contains dims p) left ≡ false)
    → is_nil left ≡ true
is_nil_iff dims [] h k = refl
is_nil_iff dims (x ∷ xs) h k = absurd (ground (arith, k x.from))

is_nil-nil : (left : List Range) → is_nil left ≡ true → left ≡ []
is_nil-nil [] h = refl
is_nil-nil (x ∷ xs) h = cc

module _ (q : QSort) (buf : Range) (list : RangeList) where
  abbrev sorted : List Range
  sorted = map range_of (q.sort TaskRange cmp_from list.trange)

  any-sorted : (p : Range → Bool) → any p sorted ≡ any (λ t. p t.range) list.trange
  any-sorted p =
      any-map p range_of (q.sort TaskRange cmp_from list.trange)
      ∙ any-perm (λ t. p t.range) (q.sort-perm TaskRange cmp_from list.trange)

  all-sorted : (p : Range → Bool) → all p sorted ≡ all (λ t. p t.range) list.trange
  all-sorted p =
      all-map p range_of (q.sort TaskRange cmp_from list.trange)
      ∙ all-perm (λ t. p t.range) (q.sort-perm TaskRange cmp_from list.trange)

  length-sorted : length sorted ≡ length list.trange
  length-sorted =
      length-map range_of (q.sort TaskRange cmp_from list.trange)
      ∙ length-perm (q.sort-perm TaskRange cmp_from list.trange)

  InSpace-sorted :
      (s : SpaceRef) → All (λ t. InSpace s t.range) list.trange → All (InSpace s) sorted
  InSpace-sorted s h = All-map (InSpace s) range_of (q.sort TaskRange cmp_from list.trange) (
      All-perm (λ (t : TaskRange). InSpace s t.range) (λ t. InSpace-prop s t.range)
        (Perm.symm (q.sort-perm TaskRange cmp_from list.trange)) h)

  -- every index of the space lies in a range of the list
  abbrev pub Covered : Type 0
  Covered =
      (p : Index)
      → contains list.space.ref.dims p list.space.range ≡ true
      → any (λ t. contains list.space.ref.dims p t.range) list.trange ≡ true

  covers_space_step :
      {b : Bool}
      → covers_space q buf list ≡ done b
      → (left : List Range) × (remove_all list.space.ref.dims buf (list.space.range ∷ []) sorted
          ≡ done left)
        × (b ≡ is_nil left)
  unfolding covers_space
  covers_space_step e =
      elim (Outcome-cases (remove_all list.space.ref.dims buf (list.space.range ∷ []) sorted)) [
        | inl f ↦ absurd (cc (rw f at e))
        | inr (left, f) ↦ (left, f, sym (done-injective (rw f at e)))
      ]

  module _ (space_ok : InSpace list.space.ref list.space.range)
      (ranges_ok : All (λ t. InSpace list.space.ref t.range) list.trange)
      (pos_dims : 0 < list.space.ref.dims) (dims_le : list.space.ref.dims ≤ 3) where
    remains :
        {left : List Range}
        → remove_all list.space.ref.dims buf (list.space.range ∷ []) sorted ≡ done left
        → Remains list.space.ref sorted (list.space.range ∷ []) left
    remains e =
        remove_all-Remains list.space.ref buf pos_dims dims_le sorted (list.space.range ∷ [])
          (space_ok, tt) (InSpace-sorted list.space.ref ranges_ok) e

    -- If `laik_rangelist_coversSpace` answers true, every index of the space lies in a range of
    -- the list; the ranges may be empty. The list's ranges and the space's own range name the
    -- space, which has 1 to 3 dimensions.
    pub covers_space_sound :
        (p : Index)
        → covers_space q buf list ≡ done true
        → contains list.space.ref.dims p list.space.range ≡ true
        → any (λ t. contains list.space.ref.dims p t.range) list.trange ≡ true
    covers_space_sound p e c =
        let (left, f, n) = covers_space_step e in
        let m = remains f in
        let empty : left ≡ [] = is_nil-nil left (sym n) in
        ground (
          arith,
          m.exact p,
          any-sorted (contains list.space.ref.dims p),
          ap (any (contains list.space.ref.dims p)) empty,
        )

    -- Where the space has 1 to 3 dimensions, its own range and the ranges of the list name it, all
    -- of them are non-empty, and `laik_rangelist_coversSpace` answers, it answers true exactly when
    -- every index of the space lies in a range of the list.
    pub covers_space_iff :
        {b : Bool}
        → filled list.space.ref.dims list.space.range ≡ true
        → all (λ t. filled list.space.ref.dims t.range) list.trange ≡ true
        → covers_space q buf list ≡ done b
        → (b ≡ true) ↔ Covered
    covers_space_iff {b} fs fr e =
        let (left, f, n) = covers_space_step e in
        let m = remains f in
        (
          λ t p c. covers_space_sound p (e ∙ ap done t) c,
          λ c.
              n
              ∙ is_nil_iff list.space.ref.dims left
                  (m.no_holes (all-sorted (filled list.space.ref.dims) ∙ fr) (ground arith))
                  (λ p.
                    ground (arith, m.exact p, any-sorted (contains list.space.ref.dims p), c p)),
        )

    -- Where the space has 1 to 3 dimensions, its own range and the ranges of the list name it, and
    -- the list's ranges are non-empty, `laik_rangelist_coversSpace` answers when the list has at most
    -- 49 ranges in one dimension, 3 in two, or 2 in three: its buffer of 100 ranges never ends then.
    pub covers_space_returns :
        all (λ t. filled list.space.ref.dims t.range) list.trange ≡ true
        → length list.trange ≤ enough_ranges list.space.ref.dims
        → (b : Bool) × (covers_space q buf list ≡ done b)
    unfolding covers_space
    covers_space_returns fr h =
        let (left, f) =
          remove_all_returns list.space.ref buf pos_dims dims_le sorted (list.space.range ∷ [])
            (space_ok, tt) (InSpace-sorted list.space.ref ranges_ok)
            (all-sorted (filled list.space.ref.dims) ∙ fr)
            (λ d x. bit_le (contains list.space.ref.dims x list.space.range))
            (rw length-sorted
              (enough_ranges-Fits list.space.ref.dims (length list.trange) pos_dims dims_le h)) in
        (is_nil left, rw f refl)
