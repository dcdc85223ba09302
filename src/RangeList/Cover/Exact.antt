-- ===== src/RangeList/Cover/Exact.antt =====
-- The visit of one uncovered range, and of all of them: lemmas on the index sets of what is left.
use mathlib.Core.List.{append-nil, append_assoc}
use laik.Prelude.{
  all-append, any-append, refl, sym, fun_ext, ◌∙◌, ◌+◌, ltb, Bool-cases, ◌>>=◌, ℕ, zero, suc, ◌*◌,
  ◌≤◌, ◌<◌, ◌≡◌, true, ◌&&◌, not, List, [], ◌∷◌, ◌++◌, Option, none, some, all, any, All,
  All-append, length, length-append, ap, arith, Option-cases, inl, inr, done,
}
use laik.Space.{Range, SpaceRef, Index, intersect_dims}
use laik.Space.Points.{contains, filled, contains?}
use laik.Space.Intersect.{range_intersect-dims, contains-intersect_dims, meets_all-intersect_dims}
use laik.RangeList.Cover.{
  visit_all, append_all, coverlist_max, cut_before, cut_after, subtract_from, visit,
}
use laik.RangeList.Cover.Subtract.{contains-subtract_from}
use laik.RangeList.Cover.Count.{Counted, kept-Counted, subtract_from-Counted, Counted-append}
use laik.RangeList.Cover.Filled.{filled-subtract_from}

-- the range lies in the space `s`
abbrev pub InSpace : SpaceRef → Range → Type 0
InSpace s r = r.space ≡ some s

cut_before-InSpace :
    (s : SpaceRef) (d : ℕ) (rm o : Range)
    → InSpace s o
    → All (InSpace s) (cut_before d rm o).0 × InSpace s (cut_before d rm o).1
unfolding cut_before
cut_before-InSpace s d rm o h = ground arith

cut_after-InSpace :
    (s : SpaceRef) (d : ℕ) (rm o : Range)
    → InSpace s o
    → All (InSpace s) (cut_after d rm o).0 × InSpace s (cut_after d rm o).1
unfolding cut_after
cut_after-InSpace s d rm o h = ground arith

subtract_from-InSpace :
    (s : SpaceRef) (n d : ℕ) (rm o : Range) → InSpace s o → All (InSpace s) (subtract_from n d rm o)
unfolding subtract_from
subtract_from-InSpace s zero d rm o h = tt
subtract_from-InSpace s (suc n) d rm o h =
    let before = cut_before d rm o in
    let after = cut_after d rm before.1 in
    let hb = cut_before-InSpace s d rm o h in
    let ha = cut_after-InSpace s d rm before.1 hb.1 in
    All-append (InSpace s) before.0 (after.0 ++ subtract_from n (suc d) rm after.1) hb.0 (
      All-append (InSpace s) after.0 (subtract_from n (suc d) rm after.1) ha.0
        (subtract_from-InSpace s n (suc d) rm after.1 ha.1))

length-cut :
    (d : ℕ) (rm o : Range) → (length (cut_before d rm o).0 ≤ 1) × (length (cut_after d rm o).0 ≤ 1)
unfolding cut_before cut_after
length-cut d rm o = ground arith

length-subtract_from : (n d : ℕ) (rm o : Range) → length (subtract_from n d rm o) ≤ 2 * n
unfolding subtract_from
length-subtract_from zero d rm o = omega arith
length-subtract_from (suc n) d rm o =
    let before = cut_before d rm o in
    let after = cut_after d rm before.1 in
    let later = subtract_from n (suc d) rm after.1 in
    omega (
      arith,
      length-append before.0 (after.0 ++ later),
      length-append after.0 later,
      length-cut d rm o,
      length-cut d rm before.1,
      length-subtract_from n (suc d) rm after.1,
    )

-- What the visit of `o` leaves: `ps`.
pub record Leaves (s : SpaceRef) (rm : Range) (before ps : List Range) : Type 0 where
  pub in_space : All (InSpace s) ps
  pub exact :
      (p : Index)
      → any (contains s.dims p) ps ≡ (any (contains s.dims p) before && not (contains s.dims p rm))
  pub no_holes :
      filled s.dims rm ≡ true → all (filled s.dims) before ≡ true → all (filled s.dims) ps ≡ true
  pub size : length ps ≤ 2 * s.dims * length before
  pub counted : s.dims ≡ 1 → filled s.dims rm ≡ true → Counted s.dims rm before ps

module _ (s : SpaceRef) (buf rm : Range) (pos_dims : 0 < s.dims) (dims_le : s.dims ≤ 3)
    (er : InSpace s rm) where
  abbrev buf' : Range
  buf' = record buf { space = some s }

  visit_step :
      (o : Range) {m : Option Range}
      → InSpace s o
      → intersect_dims s.dims buf' o rm ≡ m
      → visit s.dims buf rm o
        ≡ done (elim m [ none ↦ o ∷ [] | some r ↦ subtract_from s.dims 0 rm o ])
  unfolding visit
  visit_step o eo e = rw (range_intersect-dims buf o rm eo er, e)

  pub visit-Leaves :
      (o : Range)
      → InSpace s o
      → (ps : List Range) × (visit s.dims buf rm o ≡ done ps) × Leaves s rm (o ∷ []) ps
  visit-Leaves o eo = elim (Option-cases (intersect_dims s.dims buf' o rm)) [
    | inl e ↦ (
      o ∷ [],
      visit_step o eo e,
      record {
        in_space = (eo, tt);
        exact = λ p.
            ground (arith, contains-intersect_dims s.dims p buf' o rm, ap (contains? s.dims p) e);
        no_holes = λ a b. b;
        size = omega arith;
        counted = λ d f. kept-Counted s.dims rm (o ∷ []);
      },
    )
    | inr (r, e) ↦ (
      subtract_from s.dims 0 rm o,
      visit_step o eo e,
      let m = meets_all-intersect_dims s.dims buf' o rm e in
          record {
            in_space = subtract_from-InSpace s s.dims 0 rm o eo;
            exact = λ p. ground (arith, contains-subtract_from s.dims p rm o pos_dims dims_le m);
            no_holes = λ a b. filled-subtract_from s.dims rm o pos_dims dims_le m a (ground arith);
            size = omega (arith, length-subtract_from s.dims 0 rm o);
            counted = λ d f. subtract_from-Counted s.dims rm o d m f;
          },
    )
  ]

-- One visit after another.
Leaves-append :
    (s : SpaceRef) (rm o : Range) (rest ps qs : List Range)
    → Leaves s rm (o ∷ []) ps
    → Leaves s rm rest qs
    → Leaves s rm (o ∷ rest) (ps ++ qs)
Leaves-append s rm o rest ps qs a b = record {
  in_space = All-append (InSpace s) ps qs a.in_space b.in_space;
  exact = λ p. ground (arith, any-append (contains s.dims p) ps qs, a.exact p, b.exact p);
  no_holes = λ h k. ground (arith, all-append (filled s.dims) ps qs, a.no_holes h, b.no_holes h);
  size = grind (arith, length-append ps qs, a.size, b.size);
  counted = λ d f. Counted-append s.dims rm o rest ps qs (a.counted d f) (b.counted d f);
}

append_all-append :
    (base : ℕ) (a ps qs : List Range)
    → append_all base a (ps ++ qs) ≡ (append_all base a ps >>= λ b. append_all base b qs)
unfolding append_all
append_all-append base a [] qs = refl
append_all-append base a (p ∷ ps) qs = elim (Bool-cases (ltb (base + length a) coverlist_max)) [
  | inl e ↦ rw e (append_all-append base (a ++ (p ∷ [])) ps qs)
  | inr e ↦ rw e refl
]

-- An append that succeeds is a plain append.
pub append_all-done :
    (base : ℕ) (a ps : List Range) {r : List Range} → append_all base a ps ≡ done r → r ≡ a ++ ps
unfolding append_all
append_all-done base a [] e = cc (append-nil a)
append_all-done base a (p ∷ ps) e = elim (Bool-cases (ltb (base + length a) coverlist_max)) [
  | inl t ↦ append_all-done base (a ++ (p ∷ [])) ps (rw t at e) ∙ append_assoc a (p ∷ []) ps
  | inr t ↦ absurd (cc (rw t at e))
]

-- There is room for as many ranges as the limit allows.
pub append_all-fits :
    (base : ℕ) (a ps : List Range)
    → base + length a + length ps ≤ coverlist_max
    → append_all base a ps ≡ done (a ++ ps)
unfolding append_all
append_all-fits base a [] h = ap done (sym (append-nil a))
append_all-fits base a (p ∷ ps) h =
    let t : ltb (base + length a) coverlist_max ≡ true = ground arith in
    rw t (
      append_all-fits base (a ++ (p ∷ [])) ps (omega (arith, length-append a (p ∷ [])))
      ∙ ap done (append_assoc a (p ∷ []) ps))

module _ (s : SpaceRef) (buf rm : Range) (pos_dims : 0 < s.dims) (dims_le : s.dims ≤ 3)
    (er : InSpace s rm) where
  -- The visits of a list amount to one append of what is left of each.
  pub visit_all-Leaves :
      (base : ℕ) (olds : List Range)
      → All (InSpace s) olds
      → (new : List Range) × ((a : List Range)
          → visit_all s.dims buf base rm a olds ≡ append_all base a new)
        × Leaves s rm olds new
  unfolding visit_all
  visit_all-Leaves base [] h = (
    [],
    λ a. refl,
    record {
      in_space = tt;
      exact = λ p. refl;
      no_holes = λ a b. refl;
      size = omega arith;
      counted = λ d f. kept-Counted s.dims rm [];
    },
  )
  visit_all-Leaves base (o ∷ olds) h =
      let (ps, ep, lp) = visit-Leaves s buf rm pos_dims dims_le er o h.0 in
      let (qs, eq, lq) = visit_all-Leaves base olds h.1 in
      (
        ps ++ qs,
        λ a. rw ep (rw (fun_ext eq) (sym (append_all-append base a ps qs))),
        Leaves-append s rm o olds ps qs lp lq,
      )
