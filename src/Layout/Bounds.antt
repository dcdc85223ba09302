-- ===== src/Layout/Bounds.antt =====
-- The offsets of a lexicographical layout as a whole, and the search for a section.
use laik.Prelude.Int.{leb_ℤ, ltb_ℤ, ℤ}
use mathlib.Core.Option.{some-injective}
use laik.Prelude.{
  refl, inr, Bool-cases, inl, ◌⊎◌, take, none, all, false, Bool, All-get_elem?, ◌||◌, ltb, ◌&&◌,
  sym, not, if◌then◌else◌, done-injective, ap₂, [], ◌∙◌, ap, ◌∷◌, map, done, some, get_elem?, All,
  List, ℕ, zero, suc, ◌+◌, ◌<◌, ◌≤◌, ◌≡◌, true, arith,
}
use laik.Space.{Range, SpaceRef, Index}
use laik.Space.Points.{contains, holds, within}
use laik.Layout.{section_from, LexEntry, LexLayout, new_layout_lex, offset_lex, section_lex}
use laik.Layout.Walk.{rank, total}
use laik.Layout.Ranks.{SameIndex, rank_lt, rank-injective}
use laik.Layout.Offsets.{offset_lex-rank}
use laik.Layout.Entries.{CanHold, IsLayout, entry_of, entry_of-Regular, new_layout_lex-returns}

get_elem?-map {ℓ κ} :
    {A : Type ℓ} {B : Type κ} (f : A → B) (xs : List A) (n : ℕ) (x : A)
    → get_elem? xs n ≡ some x
    → get_elem? (map f xs) n ≡ some (f x)
get_elem?-map f [] n x e = absurd (cc e)
get_elem?-map f (y ∷ ys) zero x e = ap (λ z. some (f z)) (some-injective _ _ e)
get_elem?-map f (y ∷ ys) (suc n) x e = get_elem?-map f ys n x e

module _ (s : SpaceRef) (rs : List Range) (pos_dims : 0 < s.dims) (dims_le : s.dims ≤ 3)
    (hold : All (CanHold s) rs) (l : LexLayout) (is : IsLayout s rs l) where
  pub layout_offset :
      (n : ℕ) (q : Range) (p : Index)
      → get_elem? rs n ≡ some q
      → contains s.dims p q ≡ true
      → offset_lex l n p ≡ done (rank s.dims q p)
  layout_offset n q p g c =
      let same : offset_lex l n p
          ≡ offset_lex (record l { dims = s.dims; entries = map (entry_of s.dims) rs }) n p =
        ap₂ (λ d es. offset_lex (record l { dims = d; entries = es }) n p) is.dims is.entries in
      same
      ∙ offset_lex-rank (record l { dims = s.dims; entries = map (entry_of s.dims) rs }) n
          (entry_of s.dims q) p pos_dims dims_le (get_elem?-map (entry_of s.dims) rs n q g)
          (entry_of-Regular s q (All-get_elem? (CanHold s) rs n hold g)) c

-- `laik_new_layout_lex` returns a layout for ranges of one space with 1 to 3 dimensions that are
-- not empty and have less than 2^63 indexes each. In it, `offset_lex` returns for each index of
-- the range of a map an offset below the number of indexes of that range, and two indexes of that
-- range have the same offset only if they are the same.
pub new_layout_lex-offset :
    (s : SpaceRef) (r : Range) (rs : List Range)
    → 0 < s.dims
    → s.dims ≤ 3
    → All (CanHold s) (r ∷ rs)
    → (l : LexLayout) × (new_layout_lex (r ∷ rs) ≡ done l)
      × ((n : ℕ) (q : Range) (p : Index)
          → get_elem? (r ∷ rs) n ≡ some q
          → contains s.dims p q ≡ true
          → (k : ℕ) × (offset_lex l n p ≡ done k) × (k < total s.dims q))
      × ((n : ℕ) (q : Range) (p p' : Index)
          → get_elem? (r ∷ rs) n ≡ some q
          → contains s.dims p q ≡ true
          → contains s.dims p' q ≡ true
          → offset_lex l n p ≡ offset_lex l n p'
          → SameIndex s.dims p p')
new_layout_lex-offset s r rs h k hold =
    let (l, e, is) = new_layout_lex-returns s r rs h k hold in
    let place = layout_offset s (r ∷ rs) h k hold l is in
    (
      l,
      e,
      λ n q p g c. (rank s.dims q p, place n q p g c, rank_lt s.dims q p c),
      λ n q p p' g c c' same.
          rank-injective s.dims q p p' c c'
            (done-injective (sym (place n q p g c) ∙ same ∙ place n q p' g c')),
    )

outside-within : (x f t : ℤ) → (ltb_ℤ x f || leb_ℤ t x) ≡ not (within x f t)
unfolding within
outside-within x f t = ground arith

section_from-step :
    (dims i : ℕ) (p : Index) (e : LexEntry) (es : List LexEntry)
    → section_from dims p i (e ∷ es)
      ≡ (if contains dims p e.range then some i else section_from dims p (suc i) es)
unfolding section_from contains holds
section_from-step dims i p e es =
    rw
      (
        outside-within p.i0 e.range.from.i0 e.range.to.i0,
        outside-within p.i1 e.range.from.i1 e.range.to.i1,
        outside-within p.i2 e.range.from.i2 e.range.to.i2,
      )
      (tests (within p.i0 e.range.from.i0 e.range.to.i0) (within p.i1 e.range.from.i1 e.range.to.i1)
        (within p.i2 e.range.from.i2 e.range.to.i2) (ltb 1 dims) (ltb 2 dims)
        (λ e. ground (arith, e)))
  where
    tests :
        (a b c d1 d2 : Bool)
        → (d1 ≡ false → d2 ≡ false)
        → (if not a
            then section_from dims p (suc i) es
            else if d1
            then (if not b
                then section_from dims p (suc i) es
                else if d2
                then (if not c then section_from dims p (suc i) es else some i)
                else some i)
            else some i)
          ≡ (if a && ((not d1 || b) && (not d2 || c))
              then some i
              else section_from dims p (suc i) es)
    tests a b c d1 d2 h = ground (arith, h)

-- The search finds the first range that holds `p`, which is number `n` of `rs`.
pub record Found (dims : ℕ) (rs : List Range) (p : Index) (n : ℕ) : Type 0 where
  pub range : Range
  pub found : get_elem? rs n ≡ some range
  pub inside : contains dims p range ≡ true
  pub first : all (λ q. not (contains dims p q)) (take n rs) ≡ true

section_from-first :
    (dims : ℕ) (p : Index) (i : ℕ) (rs : List Range)
    → ((section_from dims p i (map (entry_of dims) rs) ≡ none)
        × (all (λ q. not (contains dims p q)) rs ≡ true))
      ⊎ ((n : ℕ) × (section_from dims p i (map (entry_of dims) rs) ≡ some (i + n))
          × Found dims rs p n)
unfolding section_from
section_from-first dims p i [] = inl (refl, refl)
section_from-first dims p i (r ∷ rs) =
    let step = section_from-step dims i p (entry_of dims r) (map (entry_of dims) rs) in
    elim (Bool-cases (contains dims p r)) [
      | inl c ↦ inr (
        0,
        step ∙ ground (arith, c),
        record { range = r; found = refl; inside = c; first = refl },
      )
      | inr c ↦ elim (section_from-first dims p (suc i) rs) [
        | inl (a, b) ↦ inl (step ∙ ground (arith, a, c), ground (arith, b, c))
        | inr (n, a, f) ↦ inr (
          suc n,
          step ∙ ground (arith, a, c),
          record {
            range = f.range;
            found = f.found;
            inside = f.inside;
            first = ground (arith, f.first, c);
          },
        )
      ]
    ]

-- In the layout of `rs`, `section_lex` finds no map for an index that no range of `rs` holds; else
-- it finds the first map whose range holds it, and `offset_lex` in that map returns an offset below
-- the number of indexes of its range.
pub section_lex-offset :
    (s : SpaceRef) (r : Range) (rs : List Range) (p : Index)
    → 0 < s.dims
    → s.dims ≤ 3
    → All (CanHold s) (r ∷ rs)
    → (l : LexLayout) × (new_layout_lex (r ∷ rs) ≡ done l)
      × (((section_lex l p ≡ none) × (all (λ q. not (contains s.dims p q)) (r ∷ rs) ≡ true))
          ⊎ ((n : ℕ) × (k : ℕ) × (section_lex l p ≡ some n)
              × (offset_lex l n p ≡ done k)
              × (f : Found s.dims (r ∷ rs) p n) × (k < total s.dims f.range)))
unfolding section_lex
section_lex-offset s r rs p h k hold =
    let (l, e, is) = new_layout_lex-returns s r rs h k hold in
    let same : section_lex l p ≡ section_from s.dims p 0 (map (entry_of s.dims) (r ∷ rs)) =
      ap₂ (λ d es. section_from d p 0 es) is.dims is.entries in
    (
      l,
      e,
      elim (section_from-first s.dims p 0 (r ∷ rs)) [
        | inl (a, b) ↦ inl (same ∙ a, b)
        | inr (n, a, f) ↦ inr (
          n,
          rank s.dims f.range p,
          same ∙ a ∙ ap some (omega arith),
          layout_offset s (r ∷ rs) h k hold l is n f.range p f.found f.inside,
          f,
          rank_lt s.dims f.range p f.inside,
        )
      ],
    )
