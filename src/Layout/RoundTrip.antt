-- ===== src/Layout/RoundTrip.antt =====
-- What the generic pack and unpack of src/layout.c do, and that unpacking what was packed copies.
use laik.Prelude.{
  ◌>>=◌, ltb→lt, ltb, inr, ◌∙◌, refl, inl, Bool-cases, sym, ◌⊎◌, ap, ℕ, zero, suc, ◌+◌, ◌-◌, ◌*◌,
  ◌<◌, ◌≤◌, ◌≡◌, Bool, true, false, some, List, [], ◌∷◌, length, get_elem?, done, arith,
}
use laik.Space.{Range, Index}
use laik.Space.Points.{contains}
use laik.Layout.Walk.{next_lex, rank, total, Steps, next_lex-Steps}
use laik.Layout.Ranks.{Places, rank_lt}
use laik.Layout.Generic.{Mapping, pack_loop}

-- the index after `k` steps of the walk
unfoldable pub after : ℕ → Range → ℕ → Index → Index
after dims r zero idx = idx
after dims r (suc k) idx =
    let next = next_lex dims r idx in elim next.0 [ true ↦ after dims r k next.1 | false ↦ r.to ]

-- `p` is one of the `k` indexes of the walk from `idx` on.
pub record Visited (dims : ℕ) (r : Range) (idx : Index) (k : ℕ) (p : Index) : Type 0 where
  pub inside : contains dims p r ≡ true
  pub from : rank dims r idx ≤ rank dims r p
  pub to : rank dims r p < rank dims r idx + k

-- `size` bytes have room for `k` elements, and for no more unless the range ends there.
pub record Room (dims : ℕ) (r : Range) (idx : Index) (elemsize size k : ℕ) : Type 0 where
  pub enough : k * elemsize ≤ size
  pub most : (rank dims r idx + k ≡ total dims r) ⊎ (size < suc k * elemsize)

pub ltb-false : (a b : ℕ) → ltb a b ≡ false → b ≤ a
ltb-false a b h = ground arith

pub suc_mul : (k e : ℕ) → suc k * e ≡ k * e + e
suc_mul k e = grind arith

Room-nil : (dims : ℕ) (r : Range) (idx : Index) (e size : ℕ) → size < e → Room dims r idx e size 0
Room-nil dims r idx e size h = record {
  enough = omega arith;
  most = inr (omega (arith, suc_mul 0 e));
}

Room-last :
    (dims : ℕ) (r : Range) (idx : Index) (e size : ℕ)
    → e ≤ size
    → suc (rank dims r idx) ≡ total dims r
    → Room dims r idx e size 1
Room-last dims r idx e size h k = record {
  enough = omega (arith, suc_mul 0 e);
  most = inl (omega arith);
}

Room-cons :
    (dims : ℕ) (r : Range) (idx next : Index) (e size k : ℕ)
    → e ≤ size
    → rank dims r next ≡ suc (rank dims r idx)
    → Room dims r next e (size - e) k
    → Room dims r idx e size (suc k)
Room-cons dims r idx next e size k h up room = record {
  enough = omega (arith, suc_mul k e, room.enough);
  most = elim room.most [
    | inl full ↦ inl (omega (arith, full, up))
    | inr less ↦ inr (omega (arith, less, suc_mul (suc k) e))
  ];
}

module _ {A : Type 0} (dims : ℕ) (r : Range) where
  -- `buf` holds the elements of `mem` at the next indexes from `idx` on, and no more than there are.
  pub record Holds (f : Index → ℕ) (mem : ℕ → A) (idx : Index) (buf : List A) : Type 0 where
    pub fits : rank dims r idx + length buf ≤ total dims r
    pub content :
        (p : Index)
        → Visited dims r idx (length buf) p
        → get_elem? buf (rank dims r p - rank dims r idx) ≡ some (mem (f p))

  Holds-nil :
      (f : Index → ℕ) (mem : ℕ → A) (idx : Index) → contains dims idx r ≡ true → Holds f mem idx []
  Holds-nil f mem idx c = record {
    fits = omega (arith, rank_lt dims r idx c);
    content = λ p v. absurd (omega (arith, v.from, v.to));
  }

  Holds-last :
      (f : Index → ℕ) (mem : ℕ → A) (idx : Index)
      → Places dims r f
      → contains dims idx r ≡ true
      → Holds f mem idx (mem (f idx) ∷ [])
  Holds-last f mem idx pl c = record {
    fits = omega (arith, rank_lt dims r idx c);
    content = λ p v.
        let e : rank dims r p ≡ rank dims r idx = omega (arith, v.from, v.to) in
        let z : rank dims r p - rank dims r idx ≡ 0 = omega (arith, e) in
        rw (z) (ap (λ k. some (mem k)) (pl.same idx p c v.inside (sym e)));
  }

  content-cons :
      (f : Index → ℕ) (mem : ℕ → A) (idx next : Index) (buf : List A) (p : Index) (n : ℕ)
      → Places dims r f
      → contains dims idx r ≡ true
      → rank dims r next ≡ suc (rank dims r idx)
      → Holds f mem next buf
      → Visited dims r idx (suc (length buf)) p
      → rank dims r p - rank dims r idx ≡ n
      → get_elem? (mem (f idx) ∷ buf) n ≡ some (mem (f p))
  content-cons f mem idx next buf p zero pl c e h v d =
      ap (λ k. some (mem k)) (pl.same idx p c v.inside (omega (arith, v.from, d)))
  content-cons f mem idx next buf p (suc m) pl c e h v d =
      let same : m ≡ rank dims r p - rank dims r next = omega (arith, d, e) in
      ap (get_elem? buf) same
      ∙ h.content p
          (record { inside = v.inside; from = omega (arith, d, e); to = omega (arith, v.to, e) })

  Holds-cons :
      (f : Index → ℕ) (mem : ℕ → A) (idx next : Index) (buf : List A)
      → Places dims r f
      → contains dims idx r ≡ true
      → rank dims r next ≡ suc (rank dims r idx)
      → Holds f mem next buf
      → Holds f mem idx (mem (f idx) ∷ buf)
  Holds-cons f mem idx next buf pl c e h = record {
    fits = omega (arith, h.fits, e);
    content = λ p v. content-cons f mem idx next buf p _ pl c e h v refl;
  }

pub after-more :
    (dims : ℕ) (r : Range) (k : ℕ) (idx next : Index)
    → next_lex dims r idx ≡ (true, next)
    → after dims r (suc k) idx ≡ after dims r k next
unfolding after
after-more dims r k idx next e = ap (λ n. elim n.0 [ true ↦ after dims r k n.1 | false ↦ r.to ]) e

pub after-last :
    (dims : ℕ) (r : Range) (k : ℕ) (idx next : Index)
    → next_lex dims r idx ≡ (false, next)
    → after dims r (suc k) idx ≡ r.to
unfolding after
after-last dims r k idx next e = ap (λ n. elim n.0 [ true ↦ after dims r k n.1 | false ↦ r.to ]) e

module _ (dims : ℕ) (r : Range) (pos_dims : 0 < dims) (dims_le : dims ≤ 3) where
  -- a step that goes on, or ends, from an index of the range
  pub step-cases :
      (idx : Index)
      → contains dims idx r ≡ true
      → (next : Index) × (((next_lex dims r idx ≡ (true, next))
            × (contains dims next r ≡ true)
            × (rank dims r next ≡ suc (rank dims r idx)))
          ⊎ ((next_lex dims r idx ≡ (false, next)) × (suc (rank dims r idx) ≡ total dims r)))
  step-cases idx c = go (next_lex dims r idx) refl (next_lex-Steps dims r idx pos_dims dims_le c)
    where
      go :
          (n : Bool × Index)
          → next_lex dims r idx ≡ n
          → Steps dims r idx n
          → (next : Index) × (((next_lex dims r idx ≡ (true, next))
                × (contains dims next r ≡ true)
                × (rank dims r next ≡ suc (rank dims r idx)))
              ⊎ ((next_lex dims r idx ≡ (false, next)) × (suc (rank dims r idx) ≡ total dims r)))
      go (true, next) e s = (next, inl (e, s.inside refl, s.up refl))
      go (false, next) e s = (next, inr (e, s.last refl))

  module _ {A : Type 0} (m : Mapping A) (f : Index → ℕ) (places : Places dims r f)
      (offsets : (p : Index) → contains dims p r ≡ true → m.offset p ≡ done (f p))
      (pos_size : 0 < m.elemsize) where
    pack-more :
        (n : ℕ) (idx next : Index) (size : ℕ)
        → ltb size m.elemsize ≡ false
        → contains dims idx r ≡ true
        → next_lex dims r idx ≡ (true, next)
        → pack_loop (suc n) dims r m idx size ≡ (
            pack_loop n dims r m next (size - m.elemsize) >>= λ more.
            done (m.mem (f idx) ∷ more.0, more.1))
    unfolding pack_loop
    pack-more n idx next size big c e =
        ground (arith, big, offsets idx c, ap (λ n. n.0) e, ap (λ n. n.1) e)

    pack-last :
        (n : ℕ) (idx next : Index) (size : ℕ)
        → ltb size m.elemsize ≡ false
        → contains dims idx r ≡ true
        → next_lex dims r idx ≡ (false, next)
        → pack_loop (suc n) dims r m idx size ≡ done (m.mem (f idx) ∷ [], r.to)
    unfolding pack_loop
    pack-last n idx next size big c e =
        ground (arith, big, offsets idx c, ap (λ n. n.0) e, ap (λ n. n.1) e)

    pub pack_loop_lem :
        (n : ℕ) (idx : Index) (size : ℕ)
        → size < n
        → contains dims idx r ≡ true
        → (buf : List A) × (pack_loop n dims r m idx size
            ≡ done (buf, after dims r (length buf) idx))
          × Holds dims r f m.mem idx buf
          × Room dims r idx m.elemsize size (length buf)
    unfolding pack_loop after
    pack_loop_lem zero idx size h c = absurd (omega arith)
    pack_loop_lem (suc n) idx size h c = elim (Bool-cases (ltb size m.elemsize)) [
      | inl small ↦ (
        [],
        ground (arith, small),
        Holds-nil dims r f m.mem idx c,
        Room-nil dims r idx m.elemsize size (ltb→lt size m.elemsize small),
      )
      | inr big ↦
          let (next, cases) = step-cases idx c in
          elim cases [
            | inl (e, c', up) ↦
                let (buf, eq, holds, room) =
                  pack_loop_lem n next (size - m.elemsize)
                    (omega (arith, ltb-false size m.elemsize big)) c' in
                (
                  m.mem (f idx) ∷ buf,
                  pack-more n idx next size big c e
                      ∙ ap (λ o. o >>= λ more. done (m.mem (f idx) ∷ more.0, more.1)) eq
                      ∙ ap (λ i. done (m.mem (f idx) ∷ buf, i))
                          (sym (after-more dims r (length buf) idx next e)),
                  Holds-cons dims r f m.mem idx next buf places c up holds,
                  Room-cons dims r idx next m.elemsize size (length buf)
                      (ltb-false size m.elemsize big) up room,
                )
            | inr (e, last) ↦ (
              m.mem (f idx) ∷ [],
              pack-last n idx next size big c e
                  ∙ ap (λ i. done (m.mem (f idx) ∷ [], i)) (sym (after-last dims r 0 idx next e)),
              Holds-last dims r f m.mem idx places c,
              Room-last dims r idx m.elemsize size (ltb-false size m.elemsize big) last,
            )
          ]
    ]
