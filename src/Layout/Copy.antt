-- ===== src/Layout/Copy.antt =====
-- The elements that are copied, one after the other or in parts, and the generic copy.
use laik.Prelude.{
  ltb→lt, inr, subst, ltb, ◌∙◌, sym, inl, ap, Bool-cases, ℕ, zero, suc, ◌+◌, ◌-◌, ◌<◌, ◌≤◌, ◌≡◌,
  true, false, List, length, arith, done,
}
use mathlib.Core.Option.{some-injective}
use laik.Space.{Range, Index}
use laik.Space.Points.{contains}
use laik.Layout.Walk.{rank, total, next_lex}
use laik.Layout.Ranks.{rank_lt, Places}
use laik.Layout.Generic.{Mapping, write, copy_elements}
use laik.Layout.RoundTrip.{Visited, Holds, ltb-false, step-cases}
use laik.Layout.Unpack.{Stores, write_same, write_other}
use laik.Layout.Transfer.{Copied, Serves}

module _ {A : Type 0} (dims : ℕ) (r : Range) where
  pub Copied-Stores :
      (f g : Index → ℕ) (idx : Index) (buf : List A) (smem mem mem' : ℕ → A)
      → Holds dims r f smem idx buf
      → Stores dims r g idx buf mem mem'
      → Copied dims r f g idx (length buf) smem mem mem'
  Copied-Stores f g idx buf smem mem mem' h st = record {
    fits = h.fits;
    copied = λ p v. some-injective _ _ (sym (st.stored p v) ∙ h.content p v);
    kept = st.kept;
  }

  module _ (f g : Index → ℕ) (places : Places dims r g) (idx next : Index) (k j : ℕ)
      (smem mem mem1 mem' : ℕ → A) (up : rank dims r next ≡ rank dims r idx + k)
      (a : Copied dims r f g idx k smem mem mem1)
      (b : Copied dims r f g next j smem mem1 mem') where
    copied-join : (p : Index) → Visited dims r idx (k + j) p → mem' (g p) ≡ smem (f p)
    copied-join p v = elim (Bool-cases (ltb (rank dims r p) (rank dims r next))) [
      | inl early ↦
          let first = ltb→lt (rank dims r p) (rank dims r next) early in
          b.kept (g p)
            (λ q w e. absurd (omega (arith, first, w.from, places.apart q p w.inside v.inside e)))
          ∙ a.copied p (record { inside = v.inside; from = v.from; to = omega (arith, first, up) })
      | inr late ↦ b.copied p (record {
        inside = v.inside;
        from = ltb-false (rank dims r p) (rank dims r next) late;
        to = omega (arith, v.to, up);
      })
    ]

    pub Copied-join : Copied dims r f g idx (k + j) smem mem mem'
    Copied-join = record {
      fits = omega (arith, b.fits, up);
      copied = copied-join;
      kept = λ n h.
          b.kept n (λ p v. h p (record {
            inside = v.inside;
            from = omega (arith, v.from, up);
            to = omega (arith, v.to, up);
          }))
          ∙ a.kept n
              (λ p v. h p (record { inside = v.inside; from = v.from; to = omega (arith, v.to) }));
    }

  Copied-one :
      (f g : Index → ℕ) (idx : Index) (smem mem : ℕ → A)
      → Places dims r f
      → Places dims r g
      → contains dims idx r ≡ true
      → Copied dims r f g idx 1 smem mem (write mem (g idx) (smem (f idx)))
  Copied-one f g idx smem mem pf pg c = record {
    fits = omega (arith, rank_lt dims r idx c);
    copied = λ p v.
        let e : rank dims r idx ≡ rank dims r p = omega (arith, v.from, v.to) in
        ap (write mem (g idx) (smem (f idx))) (sym (pg.same idx p c v.inside e))
        ∙ write_same mem (g idx) (smem (f idx))
        ∙ ap smem (pf.same idx p c v.inside e);
    kept = λ n h.
        write_other mem (g idx) n (smem (f idx))
          (h idx (record { inside = c; from = omega arith; to = omega arith }));
  }

module _ {A : Type 0} (dims : ℕ) (r : Range) (pos_dims : 0 < dims) (dims_le : dims ≤ 3)
    (src dst : Mapping A) (f g : Index → ℕ) (sf : Serves dims r src f)
    (sg : Serves dims r dst g) where
  copy-more :
      (n : ℕ) (idx next : Index) (mem : ℕ → A) (count : ℕ)
      → contains dims idx r ≡ true
      → next_lex dims r idx ≡ (true, next)
      → copy_elements (suc n) dims r src dst.offset idx mem count
        ≡ copy_elements n dims r src dst.offset next
            (write mem (g idx) (src.mem (f idx)))
            (count + 1)
  unfolding copy_elements
  copy-more n idx next mem count c e =
      ground (arith, sf.offsets idx c, sg.offsets idx c, ap (λ s. s.0) e, ap (λ s. s.1) e)

  copy-last :
      (n : ℕ) (idx next : Index) (mem : ℕ → A) (count : ℕ)
      → contains dims idx r ≡ true
      → next_lex dims r idx ≡ (false, next)
      → copy_elements (suc n) dims r src dst.offset idx mem count
        ≡ done (write mem (g idx) (src.mem (f idx)), count + 1)
  unfolding copy_elements
  copy-last n idx next mem count c e =
      ground (arith, sf.offsets idx c, sg.offsets idx c, ap (λ s. s.0) e)

  pub copy_elements_lem :
      (n : ℕ) (idx : Index) (mem : ℕ → A) (count : ℕ)
      → contains dims idx r ≡ true
      → total dims r - rank dims r idx ≤ n
      → (mem' : ℕ → A) × (copy_elements n dims r src dst.offset idx mem count
          ≡ done (mem', count + (total dims r - rank dims r idx)))
        × Copied dims r f g idx (total dims r - rank dims r idx) src.mem mem mem'
  copy_elements_lem zero idx mem count c h = absurd (omega (arith, rank_lt dims r idx c))
  copy_elements_lem (suc n) idx mem count c h =
      let (next, cases) = step-cases dims r pos_dims dims_le idx c in
      let mem1 = write mem (g idx) (src.mem (f idx)) in
      let one = Copied-one dims r f g idx src.mem mem sf.places sg.places c in
      elim cases [
        | inl (e, c', up) ↦
            let (mem', el, rest) =
              copy_elements_lem n next mem1 (count + 1) c' (omega (arith, up, h)) in
            let k : 1 + (total dims r - rank dims r next) ≡ total dims r - rank dims r idx =
              omega (arith, up, rank_lt dims r next c') in
            (
              mem',
              copy-more n idx next mem count c e ∙ el ∙ ap (λ j. done (mem', j)) (omega (arith, k)),
              subst (λ j. Copied dims r f g idx j src.mem mem mem') k
                  (Copied-join dims r f g sg.places idx next 1 (total dims r - rank dims r next)
                    src.mem mem mem1 mem' (omega (arith, up)) one rest),
            )
        | inr (e, last) ↦
            let k : 1 ≡ total dims r - rank dims r idx = omega (arith, last) in
            (
              mem1,
              copy-last n idx next mem count c e ∙ ap (λ j. done (mem1, count + j)) k,
              subst (λ j. Copied dims r f g idx j src.mem mem mem1) k one,
            )
      ]
