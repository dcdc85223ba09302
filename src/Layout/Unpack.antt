-- ===== src/Layout/Unpack.antt =====
-- What the generic unpack of src/layout.c does to the memory.
use laik.Prelude.{
  subst, inr, ap₂, inl, sym, refl, ◌∙◌, ap, ℕ, zero, suc, ◌+◌, ◌-◌, ◌*◌, ◌<◌, ◌≤◌, ◌≡◌, true, false,
  some, List, [], ◌∷◌, length, get_elem?, Outcome, done, arith,
}
use laik.Space.{Range, Index}
use laik.Space.Points.{contains}
use laik.Layout.Walk.{next_lex, rank, total}
use laik.Layout.Ranks.{Places}
use laik.Layout.Generic.{write, unpack_loop}
use laik.Layout.RoundTrip.{Visited, after, after-more, after-last, step-cases, suc_mul}

no_bytes : (size e : ℕ) → size ≡ 0 * e → size ≡ 0
no_bytes size e s = omega (arith, s)

module _ {A : Type 0} where
  no_elements : (xs : List A) → length xs ≤ 0 → xs ≡ []
  no_elements [] h = refl
  no_elements (x ∷ xs) h = absurd (omega arith)

  pub write_same : (mem : ℕ → A) (n : ℕ) (x : A) → write mem n x n ≡ x
  write_same mem n x = ground arith

  pub write_other : (mem : ℕ → A) (n k : ℕ) (x : A) → ¬ (n ≡ k) → write mem n x k ≡ mem k
  write_other mem n k x h = ground (arith, h)

  module _ (dims : ℕ) (r : Range) (g : Index → ℕ) where
    -- The elements of `buf` are stored at the next indexes from `idx` on, and nothing else changes.
    pub record Stores (idx : Index) (buf : List A) (mem mem' : ℕ → A) : Type 0 where
      pub stored :
          (p : Index)
          → Visited dims r idx (length buf) p
          → get_elem? buf (rank dims r p - rank dims r idx) ≡ some (mem' (g p))
      pub kept :
          (k : ℕ) → ((p : Index) → Visited dims r idx (length buf) p → ¬ (g p ≡ k)) → mem' k ≡ mem k

    Stores-nil : (idx : Index) (mem : ℕ → A) → Stores idx [] mem mem
    Stores-nil idx mem = record {
      stored = λ p v. absurd (omega (arith, v.from, v.to));
      kept = λ k h. refl;
    }

    module _ (places : Places dims r g) (idx next : Index) (x : A) (buf : List A) (mem mem' : ℕ → A)
        (c : contains dims idx r ≡ true) (up : rank dims r next ≡ suc (rank dims r idx))
        (h : Stores next buf (write mem (g idx) x) mem') where
      first_kept : mem' (g idx) ≡ x
      first_kept =
          h.kept (g idx)
            (λ p v e. absurd (omega (arith, v.from, up, places.apart p idx v.inside c e)))
          ∙ write_same mem (g idx) x

      stored-cons :
          (p : Index) (n : ℕ)
          → Visited dims r idx (suc (length buf)) p
          → rank dims r p - rank dims r idx ≡ n
          → get_elem? (x ∷ buf) n ≡ some (mem' (g p))
      stored-cons p zero v d =
          ap some
            (sym first_kept ∙ ap mem' (places.same idx p c v.inside (omega (arith, v.from, d))))
      stored-cons p (suc m) v d =
          let same : m ≡ rank dims r p - rank dims r next = omega (arith, d, up) in
          ap (get_elem? buf) same
          ∙ h.stored p (record {
            inside = v.inside;
            from = omega (arith, d, up);
            to = omega (arith, v.to, up);
          })

      Stores-cons : Stores idx (x ∷ buf) mem mem'
      Stores-cons = record {
        stored = λ p v. stored-cons p _ v refl;
        kept = λ k not_there.
            h.kept k (λ p v. not_there p (record {
              inside = v.inside;
              from = omega (arith, v.from, up);
              to = omega (arith, v.to, up);
            }))
            ∙ write_other mem (g idx) k x
                (not_there idx (record { inside = c; from = omega arith; to = omega arith }));
      }

    Stores-last :
        (idx : Index) (x : A) (mem : ℕ → A)
        → Places dims r g
        → contains dims idx r ≡ true
        → Stores idx (x ∷ []) mem (write mem (g idx) x)
    Stores-last idx x mem places c = record {
      stored = λ p v.
          let e : rank dims r p ≡ rank dims r idx = omega (arith, v.from, v.to) in
          let z : rank dims r p - rank dims r idx ≡ 0 = omega (arith, e) in
          let same = places.same idx p c v.inside (sym e) in
          rw (z) (ap some (sym (write_same mem (g idx) x) ∙ ap (write mem (g idx) x) same));
      kept = λ k not_there.
          write_other mem (g idx) k x
            (not_there idx (record { inside = c; from = omega arith; to = omega arith }));
    }

  module _ (dims : ℕ) (r : Range) (pos_dims : 0 < dims) (dims_le : dims ≤ 3)
      (offset : Index → Outcome ℕ) (elemsize : ℕ) (g : Index → ℕ) (places : Places dims r g)
      (offsets : (p : Index) → contains dims p r ≡ true → offset p ≡ done (g p))
      (pos_size : 0 < elemsize) where
    unpack-stop :
        (n : ℕ) (mem : ℕ → A) (idx : Index) (buf : List A) (count : ℕ)
        → unpack_loop (suc n) dims r offset elemsize mem idx buf 0 count ≡ done (mem, count, idx)
    unfolding unpack_loop
    unpack-stop n mem idx buf count = ground arith

    unpack-more :
        (n : ℕ) (mem : ℕ → A) (idx next : Index) (x : A) (buf : List A) (size count : ℕ)
        → elemsize ≤ size
        → contains dims idx r ≡ true
        → next_lex dims r idx ≡ (true, next)
        → unpack_loop (suc n) dims r offset elemsize mem idx (x ∷ buf) size count
          ≡ unpack_loop n dims r offset elemsize
              (write mem (g idx) x)
              next
              buf
              (size - elemsize)
              (count + 1)
    unfolding unpack_loop
    unpack-more n mem idx next x buf size count big c e =
        ground (arith, offsets idx c, ap (λ s. s.0) e, ap (λ s. s.1) e)

    unpack-last :
        (n : ℕ) (mem : ℕ → A) (idx next : Index) (x : A) (buf : List A) (size count : ℕ)
        → elemsize ≤ size
        → contains dims idx r ≡ true
        → next_lex dims r idx ≡ (false, next)
        → unpack_loop (suc n) dims r offset elemsize mem idx (x ∷ buf) size count
          ≡ done (write mem (g idx) x, count + 1, r.to)
    unfolding unpack_loop
    unpack-last n mem idx next x buf size count big c e =
        ground (arith, offsets idx c, ap (λ s. s.0) e)

    pub unpack_loop_lem :
        (n : ℕ) (mem : ℕ → A) (idx : Index) (buf : List A) (size count : ℕ)
        → size < n
        → contains dims idx r ≡ true
        → rank dims r idx + length buf ≤ total dims r
        → size ≡ length buf * elemsize
        → (mem' : ℕ → A) × (unpack_loop n dims r offset elemsize mem idx buf size count
            ≡ done (mem', count + length buf, after dims r (length buf) idx))
          × Stores dims r g idx buf mem mem'
    unfolding after
    unpack_loop_lem zero mem idx buf size count h c f s = absurd (omega arith)
    unpack_loop_lem (suc n) mem idx [] size count h c f s = (
      mem,
      ap (λ k. unpack_loop (suc n) dims r offset elemsize mem idx [] k count)
            (no_bytes size elemsize s)
          ∙ unpack-stop n mem idx [] count
          ∙ ap (λ k. done (mem, k, idx)) (omega arith),
      Stores-nil dims r g idx mem,
    )
    unpack_loop_lem (suc n) mem idx (x ∷ buf) size count h c f s =
        let (next, cases) = step-cases dims r pos_dims dims_le idx c in
        let big : elemsize ≤ size = omega (arith, s, suc_mul (length buf) elemsize) in
        elim cases [
          | inl (e, c', up) ↦
              let (mem', eq, st) =
                unpack_loop_lem n (write mem (g idx) x) next buf (size - elemsize) (count + 1)
                  (omega (arith, big, h)) c' (omega (arith, f, up))
                  (omega (arith, s, suc_mul (length buf) elemsize)) in
              (
                mem',
                unpack-more n mem idx next x buf size count big c e
                    ∙ eq
                    ∙ ap₂ (λ k i. done (mem', k, i)) (omega arith)
                        (sym (after-more dims r (length buf) idx next e)),
                Stores-cons dims r g places idx next x buf mem mem' c up st,
              )
          | inr (e, last) ↦
              let none_left : buf ≡ [] = no_elements buf (omega (arith, f, last)) in
              subst
                (λ b.
                  (mem' : ℕ → A) × (unpack_loop (suc n) dims r offset elemsize mem idx (x ∷ b) size
                      count
                    ≡ done (mem', count + length (x ∷ b), after dims r (length (x ∷ b)) idx))
                  × Stores dims r g idx (x ∷ b) mem mem')
                (sym none_left)
                (
                  write mem (g idx) x,
                  unpack-last n mem idx next x [] size count big c e
                      ∙ ap (λ i. done (write mem (g idx) x, count + 1, i))
                          (sym (after-last dims r 0 idx next e)),
                  Stores-last dims r g idx x mem places c,
                )
        ]
