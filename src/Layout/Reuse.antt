-- ===== src/Layout/Reuse.antt =====
-- `reuse_lex` and the offsets in the map that is reused.
use laik.Prelude.{
  aborted, sym, ◌∙◌, ◌>>=◌, ◌%◌, ◌-◌, ◌^◌, ◌+◌, refl, ap, ◌≡◌, ℕ, zero, suc, true, some, none, List,
  [], ◌∷◌, get_elem?, done, arith,
}
use laik.Space.{Index, range_within_range}
use laik.Layout.{LexEntry, LexLayout, reuse_lex, put_entry, offset_lex, raw_offset, checked}
use laik.Layout.Offsets.{entry_at-some}

get_elem?-put_entry :
    (es : List LexEntry) (n : ℕ) (e old : LexEntry)
    → get_elem? es n ≡ some old
    → get_elem? (put_entry es n e) n ≡ some e
get_elem?-put_entry [] n e old h = absurd (cc h)
get_elem?-put_entry (x ∷ xs) zero e old h = refl
get_elem?-put_entry (x ∷ xs) (suc n) e old h = get_elem?-put_entry xs n e old h

put_entry-other :
    (es : List LexEntry) (n k : ℕ) (e : LexEntry)
    → ¬ (n ≡ k)
    → get_elem? (put_entry es n e) k ≡ get_elem? es k
put_entry-other [] n k e h = refl
put_entry-other (x ∷ xs) zero zero e h = absurd (h refl)
put_entry-other (x ∷ xs) zero (suc k) e h = refl
put_entry-other (x ∷ xs) (suc n) zero e h = refl
put_entry-other (x ∷ xs) (suc n) (suc k) e h = put_entry-other xs n k e (λ d. h (ap suc d))

-- Where the range of map `n` lies in that of map `nold` of an old layout of the same dimensions,
-- `reuse_lex` returns true and a layout in which every index has the offset in map `n` that it has
-- in map `nold` of the old layout, while the offsets in all other maps stay.
pub reuse_lex-offset :
    (l old : LexLayout) (n nold : ℕ) (e e_old : LexEntry)
    → get_elem? l.entries n ≡ some e
    → get_elem? old.entries nold ≡ some e_old
    → range_within_range e.range e_old.range ≡ done true
    → l.dims ≡ old.dims
    → (l' : LexLayout) × (reuse_lex l n old nold ≡ done (true, l'))
      × ((p : Index) → offset_lex l' n p ≡ offset_lex old nold p)
      × ((k : ℕ) (p : Index) → ¬ (n ≡ k) → offset_lex l' k p ≡ offset_lex l k p)
unfolding reuse_lex offset_lex
reuse_lex-offset l old n nold e e_old h k fits same =
    let l' : LexLayout = record l {
      count = (l.count + (e_old.count + 2 ^ 64 - e.count)) % 2 ^ 64;
      entries = put_entry l.entries n e_old;
    } in
    (
      l',
      ground (arith, h, k, fits),
      λ p.
          ap (λ o. o >>= λ x. checked x.count (raw_offset l.dims x p))
            (entry_at-some l' n e_old (get_elem?-put_entry l.entries n e_old e h))
          ∙ ap (λ d. checked e_old.count (raw_offset d e_old p)) same
          ∙ sym (
              ap (λ o. o >>= λ x. checked x.count (raw_offset old.dims x p))
                (entry_at-some old nold e_old k)),
      λ i p other.
          ap
            (λ o. (elim o [ none ↦ aborted | some x ↦ done x ]) >>= λ x.
              checked x.count (raw_offset l.dims x p))
            (put_entry-other l.entries n i e_old other),
    )
