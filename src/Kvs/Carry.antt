-- ===== src/Kvs/Carry.antt =====
-- Journals of strings without a key twice, and what sorting them gives.
use mathlib.Core.List.{Permᴰ}
use mathlib.Core.List.Perm
use mathlib.Core.Logic.{∥∥₁_elim}
use native.Mathlib.Nat.{ℕ_set}
use laik.Prelude.{
  ◌/◌, ℕ, ◌+◌, ◌≤◌, true, false, List, [], ◌∷◌, length, length-append, length-perm, length-map, All,
  All-perm, map, countp, countp-perm, none, some, ◌≡◌, refl, ap, ap₂, sym, ◌∙◌, subst, arith,
  Bool-cases, inl, inr, if◌then◌else◌, done,
}
use laik.Prelude.Int.{pos, ltb_ℤ, eq_ℤ}
use laik.Prelude.Sort.{QSort, IsSorted}
use laik.Kvs.{Entry, Changes, strcmp}
use laik.Kvs.Journal.{bytes_of, entrycmp, changes_sort}
use laik.Kvs.Order.{strcmp_eq, strcmp_refl}
use laik.Kvs.Search.{same_key}
use laik.Kvs.Encode.{Change, Holds, encode, encoded, offsets, length-encode, length-ends}
use laik.Kvs.Decode.{ProperChange, entry_of}
use laik.Kvs.Map.{value_at, value_at-perm, same_string}
use laik.Kvs.Roundtrip.{Sorts, changes_sort-Sorts}
use laik.Kvs.Append.{Ascending}
use laik.Kvs.Union.{NoDup, change_at}
use laik.Kvs.Merge.Whole.{IsSortedJournal}

value_at-change_at : (ps : List Change) (k : List ℕ) → value_at (map entry_of ps) k ≡ change_at ps k
unfolding value_at change_at
value_at-change_at [] k = refl
value_at-change_at ((j, v) ∷ ps) k =
    ap (λ o. if same_string j k then some v else o) (value_at-change_at ps k)

change_at-countp :
    (ps : List Change) (k : List ℕ)
    → change_at ps k ≡ none
    → countp (same_key k) (map entry_of ps) ≡ 0
unfolding change_at
change_at-countp [] k h = refl
change_at-countp ((j, v) ∷ ps) k h = ground (arith, change_at-countp ps k)

NoDup-countp :
    (ps : List Change) → NoDup ps → (k : List ℕ) → countp (same_key k) (map entry_of ps) ≤ 1
NoDup-countp [] h k = omega arith
NoDup-countp ((j, v) ∷ ps) h k = elim (Bool-cases (same_string j k)) [
  | inl eq ↦
      let none_left = change_at-countp ps k (ap (change_at ps) (sym (strcmp_eq j k eq)) ∙ h.0) in
      ground arith
  | inr ne ↦ ground (arith, NoDup-countp ps h.1 k)
]

change_of : Entry → Change
change_of e = (e.key, bytes_of e.value)

-- An entry of the form that `entry_of` gives
abbrev Plain : Entry → Type 0
Plain e = (e.updated ≡ false) × (e.value ≡ some (bytes_of e.value))

Plain-prop : (e : Entry) → IsProp (Plain e)
Plain-prop e = hlevel

Plain-entry_of : (e : Entry) → Plain e → entry_of (change_of e) ≡ e
unfolding change_of
Plain-entry_of e h = ap₂ (λ o b. record { key = e.key; value = o; updated = b }) (sym h.1) (sym h.0)

Plains-map : (es : List Entry) → All Plain es → map entry_of (map change_of es) ≡ es
Plains-map [] h = refl
Plains-map (e ∷ es) h = ap₂ (λ x xs. x ∷ xs) (Plain-entry_of e h.0) (Plains-map es h.1)

entries-Plain : (ps : List Change) → All Plain (map entry_of ps)
unfolding bytes_of
entries-Plain [] = tt
entries-Plain (p ∷ ps) = ((refl, refl), entries-Plain ps)

IsSorted-Ascending :
    (ps : List Change)
    → IsSorted entrycmp (map entry_of ps)
    → ((k : List ℕ) → countp (same_key k) (map entry_of ps) ≤ 1)
    → Ascending ps
unfolding entrycmp
IsSorted-Ascending [] s d = tt
IsSorted-Ascending (p ∷ []) s d = (tt, tt)
IsSorted-Ascending (p ∷ r ∷ rs) s d =
    (strict, IsSorted-Ascending (r ∷ rs) s.1 (λ k. omega (arith, d k)))
  where
    self : same_string r.0 r.0 ≡ true
    self = ap (λ c. eq_ℤ c (pos 0)) (strcmp_refl r.0)

    strict : ltb_ℤ (strcmp p.0 r.0) (pos 0) ≡ true
    strict = ground (arith, s.0.0, d r.0, self)

-- The bytes that entries stand for.
abbrev weight : List Entry → ℕ
weight [] = 0
weight (e ∷ es) = length e.key + 1 + length (bytes_of e.value) + weight es

weight-permᴰ : {xs ys : List Entry} → Permᴰ xs ys → weight xs ≡ weight ys
weight-permᴰ Permᴰ.nil = refl
weight-permᴰ (Permᴰ.cons e d) =
    ap₂ (λ x n. length x.key + 1 + length (bytes_of x.value) + n) e (weight-permᴰ d)
weight-permᴰ (Permᴰ.swap {a} {b} {l = l} e e') =
    swapped a b l ∙ ap₂ (λ x y. weight (y ∷ x ∷ l)) e e'
  where
    swapped : (x y : Entry) (l : List Entry) → weight (x ∷ y ∷ l) ≡ weight (y ∷ x ∷ l)
    swapped x y l = omega arith
weight-permᴰ (Permᴰ.trans d d') = weight-permᴰ d ∙ weight-permᴰ d'

weight-entry_of : (ps : List Change) → weight (map entry_of ps) ≡ length (encoded ps)
unfolding bytes_of
weight-entry_of [] = refl
weight-entry_of (p ∷ ps) =
    omega (arith, weight-entry_of ps, length-append (encode p) (encoded ps), length-encode p)

length-offsets-eq :
    (ps qs : List Change) → length ps ≡ length qs → length (offsets ps) ≡ length (offsets qs)
length-offsets-eq [] [] h = refl
length-offsets-eq [] (q ∷ qs) h = absurd (omega arith)
length-offsets-eq (p ∷ ps) [] h = absurd (omega arith)
length-offsets-eq (p ∷ ps) (q ∷ qs) h =
    omega (arith, length-ends 0 (p ∷ ps), length-ends 0 (q ∷ qs))

-- A sorted journal with the entries of `ws`, whose bytes and offsets are those of `qs`.
pub record Carries (c : Changes) (qs ws : List Change) : Type 0 where
  pub journal : IsSortedJournal c ws
  pub off_eq : c.off ≡ offsets qs
  pub bytes_eq : c.bytes ≡ encoded qs
  pub room : c.off_size / 2 ≤ c.entry_size
  pub no_dup : NoDup qs
  pub same : (k : List ℕ) → change_at qs k ≡ change_at ws k

Sorts-Carries :
    (c : Changes) (ps : List Change) → Sorts c ps → NoDup ps → (ws : List Change) × Carries c ps ws
Sorts-Carries c ps s dup =
    let ws = map change_of c.entries in
    let plain : All Plain c.entries =
      All-perm Plain Plain-prop (Perm.symm s.perm) (entries-Plain ps) in
    let listed : map entry_of ws ≡ c.entries = Plains-map c.entries plain in
    let once : (k : List ℕ) → countp (same_key k) c.entries ≤ 1 =
      λ k. omega (arith, NoDup-countp ps dup k, countp-perm (same_key k) s.perm) in
    (
      ws,
      record {
        journal = record {
          ascending =
              IsSorted-Ascending ws (subst (IsSorted entrycmp) (sym listed) s.sorted)
                (λ k. subst (λ es. countp (same_key k) es ≤ 1) (sym listed) (once k));
          listed = sym listed;
          off_length =
              ap length s.held.off_eq
              ∙ length-offsets-eq ps ws (
                  omega (
                    arith,
                    length-perm s.perm,
                    length-map entry_of ps,
                    length-map change_of c.entries,
                  ));
          bytes_length =
              ap length s.held.bytes_eq
              ∙ sym (weight-entry_of ps)
              ∙ sym (∥∥₁_elim s.perm (ℕ_set _ _) weight-permᴰ)
              ∙ ap weight (sym listed)
              ∙ weight-entry_of ws;
        };
        off_eq = s.held.off_eq;
        bytes_eq = s.held.bytes_eq;
        room = s.held.room;
        no_dup = dup;
        same = λ k.
            sym (value_at-change_at ps k)
            ∙ sym (value_at-perm k s.perm (once k))
            ∙ ap (λ es. value_at es k) (sym listed)
            ∙ value_at-change_at ws k;
      },
    )

-- Sorting a journal of strings
pub changes_sort-Carries :
    (q : QSort) (c : Changes) (ps : List Change)
    → Holds c ps
    → c.entries ≡ []
    → All ProperChange ps
    → NoDup ps
    → (c' : Changes) × (ws : List Change) × (changes_sort q c ≡ done c') × Carries c' ps ws
changes_sort-Carries q c ps held unsorted proper dup =
    let (c', returns, s) = changes_sort-Sorts q c ps held unsorted proper in
    let (ws, carries) = Sorts-Carries c' ps s dup in (c', ws, returns, carries)
