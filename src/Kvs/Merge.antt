-- ===== src/Kvs/Merge.antt =====
-- The loops of `laik_kvs_changes_merge`.
pub mod Whole
use mathlib.Core.List.{append_assoc}
use laik.Prelude.{
  ℕ, zero, suc, ◌+◌, ◌*◌, ◌/◌, ◌-◌, ◌≤◌, ◌<◌, Bool, true, false, ◌==◌, ltb, leb, some, Bool-cases,
  inl, inr, ◌⊎◌, List, [], ◌∷◌, ◌++◌, length, length-append, map, Outcome, done, aborted, ◌>>=◌,
  ◌>>◌, assert, ◌≡◌, refl, ap, ap₂, sym, ◌∙◌, subst, arith,
}
use laik.Prelude.Int.{pos, ltb_ℤ, eq_ℤ}
use laik.Kvs.{Entry, Changes, strcmp}
use laik.Kvs.Journal.{
  sorts_after, add_entry, merge_loop, changes_merge, changes_set_size, changes_ensure_size, grown,
  same_value,
}
use laik.Kvs.Order.{strcmp_eq, strcmp_flip}
use laik.Kvs.Encode.{Change, encode, encoded, ends, offsets, length-ends, length-encode, Holds}
use laik.Kvs.Decode.{entry_of}
use laik.Kvs.Append.{
  Filled, Filled-less, add_entry-Filled, add_entries-Filled, Head, Ascending, After, After-Head,
}
use laik.Kvs.Union.{Union, Conflict, Union-left, Union-right, agrees}
use laik.Kvs.Union.Steps.{
  Union-less, Union-greater, Union-equal, Conflict-less, Conflict-greater, Conflict-equal,
  Conflict-here,
}

-- A conflict ends the process, or else the journal holds the union behind the changes `zs`.
abbrev pub Merges : List Change → List Change → List Change → Outcome Changes → Type 0
Merges zs xs ys o =
    ((o ≡ aborted) × Conflict xs ys)
    ⊎ ((c : Changes) × (ws : List Change) × (o ≡ done c) × Filled c (zs ++ ws) 0 0 × Union xs ys ws)

-- Room for all changes of both lists
abbrev Ready : Changes → List Change → List Change → List Change → Type 0
Ready c zs xs ys =
    Filled c zs (length xs + length ys) (length (encoded xs) + length (encoded ys))
    × Ascending xs
    × Ascending ys
    × After zs xs
    × After zs ys

-- One change is added, and the rest is merged.
module _ (c : Changes) (zs : List Change) (x : Change) {n b : ℕ}
    (f : Filled c zs (suc n) (length (encode x) + b))
    (after : sorts_after (map entry_of zs) x.0 ≡ true) where
  then_merge :
      (xs ys xs' ys' : List Change) (rest : Changes → Outcome Changes)
      → (Conflict xs ys → Conflict xs' ys')
      → ((ws : List Change) → Union xs ys ws → Union xs' ys' (x ∷ ws))
      → ((c' : Changes) → Filled c' (zs ++ (x ∷ [])) n b → Merges (zs ++ (x ∷ [])) xs ys (rest c'))
      → Merges zs xs' ys' (add_entry c (entry_of x) >>= rest)
  then_merge xs ys xs' ys' rest conflict union rec =
      let (next, added, f') = add_entry-Filled x f after in
      elim (rec next f') [
        | inl (failed, at) ↦ inl (rw (added, failed) refl, conflict at)
        | inr (c', ws, returns, filled, u) ↦ inr (
          c',
          x ∷ ws,
          rw (added, returns) refl,
          subst (λ l. Filled c' l 0 0) (append_assoc zs (x ∷ []) ws) filled,
          union ws u,
        )
      ]

-- What holds where both lists begin with the same key.
abbrev SameHead : Change → List Change → List ℕ → List ℕ → List Change → Type 0
SameHead x xs k w ys =
    (agrees x.0 x.1 w ≡ true
      → (ws : List Change) → Union xs ys ws
      → Union (x ∷ xs) ((k, w) ∷ ys) (x ∷ ws))
    × (Conflict xs ys → Conflict (x ∷ xs) ((k, w) ∷ ys))
    × (agrees x.0 x.1 w ≡ false → Conflict (x ∷ xs) ((k, w) ∷ ys))

same_head :
    (x y : Change) (xs ys : List Change)
    → Ascending (x ∷ xs)
    → Ascending (y ∷ ys)
    → x.0 ≡ y.0
    → SameHead x xs y.0 y.1 ys
same_head (key, left) (k, right) xs ys ascx ascy eq =
    subst (λ l. Ascending ((l, right) ∷ ys) → SameHead (key, left) xs l right ys) eq
      (λ asc. (
        λ same ws. Union-equal key left right xs ys ascx asc same,
        Conflict-equal key left right xs ys ascx asc,
        Conflict-here key left right xs ys ascx asc,
      ))
      ascy

pub merge_loop-Merges :
    (xs ys : List Change) (c : Changes) (zs : List Change)
    → Ready c zs xs ys
    → Merges zs xs ys (merge_loop c (map entry_of xs) (map entry_of ys))
unfolding merge_loop same_value add_entry
merge_loop-Merges [] ys c zs (f, ascx, ascy, afterx, aftery) =
    let (c', returns, filled) =
      add_entries-Filled ys (Filled-less f (omega arith) (omega arith)) ascy aftery in
    inr (c', ys, returns, filled, Union-right ys ascy)
merge_loop-Merges (x ∷ xs) [] c zs (f, ascx, ascy, afterx, aftery) =
    let (c', returns, filled) =
      add_entries-Filled (x ∷ xs) (Filled-less f (omega arith) (omega arith)) ascx afterx in
    inr (c', x ∷ xs, returns, filled, Union-left (x ∷ xs) ascx)
merge_loop-Merges (x ∷ xs) (y ∷ ys) c zs (f, ascx, ascy, afterx, aftery) =
    elim (Bool-cases (ltb_ℤ (strcmp x.0 y.0) (pos 0))) [
      | inl less ↦ subst (Merges zs (x ∷ xs) (y ∷ ys)) (sym (rw (less, merge_loop) refl)) (
          then_merge c zs x (Filled-less f (omega arith) (omega (arith, x_size))) afterx xs (y ∷ ys)
            (x ∷ xs) (y ∷ ys) (λ c'. merge_loop c' (map entry_of xs) (map entry_of (y ∷ ys)))
            (Conflict-less x xs (y ∷ ys) ascx ascy less)
            (λ ws. Union-less x xs (y ∷ ys) ascx ascy less)
            (λ c' f'.
              merge_loop-Merges xs (y ∷ ys) c' (zs ++ (x ∷ []))
                (f', ascx.1, ascy, After-Head zs x xs ascx.0, After-Head zs x (y ∷ ys) less)))
      | inr not_less ↦ elim (Bool-cases (ltb_ℤ (pos 0) (strcmp x.0 y.0))) [
        | inl more ↦
            let greater = strcmp_flip y.0 x.0 ∙ more in
            subst (Merges zs (x ∷ xs) (y ∷ ys)) (sym (rw (not_less, more, merge_loop) refl)) (
              then_merge c zs y (Filled-less f (omega arith) (omega (arith, y_size))) aftery
                (x ∷ xs) ys (x ∷ xs) (y ∷ ys)
                (λ c'. merge_loop c' (map entry_of (x ∷ xs)) (map entry_of ys))
                (Conflict-greater y ys (x ∷ xs) ascy ascx greater)
                (λ ws. Union-greater y ys (x ∷ xs) ascy ascx greater)
                (λ c' f'.
                  merge_loop-Merges (x ∷ xs) ys c' (zs ++ (y ∷ [])) (
                    f',
                    ascx,
                    ascy.1,
                    After-Head zs y (x ∷ xs) greater,
                    After-Head zs y ys ascy.0,
                  )))
        | inr not_more ↦
            let same_key = strcmp_eq x.0 y.0 (ground arith) in
            let (union, later, here) = same_head x y xs ys ascx ascy same_key in
            elim (Bool-cases (agrees x.0 x.1 y.1)) [
              | inr differ ↦ inl (rw (not_less, not_more, differ, merge_loop) refl, here differ)
              | inl same ↦
                  subst (Merges zs (x ∷ xs) (y ∷ ys))
                    (sym (rw (not_less, not_more, same, merge_loop) refl))
                    (then_merge c zs x (Filled-less f (omega arith) (omega (arith, x_size, y_size)))
                      afterx xs ys (x ∷ xs) (y ∷ ys)
                      (λ c'. merge_loop c' (map entry_of xs) (map entry_of ys)) later (union same)
                      (λ c' f'. merge_loop-Merges xs ys c' (zs ++ (x ∷ [])) (
                        f',
                        ascx.1,
                        ascy.1,
                        After-Head zs x xs ascx.0,
                        After-Head zs x ys (below same_key),
                      )))
            ]
      ]
    ]
  where
    x_size : length (encoded (x ∷ xs)) ≡ length (encode x) + length (encoded xs)
    x_size = length-append (encode x) (encoded xs)

    y_size : length (encoded (y ∷ ys)) ≡ length (encode y) + length (encoded ys)
    y_size = length-append (encode y) (encoded ys)

    below : x.0 ≡ y.0 → Head x ys
    below eq = head_of ys ascy.0
      where
        head_of : (ys : List Change) → Head y ys → Head x ys
        head_of [] h = tt
        head_of (r ∷ rs) h = subst (λ k. ltb_ℤ (strcmp k r.0) (pos 0) ≡ true) (sym eq) h
