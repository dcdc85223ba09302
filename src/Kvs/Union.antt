-- ===== src/Kvs/Union.antt =====
-- What merging two sorted journals means: the union of their changes.
pub mod Steps
use mathlib.Core.Option.{some-injective}
use laik.Prelude.{
  ℕ, Bool, true, false, Option, none, some, List, [], ◌∷◌, ◌≡◌, refl, ap, ap₂, sym, ◌∙◌, arith,
  if◌then◌else◌, Bool-cases, inl, inr,
}
use laik.Prelude.Int.{pos, ltb_ℤ, eq_ℤ}
use laik.Kvs.{strcmp}
use laik.Kvs.Journal.{same_value}
use laik.Kvs.Order.{strcmp_refl, strcmp_eq, strcmp_flip, strcmp_trans}
use laik.Kvs.Map.{same_string}
use laik.Kvs.Encode.{Change}
use laik.Kvs.Decode.{entry_of}
use laik.Kvs.Append.{Head, Ascending}

-- The value that a list of changes gives to a key.
unfoldable pub change_at : List Change → List ℕ → Option (List ℕ)
change_at [] k = none
change_at ((j, v) ∷ ps) k = if same_string j k then some v else change_at ps k

-- The first value, or else the second.
abbrev pub or_else : Option (List ℕ) → Option (List ℕ) → Option (List ℕ)
or_else (some v) o = some v
or_else none o = o

-- the comparison of `laik_kvs_changes_merge` for a key with two values
abbrev pub agrees : List ℕ → List ℕ → List ℕ → Bool
agrees k v w = same_value (entry_of (k, v)) (entry_of (k, w))

abbrev pub Agree : List Change → List Change → Type 0
Agree xs ys =
    (k v w : List ℕ) → change_at xs k ≡ some v → change_at ys k ≡ some w → agrees k v w ≡ true

-- A key that both lists change differently.
abbrev pub Conflict : List Change → List Change → Type 0
Conflict xs ys =
    (k : List ℕ) × (v : List ℕ) × (w : List ℕ) × (change_at xs k ≡ some v)
    × (change_at ys k ≡ some w)
    × (agrees k v w ≡ false)

pub record Union (xs ys ws : List Change) : Type 0 where
  pub ascending : Ascending ws
  pub head : (p : Change) → Head p xs → Head p ys → Head p ws
  pub values : (k : List ℕ) → change_at ws k ≡ or_else (change_at xs k) (change_at ys k)
  pub agree : Agree xs ys

Head-trans :
    (p r : Change) (ps : List Change)
    → ltb_ℤ (strcmp p.0 r.0) (pos 0) ≡ true
    → Head r ps
    → Head p ps
Head-trans p r [] h k = tt
Head-trans p r (s ∷ ps) h k = ground (arith, strcmp_trans p.0 r.0 s.0)

-- A key below all keys of a list is not in it.
pub change_at-Head :
    (p : Change) (ps : List Change) → Head p ps → Ascending ps → change_at ps p.0 ≡ none
unfolding change_at
change_at-Head p [] h asc = refl
change_at-Head p (r ∷ ps) h asc =
    ground (arith, strcmp_flip p.0 r.0, change_at-Head p ps (Head-trans p r ps h asc.0) asc.1)

-- No key stands twice.
abbrev pub NoDup : List Change → Type 0
NoDup [] = Unit
NoDup (p ∷ ps) = (change_at ps p.0 ≡ none) × NoDup ps

pub Ascending-NoDup : (ps : List Change) → Ascending ps → NoDup ps
Ascending-NoDup [] asc = tt
Ascending-NoDup (p ∷ ps) asc = (change_at-Head p ps asc.0 asc.1, Ascending-NoDup ps asc.1)

module _ (x : Change) (xs : List Change) (k : List ℕ) where
  pub change_at-head : same_string x.0 k ≡ true → change_at (x ∷ xs) k ≡ some x.1
  unfolding change_at
  change_at-head h = rw h refl

  pub change_at-tail : same_string x.0 k ≡ false → change_at (x ∷ xs) k ≡ change_at xs k
  unfolding change_at
  change_at-tail h = rw h refl

  -- A key in the tail is not that of the head.
  pub change_at-later :
      {v : List ℕ} → Head x xs → Ascending xs → change_at xs k ≡ some v → same_string x.0 k ≡ false
  change_at-later h asc e = elim (Bool-cases (same_string x.0 k)) [
    | inr ne ↦ ne
    | inl eq ↦
        let missing : change_at xs k ≡ none =
          ap (change_at xs) (sym (strcmp_eq x.0 k eq)) ∙ change_at-Head x xs h asc in
        absurd cc
  ]

pub or_else-none : (o : Option (List ℕ)) → or_else o none ≡ o
or_else-none (some v) = refl
or_else-none none = refl

pub Union-left : (xs : List Change) → Ascending xs → Union xs [] xs
unfolding change_at
Union-left xs asc = record {
  ascending = asc;
  head = λ p h l. h;
  values = λ k. sym (or_else-none (change_at xs k));
  agree = λ k v w h l. absurd cc;
}

pub Union-right : (ys : List Change) → Ascending ys → Union [] ys ys
unfolding change_at
Union-right ys asc = record {
  ascending = asc;
  head = λ p h l. l;
  values = λ k. refl;
  agree = λ k v w h l. absurd cc;
}
