-- ===== src/Mpi/Sync/Collect.antt =====
-- Task 0 collects the changes of all tasks.
use laik.Prelude.Int.{pos, eq_ℤ}
use laik.Kvs.Order.{strcmp_eq, strcmp_refl}
use laik.Prelude.{
  ℕ, ◌/◌, ◌%◌, ◌≤◌, true, false, ◌||◌, ◌==◌, leb, List, [], ◌∷◌, length, length-append, All, none,
  some, ◌≡◌, refl, ap, sym, ◌∙◌, subst, arith, Bool-cases, inl, inr, done,
}
use mathlib.Core.Option.{some-injective}
use laik.Kvs.{Changes, strncmp_eq}
use laik.Kvs.Journal.{bytes_of, grown, same_value, changes_ensure_size, changes_set_size}
use laik.Kvs.Encode.{Change, NoZero, Holds, encode, encoded, offsets, length-ends}
use laik.Kvs.Decode.{ProperChange}
use laik.Kvs.Map.{same_string}
use laik.Kvs.Refine.{Map}
use laik.Kvs.Union.{NoDup, Conflict, change_at, change_at-head, change_at-tail, or_else, agrees}
use laik.Kvs.Apply.{IsString}
use laik.Mpi.Sync.{Message}

-- A change of a string to a string, with two characters at least.
abbrev pub Sendable : Change → Type 0
Sendable (k, v) = NoZero k × IsString v × (4 ≤ length (encode (k, v)))

pub Sendable-Proper : (ps : List Change) → All Sendable ps → All ProperChange ps
Sendable-Proper [] h = tt
Sendable-Proper ((k, v) ∷ ps) ((nz, (s, eq, ok), size), rest) =
    ((nz, omega (arith, ap length eq, length-append s (0 ∷ []))), Sendable-Proper ps rest)

-- What a list of changes gives to keys, as a property of the changes.
pub All-change_at :
    (P : Change → Type 0) (ps : List Change) (k v : List ℕ)
    → All P ps
    → change_at ps k ≡ some v
    → P (k, v)
unfolding change_at
All-change_at P [] k v h e = absurd cc
All-change_at P ((j, w) ∷ ps) k v h e = elim (Bool-cases (same_string j k)) [
  | inl eq ↦
      subst (λ x. P (k, x)) (some-injective _ _ (rw eq at e))
        (subst (λ x. P (x, w)) (strcmp_eq j k eq) h.0)
  | inr ne ↦ All-change_at P ps k v h.1 (rw ne at e)
]

pub change_at-All :
    (P : Change → Type 0) (ps : List Change)
    → NoDup ps
    → ((k v : List ℕ) → change_at ps k ≡ some v → P (k, v))
    → All P ps
change_at-All P [] dup h = tt
change_at-All P ((j, w) ∷ ps) dup h = (
  h j w (change_at-head (j, w) ps j (self j)),
  change_at-All P ps dup.1 (λ k v e. h k v (change_at-tail (j, w) ps k (other k e) ∙ e)),
)
  where
    self : (j : List ℕ) → same_string j j ≡ true
    self j = ap (λ c. eq_ℤ c (pos 0)) (strcmp_refl j)

    other : (k : List ℕ) {v : List ℕ} → change_at ps k ≡ some v → same_string j k ≡ false
    other k e = elim (Bool-cases (same_string j k)) [
      | inr ne ↦ ne
      | inl eq ↦ let gone = ap (change_at ps) (sym (strcmp_eq j k eq)) ∙ dup.0 in absurd cc
    ]

agrees_refl : (k v : List ℕ) → agrees k v v ≡ true
unfolding same_value bytes_of strncmp_eq
agrees_refl k v = ground (arith, strncmp_refl v)
  where
    strncmp_refl : (v : List ℕ) → strncmp_eq (length v) v v ≡ true
    strncmp_refl [] = refl
    strncmp_refl (x ∷ v) = ground (arith, strncmp_refl v)

-- The changes give only values of `news`.
abbrev pub Extends : Map → List Change → Type 0
Extends news ps = (k v : List ℕ) → change_at ps k ≡ some v → news k ≡ some v

pub no-Conflict :
    {news : Map} (xs ys : List Change) → Extends news xs → Extends news ys → ¬ Conflict xs ys
no-Conflict xs ys hx hy (k, v, w, ex, ey, differ) =
    let same : v ≡ w = some-injective _ _ (sym (hx k v ex) ∙ hy k w ey) in
    let agree = ap (agrees k v) (sym same) ∙ agrees_refl k v in absurd cc

abbrev pub message_of : List Change → Message
message_of ps = (offsets ps, encoded ps)

-- The value that the first list with the key gives to it.
abbrev pub first_of : List (List Change) → Map
first_of [] k = none
first_of (ps ∷ pss) k = or_else (change_at ps k) (first_of pss k)

abbrev pub HasRoom : Changes → Type 0
HasRoom c = c.off_size / 2 ≤ c.entry_size

-- The journal that receives, cleared and enlarged, and with a message.
abbrev pub ready_for : Changes → List Change → Changes
ready_for c ps = record c {
  off = [];
  bytes = [];
  entries = [];
  off_size = grown c.off_size (length (offsets ps));
  bytes_size = grown c.bytes_size (length (encoded ps));
  entry_size = grown c.entry_size (length (offsets ps) / 2);
}

abbrev pub filled_with : Changes → List Change → Changes
filled_with c ps = record (ready_for c ps) { off = offsets ps; bytes = encoded ps }

pub ready_for-room : (c : Changes) (ps : List Change) → HasRoom c → HasRoom (ready_for c ps)
unfolding grown
ready_for-room c ps h = ground arith

abbrev pub cleared : Changes → Changes
cleared c = record c { off = []; bytes = []; entries = [] }

pub set_size-cleared : (c : Changes) → changes_set_size c [] [] ≡ done (cleared c)
unfolding changes_set_size
set_size-cleared c =
    let off : leb 0 c.off_size ≡ true = ground arith in
    let bytes : leb 0 c.bytes_size ≡ true = ground arith in
    let entries : leb 0 c.entry_size ≡ true = ground arith in rw (off, bytes, entries) refl

pub cleared-ready :
    (c : Changes) (ps : List Change)
    → changes_ensure_size (cleared c) (length (offsets ps)) (length (encoded ps))
      ≡ done (ready_for c ps)
unfolding changes_ensure_size
cleared-ready c ps = refl

pub filled_with-set :
    (c : Changes) (p : Change) (ps : List Change)
    → changes_set_size (ready_for c (p ∷ ps)) (offsets (p ∷ ps)) (encoded (p ∷ ps))
      ≡ done (filled_with c (p ∷ ps))
unfolding changes_set_size grown
filled_with-set c p ps =
    let n = length (offsets (p ∷ ps)) in
    let b = length (encoded (p ∷ ps)) in
    let odd : (n == 0 || (n % 2) == 1) ≡ true = ground (arith, length-ends 0 (p ∷ ps)) in
    let off : leb n (grown c.off_size n) ≡ true = ground arith in
    let bytes : leb b (grown c.bytes_size b) ≡ true = ground arith in
    let entries : leb (n / 2) (grown c.entry_size (n / 2)) ≡ true = ground arith in
    rw (odd, off, bytes, entries) refl

pub filled_with-Holds : (c : Changes) (ps : List Change) → HasRoom c → Holds (filled_with c ps) ps
unfolding grown
filled_with-Holds c ps h = record {
  bytes_eq = refl;
  off_eq = refl;
  off_fits = ground arith;
  bytes_fit = ground arith;
  room = ground arith;
}
