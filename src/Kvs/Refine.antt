-- ===== src/Kvs/Refine.antt =====
-- A store that holds strings, used by the calls of include/laik/core.h, against a map.
use mathlib.Core.Option.{some-injective, none-ne-some}
use laik.Prelude.{
  Bool-cases, ℕ, true, List, [], ◌∷◌, ◌++◌, length, All, Option, none, some, ◌≡◌, refl, ap, sym,
  ◌∙◌, subst, arith, inl, inr, Outcome, done, ◌>>=◌, if◌then◌else◌,
}
use laik.Prelude.Sort.{QSort}
use laik.Kvs.{KvStore, memcmp_eq}
use laik.Kvs.Journal.{changes_init, changes_ensure_size, grown}
use laik.Kvs.Store.{kvs_new, kvs_get, kvs_data, kvs_sets, kvs_remove, kvs_clean, kvs_sort}
use laik.Kvs.Encode.{NoZero}
use laik.Kvs.Map.{value_at, value_at-none, value_at-get_elem?, put, same_string}
use laik.Kvs.Invariant.{IsStore, Implements, kvs_entry-Found}
use laik.Kvs.Updates.{kept, kvs_set_lem, kvs_remove_lem}
use laik.Kvs.Passes.{kvs_sort-Implements, kvs_clean-Implements}

-- A map from keys to values; removed keys are absent.
abbrev pub Map : Type 0
Map = List ℕ → Option (List ℕ)

-- The calls that a program makes between two synchronizations.
pub data Command : Type 0 where
  sets : List ℕ → List ℕ → Command
  remove : List ℕ → Command
  clean : Command
  sort : Command

abbrev pub as_string : List ℕ → List ℕ
as_string s = s ++ (0 ∷ [])

-- The value of a call to set is a C string.
abbrev pub Proper : Command → Type 0
Proper (sets k s) = NoZero s
Proper (remove k) = Unit
Proper clean = Unit
Proper sort = Unit

-- What a call means for the map.
abbrev pub meaning : Command → Map → Map
meaning (sets k s) m = put k (some (as_string s)) m
meaning (remove k) m = put k none m
meaning clean m = λ k. none
meaning sort m = m

abbrev pub meanings : List Command → Map → Map
meanings [] m = m
meanings (c ∷ cs) m = meanings cs (meaning c m)

module _ (q : QSort) (behind : List ℕ → List ℕ) where
  abbrev pub run : Command → KvStore → Outcome KvStore
  run (sets k s) kvs = kvs_sets behind kvs k s >>= λ (kvs', e). done kvs'
  run (remove k) kvs = kvs_remove kvs k >>= λ (kvs', found). done kvs'
  run clean kvs = kvs_clean kvs
  run sort kvs = done (kvs_sort q kvs)

  abbrev pub runs : List Command → KvStore → Outcome KvStore
  runs [] kvs = done kvs
  runs (c ∷ cs) kvs = run c kvs >>= λ kvs'. runs cs kvs'

-- On strings `memcmp` reads no further than the shorter one.
pub memcmp_eq-string :
    (s t b : List ℕ)
    → NoZero s
    → NoZero t
    → memcmp_eq (length (as_string t)) (as_string s ++ b) (as_string t) ≡ true
    → s ≡ t
unfolding memcmp_eq
memcmp_eq-string [] [] b h k e = refl
memcmp_eq-string [] (y ∷ ys) b h k e = ground (arith, k.0)
memcmp_eq-string (x ∷ xs) [] b h k e = ground (arith, h.0)
memcmp_eq-string (x ∷ xs) (y ∷ ys) b h k e = ground (arith, memcmp_eq-string xs ys b h.1 k.1)

-- All values are strings.
abbrev pub Strings : Map → Type 0
Strings m = (k v : List ℕ) → m k ≡ some v → (s : List ℕ) × (v ≡ as_string s) × NoZero s

module _ (behind : List ℕ → List ℕ) where
  kept-string :
      (o : Option (List ℕ)) (t : List ℕ)
      → ((v : List ℕ) → o ≡ some v → (s : List ℕ) × (v ≡ as_string s) × NoZero s)
      → NoZero t
      → kept behind o (as_string t) ≡ as_string t
  kept-string none t h k = refl
  kept-string (some old) t h k =
      let (s, eq, ok) = h old refl in
      let exact : memcmp_eq (length (as_string t)) (old ++ behind old) (as_string t) ≡ true
          → old ≡ as_string t =
        λ e.
          eq
          ∙ ap as_string (
              memcmp_eq-string s t (behind old) ok k (
                subst (λ o. memcmp_eq (length (as_string t)) (o ++ behind old) (as_string t) ≡ true)
                  eq e)) in
      ground arith

Strings-meaning : (c : Command) (m : Map) → Proper c → Strings m → Strings (meaning c m)
Strings-meaning (sets k s) m p h j v e = elim (Bool-cases (same_string k j)) [
  | inl eq ↦ (s, sym (some-injective _ _ (rw eq at e)), p)
  | inr ne ↦ h j v (rw ne at e)
]
Strings-meaning (remove k) m p h j v e = elim (Bool-cases (same_string k j)) [
  | inl eq ↦ absurd (none-ne-some _ (rw eq at e))
  | inr ne ↦ h j v (rw ne at e)
]
Strings-meaning clean m p h j v e = absurd cc
Strings-meaning sort m p h j v e = h j v e

pub put-same_map :
    (k : List ℕ) (v : Option (List ℕ)) (f m : Map) (j : List ℕ)
    → f j ≡ m j
    → put k v f j ≡ put k v m j
put-same_map k v f m j h = ap (λ o. if same_string k j then v else o) h

module _ (q : QSort) (behind : List ℕ → List ℕ) where
  run-Implements :
      (c : Command) {kvs : KvStore} {m : Map}
      → Implements kvs m
      → Strings m
      → Proper c
      → (kvs' : KvStore) × (run q behind c kvs ≡ done kvs') × Implements kvs' (meaning c m)
  unfolding kvs_sets
  run-Implements (sets k s) {kvs} {m} (is, same) strings p =
      let (kvs', o, returns, (is', stored)) = kvs_set_lem behind is k (as_string s) in
      let new : kept behind (value_at kvs.entries k) (as_string s) ≡ as_string s =
        kept-string behind (value_at kvs.entries k) s (λ v e. strings k v (sym (same k) ∙ e)) p in
      (
        kvs',
        rw returns refl,
        (
          is',
          λ j.
              stored j
              ∙ ap (λ v. put k (some v) (value_at kvs.entries) j) new
              ∙ put-same_map k (some (as_string s)) (value_at kvs.entries) m j (same j),
        ),
      )
  run-Implements (remove k) {kvs} {m} (is, same) strings p =
      let (kvs', found, returns, (is', stored)) = kvs_remove_lem is k in
      (
        kvs',
        rw returns refl,
        (is', λ j. stored j ∙ put-same_map k none (value_at kvs.entries) m j (same j)),
      )
  run-Implements clean (is, same) strings p = kvs_clean-Implements is
  run-Implements sort {kvs} (is, same) strings p =
      let (is', kept_map) = kvs_sort-Implements q is in
      (kvs_sort q kvs, refl, (is', λ j. kept_map j ∙ same j))

  runs-Implements :
      (cs : List Command) {kvs : KvStore} {m : Map}
      → Implements kvs m
      → Strings m
      → All Proper cs
      → (kvs' : KvStore) × (runs q behind cs kvs ≡ done kvs') × Implements kvs' (meanings cs m)
  runs-Implements [] {kvs} h strings p = (kvs, refl, h)
  runs-Implements (c ∷ cs) {kvs} {m} h strings p =
      let (next, returns, h') = run-Implements c h strings p.0 in
      let (kvs', rest, h'') = runs-Implements cs h' (Strings-meaning c m p.0 strings) p.1 in
      (kvs', rw (returns, rest) refl, h'')

-- What `laik_kvs_get` returns
pub kvs_get_lem :
    {kvs : KvStore}
    → IsStore kvs
    → (k : List ℕ) (n : ℕ) → (kvs_get kvs k n).0 ≡ value_at kvs.entries k
unfolding kvs_get kvs_data
kvs_get_lem {kvs} is k n = elim (kvs_entry-Found is k) [
  | inl (e, absent) ↦ rw (e, kvs_get) (sym (value_at-none k kvs.entries absent))
  | inr (i, x, e, at, eq) ↦
      rw (e, at, kvs_get)
        (sym (
          subst (λ s. value_at kvs.entries s ≡ x.value) eq
            (value_at-get_elem? kvs.entries i at (is.distinct x.key))))
]

-- A new store is in order and empty.
pub kvs_new-Implements : (kvs : KvStore) × (kvs_new ≡ done kvs) × Implements kvs (λ k. none)
unfolding kvs_new changes_ensure_size changes_init grown value_at
kvs_new-Implements = (
  _,
  refl,
  (
    record {
      distinct = λ k. omega arith;
      sorted = λ i j a b lt le h l. absurd (omega arith);
      upto = omega arith;
      fits = omega arith;
      positive = omega arith;
      pending = [];
      held = record {
        bytes_eq = refl;
        off_eq = refl;
        off_fits = omega arith;
        bytes_fit = omega arith;
        room = omega arith;
      };
      unsorted = refl;
      outside = refl;
    },
    λ j. refl,
  ),
)

-- From a new store, every sequence of calls that set strings, remove keys, clean and sort returns,
-- and then `laik_kvs_get` returns for each key what the map holds to which the same calls lead from
-- the empty map, whatever stands in memory behind the values.
pub kvs_new-runs :
    (q : QSort) (behind : List ℕ → List ℕ) (cs : List Command)
    → All Proper cs
    → (kvs : KvStore) × (kvs' : KvStore) × (kvs_new ≡ done kvs)
      × (runs q behind cs kvs ≡ done kvs')
      × ((k : List ℕ) (n : ℕ) → (kvs_get kvs' k n).0 ≡ meanings cs (λ j. none) k)
kvs_new-runs q behind cs proper =
    let (kvs, made, new) = kvs_new-Implements in
    let (kvs', returns, (is, same)) =
      runs-Implements q behind cs new (λ k v e. absurd (none-ne-some _ e)) proper in
    (kvs, kvs', made, returns, λ k n. kvs_get_lem is k n ∙ same k)
