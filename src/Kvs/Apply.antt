-- ===== src/Kvs/Apply.antt =====
-- A store in a synchronization, and the changes of one entry.
pub mod Set
pub mod Whole
use mathlib.Core.List.{append_assoc}
use mathlib.Core.Option.{some-injective}
use laik.Prelude.{
  ℕ, zero, suc, ◌+◌, ◌-◌, ◌≤◌, ◌<◌, Bool, true, false, not, ◌&&◌, List, [], ◌∷◌, ◌++◌, length,
  length-append, All, get_elem?, get_elem?-append_left, countp, Option, none, some, ◌≡◌, ◌≢◌, refl,
  ap, ap₂, sym, ◌∙◌, subst, arith, Bool-cases, Option-cases, inl, inr, ◌⊎◌, if◌then◌else◌, ◌==◌,
  ltb→lt, get_elem?-append_right, ltb, leb, ==_iff, take, drop, Outcome, done, aborted, ◌>>=◌, ◌>>◌,
  assert,
}
use laik.Kvs.{Entry, KvStore, Changes, memcmp_eq, strcmp}
use laik.Kvs.Journal.{c_string, changes_init}
use laik.Kvs.Store.{set_at, kvs_entry, append_key, store_value, kvs_set, apply_from, changes_apply}
use laik.Kvs.Search.{key_of, same_key}
use laik.Kvs.Encode.{
  Change, NoZero, Holds, encode, encoded, ends, offsets, length-encode, length-ends,
}
use laik.Kvs.Decode.{ProperChange, key_read, value_read, rest_split}
use laik.Kvs.Map.{value_at, put, same_string, value_at-none, value_at-get_elem?}
use laik.Kvs.Invariant.{
  IsStore, Implements, Found, kvs_entry-Found, replaced, replaced-IsStore, replaced-value_at,
  append_key-IsStore, append_key-last,
}
use laik.Kvs.Updates.{append_key-value_at, put-same}
use laik.Kvs.Passes.{set_at-get_elem?}
use laik.Kvs.Refine.{put-same_map, as_string, memcmp_eq-string, Strings, Map}

-- The store as it is outside of the synchronization, with an empty journal.
abbrev pub outer : KvStore → KvStore
outer kvs = record kvs { in_sync = false; changes = changes_init }

-- The entries that were changed since the last synchronization have the values `m`, where `m` has
-- one for their key.
abbrev pub Settled : Map → List Entry → Type 0
Settled m es =
    (i : ℕ) (e : Entry) (w : List ℕ)
    → get_elem? es i ≡ some e
    → e.updated ≡ true
    → m e.key ≡ some w
    → e.value ≡ some w

-- A store in a synchronization, with the map `m`; the new values are those of `news`.
pub record Syncing (kvs : KvStore) (news m : Map) : Type 0 where
  pub store : IsStore (outer kvs)
  pub inside : kvs.in_sync ≡ true
  pub values : (j : List ℕ) → value_at kvs.entries j ≡ m j
  pub settled : Settled news kvs.entries

module _ {kvs : KvStore} {news m : Map} (s : Syncing kvs news m) (i : ℕ) (e : Entry) (v : List ℕ)
    (at : get_elem? kvs.entries i ≡ some e) where
  abbrev changed : KvStore
  changed = record kvs { entries = set_at i (record e { value = some v }) kvs.entries }

  store_value-inside : e.updated ≡ false → store_value kvs i e v ≡ done (changed, some i)
  unfolding store_value
  store_value-inside h = rw (s.inside, h) refl

  changed-IsStore : IsStore (outer changed)
  changed-IsStore =
      replaced-IsStore s.store i (record e { value = some v }) (ap key_of at) changes_init
        s.store.pending s.store.held s.store.unsorted

  changed-Syncing : e.updated ≡ false → Syncing changed news (put e.key (some v) m)
  changed-Syncing h = record {
    store = changed-IsStore;
    inside = s.inside;
    values = λ j.
        replaced-value_at s.store i (record e { value = some v }) (ap key_of at) j
        ∙ put-same_map e.key (some v) (value_at kvs.entries) m j (s.values j);
    settled = λ x y w here upd new.
        let (other, same) = set_at-get_elem? kvs.entries i (record e { value = some v }) y x here in
        elim (Bool-cases (x == i)) [
          | inl eq ↦ let off = ap (λ z. z.updated) (same ((==_iff x i).0 eq)) in absurd cc
          | inr ne ↦ s.settled x y w (other (λ eq. ground arith)) upd new
        ];
  }

abbrev pub blank : List ℕ → Entry
blank k = record { key = k; value = none; updated = false }

pub blank_only :
    (k : List ℕ) (n : ℕ) (y : Entry) → get_elem? (blank k ∷ []) n ≡ some y → y.updated ≡ true → ⊥
blank_only k zero y h upd = let off = ap (λ z. z.updated) (some-injective _ _ h) in absurd cc
blank_only k (suc n) y h upd = absurd cc

module _ {kvs : KvStore} {news m : Map} (s : Syncing kvs news m) (k : List ℕ)
    (absent : countp (same_key k) kvs.entries ≡ 0) where
  append_key-Syncing : Syncing (append_key kvs k) news m
  unfolding append_key
  append_key-Syncing = record {
    store = append_key-IsStore s.store k absent;
    inside = s.inside;
    values = λ j. append_key-value_at s.store k absent j ∙ s.values j;
    settled = λ x y w here upd new. elim (Bool-cases (ltb x (length kvs.entries))) [
      | inl lt ↦
          s.settled x y w
            (sym (get_elem?-append_left kvs.entries (blank k ∷ []) x (ltb→lt _ _ lt)) ∙ here) upd
            new
      | inr ge ↦
          let last =
            sym (get_elem?-append_right kvs.entries (blank k ∷ []) x (ground arith)) ∙ here in
          absurd (blank_only k (x - length kvs.entries) y last upd)
    ];
  }

kvs_entry-outer : (kvs : KvStore) (k : List ℕ) → kvs_entry (outer kvs) k ≡ kvs_entry kvs k
unfolding kvs_entry
kvs_entry-outer kvs k = refl

-- A string, as a value
abbrev pub IsString : List ℕ → Type 0
IsString v = (s : List ℕ) × (v ≡ as_string s) × NoZero s

pub memcmp_eq-IsString :
    (old new b : List ℕ)
    → IsString old
    → IsString new
    → memcmp_eq (length new) (old ++ b) new ≡ true
    → old ≡ new
memcmp_eq-IsString old new b (s, es, hs) (t, et, ht) e =
    es
    ∙ ap as_string (
        memcmp_eq-string s t b hs ht (
          subst (λ o. memcmp_eq (length (as_string t)) (o ++ b) (as_string t) ≡ true) es
            (subst (λ n. memcmp_eq (length n) (old ++ b) n ≡ true) et e)))
    ∙ sym et

memcmp_eq_refl : (v b : List ℕ) → memcmp_eq (length v) (v ++ b) v ≡ true
unfolding memcmp_eq
memcmp_eq_refl [] b = refl
memcmp_eq_refl (x ∷ v) b = ground (arith, memcmp_eq_refl v b)

pub Syncing-map :
    {kvs : KvStore} {news m m' : Map}
    → Syncing kvs news m
    → ((j : List ℕ) → m j ≡ m' j)
    → Syncing kvs news m'
Syncing-map s h = record {
  store = s.store;
  inside = s.inside;
  values = λ j. s.values j ∙ h j;
  settled = s.settled;
}

-- A store after a call in a synchronization: the journal is the old one.
abbrev pub Becomes : KvStore → KvStore → Map → Map → Type 0
Becomes kvs kvs' news m = Syncing kvs' news m × (kvs'.changes ≡ kvs.changes)
