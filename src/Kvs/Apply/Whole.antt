-- ===== src/Kvs/Apply/Whole.antt =====
-- `laik_kvs_changes_apply` to a store that is synchronized.
use laik.Kvs.Apply.Set.{kvs_set-Syncing}
use mathlib.Core.Option.{some-injective}
use laik.Prelude.{
  ℕ, ◌+◌, ◌%◌, ◌-◌, ◌<◌, true, List, [], ◌∷◌, ◌++◌, length, length-append, All, none, some, ◌≡◌,
  refl, ap, ap₂, sym, ◌∙◌, subst, arith, Bool-cases, inl, inr, if◌then◌else◌, ◌==◌, ltb, take, drop,
  Outcome, done, ◌>>◌, assert,
}
use laik.Kvs.{KvStore, Changes}
use laik.Kvs.Journal.{c_string}
use laik.Kvs.Store.{apply_from, changes_apply}
use laik.Kvs.Order.{strcmp_eq}
use laik.Kvs.Encode.{Change, NoZero, encode, encoded, ends, offsets, length-encode, length-ends}
use laik.Kvs.Decode.{key_read, value_read, rest_split}
use laik.Kvs.Map.{put, same_string}
use laik.Kvs.Refine.{Strings, Map}
use laik.Kvs.Union.{change_at, change_at-head, change_at-tail, NoDup, or_else}
use laik.Kvs.Apply.{Syncing, Syncing-map, Becomes, IsString}

-- Keys and values are C strings, and the values are those of `news`.
abbrev pub Announced : Map → Change → Type 0
Announced news (k, v) = NoZero k × IsString v × (news k ≡ some v)

abbrev pub updated_by : List Change → Map → Map
updated_by ps m j = or_else (change_at ps j) (m j)

-- Putting the first change and then the others.
updated_by-put :
    (k v : List ℕ) (ps : List Change) (m : Map) (j : List ℕ)
    → NoDup ((k, v) ∷ ps)
    → updated_by ps (put k (some v) m) j ≡ updated_by ((k, v) ∷ ps) m j
updated_by-put k v ps m j dup = elim (Bool-cases (same_string k j)) [
  | inl eq ↦
      let gone : change_at ps j ≡ none = ap (change_at ps) (sym (strcmp_eq k j eq)) ∙ dup.0 in
      ap₂ or_else gone (ap (λ b. if b then some v else m j) eq)
      ∙ sym (ap (λ o. or_else o (m j)) (change_at-head (k, v) ps j eq))
  | inr ne ↦
      ap₂ or_else (sym (change_at-tail (k, v) ps j ne)) (ap (λ b. if b then some v else m j) ne)
]

Strings-put : (k v : List ℕ) (m : Map) → IsString v → Strings m → Strings (put k (some v) m)
Strings-put k v m is h j w e = elim (Bool-cases (same_string k j)) [
  | inl eq ↦ subst IsString (some-injective _ _ (rw eq at e)) is
  | inr ne ↦ h j w (rw ne at e)
]

IsString-length : (v : List ℕ) → IsString v → 0 < length v
IsString-length v (s, eq, ok) = omega (arith, ap length eq, length-append s (0 ∷ []))

module _ (behind : List ℕ → List ℕ) (news : Map) where
  apply_from-Syncing :
      (ps : List Change) (pre bytes : List ℕ) (from : ℕ) {kvs : KvStore} {m : Map}
      → Syncing kvs news m
      → Strings m
      → All (Announced news) ps
      → NoDup ps
      → bytes ≡ pre ++ encoded ps
      → from ≡ length pre
      → (kvs' : KvStore) × (apply_from behind bytes from (ends from ps) kvs ≡ done kvs')
        × Becomes kvs kvs' news (updated_by ps m)
  unfolding apply_from change_at
  apply_from-Syncing [] pre bytes from {kvs} s strings told dup eq at = (kvs, refl, (s, refl))
  apply_from-Syncing ((k, v) ∷ ps) pre bytes from {kvs} {m} s strings ((nz, is, new), told) dup eq
        at =
      let rest = encoded ps in
      let mid = from + (length k + 1) in
      let next = mid + length v in
      let key_range : ltb from mid ≡ true = ground arith in
      let value_range : ltb mid next ≡ true = ground (arith, IsString-length v is) in
      let key : c_string (drop from bytes) ≡ k =
        ap (λ b. c_string (drop from b)) eq ∙ key_read pre k v rest from at nz in
      let value : take (next - mid) (drop mid bytes) ≡ v =
        ap (λ b. take (next - mid) (drop mid b)) eq ∙ value_read pre k v rest from at in
      let (kvs1, o, set, (s1, journal)) = kvs_set-Syncing behind s strings k v is new in
      let (kvs2, later, (s2, journal')) =
        apply_from-Syncing ps (pre ++ encode (k, v)) bytes next s1 (Strings-put k v m is strings)
          told dup.1 (eq ∙ rest_split pre k v rest)
          (omega (arith, length-append pre (encode (k, v)), length-encode (k, v))) in
      (
        kvs2,
        rw (key_range, value_range, key, value, set, later) refl,
        (Syncing-map s2 (λ j. updated_by-put k v ps m j dup), journal' ∙ journal),
      )

  apply_at : Changes → List ℕ → KvStore → Outcome KvStore
  apply_at c off kvs = elim off [
    | [] ↦ done kvs
    | from ∷ off' ↦
        assert ((length c.off % 2) == 1)
        >> assert (ltb 0 (length c.bytes))
        >> apply_from behind c.bytes from off' kvs
  ]

  changes_apply-at :
      (c : Changes) (kvs : KvStore) (off : List ℕ)
      → c.off ≡ off
      → changes_apply behind c kvs ≡ apply_at c off kvs
  unfolding changes_apply apply_at
  changes_apply-at c kvs off e = ap (λ o. apply_at c o kvs) e

  -- Applying a journal of strings, without a key twice, to a store in a synchronization returns, where what was
  -- changed since the last one has the values of the journal already. Afterwards the keys of the
  -- journal have its values, and all other keys have theirs.
  pub changes_apply-Syncing :
      (c : Changes) (ps : List Change) {kvs : KvStore} {m : Map}
      → c.off ≡ offsets ps
      → c.bytes ≡ encoded ps
      → Syncing kvs news m
      → Strings m
      → All (Announced news) ps
      → NoDup ps
      → (kvs' : KvStore) × (changes_apply behind c kvs ≡ done kvs')
        × Becomes kvs kvs' news (updated_by ps m)
  unfolding apply_at change_at
  changes_apply-Syncing c [] {kvs} off bytes s strings told dup =
      (kvs, changes_apply-at c kvs [] off, (s, refl))
  changes_apply-Syncing c (p ∷ ps) {kvs} off bytes s strings told dup =
      let (kvs', returns, becomes) =
        apply_from-Syncing (p ∷ ps) [] c.bytes 0 s strings told dup bytes refl in
      let odd : ((length c.off % 2) == 1) ≡ true =
        ground (arith, ap length off, length-ends 0 (p ∷ ps)) in
      let some_bytes : ltb 0 (length c.bytes) ≡ true =
        ground (arith, ap length bytes, length-append (encode p) (encoded ps), length-encode p) in
      (
        kvs',
        changes_apply-at c kvs (offsets (p ∷ ps)) off ∙ rw (odd, some_bytes, returns) refl,
        becomes,
      )
