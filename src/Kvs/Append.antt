-- ===== src/Kvs/Append.antt =====
-- `laik_kvs_changes_add` within a merge: a change goes behind the others, into bytes and entries.
use mathlib.Core.List.{append_assoc, append-nil}
use laik.Prelude.{
  ℕ, suc, ◌+◌, ◌*◌, ◌≤◌, ◌<◌, true, ltb, List, [], ◌∷◌, ◌++◌, length, length-append, length-map,
  map, done, ◌≡◌, refl, ap, sym, ◌∙◌, subst, arith,
}
use laik.Prelude.Int.{pos, ltb_ℤ}
use laik.Kvs.{Entry, Changes, strcmp}
use laik.Kvs.Journal.{
  last_or, sorts_after, append_entry, changes_add, add_entry, add_entries, bytes_of,
}
use laik.Kvs.Encode.{
  Change, encode, encoded, Holds, encoded-append, with_change, append_data-with_change,
  with_change-Holds,
}
use laik.Kvs.Decode.{entry_of}

-- The journal holds the changes `zs`, with an entry for each, and has room for `n` more changes of
-- together `b` bytes.
pub record Filled (c : Changes) (zs : List Change) (n b : ℕ) : Type 0 where
  pub held : Holds c zs
  pub listed : c.entries ≡ map entry_of zs
  pub off_free : 0 < n → 2 * (length zs + n) + 1 ≤ c.off_size
  pub bytes_free : length (encoded zs) + b ≤ c.bytes_size
  pub entry_free : length zs + n ≤ c.entry_size

-- Less room
pub Filled-less :
    {c : Changes} {zs : List Change} {n b n' b' : ℕ}
    → Filled c zs n b
    → n' ≤ n
    → b' ≤ b
    → Filled c zs n' b'
Filled-less f h k = record {
  held = f.held;
  listed = f.listed;
  off_free = λ some_left. omega (arith, f.off_free (omega arith));
  bytes_free = omega (arith, f.bytes_free);
  entry_free = omega (arith, f.entry_free);
}

map-append :
    (zs : List Change) (p : Change)
    → map entry_of zs ++ (entry_of p ∷ []) ≡ map entry_of (zs ++ (p ∷ []))
map-append [] p = refl
map-append (z ∷ zs) p = ap (λ es. entry_of z ∷ es) (map-append zs p)

length-encoded-append :
    (zs : List Change) (p : Change)
    → length (encoded (zs ++ (p ∷ []))) ≡ length (encoded zs) + length (encode p)
length-encoded-append zs p =
    ap length (encoded-append zs (p ∷ []))
    ∙ omega (arith, length-append (encoded zs) (encode p ++ []), length-append (encode p) [])

pub add_entry-Filled :
    {c : Changes} {zs : List Change} {n b : ℕ} (p : Change)
    → Filled c zs (suc n) (length (encode p) + b)
    → sorts_after (map entry_of zs) p.0 ≡ true
    → (c' : Changes) × (add_entry c (entry_of p) ≡ done c') × Filled c' (zs ++ (p ∷ [])) n b
unfolding add_entry changes_add append_entry bytes_of
add_entry-Filled {c} {zs} {n} {b} p f after =
    let (k, v) = p in
    let off_free : 2 * length zs + 3 ≤ c.off_size = omega (arith, f.off_free (omega arith)) in
    let bytes_free : length (encoded zs) + length (encode p) ≤ c.bytes_size =
      omega (arith, f.bytes_free) in
    let written = append_data-with_change f.held k v off_free bytes_free in
    let held = with_change-Holds f.held k v off_free bytes_free in
    let space : ltb (length (map entry_of zs)) c.entry_size ≡ true =
      ground (arith, f.entry_free, length-map entry_of zs) in
    (
      record (with_change c zs p) { entries = map entry_of zs ++ (entry_of p ∷ []) },
      rw (written, f.listed, after, space) refl,
      record {
        held = record {
          bytes_eq = held.bytes_eq;
          off_eq = held.off_eq;
          off_fits = held.off_fits;
          bytes_fit = held.bytes_fit;
          room = held.room;
        };
        listed = map-append zs p;
        off_free = λ some_left. omega (arith, f.off_free (omega arith), length-append zs (p ∷ []));
        bytes_free = omega (arith, f.bytes_free, length-encoded-append zs p);
        entry_free = omega (arith, f.entry_free, length-append zs (p ∷ []));
      },
    )

-- The last entry is the one that was added last.
pub sorts_after-append :
    (zs : List Change) (p : Change) (k : List ℕ)
    → sorts_after (map entry_of (zs ++ (p ∷ []))) k ≡ ltb_ℤ (strcmp p.0 k) (pos 0)
unfolding sorts_after last_or
sorts_after-append [] p k = refl
sorts_after-append (z ∷ zs) p k =
    ap (λ e. ltb_ℤ (strcmp e.key k) (pos 0)) (last-append (entry_of z) zs)
  where
    last-append :
        (e : Entry) (zs : List Change) → last_or e (map entry_of (zs ++ (p ∷ []))) ≡ entry_of p
    last-append e [] = refl
    last-append e (y ∷ ys) = last-append (entry_of y) ys

-- Keys in strictly ascending order, and the first key behind the entries of a journal.
abbrev pub Head : Change → List Change → Type 0
Head p [] = Unit
Head p (r ∷ rs) = ltb_ℤ (strcmp p.0 r.0) (pos 0) ≡ true

abbrev pub Ascending : List Change → Type 0
Ascending [] = Unit
Ascending (p ∷ ps) = Head p ps × Ascending ps

abbrev pub After : List Change → List Change → Type 0
After zs [] = Unit
After zs (p ∷ ps) = sorts_after (map entry_of zs) p.0 ≡ true

pub After-Head :
    (zs : List Change) (p : Change) (ps : List Change) → Head p ps → After (zs ++ (p ∷ [])) ps
After-Head zs p [] h = tt
After-Head zs p (r ∷ rs) h = sorts_after-append zs p r.0 ∙ h

pub add_entries-Filled :
    (ps : List Change) {c : Changes} {zs : List Change}
    → Filled c zs (length ps) (length (encoded ps))
    → Ascending ps
    → After zs ps
    → (c' : Changes) × (add_entries c (map entry_of ps) ≡ done c') × Filled c' (zs ++ ps) 0 0
unfolding add_entries
add_entries-Filled [] {c} {zs} f asc after =
    (c, refl, subst (λ xs. Filled c xs 0 0) (sym (append-nil zs)) f)
add_entries-Filled (p ∷ ps) {c} {zs} f asc after =
    let (next, added, f') =
      add_entry-Filled p
        (Filled-less f (omega arith) (omega (arith, length-append (encode p) (encoded ps))))
        after in
    let (c', returns, f'') = add_entries-Filled ps f' asc.1 (After-Head zs p ps asc.0) in
    (c', rw (added, returns) refl, subst (λ xs. Filled c' xs 0 0) (append_assoc zs (p ∷ []) ps) f'')
