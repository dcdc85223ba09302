-- ===== src/Kvs/Encode.antt =====
-- What a change journal holds: a list of keys with values, as bytes and offsets.
use mathlib.Core.List.{append_assoc, append-nil}
use laik.Prelude.{
  All, ◌≢◌, ℕ, ◌+◌, ◌*◌, ◌/◌, ◌≤◌, true, ◌==◌, leb, if◌then◌else◌, List, [], ◌∷◌, ◌++◌, length,
  length-append, done, ◌≡◌, refl, ap, sym, ◌∙◌, arith,
}
use laik.Kvs.{Changes}
use laik.Kvs.Journal.{last_or, append_data}

-- A key with a value.
abbrev pub Change : Type 0
Change = List ℕ × List ℕ

-- The bytes of a C string
abbrev pub NoZero : List ℕ → Type 0
NoZero s = All (λ x. x ≢ 0) s

-- The bytes of one change, and of all.
abbrev pub encode : Change → List ℕ
encode (k, v) = k ++ (0 ∷ v)

abbrev pub encoded : List Change → List ℕ
encoded [] = []
encoded (p ∷ ps) = encode p ++ encoded ps

-- The ends of keys and values, where the first change begins at `from`.
abbrev pub ends : ℕ → List Change → List ℕ
ends from [] = []
ends from ((k, v) ∷ ps) =
    (from + (length k + 1))
    ∷ (from + (length k + 1) + length v)
    ∷ ends (from + (length k + 1) + length v) ps

abbrev pub offsets : List Change → List ℕ
offsets [] = []
offsets (p ∷ ps) = 0 ∷ ends 0 (p ∷ ps)

pub record Holds (c : Changes) (ps : List Change) : Type 0 where
  pub bytes_eq : c.bytes ≡ encoded ps
  pub off_eq : c.off ≡ offsets ps
  pub off_fits : length c.off ≤ c.off_size
  pub bytes_fit : length c.bytes ≤ c.bytes_size
  pub room : c.off_size / 2 ≤ c.entry_size

pub length-encode : (p : Change) → length (encode p) ≡ length p.0 + 1 + length p.1
length-encode (k, v) = omega (arith, length-append k (0 ∷ v))

pub encoded-append : (ps qs : List Change) → encoded (ps ++ qs) ≡ encoded ps ++ encoded qs
encoded-append [] qs = refl
encoded-append (p ∷ ps) qs =
    ap (λ xs. encode p ++ xs) (encoded-append ps qs)
    ∙ sym (append_assoc (encode p) (encoded ps) (encoded qs))

zero_add : (n : ℕ) → n ≡ 0 + n
zero_add n = omega arith

end_of :
    (from : ℕ) (k v bs : List ℕ)
    → from + (length k + 1) + length v + length bs ≡ from + length (encode (k, v) ++ bs)
end_of from k v bs = omega (arith, length-append (encode (k, v)) bs, length-encode (k, v))

ends-append :
    (from : ℕ) (ps qs : List Change)
    → ends from (ps ++ qs) ≡ ends from ps ++ ends (from + length (encoded ps)) qs
ends-append from [] qs = ap (λ n. ends n qs) (omega arith)
ends-append from ((k, v) ∷ ps) qs =
    ap (λ xs. (from + (length k + 1)) ∷ (from + (length k + 1) + length v) ∷ xs)
      (ends-append (from + (length k + 1) + length v) ps qs
        ∙ ap (λ n. ends (from + (length k + 1) + length v) ps ++ ends n qs)
            (end_of from k v (encoded ps)))

last-ends : (from : ℕ) (ps : List Change) → last_or from (ends from ps) ≡ from + length (encoded ps)
unfolding last_or
last-ends from [] = omega arith
last-ends from ((k, v) ∷ ps) = omega (
  arith,
  last-ends (from + (length k + 1) + length v) ps,
  length-append (encode (k, v)) (encoded ps),
  length-encode (k, v),
)

pub length-ends : (from : ℕ) (ps : List Change) → length (ends from ps) ≡ 2 * length ps
length-ends from [] = refl
length-ends from ((k, v) ∷ ps) = omega (arith, length-ends (from + (length k + 1) + length v) ps)

length-offsets : (ps : List Change) → length (offsets ps) ≤ 2 * length ps + 1
length-offsets [] = omega arith
length-offsets (p ∷ ps) = omega (arith, length-ends 0 (p ∷ ps))

-- The offsets with the one of the first entry, which an empty journal does not have yet.
opened :
    (ps : List Change) → (if length (offsets ps) == 0 then 0 ∷ [] else offsets ps) ≡ 0 ∷ ends 0 ps
opened [] = refl
opened (p ∷ ps) = ground arith

offsets-append :
    (ps : List Change) (k v : List ℕ)
    → (0 ∷ ends 0 ps)
        ++ ((length (encoded ps) + (length k + 1))
            ∷ (length (encoded ps) + (length k + 1) + length v)
            ∷ [])
      ≡ offsets (ps ++ ((k, v) ∷ []))
offsets-append [] k v = refl
offsets-append (p ∷ ps) k v =
    ap (λ xs. 0 ∷ xs)
      (ap (λ n. ends 0 (p ∷ ps) ++ ends n ((k, v) ∷ [])) (zero_add (length (encoded (p ∷ ps))))
        ∙ sym (ends-append 0 (p ∷ ps) ((k, v) ∷ [])))

-- The journal with a change behind the others.
abbrev pub with_change : Changes → List Change → Change → Changes
with_change c ps (k, v) = record c {
  off = offsets (ps ++ ((k, v) ∷ []));
  bytes = encoded ps ++ encode (k, v);
}

module _ {c : Changes} {ps : List Change} (held : Holds c ps) (k v : List ℕ)
    (off_free : 2 * length ps + 3 ≤ c.off_size)
    (bytes_free : length (encoded ps) + length (encode (k, v)) ≤ c.bytes_size) where
  last_free : (last_or 0 (0 ∷ ends 0 ps) == length (encoded ps)) ≡ true
  unfolding last_or
  last_free = ground (arith, last-ends 0 ps)

  pub append_data-with_change : append_data c k v ≡ done (with_change c ps (k, v))
  unfolding append_data
  append_data-with_change =
      let first : (if length c.off == 0 then 0 ∷ [] else c.off) ≡ 0 ∷ ends 0 ps =
        ap (λ o. if length o == 0 then 0 ∷ [] else o) held.off_eq ∙ opened ps in
      let fits : leb (length (0 ∷ ends 0 ps) + 2) c.off_size ≡ true =
        ground (arith, length-ends 0 ps) in
      let bytes : leb (length (encoded ps) + (length k + 1) + length v) c.bytes_size ≡ true =
        ground (arith, length-encode (k, v)) in
      rw (first, held.bytes_eq, fits, bytes, last_free, offsets-append ps k v) refl

  pub with_change-Holds : Holds (with_change c ps (k, v)) (ps ++ ((k, v) ∷ []))
  with_change-Holds = record {
    bytes_eq =
        ap (λ xs. encoded ps ++ xs) (sym (append-nil (encode (k, v))))
        ∙ sym (encoded-append ps ((k, v) ∷ []));
    off_eq = refl;
    off_fits = omega (arith, length-offsets (ps ++ ((k, v) ∷ [])), length-append ps ((k, v) ∷ []));
    bytes_fit = omega (arith, length-append (encoded ps) (encode (k, v)));
    room = held.room;
  }
