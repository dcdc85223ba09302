-- ===== src/Kvs/Decode.antt =====
-- `laik_kvs_changes_sort`: what it reads from the bytes and offsets of a journal.
use mathlib.Core.List.{append_assoc}
use laik.Prelude.{
  ℕ, zero, suc, ◌+◌, ◌-◌, ◌≤◌, ◌<◌, true, false, ◌==◌, ltb, leb, some, List, [], ◌∷◌, ◌++◌, length,
  length-append, take, drop, get_or, map, All, done, ◌≡◌, refl, ap, sym, ◌∙◌, arith,
}
use laik.Kvs.{Entry}
use laik.Kvs.Journal.{c_string, fill_entries}
use laik.Kvs.Encode.{NoZero, Change, encode, encoded, ends, length-encode}

drop-append : (xs ys : List ℕ) (n : ℕ) → n ≡ length xs → drop n (xs ++ ys) ≡ ys
drop-append [] ys n h = ap (λ i. drop i ys) h
drop-append (x ∷ xs) ys zero h = absurd (omega arith)
drop-append (x ∷ xs) ys (suc n) h = drop-append xs ys n (omega arith)

take-append : (xs ys : List ℕ) (n : ℕ) → n ≡ length xs → take n (xs ++ ys) ≡ xs
take-append [] ys n h = ap (λ i. take i ys) h
take-append (x ∷ xs) ys zero h = absurd (omega arith)
take-append (x ∷ xs) ys (suc n) h = ap (λ zs. x ∷ zs) (take-append xs ys n (omega arith))

get_or-append : (xs ys : List ℕ) (y d n : ℕ) → n ≡ length xs → get_or (xs ++ (y ∷ ys)) n d ≡ y
get_or-append [] ys y d zero h = refl
get_or-append [] ys y d (suc n) h = absurd (omega arith)
get_or-append (x ∷ xs) ys y d zero h = absurd (omega arith)
get_or-append (x ∷ xs) ys y d (suc n) h = get_or-append xs ys y d n (omega arith)

c_string-append : (k r : List ℕ) → NoZero k → c_string (k ++ (0 ∷ r)) ≡ k
unfolding c_string
c_string-append [] r h = refl
c_string-append (x ∷ k) r h = ground (arith, c_string-append k r h.1, h.0)

-- Keys are strings and values are not empty.
abbrev pub ProperChange : Change → Type 0
ProperChange (k, v) = NoZero k × (0 < length v)

abbrev pub entry_of : Change → Entry
entry_of (k, v) = record { key = k; value = some v; updated = false }

cancel : (a b : ℕ) → a + b - a ≡ b
cancel a b = omega arith

module _ (pre k v rest : List ℕ) where
  abbrev pub block : List ℕ
  block = pre ++ (encode (k, v) ++ rest)

  key_split : block ≡ pre ++ (k ++ (0 ∷ (v ++ rest)))
  key_split = ap (λ xs. pre ++ xs) (append_assoc k (0 ∷ v) rest)

  value_split : block ≡ ((pre ++ k) ++ (0 ∷ [])) ++ (v ++ rest)
  value_split =
      key_split
      ∙ sym (append_assoc pre k (0 ∷ (v ++ rest)))
      ∙ sym (append_assoc (pre ++ k) (0 ∷ []) (v ++ rest))

  pub rest_split : block ≡ (pre ++ encode (k, v)) ++ rest
  rest_split = sym (append_assoc pre (encode (k, v)) rest)

  module _ (from : ℕ) (at : from ≡ length pre) where
    pub key_read : NoZero k → c_string (drop from block) ≡ k
    key_read h =
        ap (λ xs. c_string (drop from xs)) key_split
        ∙ ap c_string (drop-append pre (k ++ (0 ∷ (v ++ rest))) from at)
        ∙ c_string-append k (v ++ rest) h

    zero_read : get_or block (from + (length k + 1) - 1) 1 ≡ 0
    zero_read =
        ap (λ xs. get_or xs (from + (length k + 1) - 1) 1)
          (key_split ∙ sym (append_assoc pre k (0 ∷ (v ++ rest))))
        ∙ get_or-append (pre ++ k) (v ++ rest) 0 1 _ (omega (arith, length-append pre k))

    pub value_read :
        take
          (from + (length k + 1) + length v - (from + (length k + 1)))
          (drop (from + (length k + 1)) block)
        ≡ v
    value_read =
        ap (λ n. take n (drop (from + (length k + 1)) block))
          (cancel (from + (length k + 1)) (length v))
        ∙ ap (λ xs. take (length v) (drop (from + (length k + 1)) xs)) value_split
        ∙ ap (take (length v)) (
            drop-append ((pre ++ k) ++ (0 ∷ [])) (v ++ rest) (from + (length k + 1))
              (omega (arith, length-append pre k, length-append (pre ++ k) (0 ∷ []))))
        ∙ take-append v rest (length v) refl

-- The loop of `laik_kvs_changes_sort` reads what the journal holds.
pub fill_entries-ends :
    (ps : List Change) (pre bytes : List ℕ) (room from : ℕ)
    → bytes ≡ pre ++ encoded ps
    → from ≡ length pre
    → length ps ≤ room
    → All ProperChange ps
    → fill_entries bytes room from (ends from ps) ≡ done (map entry_of ps)
unfolding fill_entries
fill_entries-ends [] pre bytes room from eq at fits proper = refl
fill_entries-ends ((k, v) ∷ ps) pre bytes room from eq at fits ((nz, some_value), proper) =
    let rest = encoded ps in
    let mid = from + (length k + 1) in
    let next = mid + length v in
    let has_room : ltb 0 room ≡ true = ground arith in
    let key_range : ltb from mid ≡ true = ground arith in
    let value_range : ltb mid next ≡ true = ground arith in
    let inside : leb next (length bytes) ≡ true = ground (
      arith,
      ap length eq,
      length-append pre (encode (k, v) ++ rest),
      length-append (encode (k, v)) rest,
      length-encode (k, v),
    ) in
    let closed : (get_or bytes (mid - 1) 1 == 0) ≡ true =
      ground (arith, ap (λ b. get_or b (mid - 1) 1) eq, zero_read pre k v rest from at) in
    let key : c_string (drop from bytes) ≡ k =
      ap (λ b. c_string (drop from b)) eq ∙ key_read pre k v rest from at nz in
    let value : take (next - mid) (drop mid bytes) ≡ v =
      ap (λ b. take (next - mid) (drop mid b)) eq ∙ value_read pre k v rest from at in
    let later : fill_entries bytes (room - 1) next (ends next ps) ≡ done (map entry_of ps) =
      fill_entries-ends ps (pre ++ encode (k, v)) bytes (room - 1) next
        (eq ∙ rest_split pre k v rest)
        (omega (arith, length-append pre (encode (k, v)), length-encode (k, v))) (omega arith)
        proper in
    rw (has_room, key_range, value_range, inside, closed, key, value, later) refl
