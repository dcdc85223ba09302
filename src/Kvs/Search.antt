-- ===== src/Kvs/Search.antt =====
-- `laik_kvs_entry`: the binary and the linear search.
use mathlib.Core.Option.{some-injective}
use laik.Prelude.{
  ltb→lt, get_elem?-some, ℕ, zero, suc, ◌+◌, ◌-◌, ◌/◌, ◌≤◌, ◌<◌, Bool, true, false, List, length,
  get_elem?, countp, Option, none, some, ◌≡◌, ◌≢◌, refl, ap, sym, ◌∙◌, subst, arith, ltb,
}
use laik.Prelude.Int.{pos, ltb_ℤ, eq_ℤ, ◌≤ℤ◌, ◌<ℤ◌}
use laik.Kvs.{Entry, strcmp}
use laik.Kvs.Store.{search_sorted}
use laik.Kvs.Order.{strcmp_refl, strcmp_eq, strcmp_flip}

abbrev pub key_of : Option Entry → Option (List ℕ)
key_of none = none
key_of (some e) = some e.key

-- The first `n` entries are in the order of their keys.
abbrev pub SortedUpto : ℕ → List Entry → Type 0
SortedUpto n es =
    (i j : ℕ) (a b : List ℕ)
    → i < j
    → j < n
    → key_of (get_elem? es i) ≡ some a
    → key_of (get_elem? es j) ≡ some b
    → strcmp a b ≤ℤ pos 0

abbrev pub same_key : List ℕ → Entry → Bool
same_key k e = eq_ℤ (strcmp e.key k) (pos 0)

-- No key stands twice.
abbrev pub Distinct : List Entry → Type 0
Distinct es = (k : List ℕ) → countp (same_key k) es ≤ 1

-- What an answer of the search in `[low, stop)` says of the index `i`.
abbrev pub Explains : List Entry → List ℕ → ℕ → ℕ → ℕ → Option ℕ → Type 0
Explains es key low stop i (some j) = key_of (get_elem? es j) ≡ some key
Explains es key low stop i none = low ≤ i → i < stop → key_of (get_elem? es i) ≢ some key

module _ (es : List Entry) (key : List ℕ) (n : ℕ) (sorted : SortedUpto n es) (i mid : ℕ) {e : Entry}
    (at : get_elem? es mid ≡ some e) where
  mid-ne : strcmp key e.key ≢ pos 0 → key_of (get_elem? es i) ≡ some key → i ≢ mid
  mid-ne h found eq =
      let same : e.key ≡ key =
        some-injective _ _
          (ap key_of (sym at) ∙ subst (λ j. key_of (get_elem? es j) ≡ some key) eq found) in
      h (ap (strcmp key) same ∙ strcmp_refl key)

  search-below : strcmp key e.key <ℤ pos 0 → mid ≤ i → i < n → key_of (get_elem? es i) ≢ some key
  search-below less h k found =
      let ne = mid-ne (λ eq. ground arith) found in
      let le = sorted mid i e.key key (omega arith) k (ap key_of at) found in
      ground (arith, strcmp_flip key e.key)

  search-above : pos 0 <ℤ strcmp key e.key → i ≤ mid → mid < n → key_of (get_elem? es i) ≢ some key
  search-above more h k found =
      let ne = mid-ne (λ eq. ground arith) found in
      let le = sorted i mid key e.key (omega arith) k found (ap key_of at) in
      ground (arith, strcmp_flip key e.key)

module _ (es : List Entry) (key : List ℕ) where
  -- what follows the two tests on the key in the middle
  abbrev turn : ℕ → ℕ → ℕ → ℕ → Bool → Bool → Option ℕ
  turn n low stop mid true less = some mid
  turn n low stop mid false true = search_sorted n es key low mid
  turn n low stop mid false false = search_sorted n es key (mid + 1) stop

  abbrev probe : ℕ → ℕ → ℕ → ℕ → Option Entry → Option ℕ
  probe n low stop mid none = none
  probe n low stop mid (some e) =
      turn n low stop mid (eq_ℤ (strcmp key e.key) (pos 0)) (ltb_ℤ (strcmp key e.key) (pos 0))

  abbrev round : ℕ → ℕ → ℕ → Bool → Option ℕ
  round n low stop false = none
  round n low stop true =
      let mid = (low + (stop - 1)) / 2 in probe n low stop mid (get_elem? es mid)

  search_sorted-round :
      (n low stop : ℕ) → search_sorted (suc n) es key low stop ≡ round n low stop (ltb low stop)
  unfolding search_sorted
  search_sorted-round n low stop = ground arith

module _ (es : List Entry) (key : List ℕ) (bound : ℕ) (sorted : SortedUpto bound es) (i : ℕ) where
  module _ (n low stop : ℕ) (h : stop - low < suc n) (k : stop ≤ bound) where
    turn-Explains :
        (mid : ℕ) (e : Entry) (same less : Bool)
        → low ≤ mid
        → mid < stop
        → get_elem? es mid ≡ some e
        → eq_ℤ (strcmp key e.key) (pos 0) ≡ same
        → ltb_ℤ (strcmp key e.key) (pos 0) ≡ less
        → ((l r : ℕ) → r ≤ stop → r - l < n → Explains es key l r i (search_sorted n es key l r))
        → Explains es key low stop i (turn es key n low stop mid same less)
    turn-Explains mid e true less lo hi at d c rec =
        ap key_of at ∙ ap some (sym (strcmp_eq key e.key d))
    turn-Explains mid e false true lo hi at d c rec =
        elim (search_sorted n es key low mid)
            as (λ r. Explains es key low mid i r → Explains es key low stop i r) [
              | some j ↦ λ found. found
              | none ↦ λ missed a b found.
                  ground (arith, missed, search-below es key bound sorted i mid at)
            ]
          (rec low mid (omega arith) (omega arith))
    turn-Explains mid e false false lo hi at d c rec =
        elim (search_sorted n es key (mid + 1) stop)
            as (λ r. Explains es key (mid + 1) stop i r → Explains es key low stop i r) [
              | some j ↦ λ found. found
              | none ↦ λ missed a b found.
                  ground (arith, missed, search-above es key bound sorted i mid at)
            ]
          (rec (mid + 1) stop (omega arith) (omega arith))

  -- `n` rounds are enough for less than `n` entries.
  pub search_sorted-Explains :
      (n low stop : ℕ)
      → stop - low < n
      → stop ≤ bound
      → bound ≤ length es
      → Explains es key low stop i (search_sorted n es key low stop)
  search_sorted-Explains zero low stop h k l = absurd (omega arith)
  search_sorted-Explains (suc n) low stop h k l =
      let mid = (low + (stop - 1)) / 2 in
      subst (Explains es key low stop i) (sym (search_sorted-round es key n low stop)) (
        elim (ltb low stop)
            as (λ b. ltb low stop ≡ b → Explains es key low stop i (round es key n low stop b)) [
              | false ↦ λ e a b found. ground arith
              | true ↦ λ e.
                  let lt : low < stop = ltb→lt low stop e in
                  let (x, at) = get_elem?-some es mid (omega arith) in
                  subst (λ o. Explains es key low stop i (probe es key n low stop mid o)) (sym at)
                    (turn-Explains n low stop h k mid x _ _ (omega arith) (omega arith) at refl refl
                      (λ l' r a b. search_sorted-Explains n l' r b (omega arith) l))
            ]
          refl)
