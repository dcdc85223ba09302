-- ===== src/Kvs.antt =====
-- The key-value store of src/kvs.c, with the structures of include/laik/core-internal.h. A string is
-- the list of its bytes without the zero at the end, a block of memory the list of its bytes. The
-- functions `strcmp`, `memcmp` and `strncmp` of the C library answer as documented.
pub mod Journal
pub mod Store
pub mod Order
pub mod Search
pub mod Lookup
pub mod Encode
pub mod Add
pub mod Map
pub mod Invariant
pub mod Updates
pub mod Passes
pub mod Refine
pub mod Decode
pub mod Roundtrip
pub mod Append
pub mod Union
pub mod Merge
pub mod Apply
pub mod Carry
pub mod Ending
pub mod Tests
use laik.Prelude.{
  ℕ, zero, suc, Bool, true, false, ◌&&◌, ◌||◌, ◌==◌, ltb, if◌then◌else◌, Option, none, some, List,
  [], ◌∷◌, length,
}
use laik.Prelude.Int.{ℤ, pos, negsuc}

-- `Laik_KVS_Entry` without the user data; the value is `none` where the pointer is null.
pub record Entry : Type 0 where
  pub key : List ℕ
  pub value : Option (List ℕ)
  pub updated : Bool

-- `Laik_KVS_Changes`: the used parts of the three arrays, and the sizes they are allocated with.
pub record Changes : Type 0 where
  pub off_size : ℕ
  pub off : List ℕ
  pub bytes_size : ℕ
  pub bytes : List ℕ
  pub entry_size : ℕ
  pub entries : List Entry

-- `Laik_KVStore` without the instance, the name and the callbacks.
pub record KvStore : Type 0 where
  pub entries : List Entry
  pub size : ℕ
  pub sorted_upto : ℕ
  pub changes : Changes
  pub in_sync : Bool

-- the field `vlen` of an entry
abbrev pub vlen : Option (List ℕ) → ℕ
vlen none = 0
vlen (some bytes) = length bytes

-- `strcmp`: less is negative, greater is positive.
unfoldable pub strcmp : List ℕ → List ℕ → ℤ
strcmp [] [] = pos 0
strcmp [] (y ∷ ys) = negsuc 0
strcmp (x ∷ xs) [] = pos 1
strcmp (x ∷ xs) (y ∷ ys) = if x == y then strcmp xs ys else if ltb x y then negsuc 0 else pos 1

-- `memcmp(xs, ys, n) == 0`, where both blocks are as long as the comparison reads
unfoldable pub memcmp_eq : ℕ → List ℕ → List ℕ → Bool
memcmp_eq zero xs ys = true
memcmp_eq (suc n) (x ∷ xs) (y ∷ ys) = x == y && memcmp_eq n xs ys
memcmp_eq (suc n) (x ∷ xs) [] = false
memcmp_eq (suc n) [] ys = false

-- `strncmp(xs, ys, n) == 0`: it stops behind a zero
unfoldable pub strncmp_eq : ℕ → List ℕ → List ℕ → Bool
strncmp_eq zero xs ys = true
strncmp_eq (suc n) (x ∷ xs) (y ∷ ys) = x == y && (x == 0 || strncmp_eq n xs ys)
strncmp_eq (suc n) (x ∷ xs) [] = false
strncmp_eq (suc n) [] ys = false
