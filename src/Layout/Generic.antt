-- ===== src/Layout/Generic.antt =====
-- The generic copy, pack and unpack of src/layout.c, for any layout's offset function, and their use
-- by `laik_init_layout` in place of functions that a layout does not have. Memory from
-- the start of a mapping on maps the number of an element to the element; an element is `elemsize`
-- bytes that are only copied. A buffer is its list of elements, its size is in bytes.
use laik.Prelude.{
  Bool, Option, none, some, inl, inr, ◌⊎◌, ◌≡◌, refl, ℕ, zero, suc, ◌+◌, ◌-◌, true, false, not,
  List, [], ◌∷◌, ltb, ◌==◌, if◌then◌else◌, Outcome, done, aborted, ◌>>=◌, ◌>>◌, assert,
}
use laik.Space.{Range, Index, index_is_equal, range_within_range, range_size}
use laik.Layout.Walk.{next_lex, total}

-- What is read of a `Laik_Mapping`, its layout's offset function at its section included.
pub record Mapping (A : Type 0) : Type 0 where
  pub offset : Index → Outcome ℕ
  pub required : Range
  pub dims : ℕ
  pub elemsize : ℕ
  pub mem : ℕ → A

abbrev pub write : {A : Type 0} → (ℕ → A) → ℕ → A → ℕ → A
write mem n x k = if k == n then x else mem k

module _ {A : Type 0} where
  -- The loop of `laik_layout_copy_gen`, with fuel: the memory and how many elements were copied.
  unfoldable pub copy_elements :
      ℕ → ℕ → Range → Mapping A → (Index → Outcome ℕ) → Index → (ℕ → A) → ℕ → Outcome ((ℕ → A) × ℕ)
  copy_elements zero dims range from to_offset idx mem count = aborted
  copy_elements (suc n) dims range from to_offset idx mem count = do
    from_off ← from.offset idx
    to_off ← to_offset idx
    let mem' = write mem to_off (from.mem from_off)
    let next = next_lex dims range idx
    elim next.0 [
      | true ↦ copy_elements n dims range from to_offset next.1 mem' (count + 1)
      | false ↦ done (mem', count + 1)
    ]

  -- `laik_layout_copy_gen`: the memory of `to` afterwards; `dims` is that of the range's space.
  unfoldable pub copy_gen : ℕ → Range → Mapping A → Mapping A → Outcome (ℕ → A)
  copy_gen dims range from to = do
    assert (from.elemsize == to.elemsize)
    r ← copy_elements (total dims range + 1) dims range from to.offset range.from to.mem 0
    size ← range_size range
    assert (r.1 == size)
    done r.0

  -- The loop of `laik_layout_pack_gen`, with fuel: the packed elements and the next index.
  unfoldable pub pack_loop : ℕ → ℕ → Range → Mapping A → Index → ℕ → Outcome (List A × Index)
  pack_loop zero dims range m idx size = aborted
  pack_loop (suc n) dims range m idx size = elim (ltb size m.elemsize) [
    | true ↦ done ([], idx)
    | false ↦ do
      off ← m.offset idx
      let next = next_lex dims range idx
      elim next.0 [
        | true ↦ pack_loop n dims range m next.1 (size - m.elemsize) >>= λ more.
            done (m.mem off ∷ more.0, more.1)
        | false ↦ done (m.mem off ∷ [], range.to)
      ]
  ]

  -- `laik_layout_pack_gen`: the buffer's contents and the index where packing goes on. The number
  -- of packed elements is that of the buffer.
  unfoldable pub pack_gen : ℕ → Mapping A → Range → Index → ℕ → Outcome (List A × Index)
  pack_gen dims m range idx size =
      if index_is_equal m.dims idx range.to then done ([], idx) else (do
        inside ← range_within_range range m.required
        assert inside
        pack_loop (size + 1) dims range m idx size)

  -- The loop of `laik_layout_unpack_gen`, with fuel: the memory, the count and the next index.
  unfoldable pub unpack_loop :
      ℕ
      → ℕ
      → Range
      → (Index → Outcome ℕ)
      → ℕ
      → (ℕ → A)
      → Index
      → List A
      → ℕ
      → ℕ
      → Outcome ((ℕ → A) × ℕ × Index)
  unpack_loop zero dims range offset elemsize mem idx buf size count = aborted
  unpack_loop (suc n) dims range offset elemsize mem idx buf size count = elim (ltb size elemsize) [
    | true ↦ done (mem, count, idx)
    | false ↦ do
      off ← offset idx
      elim buf [
        | [] ↦ aborted
        | x ∷ xs ↦
            let mem' = write mem off x in
            let next = next_lex dims range idx in
            elim next.0 [
              | true ↦
                  unpack_loop n dims range offset elemsize mem' next.1 xs (size - elemsize)
                    (count + 1)
              | false ↦ done (mem', count + 1, range.to)
            ]
      ]
  ]

  -- `laik_layout_unpack_gen`: the memory afterwards, how many elements were unpacked, and the index
  -- where unpacking goes on.
  unfoldable pub unpack_gen :
      ℕ → Mapping A → Range → Index → List A → ℕ → Outcome ((ℕ → A) × ℕ × Index)
  unpack_gen dims m range idx buf size = do
    assert (ltb 0 size)
    assert (not (index_is_equal m.dims idx range.to))
    inside ← range_within_range range m.required
    assert inside
    unpack_loop (size + 1) dims range m.offset m.elemsize m.mem idx buf size 0

-- the types of `laik_layout_pack_t` and `laik_layout_unpack_t`
abbrev pub Pack : Type 0 → Type 0
Pack A = ℕ → Mapping A → Range → Index → ℕ → Outcome (List A × Index)

abbrev pub Unpack : Type 0 → Type 0
Unpack A = ℕ → Mapping A → Range → Index → List A → ℕ → Outcome ((ℕ → A) × ℕ × Index)

-- The function pointers of a `Laik_Layout` for packing and unpacking.
pub record LayoutFunctions (A : Type 0) : Type 0 where
  pub pack : Pack A
  pub unpack : Unpack A

-- What `laik_init_layout` makes of the pointers it is given, null or not, where `generic` says
-- whether the environment has LAIK_LAYOUT_GENERIC.
unfoldable pub init_layout :
    {A : Type 0} → Bool → Option (Pack A) → Option (Unpack A) → LayoutFunctions A
init_layout generic pack unpack = record {
  pack = if generic then pack_gen else elim pack [ none ↦ pack_gen | some f ↦ f ];
  unpack = if generic then unpack_gen else elim unpack [ none ↦ unpack_gen | some f ↦ f ];
}

pub init_layout-pack :
    {A : Type 0} (generic : Bool) (pack : Option (Pack A)) (unpack : Option (Unpack A))
    → (generic ≡ true) ⊎ (pack ≡ none)
    → (init_layout generic pack unpack).pack ≡ pack_gen
unfolding init_layout
init_layout-pack generic pack unpack (inl e) = rw e refl
init_layout-pack true pack unpack (inr e) = refl
init_layout-pack false pack unpack (inr e) = rw e refl

pub init_layout-unpack :
    {A : Type 0} (generic : Bool) (pack : Option (Pack A)) (unpack : Option (Unpack A))
    → (generic ≡ true) ⊎ (unpack ≡ none)
    → (init_layout generic pack unpack).unpack ≡ unpack_gen
unfolding init_layout
init_layout-unpack generic pack unpack (inl e) = rw e refl
init_layout-unpack true pack unpack (inr e) = refl
init_layout-unpack false pack unpack (inr e) = rw e refl
