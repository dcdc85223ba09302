-- ===== src/RangeList/Queries.antt =====
-- The queries on a frozen range list of src/rangelist.c, and its lazily computed offsets of the
-- mappings of one task.
pub mod Slots
pub mod Tests
use laik.Prelude.Int.{pos_part, eq_ℤ, ◌+ℤ◌, sub_ℕ, ltb_ℤ, leb_ℤ, pos, ℤ}
use laik.Prelude.{
  drop, take, ◌+◌, ◌&&◌, zero, ltb, ◌||◌, suc, some, assert, ◌∷◌, ◌>>◌, ◌==◌, ◌-◌, true, not, false,
  aborted, ◌>>=◌, none, length, if◌then◌else◌, get_elem?, done, [], Option, Bool, ℕ, Outcome, List,
}
use laik.Space.{Range, eq_ref, range_is_equal}
use laik.RangeList.{TaskRange, RangeList}

abbrev nth {ℓ} : {A : Type ℓ} → List A → ℕ → Outcome A
nth xs i = elim (get_elem? xs i) [ none ↦ aborted | some x ↦ done x ]

-- The offset array, where it is needed; a missing one fails the assert.
abbrev frozen : RangeList → Outcome (List ℕ)
frozen list = elim list.off [ none ↦ aborted | some offs ↦ done offs ]

-- the offsets of the first range of `tid`, and of that behind the last one
pub slot : RangeList → ℕ → Outcome (ℕ × ℕ)
slot list tid = do
  offs ← frozen list
  assert (ltb tid list.tid_count)
  a ← nth offs tid
  b ← nth offs (suc tid)
  done (a, b)

-- `laik_rangelist_rangecount`
abbrev pub range_count : RangeList → ℤ
range_count list = pos (length list.trange)

-- `laik_rangelist_tidrangecount`
pub tid_range_count : RangeList → ℕ → Outcome ℤ
unfolding slot
tid_range_count list tid = do s ← slot list tid; done (sub_ℕ s.1 s.0)

-- `laik_rangelist_tidmapcount`
pub tid_map_count : RangeList → ℕ → Outcome ℤ
unfolding slot
tid_map_count list tid = do
  s ← slot list tid
  (if s.1 == s.0
      then done (pos 0)
      else (do t ← nth list.trange (s.1 - 1); done (t.map_no +ℤ pos 1)))

-- `laik_rangelist_taskrange`: the number in the handle, or the null pointer.
unfoldable pub task_range : RangeList → ℤ → Option ℤ
task_range list n = if leb_ℤ (pos (length list.trange)) n then none else some n

-- `laik_rangelist_tidrange`
pub tid_range : RangeList → ℕ → ℤ → Outcome (Option ℤ)
unfolding slot
tid_range list tid n = do
  s ← slot list tid
  (if ltb_ℤ n (pos 0) || leb_ℤ (sub_ℕ s.1 s.0) n then done none else (do
    t ← nth list.trange (s.0 + pos_part n)
    assert (t.task == tid)
    done (task_range list (pos (s.0 + pos_part n)))))

abbrev same_offsets : ℕ → List ℕ → List ℕ → Outcome Bool
same_offsets zero xs ys = done true
same_offsets (suc n) [] ys = aborted
same_offsets (suc n) (x ∷ xs) [] = aborted
same_offsets (suc n) (x ∷ xs) (y ∷ ys) =
    let more = same_offsets n xs ys in if not (x == y) then done false else more

-- the loop over the ranges, for two lists of one length
same_ranges : List TaskRange → List TaskRange → Outcome Bool
same_ranges [] us = done true
same_ranges (t ∷ ts) [] = aborted
same_ranges (t ∷ ts) (u ∷ us) =
    let more = same_ranges ts us in
    assert (t.task == u.task) >> (if not (range_is_equal t.range u.range) then done false else more)

-- `laik_rangelist_isEqual`
pub is_equal : RangeList → RangeList → Outcome Bool
unfolding same_ranges
is_equal r1 r2 = do
  off1 ← frozen r1
  off2 ← frozen r2
  (if not (r1.tid_count == r2.tid_count)
      then done false
      else if not (eq_ref r1.space.ref r2.space.ref)
      then done false
      else if not (length r1.trange == length r2.trange)
      then done false
      else (do
        same ← same_offsets r1.tid_count off1 off2
        if not same then done false else same_ranges r1.trange r2.trange))

-- The ranges of mapping `map_no` at the head of `ts`: how many, and what follows.
skip_map : ℤ → List TaskRange → Outcome (ℕ × List TaskRange)
skip_map map_no [] = done (0, [])
skip_map map_no (t ∷ ts) =
    let more = skip_map map_no ts in
    if ltb_ℤ map_no t.map_no
    then done (0, t ∷ ts)
    else assert (eq_ℤ t.map_no map_no) >> more >>= λ r. done (suc r.0, r.1)

-- the loop over the mappings: `n` are left, `map_no` is the next
map_offsets : ℕ → ℤ → ℕ → List TaskRange → Outcome (List ℕ)
unfolding skip_map
map_offsets zero map_no off ts = elim ts [ [] ↦ done (off ∷ []) | t ∷ r ↦ aborted ]
map_offsets (suc n) map_no off ts = do
  r ← skip_map map_no ts
  more ← map_offsets n (map_no +ℤ pos 1) (off + r.0) r.1
  done (off ∷ more)

abbrev is_map_tid : RangeList → ℕ → Bool
is_map_tid list tid = elim list.map_tid [ none ↦ false | some t ↦ t == tid ]

-- `laik_updateMapOffsets`; `map_off` stays empty where `map_count` is 0.
pub update_map_offsets : RangeList → ℕ → Outcome RangeList
unfolding map_offsets slot
update_map_offsets list tid = if is_map_tid list tid then done list else (do
  assert (elim list.map_tid [ none ↦ true | some t ↦ false ])
  s ← slot list tid
  (if ltb s.0 s.1
      then (do
        t ← nth list.trange (s.1 - 1)
        assert (elim list.tss1d [ [] ↦ true | x ∷ xs ↦ false ])
        offs ←
            map_offsets (pos_part (t.map_no +ℤ pos 1)) (pos 0) s.0
              (take (s.1 - s.0) (drop s.0 list.trange))
        done (record list { map_tid = some tid; map_off = offs }))
      else done (record list { map_tid = some tid; map_off = [] })))

abbrev map_count : RangeList → ℕ
map_count list = length list.map_off - 1

-- `laik_rangelist_tidmaprangecount`
pub tid_map_range_count : RangeList → ℕ → ℤ → Outcome (RangeList × ℤ)
unfolding update_map_offsets
tid_map_range_count list tid map_no = do
  offs ← frozen list
  l ← if is_map_tid list tid then done list else update_map_offsets list tid
  assert (leb_ℤ (pos 0) map_no && ltb_ℤ map_no (pos (map_count l)))
  a ← nth l.map_off (pos_part map_no)
  b ← nth l.map_off (suc (pos_part map_no))
  done (l, sub_ℕ b a)

-- `laik_rangelist_tidmaprange`
pub tid_map_range : RangeList → ℕ → ℤ → ℤ → Outcome (RangeList × Option ℤ)
unfolding update_map_offsets
tid_map_range list tid map_no n = do
  offs ← frozen list
  l ← if is_map_tid list tid then done list else update_map_offsets list tid
  (if ltb_ℤ map_no (pos 0) || leb_ℤ (pos (map_count l)) map_no then done (l, none) else (do
    a ← nth l.map_off (pos_part map_no)
    b ← nth l.map_off (suc (pos_part map_no))
    (if ltb_ℤ n (pos 0) || leb_ℤ (sub_ℕ b a) n then done (l, none) else (do
      t ← nth l.trange (a + pos_part n)
      assert (t.task == tid)
      assert (eq_ℤ t.map_no map_no)
      done (l, task_range l (pos (a + pos_part n)))))))
