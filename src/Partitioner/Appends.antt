-- ===== src/Partitioner/Appends.antt =====
-- What a partitioner has appended to the list that it was given.
use laik.Prelude.Int.{pos, ℤ}
use laik.Prelude.{
  refl, sym, arith, length, ◌∙◌, ◌∷◌, ap, ◌>>=◌, ◌<◌, ◌++◌, true, none, done, some, [], Outcome,
  ◌≡◌, List, ℕ,
}
use mathlib.Core.List.{append_assoc}
use laik.Space.{range_within_range, range_within_space, Range, Space, within_dims}
use laik.Space.Compare.{range_within_range-dims}
use laik.RangeList.{grow, TaskRange, RangeList, append}

-- The list collects generic ranges of `space` for `n` tasks.
pub record Collects (space : Space) (n : ℕ) (list : RangeList) : Type 0 where
  pub of_space : list.space ≡ space
  pub tasks : list.tid_count ≡ n
  pub no_singles : list.tss1d ≡ []
  pub not_frozen : list.off ≡ none

-- an entry of the list before it is frozen
abbrev pub entry : ℕ → Range → ℤ → ℕ → TaskRange
entry task range tag user_data = record {
  task = task;
  range = range;
  tag = tag;
  user_data = user_data;
  map_no = pos 0;
}

-- The outcome is a list that collects as before, with `new` behind the old ranges.
pub record Appended (space : Space) (n : ℕ) (list : RangeList) (new : List TaskRange)
    (o : Outcome RangeList) : Type 0 where
  pub out : RangeList
  pub returns : o ≡ done out
  pub collects : Collects space n out
  pub ranges : out.trange ≡ list.trange ++ new

pub append-Appended :
    (space : Space) (n : ℕ) (list : RangeList) (task : ℕ) (range : Range) (tag : ℤ) (user_data : ℕ)
    → Collects space n list
    → space.range.space ≡ some space.ref
    → range.space ≡ some space.ref
    → within_dims space.ref.dims range space.range ≡ true
    → task < n
    → Appended space n list
        (entry task range tag user_data ∷ [])
        (append list task range tag user_data)
unfolding append range_within_space
append-Appended space n list task range tag user_data c es er w lt =
    let fits : range_within_range range list.space.range ≡ done true =
      rw (c.of_space) (range_within_range-dims range space.range er es ∙ ap done w) in
    let singles : length list.tss1d ≡ 0 = ap length c.no_singles in
    let tasks : task < list.tid_count = omega (arith, c.tasks) in
    let named : range.space ≡ some list.space.ref =
      er ∙ ap (λ (t : Space). some t.ref) (sym c.of_space) in
    record {
      out = record list {
        capacity = grow (length list.trange) list.capacity;
        trange = list.trange ++ (entry task range tag user_data ∷ []);
      };
      returns = ground (arith, named, fits, singles);
      collects = record {
        of_space = c.of_space;
        tasks = c.tasks;
        no_singles = c.no_singles;
        not_frozen = c.not_frozen;
      };
      ranges = refl;
    }

-- Appending on goes behind what was appended.
pub Appended-bind :
    (space : Space) (n : ℕ) (list : RangeList) (xs ys : List TaskRange) (o : Outcome RangeList)
    (f : RangeList → Outcome RangeList)
    → Appended space n list xs o
    → ((out : RangeList) → Collects space n out → Appended space n out ys (f out))
    → Appended space n list (xs ++ ys) (o >>= f)
Appended-bind space n list xs ys o f a k =
    let b = k a.out a.collects in
    record {
      out = b.out;
      returns = ap (λ m. m >>= f) a.returns ∙ b.returns;
      collects = b.collects;
      ranges = b.ranges ∙ ap (λ zs. zs ++ ys) a.ranges ∙ append_assoc list.trange xs ys;
    }
