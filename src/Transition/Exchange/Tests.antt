-- ===== src/Transition/Exchange/Tests.antt =====
-- An exchange between two tasks in a plane, as an instance of the theorem on its messages.
use mathlib.Core.List.{Perm}
use laik.Prelude.Int.{ℤ, pos}
use laik.Prelude.{refl, map, [], ◌∷◌, done, ◌≡◌, ℕ, arith, List}
use laik.Space.Tests.{plane, rectangle, corner}
use laik.Space.Points.{contains, holds, within}
use laik.RangeList.{TaskRange}
use laik.Transition.{SendOp, RecvOp}
use laik.Transition.Exchange.{sends_to, recvs_from}
use laik.Transition.Exchange.Matching.{Disjoint, sends_match_recvs}

abbrev block_of : ℕ → ℤ → ℤ → ℤ → ℤ → TaskRange
block_of k x y x' y' = record {
  task = k;
  range = rectangle x y x' y';
  tag = pos 0;
  user_data = 0;
  map_no = pos 0;
}

abbrev left_block : List TaskRange
left_block = block_of 0 (pos 0) (pos 0) (pos 5) (pos 10) ∷ []

abbrev right_block : List TaskRange
right_block = block_of 1 (pos 5) (pos 0) (pos 10) (pos 10) ∷ []

abbrev lower_block : List TaskRange
lower_block = block_of 1 (pos 0) (pos 5) (pos 10) (pos 10) ∷ []

blocks-Disjoint : Disjoint 2 left_block right_block
unfolding contains holds within
blocks-Disjoint = (((λ p. ground arith), tt), tt)

sends_match_recvs_example :
    (sends : List SendOp) × (recvs : List RecvOp) × (sends_to corner 1 right_block lower_block 0
        left_block
      ≡ done sends)
    × (recvs_from corner 0 right_block left_block 0 lower_block ≡ done recvs)
    × Perm (map SendOp.range sends) (map RecvOp.range recvs)
unfolding contains holds within
sends_match_recvs_example =
    sends_match_recvs plane corner (omega arith) left_block right_block lower_block
      ((refl, refl), tt) ((refl, refl), tt) ((refl, refl), tt) blocks-Disjoint 0 1
