-- ===== src/Mpi/Tests.antt =====
-- A run of the transfer, with a list of messages as the channel.
use laik.Prelude.{
  inl, inr, false, ◌∙◌, true, if◌then◌else◌, ap, ℕ, refl, ◌≡◌, ◌≤◌, List, [], ◌∷◌, ◌++◌, length,
  Option, none, some, leb, arith, done,
}
use laik.Space.{Index}
use laik.Space.Points.{contains, holds, within}
use laik.Layout.Walk.{rank, total}
use laik.Layout.Tests.{small, flat, numbers, zeros, numbers-InMap, zeros-InMap}
use laik.Layout.Generic.{init_layout}
use laik.Mpi.{Mpi, pack_and_send, recv_and_unpack}
use laik.Mpi.Whole.{pack_and_send-recv_and_unpack}

abbrev first_of : ℕ → List (List ℕ) → Option (List ℕ × List (List ℕ))
first_of n [] = none
first_of n (x ∷ xs) = if leb (length x) n then some (x, xs) else none

first_of-first :
    (n : ℕ) (c : List (List ℕ)) (x : List ℕ) (xs : List (List ℕ))
    → c ≡ x ∷ xs
    → length x ≤ n
    → (c' : List (List ℕ)) × (first_of n c ≡ some (x, c')) × (c' ≡ xs)
first_of-first n c x xs e h = (xs, ap (first_of n) e ∙ ground arith, refl)

abbrev by_lists : Mpi ℕ
by_lists = record {
  Channel = List (List ℕ);
  messages = λ c. c;
  send = λ x c. c ++ (x ∷ []);
  recv = first_of;
  messages-send = λ x c. refl;
  recv-first = first_of-first;
}

pack_and_send-recv_and_unpack_example :
    (ch1 : List (List ℕ)) × (ch2 : List (List ℕ)) × (mem' : ℕ → ℕ) × (pack_and_send by_lists
        (init_layout true none none)
        2
        numbers
        small
        (total 2 small)
        []
      ≡ done ch1)
    × (recv_and_unpack by_lists (init_layout false none none) 2 zeros small (total 2 small) 8 ch1
        ≡ done (ch2, mem'))
    × (ch2 ≡ [])
    × ((p : Index)
        → contains 2 p small ≡ true
        → mem' (rank 2 zeros-InMap.held p) ≡ rank 2 numbers-InMap.held p)
    × ((n : ℕ)
        → ((p : Index) → contains 2 p small ≡ true → ¬ (rank 2 zeros-InMap.held p ≡ n))
        → mem' n ≡ 0)
unfolding contains holds within
pack_and_send-recv_and_unpack_example =
    pack_and_send-recv_and_unpack by_lists flat small numbers zeros [] true false none none none
      none (inl refl) (inr refl) (omega arith) (omega arith) refl numbers-InMap zeros-InMap refl
      (omega arith) refl
