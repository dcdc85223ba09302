-- ===== src/Transition/Sweep/Leave.antt =====
-- The part behind one border of the sweep: what a process sends and receives there.
use laik.Prelude.Int.{ltb_ℤ, ℤ}
use laik.Prelude.{
  inr, inl, Outcome-cases, ◌++◌, refl, ◌≢◌, ◌∷◌, some, [], false, if◌then◌else◌, List, arith, done,
  ◌≡◌, ℕ,
}
use mathlib.Core.List.{append-nil}
use laik.Space.{Range, SpaceRef, put_at}
use laik.Transition.Groups.{is_in_task_group}
use laik.Transition.Sweep.{Params, Sweep, leave, emit}
use laik.Transition.Sweep.Own.{IsOwn}
use laik.Transition.Sweep.Step.{copies-absent, sent, got, due, sent-emit, got-emit}

due-not-in-input :
    (a b : ℕ) (r : Range) (input output : List ℕ)
    → is_in_task_group input a ≡ false
    → due a b r input output ≡ []
unfolding is_in_task_group
due-not-in-input a b r [] output h = refl
due-not-in-input a b r (x ∷ []) output h = ground arith
due-not-in-input a b r (x ∷ (y ∷ ys)) output h = refl

-- the range between two borders
abbrev part : SpaceRef → Range → ℤ → ℤ → Range
part space junk b next = record {
  space = some space;
  from = put_at junk.from 0 b;
  to = put_at junk.to 0 next;
}

-- what `b` is due from `a` for the part behind a border
abbrev pub due_behind : ℕ → ℕ → SpaceRef → Range → ℤ → ℤ → List ℕ → List ℕ → List Range
due_behind a b space junk x next input output =
    if ltb_ℤ x next then due a b (part space junk x next) input output else []

module _ (space : SpaceRef) (junk : Range) (x next : ℤ) where
  pub leave-groups :
      (c : Params) (s : Sweep) {s' : Sweep}
      → leave c space junk x next s ≡ done s'
      → (s'.input ≡ s.input)
        × (s'.output ≡ s.output)
        × (s'.active_in ≡ s.active_in)
        × (s'.active_out ≡ s.active_out)
  unfolding leave
  leave-groups c s e = ground arith

  pub sent-leave :
      (c : Params) (b : ℕ) (s : Sweep) {s' : Sweep}
      → c.keep ≡ false
      → c.myid ≢ b
      → IsOwn c.myid s
      → leave c space junk x next s ≡ done s'
      → sent b s'.bufs.send
        ≡ sent b s.bufs.send ++ due_behind c.myid b space junk x next s.input s.output
  unfolding leave IsOwn
  sent-leave c b s k ne o e = elim (Outcome-cases (emit c (part space junk x next) s)) [
    | inl f ↦ ground (
      arith,
      due-not-in-input c.myid b (part space junk x next) s.input s.output,
      append-nil (sent b s.bufs.send),
    )
    | inr (out, f) ↦ ground (
      arith,
      sent-emit c b (part space junk x next) s out k ne f,
      due-not-in-input c.myid b (part space junk x next) s.input s.output,
      append-nil (sent b s.bufs.send),
    )
  ]

  due-not-in-output :
      (a b : ℕ) (input output : List ℕ)
      → is_in_task_group output b ≡ false
      → due a b (part space junk x next) input output ≡ []
  due-not-in-output a b [] output h = refl
  due-not-in-output a b (y ∷ []) output h =
      ground (arith, copies-absent b output (part space junk x next) h)
  due-not-in-output a b (y ∷ (z ∷ zs)) output h = refl

  pub got-leave :
      (c : Params) (a : ℕ) (s : Sweep) {s' : Sweep}
      → c.keep ≡ false
      → a ≢ c.myid
      → IsOwn c.myid s
      → leave c space junk x next s ≡ done s'
      → got a s'.bufs.recv
        ≡ got a s.bufs.recv ++ due_behind a c.myid space junk x next s.input s.output
  unfolding leave IsOwn
  got-leave c a s k ne o e = elim (Outcome-cases (emit c (part space junk x next) s)) [
    | inl f ↦
        ground (arith, due-not-in-output a c.myid s.input s.output, append-nil (got a s.bufs.recv))
    | inr (out, f) ↦ ground (
      arith,
      got-emit c a (part space junk x next) s out k ne f,
      due-not-in-output a c.myid s.input s.output,
      append-nil (got a s.bufs.recv),
    )
  ]

  pub leave-IsOwn :
      (c : Params) (s : Sweep) {s' : Sweep}
      → IsOwn c.myid s
      → leave c space junk x next s ≡ done s'
      → IsOwn c.myid s'
  unfolding leave IsOwn
  leave-IsOwn c s o e = ground arith
