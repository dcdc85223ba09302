-- ===== src/Transition/Sweep/Step.antt =====
-- One part of the sweep, and its messages between two processes.
use mathlib.Core.List.{append-nil, append_assoc}
use laik.Prelude.{
  ap, inr, inl, ◌∙◌, true, false, done, Bool-cases, refl, ◌==◌, sym, arith, ◌≡◌, if◌then◌else◌, [],
  ◌≢◌, ◌∷◌, ◌++◌, List, ℕ,
}
use laik.Space.{Range}
use laik.Transition.{Bufs, SendOp, RecvOp}
use laik.Transition.Groups.{is_in_task_group}
use laik.Transition.Sweep.{
  emit_for, give_one, take_one, only, Params, Sweep, give, take_in, reduce, emit,
}

-- the ranges of the operations that send to `b`
abbrev pub sent : ℕ → List SendOp → List Range
sent b [] = []
sent b (op ∷ ops) = if op.to_task == b then op.range ∷ sent b ops else sent b ops

-- the ranges of the operations that receive from `a`
abbrev pub got : ℕ → List RecvOp → List Range
got a [] = []
got a (op ∷ ops) = if op.from_task == a then op.range ∷ got a ops else got a ops

sent-append : (b : ℕ) (xs ys : List SendOp) → sent b (xs ++ ys) ≡ sent b xs ++ sent b ys
sent-append b [] ys = refl
sent-append b (x ∷ xs) ys = ground (arith, sent-append b xs ys)

got-append : (a : ℕ) (xs ys : List RecvOp) → got a (xs ++ ys) ≡ got a xs ++ got a ys
got-append a [] ys = refl
got-append a (x ∷ xs) ys = ground (arith, got-append a xs ys)

-- one copy of `r` for each time that `b` stands in the group
abbrev pub copies : ℕ → List ℕ → Range → List Range
copies b [] r = []
copies b (out ∷ outs) r = if out == b then r ∷ copies b outs r else copies b outs r

pub copies-absent :
    (b : ℕ) (g : List ℕ) (r : Range) → is_in_task_group g b ≡ false → copies b g r ≡ []
unfolding is_in_task_group
copies-absent b [] r h = refl
copies-absent b (x ∷ xs) r h = ground (arith, copies-absent b xs r)

-- what `b` is due from `a` for the range `r` between two borders
abbrev pub due : ℕ → ℕ → Range → List ℕ → List ℕ → List Range
due a b r [] output = []
due a b r (x ∷ xs) output = elim xs [ [] ↦ if x == a then copies b output r else [] | y ∷ ys ↦ [] ]

-- A message to `b` for each time that it wants output, and nothing else that is sent to it.
sent-give :
    (c : Params) (b : ℕ) (r : Range) (s : Sweep) (outs : List ℕ) (bufs : Bufs)
    → c.myid ≢ b
    → sent b (give c r s outs bufs).send ≡ sent b bufs.send ++ copies b outs r
unfolding give
sent-give c b r s [] bufs ne = sym (append-nil (sent b bufs.send))
sent-give c b r s (out ∷ outs) bufs ne = sent-give c b r s outs (give_one c r s out bufs) ne ∙ step
  where
    op : SendOp
    op = record { range = r; range_no = s.in_range_no; map_no = s.in_map_no; to_task = out }

    step :
        sent b (give_one c r s out bufs).send ++ copies b outs r
        ≡ sent b bufs.send ++ copies b (out ∷ outs) r
    step = ground (
      arith,
      sent-append b bufs.send (op ∷ []),
      append_assoc (sent b bufs.send) (r ∷ []) (copies b outs r),
      append-nil (sent b bufs.send),
    )

-- A message from `from` for each time that the process wants output.
got-take_in :
    (c : Params) (a : ℕ) (r : Range) (s : Sweep) (from : ℕ) (outs : List ℕ) (bufs : Bufs)
    → got a (take_in c r s from outs bufs).recv
      ≡ got a bufs.recv ++ (if from == a then copies c.myid outs r else [])
unfolding take_in
got-take_in c a r s from [] bufs = elim (Bool-cases (from == a)) [
  | inl e ↦ rw e (sym (append-nil (got a bufs.recv)))
  | inr e ↦ rw e (sym (append-nil (got a bufs.recv)))
]
got-take_in c a r s from (out ∷ outs) bufs =
    got-take_in c a r s from outs (take_one c r s from out bufs) ∙ step
  where
    op : RecvOp
    op = record { range = r; range_no = s.out_range_no; map_no = s.out_map_no; from_task = from }

    step :
        got a (take_one c r s from out bufs).recv
          ++ (if from == a then copies c.myid outs r else [])
        ≡ got a bufs.recv ++ (if from == a then copies c.myid (out ∷ outs) r else [])
    step = ground (
      arith,
      got-append a bufs.recv (op ∷ []),
      append_assoc (got a bufs.recv) (r ∷ []) (copies c.myid outs r),
      append-nil (got a bufs.recv),
    )

-- The other operations of these loops.
recv-give :
    (c : Params) (r : Range) (s : Sweep) (outs : List ℕ) (bufs : Bufs)
    → (give c r s outs bufs).recv ≡ bufs.recv
unfolding give
recv-give c r s [] bufs = refl
recv-give c r s (out ∷ outs) bufs = recv-give c r s outs (give_one c r s out bufs) ∙ ground arith

send-take_in :
    (c : Params) (r : Range) (s : Sweep) (from : ℕ) (outs : List ℕ) (bufs : Bufs)
    → (take_in c r s from outs bufs).send ≡ bufs.send
unfolding take_in
send-take_in c r s from [] bufs = refl
send-take_in c r s from (out ∷ outs) bufs =
    send-take_in c r s from outs (take_one c r s from out bufs) ∙ ground arith

reduce-messages :
    (c : Params) (r : Range) (s : Sweep) (bufs out : Bufs)
    → reduce c r s bufs ≡ done out
    → (out.send ≡ bufs.send) × (out.recv ≡ bufs.recv)
unfolding reduce
reduce-messages c r s bufs out e = ground arith

only-copies :
    (c : Params) (b : ℕ) (r : Range) (outs : List ℕ)
    → c.myid ≢ b
    → only c outs ≡ true
    → copies b outs r ≡ []
only-copies c b r [] ne h = refl
only-copies c b r (x ∷ []) ne h = ground arith
only-copies c b r (x ∷ (y ∷ ys)) ne h = cc

sent-emit_for :
    (c : Params) (b : ℕ) (r : Range) (s : Sweep) (out : Bufs) (input : List ℕ)
    → c.keep ≡ false
    → c.myid ≢ b
    → emit_for c r s input ≡ done out
    → sent b out.send ≡ sent b s.bufs.send ++ due c.myid b r input s.output
unfolding emit_for
sent-emit_for c b r s out [] k ne e =
    ap (sent b) (reduce-messages c r s s.bufs out e).0 ∙ sym (append-nil (sent b s.bufs.send))
sent-emit_for c b r s out (x ∷ (y ∷ ys)) k ne e =
    ap (sent b) (reduce-messages c r s s.bufs out e).0 ∙ sym (append-nil (sent b s.bufs.send))
sent-emit_for c b r s out (x ∷ []) k ne e = ground (
  arith,
  only-copies c b r s.output ne,
  sent-give c b r s s.output s.bufs ne,
  send-take_in c r s x s.output s.bufs,
  append-nil (sent b s.bufs.send),
)

got-emit_for :
    (c : Params) (a : ℕ) (r : Range) (s : Sweep) (out : Bufs) (input : List ℕ)
    → c.keep ≡ false
    → a ≢ c.myid
    → emit_for c r s input ≡ done out
    → got a out.recv ≡ got a s.bufs.recv ++ due a c.myid r input s.output
unfolding emit_for
got-emit_for c a r s out [] k ne e =
    ap (got a) (reduce-messages c r s s.bufs out e).1 ∙ sym (append-nil (got a s.bufs.recv))
got-emit_for c a r s out (x ∷ (y ∷ ys)) k ne e =
    ap (got a) (reduce-messages c r s s.bufs out e).1 ∙ sym (append-nil (got a s.bufs.recv))
got-emit_for c a r s out (x ∷ []) k ne e = ground (
  arith,
  recv-give c r s s.output s.bufs,
  got-take_in c a r s x s.output s.bufs,
  append-nil (got a s.bufs.recv),
)

-- What a process sends to another one in one part of the sweep is what the other is due from it.
pub sent-emit :
    (c : Params) (b : ℕ) (r : Range) (s : Sweep) (out : Bufs)
    → c.keep ≡ false
    → c.myid ≢ b
    → emit c r s ≡ done out
    → sent b out.send ≡ sent b s.bufs.send ++ due c.myid b r s.input s.output
unfolding emit
sent-emit c b r s out k ne e = sent-emit_for c b r s out s.input k ne e

-- What a process receives from another one is what it is due from that one.
pub got-emit :
    (c : Params) (a : ℕ) (r : Range) (s : Sweep) (out : Bufs)
    → c.keep ≡ false
    → a ≢ c.myid
    → emit c r s ≡ done out
    → got a out.recv ≡ got a s.bufs.recv ++ due a c.myid r s.input s.output
unfolding emit
got-emit c a r s out k ne e = got-emit_for c a r s out s.input k ne e
