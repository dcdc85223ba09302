-- ===== src/Transition/Sweep/Matching.antt =====
-- Two processes that sweep over the same borders, and their messages.
use laik.Prelude.Sort.{QSort}
use laik.Prelude.Int.{ℤ}
use laik.Prelude.{
  ◌>>◌, assert, bind-done, done-injective, ap₂, ap, ◌∙◌, ◌++◌, refl, ◌≢◌, ◌∷◌, sym, subst, [],
  false, ◌==◌, List, arith, true, done, ◌≡◌, ℕ,
}
use laik.Space.{Range, SpaceRef}
use laik.Transition.Groups.{is_in_task_group}
use laik.Transition.Sweep.{
  sweep_start, no_tasks, sweep_all, Bufs, TaskRange, calc_add_reductions, Params, Sweep, Border,
  enter, leave, sweep_from,
}
use laik.Transition.Sweep.Own.{IsOwn, enter-IsOwn, enter-groups, enter-bufs}
use laik.Transition.Sweep.Leave.{leave-groups, sent-leave, got-leave, leave-IsOwn, due_behind}
use laik.Transition.Sweep.Step.{sent, got}

nobody : (k : ℕ) → is_in_task_group [] k ≡ true → false ≡ true
unfolding is_in_task_group
nobody k h = h

-- Where two processes sweep over the same borders without the flag that keeps reductions, what one
-- sends to the other in all is what that one receives, in the same order, if that was so before.
module _ (space : SpaceRef) (junk : Range) (ca cb : Params) (keep_a : ca.keep ≡ false)
    (keep_b : cb.keep ≡ false) (ne : ca.myid ≢ cb.myid) where
  -- the two sweeps agree
  abbrev Agree : Sweep → Sweep → Type 0
  Agree s t =
      IsOwn ca.myid s
      × IsOwn cb.myid t
      × (s.input ≡ t.input)
      × (s.output ≡ t.output)
      × (sent cb.myid s.bufs.send ≡ got ca.myid t.bufs.recv)

  enter-Agree :
      (x : Border) (s t : Sweep) {s' t' : Sweep}
      → Agree s t
      → enter ca.myid x s ≡ done s'
      → enter cb.myid x t ≡ done t'
      → Agree s' t'
  enter-Agree x s t (oa, ob, i, o, m) e f =
      let (i', o') = enter-groups ca.myid cb.myid x s t i o e f in
      (
        enter-IsOwn ca.myid x s oa e,
        enter-IsOwn cb.myid x t ob f,
        i',
        o',
        ap (λ b. sent cb.myid b.send) (enter-bufs ca.myid x s e)
            ∙ m
            ∙ ap (λ b. got ca.myid b.recv) (sym (enter-bufs cb.myid x t f)),
      )

  leave-Agree :
      (x next : ℤ) (s t : Sweep) {s' t' : Sweep}
      → Agree s t
      → leave ca space junk x next s ≡ done s'
      → leave cb space junk x next t ≡ done t'
      → Agree s' t'
  leave-Agree x next s t (oa, ob, i, o, m) e f =
      let ga = leave-groups space junk x next ca s e in
      let gb = leave-groups space junk x next cb t f in
      (
        leave-IsOwn space junk x next ca s oa e,
        leave-IsOwn space junk x next cb t ob f,
        ga.0 ∙ i ∙ sym gb.0,
        ga.1 ∙ o ∙ sym gb.1,
        sent-leave space junk x next ca cb.myid s keep_a ne oa e
            ∙ ap₂ (◌++◌) m (ap₂ (λ g h. due_behind ca.myid cb.myid space junk x next g h) i o)
            ∙ sym (got-leave space junk x next cb ca.myid t keep_b ne ob f),
      )

  sweep-Agree :
      (xs : List Border) (s t : Sweep) {s' t' : Sweep}
      → Agree s t
      → sweep_from ca space junk xs s ≡ done s'
      → sweep_from cb space junk xs t ≡ done t'
      → Agree s' t'
  unfolding sweep_from
  sweep-Agree [] s t {s'} {t'} g e f =
      subst (λ z. Agree s' z) (done-injective f) (subst (λ z. Agree z t) (done-injective e) g)
  sweep-Agree (x ∷ []) s t g e f =
      let (s1, e1, e2) = bind-done (enter ca.myid x s) _ e in
      let (t1, f1, f2) = bind-done (enter cb.myid x t) _ f in
      sweep-Agree [] s1 t1 (enter-Agree x s t g e1 f1) e2 f2
  sweep-Agree (x ∷ (y ∷ ys)) s t g e f =
      let (s1, e1, e2) = bind-done (enter ca.myid x s) _ e in
      let (t1, f1, f2) = bind-done (enter cb.myid x t) _ f in
      let (s2, e3, e4) = bind-done (leave ca space junk x.b y.b s1) _ e2 in
      let (t2, f3, f4) = bind-done (leave cb space junk x.b y.b t1) _ f2 in
      let g1 = enter-Agree x s t g e1 f1 in
      sweep-Agree (y ∷ ys) s2 t2 (leave-Agree x.b y.b s1 t1 g1 e3 f3) e4 f4

  sweep_all-Agree :
      (xs : List Border) (bufs_a bufs_b : Bufs) {out_a out_b : Bufs}
      → sent cb.myid bufs_a.send ≡ []
      → got ca.myid bufs_b.recv ≡ []
      → sweep_all ca space junk bufs_a xs ≡ done out_a
      → sweep_all cb space junk bufs_b xs ≡ done out_b
      → sent cb.myid out_a.send ≡ got ca.myid out_b.recv
  unfolding sweep_all IsOwn
  sweep_all-Agree [] bufs_a bufs_b ea eb e f =
      ap (λ b. sent cb.myid b.send) (sym (done-injective e))
      ∙ ea
      ∙ sym eb
      ∙ ap (λ b. got ca.myid b.recv) (done-injective f)
  sweep_all-Agree (x ∷ xs) bufs_a bufs_b ea eb e f =
      let (s, e1, e2) = bind-done (sweep_from ca space junk (x ∷ xs) (sweep_start bufs_a)) _ e in
      let (t, f1, f2) = bind-done (sweep_from cb space junk (x ∷ xs) (sweep_start bufs_b)) _ f in
      let g =
        sweep-Agree (x ∷ xs) (sweep_start bufs_a) (sweep_start bufs_b)
          ((tt, tt, nobody _, nobody _), (tt, tt, nobody _, nobody _), refl, refl, ea ∙ sym eb) e1
          f1 in
      let (oa, ob, i, o, m) = g in
      ap (λ b. sent cb.myid b.send) (sym (ends s e2)) ∙ m ∙ ap (λ b. got ca.myid b.recv) (ends t f2)
    where
      ends :
          (s : Sweep) {out : Bufs}
          → (assert (no_tasks s.input) >> assert (no_tasks s.output) >> done s.bufs) ≡ done out
          → s.bufs ≡ out
      ends s e = ground arith

  module _ (q : QSort) where
    -- Two processes a and b that run `calcAddReductions` on the same range lists, without the flag
    -- that keeps reductions and starting with no message between them: if both calls return, then
    -- the ranges that a sends to b are the ranges that b receives from a, in the same order.
    pub calc_add_reductions_match :
        (froms tos : List TaskRange) (bufs_a bufs_b out_a out_b : Bufs)
        → sent cb.myid bufs_a.send ≡ []
        → got ca.myid bufs_b.recv ≡ []
        → calc_add_reductions ca q space junk froms tos bufs_a ≡ done out_a
        → calc_add_reductions cb q space junk froms tos bufs_b ≡ done out_b
        → sent cb.myid out_a.send ≡ got ca.myid out_b.recv
    unfolding calc_add_reductions
    calc_add_reductions_match froms tos bufs_a bufs_b out_a out_b ea eb e f =
        let (u, e1, e2) = bind-done (assert (space.dims == 1)) _ e in
        let (v, f1, f2) = bind-done (assert (space.dims == 1)) _ f in
        sweep_all-Agree _ bufs_a bufs_b ea eb e2 f2
