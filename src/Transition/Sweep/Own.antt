-- ===== src/Transition/Sweep/Own.antt =====
-- The task groups and the own activity during the sweep of `calcAddReductions`.
use laik.Prelude.{
  sym, subst, inr, ap, ◌∙◌, false, Outcome-cases, ◌==◌, inl, if◌then◌else◌, arith, Bool-cases, true,
  done, Bool, ◌≡◌, List, ℕ,
}
use laik.Transition.Groups.{is_in_task_group, add_task, remove_task}
use laik.Transition.Groups.Sets.{Ascending}
use laik.Transition.Groups.Updates.{add_task-true, remove_task-true}
use laik.Transition.Sweep.{Sweep, Border, enter, max_tasks}

-- The groups are sorted, and the own activity is noted.
unfoldable pub IsOwn : ℕ → Sweep → Type 0
IsOwn myid s =
    Ascending s.input
    × Ascending s.output
    × (is_in_task_group s.input myid ≡ true → s.active_in ≡ true)
    × (is_in_task_group s.output myid ≡ true → s.active_out ≡ true)

adding-own :
    (myid task : ℕ) (g : List ℕ) (active : Bool)
    → Ascending g
    → (is_in_task_group g myid ≡ true → active ≡ true)
    → (flag : Bool) → (g' : List ℕ) → add_task max_tasks g task ≡ done (flag, g')
    → flag ≡ true
    → Ascending g'
      × (is_in_task_group g' myid ≡ true → (if task == myid then true else active) ≡ true)
adding-own myid task g active a h flag g' e f =
    let (a', m) = add_task-true max_tasks g task a (e ∙ ap (λ t. done (t, g')) f) in
    (a', λ k. ground (arith, m myid))

removing-own :
    (myid task : ℕ) (g : List ℕ) (active : Bool)
    → Ascending g
    → (is_in_task_group g myid ≡ true → active ≡ true)
    → (remove_task g task).0 ≡ true
    → Ascending (remove_task g task).1
      × (is_in_task_group (remove_task g task).1 myid ≡ true
          → (if task == myid then false else active) ≡ true)
removing-own myid task g active a h e =
    let (a', m, n) = remove_task-true g task a e in (a', λ k. ground (arith, m myid, same k))
  where
    same :
        is_in_task_group (remove_task g task).1 myid ≡ true
        → (task == myid) ≡ true
        → is_in_task_group (remove_task g task).1 task ≡ true
    same k q =
        let eq : task ≡ myid = ground arith in
        subst (λ j. is_in_task_group (remove_task g task).1 j ≡ true) (sym eq) k

pub enter-IsOwn :
    (myid : ℕ) (x : Border) (s : Sweep) {s' : Sweep}
    → IsOwn myid s
    → enter myid x s ≡ done s'
    → IsOwn myid s'
unfolding enter IsOwn
enter-IsOwn myid x s o e = elim (Bool-cases x.is_input) [
  | inl h ↦ elim (Outcome-cases (add_task max_tasks s.input x.task)) [
    | inl f ↦ ground (arith, removing-own myid x.task s.input s.active_in o.0 o.2)
    | inr ((t, g'), f) ↦ ground (
      arith,
      adding-own myid x.task s.input s.active_in o.0 o.2 t g' f,
      removing-own myid x.task s.input s.active_in o.0 o.2,
    )
  ]
  | inr h ↦ elim (Outcome-cases (add_task max_tasks s.output x.task)) [
    | inl f ↦ ground (arith, removing-own myid x.task s.output s.active_out o.1 o.3)
    | inr ((t, g'), f) ↦ ground (
      arith,
      adding-own myid x.task s.output s.active_out o.1 o.3 t g' f,
      removing-own myid x.task s.output s.active_out o.1 o.3,
    )
  ]
]

-- An update of the groups reads nothing else of the state, and leaves the buffers alone.
pub enter-groups :
    (a b : ℕ) (x : Border) (s t : Sweep) {s' t' : Sweep}
    → s.input ≡ t.input
    → s.output ≡ t.output
    → enter a x s ≡ done s'
    → enter b x t ≡ done t'
    → (s'.input ≡ t'.input) × (s'.output ≡ t'.output)
unfolding enter
enter-groups a b x s t i o e f = ground arith

pub enter-bufs :
    (a : ℕ) (x : Border) (s : Sweep) {s' : Sweep} → enter a x s ≡ done s' → s'.bufs ≡ s.bufs
unfolding enter
enter-bufs a x s e = ground arith
