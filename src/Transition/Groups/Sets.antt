-- ===== src/Transition/Groups/Sets.antt =====
-- `addTask`, `removeTask` and `isInTaskGroup` on sorted groups, as operations on sets.
use laik.Prelude.{
  inr, inl, ap, Bool-cases, ◌==◌, refl, not, none, ltb, ◌||◌, ◌&&◌, true, some, if◌then◌else◌,
  false, done, arith, [], ◌≤◌, ◌≡◌, ◌∷◌, ◌<◌, length, All, List, ℕ,
}
use laik.Transition.Groups.{insert_task, add_task, delete_task, remove_task, is_in_task_group}

-- all tasks of the group are above `k`
abbrev pub Above : ℕ → List ℕ → Type 0
Above k g = All (λ x. k < x) g

abbrev pub Ascending : List ℕ → Type 0
Ascending [] = Unit
Ascending (x ∷ xs) = Above x xs × Ascending xs

Above-mono : (k j : ℕ) (g : List ℕ) → k ≤ j → Above j g → Above k g
Above-mono k j [] h a = tt
Above-mono k j (x ∷ xs) h a = (omega arith, Above-mono k j xs h a.1)

Above-not-in : (k : ℕ) (g : List ℕ) → Above k g → is_in_task_group g k ≡ false
unfolding is_in_task_group
Above-not-in k [] h = refl
Above-not-in k (x ∷ xs) h = ground (arith, Above-not-in k xs h.1)

-- the group with `task` in it, if it was not there
abbrev pub added : List ℕ → ℕ → List ℕ
added [] task = task ∷ []
added (x ∷ xs) task = if ltb task x then task ∷ (x ∷ xs) else x ∷ added xs task

pub insert_task-added :
    (g : List ℕ) (task : ℕ)
    → Ascending g
    → insert_task g task ≡ (if is_in_task_group g task then none else some (added g task))
unfolding insert_task is_in_task_group
insert_task-added [] task a = refl
insert_task-added (x ∷ xs) task a =
    ground (arith, insert_task-added xs task a.1, Above-not-in task xs, Above-mono task x xs)

pub in-added :
    (g : List ℕ) (task k : ℕ)
    → is_in_task_group (added g task) k ≡ (is_in_task_group g k || k == task)
unfolding is_in_task_group
in-added [] task k = ground arith
in-added (x ∷ xs) task k = ground (arith, in-added xs task k)

Above-added : (j : ℕ) (g : List ℕ) (task : ℕ) → j < task → Above j g → Above j (added g task)
Above-added j [] task h a = (h, tt)
Above-added j (x ∷ xs) task h a = ground (arith, Above-added j xs task h a.1)

pub added-Ascending :
    (g : List ℕ) (task : ℕ)
    → Ascending g
    → is_in_task_group g task ≡ false
    → Ascending (added g task)
unfolding is_in_task_group
added-Ascending [] task a h = (tt, tt)
added-Ascending (x ∷ xs) task a h =
    ground (arith, added-Ascending xs task a.1, Above-added x xs task, Above-mono task x xs)

-- On a sorted group with room, `addTask` of a task that is not in it returns true and a sorted group
-- of the old tasks and the new one; a task that is in the group already is refused.
pub add_task_lem :
    (max_tasks : ℕ) (g : List ℕ) (task : ℕ)
    → Ascending g
    → length g < max_tasks
    → (g' : List ℕ) × (add_task max_tasks g task ≡ done (not (is_in_task_group g task), g'))
      × Ascending g'
      × ((k : ℕ) → is_in_task_group g' k ≡ (is_in_task_group g k || k == task))
unfolding add_task
add_task_lem max_tasks g task a h = elim (Bool-cases (is_in_task_group g task)) [
  | inl e ↦ (g, ground (arith, insert_task-added g task a), a, λ k. ground (arith, same k e))
  | inr e ↦ (
    added g task,
    ground (arith, insert_task-added g task a),
    added-Ascending g task a e,
    λ k. in-added g task k,
  )
]
  where
    same :
        (k : ℕ) → is_in_task_group g task ≡ true → (k == task) ≡ true → is_in_task_group g k ≡ true
    same k e q = let eq : k ≡ task = ground arith in rw eq e

-- the group without `task`
abbrev dropped : List ℕ → ℕ → List ℕ
dropped [] task = []
dropped (x ∷ xs) task = if task == x then xs else x ∷ dropped xs task

delete_task-dropped :
    (g : List ℕ) (task : ℕ)
    → is_in_task_group g task ≡ true
    → Ascending g
    → delete_task g task ≡ some (dropped g task)
unfolding delete_task is_in_task_group
delete_task-dropped [] task h a = cc
delete_task-dropped (x ∷ []) task h a = ground arith
delete_task-dropped (x ∷ (y ∷ ys)) task h a = ground (
  arith,
  delete_task-dropped (y ∷ ys) task,
  Above-not-in task (y ∷ ys),
  Above-mono task x (y ∷ ys),
)

Above-dropped : (j : ℕ) (g : List ℕ) (task : ℕ) → Above j g → Above j (dropped g task)
Above-dropped j [] task a = tt
Above-dropped j (x ∷ xs) task a = ground (arith, Above-dropped j xs task a.1)

dropped-Ascending : (g : List ℕ) (task : ℕ) → Ascending g → Ascending (dropped g task)
dropped-Ascending [] task a = tt
dropped-Ascending (x ∷ xs) task a =
    ground (arith, dropped-Ascending xs task a.1, Above-dropped x xs task a.0)

in-dropped :
    (g : List ℕ) (task k : ℕ)
    → Ascending g
    → is_in_task_group (dropped g task) k ≡ (is_in_task_group g k && not (k == task))
unfolding is_in_task_group
in-dropped [] task k a = refl
in-dropped (x ∷ xs) task k a =
    ground (arith, in-dropped xs task k a.1, Above-not-in x xs a.0, in_eq xs x k, in_eq xs task k)
  where
    in_eq :
        (ys : List ℕ) (j k : ℕ) → (k == j) ≡ true → is_in_task_group ys k ≡ is_in_task_group ys j
    in_eq ys j k q = let eq : k ≡ j = ground arith in ap (is_in_task_group ys) eq

-- On a sorted group `removeTask` of a task in it returns true and the sorted group of the other
-- tasks.
pub remove_task_lem :
    (g : List ℕ) (task : ℕ)
    → Ascending g
    → is_in_task_group g task ≡ true
    → (g' : List ℕ) × (remove_task g task ≡ (true, g'))
      × Ascending g'
      × ((k : ℕ) → is_in_task_group g' k ≡ (is_in_task_group g k && not (k == task)))
unfolding remove_task is_in_task_group
remove_task_lem [] task a h = cc
remove_task_lem (x ∷ xs) task a h = (
  dropped (x ∷ xs) task,
  rw (delete_task-dropped (x ∷ xs) task h a, remove_task) refl,
  dropped-Ascending (x ∷ xs) task a,
  λ k. in-dropped (x ∷ xs) task k a,
)

-- the group without its last task
abbrev pub but_last : List ℕ → List ℕ
but_last [] = []
but_last (x ∷ xs) = elim xs [ [] ↦ [] | y ∷ ys ↦ x ∷ but_last xs ]

delete_task-missing :
    (x : ℕ) (xs : List ℕ) (task : ℕ)
    → All (λ k. k < task) (x ∷ xs)
    → delete_task (x ∷ xs) task ≡ some (but_last (x ∷ xs))
unfolding delete_task
delete_task-missing x [] task h = ground arith
delete_task-missing x (y ∷ ys) task h = ground (arith, delete_task-missing y ys task h.1)

-- `removeTask` of a task that lies above all tasks of a non-empty group, and so is not in it, does
-- not return false: it reports a removal and drops the last task of the group.
pub remove_task_missing :
    (x : ℕ) (xs : List ℕ) (task : ℕ)
    → All (λ k. k < task) (x ∷ xs)
    → remove_task (x ∷ xs) task ≡ (true, but_last (x ∷ xs))
unfolding remove_task
remove_task_missing x xs task h = rw (delete_task-missing x xs task h, remove_task) refl
