-- ===== src/Transition/Groups/Updates.antt =====
-- What an update of a sorted group that reports success has done, also where `removeTask` reports a
-- removal of a task that is not in the group.
use mathlib.Core.Option.{some-injective}
use laik.Prelude.{
  refl, none, none, ◌∙◌, sym, Bool, ap, false, [], Option-cases, inr, arith, inl, ◌==◌, Bool-cases,
  ◌∷◌, ◌||◌, true, subst, some, done, ◌≡◌, List, ℕ,
}
use laik.Transition.Groups.{add_task, delete_task, remove_task, is_in_task_group}
use laik.Transition.Groups.Sets.{
  Ascending, Above, added, in-added, added-Ascending, insert_task-added, remove_task_lem,
}

pub add_task-true :
    (max_tasks : ℕ) (g : List ℕ) (task : ℕ) {g' : List ℕ}
    → Ascending g
    → add_task max_tasks g task ≡ done (true, g')
    → Ascending g' × ((k : ℕ) → is_in_task_group g' k ≡ (is_in_task_group g k || k == task))
unfolding add_task
add_task-true max_tasks g task {g'} a e = elim (Bool-cases (is_in_task_group g task)) [
  | inl h ↦ absurd (ground (arith, insert_task-added g task a))
  | inr h ↦
      let eq : added g task ≡ g' = ground (arith, insert_task-added g task a) in
      (subst Ascending eq (added-Ascending g task a h), λ k. rw (← eq) (in-added g task k))
]

delete_task-Above :
    (j : ℕ) (g : List ℕ) (task : ℕ) {g' : List ℕ}
    → Above j g
    → delete_task g task ≡ some g'
    → Above j g'
unfolding delete_task
delete_task-Above j [] task a e = subst (Above j) (some-injective _ _ e) tt
delete_task-Above j (x ∷ []) task a e = ground arith
delete_task-Above j (x ∷ (y ∷ ys)) task {g'} a e = elim (Option-cases (delete_task (y ∷ ys) task)) [
  | inl n ↦ ground arith
  | inr (zs, n) ↦ ground (arith, delete_task-Above j (y ∷ ys) task {g' = zs} a.1 n)
]

delete_task-Ascending :
    (g : List ℕ) (task : ℕ) {g' : List ℕ}
    → Ascending g
    → delete_task g task ≡ some g'
    → Ascending g'
unfolding delete_task
delete_task-Ascending [] task a e = ground arith
delete_task-Ascending (x ∷ []) task a e = ground arith
delete_task-Ascending (x ∷ (y ∷ ys)) task {g'} a e =
    elim (Option-cases (delete_task (y ∷ ys) task)) [
      | inl n ↦ ground arith
      | inr (zs, n) ↦ ground (
        arith,
        delete_task-Above x (y ∷ ys) task {g' = zs} a.0 n,
        delete_task-Ascending (y ∷ ys) task {g' = zs} a.1 n,
      )
    ]

in-delete_task :
    (g : List ℕ) (task k : ℕ) {g' : List ℕ}
    → delete_task g task ≡ some g'
    → is_in_task_group g' k ≡ true
    → is_in_task_group g k ≡ true
unfolding delete_task is_in_task_group
in-delete_task [] task k e h = ground arith
in-delete_task (x ∷ []) task k e h = ground arith
in-delete_task (x ∷ (y ∷ ys)) task k {g'} e h = elim (Option-cases (delete_task (y ∷ ys) task)) [
  | inl n ↦ ground arith
  | inr (zs, n) ↦ ground (arith, in-delete_task (y ∷ ys) task k {g' = zs} n)
]

remove_task-empty : (task : ℕ) → (remove_task [] task).0 ≡ false
unfolding remove_task
remove_task-empty task = refl

remove_task-some :
    (x : ℕ) (xs : List ℕ) (task : ℕ) {g' : List ℕ}
    → delete_task (x ∷ xs) task ≡ some g'
    → remove_task (x ∷ xs) task ≡ (true, g')
unfolding remove_task
remove_task-some x xs task n = rw (n, remove_task) refl

remove_task-none :
    (x : ℕ) (xs : List ℕ) (task : ℕ)
    → delete_task (x ∷ xs) task ≡ none
    → (remove_task (x ∷ xs) task).0 ≡ false
unfolding remove_task
remove_task-none x xs task n = rw (n, remove_task) refl

deleted :
    (g : List ℕ) (task : ℕ) {g' : List ℕ}
    → Ascending g
    → remove_task g task ≡ (true, g')
    → is_in_task_group g task ≡ true
    → is_in_task_group g' task ≡ false
deleted g task {g'} a n o =
    let (d, ed, ad, md) = remove_task_lem g task a o in
    let same : d ≡ g' = ap (λ (r : Bool × List ℕ). r.1) (sym ed ∙ n) in
    rw (← same) (md task ∙ ground arith)

-- A reported removal leaves a sorted part of the group without the task.
pub remove_task-true :
    (g : List ℕ) (task : ℕ)
    → Ascending g
    → (remove_task g task).0 ≡ true
    → Ascending (remove_task g task).1
      × ((k : ℕ) → is_in_task_group (remove_task g task).1 k ≡ true → is_in_task_group g k ≡ true)
      × (is_in_task_group (remove_task g task).1 task ≡ false)
remove_task-true [] task a e = absurd (ground (arith, remove_task-empty task))
remove_task-true (x ∷ xs) task a e = elim (Option-cases (delete_task (x ∷ xs) task)) [
  | inl n ↦ absurd (ground (arith, remove_task-none x xs task n))
  | inr (g', n) ↦
      let sub = λ (k : ℕ) (h : is_in_task_group g' k ≡ true). in-delete_task (x ∷ xs) task k n h in
      rw (remove_task-some x xs task n) (
        delete_task-Ascending (x ∷ xs) task a n,
        sub,
        elim (Bool-cases (is_in_task_group (x ∷ xs) task)) [
          | inl o ↦ deleted (x ∷ xs) task a (remove_task-some x xs task n) o
          | inr o ↦ ground (arith, sub task)
        ],
      )
]
