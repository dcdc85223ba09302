-- ===== src/Transition/Groups.antt =====
-- The task groups of src/space.c: sorted lists of task ids, and the list of groups that a
-- transition refers to.
pub mod Sets
pub mod Updates
pub mod Table
pub mod Tests
use laik.Prelude.{
  ltb, ◌==◌, not, assert, ◌>>◌, ◌++◌, suc, if◌then◌else◌, [], ◌∷◌, true, some, length, false, done,
  none, Outcome, Option, Bool, List, ℕ,
}

abbrev prepend : ℕ → Option (List ℕ) → Option (List ℕ)
prepend x none = none
prepend x (some xs) = some (x ∷ xs)

-- The two loops of `addTask`; `none` if the task is in the group already.
unfoldable pub insert_task : List ℕ → ℕ → Option (List ℕ)
insert_task [] task = some (task ∷ [])
insert_task (x ∷ xs) task =
    let more = prepend x (insert_task xs task) in
    if ltb task x then some (task ∷ (x ∷ xs)) else if task == x then none else more

-- `addTask`: whether the task was added, and the group.
unfoldable pub add_task : ℕ → List ℕ → ℕ → Outcome (Bool × List ℕ)
unfolding insert_task
add_task max_tasks g task = elim (insert_task g task) [
  | none ↦ done (false, g)
  | some g' ↦ do assert (ltb (length g) max_tasks); done (true, g')
]

-- The loops of `removeTask`; `none` if it returns false. When the search reaches the end, the count
-- is decremented all the same, which drops the last task, as it does where the last task is found.
unfoldable pub delete_task : List ℕ → ℕ → Option (List ℕ)
delete_task [] task = some []
delete_task (x ∷ []) task = if ltb task x then none else some []
delete_task (x ∷ (y ∷ ys)) task =
    let more = prepend x (delete_task (y ∷ ys) task) in
    if ltb task x then none else if task == x then some (y ∷ ys) else more

-- `removeTask`: whether it reports a removal, and the group.
unfoldable pub remove_task : List ℕ → ℕ → Bool × List ℕ
unfolding delete_task
remove_task [] task = (false, [])
remove_task (x ∷ xs) task = elim (delete_task (x ∷ xs) task) [
  | none ↦ (false, x ∷ xs)
  | some g ↦ (true, g)
]

-- `isInTaskGroup`
unfoldable pub is_in_task_group : List ℕ → ℕ → Bool
is_in_task_group [] task = false
is_in_task_group (x ∷ xs) task =
    let more = is_in_task_group xs task in if task == x then true else more

-- the inner loop of `getTaskGroup`, for two groups of one length
unfoldable pub same_tasks : List ℕ → List ℕ → Bool
same_tasks [] ys = true
same_tasks (x ∷ xs) [] = true
same_tasks (x ∷ xs) (y ∷ ys) = let more = same_tasks xs ys in if not (x == y) then false else more

-- The search loop of `getTaskGroup`, from group `i` on.
unfoldable pub find_group : ℕ → List (List ℕ) → List ℕ → Option ℕ
unfolding same_tasks
find_group i [] tg = none
find_group i (g ∷ gs) tg =
    let more = find_group (suc i) gs tg in
    if not (length tg == length g) then more else if same_tasks tg g then some i else more

-- `getTaskGroup`: the index of the group, and the group list.
unfoldable pub get_task_group : List (List ℕ) → List ℕ → ℕ × List (List ℕ)
unfolding find_group
get_task_group groups tg = elim (find_group 0 groups tg) [
  | none ↦ (length groups, groups ++ (tg ∷ []))
  | some i ↦ (i, groups)
]

-- the search loop of `getTaskGroupSingle`
find_single : ℕ → List (List ℕ) → ℕ → Option ℕ
find_single i [] task = none
find_single i (g ∷ gs) task =
    let more = find_single (suc i) gs task in
    elim g [
      | [] ↦ more
      | x ∷ xs ↦ elim xs [ [] ↦ if x == task then some i else more | y ∷ ys ↦ more ]
    ]

-- `getTaskGroupSingle`
pub get_task_group_single : List (List ℕ) → ℕ → ℕ × List (List ℕ)
unfolding find_single
get_task_group_single groups task = elim (find_single 0 groups task) [
  | none ↦ (length groups, groups ++ ((task ∷ []) ∷ []))
  | some i ↦ (i, groups)
]
