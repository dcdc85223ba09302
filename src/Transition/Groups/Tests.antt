-- ===== src/Transition/Groups/Tests.antt =====
-- Instances of the theorems on task groups.
use laik.Prelude.{
  refl, ◌||◌, ◌==◌, some, not, arith, ◌&&◌, done, [], ◌∷◌, ℕ, true, ◌≡◌, get_elem?, List,
}
use laik.Transition.Groups.{add_task, remove_task, is_in_task_group, get_task_group}
use laik.Transition.Groups.Sets.{Ascending, add_task_lem, remove_task_lem, remove_task_missing}
use laik.Transition.Groups.Table.{get_task_group_lem}

abbrev odd_tasks : List ℕ
odd_tasks = 1 ∷ 3 ∷ 5 ∷ []

add_task_lem_example :
    (g' : List ℕ) × (add_task 8 odd_tasks 4 ≡ done (not (is_in_task_group odd_tasks 4), g'))
    × Ascending g'
    × ((k : ℕ) → is_in_task_group g' k ≡ (is_in_task_group odd_tasks k || k == 4))
add_task_lem_example = add_task_lem 8 odd_tasks 4 (ground arith) (omega arith)

remove_task_lem_example :
    (g' : List ℕ) × (remove_task odd_tasks 3 ≡ (true, g'))
    × Ascending g'
    × ((k : ℕ) → is_in_task_group g' k ≡ (is_in_task_group odd_tasks k && not (k == 3)))
unfolding is_in_task_group
remove_task_lem_example = remove_task_lem odd_tasks 3 (ground arith) refl

remove_task_missing_example : remove_task odd_tasks 7 ≡ (true, 1 ∷ 3 ∷ [])
remove_task_missing_example = remove_task_missing 1 (3 ∷ 5 ∷ []) 7 (ground arith)

get_task_group_lem_example :
    (get_elem?
        (get_task_group (odd_tasks ∷ []) (2 ∷ [])).1
        (get_task_group (odd_tasks ∷ []) (2 ∷ [])).0
      ≡ some (2 ∷ []))
    × ((j : ℕ) (g : List ℕ)
        → get_elem? (odd_tasks ∷ []) j ≡ some g
        → get_elem? (get_task_group (odd_tasks ∷ []) (2 ∷ [])).1 j ≡ some g)
get_task_group_lem_example = get_task_group_lem (odd_tasks ∷ []) (2 ∷ [])
