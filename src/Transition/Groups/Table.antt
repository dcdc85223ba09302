-- ===== src/Transition/Groups/Table.antt =====
-- `getTaskGroup` and the group list.
use laik.Prelude.{
  subst, get_elem?-append_left, sym, Option-cases, inl, ap, ◌∙◌, refl, inr, ◌==◌, zero,
  get_elem?-append_right, ap₂, arith, [], Bool-cases, ◌∷◌, ◌<◌, ◌+◌, ◌++◌, true, some, ◌≡◌, suc,
  length, get_elem?, List, ℕ,
}
use laik.Transition.Groups.{same_tasks, find_group, get_task_group}

same_tasks-eq : (xs ys : List ℕ) → length xs ≡ length ys → same_tasks xs ys ≡ true → xs ≡ ys
unfolding same_tasks
same_tasks-eq [] [] h e = refl
same_tasks-eq [] (y ∷ ys) h e = absurd (omega arith)
same_tasks-eq (x ∷ xs) [] h e = absurd (omega arith)
same_tasks-eq (x ∷ xs) (y ∷ ys) h e =
    let eq : x ≡ y = ground arith in ap₂ ◌∷◌ eq (same_tasks-eq xs ys (omega arith) (ground arith))

later :
    (i : ℕ) (g : List ℕ) (gs : List (List ℕ)) (tg : List ℕ) {k : ℕ}
    → (find_group (suc i) gs tg ≡ some k → (j : ℕ) × (k ≡ suc i + j) × (get_elem? gs j ≡ some tg))
    → find_group (suc i) gs tg ≡ some k
    → (j : ℕ) × (k ≡ i + j) × (get_elem? (g ∷ gs) j ≡ some tg)
later i g gs tg ih e = let (j, ek, eg) = ih e in (suc j, omega arith, eg)

in_range : (gs : List (List ℕ)) (j : ℕ) {g : List ℕ} → get_elem? gs j ≡ some g → j < length gs
in_range [] j e = cc
in_range (x ∷ xs) zero e = omega arith
in_range (x ∷ xs) (suc j) e = omega (arith, in_range xs j e)

find_group-some :
    (i : ℕ) (gs : List (List ℕ)) (tg : List ℕ) {k : ℕ}
    → find_group i gs tg ≡ some k
    → (j : ℕ) × (k ≡ i + j) × (get_elem? gs j ≡ some tg)
unfolding find_group
find_group-some i [] tg e = cc
find_group-some i (g ∷ gs) tg {k} e = elim (Bool-cases (length tg == length g)) [
  | inr n ↦ later i g gs tg (λ e'. find_group-some (suc i) gs tg e') (ground arith)
  | inl l ↦ elim (Bool-cases (same_tasks tg g)) [
    | inl s ↦ (0, ground arith, ap some (sym (same_tasks-eq tg g (ground arith) s)))
    | inr n ↦ later i g gs tg (λ e'. find_group-some (suc i) gs tg e') (ground arith)
  ]
]

-- At the index that `getTaskGroup` returns stands the group asked for, and every old entry stands
-- where it stood.
pub get_task_group_lem :
    (gs : List (List ℕ)) (tg : List ℕ)
    → (get_elem? (get_task_group gs tg).1 (get_task_group gs tg).0 ≡ some tg)
      × ((j : ℕ) (g : List ℕ)
          → get_elem? gs j ≡ some g
          → get_elem? (get_task_group gs tg).1 j ≡ some g)
unfolding get_task_group
get_task_group_lem gs tg = elim (Option-cases (find_group 0 gs tg)) [
  | inl e ↦
      rw (e, get_task_group)
        (at_end gs, λ j g h. get_elem?-append_left gs (tg ∷ []) j (in_range gs j h) ∙ h)
  | inr (k, e) ↦
      let (j, ek, eg) = find_group-some 0 gs tg e in
      rw (e, get_task_group) (subst (λ x. get_elem? gs x ≡ some tg) (omega arith) eg, λ i g h. h)
]
  where
    at_end : (xs : List (List ℕ)) → get_elem? (xs ++ (tg ∷ [])) (length xs) ≡ some tg
    at_end xs =
        get_elem?-append_right xs (tg ∷ []) (length xs) (omega arith)
        ∙ ap (get_elem? (tg ∷ [])) {y = 0} (omega arith)
