-- ===== src/DependencyResolver/Order.antt =====
-- src/scheduler/DependencyResolver.ts: the order that `topologicalSort` returns
use backend_task_orchestrati.Prelude.{
  ℕ, zero, suc, ◌+◌, ◌<◌, ◌≡◌, ◌⊎◌, ◌↔◌, refl, sym, subst, true, false, String, some, List, [], ◌∷◌,
  ◌++◌, arith, Bool-cases, inl, inr, length, concat-perm,
}
use mathlib.Core.List.Perm
use backend_task_orchestrati.Prelude.Eq.{◌==◌, ==_refl, string_eq, elem}
use backend_task_orchestrati.Prelude.Keys.{IsUnique, IsUnique-perm, elem-perm}
use backend_task_orchestrati.DependencyResolver.{Graph}
use backend_task_orchestrati.DependencyResolver.Search.{
  dependency_ids, Sorting, visit, topological_sort, Marks, passed, validate_no_cycles,
}
use backend_task_orchestrati.DependencyResolver.Walks.{
  DependsOn, Reaches, here, along, Reaches-step, Reaches-IsGrounded, IsGrounded, IsGrounded-step,
  not-IsGrounded, unvisited, unvisited-lt, unvisited-cons, unvisited-le,
}
use backend_task_orchestrati.DependencyResolver.Cycles.{Verdict, validate_no_cycles_correct}
use backend_task_orchestrati.DependencyResolver.Sorting.{
  IsInOrder, IsReached, IsInOrder-snoc, IsSound, Step, IsOpen, visit_each-Step,
}

elem-snoc : (v id : String) (ids : List String) → elem v (ids ++ id ∷ []) ≡ elem v (id ∷ ids)
elem-snoc v id ids = elem-perm v (concat-perm ids id)

snoc-cases :
    (v id : String) (ids : List String)
    → elem v (ids ++ id ∷ []) ≡ true
    → (v ≡ id) ⊎ (elem v ids ≡ true)
unfolding elem
snoc-cases v id ids h = elim (Bool-cases (id == v)) [
  | inl is ↦ inl (sym ((string_eq.equal_iff id v).0 is))
  | inr isnt ↦ inr (ground (arith, isnt, elem-snoc v id ids, h))
]

module _ (graph : Graph) where
  abbrev start : String → Sorting → Sorting
  start id s = record s { visited = id ∷ s.visited }

  abbrev finish : String → Sorting → Sorting
  finish id s = record s { sorted = s.sorted ++ id ∷ [] }

  IsSound-start : (id : String) (s : Sorting) → IsSound graph s → IsSound graph (start id s)
  unfolding elem
  IsSound-start id s sound = (sound.0, sound.1, λ v h. ground (arith, sound.2 v h))

  Step-old :
      (id : String) (s : Sorting)
      → IsSound graph s
      → elem id s.sorted ≡ true
      → Step graph (id ∷ []) s s
  unfolding elem
  Step-old id s sound old = (
    sound,
    λ v h. h,
    λ v h. h,
    λ v h. inl h,
    λ v h. inl h,
    omega arith,
    λ v h.
        subst (λ x. elem x s.sorted ≡ true) ((string_eq.equal_iff id v).0 (ground (arith, h))) old,
  )

  Step-finish :
      (id : String) (s s' : Sorting)
      → elem id s.visited ≡ false
      → IsSound graph s
      → Step graph (dependency_ids id graph) (start id s) s'
      → Step graph (id ∷ []) s (finish id s')
  unfolding elem
  Step-finish id s s' new sound step =
      let fresh : elem id s'.sorted ≡ false = elim (Bool-cases (elem id s'.sorted)) [
        | inr out ↦ out
        | inl inn ↦ elim (step.4 id inn) [
          | inl before ↦ absurd (ground (arith, new, sound.2 id before))
          | inr (absent, r) ↦ absurd (ground (arith, absent, ==_refl id))
        ]
      ] in
      (
        (
          IsUnique-perm (Perm.symm (concat-perm s'.sorted id)) (fresh, step.0.0),
          IsInOrder-snoc graph [] s'.sorted id step.0.1 (λ dep edge. inl (step.6 dep edge)),
          λ v h. elim (snoc-cases v id s'.sorted h) [
            | inl is ↦ step.2 v (ground (arith, is, ==_refl id))
            | inr before ↦ step.0.2 v before
          ],
        ),
        λ v h. ground (arith, elem-snoc v id s'.sorted, step.1 v h),
        λ v h. step.2 v (ground (arith, h)),
        λ v h. elim (step.3 v h) [
          | inl before ↦ elim (Bool-cases (id == v)) [
            | inl is ↦ inr (ground (arith, is, elem-snoc v id s'.sorted))
            | inr isnt ↦ inl (ground (arith, isnt, before))
          ]
          | inr now ↦ inr (ground (arith, now, elem-snoc v id s'.sorted))
        ],
        λ v h. elim (snoc-cases v id s'.sorted h) [
          | inl is ↦ inr (rw is (new, (id, ground (arith, ==_refl id), here)))
          | inr now ↦ elim (step.4 v now) [
            | inl before ↦ inl before
            | inr (absent, (dep, edge, r)) ↦
                inr (ground (arith, absent), (id, ground (arith, ==_refl id), along edge r))
          ]
        ],
        omega (arith, step.5, unvisited-cons graph id s.visited),
        λ v h. ground (arith, elem-snoc v id s'.sorted, h),
      )

  -- The open jobs are those from which a walk of one step or more leads to the job.
  abbrev IsAbove : String → String → Type 0
  IsAbove id v = (parent : String) × Reaches graph v parent × DependsOn graph parent id

  not-IsAbove : (id : String) → IsGrounded graph id → IsAbove id id → ⊥
  not-IsAbove id g (parent, r, edge) = not-IsGrounded id (Reaches-IsGrounded g r) edge r

  IsOpen-start :
      (Open : String → Type 0) (id : String) (s : Sorting)
      → ((v : String) → Open v → IsAbove id v)
      → IsOpen graph Open s
      → IsOpen graph (λ v. Reaches graph v id) (start id s)
  unfolding elem
  IsOpen-start Open id s above inside v old = elim (Bool-cases (id == v)) [
    | inl is ↦ inr (subst (λ x. Reaches graph x id) ((string_eq.equal_iff id v).0 is) here)
    | inr isnt ↦ elim (inside v (ground (arith, isnt, old))) [
      | inl h ↦ inl h
      | inr at ↦ let (parent, r, edge) = above v at in inr (Reaches-step r edge)
    ]
  ]

  visit-Step :
      (fuel : ℕ) (Open : String → Type 0) (id : String) (s : Sorting)
      → ((v : String) → Open v → IsAbove id v)
      → IsGrounded graph id
      → IsSound graph s
      → IsOpen graph Open s
      → unvisited graph s.visited < fuel
      → (s' : Sorting) × (visit fuel graph id s ≡ some s') × Step graph (id ∷ []) s s'
  unfolding visit
  visit-Step zero Open id s above g sound inside room = absurd (omega (arith, room))
  visit-Step (suc fuel) Open id s above g sound inside room =
      elim (Bool-cases (elem id s.visited)) [
        | inl old ↦ elim (inside id old) [
          | inl done ↦ rw old (s, refl, Step-old id s sound done)
          | inr at ↦ absurd (not-IsAbove id g (above id at))
        ]
        | inr new ↦
            let (s', ran, step) =
              visit_each-Step graph (λ v. Reaches graph v id) (visit fuel graph)
                (unvisited graph (id ∷ s.visited)) (dependency_ids id graph) (start id s)
                (λ dep t edge sound' inside' room'.
                  visit-Step fuel (λ v. Reaches graph v id) dep t (λ v r. (id, r, edge))
                    (IsGrounded-step dep g edge) sound' inside'
                    (omega (arith, room, room', unvisited-lt graph id s.visited new dep edge)))
                (IsSound-start id s sound) (IsOpen-start Open id s above inside) (omega arith) in
            rw (new, ran) (finish id s', refl, Step-finish id s s' new sound step)
      ]

  IsInOrder-closed :
      (seen ids : List String) (v w : String)
      → IsInOrder graph seen ids
      → elem v ids ≡ true
      → DependsOn graph v w
      → (elem w seen ≡ true) ⊎ (elem w ids ≡ true)
  unfolding elem
  IsInOrder-closed seen [] v w order on edge = absurd (ground (arith, on))
  IsInOrder-closed seen (id ∷ ids) v w order on edge = elim (Bool-cases (id == v)) [
    | inl is ↦
        inl (
          order.0 w (subst (λ x. DependsOn graph x w) (sym ((string_eq.equal_iff id v).0 is)) edge))
    | inr isnt ↦
        elim (IsInOrder-closed (id ∷ seen) ids v w order.1 (ground (arith, isnt, on)) edge) [
          | inl h ↦ ground (arith, h)
          | inr h ↦ inr (ground (arith, h))
        ]
  ]

  Reaches-closed :
      (ids : List String) (v w : String)
      → IsInOrder graph [] ids
      → elem v ids ≡ true
      → Reaches graph v w
      → elem w ids ≡ true
  unfolding elem
  Reaches-closed ids v w order on here = on
  Reaches-closed ids v w order on (along {b} edge r) =
      Reaches-closed ids b w order (ground (arith, IsInOrder-closed [] ids v b order on edge)) r

-- Where the validation passes, the sort ends within its fuel. Its result has no job twice, each job
-- after its dependencies, and exactly the jobs to which a walk along dependencies leads from the ids.
pub topological_sort_correct :
    (graph : Graph) (ids : List String) (m : Marks)
    → validate_no_cycles ids graph ≡ passed m
    → (sorted : List String) × (topological_sort ids graph ≡ some sorted)
      × IsUnique sorted
      × IsInOrder graph [] sorted
      × ((v : String) → (elem v sorted ≡ true) ↔ IsReached graph ids v)
unfolding topological_sort elem
topological_sort_correct graph ids m valid =
    let safe : (id : String) → elem id ids ≡ true → IsGrounded graph id =
      subst (Verdict graph ids) valid (validate_no_cycles_correct graph ids) in
    let (s, ran, step) =
      visit_each-Step graph (λ v. ⊥) (visit (length graph + 1) graph) (length graph) ids
        (record { sorted = []; visited = [] })
        (λ id s at sound inside room.
          visit-Step graph (length graph + 1) (λ v. ⊥) id s (λ v e. absurd e) (safe id at) sound
            inside (omega (arith, room)))
        (tt, tt, λ v h. absurd (ground (arith, h))) (λ v h. absurd (ground (arith, h)))
        (unvisited-le graph []) in
    (
      s.sorted,
      rw (ran, topological_sort) refl,
      step.0.0,
      step.0.1,
      λ v. (
        λ on. elim (step.4 v on) [ inl h ↦ absurd (ground (arith, h)) | inr (new, r) ↦ r ],
        λ (id, at, r). Reaches-closed graph s.sorted id v step.0.1 (step.6 id at) r,
      ),
    )
