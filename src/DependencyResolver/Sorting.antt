-- ===== src/DependencyResolver/Sorting.antt =====
-- src/scheduler/DependencyResolver.ts: the marks and the output of `topologicalSort`
use backend_task_orchestrati.Prelude.{
  ℕ, ◌≤◌, ◌≡◌, ◌⊎◌, refl, true, false, String, Option, some, List, [], ◌∷◌, ◌++◌, arith, Bool-cases,
  inl, inr,
}
use backend_task_orchestrati.Prelude.Eq.{◌==◌, ==_refl, string_eq, elem}
use backend_task_orchestrati.Prelude.Keys.{IsUnique}
use backend_task_orchestrati.DependencyResolver.{Graph}
use backend_task_orchestrati.DependencyResolver.Search.{Sorting, visit_each}
use backend_task_orchestrati.DependencyResolver.Walks.{DependsOn, Reaches, unvisited}

-- Each job of the list comes after its dependencies, of which some are seen before the list.
abbrev pub IsInOrder : Graph → List String → List String → Type 0
IsInOrder graph seen [] = Unit
IsInOrder graph seen (id ∷ ids) =
    ((dep : String) → DependsOn graph id dep → elem dep seen ≡ true)
    × IsInOrder graph (id ∷ seen) ids

-- A walk from one of the ids leads to the job.
abbrev pub IsReached : Graph → List String → String → Type 0
IsReached graph ids v = (id : String) × (elem id ids ≡ true) × Reaches graph id v

IsReached-mono :
    (graph : Graph) (ids more : List String)
    → ((a : String) → elem a ids ≡ true → elem a more ≡ true)
    → (v : String) → IsReached graph ids v
    → IsReached graph more v
IsReached-mono graph ids more sub v (a, is, r) = (a, sub a is, r)

pub IsInOrder-snoc :
    (graph : Graph) (seen ids : List String) (id : String)
    → IsInOrder graph seen ids
    → ((dep : String) → DependsOn graph id dep → (elem dep ids ≡ true) ⊎ (elem dep seen ≡ true))
    → IsInOrder graph seen (ids ++ id ∷ [])
unfolding elem
IsInOrder-snoc graph seen [] id order met = (λ dep edge. ground (arith, met dep edge), tt)
IsInOrder-snoc graph seen (x ∷ ids) id order met = (
  order.0,
  IsInOrder-snoc graph (x ∷ seen) ids id order.1 (λ dep edge. ground (arith, met dep edge)),
)

module _ (graph : Graph) where
  -- The output has no job twice, each after its dependencies, and only visited ones.
  abbrev pub IsSound : Sorting → Type 0
  IsSound s =
      IsUnique s.sorted
      × IsInOrder graph [] s.sorted
      × ((v : String) → elem v s.sorted ≡ true → elem v s.visited ≡ true)

  -- From the marks before the ids are visited to those after.
  abbrev pub Step : List String → Sorting → Sorting → Type 0
  Step ids s s' =
      IsSound s'
      × ((v : String) → elem v s.sorted ≡ true → elem v s'.sorted ≡ true)
      × ((v : String) → elem v s.visited ≡ true → elem v s'.visited ≡ true)
      × ((v : String)
          → elem v s'.visited ≡ true
          → (elem v s.visited ≡ true) ⊎ (elem v s'.sorted ≡ true))
      × ((v : String)
          → elem v s'.sorted ≡ true
          → (elem v s.sorted ≡ true) ⊎ ((elem v s.visited ≡ false) × IsReached graph ids v))
      × (unvisited graph s'.visited ≤ unvisited graph s.visited)
      × ((v : String) → elem v ids ≡ true → elem v s'.sorted ≡ true)

  -- A visited job is in the output, or one of those that are being visited.
  abbrev pub IsOpen : (String → Type 0) → Sorting → Type 0
  IsOpen Open s = (v : String) → elem v s.visited ≡ true → (elem v s.sorted ≡ true) ⊎ Open v

  pub Step-IsOpen :
      {Open : String → Type 0} (ids : List String) (s s' : Sorting)
      → Step ids s s'
      → IsOpen Open s
      → IsOpen Open s'
  Step-IsOpen ids s s' step inside v old = elim (step.3 v old) [
    | inl before ↦ elim (inside v before) [ inl h ↦ inl (step.1 v h) | inr h ↦ inr h ]
    | inr h ↦ inl h
  ]

  Step-here : (s : Sorting) → IsSound s → Step [] s s
  unfolding elem
  Step-here s sound = (
    sound,
    λ v h. h,
    λ v h. h,
    λ v h. inl h,
    λ v h. inl h,
    omega arith,
    λ v h. absurd (ground (arith, h)),
  )

  Step-cons :
      (id : String) (ids : List String) (s s' s'' : Sorting)
      → Step (id ∷ []) s s'
      → Step ids s' s''
      → Step (id ∷ ids) s s''
  unfolding elem
  Step-cons id ids s s' s'' one rest = (
    rest.0,
    λ v h. rest.1 v (one.1 v h),
    λ v h. rest.2 v (one.2 v h),
    λ v h. elim (rest.3 v h) [
      | inr now ↦ inr now
      | inl before ↦ elim (one.3 v before) [ inl h' ↦ inl h' | inr h' ↦ inr (rest.1 v h') ]
    ],
    λ v h. elim (rest.4 v h) [
      | inl before ↦ elim (one.4 v before) [
        | inl h' ↦ inl h'
        | inr (new, r) ↦
            inr (new, IsReached-mono graph (id ∷ []) (id ∷ ids) (λ a is. ground (arith, is)) v r)
      ]
      | inr (new, r) ↦ inr (
        ground (arith, new, one.2 v),
        IsReached-mono graph ids (id ∷ ids) (λ a is. ground (arith, is)) v r,
      )
    ],
    omega (arith, one.5, rest.5),
    λ v h. elim (Bool-cases (id == v)) [
      | inl is ↦ rest.1 v (one.6 v (ground (arith, is)))
      | inr isnt ↦ rest.6 v (ground (arith, isnt, h))
    ],
  )

  -- A loop of visits, each right on the marks that the ones before it leave.
  pub visit_each-Step :
      (Open : String → Type 0) (go : String → Sorting → Option Sorting) (bound : ℕ)
      (ids : List String) (s : Sorting)
      → ((id : String) (s' : Sorting)
          → elem id ids ≡ true
          → IsSound s'
          → IsOpen Open s'
          → unvisited graph s'.visited ≤ bound
          → (s'' : Sorting) × (go id s' ≡ some s'') × Step (id ∷ []) s' s'')
      → IsSound s
      → IsOpen Open s
      → unvisited graph s.visited ≤ bound
      → (s' : Sorting) × (visit_each go ids s ≡ some s') × Step ids s s'
  unfolding visit_each elem
  visit_each-Step Open go bound [] s right sound inside room = (s, refl, Step-here s sound)
  visit_each-Step Open go bound (id ∷ ids) s right sound inside room =
      let (s', ran, one) = right id s (ground (arith, ==_refl id)) sound inside room in
      let (s'', ran', rest) =
        visit_each-Step Open go bound ids s' (λ x t h. right x t (ground (arith, h))) one.0
          (Step-IsOpen (id ∷ []) s s' one inside) (omega (arith, room, one.5)) in
      (s'', rw (ran, visit_each) ran', Step-cons id ids s s' s'' one rest)
