-- ===== src/DependencyResolver/Marking.antt =====
-- src/scheduler/DependencyResolver.ts: the marks of `validateNoCycles`, and what one step of it does to them
use backend_task_orchestrati.Prelude.{
  if◌then◌else◌, ℕ, ◌≤◌, ◌≡◌, refl, sym, ◌∙◌, subst, true, false, not, String, List, [], ◌∷◌, ◌++◌,
  filter, arith, Bool-cases, inl, inr,
}
use backend_task_orchestrati.Prelude.Eq.{◌==◌, ==_refl, string_eq, elem}
use backend_task_orchestrati.DependencyResolver.{Graph}
use backend_task_orchestrati.DependencyResolver.Search.{
  dependency_ids, Marks, CycleCheck, passed, circular, out_of_fuel, check_each, off_stack,
}
use backend_task_orchestrati.DependencyResolver.Walks.{
  IsWalkFrom, IsGrounded, grounded, unvisited, unvisited-cons,
}

-- A walk from one of the ids that ends with a part from a job back to itself.
abbrev pub IsCycleFrom : Graph → List String → List String → Type 0
IsCycleFrom graph ids cycle =
    (root id : String) × (before mid : List String) × (elem root ids ≡ true)
    × (cycle ≡ id ∷ (mid ++ id ∷ []))
    × IsWalkFrom graph root (before ++ cycle)

-- A visited job is on the stack or grounded.
abbrev pub IsDone : Graph → Marks → Type 0
IsDone graph m =
    (v : String) → elem v m.visited ≡ true → elem v m.in_stack ≡ false → IsGrounded graph v

-- Leaving a job takes it off the stack, on which it was not before.
elem-off :
    (id v : String) (stack : List String)
    → elem v (filter (λ x. not (x == id)) stack) ≡ (if id == v then false else elem v stack)
unfolding elem filter
elem-off id v [] = ground arith
elem-off id v (x ∷ stack) = ground (
  arith,
  elem-off id v stack,
  string_eq.equal_iff x id,
  string_eq.equal_iff x v,
  string_eq.equal_iff id v,
)

elem-snoc :
    (v id : String) (path : List String) → elem v path ≡ true → elem v (path ++ id ∷ []) ≡ true
unfolding elem
elem-snoc v id [] h = absurd (ground (arith, h))
elem-snoc v id (x ∷ path) h = ground (arith, h, elem-snoc v id path)

elem-last : (id : String) (path : List String) → elem id (path ++ id ∷ []) ≡ true
unfolding elem
elem-last id [] = ground (arith, ==_refl id)
elem-last id (x ∷ path) = ground (arith, elem-last id path)

-- The marks with a job added, and those when the search leaves it.
abbrev pub enter : String → Marks → Marks
enter id m = record { visited = id ∷ m.visited; in_stack = id ∷ m.in_stack }

abbrev pub leave : String → Marks → Marks
leave id m = record m { in_stack = filter (λ x. not (x == id)) m.in_stack }

module _ (graph : Graph) (roots : List String) where
  -- What a search gives, where `P` holds of the marks that it leaves.
  abbrev pub Outcome : (Marks → Type 0) → CycleCheck → Type 0
  Outcome P (passed m) = P m
  Outcome P (circular cycle) = IsCycleFrom graph roots cycle
  Outcome P out_of_fuel = ⊥

  -- The marks after a search: the stack is as it was.
  abbrev pub After : Marks → (String → Type 0) → Marks → Type 0
  After m Seen m' =
      IsDone graph m'
      × ((v : String) → elem v m'.in_stack ≡ elem v m.in_stack)
      × (unvisited graph m'.visited ≤ unvisited graph m.visited)
      × ((v : String) → Seen v → IsGrounded graph v)

  Outcome-map :
      {P Q : Marks → Type 0} (r : CycleCheck)
      → Outcome P r
      → ((m : Marks) → P m → Q m)
      → Outcome Q r
  Outcome-map (passed m) h f = f m h
  Outcome-map (circular cycle) h f = h
  Outcome-map out_of_fuel h f = h

  Outcome-then :
      {P : Marks → Type 0} (Q : Marks → Type 0) (next : Marks → CycleCheck) (r : CycleCheck)
      → Outcome P r
      → ((m : Marks) → P m → Outcome Q (next m))
      → Outcome Q (elim r [
        | passed m ↦ next m
        | circular cycle ↦ circular cycle
        | out_of_fuel ↦ out_of_fuel
      ])
  Outcome-then Q next (passed m) h f = f m h
  Outcome-then Q next (circular cycle) h f = h
  Outcome-then Q next out_of_fuel h f = h

  -- A loop of searches, where each is right on the marks that the ones before it leave.
  pub check_each-Outcome :
      (check : String → Marks → CycleCheck) (stack : List String) (bound : ℕ) (ids : List String)
      (m : Marks)
      → ((id : String) (m' : Marks)
          → elem id ids ≡ true
          → IsDone graph m'
          → ((v : String) → elem v m'.in_stack ≡ elem v stack)
          → unvisited graph m'.visited ≤ bound
          → Outcome (After m' (λ v. v ≡ id)) (check id m'))
      → IsDone graph m
      → ((v : String) → elem v m.in_stack ≡ elem v stack)
      → unvisited graph m.visited ≤ bound
      → Outcome (After m (λ v. elem v ids ≡ true)) (check_each check ids m)
  unfolding check_each elem
  check_each-Outcome check stack bound [] m step done same room =
      (done, λ v. refl, omega arith, λ v h. absurd (ground (arith, h)))
  check_each-Outcome check stack bound (id ∷ ids) m step done same room =
      Outcome-then (After m (λ v. elem v (id ∷ ids) ≡ true)) (check_each check ids) (check id m)
        (step id m (ground (arith, ==_refl id)) done same room)
        (λ m' (done', same', room', seen).
          Outcome-map (check_each check ids m')
            (check_each-Outcome check stack bound ids m' (λ x m'' h. step x m'' (ground (arith, h)))
              done' (λ v. same' v ∙ same v) (omega (arith, room, room')))
            (λ m'' (done'', same'', room'', seen''). (
              done'',
              λ v. same'' v ∙ same' v,
              omega (arith, room', room''),
              λ v h. elim (Bool-cases (id == v)) [
                | inl is ↦ seen v (sym ((string_eq.equal_iff id v).0 is))
                | inr isnt ↦ seen'' v (ground (arith, h, isnt))
              ],
            )))

  pub off_stack-Outcome :
      {P : Marks → Type 0} (Q : Marks → Type 0) (id : String) (r : CycleCheck)
      → Outcome P r
      → ((m : Marks) → P m → Q (leave id m))
      → Outcome Q (off_stack id r)
  off_stack-Outcome Q id (passed m) h f = f m h
  off_stack-Outcome Q id (circular cycle) h f = h
  off_stack-Outcome Q id out_of_fuel h f = h

  pub IsDone-enter : (id : String) (m : Marks) → IsDone graph m → IsDone graph (enter id m)
  unfolding elem
  IsDone-enter id m done v old off = done v (ground (arith, old, off)) (ground (arith, old, off))

  pub on_path-enter :
      (id v : String) (stack path : List String)
      → (elem v stack ≡ true → elem v path ≡ true)
      → elem v (id ∷ stack) ≡ true
      → elem v (path ++ id ∷ []) ≡ true
  unfolding elem
  on_path-enter id v stack path h on = elim (Bool-cases (id == v)) [
    | inl is ↦
        subst (λ x. elem x (path ++ id ∷ []) ≡ true) ((string_eq.equal_iff id v).0 is)
          (elem-last id path)
    | inr isnt ↦ elem-snoc v id path (h (ground (arith, isnt, on)))
  ]

  pub After-leave :
      (id : String) (m m' : Marks)
      → elem id m.in_stack ≡ false
      → After (enter id m) (λ v. elem v (dependency_ids id graph) ≡ true) m'
      → After m (λ v. v ≡ id) (leave id m')
  unfolding elem
  After-leave id m m' off (done, same, room, seen) =
      let this : IsGrounded graph id = grounded seen in
      (
        λ v old gone. elim (Bool-cases (id == v)) [
          | inl is ↦ subst (IsGrounded graph) ((string_eq.equal_iff id v).0 is) this
          | inr isnt ↦ done v old (ground (arith, isnt, gone, elem-off id v m'.in_stack))
        ],
        λ v. elim (Bool-cases (id == v)) [
          | inl is ↦
              ground (arith, is, (string_eq.equal_iff id v).0 is, elem-off id v m'.in_stack, off)
          | inr isnt ↦ ground (arith, isnt, elem-off id v m'.in_stack, same v)
        ],
        omega (arith, room, unvisited-cons graph id m.visited),
        λ v is. subst (IsGrounded graph) (sym is) this,
      )
