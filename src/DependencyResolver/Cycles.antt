-- ===== src/DependencyResolver/Cycles.antt =====
-- src/scheduler/DependencyResolver.ts: what `validateNoCycles` decides
use mathlib.Core.List.{append_assoc}
use backend_task_orchestrati.Prelude.{
  ℕ, zero, suc, ◌+◌, ◌<◌, ◌≤◌, ◌≡◌, refl, sym, ap, ◌∙◌, subst, true, false, String, List, [], ◌∷◌,
  ◌++◌, length, arith, Bool-cases, inl, inr,
}
use backend_task_orchestrati.Prelude.Eq.{string_eq, elem}
use backend_task_orchestrati.DependencyResolver.{Graph}
use backend_task_orchestrati.DependencyResolver.Search.{
  dependency_ids, Marks, CycleCheck, passed, circular, out_of_fuel, cycle_part, check_each, dfs,
  check_root, validate_no_cycles,
}
use backend_task_orchestrati.DependencyResolver.Walks.{
  IsWalkFrom, IsGrounded, IsWalk-concat, from_first_lem, unvisited, unvisited-lt, unvisited-le,
}
use backend_task_orchestrati.DependencyResolver.Marking.{
  IsCycleFrom, IsDone, Outcome, After, enter, check_each-Outcome, off_stack-Outcome, IsDone-enter,
  on_path-enter, After-leave,
}

module _ (graph : Graph) (roots : List String) where
  cycle_part-IsCycleFrom :
      (root id : String) (path : List String)
      → elem root roots ≡ true
      → IsWalkFrom graph root (path ++ id ∷ [])
      → elem id path ≡ true
      → IsCycleFrom graph roots (cycle_part id path ++ id ∷ [])
  unfolding cycle_part
  cycle_part-IsCycleFrom root id path at_root walk on =
      let (front, rest, split, found) = from_first_lem id path on in
      let whole : path ++ id ∷ [] ≡ front ++ (id ∷ rest ++ id ∷ []) =
        ap (λ l. l ++ id ∷ []) split ∙ append_assoc front (id ∷ rest) (id ∷ []) in
      rw (on, found)
        (root, id, front, rest, at_root, refl, subst (IsWalkFrom graph root) whole walk)

  dfs-Outcome :
      (fuel : ℕ) (root id : String) (path : List String) (m : Marks)
      → unvisited graph m.visited < fuel
      → elem root roots ≡ true
      → IsWalkFrom graph root (path ++ id ∷ [])
      → ((v : String) → elem v m.in_stack ≡ true → elem v path ≡ true)
      → IsDone graph m
      → Outcome graph roots (After graph roots m (λ v. v ≡ id)) (dfs fuel graph id path m)
  unfolding dfs
  dfs-Outcome zero root id path m room at_root walk on_path done = absurd (omega (arith, room))
  dfs-Outcome (suc fuel) root id path m room at_root walk on_path done =
      elim (Bool-cases (elem id m.in_stack)) [
        | inl again ↦ rw again (cycle_part-IsCycleFrom root id path at_root walk (on_path id again))
        | inr off ↦ elim (Bool-cases (elem id m.visited)) [
          | inl old ↦
              rw (off, old)
                (
                  done,
                  λ v. refl,
                  omega arith,
                  λ v is. subst (IsGrounded graph) (sym is) (done id old off),
                )
          | inr new ↦
              rw (off, new)
                (off_stack-Outcome graph roots (After graph roots m (λ v. v ≡ id)) id _
                  (check_each-Outcome graph roots
                    (λ dep m'. dfs fuel graph dep (path ++ id ∷ []) m') (id ∷ m.in_stack)
                    (unvisited graph (id ∷ m.visited)) (dependency_ids id graph) (enter id m)
                    (λ dep m' edge done' same' room'.
                      dfs-Outcome fuel root dep (path ++ id ∷ []) m'
                        (omega (arith, room, room', unvisited-lt graph id m.visited new dep edge))
                        at_root (IsWalk-concat graph root id dep path walk edge)
                        (λ v on.
                          on_path-enter graph roots id v m.in_stack path (on_path v)
                            (sym (same' v) ∙ on))
                        done')
                    (IsDone-enter graph roots id m done) (λ v. refl) (omega arith))
                  (λ m' p. After-leave graph roots id m m' off p))
        ]
      ]

  check_root-Outcome :
      (id : String) (m : Marks)
      → elem id roots ≡ true
      → IsDone graph m
      → ((v : String) → elem v m.in_stack ≡ false)
      → unvisited graph m.visited ≤ length graph
      → Outcome graph roots
          (After graph roots m (λ v. v ≡ id))
          (check_root (length graph + 1) graph id m)
  unfolding check_root
  check_root-Outcome id m at_root done empty room = elim (Bool-cases (elem id m.visited)) [
    | inl old ↦ rw old (
      done,
      λ v. refl,
      omega arith,
      λ v is. subst (IsGrounded graph) (sym is) (done id old (empty id)),
    )
    | inr new ↦ rw new (
        dfs-Outcome (length graph + 1) id id [] m (omega (arith, room)) at_root (refl, tt)
          (λ v on. absurd (ground (arith, on, empty v))) done)
  ]

-- What the validation says of the ids: that every walk from them ends, or a walk from one of them
-- into a cycle. It never runs out of fuel.
abbrev pub Verdict : Graph → List String → CycleCheck → Type 0
Verdict graph ids (passed m) = (id : String) → elem id ids ≡ true → IsGrounded graph id
Verdict graph ids (circular cycle) = IsCycleFrom graph ids cycle
Verdict graph ids out_of_fuel = ⊥

-- The validation ends within its fuel. If it passes, every walk along dependencies from the ids ends;
-- if it throws, the cycle in its error starts and ends with the same job, consists of dependencies,
-- and is reached by a walk from one of the ids.
pub validate_no_cycles_correct :
    (graph : Graph) (ids : List String) → Verdict graph ids (validate_no_cycles ids graph)
unfolding validate_no_cycles elem
validate_no_cycles_correct graph ids =
    go
      (check_each (check_root (length graph + 1) graph) ids
        (record { visited = []; in_stack = [] }))
      (check_each-Outcome graph ids (check_root (length graph + 1) graph) [] (length graph) ids _
        (λ id m at_root done same room. check_root-Outcome graph ids id m at_root done same room)
        (λ v old. absurd (ground (arith, old))) (λ v. refl) (unvisited-le graph []))
  where
    go :
        (r : CycleCheck)
        → Outcome graph ids
            (After graph ids (record { visited = []; in_stack = [] }) (λ v. elem v ids ≡ true))
            r
        → Verdict graph ids r
    go (passed m) (done, same, room, seen) = seen
    go (circular cycle) found = found
    go out_of_fuel e = e
