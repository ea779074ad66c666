-- ===== src/DependencyResolver/Rings.antt =====
-- src/scheduler/DependencyResolver.ts: what `validateNoCycles` finds in a graph that `register` built
use mathlib.Core.Bool.{false≢true}
use backend_task_orchestrati.Prelude.{
  ◌≡◌, refl, sym, ◌∙◌, ◌⊎◌, subst, Bool, true, false, String, List, [], ◌∷◌, ◌++◌, map,
  if◌then◌else◌, arith, Bool-cases, Option-cases, inl, inr, All,
}
use backend_task_orchestrati.Prelude.Eq.{◌==◌, string_eq, elem}
use backend_task_orchestrati.Prelude.Maps.{lookup, has, lookup-modify}
use backend_task_orchestrati.Models.Job.{Job, JobDependency}
use backend_task_orchestrati.DependencyResolver.{
  Graph, new_node, placeholder, ensure, add_dependent, wire, wire_all, register,
}
use backend_task_orchestrati.DependencyResolver.Register.{
  lookup-ensure, IsWired, IsKept, register_correct,
}
use backend_task_orchestrati.DependencyResolver.Search.{
  dependency_ids, Marks, CycleCheck, passed, circular, out_of_fuel, validate_no_cycles,
}
use backend_task_orchestrati.DependencyResolver.Walks.{
  DependsOn, IsWalk, IsWalkFrom, IsGrounded, grounded, Reaches, here, along, Reaches-IsGrounded,
  not-IsGrounded,
}
use backend_task_orchestrati.DependencyResolver.Marking.{IsCycleFrom}
use backend_task_orchestrati.DependencyResolver.Cycles.{Verdict, validate_no_cycles_correct}

IsWalk-Reaches :
    (graph : Graph) (a b : String) (front rest : List String)
    → IsWalk graph a (front ++ b ∷ rest)
    → (next : String) × DependsOn graph a next × Reaches graph next b × IsWalk graph b rest
IsWalk-Reaches graph a b [] rest (edge, walk) = (b, edge, here, walk)
IsWalk-Reaches graph a b (x ∷ front) rest (edge, walk) =
    let (next, edge', r, walk') = IsWalk-Reaches graph x b front rest walk in
    (x, edge, along edge' r, walk')

-- There is no cycle to which a walk from grounded jobs leads.
not-IsCycleFrom :
    (graph : Graph) (ids cycle : List String)
    → ((id : String) → elem id ids ≡ true → IsGrounded graph id)
    → IsCycleFrom graph ids cycle
    → ⊥
not-IsCycleFrom graph ids cycle safe (root, id, front, mid, at_root, shape, walk) =
    go front (safe root at_root) (rw shape at walk)
  where
    turn : IsGrounded graph id → IsWalk graph id (mid ++ id ∷ []) → ⊥
    turn g around =
        let (next, edge, r, end) = IsWalk-Reaches graph id id mid [] around in
        not-IsGrounded next g edge r

    go :
        (front : List String)
        → IsGrounded graph root
        → IsWalkFrom graph root (front ++ id ∷ (mid ++ id ∷ []))
        → ⊥
    go [] g (start, around) = turn (subst (IsGrounded graph) start g) around
    go (x ∷ front) g (start, walk') =
        let (next, edge, r, around) = IsWalk-Reaches graph x id front (mid ++ id ∷ []) walk' in
        turn (Reaches-IsGrounded (subst (IsGrounded graph) start g) (along edge r)) around

pub passes_of_grounded :
    (graph : Graph) (ids : List String)
    → ((id : String) → elem id ids ≡ true → IsGrounded graph id)
    → (m : Marks) × (validate_no_cycles ids graph ≡ passed m)
passes_of_grounded graph ids safe = go (validate_no_cycles ids graph) refl
  where
    go :
        (r : CycleCheck)
        → validate_no_cycles ids graph ≡ r
        → (m : Marks) × (validate_no_cycles ids graph ≡ passed m)
    go (passed m) e = (m, e)
    go (circular cycle) e = absurd (
        not-IsCycleFrom graph ids cycle safe
          (subst (Verdict graph ids) e (validate_no_cycles_correct graph ids)))
    go out_of_fuel e = absurd (subst (Verdict graph ids) e (validate_no_cycles_correct graph ids))

dependency_ids-wire :
    (id v : String) (dep : JobDependency) (graph : Graph)
    → dependency_ids v (wire id dep graph) ≡ dependency_ids v graph
unfolding dependency_ids wire
dependency_ids-wire id v dep graph = ground (
  arith,
  lookup-modify dep.job_id v (add_dependent id) (ensure dep.job_id (placeholder dep.job_id) graph),
  lookup-ensure dep.job_id v (placeholder dep.job_id) graph,
  string_eq.equal_iff dep.job_id v,
)

dependency_ids-wire_all :
    (id v : String) (deps : List JobDependency) (graph : Graph)
    → dependency_ids v (wire_all id deps graph) ≡ dependency_ids v graph
unfolding wire_all
dependency_ids-wire_all id v [] graph = refl
dependency_ids-wire_all id v (dep ∷ deps) graph =
    dependency_ids-wire_all id v deps (wire id dep graph) ∙ dependency_ids-wire id v dep graph

-- A job that has a node keeps it; another gets one with its dependencies.
dependency_ids-register :
    (job : Job) (v : String) (graph : Graph)
    → dependency_ids v (register job graph) ≡ (
        if has job.id graph
        then dependency_ids v graph
        else if job.id == v
        then map (λ d. d.job_id) job.dependencies
        else dependency_ids v graph)
unfolding dependency_ids register
dependency_ids-register job v graph =
    dependency_ids-wire_all job.id v job.dependencies (ensure job.id (new_node job) graph)
    ∙ ground (arith, lookup-ensure job.id v (new_node job) graph)

-- Every dependency of a node has a node.
abbrev IsClosed : Graph → Type 0
IsClosed graph = (a b : String) → DependsOn graph a b → has b graph ≡ true

-- A job that depends on itself is listed among its own dependencies.
abbrev pub is_own_dependency : Job → Bool
is_own_dependency job = elem job.id (map (λ d. d.job_id) job.dependencies)

has-IsKept :
    (v : String) (before after : Graph)
    → IsKept v before after
    → has v before ≡ true
    → has v after ≡ true
has-IsKept v before after kept h = elim (Option-cases (lookup v before)) [
  | inl absent ↦ absurd (ground (arith, absent, h))
  | inr (node, found) ↦ let (node', found', deps, flag) = kept node found in rw found' refl
]

has-wired :
    (id d : String) (deps : List JobDependency) (graph : Graph)
    → All (λ dep. IsWired id dep.job_id graph) deps
    → elem d (map (λ dep. dep.job_id) deps) ≡ true
    → has d graph ≡ true
unfolding elem
has-wired id d [] graph wired h = absurd (ground (arith, h))
has-wired id d (dep ∷ deps) graph ((node, found, listed), wired) h =
    elim (Bool-cases (dep.job_id == d)) [
      | inl is ↦
          subst (λ x. has x graph ≡ true) ((string_eq.equal_iff dep.job_id d).0 is) (rw found refl)
      | inr isnt ↦ has-wired id d deps graph wired (ground (arith, isnt, h))
    ]

-- What the dependencies of a job are after another is registered.
edge-register :
    (job : Job) (a b : String) (graph : Graph)
    → DependsOn (register job graph) a b
    → (DependsOn graph a b)
      ⊎ ((has job.id graph ≡ false)
          × (a ≡ job.id)
          × (elem b (map (λ d. d.job_id) job.dependencies) ≡ true))
edge-register job a b graph edge =
    ground (arith, dependency_ids-register job a graph, edge, string_eq.equal_iff job.id a)

IsClosed-register : (job : Job) (graph : Graph) → IsClosed graph → IsClosed (register job graph)
IsClosed-register job graph closed a b edge =
    let after = register_correct job graph in
    elim (edge-register job a b graph edge) [
      | inl old ↦ has-IsKept b graph (register job graph) (after.kept b) (closed a b old)
      | inr (absent, is, new) ↦
          has-wired job.id b job.dependencies (register job graph) after.wired new
    ]

-- A job stays grounded unless it is the one that gets a node now.
IsGrounded-keep :
    (job : Job) (graph : Graph) (a : String)
    → IsClosed graph
    → IsGrounded graph a
    → (a ≡ job.id → has job.id graph ≡ true)
    → IsGrounded (register job graph) a
IsGrounded-keep job graph a closed (grounded below) there = grounded (λ b edge.
    elim (edge-register job a b graph edge) [
      | inl old ↦
          IsGrounded-keep job graph b closed (below b old)
            (λ is. subst (λ x. has x graph ≡ true) is (closed a b old))
      | inr (absent, is, new) ↦ absurd (ground (arith, absent, there is))
    ])

IsGrounded-register :
    (job : Job) (graph : Graph)
    → IsClosed graph
    → is_own_dependency job ≡ false
    → ((a : String) → IsGrounded graph a)
    → (a : String) → IsGrounded (register job graph) a
IsGrounded-register job graph closed free safe a = grounded (λ b edge.
    IsGrounded-keep job graph b closed (safe b) (λ is. elim (edge-register job a b graph edge) [
      | inl old ↦ subst (λ x. has x graph ≡ true) is (closed a b old)
      | inr (absent, at, new) ↦ absurd (
          false≢true
            (sym free ∙ subst (λ x. elem x (map (λ d. d.job_id) job.dependencies) ≡ true) is new))
    ]))

abbrev pub register_all : List Job → Graph → Graph
register_all [] graph = graph
register_all (job ∷ jobs) graph = register_all jobs (register job graph)

register_all-IsGrounded :
    (jobs : List Job) (graph : Graph)
    → All (λ job. is_own_dependency job ≡ false) jobs
    → IsClosed graph
    → ((a : String) → IsGrounded graph a)
    → (a : String) → IsGrounded (register_all jobs graph) a
register_all-IsGrounded [] graph free closed safe = safe
register_all-IsGrounded (job ∷ jobs) graph (one, free) closed safe =
    register_all-IsGrounded jobs (register job graph) free (IsClosed-register job graph closed)
      (IsGrounded-register job graph closed one safe)

no_edge : (a b : String) → DependsOn [] a b → ⊥
unfolding dependency_ids lookup elem
no_edge a b edge = ground (arith, edge)

-- Over a graph that any jobs were registered in, none of which lists itself as a dependency, the
-- validation passes for all ids, also where the jobs depend on each other in a ring.
pub validate_no_cycles_blind :
    (jobs : List Job) (ids : List String)
    → All (λ job. is_own_dependency job ≡ false) jobs
    → (m : Marks) × (validate_no_cycles ids (register_all jobs []) ≡ passed m)
validate_no_cycles_blind jobs ids free = passes_of_grounded (register_all jobs []) ids (λ id at.
    register_all-IsGrounded jobs [] free (λ a b edge. absurd (no_edge a b edge))
      (λ a. grounded (λ b edge. absurd (no_edge a b edge))) id)
