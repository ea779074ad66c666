-- ===== src/DependencyResolver/Register.antt =====
-- `register`.
use backend_task_orchestrati.Prelude.{
  ◌≡◌, refl, ◌∙◌, true, String, none, some, List, [], ◌∷◌, ◌++◌, if◌then◌else◌, arith, All, length,
  Option-cases, inl, inr,
}
use backend_task_orchestrati.Prelude.Eq.{◌==◌, nat_eq, string_eq, elem, ==_refl}
use backend_task_orchestrati.Prelude.Maps.{lookup, has, lookup-insert, lookup-modify}
use backend_task_orchestrati.Models.Job.{Job, JobDependency}
use backend_task_orchestrati.DependencyResolver.{
  DepNode, Graph, new_node, placeholder, ensure, add_dependent, wire, wire_all, register,
}

pub lookup-ensure :
    (id j : String) (node : DepNode) (graph : Graph)
    → lookup j (ensure id node graph)
      ≡ (if has id graph then lookup j graph else if id == j then some node else lookup j graph)
unfolding ensure
lookup-ensure id j node graph = ground (arith, lookup-insert id j node graph)

-- `job` is listed as a dependent of `dep`.
abbrev pub IsWired : String → String → Graph → Type 0
IsWired id dep graph =
    (node : DepNode) × (lookup dep graph ≡ some node) × (elem id node.dependents ≡ true)

-- The node of `id` stays, with the same dependencies and the same flag.
abbrev pub IsKept : String → Graph → Graph → Type 0
IsKept id before after =
    (node : DepNode)
    → lookup id before ≡ some node
    → (node' : DepNode) × (lookup id after ≡ some node')
      × (node'.dependencies ≡ node.dependencies)
      × (node'.is_resolved ≡ node.is_resolved)

elem-append_self : (id : String) (xs : List String) → elem id (xs ++ id ∷ []) ≡ true
unfolding elem
elem-append_self id [] = ground (arith, ==_refl id)
elem-append_self id (x ∷ xs) = ground (arith, elem-append_self id xs)

elem-append_left :
    (id new : String) (xs : List String) → elem id xs ≡ true → elem id (xs ++ new ∷ []) ≡ true
unfolding elem
elem-append_left id new [] h = ground arith
elem-append_left id new (x ∷ xs) h = ground (arith, elem-append_left id new xs)

add_dependent-lists :
    (id : String) (node : DepNode) → elem id (add_dependent id node).dependents ≡ true
add_dependent-lists id node = ground (arith, elem-append_self id node.dependents)

add_dependent-keeps :
    (id new : String) (node : DepNode)
    → elem id node.dependents ≡ true
    → elem id (add_dependent new node).dependents ≡ true
add_dependent-keeps id new node h = ground (arith, elem-append_left id new node.dependents)

ensure-found :
    (id j : String) (fresh node : DepNode) (graph : Graph)
    → lookup j graph ≡ some node
    → lookup j (ensure id fresh graph) ≡ some node
ensure-found id j fresh node graph found =
    lookup-ensure id j fresh graph ∙ ground (arith, string_eq.equal_iff id j)

-- There is a node behind each key that was ensured.
ensured :
    (id : String) (fresh : DepNode) (graph : Graph)
    → (node : DepNode) × (lookup id (ensure id fresh graph) ≡ some node)
ensured id fresh graph = elim (Option-cases (lookup id graph)) [
  | inl none_there ↦ (fresh, lookup-ensure id id fresh graph ∙ rw (none_there, ==_refl id))
  | inr (node, found) ↦ (node, ensure-found id id fresh node graph found)
]

wire-found :
    (id j : String) (dep : JobDependency) (node : DepNode) (graph : Graph)
    → lookup j graph ≡ some node
    → lookup j (wire id dep graph) ≡ some (if dep.job_id == j then add_dependent id node else node)
unfolding wire
wire-found id j dep node graph found =
    let kept = ensure-found dep.job_id j (placeholder dep.job_id) node graph found in
    lookup-modify dep.job_id j (add_dependent id) _ ∙ ground (arith, kept)

wire-IsWired :
    (id : String) (dep : JobDependency) (graph : Graph) → IsWired id dep.job_id (wire id dep graph)
unfolding wire
wire-IsWired id dep graph =
    let (node, found) = ensured dep.job_id (placeholder dep.job_id) graph in
    (
      add_dependent id node,
      lookup-modify dep.job_id dep.job_id (add_dependent id) _
          ∙ ground (arith, found, ==_refl dep.job_id),
      add_dependent-lists id node,
    )

wire-IsWired_keep :
    (id d : String) (dep : JobDependency) (graph : Graph)
    → IsWired id d graph
    → IsWired id d (wire id dep graph)
wire-IsWired_keep id d dep graph (node, found, listed) = (
  (if dep.job_id == d then add_dependent id node else node),
  wire-found id d dep node graph found,
  ground (arith, add_dependent-keeps id id node listed),
)

wire-IsKept :
    (id j : String) (dep : JobDependency) (graph : Graph) → IsKept j graph (wire id dep graph)
wire-IsKept id j dep graph node found = (
  (if dep.job_id == j then add_dependent id node else node),
  wire-found id j dep node graph found,
  ground arith,
  ground arith,
)

IsKept-trans : (j : String) (a b c : Graph) → IsKept j a b → IsKept j b c → IsKept j a c
IsKept-trans j a b c h k node found =
    let (node', found', deps, flag) = h node found in
    let (node'', found'', deps', flag') = k node' found' in
    (node'', found'', deps' ∙ deps, flag' ∙ flag)

wire_all-IsWired_keep :
    (id d : String) (deps : List JobDependency) (graph : Graph)
    → IsWired id d graph
    → IsWired id d (wire_all id deps graph)
unfolding wire_all
wire_all-IsWired_keep id d [] graph h = h
wire_all-IsWired_keep id d (dep ∷ deps) graph h =
    wire_all-IsWired_keep id d deps (wire id dep graph) (wire-IsWired_keep id d dep graph h)

pub wire_all-IsWired :
    (id : String) (deps : List JobDependency) (graph : Graph)
    → All (λ dep. IsWired id dep.job_id (wire_all id deps graph)) deps
unfolding wire_all
wire_all-IsWired id [] graph = tt
wire_all-IsWired id (dep ∷ deps) graph = (
  wire_all-IsWired_keep id dep.job_id deps (wire id dep graph) (wire-IsWired id dep graph),
  wire_all-IsWired id deps (wire id dep graph),
)

pub wire_all-IsKept :
    (id j : String) (deps : List JobDependency) (graph : Graph)
    → IsKept j graph (wire_all id deps graph)
unfolding wire_all
wire_all-IsKept id j [] graph = λ node found. (node, found, refl, refl)
wire_all-IsKept id j (dep ∷ deps) graph =
    IsKept-trans j graph (wire id dep graph) _ (wire-IsKept id j dep graph)
      (wire_all-IsKept id j deps (wire id dep graph))

-- What `register` makes of a graph, whether the job is new or not.
pub record Registered (job : Job) (before after : Graph) : Type 0 where
  -- Every dependency knows the job as a dependent.
  pub wired : All (λ dep. IsWired job.id dep.job_id after) job.dependencies
  -- A node that was there keeps its dependencies and its flag.
  pub kept : (id : String) → IsKept id before after
  -- A job with no node gets one with its dependencies, resolved exactly when it has none.
  pub added :
      lookup job.id before ≡ none
      → (node : DepNode) × (lookup job.id after ≡ some node)
        × (node.dependencies ≡ job.dependencies)
        × (node.is_resolved ≡ (length job.dependencies == 0))

-- Registering a job wires it to its dependencies and leaves the rest of each node alone.
pub register_correct : (job : Job) (graph : Graph) → Registered job graph (register job graph)
unfolding register
register_correct job graph =
    let graph' = ensure job.id (new_node job) graph in
    record {
      wired = wire_all-IsWired job.id job.dependencies graph';
      kept = λ id.
          IsKept-trans id graph graph' _
            (λ node found.
              (node, ensure-found job.id id (new_node job) node graph found, refl, refl))
            (wire_all-IsKept job.id id job.dependencies graph');
      added = λ absent.
          wire_all-IsKept job.id job.id job.dependencies graph' (new_node job)
            (lookup-ensure job.id job.id (new_node job) graph ∙ rw (absent, ==_refl job.id));
    }
