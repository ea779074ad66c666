-- ===== src/DependencyResolver.antt =====
-- src/scheduler/DependencyResolver.ts
-- The graph is a `Map` from job ids to nodes; a method returns the new graph. The event that
-- `onJobStateChange` emits carries the list that it returns, and has no other effect here.
pub mod Register
pub mod Unblock
pub mod Early
pub mod Search
pub mod Walks
pub mod Marking
pub mod Cycles
pub mod Sorting
pub mod Order
pub mod Rings
mod Tests
use mathlib.Core.List.{foldl}
use backend_task_orchestrati.Prelude.{
  ℕ, zero, suc, ◌+◌, ◌-◌, Bool, true, false, not, ◌&&◌, String, Option, none, some, List, [], ◌∷◌,
  ◌++◌, if◌then◌else◌, length, filter,
}
use backend_task_orchestrati.Prelude.Eq.{◌==◌, nat_eq, string_eq, elem}
use backend_task_orchestrati.Prelude.Maps.{lookup, insert, modify, remove, has}
use backend_task_orchestrati.Models.Job.{JobStatus, status_eq, JobDependency, Job}

pub record DepNode : Type 0 where
  pub job_id : String
  pub dependencies : List JobDependency
  pub dependents : List String
  pub is_resolved : Bool

abbrev pub Graph : Type 0
Graph = List (String × DepNode)

abbrev pub new_node : Job → DepNode
new_node job = record {
  job_id = job.id;
  dependencies = job.dependencies;
  dependents = [];
  is_resolved = length job.dependencies == 0;
}

abbrev pub placeholder : String → DepNode
placeholder id = record { job_id = id; dependencies = []; dependents = []; is_resolved = true }

unfoldable pub ensure : String → DepNode → Graph → Graph
ensure id node graph = if has id graph then graph else insert id node graph

abbrev pub add_dependent : String → DepNode → DepNode
add_dependent id node =
    if elem id node.dependents
    then node
    else record node { dependents = node.dependents ++ id ∷ [] }

-- The body of the loop of `register`.
unfoldable pub wire : String → JobDependency → Graph → Graph
wire id dep graph =
    modify dep.job_id (add_dependent id) (ensure dep.job_id (placeholder dep.job_id) graph)

unfoldable pub wire_all : String → List JobDependency → Graph → Graph
wire_all id [] graph = graph
wire_all id (dep ∷ deps) graph = wire_all id deps (wire id dep graph)

unfoldable pub register : Job → Graph → Graph
register job graph = wire_all job.id job.dependencies (ensure job.id (new_node job) graph)

-- `this.graph.get(id)?.isResolved`, where `undefined` counts as false.
abbrev pub resolved_in : Graph → String → Bool
resolved_in graph id = elim (lookup id graph) [ none ↦ false | some node ↦ node.is_resolved ]

unfoldable pub check_all_dependencies_met : Graph → List JobDependency → Bool
check_all_dependencies_met graph [] = true
check_all_dependencies_met graph (dep ∷ deps) =
    if resolved_in graph dep.job_id then check_all_dependencies_met graph deps else false

-- `dependencies.find((d) => d.jobId === jobId)`
unfoldable pub find_dependency : String → List JobDependency → Option JobDependency
find_dependency id [] = none
find_dependency id (dep ∷ deps) = if dep.job_id == id then some dep else find_dependency id deps

-- Whether the body of the loop of `onJobStateChange` resolves this dependent.
unfoldable pub unblocks : String → JobStatus → Graph → String → Bool
unblocks job_id status graph dependent_id = elim (lookup dependent_id graph) [
  | none ↦ false
  | some node ↦
      if node.is_resolved then false else elim (find_dependency job_id node.dependencies) [
        | none ↦ false
        | some dep ↦
            elem status dep.require_status && check_all_dependencies_met graph node.dependencies
      ]
]

abbrev pub resolve : DepNode → DepNode
resolve node = record node { is_resolved = true }

unfoldable pub unblock_loop :
    String → JobStatus → List String → List String → Graph → List String × Graph
unblock_loop job_id status [] unblocked graph = (unblocked, graph)
unblock_loop job_id status (id ∷ rest) unblocked graph =
    let free = unblocks job_id status graph id in
    unblock_loop job_id status rest (if free then unblocked ++ id ∷ [] else unblocked)
      (if free then modify id resolve graph else graph)

unfoldable pub on_job_state_change : String → JobStatus → Graph → List String × Graph
on_job_state_change job_id status graph = elim (lookup job_id graph) [
  | none ↦ ([], graph)
  | some node ↦ unblock_loop job_id status node.dependents [] graph
]

unfoldable pub is_resolved : String → Graph → Bool
is_resolved job_id graph = elim (lookup job_id graph) [ none ↦ true | some node ↦ node.is_resolved ]

abbrev pub drop_dependent : String → DepNode → DepNode
drop_dependent id node = record node { dependents = filter (λ d. not (d == id)) node.dependents }

unfoldable pub unwire_all : String → List JobDependency → Graph → Graph
unwire_all id [] graph = graph
unwire_all id (dep ∷ deps) graph = unwire_all id deps (modify dep.job_id (drop_dependent id) graph)

unfoldable pub deregister : String → Graph → Graph
deregister job_id graph = elim (lookup job_id graph) [
  | none ↦ graph
  | some node ↦ remove job_id (unwire_all job_id node.dependencies graph)
]

pub record GraphStats : Type 0 where
  pub total_nodes : ℕ
  pub resolved_nodes : ℕ
  pub pending_nodes : ℕ

unfoldable pub get_stats : Graph → GraphStats
get_stats graph =
    let resolved = length (filter (λ (_, node). node.is_resolved) graph) in
    record {
      total_nodes = length graph;
      resolved_nodes = resolved;
      pending_nodes = length graph - resolved;
    }
