-- ===== src/DependencyResolver/Search.antt =====
-- src/scheduler/DependencyResolver.ts: `validateNoCycles` and `topologicalSort`
-- The searches run on fuel, one more than the nodes of the graph. A set is the list of its members.
use backend_task_orchestrati.Prelude.{
  ℕ, zero, suc, ◌+◌, not, String, Option, none, some, List, [], ◌∷◌, ◌++◌, if◌then◌else◌, length,
  filter, map,
}
use backend_task_orchestrati.Prelude.Eq.{◌==◌, string_eq, elem}
use backend_task_orchestrati.Prelude.Maps.{lookup}
use backend_task_orchestrati.DependencyResolver.{Graph}

-- The ids of `this.graph.get(id).dependencies`, none where there is no node.
unfoldable pub dependency_ids : String → Graph → List String
dependency_ids id graph = elim (lookup id graph) [
  | none ↦ []
  | some node ↦ map (λ d. d.job_id) node.dependencies
]

-- The sets of `validateNoCycles`.
pub record Marks : Type 0 where
  pub visited : List String
  pub in_stack : List String

-- What `dfs` does: it returns, or throws the error with the cycle. It runs on fuel.
pub data CycleCheck : Type 0 where
  passed : Marks → CycleCheck
  circular : List String → CycleCheck
  out_of_fuel : CycleCheck

unfoldable pub from_first : String → List String → List String
from_first id [] = []
from_first id (x ∷ path) = if x == id then x ∷ path else from_first id path

unfoldable pub last_one : List String → List String
last_one [] = []
last_one (x ∷ []) = x ∷ []
last_one (x ∷ y ∷ path) = last_one (y ∷ path)

-- `path.slice(path.indexOf(id))`, where an id that is not there has the index -1.
unfoldable pub cycle_part : String → List String → List String
cycle_part id path = if elem id path then from_first id path else last_one path

abbrev pub off_stack : String → CycleCheck → CycleCheck
off_stack id (passed m) = passed (record m { in_stack = filter (λ x. not (x == id)) m.in_stack })
off_stack id (circular cycle) = circular cycle
off_stack id out_of_fuel = out_of_fuel

unfoldable pub check_each : (String → Marks → CycleCheck) → List String → Marks → CycleCheck
check_each check [] m = passed m
check_each check (id ∷ ids) m = elim (check id m) [
  | passed m' ↦ check_each check ids m'
  | circular cycle ↦ circular cycle
  | out_of_fuel ↦ out_of_fuel
]

unfoldable pub dfs : ℕ → Graph → String → List String → Marks → CycleCheck
dfs zero graph id path m = out_of_fuel
dfs (suc fuel) graph id path m =
    let below =
      check_each (λ dep m'. dfs fuel graph dep (path ++ id ∷ []) m') (dependency_ids id graph)
        (record { visited = id ∷ m.visited; in_stack = id ∷ m.in_stack }) in
    if elem id m.in_stack
    then circular (cycle_part id path ++ id ∷ [])
    else if elem id m.visited
    then passed m
    else off_stack id below

unfoldable pub check_root : ℕ → Graph → String → Marks → CycleCheck
check_root fuel graph id m = if elem id m.visited then passed m else dfs fuel graph id [] m

-- A walk visits each node once, and ends one step beyond the last.
unfoldable pub validate_no_cycles : List String → Graph → CycleCheck
validate_no_cycles job_ids graph =
    check_each (check_root (length graph + 1) graph) job_ids
      (record { visited = []; in_stack = [] })

pub record Sorting : Type 0 where
  pub sorted : List String
  pub visited : List String

unfoldable pub visit_each :
    (String → Sorting → Option Sorting) → List String → Sorting → Option Sorting
visit_each go [] s = some s
visit_each go (id ∷ ids) s = elim (go id s) [ none ↦ none | some s' ↦ visit_each go ids s' ]

abbrev pub pushed : String → Option Sorting → Option Sorting
pushed id none = none
pushed id (some s) = some (record s { sorted = s.sorted ++ id ∷ [] })

-- `none` means that the fuel ran out.
unfoldable pub visit : ℕ → Graph → String → Sorting → Option Sorting
visit zero graph id s = none
visit (suc fuel) graph id s =
    let below =
      visit_each (visit fuel graph) (dependency_ids id graph)
        (record s { visited = id ∷ s.visited }) in
    if elem id s.visited then some s else pushed id below

unfoldable pub topological_sort : List String → Graph → Option (List String)
topological_sort job_ids graph =
    elim (visit_each (visit (length graph + 1) graph) job_ids
      (record { sorted = []; visited = [] })) [ none ↦ none | some s ↦ some s.sorted ]
