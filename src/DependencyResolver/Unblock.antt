-- ===== src/DependencyResolver/Unblock.antt =====
-- `onJobStateChange`.
use mathlib.Core.Option
use mathlib.Core.Bool.{false≢true}
use backend_task_orchestrati.Prelude.{
  ◌≡◌, refl, ◌∙◌, true, false, ◌||◌, String, some, List, [], ◌∷◌, ◌++◌, if◌then◌else◌, arith, All,
  All_map, All_snoc, Bool-cases, Option-cases, inl, inr,
}
use backend_task_orchestrati.Prelude.Eq.{◌==◌, string_eq, elem, ==_refl}
use backend_task_orchestrati.Prelude.Maps.{lookup, modify, lookup-modify}
use backend_task_orchestrati.Models.Job.{JobStatus, status_eq, JobDependency}
use backend_task_orchestrati.DependencyResolver.{
  DepNode, Graph, resolved_in, check_all_dependencies_met, find_dependency, unblocks, resolve,
  unblock_loop, on_job_state_change,
}

-- A node of the graph after `ids` have been resolved.
abbrev pub marked : List String → String → DepNode → DepNode
marked ids id node = if elem id ids then resolve node else node

-- The job was waiting for `job_id` to reach this status, and now has all its dependencies resolved.
pub record IsUnblocked (job_id : String) (status : JobStatus) (before after : Graph) (id : String)
    : Type 0 where
  pub node : DepNode
  pub found : lookup id before ≡ some node
  pub waiting : node.is_resolved ≡ false
  pub dep : JobDependency
  pub listed : find_dependency job_id node.dependencies ≡ some dep
  pub satisfied : elem status dep.require_status ≡ true
  pub all_met : check_all_dependencies_met after node.dependencies ≡ true

pub record Unblocking (job_id : String) (status : JobStatus) (before : Graph) (ids : List String)
    (after : Graph) : Type 0 where
  -- Only the flags of the returned jobs change.
  pub same : (id : String) → lookup id after ≡ Option.map (marked ids id) (lookup id before)
  pub each : All (IsUnblocked job_id status before after) ids

elem-snoc : (k new : String) (xs : List String) → elem k (xs ++ new ∷ []) ≡ (elem k xs || new == k)
unfolding elem
elem-snoc k new [] = ground arith
elem-snoc k new (x ∷ xs) = ground (arith, elem-snoc k new xs)

resolved_in-modify :
    (id j : String) (graph : Graph)
    → resolved_in graph j ≡ true
    → resolved_in (modify id resolve graph) j ≡ true
resolved_in-modify id j graph h = ground (arith, lookup-modify id j resolve graph)

check_all-modify :
    (id : String) (graph : Graph) (deps : List JobDependency)
    → check_all_dependencies_met graph deps ≡ true
    → check_all_dependencies_met (modify id resolve graph) deps ≡ true
unfolding check_all_dependencies_met
check_all-modify id graph [] h = refl
check_all-modify id graph (dep ∷ deps) h =
    ground (arith, resolved_in-modify id dep.job_id graph, check_all-modify id graph deps)

module _ (job_id : String) (status : JobStatus) where
  -- What the test of the loop says.
  unblocks-node :
      (graph : Graph) (id : String)
      → unblocks job_id status graph id ≡ true
      → IsUnblocked job_id status graph graph id
  unfolding unblocks
  unblocks-node graph id h = elim (Option-cases (lookup id graph)) [
    | inl absent ↦ absurd (ground arith)
    | inr (node, found) ↦ elim (Option-cases (find_dependency job_id node.dependencies)) [
      | inl unlisted ↦ absurd (ground arith)
      | inr (dep, listed) ↦ record {
        node = node;
        found = found;
        waiting = ground arith;
        dep = dep;
        listed = listed;
        satisfied = ground arith;
        all_met = ground arith;
      }
    ]
  ]

  IsUnblocked-modify :
      (before graph : Graph) (id new : String)
      → IsUnblocked job_id status before graph id
      → IsUnblocked job_id status before (modify new resolve graph) id
  IsUnblocked-modify before graph id new u = record {
    node = u.node;
    found = u.found;
    waiting = u.waiting;
    dep = u.dep;
    listed = u.listed;
    satisfied = u.satisfied;
    all_met = check_all-modify new graph u.node.dependencies u.all_met;
  }

  -- A node that is still unresolved is as it was.
  node_before :
      (before graph : Graph) (ids : List String) (id : String) (node : DepNode)
      → lookup id graph ≡ Option.map (marked ids id) (lookup id before)
      → lookup id graph ≡ some node
      → node.is_resolved ≡ false
      → lookup id before ≡ some node
  node_before before graph ids id node same found waiting = ground arith

  step-Unblocking :
      (before graph : Graph) (ids : List String) (id : String)
      → Unblocking job_id status before ids graph
      → unblocks job_id status graph id ≡ true
      → Unblocking job_id status before (ids ++ id ∷ []) (modify id resolve graph)
  step-Unblocking before graph ids id u h =
      let now = unblocks-node graph id h in
      record {
        same = λ j.
            lookup-modify id j resolve graph
            ∙ ground (arith, u.same j, elem-snoc j id ids, string_eq.equal_iff id j);
        each =
            All_snoc _ ids id (All_map ids u.each (λ j w. IsUnblocked-modify before graph j id w)) (
              IsUnblocked-modify before graph id id record {
                node = now.node;
                found = node_before before graph ids id now.node (u.same id) now.found now.waiting;
                waiting = now.waiting;
                dep = now.dep;
                listed = now.listed;
                satisfied = now.satisfied;
                all_met = now.all_met;
              });
      }

  loop-Unblocking :
      (before graph : Graph) (rest ids : List String)
      → Unblocking job_id status before ids graph
      → let (ids', after) = unblock_loop job_id status rest ids graph in
        Unblocking job_id status before ids' after
  unfolding unblock_loop
  loop-Unblocking before graph [] ids u = u
  loop-Unblocking before graph (id ∷ rest) ids u =
      elim (Bool-cases (unblocks job_id status graph id)) [
        | inl free ↦
            rw (free, unblock_loop)
              (loop-Unblocking before (modify id resolve graph) rest (ids ++ id ∷ [])
                (step-Unblocking before graph ids id u free))
        | inr held ↦ rw (held, unblock_loop) (loop-Unblocking before graph rest ids u)
      ]

  start-Unblocking : (graph : Graph) → Unblocking job_id status graph [] graph
  unfolding elem
  start-Unblocking graph = record { same = λ id. ground arith; each = tt }

  -- Every returned job was waiting for this status and has all its dependencies resolved, and the
  -- graph changes in the flags of the returned jobs only.
  pub on_job_state_change_sound :
      (graph : Graph)
      → let (ids, after) = on_job_state_change job_id status graph in
        Unblocking job_id status graph ids after
  unfolding on_job_state_change
  on_job_state_change_sound graph = elim (Option-cases (lookup job_id graph)) [
    | inl absent ↦ rw (absent, on_job_state_change) (start-Unblocking graph)
    | inr (node, found) ↦
        rw (found, on_job_state_change)
          (loop-Unblocking graph graph node.dependents [] (start-Unblocking graph))
  ]

  unblocks_of :
      (graph : Graph) (id : String) (node : DepNode) (dep : JobDependency)
      → lookup id graph ≡ some node
      → node.is_resolved ≡ false
      → find_dependency job_id node.dependencies ≡ some dep
      → elem status dep.require_status ≡ true
      → check_all_dependencies_met graph node.dependencies ≡ true
      → unblocks job_id status graph id ≡ true
  unfolding unblocks
  unblocks_of graph id node dep found waiting listed satisfied met = ground arith

  loop-keeps :
      (graph : Graph) (rest ids : List String) (id : String)
      → elem id ids ≡ true
      → elem id (unblock_loop job_id status rest ids graph).0 ≡ true
  unfolding unblock_loop
  loop-keeps graph [] ids id h = h
  loop-keeps graph (k ∷ rest) ids id h =
      let free = unblocks job_id status graph k in
      loop-keeps (if free then modify k resolve graph else graph) rest
        (if free then ids ++ k ∷ [] else ids) id (ground (arith, elem-snoc id k ids))

  loop_free :
      (graph : Graph) (k : String) (rest ids : List String)
      → unblocks job_id status graph k ≡ true
      → unblock_loop job_id status (k ∷ rest) ids graph
        ≡ unblock_loop job_id status rest (ids ++ k ∷ []) (modify k resolve graph)
  unfolding unblock_loop
  loop_free graph k rest ids t = rw (t, unblock_loop)

  loop_held :
      (graph : Graph) (k : String) (rest ids : List String)
      → unblocks job_id status graph k ≡ false
      → unblock_loop job_id status (k ∷ rest) ids graph ≡ unblock_loop job_id status rest ids graph
  unfolding unblock_loop
  loop_held graph k rest ids f = rw (f, unblock_loop)

  -- A job that waits and has all met is returned, when the loop reaches it.
  loop-reaches :
      (before graph : Graph) (rest ids : List String) (id : String)
      → Unblocking job_id status before ids graph
      → IsUnblocked job_id status before graph id
      → elem id rest ≡ true
      → elem id (unblock_loop job_id status rest ids graph).0 ≡ true
  unfolding elem
  loop-reaches before graph [] ids id u w h = absurd (false≢true h)
  loop-reaches before graph (k ∷ rest) ids id u w h = elim (Bool-cases (elem id ids)) [
    | inl old ↦ loop-keeps graph (k ∷ rest) ids id old
    | inr new ↦
        let found : lookup id graph ≡ some w.node = ground (arith, u.same id, w.found) in
        let free =
          unblocks_of graph id w.node w.dep found w.waiting w.listed w.satisfied w.all_met in
        elim (Bool-cases (k == id)) [
          | inl here ↦
              let same : k ≡ id = (string_eq.equal_iff k id).0 here in
              rw (same, loop_free graph id rest ids free)
                (loop-keeps _ rest _ id (elem-snoc id id ids ∙ ground (arith, ==_refl id)))
          | inr later ↦
              let behind : elem id rest ≡ true = rw later at h in
              elim (Bool-cases (unblocks job_id status graph k)) [
                | inl t ↦ rw (loop_free graph k rest ids t) (
                    loop-reaches before (modify k resolve graph) rest (ids ++ k ∷ []) id
                      (step-Unblocking before graph ids k u t)
                      (IsUnblocked-modify before graph id k w) behind)
                | inr f ↦
                    rw (loop_held graph k rest ids f)
                      (loop-reaches before graph rest ids id u w behind)
              ]
        ]
  ]

  -- Every dependent that waits for this status, and has all its dependencies resolved, is returned.
  pub on_job_state_change_complete :
      (graph : Graph) (node : DepNode) (id : String)
      → lookup job_id graph ≡ some node
      → elem id node.dependents ≡ true
      → IsUnblocked job_id status graph graph id
      → elem id (on_job_state_change job_id status graph).0 ≡ true
  unfolding on_job_state_change
  on_job_state_change_complete graph node id found listed w =
      rw (found, on_job_state_change)
        (loop-reaches graph graph node.dependents [] id (start-Unblocking graph) w listed)
