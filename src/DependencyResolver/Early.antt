-- ===== src/DependencyResolver/Early.antt =====
-- What `onJobStateChange` does to a job that waits for two others.
use backend_task_orchestrati.Prelude.{◌≡◌, refl, ◌∙◌, true, some, none, [], ◌∷◌, arith, subst, All}
use backend_task_orchestrati.Prelude.Eq.{string_eq, elem, ==_refl}
use backend_task_orchestrati.Prelude.Maps.{lookup}
use backend_task_orchestrati.Models.Job.{JobStatus, status_eq, Job, JobDependency}
use backend_task_orchestrati.DependencyResolver.{
  DepNode, Graph, check_all_dependencies_met, find_dependency, register, on_job_state_change,
}
use backend_task_orchestrati.DependencyResolver.Register.{IsWired, register_correct}
use backend_task_orchestrati.DependencyResolver.Unblock.{on_job_state_change_complete}

module _ (job : Job) (first second : JobDependency) (status : JobStatus) (graph : Graph) where
  met_after :
      (node node' : DepNode)
      → job.dependencies ≡ first ∷ second ∷ []
      → lookup first.job_id graph ≡ some node
      → node.is_resolved ≡ true
      → lookup second.job_id graph ≡ some node'
      → node'.is_resolved ≡ true
      → check_all_dependencies_met (register job graph) (first ∷ second ∷ []) ≡ true
  unfolding check_all_dependencies_met
  met_after node node' deps found flag found' flag' =
      let kept = register_correct job graph in
      let (n, f, _, r) = kept.kept first.job_id node found in
      let (n', f', _, r') = kept.kept second.job_id node' found' in
      ground (arith, f, f', r, r', flag, flag')

  -- A job registered with two dependencies whose nodes are resolved is unblocked as soon as the
  -- first of them reaches a status that it asks for, whatever has become of the second.
  pub unblocked_by_first :
      (node node' : DepNode)
      → job.dependencies ≡ first ∷ second ∷ []
      → lookup job.id graph ≡ none
      → lookup first.job_id graph ≡ some node
      → node.is_resolved ≡ true
      → lookup second.job_id graph ≡ some node'
      → node'.is_resolved ≡ true
      → elem status first.require_status ≡ true
      → elem job.id (on_job_state_change first.job_id status (register job graph)).0 ≡ true
  unblocked_by_first node node' deps fresh found flag found' flag' asked =
      let done = register_correct job graph in
      let (own, own_found, own_deps, own_flag) = done.added fresh in
      let wired =
        subst (All (λ (dep : JobDependency). IsWired job.id dep.job_id (register job graph))) deps
          done.wired in
      let (dep_node, dep_found, dep_lists) = wired.0 in
      let all = own_deps ∙ deps in
      on_job_state_change_complete first.job_id status (register job graph) dep_node job.id
        dep_found dep_lists
        (record {
          node = own;
          found = own_found;
          waiting = own_flag ∙ rw deps refl;
          dep = first;
          listed = rw all (unfold find_dependency in rw (==_refl first.job_id));
          satisfied = asked;
          all_met = rw all (met_after node node' deps found flag found' flag');
        })
