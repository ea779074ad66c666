-- ===== src/DependencyResolver/Tests.antt =====
-- The theorems on the graph at small inputs.
use backend_task_orchestrati.Prelude.{
  ◌≡◌, ◌↔◌, refl, true, String, none, some, List, [], ◌∷◌, filter, map, false, All,
}
use backend_task_orchestrati.Prelude.Eq.{string_eq, elem}
use backend_task_orchestrati.Prelude.Keys.{IsUnique}
use backend_task_orchestrati.Prelude.Maps.{lookup, insert, modify}
use backend_task_orchestrati.Models.Job.{Job, completed, status_eq}
use backend_task_orchestrati.Samples.{plain_job, after_all, completion_of}
use backend_task_orchestrati.DependencyResolver.{
  Graph, new_node, ensure, wire, wire_all, register, check_all_dependencies_met, find_dependency,
  on_job_state_change,
}
use backend_task_orchestrati.DependencyResolver.Register.{Registered, register_correct}
use backend_task_orchestrati.DependencyResolver.Unblock.{
  IsUnblocked, Unblocking, on_job_state_change_sound, on_job_state_change_complete,
}
use backend_task_orchestrati.DependencyResolver.Early.{unblocked_by_first}
use backend_task_orchestrati.DependencyResolver.Search.{
  dependency_ids, Marks, passed, circular, from_first, cycle_part, check_each, dfs, check_root,
  validate_no_cycles, topological_sort,
}
use backend_task_orchestrati.DependencyResolver.Cycles.{Verdict, validate_no_cycles_correct}
use backend_task_orchestrati.DependencyResolver.Sorting.{IsInOrder, IsReached}
use backend_task_orchestrati.DependencyResolver.Order.{topological_sort_correct}
use backend_task_orchestrati.DependencyResolver.Rings.{
  is_own_dependency, register_all, validate_no_cycles_blind,
}

-- Two jobs without dependencies.
abbrev two_free : Graph
two_free = ("a", new_node (plain_job "a")) ∷ ("b", new_node (plain_job "b")) ∷ []

abbrev waits_for_both : Job
waits_for_both = after_all "c" (completion_of "a" ∷ completion_of "b" ∷ [])

-- The graph with the third job, written out.
abbrev wired : Graph
wired =
    ("a", record (new_node (plain_job "a")) { dependents = "c" ∷ [] })
    ∷ ("b", record (new_node (plain_job "b")) { dependents = "c" ∷ [] })
    ∷ ("c", new_node waits_for_both)
    ∷ []

register_both : register waits_for_both two_free ≡ wired
unfolding register ensure wire wire_all lookup insert modify elem
register_both = refl

register_correct_example : Registered waits_for_both two_free (register waits_for_both two_free)
register_correct_example = register_correct waits_for_both two_free

on_job_state_change_sound_example :
    Unblocking "a" completed wired
      (on_job_state_change "a" completed wired).0
      (on_job_state_change "a" completed wired).1
on_job_state_change_sound_example = on_job_state_change_sound "a" completed wired

c-IsUnblocked : IsUnblocked "a" completed wired wired "c"
unfolding lookup find_dependency elem check_all_dependencies_met
c-IsUnblocked = record {
  node = new_node waits_for_both;
  found = refl;
  waiting = refl;
  dep = completion_of "a";
  listed = refl;
  satisfied = refl;
  all_met = refl;
}

a_found : lookup "a" wired ≡ some (record (new_node (plain_job "a")) { dependents = "c" ∷ [] })
unfolding lookup
a_found = refl

c_listed : elem {A = String} "c" ("c" ∷ []) ≡ true
unfolding elem
c_listed = refl

on_job_state_change_complete_example : elem "c" (on_job_state_change "a" completed wired).0 ≡ true
on_job_state_change_complete_example =
    on_job_state_change_complete "a" completed wired
      (record (new_node (plain_job "a")) { dependents = "c" ∷ [] }) "c" a_found c_listed
      c-IsUnblocked

c_absent : lookup "c" two_free ≡ none
unfolding lookup
c_absent = refl

a_free : lookup "a" two_free ≡ some (new_node (plain_job "a"))
unfolding lookup
a_free = refl

b_free : lookup "b" two_free ≡ some (new_node (plain_job "b"))
unfolding lookup
b_free = refl

completed_listed : elem completed (completed ∷ []) ≡ true
unfolding elem
completed_listed = refl

unblocked_by_first_example :
    elem "c" (on_job_state_change "a" completed (register waits_for_both two_free)).0 ≡ true
unblocked_by_first_example =
    unblocked_by_first waits_for_both (completion_of "a") (completion_of "b") completed two_free
      (new_node (plain_job "a")) (new_node (plain_job "b")) refl c_absent a_free refl b_free refl
      completed_listed

-- `c` depends on `b`, which depends on `a`; and two jobs that depend on each other.
abbrev chain : Graph
chain =
    register (after_all "c" (completion_of "b" ∷ []))
      (register (after_all "b" (completion_of "a" ∷ [])) [])

abbrev ring_of_two : List Job
ring_of_two = after_all "a" (completion_of "b" ∷ []) ∷ after_all "b" (completion_of "a" ∷ []) ∷ []

abbrev ring : Graph
ring = map (λ job. (job.id, new_node job)) ring_of_two

ring_found : validate_no_cycles ("a" ∷ []) ring ≡ circular ("a" ∷ "b" ∷ "a" ∷ [])
unfolding validate_no_cycles check_each check_root dfs dependency_ids lookup elem from_first
    cycle_part
ring_found = refl

none_alone : All (λ job. is_own_dependency job ≡ false) ring_of_two
unfolding elem
none_alone = (refl, (refl, tt))

validate_no_cycles_blind_example :
    (m : Marks) × (validate_no_cycles ("a" ∷ []) (register_all ring_of_two []) ≡ passed m)
validate_no_cycles_blind_example = validate_no_cycles_blind ring_of_two ("a" ∷ []) none_alone

validate_no_cycles_correct_example : Verdict ring ("a" ∷ []) (validate_no_cycles ("a" ∷ []) ring)
validate_no_cycles_correct_example = validate_no_cycles_correct ring ("a" ∷ [])

chain_passes :
    validate_no_cycles ("c" ∷ []) chain
    ≡ passed (record { visited = "a" ∷ "b" ∷ "c" ∷ []; in_stack = [] })
unfolding validate_no_cycles check_each check_root dfs dependency_ids lookup elem filter register
    wire_all wire ensure insert modify
chain_passes = refl

topological_sort_correct_example :
    (sorted : List String) × (topological_sort ("c" ∷ []) chain ≡ some sorted)
    × IsUnique sorted
    × IsInOrder chain [] sorted
    × ((v : String) → (elem v sorted ≡ true) ↔ IsReached chain ("c" ∷ []) v)
topological_sort_correct_example =
    topological_sort_correct chain ("c" ∷ [])
      (record { visited = "a" ∷ "b" ∷ "c" ∷ []; in_stack = [] }) chain_passes
