-- ===== src/LoadBalancer/Select.antt =====
-- `selectWorker`, and rounds of `roundRobin`.
use mathlib.Core.Logic.Or
use mathlib.Core.Bool.{Bool-set}
use mathlib.Core.HLevel.{×_prop}
use mathlib.Core.List.{Mem, Mem-prop, mem-cons, not-mem-nil, mem-cons_self, mem-cons_of_mem}
use mathlib.Core.Option.{some-injective}
use native.Mathlib.Decide.{ℕ_discrete}
use backend_task_orchestrati.Prelude.Eq.{nat_eq, string_eq, elem, ==_ne}
use backend_task_orchestrati.Prelude.{
  ℕ, zero, suc, ◌<◌, ◌≡◌, ◌⊎◌, sym, subst, ◌∙◌, Bool, true, false, Option, none, some, List, [],
  ◌∷◌, ltb, arith, All, filter, get_elem?, get_elem?-lt, length, Bool-cases, ltb→lt, inl, inr,
}
use backend_task_orchestrati.Models.Job.{Job}
use backend_task_orchestrati.Models.Worker.{WorkerNode, online, busy, worker_status_eq}
use backend_task_orchestrati.LoadBalancer.{
  LoadBalancer, LoadBalancingStrategy, least_loaded_strategy, round_robin_strategy,
  affinity_strategy, random_strategy, type_name, is_eligible, filter_eligible, least_loaded,
  round_robin, matches_affinity, affinity, dispatch, select_worker,
}
use backend_task_orchestrati.LoadBalancer.Least.{least_loaded_correct}

-- What a test picks is in the list and passes the test.
mem-filter :
    {A : Type 0} (p : A → Bool) (xs : List A) (x : A)
    → Mem x (filter p xs)
    → Mem x xs × (p x ≡ true)
unfolding filter
mem-filter p [] x m = absurd (not-mem-nil m)
mem-filter p (y ∷ xs) x m = elim (Bool-cases (p y)) [
  | inl t ↦
      Or.elim (×_prop Mem-prop (Bool-set _ _)) (mem-cons.0 (rw t at m))
        (λ e. rw e (mem-cons_self, t))
        (λ rest. let (there, passes) = mem-filter p xs x rest in (mem-cons_of_mem y there, passes))
  | inr f ↦ let (there, passes) = mem-filter p xs x (rw f at m) in (mem-cons_of_mem y there, passes)
]

get_elem?-mem : {A : Type 0} (xs : List A) (i : ℕ) (x : A) → get_elem? xs i ≡ some x → Mem x xs
get_elem?-mem [] i x e = absurd (ground arith)
get_elem?-mem (y ∷ xs) zero x e = subst (λ z. Mem z (y ∷ xs)) (some-injective y x e) mem-cons_self
get_elem?-mem (y ∷ xs) (suc i) x e = mem-cons_of_mem y (get_elem?-mem xs i x e)

-- A pool that is not empty yields one of its workers.
abbrev Picks : List WorkerNode → Option WorkerNode → Type 0
Picks workers r = (w : WorkerNode) × (r ≡ some w) × Mem w workers

least_loaded-Picks :
    (workers : List WorkerNode) → 0 < length workers → Picks workers (least_loaded workers)
least_loaded-Picks workers h =
    let (w, e, least) = least_loaded_correct workers h in (w, e, least.member)

affinity-Picks :
    (job : Job) (workers : List WorkerNode)
    → 0 < length workers
    → Picks workers (affinity job workers)
unfolding affinity
affinity-Picks job workers h =
    let preferred = filter (matches_affinity job) workers in
    elim (Bool-cases (ltb 0 (length preferred))) [
      | inl some_match ↦
          let (w, e, m) = least_loaded-Picks preferred (ltb→lt 0 (length preferred) some_match) in
          rw some_match (w, e, (mem-filter (matches_affinity job) workers w m).0)
      | inr no_match ↦ rw no_match (least_loaded-Picks workers h)
    ]

get-Picks :
    (workers : List WorkerNode) (i : ℕ) → i < length workers → Picks workers (get_elem? workers i)
get-Picks workers i h = let (w, e) = get_elem?-lt workers i h in (w, e, get_elem?-mem workers i w e)

-- What a worker has to meet for a job: it takes jobs, has room, and lists the type of the job or the
-- type CUSTOM.
pub record IsEligible (job : Job) (w : WorkerNode) : Type 0 where
  pub available : (w.status ≡ online) ⊎ (w.status ≡ busy)
  pub room : w.current_job_count < w.max_concurrency
  pub capable :
      (elem (type_name job.type) w.capabilities.job_types ≡ true)
      ⊎ (elem "CUSTOM" w.capabilities.job_types ≡ true)

eligible-IsEligible : (job : Job) (w : WorkerNode) → is_eligible job w ≡ true → IsEligible job w
unfolding is_eligible elem
eligible-IsEligible job w h = record {
  available = ground arith;
  room = ground arith;
  capable = ground arith;
}

not_eligible : (job : Job) (w : WorkerNode) → is_eligible job w ≡ false → ¬ IsEligible job w
unfolding is_eligible elem
not_eligible job w h is = ground (arith, is.available, is.room, is.capable)

-- `draw` is an index that `Math.random` may lead to.
abbrev pub IsDraw : (ℕ → ℕ) → Type 0
IsDraw draw = (n : ℕ) → 0 < n → draw n < n

module _ (draw : ℕ → ℕ) (lb : LoadBalancer) (job : Job) where
  dispatch-Picks :
      (strategy : LoadBalancingStrategy) (eligible : List WorkerNode)
      → IsDraw draw
      → 0 < length eligible
      → Picks eligible (dispatch draw lb strategy job eligible).0
  unfolding dispatch round_robin
  dispatch-Picks least_loaded_strategy eligible fair h = least_loaded-Picks eligible h
  dispatch-Picks round_robin_strategy eligible fair h = get-Picks eligible _ (grind arith)
  dispatch-Picks affinity_strategy eligible fair h = affinity-Picks job eligible h
  dispatch-Picks random_strategy eligible fair h = get-Picks eligible _ (fair (length eligible) h)

  -- A choice of one of the workers that meets what is asked for, or of none where no worker does.
  pub record Selected (workers : List WorkerNode) (r : Option WorkerNode) : Type 0 where
    pub sound : (w : WorkerNode) → r ≡ some w → Mem w workers × IsEligible job w
    pub complete : r ≡ none → All (λ w. ¬ IsEligible job w) workers

  filter-empty :
      (workers : List WorkerNode)
      → length (filter_eligible job workers) ≡ 0
      → All (λ w. ¬ IsEligible job w) workers
  unfolding filter_eligible filter
  filter-empty [] h = tt
  filter-empty (w ∷ workers) h = elim (Bool-cases (is_eligible job w)) [
    | inl t ↦ absurd (ground arith)
    | inr f ↦ (not_eligible job w f, filter-empty workers (rw f at h))
  ]

  -- For a draw below its bound, the worker chosen is one of the workers, is online or busy, has room, and
  -- lists the type of the job or the type CUSTOM; and none is chosen only if no worker is so.
  pub select_worker_correct :
      (workers : List WorkerNode)
      → IsDraw draw
      → Selected workers (select_worker draw lb job workers).0
  unfolding select_worker
  select_worker_correct workers fair =
      let eligible = filter_eligible job workers in
      elim (ℕ_discrete (length eligible) 0) [
        | yes empty ↦ rw empty record {
          sound = λ w e. absurd (ground arith);
          complete = λ _. filter-empty workers empty;
        }
        | no some_left ↦
            let (w, e, m) = dispatch-Picks lb.strategy eligible fair (omega arith) in
            rw (==_ne (length eligible) 0 some_left) record {
              sound = λ v f.
                  unfold filter_eligible in
                  (let (there, passes) =
                      mem-filter (is_eligible job) workers v
                        (subst (λ z. Mem z eligible) (some-injective w v (sym e ∙ f)) m) in
                    (there, eligible-IsEligible job v passes));
              complete = λ f. absurd (ground arith);
            }
      ]
