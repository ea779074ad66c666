-- ===== src/LoadBalancer/Least.antt =====
-- `leastLoaded`: the load order, and the choice that it makes.
use mathlib.Core.Logic.Or
use mathlib.Core.List.{Mem, Mem-prop, mem-cons, mem-cons_self, mem-cons_of_mem}
use native.Mathlib.Nat.{le_of_mul-le-mul_right, mul-le-mul_right}
use backend_task_orchestrati.Prelude.{
  ℕ, ◌*◌, ◌≤◌, ◌<◌, max, ◌≡◌, true, false, some, List, [], ◌∷◌, arith, All, length, refl,
  Bool-cases, inl, inr,
}
use backend_task_orchestrati.Models.Worker.{WorkerNode}
use backend_task_orchestrati.LoadBalancer.{is_less_loaded, least_loaded_from, least_loaded}

-- `a / b ≤ c / d ≤ e / f`
le_fraction_trans : (a b c d e f : ℕ) → 0 < d → a * d ≤ c * b → c * f ≤ e * d → a * f ≤ e * b
le_fraction_trans a b c d e f pos h k =
    le_of_mul-le-mul_right (omega (arith, mul-le-mul_right f h, mul-le-mul_right b k)) pos

not_less→le :
    (a b : WorkerNode)
    → is_less_loaded b a ≡ false
    → a.current_job_count * max b.max_concurrency 1 ≤ b.current_job_count * max a.max_concurrency 1
unfolding is_less_loaded
not_less→le a b h = grind arith

le→not_less :
    (a b : WorkerNode)
    → a.current_job_count * max b.max_concurrency 1 ≤ b.current_job_count * max a.max_concurrency 1
    → is_less_loaded b a ≡ false
unfolding is_less_loaded
le→not_less a b h = ground arith

less_asym : (a b : WorkerNode) → is_less_loaded a b ≡ true → is_less_loaded b a ≡ false
unfolding is_less_loaded
less_asym a b h = ground arith

not_less_refl : (a : WorkerNode) → is_less_loaded a a ≡ false
unfolding is_less_loaded
not_less_refl a = ground arith

not_less_trans :
    (a b c : WorkerNode)
    → is_less_loaded b a ≡ false
    → is_less_loaded c b ≡ false
    → is_less_loaded c a ≡ false
not_less_trans a b c h k = le→not_less a c (
    le_fraction_trans a.current_job_count (max a.max_concurrency 1) b.current_job_count
      (max b.max_concurrency 1) c.current_job_count (max c.max_concurrency 1) (omega arith)
      (not_less→le a b h) (not_less→le b c k))

-- `r` is one of the workers, and none of them has a smaller load.
pub record IsLeast (workers : List WorkerNode) (r : WorkerNode) : Type 0 where
  pub member : Mem r workers
  pub least : All (λ u. is_less_loaded u r ≡ false) workers

least_loaded_from-IsLeast :
    (best : WorkerNode) (rest : List WorkerNode)
    → IsLeast (best ∷ rest) (least_loaded_from best rest)
unfolding least_loaded_from
least_loaded_from-IsLeast best [] = record {
  member = mem-cons_self;
  least = (not_less_refl best, tt);
}
least_loaded_from-IsLeast best (w ∷ rest) = elim (Bool-cases (is_less_loaded w best)) [
  | inl less ↦
      let ih = least_loaded_from-IsLeast w rest in
      rw less record {
        member = mem-cons_of_mem best ih.member;
        least = (not_less_trans _ w best ih.least.0 (less_asym w best less), ih.least);
      }
  | inr kept ↦
      let ih = least_loaded_from-IsLeast best rest in
      rw kept record {
        member = skip_second ih.member;
        least = (ih.least.0, (not_less_trans _ best w ih.least.0 kept, ih.least.1));
      }
]
  where
    skip_second : {r a b : WorkerNode} {l : List WorkerNode} → Mem r (a ∷ l) → Mem r (a ∷ b ∷ l)
    skip_second m =
        Or.elim Mem-prop (mem-cons.0 m) (λ e. rw e mem-cons_self)
          (λ t. mem-cons_of_mem _ (mem-cons_of_mem _ t))

-- From a pool that is not empty, `leastLoaded` picks a worker of least load.
pub least_loaded_correct :
    (workers : List WorkerNode)
    → 0 < length workers
    → (r : WorkerNode) × (least_loaded workers ≡ some r) × IsLeast workers r
unfolding least_loaded
least_loaded_correct [] h = absurd (omega arith)
least_loaded_correct (w ∷ rest) h =
    (least_loaded_from w rest, refl, least_loaded_from-IsLeast w rest)
