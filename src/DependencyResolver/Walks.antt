-- ===== src/DependencyResolver/Walks.antt =====
-- Walks along dependencies, jobs from which every walk ends, and the count that the searches run on.
use backend_task_orchestrati.Prelude.{
  ℕ, ◌<◌, ◌≤◌, ◌≡◌, refl, ap, true, false, not, String, List, [], ◌∷◌, ◌++◌, length, filter, arith,
  Bool-cases, inl, inr,
}
use backend_task_orchestrati.Prelude.Eq.{◌==◌, string_eq, elem}
use backend_task_orchestrati.Prelude.Maps.{lookup}
use backend_task_orchestrati.DependencyResolver.{DepNode, Graph}
use backend_task_orchestrati.DependencyResolver.Search.{dependency_ids, from_first}

-- The first job depends on the second.
abbrev pub DependsOn : Graph → String → String → Type 0
DependsOn graph a b = elem b (dependency_ids a graph) ≡ true

abbrev pub IsWalk : Graph → String → List String → Type 0
IsWalk graph a [] = Unit
IsWalk graph a (b ∷ rest) = DependsOn graph a b × IsWalk graph b rest

-- A walk that starts at a job.
abbrev pub IsWalkFrom : Graph → String → List String → Type 0
IsWalkFrom graph root [] = ⊥
IsWalkFrom graph root (a ∷ rest) = (root ≡ a) × IsWalk graph a rest

-- Every walk from the job ends.
pub data IsGrounded (graph : Graph) : String → Type 0 where
  grounded :
      {a : String} → ((b : String) → DependsOn graph a b → IsGrounded graph b) → IsGrounded graph a

pub IsGrounded-step :
    {graph : Graph} {a : String} (b : String)
    → IsGrounded graph a
    → DependsOn graph a b
    → IsGrounded graph b
IsGrounded-step b (grounded below) edge = below b edge

-- A walk leads from the first job to the second.
pub data Reaches (graph : Graph) : String → String → Type 0 where
  here : {a : String} → Reaches graph a a
  along : {a b c : String} → DependsOn graph a b → Reaches graph b c → Reaches graph a c

pub Reaches-step :
    {graph : Graph} {a b c : String} → Reaches graph a b → DependsOn graph b c → Reaches graph a c
Reaches-step here edge = along edge here
Reaches-step (along first r) edge = along first (Reaches-step r edge)

pub Reaches-IsGrounded :
    {graph : Graph} {a b : String} → IsGrounded graph a → Reaches graph a b → IsGrounded graph b
Reaches-IsGrounded g here = g
Reaches-IsGrounded g (along {b} edge r) = Reaches-IsGrounded (IsGrounded-step b g edge) r

-- No walk from a grounded job comes back to it.
pub not-IsGrounded :
    {graph : Graph} {a : String} (b : String)
    → IsGrounded graph a
    → DependsOn graph a b
    → Reaches graph b a
    → ⊥
not-IsGrounded b (grounded below) edge here = not-IsGrounded b (below b edge) edge here
not-IsGrounded b (grounded below) edge (along {b = c} next r) =
    not-IsGrounded c (below b edge) next (Reaches-step r edge)

pub IsWalk-concat :
    (graph : Graph) (root a b : String) (path : List String)
    → IsWalkFrom graph root (path ++ a ∷ [])
    → DependsOn graph a b
    → IsWalkFrom graph root ((path ++ a ∷ []) ++ b ∷ [])
IsWalk-concat graph root a b [] (start, walk) edge = (start, (edge, tt))
IsWalk-concat graph root a b (c ∷ path) (start, walk) edge = (start, go c path walk)
  where
    go :
        (c : String) (path : List String)
        → IsWalk graph c (path ++ a ∷ [])
        → IsWalk graph c ((path ++ a ∷ []) ++ b ∷ [])
    go c [] (last, end) = (last, (edge, tt))
    go c (d ∷ path) (next, rest) = (next, go d path rest)

-- Where the job is on the path, the path is what comes before its first place, and the rest.
pub from_first_lem :
    (id : String) (path : List String)
    → elem id path ≡ true
    → (before rest : List String) × (path ≡ before ++ id ∷ rest) × (from_first id path ≡ id ∷ rest)
unfolding from_first elem
from_first_lem id [] h = absurd (ground (arith, h))
from_first_lem id (x ∷ path) h = elim (Bool-cases (x == id)) [
  | inl same ↦ (
    [],
    path,
    ap (λ y. y ∷ path) ((string_eq.equal_iff x id).0 same),
    rw same (ap (λ y. y ∷ path) ((string_eq.equal_iff x id).0 same)),
  )
  | inr other ↦
      let (before, rest, split, found) = from_first_lem id path (rw other at h) in
      (x ∷ before, rest, ap (λ l. x ∷ l) split, rw other found)
]

-- The nodes that are not visited.
abbrev pub unvisited : Graph → List String → ℕ
unvisited graph visited =
    length (filter (λ (entry : String × DepNode). not (elem entry.0 visited)) graph)

pub unvisited-cons :
    (graph : Graph) (id : String) (visited : List String)
    → unvisited graph (id ∷ visited) ≤ unvisited graph visited
unfolding filter elem
unvisited-cons [] id visited = omega arith
unvisited-cons (entry ∷ graph) id visited = ground (arith, unvisited-cons graph id visited)

dependency_ids-cons :
    (k id : String) (node : DepNode) (graph : Graph)
    → (k == id) ≡ false
    → dependency_ids id ((k, node) ∷ graph) ≡ dependency_ids id graph
unfolding dependency_ids lookup
dependency_ids-cons k id node graph other = rw (other, dependency_ids, lookup) refl

-- A visit of a node that was not visited lowers the count.
pub unvisited-lt :
    (graph : Graph) (id : String) (visited : List String)
    → elem id visited ≡ false
    → (b : String) → DependsOn graph id b
    → unvisited graph (id ∷ visited) < unvisited graph visited
unfolding filter elem dependency_ids lookup
unvisited-lt [] id visited new b edge = absurd (ground (arith, edge))
unvisited-lt ((k, node) ∷ graph) id visited new b edge = elim (Bool-cases (k == id)) [
  | inl same ↦ ground (
    arith,
    (string_eq.equal_iff k id).0 same,
    string_eq.equal_iff id k,
    unvisited-cons graph id visited,
  )
  | inr other ↦ ground (
    arith,
    string_eq.equal_iff id k,
    string_eq.equal_iff k id,
    unvisited-lt graph id visited new b (rw (dependency_ids-cons k id node graph other) at edge),
  )
]

pub unvisited-le : (graph : Graph) (visited : List String) → unvisited graph visited ≤ length graph
unfolding filter
unvisited-le [] visited = omega arith
unvisited-le (entry ∷ graph) visited = ground (arith, unvisited-le graph visited)
