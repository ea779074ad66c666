-- ===== src/DistributedLock/Tests.antt =====
-- A server that is a map from keys to values with deadlines, and the theorem there.
use backend_task_orchestrati.Prelude.{
  ℕ, ◌+◌, ◌≡◌, refl, Bool, true, false, String, Option, none, some, List, [], ◌∷◌, ltb,
  if◌then◌else◌, arith, Bool-cases, inl, inr,
}
use backend_task_orchestrati.Prelude.Eq.{◌==◌, nat_eq, string_eq, ==_refl}
use backend_task_orchestrati.Prelude.Maps.{lookup, insert, remove, lookup-insert}
use backend_task_orchestrati.DistributedLock.{
  is_held, try_acquire, release, has_token, release_script,
}
use backend_task_orchestrati.DistributedLock.Server.{Redis, lock_key}
use backend_task_orchestrati.DistributedLock.Exclusion.{
  Action, acquiring, releasing, World, act, act_all, IsProper, IsUnlocked, lock_exclusive,
}

abbrev Store : Type 0
Store = List (String × (String × ℕ))

abbrev alive : ℕ → Option (String × ℕ) → Option String
alive now none = none
alive now (some (v, deadline)) = if ltb now deadline then some v else none

abbrev get : ℕ → String → Store → Option String
get now k s = alive now (lookup k s)

abbrev set_nx_px : ℕ → String → String → ℕ → Store → Bool × Store
set_nx_px now k v ttl s = elim (get now k s) [
  | none ↦ (true, insert k (v, now + ttl) s)
  | some w ↦ (false, s)
]

abbrev pexpire : ℕ → String → ℕ → Store → Bool × Store
pexpire now k ttl s = elim (get now k s) [
  | none ↦ (false, s)
  | some v ↦ (true, insert k (v, now + ttl) s)
]

get-insert :
    (t : ℕ) (k v : String) (deadline : ℕ) (s : Store)
    → get t k (insert k (v, deadline) s) ≡ (if ltb t deadline then some v else none)
get-insert t k v deadline s = rw (lookup-insert k k (v, deadline) s, ==_refl k)

abbrev map_server : Redis Store
map_server = record {
  get = get;
  set_nx_px = set_nx_px;
  pexpire = pexpire;
  del = λ now k s. remove k s;
  set_held = λ now k v w ttl s held. rw (set_nx_px, held);
  set_free = λ now k v ttl s free. rw (set_nx_px, free);
  get-set = λ now t k v ttl s free le. rw (set_nx_px, free) (get-insert t k v (now + ttl) s);
  pexpire_held = λ now k v ttl s held. rw (pexpire, held);
  get-pexpire = λ now t k v ttl s held le. rw (pexpire, held) (get-insert t k v (now + ttl) s);
}

abbrev start : World Store
start = record { server = []; locks_of = λ c. [] }

-- The first client takes the lock, the second is refused, and takes it once the first gave it back.
abbrev calls : List (ℕ × Action)
calls = (1, acquiring 0 "s" 10) ∷ (2, releasing 0) ∷ (3, acquiring 1 "t" 10) ∷ []

abbrev released : World Store
released =
    act map_server "p:" "r" 2 (releasing 0) (act map_server "p:" "r" 1 (acquiring 0 "s" 10) start)

released-IsUnlocked : (c : ℕ) → lookup "r" (released.locks_of c) ≡ none
unfolding act try_acquire release release_script has_token lock_key lookup insert remove
released-IsUnlocked c = elim (Bool-cases (c == 0)) [ inl first ↦ rw first | inr other ↦ rw other ]

start-IsUnlocked : IsUnlocked map_server "p:" "r" start
unfolding lookup
start-IsUnlocked c = refl

calls-IsProper : IsProper map_server "p:" "r" 0 calls start
calls-IsProper = (
  omega arith,
  (λ c e found. absurd (ground (arith, start-IsUnlocked c, found))),
  (
    omega arith,
    tt,
    (omega arith, (λ c e found. absurd (ground (arith, released-IsUnlocked c, found))), tt),
  ),
)

second_holds : is_held 5 "r" ((act_all map_server "p:" "r" calls start).locks_of 1) ≡ true
unfolding is_held act_all act try_acquire release release_script has_token lock_key lookup insert
    remove
second_holds = refl

lock_exclusive_example : ◌≡◌ {A = ℕ} 1 1
lock_exclusive_example =
    lock_exclusive map_server "p:" "r" 0 5 calls start 1 1 start-IsUnlocked calls-IsProper
      (omega arith) second_holds second_holds
