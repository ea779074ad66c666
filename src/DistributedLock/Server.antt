-- ===== src/DistributedLock/Server.antt =====
-- The commands of Redis that the lock uses, as Redis documents them: SET with NX and PX, GET,
-- PEXPIRE and DEL. A script that the server evaluates runs alone.
use Prim.Native.String.{◌++◌}
use backend_task_orchestrati.Prelude.{
  ℕ, ◌+◌, ◌≤◌, ◌≡◌, Bool, true, false, String, Option, none, some, ltb, if◌then◌else◌,
}

pub record Redis (S : Type 0) : Type 0 where
  pub get : (now : ℕ) → String → S → Option String
  pub set_nx_px : (now : ℕ) → String → String → ℕ → S → Bool × S
  pub pexpire : (now : ℕ) → String → ℕ → S → Bool × S
  pub del : (now : ℕ) → String → S → S
  -- NX: a key that is there is left.
  pub set_held :
      (now : ℕ) (k v w : String) (ttl : ℕ) (s : S)
      → get now k s ≡ some w
      → set_nx_px now k v ttl s ≡ (false, s)
  pub set_free :
      (now : ℕ) (k v : String) (ttl : ℕ) (s : S)
      → get now k s ≡ none
      → (set_nx_px now k v ttl s).0 ≡ true
  -- PX: a key that is set is there for its time to live.
  pub get-set :
      (now t : ℕ) (k v : String) (ttl : ℕ) (s : S)
      → get now k s ≡ none
      → now ≤ t
      → get t k (set_nx_px now k v ttl s).1 ≡ (if ltb t (now + ttl) then some v else none)
  pub pexpire_held :
      (now : ℕ) (k v : String) (ttl : ℕ) (s : S)
      → get now k s ≡ some v
      → (pexpire now k ttl s).0 ≡ true
  pub get-pexpire :
      (now t : ℕ) (k v : String) (ttl : ℕ) (s : S)
      → get now k s ≡ some v
      → now ≤ t
      → get t k (pexpire now k ttl s).1 ≡ (if ltb t (now + ttl) then some v else none)

-- `LOCK_PREFIX + resource`
unfoldable pub lock_key : String → String → String
lock_key key_prefix resource = key_prefix ++ "lock:" ++ resource
