-- ===== src/DistributedLock.antt =====
-- src/distributed/DistributedLock.ts, over a Redis server.
-- A client's state is its map `locks` with the server. `now` is the server's clock when it runs the
-- command, and `replied` the client's clock when it reads the reply.
pub mod Server
pub mod Exclusion
mod Tests
use backend_task_orchestrati.Prelude.{
  ℕ, ◌+◌, Bool, true, false, String, Option, none, some, List, [], ◌∷◌, ltb, if◌then◌else◌,
}
use backend_task_orchestrati.Prelude.Eq.{◌==◌, string_eq}
use backend_task_orchestrati.Prelude.Maps.{lookup, insert, modify, remove}
use backend_task_orchestrati.DistributedLock.Server.{Redis, lock_key}

pub record LockEntry : Type 0 where
  pub token : String
  pub expires_at : ℕ

abbrev pub Locks : Type 0
Locks = List (String × LockEntry)

unfoldable pub is_held : ℕ → String → Locks → Bool
is_held now resource locks = elim (lookup resource locks) [
  | none ↦ false
  | some entry ↦ ltb now entry.expires_at
]

module _ {S : Type 0} (redis : Redis S) (key_prefix : String) where
  -- `token` is the fresh UUID.
  unfoldable pub try_acquire :
      (now replied : ℕ) (token resource : String) (ttl_ms : ℕ) → Locks × S → Bool × (Locks × S)
  try_acquire now replied token resource ttl_ms (locks, server) =
      let (acquired, server') =
        redis.set_nx_px now (lock_key key_prefix resource) token ttl_ms server in
      (
        acquired,
        (
          if acquired
              then insert resource (record { token = token; expires_at = replied + ttl_ms }) locks
              else locks,
          server',
        ),
      )

  -- Whether the script finds the client's token under the key.
  unfoldable pub has_token : ℕ → String → String → S → Bool
  has_token now key token server = elim (redis.get now key server) [
    | none ↦ false
    | some value ↦ value == token
  ]

  unfoldable pub renew_script : ℕ → String → String → ℕ → S → Bool × S
  renew_script now key token ttl_ms server =
      if has_token now key token server
      then redis.pexpire now key ttl_ms server
      else (false, server)

  unfoldable pub renew :
      (now replied : ℕ) (resource : String) (ttl_ms : ℕ) → Locks × S → Bool × (Locks × S)
  renew now replied resource ttl_ms (locks, server) = elim (lookup resource locks) [
    | none ↦ (false, (locks, server))
    | some entry ↦
        let (renewed, server') =
          renew_script now (lock_key key_prefix resource) entry.token ttl_ms server in
        (
          renewed,
          (
            if renewed
                then modify resource (λ e. record e { expires_at = replied + ttl_ms }) locks
                else remove resource locks,
            server',
          ),
        )
  ]

  unfoldable pub release_script : ℕ → String → String → S → S
  release_script now key token server =
      if has_token now key token server then redis.del now key server else server

  unfoldable pub release : (now : ℕ) (resource : String) → Locks × S → Locks × S
  release now resource (locks, server) = elim (lookup resource locks) [
    | none ↦ (locks, server)
    | some entry ↦ (
      remove resource locks,
      release_script now (lock_key key_prefix resource) entry.token server,
    )
  ]

  -- `fn` runs between the two clocks, and gives what it returns or throws.
  unfoldable pub with_lock :
      {A : Type 0} (now replied later : ℕ) (token resource : String) (ttl_ms : ℕ)
      → (fn : Locks × S → A × (Locks × S)) → Locks × S
      → Option A × (Locks × S)
  with_lock now replied later token resource ttl_ms fn state =
      let (acquired, state') = try_acquire now replied token resource ttl_ms state in
      if acquired
      then (let (a, state'') = fn state' in (some a, release later resource state''))
      else (none, state')
