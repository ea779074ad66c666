-- ===== src/DistributedLock/Exclusion.antt =====
-- Clients that share a server: no two hold the lock of a resource at once.
use backend_task_orchestrati.Prelude.{
  ℕ, ◌≤◌, ◌<◌, ◌≡◌, ◌≢◌, sym, subst, ◌∙◌, true, String, none, some, List, [], ◌∷◌, if◌then◌else◌,
  arith, Bool-cases, Option-cases, inl, inr,
}
use mathlib.Core.Option.{some-injective}
use backend_task_orchestrati.Prelude.Eq.{◌==◌, nat_eq, string_eq, ==_refl}
use backend_task_orchestrati.Prelude.Maps.{
  lookup, insert, modify, remove, lookup-insert, lookup-modify, lookup-remove,
}
use backend_task_orchestrati.DistributedLock.{
  LockEntry, Locks, is_held, try_acquire, has_token, renew_script, renew, release_script, release,
}
use backend_task_orchestrati.DistributedLock.Server.{Redis, lock_key}

-- A call of one of the clients, which are numbered.
pub data Action : Type 0 where
  acquiring : (client : ℕ) (token : String) (ttl_ms : ℕ) → Action
  renewing : (client : ℕ) (ttl_ms : ℕ) → Action
  releasing : (client : ℕ) → Action

pub record World (S : Type 0) : Type 0 where
  pub server : S
  pub locks_of : ℕ → Locks

abbrev with_client : {S : Type 0} → World S → ℕ → Locks × S → World S
with_client w client (locks, server) = record {
  server = server;
  locks_of = λ c. if c == client then locks else w.locks_of c;
}

inserted_entry :
    (resource : String) (new e : LockEntry) (locks : Locks)
    → lookup resource (insert resource new locks) ≡ some e
    → new ≡ e
inserted_entry resource new e locks found =
    some-injective new e
      (sym (lookup-insert resource resource new locks ∙ rw (==_refl resource)) ∙ found)

no_entry :
    (resource : String) (e : LockEntry) (locks : Locks)
    → lookup resource (remove resource locks) ≡ some e
    → ⊥
no_entry resource e locks found =
    let absent : lookup resource (remove resource locks) ≡ none =
      lookup-remove resource resource locks ∙ rw (==_refl resource) in
    ground (arith, absent, found)

modified_entry :
    (resource : String) (change : LockEntry → LockEntry) (old e : LockEntry) (locks : Locks)
    → lookup resource locks ≡ some old
    → lookup resource (modify resource change locks) ≡ some e
    → change old ≡ e
modified_entry resource change old e locks is found =
    some-injective (change old) e
      (sym (lookup-modify resource resource change locks ∙ rw (==_refl resource, is)) ∙ found)

module _ {S : Type 0} (redis : Redis S) (key_prefix resource : String) where
  abbrev key : String
  key = lock_key key_prefix resource

  -- A call at a time, its reply read in the same instant.
  unfoldable pub act : ℕ → Action → World S → World S
  act t (acquiring client token ttl_ms) w =
      with_client w client
        (try_acquire redis key_prefix t t token resource ttl_ms (w.locks_of client, w.server)).1
  act t (renewing client ttl_ms) w =
      with_client w client
        (renew redis key_prefix t t resource ttl_ms (w.locks_of client, w.server)).1
  act t (releasing client) w =
      with_client w client (release redis key_prefix t resource (w.locks_of client, w.server))

  unfoldable pub act_all : List (ℕ × Action) → World S → World S
  act_all [] w = w
  act_all ((t, a) ∷ rest) w = act_all rest (act t a w)

  -- A new token is no client's.
  abbrev pub IsFresh : Action → World S → Type 0
  IsFresh (acquiring client token ttl_ms) w =
      (c : ℕ) (e : LockEntry) → lookup resource (w.locks_of c) ≡ some e → e.token ≢ token
  IsFresh (renewing client ttl_ms) w = Unit
  IsFresh (releasing client) w = Unit

  -- The calls come in the order of their times, and each new token is fresh.
  abbrev pub IsProper : ℕ → List (ℕ × Action) → World S → Type 0
  IsProper now [] w = Unit
  IsProper now ((t, a) ∷ rest) w = (now ≤ t) × IsFresh a w × IsProper t rest (act t a w)

  abbrev pub last_time : ℕ → List (ℕ × Action) → ℕ
  last_time now [] = now
  last_time now ((t, a) ∷ rest) = last_time t rest

  -- What a client believes of its lock is so at the server, from now on; and no two clients have the
  -- same token.
  pub record Consistent (now : ℕ) (w : World S) : Type 0 where
    pub backed :
        (c : ℕ) (e : LockEntry) (t : ℕ)
        → lookup resource (w.locks_of c) ≡ some e
        → now ≤ t
        → t < e.expires_at
        → redis.get t key w.server ≡ some e.token
    pub distinct :
        (c d : ℕ) (e f : LockEntry)
        → lookup resource (w.locks_of c) ≡ some e
        → lookup resource (w.locks_of d) ≡ some f
        → e.token ≡ f.token
        → c ≡ d

  later-Consistent : (now t : ℕ) (w : World S) → now ≤ t → Consistent now w → Consistent t w
  later-Consistent now t w le c = record {
    backed = λ d e u found ge lt. c.backed d e u found (omega arith) lt;
    distinct = c.distinct;
  }

  -- At most the client whose token the server has may believe that it holds the lock.
  only_client :
      (t : ℕ) (w : World S) (c d : ℕ) (e f : LockEntry)
      → Consistent t w
      → lookup resource (w.locks_of c) ≡ some e
      → lookup resource (w.locks_of d) ≡ some f
      → redis.get t key w.server ≡ some e.token
      → t < f.expires_at
      → c ≡ d
  only_client t w c d e f i found found' has lt =
      i.distinct c d e f found found'
        (some-injective _ _ (sym has ∙ i.backed d f t found' (omega arith) lt))

  no_client :
      (t : ℕ) (w : World S) (d : ℕ) (f : LockEntry)
      → Consistent t w
      → lookup resource (w.locks_of d) ≡ some f
      → redis.get t key w.server ≡ none
      → f.expires_at ≤ t
  no_client t w d f i found free = ground (arith, i.backed d f t found)

  -- A client's call keeps the world consistent if what it leaves backs its own entry, with a token
  -- of its own, and all entries of the other clients.
  record Fits (now client : ℕ) (w : World S) (locks : Locks) (server : S) : Type 0 where
    own :
        (e : LockEntry) (t : ℕ)
        → lookup resource locks ≡ some e
        → now ≤ t
        → t < e.expires_at
        → redis.get t key server ≡ some e.token
    own_token :
        (e : LockEntry) (d : ℕ) (f : LockEntry)
        → lookup resource locks ≡ some e
        → d ≢ client
        → lookup resource (w.locks_of d) ≡ some f
        → f.token ≢ e.token
    others :
        (d : ℕ) (f : LockEntry) (t : ℕ)
        → d ≢ client
        → lookup resource (w.locks_of d) ≡ some f
        → now ≤ t
        → t < f.expires_at
        → redis.get t key server ≡ some f.token

  Fits-Consistent :
      (now client : ℕ) (w : World S) (locks : Locks) (server : S)
      → Consistent now w
      → Fits now client w locks server
      → Consistent now (with_client w client (locks, server))
  Fits-Consistent now client w locks server i fits = record {
    backed = λ c e t found ge lt. elim (Bool-cases (c == client)) [
      | inl same ↦ fits.own e t (rw same at found) ge lt
      | inr differs ↦ fits.others c e t (ground (arith, differs)) (rw differs at found) ge lt
    ];
    distinct = λ c d e f found found' same_token. elim (Bool-cases (c == client)) [
      | inl c_is ↦ elim (Bool-cases (d == client)) [
        | inl d_is ↦ ground (arith, c_is, d_is)
        | inr d_not ↦ absurd (
            fits.own_token e d f (rw c_is at found) (ground (arith, d_not)) (rw d_not at found')
              (sym same_token))
      ]
      | inr c_not ↦ elim (Bool-cases (d == client)) [
        | inl d_is ↦ absurd (
            fits.own_token f c e (rw d_is at found') (ground (arith, c_not)) (rw c_not at found)
              same_token)
        | inr d_not ↦ i.distinct c d e f (rw c_not at found) (rw d_not at found') same_token
      ]
    ];
  }

  -- The client's entry and the server are as they were.
  Fits-same :
      (now client : ℕ) (w : World S)
      → Consistent now w
      → Fits now client w (w.locks_of client) w.server
  Fits-same now client w i = record {
    own = λ e t. i.backed client e t;
    own_token = λ e d f found other found' same. other (i.distinct d client f e found' found same);
    others = λ d f t _. i.backed d f t;
  }

  -- The client drops its entry, and the server is as it was.
  Fits-dropped :
      (now client : ℕ) (w : World S)
      → Consistent now w
      → Fits now client w (remove resource (w.locks_of client)) w.server
  Fits-dropped now client w i = record {
    own = λ e t found. absurd (no_entry resource e (w.locks_of client) found);
    own_token = λ e d f found. absurd (no_entry resource e (w.locks_of client) found);
    others = λ d f t _. i.backed d f t;
  }

  acquire-Fits :
      (now client : ℕ) (token : String) (ttl_ms : ℕ) (w : World S)
      → Consistent now w
      → IsFresh (acquiring client token ttl_ms) w
      → let (locks, server) =
          (try_acquire redis key_prefix now now token resource ttl_ms
            (w.locks_of client, w.server)).1 in
        Fits now client w locks server
  unfolding try_acquire
  acquire-Fits now client token ttl_ms w i fresh =
      elim (Option-cases (redis.get now key w.server)) [
        | inr (v, held) ↦
            rw (redis.set_held now key token v ttl_ms w.server held) (Fits-same now client w i)
        | inl free ↦ rw (redis.set_free now key token ttl_ms w.server free) (record {
          own = λ e t found ge lt.
              subst
                (λ (x : LockEntry).
                  t < x.expires_at
                  → redis.get t key (redis.set_nx_px now key token ttl_ms w.server).1
                    ≡ some x.token)
                (inserted_entry resource _ e (w.locks_of client) found)
                (λ before.
                  redis.get-set now t key token ttl_ms w.server free ge ∙ ground (arith, before))
                lt;
          own_token = λ e d f found other found'.
              subst (λ (x : LockEntry). f.token ≢ x.token)
                (inserted_entry resource _ e (w.locks_of client) found) (fresh d f found');
          others =
              λ d f t other found ge lt. absurd (ground (arith, no_client now w d f i found free));
        })
      ]

  has_token-get :
      (now : ℕ) (token : String) (server : S)
      → has_token redis key_prefix now key token server ≡ true
      → redis.get now key server ≡ some token
  unfolding has_token
  has_token-get now token server h = elim (Option-cases (redis.get now key server)) [
    | inl free ↦ absurd (ground (arith, free))
    | inr (v, held) ↦ ground (arith, held, string_eq.equal_iff v token)
  ]

  renew-Fits :
      (now client ttl_ms : ℕ) (w : World S)
      → Consistent now w
      → let (locks, server) =
          (renew redis key_prefix now now resource ttl_ms (w.locks_of client, w.server)).1 in
        Fits now client w locks server
  unfolding renew renew_script
  renew-Fits now client ttl_ms w i = elim (Option-cases (lookup resource (w.locks_of client))) [
    | inl absent ↦ rw (renew, absent) (Fits-same now client w i)
    | inr (old, is) ↦ elim (Bool-cases (has_token redis key_prefix now key old.token w.server)) [
      | inr lost ↦ rw (renew, is, renew_script, lost) (Fits-dropped now client w i)
      | inl has ↦
          let held = has_token-get now old.token w.server has in
          rw
            (
              renew,
              is,
              renew_script,
              has,
              redis.pexpire_held now key old.token ttl_ms w.server held,
            )
            (record {
              own = λ e t found ge lt.
                  subst
                    (λ (x : LockEntry).
                      t < x.expires_at
                      → redis.get t key (redis.pexpire now key ttl_ms w.server).1 ≡ some x.token)
                    (modified_entry resource _ old e (w.locks_of client) is found)
                    (λ before.
                      redis.get-pexpire now t key old.token ttl_ms w.server held ge
                      ∙ ground (arith, before))
                    lt;
              own_token = λ e d f found other found'.
                  subst (λ (x : LockEntry). f.token ≢ x.token)
                    (modified_entry resource _ old e (w.locks_of client) is found)
                    (λ same. other (i.distinct d client f old found' is same));
              others = λ d f t other found ge lt.
                  absurd
                    (other (sym (only_client now w client d old f i is found held (omega arith))));
            })
    ]
  ]

  release-Fits :
      (now client : ℕ) (w : World S)
      → Consistent now w
      → let (locks, server) = release redis key_prefix now resource (w.locks_of client, w.server) in
        Fits now client w locks server
  unfolding release release_script
  release-Fits now client w i = elim (Option-cases (lookup resource (w.locks_of client))) [
    | inl absent ↦ rw (release, absent) (Fits-same now client w i)
    | inr (old, is) ↦ elim (Bool-cases (has_token redis key_prefix now key old.token w.server)) [
      | inr lost ↦ rw (release, is, release_script, lost) (Fits-dropped now client w i)
      | inl has ↦
          let held = has_token-get now old.token w.server has in
          rw (release, is, release_script, has)
            (record {
              own = λ e t found. absurd (no_entry resource e (w.locks_of client) found);
              own_token = λ e d f found. absurd (no_entry resource e (w.locks_of client) found);
              others = λ d f t other found ge lt.
                  absurd
                    (other (sym (only_client now w client d old f i is found held (omega arith))));
            })
    ]
  ]

  act-Consistent :
      (t : ℕ) (a : Action) (w : World S) → IsFresh a w → Consistent t w → Consistent t (act t a w)
  unfolding act
  act-Consistent t (acquiring client token ttl_ms) w fresh i =
      Fits-Consistent t client w _ _ i (acquire-Fits t client token ttl_ms w i fresh)
  act-Consistent t (renewing client ttl_ms) w fresh i =
      Fits-Consistent t client w _ _ i (renew-Fits t client ttl_ms w i)
  act-Consistent t (releasing client) w fresh i =
      Fits-Consistent t client w _ _ i (release-Fits t client w i)

  act_all-Consistent :
      (now : ℕ) (calls : List (ℕ × Action)) (w : World S)
      → IsProper now calls w
      → Consistent now w
      → Consistent (last_time now calls) (act_all calls w)
  unfolding act_all
  act_all-Consistent now [] w proper i = i
  act_all-Consistent now ((t, a) ∷ rest) w (le, fresh, proper) i =
      act_all-Consistent t rest (act t a w) proper
        (act-Consistent t a w fresh (later-Consistent now t w le i))

  -- A world in which no client has locked the resource yet.
  abbrev pub IsUnlocked : World S → Type 0
  IsUnlocked w = (c : ℕ) → lookup resource (w.locks_of c) ≡ none

  unlocked-Consistent : (now : ℕ) (w : World S) → IsUnlocked w → Consistent now w
  unlocked-Consistent now w free = record {
    backed = λ c e t found. absurd (ground (arith, free c, found));
    distinct = λ c d e f found. absurd (ground (arith, free c, found));
  }

  held_entry :
      (t : ℕ) (locks : Locks)
      → is_held t resource locks ≡ true
      → (e : LockEntry) × (lookup resource locks ≡ some e) × (t < e.expires_at)
  unfolding is_held
  held_entry t locks h = elim (Option-cases (lookup resource locks)) [
    | inl absent ↦ absurd (ground (arith, absent))
    | inr (e, found) ↦ (e, found, ground (arith, found))
  ]

  -- Clients that start without the lock acquire, renew and release it in any order, each call at the
  -- time of its reply, with fresh tokens. Then no two of them hold it at once, from the last call on.
  pub lock_exclusive :
      (now t : ℕ) (calls : List (ℕ × Action)) (w : World S) (c d : ℕ)
      → IsUnlocked w
      → IsProper now calls w
      → last_time now calls ≤ t
      → is_held t resource ((act_all calls w).locks_of c) ≡ true
      → is_held t resource ((act_all calls w).locks_of d) ≡ true
      → c ≡ d
  lock_exclusive now t calls w c d free proper le h k =
      let after = act_all calls w in
      let i =
        later-Consistent (last_time now calls) t after le
          (act_all-Consistent now calls w proper (unlocked-Consistent now w free)) in
      let (e, found, lt) = held_entry t (after.locks_of c) h in
      let (f, found', lt') = held_entry t (after.locks_of d) k in
      only_client t after c d e f i found found' (i.backed c e t found (omega arith) lt) lt'
