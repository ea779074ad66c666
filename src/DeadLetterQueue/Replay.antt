-- ===== src/DeadLetterQueue/Replay.antt =====
-- src/services/RetryService.ts: what `replayAllDLQ` adds, removes and counts.
use backend_task_orchestrati.Prelude.{
  ℕ, suc, ◌+◌, ◌≡◌, ◌≢◌, ◌⊎◌, refl, sym, ap, ◌∙◌, Bool, true, false, String, none, some, List, [],
  ◌∷◌, ◌++◌, map, filter, length, is_some, if◌then◌else◌, not, All, arith, Bool-cases, inl, inr,
}
use mathlib.Core.List.{append_assoc, append-nil}
use backend_task_orchestrati.Prelude.Eq.{==_refl, string_eq, elem}
use backend_task_orchestrati.Prelude.Keys.{IsUnique}
use backend_task_orchestrati.JobQueue.{QueueJobPayload}
use backend_task_orchestrati.WorkerProcess.{DlqEntry}
use backend_task_orchestrati.DeadLetterQueue.Store.{DlqStore}
use backend_task_orchestrati.DeadLetterQueue.{
  Replays, replay_payload, replay_job, replay_loop, replay_all_dlq,
}

-- What an entry asks the main queue to run: its job, as an attempt more than it had.
pub record IsReplayOf (entry : DlqEntry) (p : QueueJobPayload) : Type 0 where
  pub job_id : p.job_id ≡ entry.original_job_id
  pub type : p.type ≡ entry.type
  pub payload : p.payload ≡ entry.payload
  pub organization_id : p.organization_id ≡ entry.organization_id
  pub attempt_number : p.attempt_number ≡ suc entry.total_attempts

-- The payloads are those of the entries, one for each and in their order.
abbrev pub AreReplaysOf : List (String × DlqEntry) → List QueueJobPayload → Type 0
AreReplaysOf [] [] = Unit {0}
AreReplaysOf [] (p ∷ ps) = ⊥
AreReplaysOf (e ∷ es) [] = ⊥
AreReplaysOf (e ∷ es) (p ∷ ps) = IsReplayOf e.1 p × AreReplaysOf es ps

payloads-AreReplaysOf :
    (es : List (String × DlqEntry)) → AreReplaysOf es (map (λ e. replay_payload e.1) es)
payloads-AreReplaysOf [] = tt
payloads-AreReplaysOf (e ∷ es) = (
  record {
    job_id = refl;
    type = refl;
    payload = refl;
    organization_id = refl;
    attempt_number = omega arith;
  },
  payloads-AreReplaysOf es,
)

module _ {S : Type 0} (queue : DlqStore S) (adds : String → Bool) where
  abbrev pub is_gone : S → String × DlqEntry → Bool
  is_gone s e = not (is_some (queue.get_job e.0 s))

  abbrev pub taken : List (String × DlqEntry) → List (String × DlqEntry)
  taken es = filter (λ e. adds e.0) es

  -- An entry that was taken is gone, or is there as it was; one that was not taken is there.
  abbrev pub Fate : S → String × DlqEntry → Type 0
  Fate after e =
      ((adds e.0 ≡ true) × (queue.get_job e.0 after ≡ none)) ⊎ (queue.get_job e.0 after ≡ some e.1)

  -- What a run of the loop over `es` makes of a count and a state.
  record Ran (es : List (String × DlqEntry)) (n : ℕ) (r : Replays S) (out : ℕ × Replays S)
      : Type 0 where
    added : out.1.added ≡ r.added ++ map (λ e. replay_payload e.1) (taken es)
    counted : out.0 ≡ n + length (filter (is_gone out.1.store) es)
    each : All (Fate out.1.store) es
    others :
        (id : String)
        → elem id (map (λ e. e.0) es) ≡ false
        → queue.get_job id out.1.store ≡ queue.get_job id r.store

  -- How a replay ends for its entry, at its end.
  abbrev Ends : Bool → S → String × DlqEntry → Type 0
  Ends fine s e =
      ((fine ≡ true) × (adds e.0 ≡ true) × (queue.get_job e.0 s ≡ none))
      ⊎ ((fine ≡ false) × (queue.get_job e.0 s ≡ some e.1))

  -- What one replay does.
  record Replayed (e : String × DlqEntry) (r : Replays S) (out : Bool × Replays S) : Type 0 where
    added : out.1.added ≡ r.added ++ map (λ e. replay_payload e.1) (taken (e ∷ []))
    fate : Ends out.0 out.1.store e
    others : (id : String) → e.0 ≢ id → queue.get_job id out.1.store ≡ queue.get_job id r.store

  replay_job_lem :
      (e : String × DlqEntry) (r : Replays S)
      → queue.get_job e.0 r.store ≡ some e.1
      → Replayed e r (replay_job queue adds e.0 r)
  unfolding replay_job filter
  replay_job_lem e r there = elim (Bool-cases (adds e.0)) [
    | inr refused ↦
        rw (replay_job, there, refused)
          record {
            added = rw refused (sym (append-nil r.added));
            fate = inr (refl, there);
            others = λ id other. refl;
          }
    | inl takes ↦
        rw (replay_job, there, takes)
          record {
            added = rw takes refl;
            fate = elim (Bool-cases (queue.remove e.0 r.store).0) [
              | inl done ↦ inl (done, takes, queue.remove_done e.0 r.store done)
              | inr thrown ↦ inr (thrown, queue.remove_thrown e.0 r.store thrown ∙ there)
            ];
            others = λ id other. queue.remove_other e.0 id r.store other;
          }
  ]

  -- What the others meet is what the first replay left of them.
  others_there :
      (h : String × DlqEntry) (es : List (String × DlqEntry)) (s s' : S)
      → elem h.0 (map (λ e. e.0) es) ≡ false
      → ((id : String) → h.0 ≢ id → queue.get_job id s' ≡ queue.get_job id s)
      → All (λ e. queue.get_job e.0 s ≡ some e.1) es
      → All (λ e. queue.get_job e.0 s' ≡ some e.1) es
  unfolding elem
  others_there h [] s s' fresh same all = tt
  others_there h (e ∷ es) s s' fresh same all = (
    same e.0 (λ (p : h.0 ≡ e.0). ground (arith, fresh, p, ==_refl e.0)) ∙ all.0,
    others_there h es s s' (ground (arith, fresh)) same all.1,
  )

  taken-cons :
      (e : String × DlqEntry) (es : List (String × DlqEntry))
      → map (λ e. replay_payload e.1) (taken (e ∷ [])) ++ map (λ e. replay_payload e.1) (taken es)
        ≡ map (λ e. replay_payload e.1) (taken (e ∷ es))
  unfolding filter
  taken-cons e es = elim (Bool-cases (adds e.0)) [ inl t ↦ rw t refl | inr f ↦ rw f refl ]

  Ends-is_gone :
      (fine : Bool) (s after : S) (e : String × DlqEntry)
      → Ends fine s e
      → queue.get_job e.0 after ≡ queue.get_job e.0 s
      → is_gone after e ≡ fine
  Ends-is_gone fine s after e (inl h) kept = rw (kept, h.2, h.0) refl
  Ends-is_gone fine s after e (inr h) kept = rw (kept, h.1, h.0) refl

  Ends-Fate :
      (fine : Bool) (s after : S) (e : String × DlqEntry)
      → Ends fine s e
      → queue.get_job e.0 after ≡ queue.get_job e.0 s
      → Fate after e
  Ends-Fate fine s after e (inl h) kept = inl (h.1, kept ∙ h.2)
  Ends-Fate fine s after e (inr h) kept = inr (kept ∙ h.1)

  count_step :
      (e : String × DlqEntry) (es : List (String × DlqEntry)) (n : ℕ) (fine : Bool) (s : S)
      → is_gone s e ≡ fine
      → (if fine then n + 1 else n) + length (filter (is_gone s) es)
        ≡ n + length (filter (is_gone s) (e ∷ es))
  unfolding filter
  count_step e es n true s same = rw same (omega arith)
  count_step e es n false s same = rw same refl

  replay_loop_lem :
      (es : List (String × DlqEntry)) (n : ℕ) (r : Replays S)
      → IsUnique (map (λ e. e.0) es)
      → All (λ e. queue.get_job e.0 r.store ≡ some e.1) es
      → Ran es n r (replay_loop queue adds es n r)
  unfolding replay_loop filter elem
  replay_loop_lem [] n r unique there = record {
    added = sym (append-nil r.added);
    counted = omega arith;
    each = tt;
    others = λ id _. refl;
  }
  replay_loop_lem (e ∷ es) n r unique there =
      let out = replay_job queue adds e.0 r in
      let first = replay_job_lem e r there.0 in
      let next = (if out.0 then n + 1 else n) in
      let rest =
        replay_loop_lem es next out.1 unique.1
          (others_there e es r.store out.1.store unique.0 first.others there.1) in
      let last = replay_loop queue adds es next out.1 in
      let kept : queue.get_job e.0 last.1.store ≡ queue.get_job e.0 out.1.store =
        rest.others e.0 unique.0 in
      record {
        added =
            rest.added
            ∙ rw first.added (
                append_assoc r.added (map (λ e. replay_payload e.1) (taken (e ∷ []))) _
                ∙ ap (◌++◌ r.added) (taken-cons e es));
        counted =
            rest.counted
            ∙ count_step e es n out.0 last.1.store
                (Ends-is_gone out.0 out.1.store last.1.store e first.fate kept);
        each = (Ends-Fate out.0 out.1.store last.1.store e first.fate kept, rest.each);
        others = λ id missing.
            rest.others id (ground (arith, missing))
            ∙ first.others id (λ (p : e.0 ≡ id). ground (arith, missing, p, ==_refl id));
      }

  -- The replay of all, in the state before it.
  pub record ReplayedAll (store : S) (out : ℕ × Replays S) : Type 0 where
    pub added : AreReplaysOf (taken (queue.get_jobs 0 100 store)) out.1.added
    pub counted : out.0 ≡ length (filter (is_gone out.1.store) (queue.get_jobs 0 100 store))
    pub each : All (Fate out.1.store) (queue.get_jobs 0 100 store)
    pub others :
        (id : String)
        → elem id (map (λ e. e.0) (queue.get_jobs 0 100 store)) ≡ false
        → queue.get_job id out.1.store ≡ queue.get_job id store

  -- A replay of all adds, in their order, the job of each entry listed at 0 to 100 that the main queue
  -- takes, as an attempt more than it had. Of the listed entries only such that were taken are gone after
  -- it, as many as it counts; every other entry, listed or not, is as it was.
  pub replay_all_dlq_correct : (store : S) → ReplayedAll store (replay_all_dlq queue adds store)
  unfolding replay_all_dlq
  replay_all_dlq_correct store =
      let es = queue.get_jobs 0 100 store in
      let ran =
        replay_loop_lem es 0 (record { store = store; added = [] })
          (queue.get_jobs-IsUnique 0 100 store) (queue.get_jobs-get_job 0 100 store) in
      record {
        added = rw ran.added (payloads-AreReplaysOf (taken es));
        counted = ran.counted ∙ omega arith;
        each = ran.each;
        others = ran.others;
      }
