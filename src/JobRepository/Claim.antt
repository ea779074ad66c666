-- ===== src/JobRepository/Claim.antt =====
-- `claimPendingJobs`.
use mathlib.Core.Option
use mathlib.Core.List.Perm
use mathlib.Core.Bool.{Bool-set, false≢true}
use mathlib.Core.HLevel.{Π_prop}
use backend_task_orchestrati.Prelude.{
  ℕ, ◌≡◌, refl, sym, ap, ◌∙◌, Bool, true, false, not, ◌&&◌, ◌||◌, String, Option, List, [], ◌∷◌,
  map, filter, take, drop, if◌then◌else◌, ltb, arith, Bool-cases, inl, inr, All, All_map, All-perm,
  All-prop, All_take, All_take_drop, All_filter, filter-All, All_map₂, All_of_filter, map-All,
  length, length-take, length-map, length-perm, min, Perm,
}
use backend_task_orchestrati.Prelude.Eq.{◌==◌, nat_eq, string_eq, elem}
use backend_task_orchestrati.Prelude.Sort.{
  sort_by-perm, sort_by-IsSortedBy, IsSortedBy, StrictOrder, take_first,
}
use backend_task_orchestrati.Prelude.Keys.{
  IsUnique, has_key, has_key_self, not-has_key-filter, elem-perm, select_by_key,
}
use backend_task_orchestrati.Models.Job.{Job}
use backend_task_orchestrati.JobRepository.{
  Jobs, ids, find_by_id, update_where, is_runnable, claims_before, priority_rank, scheduled_before,
  candidates, mark_queued, claim_pending_jobs,
}
use backend_task_orchestrati.JobRepository.Rows.{
  find_by_id-update_where, filter-update_where, ids-update_where,
}

scheduled_before_asym :
    (a b : Option ℕ) → scheduled_before a b ≡ true → scheduled_before b a ≡ false
scheduled_before_asym a b h = ground arith

scheduled_before_not_trans :
    (a b c : Option ℕ)
    → scheduled_before b a ≡ false
    → scheduled_before c b ≡ false
    → scheduled_before c a ≡ false
scheduled_before_not_trans a b c h k = ground arith

-- The three keys in lexicographic order.
abbrev lex : ℕ → ℕ → Option ℕ → Option ℕ → ℕ → ℕ → Bool
lex p q s t c d =
    ltb p q || p == q && (scheduled_before s t || not (scheduled_before t s) && ltb c d)

lex_not_trans :
    (p q r : ℕ) (s t u : Option ℕ) (c d e : ℕ)
    → lex q p t s d c ≡ false
    → lex r q u t e d ≡ false
    → lex r p u s e c ≡ false
lex_not_trans p q r s t u c d e h k = ground (
  arith,
  scheduled_before_not_trans s t u,
  scheduled_before_not_trans t u s,
  scheduled_before_not_trans u s t,
)

claims_before-StrictOrder : StrictOrder claims_before
unfolding claims_before
claims_before-StrictOrder = record {
  asym = λ a b h. ground (arith, scheduled_before_asym a.scheduled_at b.scheduled_at);
  not_trans = λ a b c.
      lex_not_trans (priority_rank a.priority) (priority_rank b.priority) (priority_rank c.priority)
        a.scheduled_at b.scheduled_at c.scheduled_at a.created_at b.created_at c.created_at;
}

-- The rows of the table that a claim takes, as they were.
abbrev pub taken : ℕ → (String → Bool) → ℕ → Jobs → Jobs
taken now locked limit table =
    filter (has_key (λ (j : Job). j.id) (take limit (candidates now locked table))) table

module _ (now : ℕ) (locked : String → Bool) (limit : ℕ) (table : Jobs) where
  -- The claimed jobs are the taken rows, now queued.
  pub claimed-map :
      (claim_pending_jobs now locked limit table).0
      ≡ map (mark_queued now) (taken now locked limit table)
  unfolding claim_pending_jobs mark_queued
  claimed-map = filter-update_where _ (mark_queued now) (λ j. refl) (λ j. refl) table

  -- With distinct ids, the taken rows are the first `limit` candidates, in some order.
  pub taken-perm :
      IsUnique (ids table)
      → Perm (taken now locked limit table) (take limit (candidates now locked table))
  unfolding candidates
  taken-perm unique =
      select_by_key (λ (j : Job). j.id) limit (λ j. is_runnable now j && not (locked j.id)) table _
        unique (sort_by-perm claims_before _)

pub record Claimed (now : ℕ) (locked : String → Bool) (limit : ℕ) (table : Jobs)
    (result : Jobs × Jobs) : Type 0 where
  -- The claimed jobs are rows that were there, now queued.
  pub marked : result.0 ≡ map (mark_queued now) (taken now locked limit table)
  -- Each of them could run, and no other transaction held it.
  pub runnable :
      All (λ j. (is_runnable now j ≡ true) × (locked j.id ≡ false)) (taken now locked limit table)
  -- There are as many as asked for, or all that could run.
  pub counted : length result.0 ≡ min limit (length (candidates now locked table))
  -- No row that could run and was left goes before a claimed one.
  pub best :
      All
        (λ c.
          All
            (λ u.
              (is_runnable now u && not (locked u.id)) ≡ true
              → has_key (λ (j : Job). j.id) (taken now locked limit table) u ≡ false
              → claims_before u c ≡ false)
            table)
        (taken now locked limit table)

module _ (now : ℕ) (locked : String → Bool) (limit : ℕ) (table : Jobs)
    (unique : IsUnique (ids table)) where
  abbrev can_take : Job → Bool
  can_take j = is_runnable now j && not (locked j.id)

  ranked-perm : Perm (candidates now locked table) (filter can_take table)
  unfolding candidates
  ranked-perm = sort_by-perm claims_before _

  taken-runnable : All (λ j. can_take j ≡ true) (taken now locked limit table)
  taken-runnable =
      All-perm _ (λ j. Bool-set _ _) (Perm.symm (taken-perm now locked limit table unique))
        (All_take _ limit _
          (All-perm _ (λ j. Bool-set _ _) (Perm.symm ranked-perm) (filter-All can_take table)))

  -- `u` could run and was left.
  abbrev IsLeft : Job → Job → Type 0
  IsLeft c u =
      has_key (λ (j : Job). j.id) (taken now locked limit table) u ≡ false
      → claims_before u c ≡ false

  IsLeft-after :
      (c : Job)
      → All (λ u. claims_before u c ≡ false) (drop limit (candidates now locked table))
      → All (λ u. can_take u ≡ true → IsLeft c u) table
  IsLeft-after c rest =
      let ranked = candidates now locked table in
      let first : All (IsLeft c) (take limit ranked) =
        All_map _ (has_key_self (λ (j : Job). j.id) (take limit ranked))
          (λ u has left. absurd (false≢true (sym left ∙ same_key u ∙ has))) in
      All_filter _ can_take table (
        All-perm (IsLeft c) (λ u. Π_prop (λ _. Bool-set _ _)) ranked-perm
          (All_take_drop (IsLeft c) limit ranked first (All_map _ rest (λ u h _. h))))
    where
      same_key :
          (u : Job)
          → has_key (λ (j : Job). j.id) (taken now locked limit table) u
            ≡ has_key (λ (j : Job). j.id) (take limit (candidates now locked table)) u
      same_key u =
          elem-perm u.id (Perm.map (λ (j : Job). j.id) (taken-perm now locked limit table unique))

  -- A claim takes the first candidates, and queues them.
  pub claim_correct : Claimed now locked limit table (claim_pending_jobs now locked limit table)
  unfolding candidates
  claim_correct =
      let sorted : IsSortedBy claims_before (candidates now locked table) =
        sort_by-IsSortedBy claims_before claims_before-StrictOrder (filter can_take table) in
      record {
        marked = claimed-map now locked limit table;
        runnable = All_map _ taken-runnable (λ j h. ground arith);
        counted =
            ap length (claimed-map now locked limit table)
            ∙ length-map (mark_queued now) (taken now locked limit table)
            ∙ length-perm (taken-perm now locked limit table unique)
            ∙ length-take limit (candidates now locked table);
        best =
            All-perm _ (λ c. All-prop (λ u. Π_prop (λ _. Π_prop (λ _. Bool-set _ _))) table)
              (Perm.symm (taken-perm now locked limit table unique))
              (All_map _ (take_first claims_before limit _ sorted) (λ c rest. IsLeft-after c rest));
      }

and_left : (a b : Bool) → (a && b) ≡ true → a ≡ true
and_left a b h = ground arith

runnable_not_chosen :
    (now later : ℕ) (chosen : List String) (rows : Jobs)
    → All
        (λ j. is_runnable later j ≡ true → elem j.id chosen ≡ false)
        (update_where (λ j. elem j.id chosen) (mark_queued now) rows)
unfolding update_where mark_queued is_runnable
runnable_not_chosen now later chosen [] = tt
runnable_not_chosen now later chosen (j ∷ rows) = elim (Bool-cases (elem j.id chosen)) [
  | inl t ↦ rw t ((λ h. absurd (false≢true h)), runnable_not_chosen now later chosen rows)
  | inr f ↦ rw f ((λ _. f), runnable_not_chosen now later chosen rows)
]

module _ (now : ℕ) (locked : String → Bool) (limit : ℕ) (table : Jobs) where
  abbrev pub claimed : Jobs
  claimed = (claim_pending_jobs now locked limit table).0

  abbrev pub after : Jobs
  after = (claim_pending_jobs now locked limit table).1

  pub ids-after : ids after ≡ ids table
  unfolding claim_pending_jobs mark_queued
  ids-after = ids-update_where _ (mark_queued now) (λ j. refl) table

  -- A row that was not claimed is found as it was, and a claimed one is found queued.
  pub find_by_id-after :
      (id : String)
      → find_by_id id after
        ≡ Option.map
            (λ j.
              if has_key (λ (k : Job). k.id) (take limit (candidates now locked table)) j
              then mark_queued now j
              else j)
            (find_by_id id table)
  unfolding claim_pending_jobs mark_queued
  find_by_id-after id = find_by_id-update_where _ (mark_queued now) (λ j. refl) id table

  -- Whatever can run after a claim was not claimed.
  runnable_after :
      (later : ℕ)
      → All (λ j. is_runnable later j ≡ true → has_key (λ (k : Job). k.id) claimed j ≡ false) after
  unfolding claim_pending_jobs
  runnable_after later =
      let chosen = ids (take limit (candidates now locked table)) in
      All_map _ (runnable_not_chosen now later chosen table) (λ j h can.
        not-has_key-filter (λ (k : Job). k.id) (λ id. elem id chosen) j.id after (h can))

-- Two claims, one after the other, share no job: no job is handed out twice while it is queued.
pub claim_disjoint :
    (now later : ℕ) (locked locked' : String → Bool) (limit limit' : ℕ) (table : Jobs)
    → IsUnique (ids table)
    → All
        (λ j. has_key (λ (k : Job). k.id) (claimed now locked limit table) j ≡ false)
        (claimed later locked' limit' (after now locked limit table))
unfolding mark_queued
claim_disjoint now later locked locked' limit limit' table unique =
    let table' = after now locked limit table in
    let unique' : IsUnique (ids table') = rw (ids-after now locked limit table) unique in
    let others = All_of_filter _ _ table' (runnable_after now locked limit table later) in
    rw (claimed-map later locked' limit' table') (
      map-All _ (mark_queued later) (taken later locked' limit' table') (
        All_map₂ _ (taken-runnable later locked' limit' table' unique') others
          (λ j can free. free (and_left _ _ can))))
