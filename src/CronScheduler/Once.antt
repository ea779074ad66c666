-- ===== src/CronScheduler/Once.antt =====
-- src/scheduler/CronScheduler.ts: a tick triggers each due schedule once.
use backend_task_orchestrati.Prelude.{
  ℕ, ◌<◌, ◌≡◌, refl, sym, ◌∙◌, Bool, true, false, not, ◌&&◌, String, Option, none, some, List, [],
  ◌∷◌, ◌++◌, map, arith, Bool-cases, Option-cases, inl, inr, if◌then◌else◌, filter, All, All_map,
  All_map₂, All_pure, subst,
}
use mathlib.Core.List.{append_assoc, append-nil}
use backend_task_orchestrati.Prelude.Eq.{◌==◌, ==_refl, string_eq, elem}
use backend_task_orchestrati.Models.Job.{CreateJobDto}
use backend_task_orchestrati.Models.Schedule.{Schedule}
use backend_task_orchestrati.CronScheduler.{
  Schedules, is_due, fetch_due_schedules, advanced, update_schedule, job_dto, Tick,
  trigger_schedule, trigger_all, tick,
}

abbrev pub ids_of : List Schedule → List String
ids_of schedules = map (λ (s : Schedule). s.id) schedules

elem-ids-snoc :
    (id : String) (done : List Schedule) (s : Schedule)
    → elem id (ids_of (done ++ s ∷ [])) ≡ (if s.id == id then true else elem id (ids_of done))
unfolding elem
elem-ids-snoc id [] s = ground arith
elem-ids-snoc id (d ∷ done) s = ground (arith, elem-ids-snoc id done s)

module _ (now : ℕ) where
  -- A schedule that was triggered is not due.
  abbrev pub IsQuiet : List Schedule → Schedules → Type 0
  IsQuiet done table = All (λ s. elem s.id (ids_of done) ≡ true → is_due now s ≡ false) table

  -- A schedule that is due and not locked is among those.
  abbrev pub IsCovered : (String → Bool) → List Schedule → Schedules → Type 0
  IsCovered locked due table =
      All (λ s. (is_due now s && not (locked s.id)) ≡ true → elem s.id (ids_of due) ≡ true) table

  advanced-not_due :
      (next : ℕ) (s : Schedule) → now < next → is_due now (advanced now next s) ≡ false
  advanced-not_due next s later = ground (arith, later)

  IsQuiet-update :
      (s : Schedule) (next : ℕ) (done : List Schedule) (table : Schedules)
      → now < next
      → IsQuiet done table
      → IsQuiet (done ++ s ∷ []) (update_schedule s.id (advanced now next) table)
  unfolding update_schedule
  IsQuiet-update s next done [] later quiet = tt
  IsQuiet-update s next done (r ∷ table) later quiet = (
    elim (Bool-cases (r.id == s.id)) [
      | inl same ↦ rw same (λ h. advanced-not_due next r later)
      | inr other ↦ rw other (λ h. quiet.0 (
          sym (
            elem-ids-snoc r.id done s
            ∙ ground (arith, other, string_eq.equal_iff s.id r.id, string_eq.equal_iff r.id s.id))
          ∙ h))
    ],
    IsQuiet-update s next done table later quiet.1,
  )

  IsCovered-update :
      (locked : String → Bool) (due : List Schedule) (s : Schedule) (next : ℕ) (table : Schedules)
      → now < next
      → IsCovered locked due table
      → IsCovered locked due (update_schedule s.id (advanced now next) table)
  unfolding update_schedule
  IsCovered-update locked due s next [] later covered = tt
  IsCovered-update locked due s next (r ∷ table) later covered = (
    elim (Bool-cases (r.id == s.id)) [
      | inl same ↦ rw same (λ h. absurd (ground (arith, h, advanced-not_due next r later)))
      | inr other ↦ rw other covered.0
    ],
    IsCovered-update locked due s next table later covered.1,
  )

unfoldable pub find_schedule : String → Schedules → Option Schedule
find_schedule id [] = none
find_schedule id (s ∷ table) = if s.id == id then some s else find_schedule id table

find_schedule-update :
    (id : String) (s : Schedule) (next now : ℕ) (table : Schedules)
    → (s.id == id) ≡ false
    → find_schedule id (update_schedule s.id (advanced now next) table) ≡ find_schedule id table
unfolding find_schedule update_schedule
find_schedule-update id s next now [] other = refl
find_schedule-update id s next now (r ∷ table) other = ground (
  arith,
  other,
  string_eq.equal_iff r.id s.id,
  string_eq.equal_iff r.id id,
  string_eq.equal_iff s.id id,
  find_schedule-update id s next now table other,
)

-- What a tick makes of the schedules that it fetched.
pub record Ticked (now : ℕ) (due : List Schedule) (before : Schedules) (after : Tick) : Type 0 where
  -- It triggers the first of them, in their order, and all if no error ends it.
  pub rest : List Schedule
  pub in_order : due ≡ after.triggered ++ rest
  pub whole : after.failed ≡ false → rest ≡ []
  -- None of those is due any more, also the one at which an error ended the tick.
  pub once : IsQuiet now after.triggered after.table
  pub others :
      (id : String)
      → elem id (ids_of after.triggered) ≡ false
      → find_schedule id after.table ≡ find_schedule id before

module _ (now : ℕ) (iso : String) (next_run : String → String → Option ℕ)
    (accepts : CreateJobDto → Bool)
    (later : (expression timezone : String) (next : ℕ)
      → next_run expression timezone ≡ some next
      → now < next)
    (locked : String → Bool) (fetched : List Schedule) (before : Schedules) where
  -- The state of the loop, with the schedules that are left.
  record Loop (due : List Schedule) (t : Tick) : Type 0 where
    in_order : fetched ≡ t.triggered ++ due
    once : IsQuiet now t.triggered t.table
    covered : IsCovered now locked fetched t.table
    others :
        (id : String)
        → elem id (ids_of t.triggered) ≡ false
        → find_schedule id t.table ≡ find_schedule id before

  Loop-trigger :
      (s : Schedule) (due : List Schedule) (t : Tick) (next : ℕ) (failed : Bool)
      → next_run s.cron_expression s.timezone ≡ some next
      → Loop (s ∷ due) t
      → Loop due (record {
        table = update_schedule s.id (advanced now next) t.table;
        triggered = t.triggered ++ s ∷ [];
        failed = failed;
      })
  Loop-trigger s due t next failed runs loop =
      let after = later s.cron_expression s.timezone next runs in
      record {
        in_order = loop.in_order ∙ sym (append_assoc t.triggered (s ∷ []) due);
        once = IsQuiet-update now s next t.triggered t.table after loop.once;
        covered = IsCovered-update now locked fetched s next t.table after loop.covered;
        others = λ id absent.
            find_schedule-update id s next now t.table
              (ground (arith, absent, elem-ids-snoc id t.triggered s))
            ∙ loop.others id (ground (arith, absent, elem-ids-snoc id t.triggered s));
      }

  trigger_all-Loop :
      (due : List Schedule) (t : Tick)
      → t.failed ≡ false
      → Loop due t
      → (rest : List Schedule) × Loop rest (trigger_all now iso next_run accepts due t)
        × ((trigger_all now iso next_run accepts due t).failed ≡ false → rest ≡ [])
  unfolding trigger_all trigger_schedule
  trigger_all-Loop [] t fine loop = ([], loop, λ e. refl)
  trigger_all-Loop (s ∷ due) t fine loop =
      elim (Option-cases (next_run s.cron_expression s.timezone)) [
        | inl bad ↦
            rw (bad, trigger_schedule)
              (
                s ∷ due,
                record {
                  in_order = loop.in_order;
                  once = loop.once;
                  covered = loop.covered;
                  others = loop.others;
                },
                λ e. absurd (ground (arith, e)),
              )
        | inr (next, runs) ↦ elim (Bool-cases (accepts (job_dto iso s))) [
          | inl good ↦
              rw (runs, trigger_schedule, good)
                (trigger_all-Loop due _ refl (Loop-trigger s due t next false runs loop))
          | inr refused ↦
              rw (runs, trigger_schedule, refused)
                (due, Loop-trigger s due t next true runs loop, λ e. absurd (ground (arith, e)))
        ]
      ]

filter-covers :
    (p : Schedule → Bool) (table : Schedules)
    → All (λ s. p s ≡ true → elem s.id (ids_of (filter p table)) ≡ true) table
unfolding filter elem
filter-covers p [] = tt
filter-covers p (s ∷ table) = (
  λ h. rw h (ground (arith, ==_refl s.id)),
  All_map table (filter-covers p table) (λ r covered h. ground (arith, covered h)),
)

filter_none :
    (p : Schedule → Bool) (table : Schedules)
    → All (λ s. p s ≡ true → ⊥) table
    → filter p table ≡ []
unfolding filter
filter_none p [] none_of = refl
filter_none p (s ∷ table) none_of = elim (Bool-cases (p s)) [
  | inl bad ↦ absurd (none_of.0 bad)
  | inr good ↦ rw good (filter_none p table none_of.1)
]

none_triggered : (now : ℕ) (table : Schedules) → IsQuiet now [] table
unfolding elem
none_triggered now table = All_pure _ table (λ s h. absurd (ground (arith, h)))

-- For cron-parser giving times after the clock: a tick triggers the schedules that it fetched in their
-- order, each once, up to the first at which an error ends it, and all if none does. None that it
-- triggered is due at the same clock again, and the others are as they were; without an error the next
-- fetch at the same clock and under the same locks finds none.
pub tick_correct :
    (now : ℕ) (iso : String) (next_run : String → String → Option ℕ) (accepts : CreateJobDto → Bool)
    (locked : String → Bool) (table : Schedules)
    → ((expression timezone : String) (next : ℕ)
        → next_run expression timezone ≡ some next
        → now < next)
    → let after = tick now iso next_run accepts locked table in
      Ticked now (fetch_due_schedules now locked table) table after
      × (after.failed ≡ false → fetch_due_schedules now locked after.table ≡ [])
unfolding tick fetch_due_schedules
tick_correct now iso next_run accepts locked table later =
    let fetched = fetch_due_schedules now locked table in
    let (rest, loop, whole) =
      trigger_all-Loop now iso next_run accepts later locked fetched table fetched
        (record { table = table; triggered = []; failed = false }) refl
        (record {
          in_order = refl;
          once = none_triggered now table;
          covered = filter-covers (λ s. is_due now s && not (locked s.id)) table;
          others = λ id absent. refl;
        }) in
    (
      record {
        rest = rest;
        in_order = loop.in_order;
        whole = whole;
        once = loop.once;
        others = loop.others;
      },
      λ fine. filter_none _ _ (
          All_map₂ _ loop.once loop.covered (λ s quiet covered due.
            let all : fetched ≡ (tick now iso next_run accepts locked table).triggered =
              loop.in_order ∙ rw (whole fine) (append-nil _) in
            absurd (
              ground
                (arith, due, quiet (subst (λ l. elem s.id (ids_of l) ≡ true) all (covered due)))))),
    )
