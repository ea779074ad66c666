-- ===== src/JobRepository/Query.antt =====
-- src/db/repositories/JobRepository.ts: `findMany` and `findDueCronJobs`
-- `ilike` is PostgreSQL's ILIKE of a pattern and a text. Columns of an enumeration are ordered as the
-- migration lists their values; nulls come last in ascending order. `ties` is how the database orders
-- rows that tie: it may do so anew for each query, so that two pages need not agree.
use Prim.Native.String.{◌++◌ as join}
use backend_task_orchestrati.Prelude.{
  ℕ, ◌+◌, ◌-◌, ◌*◌, ◌/◌, Bool, true, false, not, ◌&&◌, String, Option, none, some, List, [], ◌∷◌,
  ltb, leb, nat_beq, if◌then◌else◌, or_else, is_some, length, take, drop, filter,
}
use backend_task_orchestrati.Prelude.Eq.{◌==◌, string_eq, elem}
use backend_task_orchestrati.Prelude.Sort.{sort_by}
use backend_task_orchestrati.Models.Job.{
  JobStatus, pending, completed, failed, status_code, status_eq, JobPriority, critical, high,
  medium, low, background, type_eq, Job,
}
use backend_task_orchestrati.Models.Filter.{
  OneOrMany, one, many, SortBy, by_created_at, by_scheduled_at, by_priority, by_status, SortOrder,
  ascending, descending, JobFilter, PaginatedJobs,
}
use backend_task_orchestrati.JobRepository.{Jobs}

-- A filter that leaves every condition out.
abbrev pub no_filter : JobFilter
no_filter = record {
  status = none;
  priority = none;
  type = none;
  organization_id = none;
  created_by = none;
  tags = none;
  scheduled_before = none;
  scheduled_after = none;
  created_before = none;
  created_after = none;
  search = none;
  page = none;
  limit = none;
  sort_by = none;
  sort_order = none;
}

-- `if (value) query.where(…)`: a condition that is left out holds of every row.
abbrev pub given : {A : Type 0} → Option A → (A → Bool) → Bool
given none test = true
given (some a) test = test a

-- A text that is empty is left out as well.
abbrev pub given_text : Option String → (String → Bool) → Bool
given_text none test = true
given_text (some text) test = if text == "" then true else test text

abbrev pub statuses_of : OneOrMany JobStatus → List JobStatus
statuses_of (one s) = s ∷ []
statuses_of (many list) = list

abbrev pub priority_code : JobPriority → ℕ
priority_code critical = 0
priority_code high = 1
priority_code medium = 2
priority_code low = 3
priority_code background = 4

unfoldable pub has_priority : JobPriority → List JobPriority → Bool
has_priority p [] = false
has_priority p (q ∷ rest) =
    if nat_beq (priority_code q) (priority_code p) then true else has_priority p rest

abbrev pub priorities_of : OneOrMany JobPriority → List JobPriority
priorities_of (one p) = p ∷ []
priorities_of (many list) = list

-- `tags @> wanted`
unfoldable pub contains_all : List String → List String → Bool
contains_all tags [] = true
contains_all tags (t ∷ wanted) = elem t tags && contains_all tags wanted

abbrev pub at_most : ℕ → Option ℕ → Bool
at_most bound none = false
at_most bound (some at) = leb at bound

abbrev pub at_least : ℕ → Option ℕ → Bool
at_least bound none = false
at_least bound (some at) = leb bound at

unfoldable pub matches : (ilike : String → String → Bool) → JobFilter → Job → Bool
matches ilike f j =
    given f.status (λ s. elem j.status (statuses_of s))
    && given f.priority (λ p. has_priority j.priority (priorities_of p))
    && given f.type (λ t. j.type == t)
    && given_text f.organization_id (λ id. j.organization_id == id)
    && given_text f.created_by (λ id. j.created_by == id)
    && given f.tags (λ wanted. contains_all j.tags wanted)
    && given f.scheduled_before (λ at. at_most at j.scheduled_at)
    && given f.scheduled_after (λ at. at_least at j.scheduled_at)
    && given f.created_before (λ at. leb j.created_at at)
    && given f.created_after (λ at. leb at j.created_at)
    && given_text f.search (λ text. ilike (join "%" (join text "%")) j.name)

-- `NULLS LAST`
abbrev pub null_last : Option ℕ → Option ℕ → Bool
null_last (some a) (some b) = ltb a b
null_last (some a) none = true
null_last none b = false

abbrev pub column_before : SortBy → Job → Job → Bool
column_before by_created_at a b = ltb a.created_at b.created_at
column_before by_scheduled_at a b = null_last a.scheduled_at b.scheduled_at
column_before by_priority a b = ltb (priority_code a.priority) (priority_code b.priority)
column_before by_status a b = ltb (status_code a.status) (status_code b.status)

abbrev pub ordered_before : SortBy → SortOrder → Job → Job → Bool
ordered_before column ascending a b = column_before column a b
ordered_before column descending a b = column_before column b a

-- ORDER BY of the query.
abbrev pub asked_before : JobFilter → Job → Job → Bool
asked_before f = ordered_before (or_else f.sort_by by_created_at) (or_else f.sort_order descending)

-- The order of the result: the one asked for, and where two rows tie in it, that of the database.
abbrev pub placed_before : (ties : JobFilter → Job → Job → Bool) → JobFilter → Job → Job → Bool
placed_before ties f a b =
    if asked_before f a b then true else if asked_before f b a then false else ties f a b

-- The rows that match, in the order of the result: the query before LIMIT and OFFSET.
abbrev pub matching :
    (ilike : String → String → Bool)
    → (ties : JobFilter → Job → Job → Bool) → JobFilter
    → Jobs
    → Jobs
matching ilike ties f table = sort_by (placed_before ties f) (filter (matches ilike f) table)

-- `Math.ceil(total / limit)`, for a limit above 0.
abbrev pub page_count : ℕ → ℕ → ℕ
page_count total limit = (total + limit - 1) / limit

-- `none` stands for the error of PostgreSQL at a negative offset. The number of pages is no number
-- where the limit is 0.
unfoldable pub find_many :
    (ilike : String → String → Bool)
    → (ties : JobFilter → Job → Job → Bool) → JobFilter
    → Jobs
    → Option PaginatedJobs
find_many ilike ties f table =
    let page = or_else f.page 1 in
    let limit = or_else f.limit 20 in
    let rows = matching ilike ties f table in
    let total = length rows in
    if nat_beq page 0 && ltb 0 limit
    then none
    else some (record {
      jobs = take limit (drop ((page - 1) * limit) rows);
      total = total;
      page = page;
      limit = limit;
      total_pages = if nat_beq limit 0 then none else some (page_count total limit);
    })

-- `locked` are the rows that other transactions hold.
unfoldable pub find_due_cron_jobs : ℕ → (locked : String → Bool) → Jobs → Jobs
find_due_cron_jobs now locked table =
    filter
      (λ j.
        is_some j.cron_expression
        && at_most now j.next_run_at
        && elem j.status (pending ∷ completed ∷ failed ∷ [])
        && not (locked j.id))
      table
