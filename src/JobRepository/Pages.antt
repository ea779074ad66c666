-- ===== src/JobRepository/Pages.antt =====
-- src/db/repositories/JobRepository.ts: the pages of `findMany`, joined.
use native.Mathlib.Nat.{lt-div-mul-add}
use backend_task_orchestrati.Prelude.{
  nat_beq, Bool, true, false, All, Bool-cases, ◌⊎◌, inl, inr, ℕ, zero, suc, ◌+◌, ◌-◌, ◌*◌, ◌≤◌, ◌<◌,
  ◌≡◌, refl, sym, ap, ◌∙◌, String, Option, none, some, List, [], ◌∷◌, ◌++◌, Perm, filter, take,
  drop, length, length-perm, arith,
}
use backend_task_orchestrati.Prelude.Sort.{
  sort_by, sort_by-perm, sort_by-IsSortedBy, sort_by-Agree, Agree, IsSortedBy, StrictOrder,
}
use backend_task_orchestrati.Models.Job.{Job}
use backend_task_orchestrati.Models.Filter.{
  JobFilter, PaginatedJobs, SortBy, by_created_at, by_scheduled_at, by_priority, by_status,
  SortOrder, ascending, descending,
}
use backend_task_orchestrati.JobRepository.{Jobs}
use backend_task_orchestrati.JobRepository.Query.{
  matches, column_before, ordered_before, asked_before, placed_before, matching, page_count,
  find_many,
}

module _ {A : Type 0} where
  take_nil : (a : ℕ) → take {A = A} a [] ≡ []
  take_nil zero = refl
  take_nil (suc a) = refl

  take-append-drop : (a b : ℕ) (xs : List A) → take a xs ++ take b (drop a xs) ≡ take (a + b) xs
  take-append-drop zero b xs = ap (λ n. take n xs) {x = b} {y = zero + b} (omega arith)
  take-append-drop (suc a) b [] = take_nil b ∙ sym (take_nil (suc a + b))
  take-append-drop (suc a) b (x ∷ xs) =
      ap (◌∷◌ x) (take-append-drop a b xs)
      ∙ ap (λ n. take n (x ∷ xs)) {x = suc (a + b)} {y = suc a + b} (omega arith)

  drop_nil : (a : ℕ) → drop {A = A} a [] ≡ []
  drop_nil zero = refl
  drop_nil (suc a) = refl

  drop-drop : (a b : ℕ) (xs : List A) → drop a (drop b xs) ≡ drop (b + a) xs
  drop-drop a zero xs = ap (λ n. drop n xs) {x = a} {y = zero + a} (omega arith)
  drop-drop a (suc b) [] = drop_nil a ∙ sym (drop_nil (suc b + a))
  drop-drop a (suc b) (x ∷ xs) =
      drop-drop a b xs ∙ ap (λ n. drop n (x ∷ xs)) {x = suc (b + a)} {y = suc b + a} (omega arith)

  take_all : (n : ℕ) (xs : List A) → length xs ≤ n → take n xs ≡ xs
  take_all zero [] h = refl
  take_all zero (x ∷ xs) h = absurd (omega (arith, h))
  take_all (suc n) [] h = refl
  take_all (suc n) (x ∷ xs) h = ap (◌∷◌ x) (take_all n xs (omega (arith, h)))

page_count-covers : (total limit : ℕ) → 0 < limit → total ≤ page_count total limit * limit
page_count-covers total limit h =
    omega (arith, h, lt-div-mul-add {a = total + limit - 1} {b = limit} h)

abbrev pub jobs_of : Option PaginatedJobs → Jobs
jobs_of none = []
jobs_of (some page) = page.jobs

column_before-asym :
    (column : SortBy) (a b : Job)
    → column_before column a b ≡ true
    → column_before column b a ≡ false
column_before-asym by_created_at a b h = ground arith
column_before-asym by_scheduled_at a b h = ground arith
column_before-asym by_priority a b h = ground arith
column_before-asym by_status a b h = ground arith

column_before-not_trans :
    (column : SortBy) (a b c : Job)
    → column_before column b a ≡ false
    → column_before column c b ≡ false
    → column_before column c a ≡ false
column_before-not_trans by_created_at a b c h k = ground arith
column_before-not_trans by_scheduled_at a b c h k = ground arith
column_before-not_trans by_priority a b c h k = ground arith
column_before-not_trans by_status a b c h k = ground arith

-- Each order that can be asked for is one.
ordered_before-StrictOrder :
    (column : SortBy) (order : SortOrder) → StrictOrder (ordered_before column order)
ordered_before-StrictOrder column ascending = record {
  asym = column_before-asym column;
  not_trans = column_before-not_trans column;
}
ordered_before-StrictOrder column descending = record {
  asym = λ a b. column_before-asym column b a;
  not_trans = λ a b c h k. column_before-not_trans column c b a k h;
}

-- No two of the rows tie in the order asked for.
abbrev pub NoTies : JobFilter → Jobs → Type 0
NoTies f [] = Unit {0}
NoTies f (a ∷ rest) =
    All (λ b. (asked_before f b a ≡ true) ⊎ (asked_before f a b ≡ true)) rest × NoTies f rest

module _ (ties : JobFilter → Job → Job → Bool) (f : JobFilter) (page limit : Option ℕ) where
  abbrev query : JobFilter
  query = record f { page = page; limit = limit }

  placed_all :
      (a : Job) (rest : Jobs)
      → All (λ b. (asked_before f b a ≡ true) ⊎ (asked_before f a b ≡ true)) rest
      → All (λ b. placed_before ties query b a ≡ asked_before f b a) rest
  placed_all a [] h = tt
  placed_all a (b ∷ rest) h = (
    elim (Bool-cases (asked_before f b a)) [
      | inl t ↦ rw t refl
      | inr n ↦ rw n (elim h.0 [ inl t ↦ absurd (ground arith) | inr t ↦ rw t refl ])
    ],
    placed_all a rest h.1,
  )

  -- Where no rows tie, the database has no say in the order.
  placed_before-Agree :
      (rows : Jobs) → NoTies f rows → Agree (placed_before ties query) (asked_before f) rows
  placed_before-Agree [] h = tt
  placed_before-Agree (a ∷ rest) h = (placed_all a rest h.0, placed_before-Agree rest h.1)

module _ (ilike : String → String → Bool) (ties : JobFilter → Job → Job → Bool) (f : JobFilter)
    (limit : ℕ) (table : Jobs) where
  -- The jobs of a page, counted from 1, and of so many pages from one on.
  abbrev pub jobs_of_page : ℕ → Jobs
  jobs_of_page page =
      jobs_of (find_many ilike ties (record f { page = some page; limit = some limit }) table)

  abbrev pub jobs_of_pages : ℕ → ℕ → Jobs
  jobs_of_pages page zero = []
  jobs_of_pages page (suc count) = jobs_of_page page ++ jobs_of_pages (page + 1) count

  -- The matching rows in the order asked for.
  abbrev pub wanted : Jobs
  wanted = sort_by (asked_before f) (filter (matches ilike f) table)

  module _ (apart : NoTies f (filter (matches ilike f) table)) where
    matching-wanted :
        (page : ℕ)
        → matching ilike ties (record f { page = some page; limit = some limit }) table ≡ wanted
    unfolding matches
    matching-wanted page =
        sort_by-Agree _ (asked_before f) _ (
          placed_before-Agree ties f (some page) (some limit) (filter (matches ilike f) table)
            apart)

    page_lem : (k : ℕ) → jobs_of_page (k + 1) ≡ take limit (drop (k * limit) wanted)
    unfolding find_many
    page_lem k =
        let positive : nat_beq (k + 1) 0 ≡ false = ground arith in
        let before : k + 1 - 1 ≡ k = omega arith in
        rw (positive, before, matching-wanted (k + 1)) refl

    pages_lem :
        (count k : ℕ) → jobs_of_pages (k + 1) count ≡ take (count * limit) (drop (k * limit) wanted)
    pages_lem zero k =
        ap (λ n. take n (drop (k * limit) wanted)) {x = zero} {y = zero * limit} (omega arith)
    pages_lem (suc count) k =
        let next : k * limit + limit ≡ (k + 1) * limit = omega arith in
        let whole : limit + count * limit ≡ suc count * limit = omega arith in
        rw
          (
            page_lem k,
            pages_lem count (k + 1),
            ← next,
            ← drop-drop limit (k * limit) wanted,
            ← whole,
          )
          (take-append-drop limit (count * limit) (drop (k * limit) wanted))

  abbrev pub Paged : Type 0
  Paged =
      (page : PaginatedJobs) × (count : ℕ) × (find_many ilike ties
          (record f { page = some 1; limit = some limit }) table
        ≡ some page)
      × (page.total_pages ≡ some count)
      × (page.total ≡ length (filter (matches ilike f) table))
      × Perm (jobs_of_pages 1 count) (filter (matches ilike f) table)
      × IsSortedBy (asked_before f) (jobs_of_pages 1 count)

  -- With a limit above 0 and no ties among the matching rows in the order asked for, the pages from the
  -- first to the last that a query counts, joined, are the matching rows, each once and in the order
  -- asked for, and the query counts as many rows.
  pub pages_correct : 0 < limit → NoTies f (filter (matches ilike f) table) → Paged
  unfolding find_many matches
  pages_correct positive apart =
      let count = page_count (length wanted) limit in
      let some_pages : nat_beq limit 0 ≡ false = ground (arith, positive) in
      let zero_pages : 0 * limit ≡ 0 = omega arith in
      let first = matching-wanted apart 1 in
      let joined : jobs_of_pages 1 count ≡ wanted =
        pages_lem apart count 0
        ∙ rw zero_pages
            (take_all (count * limit) wanted (page_count-covers (length wanted) limit positive)) in
      (
        _,
        count,
        refl,
        rw (some_pages, first) refl,
        length-perm (sort_by-perm _ (filter (matches ilike f) table)),
        rw joined (sort_by-perm _ (filter (matches ilike f) table)),
        rw joined (sort_by-IsSortedBy _ (ordered_before-StrictOrder _ _) _),
      )
