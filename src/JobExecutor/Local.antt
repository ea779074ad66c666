-- ===== src/JobExecutor/Local.antt =====
-- src/workers/JobExecutor.ts: the handlers that stay in the process.
use backend_task_orchestrati.Prelude.{
  ℕ, Bool, true, false, String, Option, none, some, List, if◌then◌else◌, or_else,
}
use Prim.Native.String.{◌++◌}
use backend_task_orchestrati.Prelude.Eq.{string_eq}
use backend_task_orchestrati.Prelude.Maps.{lookup, insert}
use backend_task_orchestrati.Prelude.Text.{show}
use backend_task_orchestrati.Models.Json.{
  Json, null, bool, num, str, arr, obj, Items, nil, cons, Fields, end, field,
}
use backend_task_orchestrati.JobExecutor.Values.{get, optional, truthy, shown, items_length}
use backend_task_orchestrati.JobExecutor.Runs.{
  ExecutionResult, HandlerAnswer, returned, rejected, Run, done, throw_new, reject, wait,
}
use backend_task_orchestrati.JobExecutor.Calls.{bare, error_result}

abbrev pub succeeded : Fields → ExecutionResult
succeeded fields = record (bare true) { result = some fields }

-- What the clock reads: the milliseconds, and the same in the format of ISO 8601.
pub record Clock : Type 0 where
  pub now : ℕ
  pub iso : String

-- `stepResults.push({ step: step.name, … })`
abbrev pub step_result : Fields → Json
step_result step = obj (
    optional "step" (get "name" step)
      (field "status" (str "completed") (optional "params" (get "params" step) end)))

-- The properties of a step; other values than objects have none of these.
abbrev pub step_fields : Json → Fields
step_fields (obj fields) = fields
step_fields _ = end

abbrev pub is_null : Json → Bool
is_null null = true
is_null _ = false

-- `next` is what follows the loop, on the results of the steps.
unfoldable pub run_steps : Items → (Items → Run) → Run
run_steps nil next = next nil
run_steps (cons step steps) next =
    let rest = run_steps steps (λ results. next (cons (step_result (step_fields step)) results)) in
    if is_null step
    then throw_new "Cannot read properties of null (reading 'name')"
    else wait 100 rest

-- A value of `steps` that is no array is outside of the payload's type.
abbrev pub steps_of : Option Json → Option Items
steps_of none = some nil
steps_of (some (arr items)) = some items
steps_of (some _) = none

unfoldable pub execute_data_pipeline : Fields → Run
execute_data_pipeline payload = elim (steps_of (get "steps" payload)) [
  | none ↦ throw_new "steps is not iterable"
  | some steps ↦ run_steps steps (λ results.
      done (
        succeeded
          (field "steps" (arr results) (field "totalSteps" (num (items_length steps)) end))))
]

unfoldable pub execute_email_notification : Clock → Fields → Run
execute_email_notification clock payload = done (
    succeeded (
      field "sent" (bool true) (
        optional "to" (get "to" payload) (
          optional "subject" (get "subject" payload)
            (field "messageId" (str ("msg_" ++ show clock.now)) end)))))

unfoldable pub execute_report_generation : Clock → Fields → Run
execute_report_generation clock payload = wait 500 (
    done (
      succeeded (
        optional "reportType" (get "reportType" payload)
          (field "generatedAt" (str clock.iso) (optional "params" (get "params" payload) end)))))

unfoldable pub execute_file_processing : Clock → Fields → Run
execute_file_processing clock payload = done (
    succeeded (
      optional "filePath" (get "filePath" payload)
        (optional "operation" (get "operation" payload) (field "processedAt" (str clock.iso) end))))

unfoldable pub execute_database_cleanup : Fields → Run
execute_database_cleanup payload =
    let dry_run = or_else (get "dryRun" payload) (bool true) in
    done (
      succeeded (
        field "rowsAffected" (num (if truthy dry_run then 0 else 42)) (field "dryRun" dry_run end)))

-- A handler, with what its promise comes to.
abbrev pub JobHandler : Type 0
JobHandler = Fields → HandlerAnswer

abbrev pub Handlers : Type 0
Handlers = List (String × JobHandler)

unfoldable pub register_job_handler : String → JobHandler → Handlers → Handlers
register_job_handler name handler handlers = insert name handler handlers

-- `customHandlers.get(handlerName)`: only a text is a key.
abbrev pub handler_for : Handlers → Option Json → Option JobHandler
handler_for handlers (some (str name)) = lookup name handlers
handler_for handlers _ = none

unfoldable pub execute_custom : Handlers → Fields → Run
execute_custom handlers payload = elim (handler_for handlers (get "handlerName" payload)) [
  | none ↦ done (
      error_result ("No custom handler registered: " ++ shown (get "handlerName" payload))
        "HANDLER_NOT_FOUND")
  | some handler ↦ elim (handler payload) [
    | returned result ↦ done (succeeded result)
    | rejected e ↦ reject e
  ]
]
