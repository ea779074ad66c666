-- ===== src/JobExecutor/Safety.antt =====
-- src/workers/JobExecutor.ts: which commands reach the shell, and what results look like.
use mathlib.Core.Option
use backend_task_orchestrati.Prelude.{
  ℕ, ◌≤◌, ◌≡◌, ◌⊎◌, refl, true, false, String, Option, none, some, arith, Bool-cases, Option-cases,
  inl, inr,
}
use backend_task_orchestrati.Prelude.Text.{has_any, take_units, unit_length, unit_length-take_units}
use backend_task_orchestrati.Models.Json.{Json, Fields, Items, nil, cons}
use backend_task_orchestrati.Models.Job.{Job, JobType}
use backend_task_orchestrati.JobExecutor.Values.{get, present, truthy, to_text}
use backend_task_orchestrati.JobExecutor.Runs.{
  ExecutionResult, HttpAnswer, responded, refused, ShellCommand, ShellAnswer, finished, broke_off,
  HandlerAnswer, returned, rejected, Run, done, throw_new, reject, http, shell, wait, World,
  Settled, resolved, failed, settled,
}
use backend_task_orchestrati.JobExecutor.Calls.{
  execute_http_request, execute_shell_command, execute_webhook, dangerous_patterns, http_result,
  shell_result, shell_command_of,
}
use backend_task_orchestrati.JobExecutor.Local.{
  succeeded, Handlers, handler_for, steps_of, step_result, step_fields, is_null, run_steps,
  execute_data_pipeline, execute_email_notification, execute_report_generation,
  execute_file_processing, execute_database_cleanup, execute_custom,
}
use backend_task_orchestrati.JobExecutor.{
  Process, dispatch_as, dispatch, settle_first, Race, execution_first, timer_first, execute,
}

abbrev pub IsWithin : ℕ → Option String → Type 0
IsWithin n none = Unit
IsWithin n (some text) = unit_length text ≤ n

-- A failure says why: by a message and a code, or by the status of an answer, 400 or above.
abbrev pub HasReason : ExecutionResult → Type 0
HasReason r =
    (r.success ≡ true)
    ⊎ ((message : String) × (code : String) × (r.error_message ≡ some message)
        × (r.error_code ≡ some code))
    ⊎ ((status : ℕ) × (r.exit_code ≡ some status) × (400 ≤ status) × (r.error_message ≡ none))

-- The output is capped, and a failure has a reason.
abbrev pub IsReport : ExecutionResult → Type 0
IsReport r = IsWithin 50000 r.stdout × IsWithin 10000 r.stderr × HasReason r

-- Whatever the world answers, every command that the run gives to the shell satisfies `P`, and what
-- it ends with is a report.
abbrev pub Always : (ShellCommand → Type 0) → Run → Type 0
Always P (done r) = IsReport r
Always P (throw_new message) = Unit
Always P (reject e) = Unit
Always P (http request next) = (answer : HttpAnswer) → Always P (next answer)
Always P (shell command next) = P command × ((answer : ShellAnswer) → Always P (next answer))
Always P (wait ms next) = Always P next

http_result-IsReport : (answer : HttpAnswer) → IsReport (http_result answer)
http_result-IsReport (responded response) = (tt, tt, ground arith)
http_result-IsReport (refused message code response) = (tt, tt, inr (inl (_, _, refl, refl)))

IsWithin-take_units : (n : ℕ) (text : Option String) → IsWithin n (Option.map (take_units n) text)
IsWithin-take_units n none = tt
IsWithin-take_units n (some text) = unit_length-take_units n text

shell_result-IsReport : (answer : ShellAnswer) → IsReport (shell_result answer)
shell_result-IsReport (finished stdout stderr) =
    (unit_length-take_units 50000 stdout, unit_length-take_units 10000 stderr, inl refl)
shell_result-IsReport (broke_off code stdout stderr message) = (
  IsWithin-take_units 50000 stdout,
  IsWithin-take_units 10000 stderr,
  inr (inl (_, _, refl, refl)),
)

module _ (P : ShellCommand → Type 0) where
  http-Always : (payload : Fields) → Always P (execute_http_request payload)
  unfolding execute_http_request
  http-Always payload = elim (Bool-cases (present (get "url" payload))) [
    | inl there ↦ rw there (λ answer. http_result-IsReport answer)
    | inr missing ↦ rw missing tt
  ]

  run_steps-Always :
      (steps : Items) (next : Items → Run)
      → ((results : Items) → Always P (next results))
      → Always P (run_steps steps next)
  unfolding run_steps
  run_steps-Always nil next h = h nil
  run_steps-Always (cons step steps) next h =
      let rest =
        run_steps-Always steps (λ results. next (cons (step_result (step_fields step)) results))
          (λ results. h _) in
      elim (Bool-cases (is_null step)) [ inl t ↦ rw t tt | inr f ↦ rw f rest ]

  pipeline-Always : (payload : Fields) → Always P (execute_data_pipeline payload)
  unfolding execute_data_pipeline
  pipeline-Always payload = elim (Option-cases (steps_of (get "steps" payload))) [
    | inl bad ↦ rw (bad, execute_data_pipeline) tt
    | inr (steps, found) ↦
        rw (found, execute_data_pipeline) (run_steps-Always steps _ (λ results. (tt, tt, inl refl)))
  ]

  custom-Always :
      (handlers : Handlers) (payload : Fields) → Always P (execute_custom handlers payload)
  unfolding execute_custom
  custom-Always handlers payload =
      elim (Option-cases (handler_for handlers (get "handlerName" payload))) [
        | inl missing ↦ rw (missing, execute_custom) (tt, tt, inr (inl (_, _, refl, refl)))
        | inr (handler, found) ↦ rw (found, execute_custom) (go (handler payload))
      ]
    where
      go :
          (a : HandlerAnswer)
          → Always P (elim a [ returned result ↦ done (succeeded result) | rejected e ↦ reject e ])
      go (returned result) = (tt, tt, inl refl)
      go (rejected e) = tt

  shell-Always :
      (cwd : Json) (env payload : Fields)
      → ((command : Json)
          → get "command" payload ≡ some command
          → has_any dangerous_patterns (to_text command) ≡ false
          → P (shell_command_of cwd env command payload))
      → Always P (execute_shell_command cwd env payload)
  unfolding execute_shell_command
  shell-Always cwd env payload allowed = elim (Option-cases (get "command" payload)) [
    | inl missing ↦ rw (missing, execute_shell_command) tt
    | inr (command, found) ↦ elim (Bool-cases (truthy command)) [
      | inr blank ↦ rw (found, blank, execute_shell_command) tt
      | inl given ↦ elim (Bool-cases (has_any dangerous_patterns (to_text command))) [
        | inl bad ↦
            rw (found, given, bad, execute_shell_command) (tt, tt, inr (inl (_, _, refl, refl)))
        | inr good ↦
            rw (found, given, good, execute_shell_command)
              (allowed command found good, λ answer. shell_result-IsReport answer)
      ]
    ]
  ]

-- A command that is the payload's own, in a job of the type for it, without the refused characters.
abbrev pub IsAllowed : Job → ShellCommand → Type 0
IsAllowed job command =
    (job.type ≡ JobType.shell_command)
    × (get "command" job.payload ≡ some command.command)
    × (has_any dangerous_patterns (to_text command.command) ≡ false)

-- Whatever the world answers: a command that a job gives to the shell is the one of its payload, the
-- job is of the type for commands, and the text of the command has none of the refused characters.
-- The result has at most 50,000 units of output and 10,000 of errors, and a failure has a message and
-- a code, or the status of an answer, 400 or above, and no message.
pub dispatch_safe : (process : Process) (job : Job) → Always (IsAllowed job) (dispatch process job)
unfolding dispatch_as execute_email_notification execute_report_generation execute_file_processing
    execute_database_cleanup execute_webhook
dispatch_safe process job = go job.type refl
  where
    go : (t : JobType) → job.type ≡ t → Always (IsAllowed job) (dispatch_as process t job.payload)
    go JobType.http_request is = http-Always (IsAllowed job) job.payload
    go JobType.shell_command is =
        shell-Always (IsAllowed job) process.cwd process.env job.payload
          (λ command found good. (is, found, good))
    go JobType.data_pipeline is = pipeline-Always (IsAllowed job) job.payload
    go JobType.email_notification is = (tt, tt, inl refl)
    go JobType.report_generation is = (tt, tt, inl refl)
    go JobType.file_processing is = (tt, tt, inl refl)
    go JobType.database_cleanup is = (tt, tt, inl refl)
    go JobType.webhook is = http-Always (IsAllowed job) _
    go JobType.custom is = custom-Always (IsAllowed job) process.handlers job.payload

settled-IsReport :
    (P : ShellCommand → Type 0) (world : World) (run : Run) (duration : ℕ)
    → Always P run
    → IsReport (settle_first duration (settled world run))
unfolding settled
settled-IsReport P world (done r) duration h = h
settled-IsReport P world (throw_new message) duration h = (tt, tt, inr (inl (_, _, refl, refl)))
settled-IsReport P world (reject e) duration h = (tt, tt, inr (inl (_, _, refl, refl)))
settled-IsReport P world (http request next) duration h =
    settled-IsReport P world (next (world.answer_http request)) duration
      (h (world.answer_http request))
settled-IsReport P world (shell command next) duration h =
    settled-IsReport P world (next (world.answer_shell command)) duration
      (h.1 (world.answer_shell command))
settled-IsReport P world (wait ms next) duration h = settled-IsReport P world next duration h

abbrev pub elapsed : Race → ℕ
elapsed (execution_first duration) = duration
elapsed (timer_first duration) = duration

settle_first-duration :
    (duration : ℕ) (s : Settled) → (settle_first duration s).duration_ms ≡ duration
settle_first-duration duration (resolved r) = refl
settle_first-duration duration (failed e) = refl

-- Whichever side of the race wins, and whatever the world answers, the result of an execution has at
-- most 50,000 units of output and 10,000 of errors, a failure has a message and a code, or the status
-- of an answer, 400 or above, and no message; and its duration is what was measured.
pub execute_correct :
    (process : Process) (world : World) (race : Race) (job : Job)
    → IsReport (execute process world race job)
      × ((execute process world race job).duration_ms ≡ elapsed race)
unfolding execute
execute_correct process world (timer_first duration) job =
    ((tt, tt, inr (inl (_, _, refl, refl))), refl)
execute_correct process world (execution_first duration) job = (
  settled-IsReport (IsAllowed job) world (dispatch process job) duration
      (dispatch_safe process job),
  settle_first-duration duration (settled world (dispatch process job)),
)
