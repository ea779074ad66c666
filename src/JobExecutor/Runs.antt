-- ===== src/JobExecutor/Runs.antt =====
-- src/workers/JobExecutor.ts: what a handler does, up to the answers of the world.
-- axios, child_process and the timers are not here: a call of theirs is a step of the run, which goes
-- on with the answer.
use backend_task_orchestrati.Prelude.{ℕ, ◌+◌, Bool, String, Option}
use backend_task_orchestrati.Models.Json.{Json, Fields}

pub record ExecutionResult : Type 0 where
  pub success : Bool
  pub exit_code : Option ℕ
  pub stdout : Option String
  pub stderr : Option String
  pub result : Option Fields
  pub error_message : Option String
  pub error_stack : Option String
  pub error_code : Option String
  pub duration_ms : ℕ

-- An `Error` that was thrown.
pub record Failure : Type 0 where
  pub message : String
  pub stack : Option String

-- The argument of `axios`.
pub record HttpRequest : Type 0 where
  pub url : Option Json
  pub method : Json
  pub headers : Fields
  pub body : Option Json
  pub params : Option Json
  pub timeout : ℕ
  pub validate_status : ℕ → Bool

pub record HttpResponse : Type 0 where
  pub status : ℕ
  pub headers : Json
  pub body : Json

pub data HttpAnswer : Type 0 where
  responded : HttpResponse → HttpAnswer
  refused : (message : String) (code : Option String) (response : Option HttpResponse) → HttpAnswer

-- The arguments of `exec`.
pub record ShellCommand : Type 0 where
  pub command : Json
  pub cwd : Json
  pub env : Fields
  pub timeout : ℕ

pub data ShellAnswer : Type 0 where
  finished : (stdout stderr : String) → ShellAnswer
  broke_off : (code : Option ℕ) (stdout stderr : Option String) (message : String) → ShellAnswer

pub data HandlerAnswer : Type 0 where
  returned : Fields → HandlerAnswer
  rejected : Failure → HandlerAnswer

pub data Run : Type 0 where
  done : ExecutionResult → Run
  throw_new : String → Run
  reject : Failure → Run
  http : HttpRequest → (HttpAnswer → Run) → Run
  shell : ShellCommand → (ShellAnswer → Run) → Run
  wait : ℕ → Run → Run

-- A world that answers like this. `stack_of` is the stack that a thrown error with a message gets.
pub record World : Type 0 where
  pub stack_of : String → Option String
  pub answer_http : HttpRequest → HttpAnswer
  pub answer_shell : ShellCommand → ShellAnswer

pub data Settled : Type 0 where
  resolved : ExecutionResult → Settled
  failed : Failure → Settled

unfoldable pub settled : World → Run → Settled
settled world (done r) = resolved r
settled world (throw_new message) =
    failed (record { message = message; stack = world.stack_of message })
settled world (reject e) = failed e
settled world (http request next) = settled world (next (world.answer_http request))
settled world (shell command next) = settled world (next (world.answer_shell command))
settled world (wait ms next) = settled world next

-- The milliseconds that the run sleeps for.
unfoldable pub slept : World → Run → ℕ
slept world (done r) = 0
slept world (throw_new message) = 0
slept world (reject e) = 0
slept world (http request next) = slept world (next (world.answer_http request))
slept world (shell command next) = slept world (next (world.answer_shell command))
slept world (wait ms next) = ms + slept world next
