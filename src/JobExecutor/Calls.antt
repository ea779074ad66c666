-- ===== src/JobExecutor/Calls.antt =====
-- src/workers/JobExecutor.ts: the handlers that call out, over HTTP and to the shell.
use backend_task_orchestrati.Prelude.{
  Bool, true, false, not, String, none, some, if◌then◌else◌, ltb, or_else,
}
use mathlib.Core.Option
use backend_task_orchestrati.Prelude.Text.{has_any, take_units}
use backend_task_orchestrati.Models.Json.{Json, num, str, obj, Fields, end, field}
use backend_task_orchestrati.JobExecutor.Values.{
  get, put, spread, present, truthy, optional, to_text,
}
use backend_task_orchestrati.JobExecutor.Runs.{
  ExecutionResult, HttpRequest, HttpAnswer, responded, refused, ShellCommand, ShellAnswer, finished,
  broke_off, Run, done, throw_new, http, shell,
}

-- A result whose other properties are `undefined`.
abbrev pub bare : Bool → ExecutionResult
bare success = record {
  success = success;
  exit_code = none;
  stdout = none;
  stderr = none;
  result = none;
  error_message = none;
  error_stack = none;
  error_code = none;
  duration_ms = 0;
}

abbrev pub error_result : String → String → ExecutionResult
error_result message code = record (bare false) {
  error_message = some message;
  error_code = some code;
}

abbrev pub http_request_of : Fields → HttpRequest
http_request_of payload = record {
  url = get "url" payload;
  method = or_else (get "method" payload) (str "GET");
  headers =
      spread (field "User-Agent" (str "Backend-Task-Orchestration/1.0") end)
        (get "headers" payload);
  body = get "body" payload;
  params = get "params" payload;
  timeout = 30000;
  validate_status = λ status. ltb status 500;
}

abbrev pub http_result : HttpAnswer → ExecutionResult
http_result (responded response) = record (bare (ltb response.status 400)) {
  exit_code = some response.status;
  result = some (
      field "statusCode" (num response.status)
        (field "headers" response.headers (field "data" response.body end)));
}
http_result (refused message code response) =
    record (error_result message (or_else code "HTTP_ERROR")) {
      result =
          Option.map (λ r. field "statusCode" (num r.status) (field "data" r.body end)) response;
    }

unfoldable pub execute_http_request : Fields → Run
execute_http_request payload =
    if not (present (get "url" payload))
    then throw_new "HTTP_REQUEST job requires payload.url"
    else http (http_request_of payload) (λ answer. done (http_result answer))

-- The characters of the pattern.
abbrev pub dangerous_patterns : String
dangerous_patterns = ";&|`$(){}[]<>"

abbrev pub shell_command_of : Json → Fields → Json → Fields → ShellCommand
shell_command_of process_cwd process_env command payload = record {
  command = command;
  cwd = or_else (get "cwd" payload) process_cwd;
  env = spread process_env (get "env" payload);
  timeout = 60000;
}

abbrev pub shell_result : ShellAnswer → ExecutionResult
shell_result (finished stdout stderr) = record (bare true) {
  exit_code = some 0;
  stdout = some (take_units 50000 stdout);
  stderr = some (take_units 10000 stderr);
}
shell_result (broke_off code stdout stderr message) = record (error_result message "SHELL_ERROR") {
  exit_code = code;
  stdout = Option.map (take_units 50000) stdout;
  stderr = Option.map (take_units 10000) stderr;
}

-- `process_cwd` and `process_env` are `process.cwd()` and `process.env`.
unfoldable pub execute_shell_command : Json → Fields → Fields → Run
execute_shell_command process_cwd process_env payload = elim (get "command" payload) [
  | none ↦ throw_new "SHELL_COMMAND job requires payload.command"
  | some command ↦
      if not (truthy command)
      then throw_new "SHELL_COMMAND job requires payload.command"
      else if has_any dangerous_patterns (to_text command)
      then done (error_result "Command contains disallowed shell characters" "SECURITY_VIOLATION")
      else shell (shell_command_of process_cwd process_env command payload)
          (λ answer. done (shell_result answer))
]

abbrev pub webhook_headers : Fields → Fields
webhook_headers payload =
    let headers =
      field "Content-Type" (str "application/json")
        (field "X-Webhook-Source" (str "btos-scheduler") end) in
    elim (get "secret" payload) [
      | none ↦ headers
      | some secret ↦ if truthy secret then put "X-Webhook-Secret" secret headers else headers
    ]

unfoldable pub execute_webhook : Fields → Run
execute_webhook payload = execute_http_request (
    optional "url" (get "url" payload) (
      field "method" (str "POST") (
        field "headers" (obj (webhook_headers payload))
          (optional "body" (get "data" payload) end))))
