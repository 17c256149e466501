-- ===== src/Invoker/Endpoints.antt =====
-- The two invokers. A header's text is checked by `http`, and so is a URL: they come as they are.
-- What a request and a process come to is given by the parameters `send` and `run_subprocess`.
use triggerlane.Common.{
  ℕ, String, ◌<>◌, ◌==◌, string_eq, nat_eq, Bool, ◌&&◌, Option, none, some, List, [], ◌∷◌, ◌++◌,
  Result, ok, err, any, contains, leb, if◌then◌else◌,
}
use triggerlane.Common.Int.{ℤ, pos, negsuc, leb_ℤ}
use triggerlane.Runtime.Retry.{HashMap, map_get, map_insert}
use triggerlane.Invoker.{
  InvocationJob, InvocationResult, success, retryable_failure, terminal_failure,
}

pub record HttpEndpoint : Type 0 where
  pub url : String
  pub method : String
  pub headers : List (String × String)
  pub terminal_status_codes : List ℕ

-- `HttpEndpoint::new`, at a URL that is valid.
unfoldable pub new_endpoint : String → HttpEndpoint
new_endpoint url = record { url = url; method = "POST"; headers = []; terminal_status_codes = [] }

unfoldable pub with_method : HttpEndpoint → String → HttpEndpoint
with_method endpoint method = record endpoint { method = method }

unfoldable pub with_header : HttpEndpoint → String → String → HttpEndpoint
with_header endpoint name value = record endpoint {
  headers = endpoint.headers ++ (name, value) ∷ [];
}

unfoldable pub with_terminal_status_code : HttpEndpoint → ℕ → HttpEndpoint
with_terminal_status_code endpoint status = record endpoint {
  terminal_status_codes = endpoint.terminal_status_codes ++ status ∷ [];
}

-- `StatusCode::is_success`
abbrev pub is_success : ℕ → Bool
is_success status = leb 200 status && leb status 299

module _ (show_status : ℕ → String) (send : HttpEndpoint → List ℕ → Result ℕ String) where
  unfoldable pub http_result : HttpEndpoint → Result ℕ String → InvocationResult
  http_result endpoint (ok status) =
      if is_success status
      then success
      else if contains endpoint.terminal_status_codes status
      then terminal_failure ("HTTP endpoint returned terminal status " <> show_status status)
      else retryable_failure ("HTTP endpoint returned status " <> show_status status)
  http_result endpoint (err error) = retryable_failure error

  -- `HttpInvoker::invoke`
  unfoldable pub invoke_endpoint :
      {JobId : Type 0} → InvocationJob JobId → Option HttpEndpoint → InvocationResult
  unfolding http_result
  invoke_endpoint job none = terminal_failure ("no HTTP endpoint configured for kind " <> job.kind)
  invoke_endpoint job (some endpoint) = http_result endpoint (send endpoint job.payload)

  unfoldable pub invoke_http :
      {JobId : Type 0} → HashMap HttpEndpoint → InvocationJob JobId → InvocationResult
  unfolding invoke_endpoint
  invoke_http endpoints job = invoke_endpoint job (map_get job.kind endpoints)

pub record SubprocessCommand : Type 0 where
  pub program : String
  pub args : List String
  pub terminal_exit_codes : List ℤ

unfoldable pub new_command : String → SubprocessCommand
new_command program = record { program = program; args = []; terminal_exit_codes = [] }

unfoldable pub with_arg : SubprocessCommand → String → SubprocessCommand
with_arg command arg = record command { args = command.args ++ arg ∷ [] }

-- The exit code, absent if a signal ended the process, and what it wrote to its standard error, as
-- text and trimmed.
pub record Output : Type 0 where
  pub code : Option ℤ
  pub stderr : String

-- `register` of both invokers.
abbrev pub register : {A : Type 0} → HashMap A → String → A → HashMap A
register entries kind entry = map_insert kind entry entries

abbrev pub eq_ℤ : ℤ → ℤ → Bool
eq_ℤ a b = leb_ℤ a b && leb_ℤ b a

-- `code().unwrap_or(-1)`
abbrev pub exit_code : Option ℤ → ℤ
exit_code none = negsuc 0
exit_code (some code) = code

module _ (show_code : ℤ → String)
    (run_subprocess : SubprocessCommand → List ℕ → Result Output String) where
  unfoldable pub subprocess_failure_message : ℤ → String → String
  subprocess_failure_message code stderr =
      if stderr == ""
      then "subprocess exited with code " <> show_code code
      else "subprocess exited with code " <> (show_code code <> (": " <> stderr))

  unfoldable pub subprocess_result : SubprocessCommand → Result Output String → InvocationResult
  unfolding subprocess_failure_message
  subprocess_result command (ok output) =
      let code = exit_code output.code in
      let message = subprocess_failure_message code output.stderr in
      if eq_ℤ code (pos 0)
      then success
      else if any (eq_ℤ code) command.terminal_exit_codes
      then terminal_failure message
      else retryable_failure message
  subprocess_result command (err error) = retryable_failure error

  -- `SubprocessInvoker::invoke`
  unfoldable pub invoke_command :
      {JobId : Type 0} → InvocationJob JobId → Option SubprocessCommand → InvocationResult
  unfolding subprocess_result
  invoke_command job none = terminal_failure ("no subprocess configured for kind " <> job.kind)
  invoke_command job (some command) = subprocess_result command (run_subprocess command job.payload)

  unfoldable pub invoke_subprocess :
      {JobId : Type 0} → HashMap SubprocessCommand → InvocationJob JobId → InvocationResult
  unfolding invoke_command
  invoke_subprocess commands job = invoke_command job (map_get job.kind commands)
