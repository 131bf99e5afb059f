-- ===== src/Executor/Execute.antt =====
-- internal/executor/executor.go: one execution of a command. The host is a parameter: what opening
-- a file says, and what the child does once it is started.
use slipway.Common.{
  ℕ, ℤ, Text, codes, quote, is_abs, join_path, join, Bool, true, false, not, ◌&&◌, Option, none,
  some, List, [], ◌∷◌, ◌++◌, if◌then◌else◌,
}
use slipway.Executor.Capture.{max_captured_output_bytes, new_limited_buffer, write_all, captured}
use slipway.Executor.Environment.{Env, merge_environment}

pub record Command : Type 0 where
  pub name : Text
  pub program : Text
  pub args : List Text
  pub timeout : ℤ
  pub working_dir : Text
  pub output : Text
  pub env : Env

pub record Result : Type 0 where
  pub started_at : Option ℕ
  pub finished_at : Option ℕ
  pub exit_code : ℤ
  pub stdout : Text
  pub stderr : Text
  pub timed_out : Bool

-- `Err()` of a context that is done.
pub data ContextError : Type 0 where
  canceled deadline_exceeded : ContextError

-- What `os/exec` is told.
pub record Process : Type 0 where
  pub program : Text
  pub args : List Text
  pub dir : Text
  pub env : List Text
  pub timeout : ℤ

-- What comes of it: the writes of the child, the errors of `Run`, of the clean-up of its process
-- group and of `Close`, its exit code if it was started, and the two contexts at the end.
pub record Ran : Type 0 where
  pub started_at : ℕ
  pub finished_at : ℕ
  pub stdout : List Text
  pub stderr : List Text
  pub run_error : Option Text
  pub cleanup_error : Option Text
  pub close_error : Option Text
  pub exit_code : Option ℤ
  pub run_context : Option ContextError
  pub context : Option ContextError

pub record Host : Type 0 where
  pub environ : List Text
  pub open_file : Text → Option Text
  pub run_process : Process → Ran

pub data ExecuteError : Type 0 where
  program_required : ExecuteError
  not_opened : Text → Text → Text → ExecuteError
  timed_out : Text → List Text → ExecuteError
  interrupted : Text → ContextError → List Text → ExecuteError
  failed : Text → List Text → ExecuteError

abbrev pub is_empty : Text → Bool
is_empty [] = true
is_empty (c ∷ s) = false

pub command_label : Command → Text
command_label c = if is_empty c.name then c.program else c.name

-- Where the output goes: relative paths start at the working directory.
abbrev pub output_path : Command → Text
output_path c =
    if not (is_abs c.output) && not (is_empty c.working_dir)
    then join_path c.working_dir c.output
    else c.output

-- The path, `none` without an output; or the error of the opening.
pub data Opened : Type 0 where
  no_output : Opened
  output_at : Text → Opened
  open_error : Text → Text → Opened

pub open_output : Host → Command → Opened
open_output h c = if is_empty c.output then no_output else (elim (h.open_file (output_path c)) [
  | none ↦ output_at (output_path c)
  | some e ↦ open_error (output_path c) e
])

abbrev pub close_output : Opened → Option Text → Option Text
close_output (output_at path) (some e) =
    some (codes "close output " ++ quote path ++ codes ": " ++ e)
close_output _ e = none

-- `errors.Join` drops the errors that are nil.
abbrev pub join_errors : List (Option Text) → List Text
join_errors [] = []
join_errors (none ∷ es) = join_errors es
join_errors (some e ∷ es) = e ∷ join_errors es

abbrev pub error_of : List Text → Text → Option ExecuteError
error_of [] label = none
error_of (e ∷ es) label = some (failed label (e ∷ es))

abbrev pub is_deadline : Option ContextError → Bool
is_deadline (some deadline_exceeded) = true
is_deadline _ = false

abbrev pub process_of : Host → Command → Process
process_of h c = record {
  program = c.program;
  args = c.args;
  dir = c.working_dir;
  env = merge_environment h.environ c.env;
  timeout = c.timeout;
}

abbrev pub capture : List Text → Text
capture chunks = captured (write_all (new_limited_buffer max_captured_output_bytes) chunks).1

abbrev pub exit_code_of : Option ℤ → ℤ
exit_code_of none = ℤ.negsuc 0
exit_code_of (some code) = code

abbrev pub result_of : Ran → Bool → Result
result_of r late = record {
  started_at = some r.started_at;
  finished_at = some r.finished_at;
  exit_code = exit_code_of r.exit_code;
  stdout = capture r.stdout;
  stderr = capture r.stderr;
  timed_out = late;
}

-- The result before anything has run.
abbrev pub not_run : Result
not_run = record {
  started_at = none;
  finished_at = none;
  exit_code = ℤ.negsuc 0;
  stdout = [];
  stderr = [];
  timed_out = false;
}

unfoldable pub settle : Text → Opened → Ran → Result × Option ExecuteError
settle label o r =
    let close = close_output o r.close_error in
    elim r.run_context [
      | some e ↦
          (if is_deadline (some e) && not (is_deadline r.context)
            then (
              result_of r true,
              some (timed_out label (join_errors (r.cleanup_error ∷ close ∷ []))),
            )
            else (
              result_of r false,
              some (interrupted label e (join_errors (r.cleanup_error ∷ close ∷ []))),
            ))
      | none ↦ (
        result_of r false,
        error_of (join_errors (r.run_error ∷ r.cleanup_error ∷ close ∷ [])) label,
      )
    ]

-- The result, the error, and the process that was started, if any.
abbrev pub Execution : Type 0
Execution = (Result × Option ExecuteError) × Option Process

unfoldable pub run_opened : Host → Command → Opened → Execution
run_opened h c (open_error path e) = ((not_run, some (not_opened (command_label c) path e)), none)
run_opened h c o =
    (settle (command_label c) o (h.run_process (process_of h c)), some (process_of h c))

unfoldable pub execute : Host → Command → Execution
execute h c =
    if is_empty c.program
    then ((not_run, some program_required), none)
    else run_opened h c (open_output h c)

abbrev context_text : ContextError → Text
context_text canceled = codes "context canceled"
context_text deadline_exceeded = codes "context deadline exceeded"

-- `Error()`: the errors that `errors.Join` joins stand on lines of their own.
pub error_text : ExecuteError → Text
error_text program_required = codes "executor: program is required"
error_text (not_opened label path e) =
    codes "executor: " ++ label ++ codes ": open output " ++ quote path ++ codes ": " ++ e
error_text (timed_out label es) =
    codes "executor: "
    ++ label
    ++ codes ": "
    ++ join (codes "\n") (codes "command timed out" ∷ codes "context deadline exceeded" ∷ es)
error_text (interrupted label e es) =
    codes "executor: " ++ label ++ codes ": " ++ join (codes "\n") (context_text e ∷ es)
error_text (failed label es) = codes "executor: " ++ label ++ codes ": " ++ join (codes "\n") es
