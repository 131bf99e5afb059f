-- ===== src/Worker/Examples.antt =====
-- One file converted by one worker (internal/worker): the theorems at inputs that meet their
-- hypotheses.
use slipway.Common.{
  trim_front, trim_back, ◌==◌, if◌then◌else◌, Text, update_where, text_eq, is_blank, pos, codes,
  true, false, none, some, List, [], ◌∷◌, map, All, ◌≡◌, refl, arith, find_where, count_where,
}
use slipway.Queue.Types.{running, Job, Run, EnqueueParams, Db, empty_db}
use slipway.Queue.Tx.{no_faults}
use slipway.Queue.Jobs.{enqueue, claim, oldest, running_run}
use slipway.Queue.System.{enqueues, claims, Call, run}
use slipway.Queue.System.Runs.{run-IsConsistent}
use slipway.Executor.Expander.{Expander, new_expander, expand, replace_from}
use slipway.Executor.Execute as Execute
use slipway.Config.Commands.{
  CommandConfig, executor_command, executor_shell, uses_structured_container, uses_container_fields,
}
use slipway.Config.Validation.{
  per_job_templates, validate_execution, validate_shell, built_in_per_job_template, least_template,
  ◌then_check◌, reject_if,
}
use slipway.Worker.Expansion.{expand_configured_command, command_from_config}
use slipway.Worker.Failure.{
  fields_from, is_captured_output_truncation_marker, truncate_failure_detail, last_line_of,
  last_failure_output_line, failure_output_summary, with_failure_output,
}
use slipway.Worker.Shell.{IsAbsent, shell_script_fixed}
use slipway.Worker.Process.{Pool, expanded_step, process_job}
use slipway.Worker.Trace.{logged, IsAttempt, process_job-IsAttempt}
use slipway.Worker.Durable.{queue_store}
use slipway.Worker.Success.{IsReady}
use slipway.Worker.Steps.{IsFailing, IsGivenUp}
use slipway.Worker.Failing.{process_job_fails}
use slipway.Worker.Pipeline.{IsGood, IsFinished, process_job_succeeds}

abbrev convert : CommandConfig
convert = record {
  name = codes "convert";
  executor = executor_command;
  program = codes "conv";
  args = codes "{{file}}" ∷ [];
  image = [];
  mounts = [];
  container_env = [];
  container_args = [];
  command = [];
  command_args = [];
  timeout = pos 0;
  working_dir = [];
  output = [];
  env = [];
  structured_container = false;
  container_command_set = false;
  raw_args_set = true;
  container_fields_set = false;
}

abbrev script : CommandConfig
script = record convert {
  executor = executor_shell;
  program = codes "sh";
  args = [];
  raw_args_set = false;
  command = codes "wc -l \"$1\"";
  command_args = codes "{{file}}" ∷ [];
}

abbrev done : Execute.Result
done = record {
  started_at = some 1;
  finished_at = some 2;
  exit_code = pos 0;
  stdout = codes "ok";
  stderr = [];
  timed_out = false;
}

abbrev pool : Pool
pool = record {
  describe = λ e. codes "queue error";
  resolve = λ name. some (convert ∷ convert ∷ []);
  execute = λ n command. (done, none);
  retry_delay = pos 10;
}

abbrev report : EnqueueParams
report = record {
  watch_name = codes "csv";
  path = codes "/in/a.csv";
  fingerprint = codes "f1";
  max_retries = pos 1;
  available_at = none;
}

abbrev to_running : List Call
to_running =
    record { op = enqueues report; now = 10; faults = no_faults }
    ∷ record { op = claims; now = 20; faults = no_faults }
    ∷ []

abbrev busy : Db
busy = run empty_db to_running

abbrev held : Job
held = record {
  id = 1;
  watch_name = codes "csv";
  path = codes "/in/a.csv";
  fingerprint = codes "f1";
  status = running;
  attempts = 1;
  max_retries = 1;
  available_at = 10;
  last_error = [];
  created_at = 10;
  updated_at = 20;
  started_at = some 20;
  finished_at = none;
  run_id = 1;
  attempt = 1;
}

abbrev live : Run
live = record {
  id = 1;
  job_id = 1;
  attempt = 1;
  status = running;
  error = [];
  started_at = 20;
  finished_at = none;
}

found : find_where (running_run 1 1) busy.runs ≡ some live
unfolding run enqueue claim find_where update_where count_where text_eq is_blank oldest
found = refl

ready : IsReady 1 0 busy
unfolding run enqueue claim find_where update_where count_where text_eq is_blank oldest
ready = record { running = ground arith; free = λ k h. refl; fresh = λ i h. refl }

good : IsGood pool held 0 (convert ∷ convert ∷ [])
unfolding validate_execution uses_structured_container expanded_step expand_configured_command
    command_from_config is_blank with_failure_output expand new_expander replace_from
good = (
  record { valid = refl; program = refl; timeout = refl; executed = refl },
  (record { valid = refl; program = refl; timeout = refl; executed = refl }, tt),
)

process_job_succeeds_example :
    IsFinished held busy 2
      (process_job (queue_store (λ k. 30) (λ k. no_faults)) pool held (busy, 0))
process_job_succeeds_example =
    process_job_succeeds (λ k. 30) pool held live refl refl (convert ∷ convert ∷ []) busy 0
      (run-IsConsistent to_running) ready found refl good

process_job-IsAttempt_example :
    IsAttempt held 2 0
      (process_job (logged (queue_store (λ k. 30) (λ k. no_faults))) pool held ((busy, 0), [])).1.1
process_job-IsAttempt_example =
    process_job-IsAttempt (queue_store (λ k. 30) (λ k. no_faults)) pool held (busy, 0)

abbrev odd_file : Expander
odd_file = new_expander (record { file = codes "/in/$(rm -r x)"; job_id = 1 })

shell_script_fixed_example :
    ((command_from_config (expand_configured_command odd_file script)).args
      ≡ codes "-c" ∷ script.command ∷ script.name ∷ map (expand odd_file) script.command_args)
    × All (IsAbsent script.command) per_job_templates
unfolding validate_execution expand_configured_command validate_shell uses_container_fields is_blank
    built_in_per_job_template least_template ◌then_check◌ reject_if expand new_expander replace_from
shell_script_fixed_example = shell_script_fixed odd_file script refl refl

abbrev complaint : Text
complaint = codes "reading\nfatal: disk full"

-- The second command fails.
abbrev broken_pool : Pool
broken_pool = record pool {
  execute = λ n command. (if n == 1 then record done { exit_code = pos 3 } else done, none);
}

abbrev failing_reason : Text
failing_reason = codes "command \"convert\": command exited with code 3 (stdout: \"ok\")"

failing : IsFailing broken_pool held 0 (convert ∷ convert ∷ []) 2 failing_reason
unfolding validate_execution uses_structured_container expanded_step expand_configured_command
    command_from_config is_blank with_failure_output expand new_expander replace_from
    failure_output_summary last_failure_output_line last_line_of trim_front trim_back
    is_captured_output_truncation_marker truncate_failure_detail fields_from
failing =
    IsFailing.later (record { valid = refl; program = refl; timeout = refl; executed = refl })
      (IsFailing.broken (record {
        valid = refl;
        program = refl;
        timeout = refl;
        error = codes "command exited with code 3 (stdout: \"ok\")";
        executed = refl;
      }))

process_job_fails_example :
    IsGivenUp broken_pool held busy 0 2 failing_reason
      (process_job (queue_store (λ k. 30) (λ k. no_faults)) broken_pool held (busy, 0))
process_job_fails_example =
    process_job_fails (λ k. 30) broken_pool held live refl refl (convert ∷ convert ∷ []) 2
      failing_reason busy 0 (run-IsConsistent to_running) ready found refl failing
