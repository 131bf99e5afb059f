-- ===== src/Worker/Process.antt =====
-- internal/worker/worker.go: one job, from its pipeline to its end in the store.
use slipway.Common.{
  ℕ, suc, ℤ, pos, Text, codes, quote, decimal, Option, none, some, List, [], ◌∷◌, ◌++◌, Result, ok,
  err, if◌then◌else◌, ◌==◌,
}
use slipway.Queue.Types.{
  Job, Status, CommandStatus, command_succeeded, command_failed, CommandStart, CommandResult, Error,
}
use slipway.Executor.Environment.{environment}
use slipway.Executor.Expander.{new_expander}
use slipway.Executor.Execute as Execute
use slipway.Config.Commands.{CommandConfig}
use slipway.Config.Validation.{validate_execution}
use slipway.Worker.Expansion.{expand_configured_command, command_from_config}
use slipway.Worker.Failure.{with_failure_output}

-- The interface `Store`, over a state of its own.
pub record Store (S : Type 0) : Type 0 where
  pub claim : S → Result Error Job × S
  pub start_command : CommandStart → S → Result Error ℕ × S
  pub complete_command : ℤ → CommandResult → S → Result Error (Unit {0}) × S
  pub succeed : ℤ → ℤ → S → Result Error (Unit {0}) × S
  pub fail : ℤ → ℤ → Text → ℤ → S → Result Error Status × S

-- What a pool is made of: the text of the store's errors, the pipelines by name, and an executor,
-- which is asked for the step of an index and answers with a result and the text of an error.
pub record Pool : Type 0 where
  pub describe : Error → Text
  pub resolve : Text → Option (List CommandConfig)
  pub execute : ℕ → Execute.Command → Execute.Result × Option Text
  pub retry_delay : ℤ

-- A command that exited with another code than 0 has failed.
abbrev pub exit_error : ℤ → Option Text → Option Text
exit_error code (some e) = some e
exit_error (ℤ.pos n) none =
    if n == 0 then none else some (codes "command exited with code " ++ decimal n)
exit_error (ℤ.negsuc n) none = some (codes "command exited with code -" ++ decimal (suc n))

abbrev pub command_status : Option Text → CommandStatus
command_status none = command_succeeded
command_status (some e) = command_failed

abbrev error_text : Option Text → Text
error_text none = []
error_text (some e) = e

abbrev persist_error : (Error → Text) → Error → Text
persist_error describe e = codes "persist command result: " ++ describe e

-- The error of the execution, joined with that of its record.
abbrev pub joined : (Error → Text) → Option Text → Result Error (Unit {0}) → Option Text
joined describe e (ok _) = e
joined describe none (err x) = some (persist_error describe x)
joined describe (some e) (err x) = some (e ++ codes "\n" ++ persist_error describe x)

abbrev pub refused_text : CommandConfig → Text → Text
refused_text c e = codes "command " ++ quote c.name ++ codes " after template expansion: " ++ e

abbrev pub failed_text : Execute.Command → Text → Text
failed_text command e = codes "command " ++ quote command.name ++ codes ": " ++ e

abbrev pub unknown_watch : Job → Text
unknown_watch job = codes "resolve pipeline: worker: unknown watch " ++ quote job.watch_name

module _ (job : Job) where
  unfoldable pub expanded_step : CommandConfig → CommandConfig
  expanded_step c =
      expand_configured_command (new_expander (record { file = job.path; job_id = job.id })) c

  unfoldable pub start_of : ℕ → Execute.Command → CommandStart
  start_of index command = record {
    run_id = pos job.run_id;
    sequence = pos (suc index);
    name = command.name;
    program = command.program;
    args = command.args;
    env = environment command.env;
    working_dir = command.working_dir;
    timeout = command.timeout;
  }

-- The error of the execution of a step, with the line of its output that explains it.
abbrev pub execution_error : Execute.Result × Option Text → Option Text
execution_error x = with_failure_output (exit_error x.0.exit_code x.1) x.0

abbrev pub result_of : Execute.Result × Option Text → CommandResult
result_of x = record {
  status = command_status (execution_error x);
  exit_code = x.0.exit_code;
  stdout = x.0.stdout;
  stderr = x.0.stderr;
  error = error_text (execution_error x);
}

module _ {S : Type 0} (store : Store S) (pool : Pool) (job : Job) where
  unfoldable pub fail_job : Text → S → Option Text × S
  fail_job cause s =
      let (r, s') = store.fail (pos job.id) (pos job.run_id) cause pool.retry_delay s in
      (
        elim r [
          | ok status ↦ some cause
          | err e ↦ some (cause ++ codes "\nmark job failed: " ++ pool.describe e)
        ],
        s',
      )

  -- What a command does after it has been recorded: its execution, and the record of its end.
  unfoldable pub run_command : ℕ → Execute.Command → ℕ → S → Option Text × S
  run_command index command command_id s =
      let x = pool.execute index command in
      let (completed, s') = store.complete_command (pos command_id) (result_of x) s in
      (joined pool.describe (execution_error x) completed, s')

  unfoldable pub finish_job : S → Option Text × S
  finish_job s =
      let (r, s') = store.succeed (pos job.id) (pos job.run_id) s in
      (elim r [ ok _ ↦ none | err e ↦ some (codes "mark job succeeded: " ++ pool.describe e) ], s')

  -- The end of a step: `next` is what follows it if it succeeds.
  unfoldable pub after_run :
      Execute.Command → (S → Option Text × S) → Option Text × S → Option Text × S
  after_run command next (some e, s) = fail_job (failed_text command e) s
  after_run command next (none, s) = next s

  unfoldable pub after_start :
      ℕ → Execute.Command → (S → Option Text × S) → Result Error ℕ × S → Option Text × S
  after_start index command next (err e, s) =
      fail_job
        (codes "record command " ++ quote command.name ++ codes " start: " ++ pool.describe e) s
  after_start index command next (ok command_id, s) =
      after_run command next (run_command index command command_id s)

  unfoldable pub after_check :
      ℕ → CommandConfig → (S → Option Text × S) → Option Text → S → Option Text × S
  after_check index expanded next (some e) s = fail_job (refused_text expanded e) s
  after_check index expanded next none s =
      let command = command_from_config expanded in
      after_start index command next (store.start_command (start_of job index command) s)

  unfoldable pub run_step : ℕ → CommandConfig → (S → Option Text × S) → S → Option Text × S
  run_step index configured next s =
      let expanded = expanded_step job configured in
      after_check index expanded next (validate_execution expanded) s

  unfoldable pub run_pipeline : ℕ → List CommandConfig → S → Option Text × S
  run_pipeline index [] s = finish_job s
  run_pipeline index (c ∷ cs) s = run_step index c (run_pipeline (suc index) cs) s

  -- The error of the attempt, `none` for a success, and the store after it.
  unfoldable pub process_job : S → Option Text × S
  process_job s = elim (pool.resolve job.watch_name) [
    | none ↦ fail_job (unknown_watch job) s
    | some pipeline ↦ run_pipeline 0 pipeline s
  ]

-- One turn of `consume`: a claimed job and the error of its attempt, or an error of the claim, after
-- which the worker waits for the next poll.
unfoldable pub turn : {S : Type 0} → Store S → Pool → S → Result Error (Job × Option Text) × S
unfolding process_job
turn store pool s =
    let (r, s1) = store.claim s in
    elim r [
      | err e ↦ (err e, s1)
      | ok job ↦ let (error, s2) = process_job store pool job s1 in (ok (job, error), s2)
    ]
