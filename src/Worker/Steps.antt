-- ===== src/Worker/Steps.antt =====
-- The steps of a pipeline that do not succeed, and what an attempt that is given up leaves
-- (internal/worker/worker.go, internal/queue).
use slipway.Common.{
  ℕ, zero, suc, ◌+◌, ◌<◌, ◌≤◌, pos, pos_part, is_positive, is_negative, is_blank, Text, true, false,
  Option, none, some, List, ◌∷◌, ◌≡◌, arith, ok, count_where, update_where, find_where,
}
use slipway.Queue.Types.{Time, Status, Job, Db}
use slipway.Queue.Tx.{no_faults}
use slipway.Queue.Jobs.{running_command, running_run, running_job}
use slipway.Queue.Commands.{same_step}
use slipway.Queue.Behaviour.Finish.{retried_job, failed_job, failed_run}
use slipway.Config.Commands.{CommandConfig}
use slipway.Config.Validation.{validate_execution}
use slipway.Worker.Process as Process
use slipway.Worker.Process.{
  Store, Pool, refused_text, failed_text, expanded_step, start_of, execution_error, result_of,
  run_command, after_run, after_start, after_check, run_step, run_pipeline, process_job,
}
use slipway.Worker.Durable.{queue_store}
use slipway.Worker.Success.{is_of}
use slipway.Worker.Pipeline.{IsGoodStep, command_of}

-- The durable queue without faults.
abbrev pub quiet : (ℕ → Time) → Store (Db × ℕ)
quiet clock = queue_store clock (λ k. no_faults)

-- A step that passes the checks and whose execution fails.
pub record IsFailedStep (pool : Pool) (job : Job) (n : ℕ) (c : CommandConfig) : Type 0 where
  pub valid : validate_execution (expanded_step job c) ≡ none
  pub program : is_blank (command_of job c).program ≡ false
  pub timeout : is_negative (command_of job c).timeout ≡ false
  pub error : Text
  pub executed : execution_error (pool.execute n (command_of job c)) ≡ some error

-- A pipeline, from the step of a number on, whose first step that does not succeed is refused by the
-- checks or fails: the number of commands that were started by then, and the reason.
pub data IsFailing (pool : Pool) (job : Job) : ℕ → List CommandConfig → ℕ → Text → Type 0 where
  refused :
      {n : ℕ} {c : CommandConfig} {cs : List CommandConfig} (e : Text)
      → validate_execution (expanded_step job c) ≡ some e
      → IsFailing pool job n (c ∷ cs) 0 (refused_text (expanded_step job c) e)
  broken :
      {n : ℕ} {c : CommandConfig} {cs : List CommandConfig} (g : IsFailedStep pool job n c)
      → IsFailing pool job n (c ∷ cs) 1 (failed_text (command_of job c) g.error)
  later :
      {n : ℕ} {c : CommandConfig} {cs : List CommandConfig} {steps : ℕ} {reason : Text}
      → IsGoodStep pool job n c
      → IsFailing pool job (suc n) cs steps reason
      → IsFailing pool job n (c ∷ cs) (suc steps) reason

-- What the failure of an attempt, a number of commands after a step, leaves of a database.
pub record IsGivenUp (pool : Pool) (job : Job) (before : Db) (n steps : ℕ) (reason : Text)
    (x : Option Text × (Db × ℕ)) : Type 0 where
  pub at : Time
  pub row : Job
  pub found : find_where (running_job job.id) before.jobs ≡ some row
  pub error : x.0 ≡ some reason
  pub retried :
      row.attempts ≤ row.max_retries
      → x.1.0.jobs
        ≡ update_where
            (running_job job.id)
            (retried_job at (pos_part pool.retry_delay) reason)
            before.jobs
  pub abandoned :
      row.max_retries < row.attempts
      → x.1.0.jobs ≡ update_where (running_job job.id) (failed_job at reason) before.jobs
  pub runs :
      x.1.0.runs ≡ update_where (running_run job.run_id job.id) (failed_run at reason) before.runs
  pub none_open : count_where (running_command job.run_id) x.1.0.commands ≡ 0
  -- As many commands as there were steps, and none of a step beyond them.
  pub recorded :
      count_where (is_of job.run_id) x.1.0.commands
      ≡ count_where (is_of job.run_id) before.commands + steps
  pub stopped : (k : ℕ) → n + steps < k → count_where (same_step job.run_id k) x.1.0.commands ≡ 0

pub positive : (i : ℕ) → is_positive (pos i) ≡ true → 1 ≤ i
positive zero h = cc
positive (suc i) h = omega arith

module _ {S : Type 0} (store : Store S) (pool : Pool) (job : Job) where
  pub given_up :
      (cause : Text) (s s' : S) (status : Status)
      → store.fail (pos job.id) (pos job.run_id) cause pool.retry_delay s ≡ (ok status, s')
      → Process.fail_job store pool job cause s ≡ (some cause, s')
  unfolding Process.fail_job
  given_up cause s s' status h = rw h

  module _ (n : ℕ) (c : CommandConfig) (next : S → Option Text × S) where
    pub step_refused :
        (e : Text) (s : S)
        → validate_execution (expanded_step job c) ≡ some e
        → run_step store pool job n c next s
          ≡ Process.fail_job store pool job (refused_text (expanded_step job c) e) s
    unfolding run_step after_check
    step_refused e s h = rw h

    command_fails :
        (g : IsFailedStep pool job n c) (id : ℕ) (s s' : S)
        → store.complete_command (pos id) (result_of (pool.execute n (command_of job c))) s
          ≡ (ok tt, s')
        → run_command store pool job n (command_of job c) id s ≡ (some g.error, s')
    unfolding run_command
    command_fails g id s s' h = rw (h, g.executed)

    pub step_fails :
        (g : IsFailedStep pool job n c) (id : ℕ) (s s1 s2 : S)
        → store.start_command (start_of job n (command_of job c)) s ≡ (ok id, s1)
        → store.complete_command (pos id) (result_of (pool.execute n (command_of job c))) s1
          ≡ (ok tt, s2)
        → run_step store pool job n c next s
          ≡ Process.fail_job store pool job (failed_text (command_of job c) g.error) s2
    unfolding run_step after_check after_start after_run
    step_fails g id s s1 s2 h k = rw (g.valid, h, command_fails g id s1 s2 k)
