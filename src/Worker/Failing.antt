-- ===== src/Worker/Failing.antt =====
-- The attempt of a job one of whose steps fails, over the durable queue without faults
-- (internal/worker/worker.go, internal/queue).
use slipway.Common.{
  leb, zero, Bool-cases, if_both, Bool, ok, count_where, count_where_eq, count_where-update_where,
  ◌≤◌, ◌<◌, ◌+◌, ℕ, suc, pos, pos_part, is_positive, Text, true, false, Option, some, List, [], ◌∷◌,
  ◌≡◌, refl, sym, ◌∙◌, ap, arith, update_where, update_clears, find_where, inl, inr,
}
use mathlib.Core.Option.{none-ne-some}
use slipway.Queue.Types.{
  Time, command_is_running, CommandStart, CommandResult, Status, queued, failed, Job, Run,
  CommandExecution, Db,
}
use slipway.Queue.Tx.{no_faults}
use slipway.Queue.Jobs.{running_command, running_run, running_job, fail}
use slipway.Queue.Commands.{same_step}
use slipway.Queue.Invariant.Defs.{IsConsistent}
use slipway.Queue.Invariant.Outcomes.{with_commands}
use slipway.Queue.Behaviour.Finish.{
  failed_command, retried_job, failed_job, after_failure, fail_lem,
}
use slipway.Config.Commands.{CommandConfig}
use slipway.Config.Validation.{validate_execution}
use slipway.Worker.Process as Process
use slipway.Worker.Process.{
  Store, Pool, refused_text, failed_text, expanded_step, start_of, execution_error, result_of,
  run_command, after_run, after_start, after_check, run_step, run_pipeline, process_job,
}
use slipway.Worker.Trace.{process_job_known}
use slipway.Worker.Durable.{queue_store}
use slipway.Worker.Success.{
  IsReady, IsStart, is_of, started, ended, start_accepted, end_accepted, ended-IsReady,
  recorded_ended,
}
use slipway.Worker.Pipeline.{command_of, after, after-IsReady, after_recorded, stepped}
use slipway.Worker.Steps.{
  quiet, IsFailedStep, IsFailing, IsGivenUp, positive, given_up, step_refused, step_fails,
}

module _ (clock : ℕ → Time) (pool : Pool) (job : Job) (r : Run)
    (job_positive : is_positive (pos job.id) ≡ true)
    (run_positive : is_positive (pos job.run_id) ≡ true) where
  -- Closing the open commands of a run changes neither their runs nor their steps.
  closed_count :
      (q : CommandExecution → Bool) (now : Time) (reason : Text) (cs : List CommandExecution)
      → ((x : CommandExecution) → q (failed_command now reason x) ≡ q x)
      → count_where q (update_where (running_command job.run_id) (failed_command now reason) cs)
        ≡ count_where q cs
  closed_count q now reason cs same =
      count_where-update_where (running_command job.run_id) q (failed_command now reason) cs
      ∙ count_where_eq _ q
          (λ x. if_both (λ b. b ≡ q x) (running_command job.run_id x) _ _ (same x) refl) cs

  -- A failure that came to the same database whether or not the job is tried again.
  leaves :
      (n : ℕ) (cause : Text) (db : Db) (k : ℕ) (j : Job) (status : Status) (row : Job → Job)
      → IsReady job.run_id n db
      → find_where (running_job job.id) db.jobs ≡ some j
      → fail no_faults (clock k) (pos job.id) (pos job.run_id) cause pool.retry_delay db
        ≡ (ok status, after_failure job.id job.run_id (clock k) cause row db)
      → (j.attempts ≤ j.max_retries
          → update_where (running_job job.id) row db.jobs
            ≡ update_where
                (running_job job.id)
                (retried_job (clock k) (pos_part pool.retry_delay) cause)
                db.jobs)
      → (j.max_retries < j.attempts
          → update_where (running_job job.id) row db.jobs
            ≡ update_where (running_job job.id) (failed_job (clock k) cause) db.jobs)
      → IsGivenUp pool job db n 0 cause (Process.fail_job (quiet clock) pool job cause (db, k))
  leaves n cause db k j status row ready found e retried abandoned =
      rw
        (given_up (quiet clock) pool job cause (db, k)
          (after_failure job.id job.run_id (clock k) cause row db, suc k) status (rw e))
        (record {
          at = clock k;
          row = j;
          found = found;
          error = refl;
          retried = retried;
          abandoned = abandoned;
          runs = refl;
          none_open =
              update_clears (running_command job.run_id) (running_command job.run_id)
                (failed_command (clock k) cause) db.commands (λ x. ground arith);
          recorded =
              omega
                (arith, closed_count (is_of job.run_id) (clock k) cause db.commands (λ x. refl));
          stopped = λ i h.
              closed_count (same_step job.run_id i) (clock k) cause db.commands (λ x. refl)
              ∙ ready.free i (omega arith);
        })

  give_up :
      (n : ℕ) (cause : Text) (db : Db) (k : ℕ)
      → IsConsistent db
      → IsReady job.run_id n db
      → find_where (running_run job.run_id job.id) db.runs ≡ some r
      → IsGivenUp pool job db n 0 cause (Process.fail_job (quiet clock) pool job cause (db, k))
  give_up n cause db k v ready found =
      elim (fail_lem (clock k) (pos job.id) (pos job.run_id) db v job_positive run_positive cause
        pool.retry_delay) [
          | inl (missing, e) ↦ absurd (none-ne-some r (sym missing ∙ found))
          | inr (r', j, fr, fj, retried, abandoned) ↦
              elim (Bool-cases (leb j.attempts j.max_retries)) [
                | inl left ↦
                    let h : j.attempts ≤ j.max_retries = ground (arith, left) in
                    leaves n cause db k j queued
                      (retried_job (clock k) (pos_part pool.retry_delay) cause) ready fj (retried h)
                      (λ g. refl) (λ g. absurd (omega (arith, h, g)))
                | inr none_left ↦
                    let h : j.max_retries < j.attempts = ground (arith, none_left) in
                    leaves n cause db k j failed (failed_job (clock k) cause) ready fj (abandoned h)
                      (λ g. absurd (omega (arith, h, g))) (λ g. refl)
              ]
        ]

  -- What was given up after a change of the commands alone.
  earlier :
      (db db' : Db) (n n' steps steps' : ℕ) (reason : Text) (x : Option Text × (Db × ℕ))
      → db'.jobs ≡ db.jobs
      → db'.runs ≡ db.runs
      → n' + steps' ≡ n + steps
      → count_where (is_of job.run_id) db'.commands + steps'
        ≡ count_where (is_of job.run_id) db.commands + steps
      → IsGivenUp pool job db' n' steps' reason x
      → IsGivenUp pool job db n steps reason x
  earlier db db' n n' steps steps' reason x same_jobs same_runs same_step same_count u = record {
    at = u.at;
    row = u.row;
    found = ap (find_where (running_job job.id)) (sym same_jobs) ∙ u.found;
    error = u.error;
    retried = λ h. u.retried h ∙ ap (update_where (running_job job.id) _) same_jobs;
    abandoned = λ h. u.abandoned h ∙ ap (update_where (running_job job.id) _) same_jobs;
    runs = u.runs ∙ ap (update_where (running_run job.run_id job.id) _) same_runs;
    none_open = u.none_open;
    recorded = u.recorded ∙ same_count;
    stopped = λ k h. u.stopped k (omega (arith, h, same_step));
  }

  module _ (n : ℕ) (c : CommandConfig) (db : Db) (k : ℕ) (v : IsConsistent db)
      (ready : IsReady job.run_id n db)
      (found : find_where (running_run job.run_id job.id) db.runs ≡ some r)
      (next : Db × ℕ → Option Text × (Db × ℕ)) where
    abbrev start : CommandStart
    start = start_of job n (command_of job c)

    abbrev result : CommandResult
    result = result_of (pool.execute n (command_of job c))

    abbrev failed_after : Db
    failed_after = ended (clock k) (clock (suc k)) start result db

    refused_step :
        (e : Text)
        → validate_execution (expanded_step job c) ≡ some e
        → IsGivenUp pool job db n 0
            (refused_text (expanded_step job c) e)
            (run_step (quiet clock) pool job n c next (db, k))
    refused_step e h =
        rw (step_refused (quiet clock) pool job n c next e (db, k) h)
          (give_up n (refused_text (expanded_step job c) e) db k v ready found)

    module _ (g : IsFailedStep pool job n c) where
      result_failed : command_is_running result.status ≡ false
      result_failed = rw g.executed

      starts : IsStart job.run_id n start
      unfolding start_of
      starts = record {
        run = refl;
        positive = positive job.run_id run_positive;
        sequence = refl;
        program = g.program;
        timeout = g.timeout;
      }

      failed_step :
          IsGivenUp pool job db n 1
            (failed_text (command_of job c) g.error)
            (run_step (quiet clock) pool job n c next (db, k))
      failed_step =
          rw
            (step_fails (quiet clock) pool job n c next g (suc db.command_seq) (db, k)
              (started (clock k) start db, suc k) (failed_after, suc (suc k))
              (rw (
                start_accepted job.run_id n db ready start starts (clock k) (clock (suc k)) result
                  result_failed))
              (rw (
                end_accepted job.run_id n db ready start starts (clock k) (clock (suc k)) result
                  result_failed)))
            (earlier db failed_after n (suc n) 1 0 (failed_text (command_of job c) g.error) _ refl
              refl (omega arith)
              (omega (
                arith,
                recorded_ended job.run_id n db ready start starts (clock k) (clock (suc k)) result
                    result_failed,
              ))
              (give_up (suc n) (failed_text (command_of job c) g.error) failed_after (suc (suc k))
                (with_commands db _ _ v)
                (ended-IsReady job.run_id n db ready start starts (clock k) (clock (suc k)) result
                  result_failed)
                found))

  failing_lem :
      (n : ℕ) (cs : List CommandConfig) (steps : ℕ) (reason : Text) (db : Db) (k : ℕ)
      → IsConsistent db
      → IsReady job.run_id n db
      → find_where (running_run job.run_id job.id) db.runs ≡ some r
      → IsFailing pool job n cs steps reason
      → IsGivenUp pool job db n steps reason (run_pipeline (quiet clock) pool job n cs (db, k))
  unfolding run_pipeline
  failing_lem n [] steps reason db k v ready found h = elim h [ ]
  failing_lem n (c ∷ cs) zero reason db k v ready found (IsFailing.refused e h) =
      refused_step n c db k v ready found (run_pipeline (quiet clock) pool job (suc n) cs) e h
  failing_lem n (c ∷ cs) (suc zero) reason db k v ready found (IsFailing.broken g) =
      failed_step n c db k v ready found (run_pipeline (quiet clock) pool job (suc n) cs) g
  failing_lem n (c ∷ cs) (suc steps) reason db k v ready found (IsFailing.later g h) =
      let db' = after clock pool job r job_positive run_positive n c db k ready g in
      rw
        (stepped clock pool job r job_positive run_positive n c db k ready g
          (run_pipeline (quiet clock) pool job (suc n) cs))
        (earlier db db' n (suc n) (suc steps) steps reason _ refl refl (omega arith)
          (omega
            (arith, after_recorded clock pool job r job_positive run_positive n c db k ready g))
          (failing_lem (suc n) cs steps reason db' (suc (suc k)) (with_commands db _ _ v)
            (after-IsReady clock pool job r job_positive run_positive n c db k ready g) found h))

  -- A job that a run of it is running and whose pipeline is configured, in a consistent database that
  -- is ready for its first step, is given up at its first step that the checks refuse or whose
  -- execution fails, if the database refuses no statement: the attempt returns the error of that step,
  -- and the run has failed with it; a command was recorded for each step up to there, that one
  -- included if it ran, and for none beyond; no command of the run is left open; and the job is
  -- queued again, due after the delay, if its attempts are at most its retries, and has failed for
  -- good if they are more.
  pub process_job_fails :
      (cs : List CommandConfig) (steps : ℕ) (reason : Text) (db : Db) (k : ℕ)
      → IsConsistent db
      → IsReady job.run_id 0 db
      → find_where (running_run job.run_id job.id) db.runs ≡ some r
      → pool.resolve job.watch_name ≡ some cs
      → IsFailing pool job 0 cs steps reason
      → IsGivenUp pool job db 0 steps reason
          (process_job (queue_store clock (λ k. no_faults)) pool job (db, k))
  process_job_fails cs steps reason db k v ready found resolved h =
      rw (process_job_known (quiet clock) pool job (db, k) cs resolved)
        (failing_lem 0 cs steps reason db k v ready found h)
