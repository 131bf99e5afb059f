-- ===== src/Worker/Pipeline.antt =====
-- The attempt of a job whose commands all succeed, over the durable queue without faults
-- (internal/worker/worker.go, internal/queue).
use slipway.Common.{
  ℕ, zero, suc, ◌+◌, ◌≤◌, pos, is_positive, is_negative, is_blank, Text, true, false, Option, none,
  some, List, [], ◌∷◌, length, ◌≡◌, refl, sym, ◌∙◌, arith, ok, count_where, update_where,
  find_where, inl, inr,
}
use mathlib.Core.Option.{none-ne-some}
use slipway.Queue.Types.{
  command_is_running, Time, command_succeeded, CommandStart, CommandResult, Job, Run, Db,
}
use slipway.Queue.Tx.{no_faults}
use slipway.Queue.Jobs.{running_command, running_run, running_job}
use slipway.Queue.Invariant.Defs.{IsConsistent}
use slipway.Queue.Invariant.Outcomes.{with_commands}
use slipway.Queue.Behaviour.Finish.{succeeded_run, succeeded_job, succeed_lem}
use slipway.Executor.Execute as Execute
use slipway.Config.Commands.{CommandConfig}
use slipway.Config.Validation.{validate_execution}
use slipway.Worker.Expansion.{command_from_config}
use slipway.Worker.Process.{
  Store, Pool, expanded_step, start_of, execution_error, result_of, run_command, finish_job,
  after_run, after_start, after_check, run_step, run_pipeline, process_job,
}
use slipway.Worker.Trace.{process_job_known}
use slipway.Worker.Durable.{queue_store}
use slipway.Worker.Success.{
  IsReady, IsStart, is_of, recorded_ended, started, ended, start_accepted, end_accepted,
  ended-IsReady, running_ended, succeeded_ended, succeeded_command,
}

-- A step that passes the checks and whose execution succeeds.
pub record IsGoodStep (pool : Pool) (job : Job) (n : ℕ) (c : CommandConfig) : Type 0 where
  pub valid : validate_execution (expanded_step job c) ≡ none
  pub program : is_blank (command_from_config (expanded_step job c)).program ≡ false
  pub timeout : is_negative (command_from_config (expanded_step job c)).timeout ≡ false
  pub executed : execution_error (pool.execute n (command_from_config (expanded_step job c))) ≡ none

abbrev pub IsGood : Pool → Job → ℕ → List CommandConfig → Type 0
IsGood pool job n [] = Unit
IsGood pool job n (c ∷ cs) = IsGoodStep pool job n c × IsGood pool job (suc n) cs

abbrev pub command_of : Job → CommandConfig → Execute.Command
command_of job c = command_from_config (expanded_step job c)

module _ {S : Type 0} (store : Store S) (pool : Pool) (job : Job) (n : ℕ) (c : CommandConfig)
    (next : S → Option Text × S) (s s1 s2 : S) (id : ℕ) (good : IsGoodStep pool job n c) where
  command_succeeds :
      store.complete_command (pos id) (result_of (pool.execute n (command_of job c))) s1
        ≡ (ok tt, s2)
      → run_command store pool job n (command_of job c) id s1 ≡ (none, s2)
  unfolding run_command
  command_succeeds k = rw (k, good.executed)

  step_succeeds :
      store.start_command (start_of job n (command_of job c)) s ≡ (ok id, s1)
      → store.complete_command (pos id) (result_of (pool.execute n (command_of job c))) s1
        ≡ (ok tt, s2)
      → run_step store pool job n c next s ≡ next s2
  unfolding run_step after_check after_start after_run
  step_succeeds h k = rw (good.valid, h, command_succeeds k)

finish_succeeds :
    {S : Type 0} (store : Store S) (pool : Pool) (job : Job) (s s' : S)
    → store.succeed (pos job.id) (pos job.run_id) s ≡ (ok tt, s')
    → finish_job store pool job s ≡ (none, s')
unfolding finish_job
finish_succeeds store pool job s s' h = rw h

-- What the success of an attempt of a number of steps leaves of a database.
pub record IsFinished (job : Job) (before : Db) (steps : ℕ) (x : Option Text × (Db × ℕ))
    : Type 0 where
  pub at : Time
  pub no_error : x.0 ≡ none
  pub jobs : x.1.0.jobs ≡ update_where (running_job job.id) (succeeded_job at) before.jobs
  pub runs :
      x.1.0.runs ≡ update_where (running_run job.run_id job.id) (succeeded_run at) before.runs
  pub none_open :
      count_where (running_command job.run_id) x.1.0.commands
      ≡ count_where (running_command job.run_id) before.commands
  pub all_succeeded :
      count_where (succeeded_command job.run_id) x.1.0.commands
      ≡ count_where (succeeded_command job.run_id) before.commands + steps

module _ (clock : ℕ → Time) (pool : Pool) (job : Job) (r : Run)
    (job_positive : is_positive (pos job.id) ≡ true)
    (run_positive : is_positive (pos job.run_id) ≡ true) where
  abbrev pub calm : Store (Db × ℕ)
  calm = queue_store clock (λ k. no_faults)

  -- The database after the job has been marked as succeeded.
  abbrev settled : Time → Db → Db
  settled now db = record db {
    runs = update_where (running_run job.run_id job.id) (succeeded_run now) db.runs;
    jobs = update_where (running_job job.id) (succeeded_job now) db.jobs;
  }

  finish_lem :
      (db : Db) (k : ℕ)
      → IsConsistent db
      → find_where (running_run job.run_id job.id) db.runs ≡ some r
      → IsFinished job db 0 (finish_job calm pool job (db, k))
  finish_lem db k v found =
      elim (succeed_lem (clock k) (pos job.id) (pos job.run_id) db v job_positive run_positive) [
        | inl (missing, e) ↦ absurd (none-ne-some r (sym missing ∙ found))
        | inr (r', j, fr, fj, e) ↦
            rw (finish_succeeds calm pool job (db, k) (settled (clock k) db, suc k) (rw e))
              (record {
                at = clock k;
                no_error = refl;
                jobs = refl;
                runs = refl;
                none_open = refl;
                all_succeeded = omega arith;
              })
      ]

  is_start :
      (n : ℕ) (c : CommandConfig)
      → IsGoodStep pool job n c
      → IsStart job.run_id n (start_of job n (command_of job c))
  unfolding start_of
  is_start n c g = record {
    run = refl;
    positive = positive job.run_id run_positive;
    sequence = refl;
    program = g.program;
    timeout = g.timeout;
  }
    where
      positive : (i : ℕ) → is_positive (pos i) ≡ true → 1 ≤ i
      positive zero h = cc
      positive (suc i) h = omega arith

  module _ (n : ℕ) (c : CommandConfig) (db : Db) (k : ℕ) (ready : IsReady job.run_id n db)
      (g : IsGoodStep pool job n c) where
    abbrev pub start : CommandStart
    start = start_of job n (command_of job c)

    abbrev pub result : CommandResult
    result = result_of (pool.execute n (command_of job c))

    result_status : result.status ≡ command_succeeded
    result_status = rw g.executed

    result_ended : command_is_running result.status ≡ false
    result_ended = rw result_status

    -- The database after the step.
    abbrev pub after : Db
    after = ended (clock k) (clock (suc k)) start result db

    pub after-IsReady : IsReady job.run_id (suc n) after
    after-IsReady =
        ended-IsReady job.run_id n db ready start (is_start n c g) (clock k) (clock (suc k)) result
          result_ended

    pub after_recorded :
        count_where (is_of job.run_id) after.commands
        ≡ suc (count_where (is_of job.run_id) db.commands)
    after_recorded =
        recorded_ended job.run_id n db ready start (is_start n c g) (clock k) (clock (suc k)) result
          result_ended

    pub stepped :
        (next : Db × ℕ → Option Text × (Db × ℕ))
        → run_step calm pool job n c next (db, k) ≡ next (after, suc (suc k))
    stepped next =
        step_succeeds calm pool job n c next (db, k) (started (clock k) start db, suc k)
          (after, suc (suc k)) (suc db.command_seq) g
          (rw (
            start_accepted job.run_id n db ready start (is_start n c g) (clock k) (clock (suc k))
              result result_ended))
          (rw (
            end_accepted job.run_id n db ready start (is_start n c g) (clock k) (clock (suc k))
              result result_ended))

    one_more :
        (steps : ℕ) (x : Option Text × (Db × ℕ))
        → IsFinished job after steps x
        → IsFinished job db (suc steps) x
    one_more steps x f = record {
      at = f.at;
      no_error = f.no_error;
      jobs = f.jobs;
      runs = f.runs;
      none_open =
          f.none_open
          ∙ running_ended job.run_id n db ready start (is_start n c g) (clock k) (clock (suc k))
              result result_ended;
      all_succeeded = omega (
        arith,
        f.all_succeeded,
        succeeded_ended job.run_id n db ready start (is_start n c g) (clock k) (clock (suc k))
            result result_ended result_status,
      );
    }

  run_pipeline_lem :
      (n : ℕ) (cs : List CommandConfig) (db : Db) (k : ℕ)
      → IsConsistent db
      → IsReady job.run_id n db
      → find_where (running_run job.run_id job.id) db.runs ≡ some r
      → IsGood pool job n cs
      → IsFinished job db (length cs) (run_pipeline calm pool job n cs (db, k))
  unfolding run_pipeline
  run_pipeline_lem n [] db k v ready found good = finish_lem db k v found
  run_pipeline_lem n (c ∷ cs) db k v ready found (g, good) =
      rw (stepped n c db k ready g (run_pipeline calm pool job (suc n) cs)) (
        one_more n c db k ready g (length cs) _ (
          run_pipeline_lem (suc n) cs (after n c db k ready g) (suc (suc k))
            (with_commands db _ _ v) (after-IsReady n c db k ready g) found good))

  -- A job that a run of it is running and whose pipeline is configured, in a consistent database that
  -- is ready for its first step, is brought to success if every step passes the checks and every
  -- execution succeeds and the database refuses no statement: the attempt returns no error, the job
  -- and the run are marked as succeeded, every step has left a command of the run that succeeded,
  -- and no more of them are open than before.
  pub process_job_succeeds :
      (cs : List CommandConfig) (db : Db) (k : ℕ)
      → IsConsistent db
      → IsReady job.run_id 0 db
      → find_where (running_run job.run_id job.id) db.runs ≡ some r
      → pool.resolve job.watch_name ≡ some cs
      → IsGood pool job 0 cs
      → IsFinished job db
          (length cs)
          (process_job (queue_store clock (λ k. no_faults)) pool job (db, k))
  process_job_succeeds cs db k v ready found resolved good =
      rw (process_job_known calm pool job (db, k) cs resolved)
        (run_pipeline_lem 0 cs db k v ready found good)
