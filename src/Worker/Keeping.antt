-- ===== src/Worker/Keeping.antt =====
-- What a worker (internal/worker/worker.go) leaves of a property that every operation of its store
-- keeps.
use slipway.Common.{
  ℕ, suc, ℤ, pos, Text, Option, none, some, List, [], ◌∷◌, ◌≡◌, Result, ok, err, Option-cases,
  Result-cases, inl, inr,
}
use slipway.Queue.Types.{Job, CommandStart, CommandResult, Error}
use slipway.Executor.Execute as Execute
use slipway.Config.Commands.{CommandConfig}
use slipway.Config.Validation.{validate_execution}
use slipway.Worker.Expansion.{command_from_config}
use slipway.Worker.Process.{
  Store, Pool, unknown_watch, fail_job, expanded_step, run_command, finish_job, after_run,
  after_start, after_check, run_step, run_pipeline, process_job, turn,
}
use slipway.Worker.Trace.{process_job_known, process_job_unknown}

-- The laws: every operation keeps the property.
pub record Keeps {S : Type 0} (P : S → Type 0) (store : Store S) : Type 0 where
  pub claim : (s : S) → P s → P (store.claim s).1
  pub start_command : (c : CommandStart) (s : S) → P s → P (store.start_command c s).1
  pub complete_command :
      (id : ℤ) (r : CommandResult) (s : S) → P s → P (store.complete_command id r s).1
  pub succeed : (job run : ℤ) (s : S) → P s → P (store.succeed job run s).1
  pub fail :
      (job run : ℤ) (reason : Text) (delay : ℤ) (s : S)
      → P s
      → P (store.fail job run reason delay s).1

module _ {S : Type 0} (P : S → Type 0) (store : Store S) (k : Keeps P store) (pool : Pool) where
  module _ (job : Job) where
    fail_job_keeps : (cause : Text) (s : S) → P s → P (fail_job store pool job cause s).1
    unfolding fail_job
    fail_job_keeps cause s p = k.fail (pos job.id) (pos job.run_id) cause pool.retry_delay s p

    finish_job_keeps : (s : S) → P s → P (finish_job store pool job s).1
    unfolding finish_job
    finish_job_keeps s p = k.succeed (pos job.id) (pos job.run_id) s p

    run_command_keeps :
        (n : ℕ) (command : Execute.Command) (id : ℕ) (s : S)
        → P s
        → P (run_command store pool job n command id s).1
    unfolding run_command
    run_command_keeps n command id s p = k.complete_command (pos id) _ s p

    module _ (n : ℕ) (next : S → Option Text × S) (rest : (s : S) → P s → P (next s).1) where
      after_run_keeps :
          (command : Execute.Command) (e : Option Text) (s : S)
          → P s
          → P (after_run store pool job command next (e, s)).1
      unfolding after_run
      after_run_keeps command (some e) s p = fail_job_keeps _ s p
      after_run_keeps command none s p = rest s p

      after_start_keeps :
          (command : Execute.Command) (r : Result Error ℕ) (s : S)
          → P s
          → P (after_start store pool job n command next (r, s)).1
      unfolding after_start
      after_start_keeps command (err e) s p = fail_job_keeps _ s p
      after_start_keeps command (ok id) s p =
          after_run_keeps command _ _ (run_command_keeps n command id s p)

      after_check_keeps :
          (c : CommandConfig) (v : Option Text) (s : S)
          → P s
          → P (after_check store pool job n c next v s).1
      unfolding after_check
      after_check_keeps c (some e) s p = fail_job_keeps _ s p
      after_check_keeps c none s p =
          after_start_keeps (command_from_config c) _ _ (k.start_command _ s p)

    run_pipeline_keeps :
        (n : ℕ) (cs : List CommandConfig) (s : S) → P s → P (run_pipeline store pool job n cs s).1
    unfolding run_pipeline run_step
    run_pipeline_keeps n [] s p = finish_job_keeps s p
    run_pipeline_keeps n (c ∷ cs) s p =
        after_check_keeps n (run_pipeline store pool job (suc n) cs) (run_pipeline_keeps (suc n) cs)
          (expanded_step job c) (validate_execution (expanded_step job c)) s p

    process_job_keeps : (s : S) → P s → P (process_job store pool job s).1
    process_job_keeps s p = elim (Option-cases (pool.resolve job.watch_name)) [
      | inl e ↦ rw (process_job_unknown store pool job s e) (fail_job_keeps (unknown_watch job) s p)
      | inr (cs, e) ↦ rw (process_job_known store pool job s cs e) (run_pipeline_keeps 0 cs s p)
    ]

  turn_refused :
      (s : S) (e : Error)
      → (store.claim s).0 ≡ err e
      → turn store pool s ≡ (err e, (store.claim s).1)
  unfolding turn
  turn_refused s e r = rw (r, turn)

  turn_claimed :
      (s : S) (job : Job)
      → (store.claim s).0 ≡ ok job
      → (turn store pool s).1 ≡ (process_job store pool job (store.claim s).1).1
  unfolding turn
  turn_claimed s job r = rw (r, turn)

  pub turn_keeps : (s : S) → P s → P (turn store pool s).1
  turn_keeps s p = elim (Result-cases (store.claim s).0) [
    | inr (e, r) ↦ rw (turn_refused s e r) (k.claim s p)
    | inl (job, r) ↦ rw (turn_claimed s job r) (process_job_keeps job _ (k.claim s p))
  ]
