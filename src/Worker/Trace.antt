-- ===== src/Worker/Trace.antt =====
-- Which calls a worker makes of its store for one job (internal/worker/worker.go), whatever the store
-- answers.
use slipway.Common.{
  ◌+◌, length, arith, ℕ, suc, ℤ, pos, Text, Bool, true, false, Option, none, some, List, [], ◌∷◌,
  ◌++◌, ◌≡◌, refl, ◌∙◌, Result, Option-cases, inl, inr, ok, err,
}
use mathlib.Core.List.{append_assoc}
use slipway.Queue.Types.{
  Error, Status, CommandStatus, command_running, command_succeeded, command_failed, Job,
  CommandStart, CommandResult,
}
use slipway.Executor.Execute as Execute
use slipway.Config.Commands.{CommandConfig}
use slipway.Config.Validation.{validate_execution}
use slipway.Worker.Expansion.{command_from_config}
use slipway.Worker.Process.{
  Store, Pool, unknown_watch, fail_job, expanded_step, start_of, after_run, after_start,
  command_status, joined, execution_error, result_of, after_check, run_command, finish_job,
  run_step, run_pipeline, process_job,
}

-- A call of the store with its answer.
pub data Event : Type 0 where
  claim_answered : Result Error Job → Event
  start_answered : CommandStart → Result Error ℕ → Event
  end_answered : ℤ → CommandResult → Result Error (Unit {0}) → Event
  success_answered : ℤ → ℤ → Result Error (Unit {0}) → Event
  failure_answered : ℤ → ℤ → Text → ℤ → Result Error Status → Event

-- A store that keeps a record of the calls and its answers, the last one at the end.
abbrev pub logged : {S : Type 0} → Store S → Store (S × List Event)
logged store = record {
  claim = λ s. let (r, s') = store.claim s.0 in (r, (s', s.1 ++ claim_answered r ∷ []));
  start_command =
      λ c s. let (r, s') = store.start_command c s.0 in (r, (s', s.1 ++ start_answered c r ∷ []));
  complete_command = λ id x s.
      let (r, s') = store.complete_command id x s.0 in (r, (s', s.1 ++ end_answered id x r ∷ []));
  succeed = λ job run s.
      let (r, s') = store.succeed job run s.0 in (r, (s', s.1 ++ success_answered job run r ∷ []));
  fail = λ job run reason delay s.
      let (r, s') = store.fail job run reason delay s.0 in
      (r, (s', s.1 ++ failure_answered job run reason delay r ∷ []));
}

after_two :
    (log : List Event) (a b : Event) (events : List Event)
    → ((log ++ a ∷ []) ++ b ∷ []) ++ events ≡ log ++ (a ∷ b ∷ events)
after_two log a b events =
    append_assoc (log ++ a ∷ []) (b ∷ []) events ∙ append_assoc log (a ∷ []) (b ∷ events)

-- A start of a command for the run of a job, as its step of a number.
abbrev pub IsStartOf : Job → ℕ → CommandStart → Type 0
IsStartOf job n c = (c.run_id ≡ pos job.run_id) × (c.sequence ≡ pos (suc n))

abbrev pub has_failed : CommandStatus → Result Error (Unit {0}) → Bool
has_failed command_succeeded (ok _) = false
has_failed command_succeeded (err e) = true
has_failed command_running answer = true
has_failed command_failed answer = true

-- The calls of one attempt of a job from the step of an index on, with the store's answers. The end
-- of a command is recorded under the id that its start was given; the next step follows only a
-- success whose record was accepted.
pub data IsAttempt (job : Job) (total : ℕ) : ℕ → List Event → Type 0 where
  success :
      {n : ℕ} (answer : Result Error (Unit {0}))
      → n ≡ total
      → IsAttempt job total n (success_answered (pos job.id) (pos job.run_id) answer ∷ [])
  failure :
      {n : ℕ} (reason : Text) (delay : ℤ) (answer : Result Error Status)
      → IsAttempt job total n
          (failure_answered (pos job.id) (pos job.run_id) reason delay answer ∷ [])
  refused :
      {n : ℕ} (c : CommandStart) (e : Error) (reason : Text) (delay : ℤ)
      (answer : Result Error Status)
      → IsStartOf job n c
      → IsAttempt job total n (
          start_answered c (err e)
          ∷ failure_answered (pos job.id) (pos job.run_id) reason delay answer
          ∷ [])
  failed_step :
      {n : ℕ} (c : CommandStart) (id : ℕ) (r : CommandResult) (kept : Result Error (Unit {0}))
      (reason : Text) (delay : ℤ) (answer : Result Error Status)
      → IsStartOf job n c
      → has_failed r.status kept ≡ true
      → IsAttempt job total n (
          start_answered c (ok id)
          ∷ end_answered (pos id) r kept
          ∷ failure_answered (pos job.id) (pos job.run_id) reason delay answer
          ∷ [])
  step :
      {n : ℕ} (c : CommandStart) (id : ℕ) (r : CommandResult) {events : List Event}
      → IsStartOf job n c
      → r.status ≡ command_succeeded
      → IsAttempt job total (suc n) events
      → IsAttempt job total n (start_answered c (ok id) ∷ end_answered (pos id) r (ok tt) ∷ events)

module _ {S : Type 0} (store : Store S) (pool : Pool) (job : Job) (s : S) where
  pub process_job_unknown :
      pool.resolve job.watch_name ≡ none
      → process_job store pool job s ≡ fail_job store pool job (unknown_watch job) s
  unfolding process_job
  process_job_unknown e = rw (e, process_job)

  pub process_job_known :
      (cs : List CommandConfig)
      → pool.resolve job.watch_name ≡ some cs
      → process_job store pool job s ≡ run_pipeline store pool job 0 cs s
  unfolding process_job
  process_job_known cs e = rw (e, process_job)

module _ {S : Type 0} (store : Store S) (pool : Pool) (job : Job) (total : ℕ) where
  -- What a part of an attempt, from a step on, adds to the record.
  abbrev Adds : ℕ → List Event → Option Text × (S × List Event) → Type 0
  Adds n log x = (events : List Event) × (x.1.1 ≡ log ++ events) × IsAttempt job total n events

  fail_job-Adds :
      (n : ℕ) (cause : Text) (s : S) (log : List Event)
      → Adds n log (fail_job (logged store) pool job cause (s, log))
  unfolding fail_job
  fail_job-Adds n cause s log = (_, refl, IsAttempt.failure cause pool.retry_delay _)

  finish_job-Adds :
      (n : ℕ) (s : S) (log : List Event)
      → n ≡ total
      → Adds n log (finish_job (logged store) pool job (s, log))
  unfolding finish_job
  finish_job-Adds n s log h = (_, refl, IsAttempt.success _ h)

  module _ (n : ℕ) (command : Execute.Command)
      (next : S × List Event → Option Text × (S × List Event)) (log : List Event)
      (rest : (s : S) (log : List Event) → Adds (suc n) log (next (s, log))) where
    abbrev start : CommandStart
    start = start_of job n command

    start-IsStartOf : IsStartOf job n start
    unfolding start_of
    start-IsStartOf = (refl, refl)

    -- What follows a command, by the error of its execution and the answer to its record.
    abbrev Follows : ℕ → CommandResult → Result Error (Unit {0}) → Option Text → S → Type 0
    Follows id r kept error s = Adds n log (
        after_run (logged store) pool job command next (
          error,
          (s, (log ++ start_answered start (ok id) ∷ []) ++ end_answered (pos id) r kept ∷ []),
        ))

    after_failure-Adds :
        (id : ℕ) (r : CommandResult) (kept : Result Error (Unit {0})) (e : Text) (s : S)
        → has_failed r.status kept ≡ true
        → Follows id r kept (some e) s
    unfolding after_run fail_job
    after_failure-Adds id r kept e s h = (
      _,
      after_two log (start_answered start (ok id)) (end_answered (pos id) r kept) _,
      IsAttempt.failed_step start id r kept _ _ _ start-IsStartOf h,
    )

    after_success-Adds :
        (id : ℕ) (r : CommandResult) (s : S)
        → r.status ≡ command_succeeded
        → Follows id r (ok tt) none s
    unfolding after_run
    after_success-Adds id r s h =
        let log' =
          (log ++ start_answered start (ok id) ∷ []) ++ end_answered (pos id) r (ok tt) ∷ [] in
        let (events, added, attempt) = rest s log' in
        (
          start_answered start (ok id) ∷ end_answered (pos id) r (ok tt) ∷ events,
          added
              ∙ after_two log (start_answered start (ok id)) (end_answered (pos id) r (ok tt))
                  events,
          IsAttempt.step start id r start-IsStartOf h attempt,
        )

    after_run-Adds :
        (id : ℕ) (r : CommandResult) (kept : Result Error (Unit {0})) (e : Option Text) (s : S)
        → r.status ≡ command_status e
        → Follows id r kept (joined pool.describe e kept) s
    after_run-Adds id r (ok tt) none s h = after_success-Adds id r s h
    after_run-Adds id r (err x) none s h = after_failure-Adds id r (err x) _ s (rw h refl)
    after_run-Adds id r (ok tt) (some e) s h = after_failure-Adds id r (ok tt) e s (rw h refl)
    after_run-Adds id r (err x) (some e) s h = after_failure-Adds id r (err x) _ s (rw h refl)

    after_start-Adds :
        (r : Result Error ℕ) (s : S)
        → Adds n log (
            after_start
              (logged store)
              pool
              job
              n
              command
              next
              (r, (s, log ++ start_answered start r ∷ [])))
    unfolding after_start fail_job run_command
    after_start-Adds (err e) s = (
      _,
      append_assoc log (start_answered start (err e) ∷ []) _,
      IsAttempt.refused start e _ _ _ start-IsStartOf,
    )
    after_start-Adds (ok id) s =
        let x = pool.execute n command in
        let (kept, s') = store.complete_command (pos id) (result_of x) s in
        after_run-Adds id (result_of x) kept (execution_error x) s' refl

    after_check-Adds :
        (c : CommandConfig) (v : Option Text) (s : S)
        → command ≡ command_from_config c
        → Adds n log (after_check (logged store) pool job n c next v (s, log))
    unfolding after_check
    after_check-Adds c (some e) s same = fail_job-Adds n _ s log
    after_check-Adds c none s same = rw (← same) (
        after_start-Adds (store.start_command (start_of job n command) s).0
          (store.start_command (start_of job n command) s).1)

  run_pipeline-Adds :
      (n : ℕ) (cs : List CommandConfig) (s : S) (log : List Event)
      → n + length cs ≡ total
      → Adds n log (run_pipeline (logged store) pool job n cs (s, log))
  unfolding run_pipeline run_step
  run_pipeline-Adds n [] s log h = finish_job-Adds n s log (omega (arith, h))
  run_pipeline-Adds n (c ∷ cs) s log h =
      after_check-Adds n (command_from_config (expanded_step job c))
        (run_pipeline (logged store) pool job (suc n) cs) log
        (λ s log. run_pipeline-Adds (suc n) cs s log (omega (arith, h))) (expanded_step job c)
        (validate_execution (expanded_step job c)) s refl

-- The number of steps of the pipeline of a job.
abbrev pub step_count : Pool → Job → ℕ
step_count pool job = elim (pool.resolve job.watch_name) [ none ↦ 0 | some cs ↦ length cs ]

-- Whatever the store, the executor and the configuration answer, the calls of an attempt with their
-- answers are, step by step and numbered from 1, the start of a command for the job's run and, if
-- the store accepts it, the record of its end under the id that the start was given; the next step
-- starts only if the command succeeded and the store accepted the record. The last call, and no
-- other, ends the job's run, as a success or as a failure: as a success only behind all the steps of
-- the pipeline, and always as a failure after a start that the store refused, a command that failed,
-- or a record that the store refused.
pub process_job-IsAttempt :
    {S : Type 0} (store : Store S) (pool : Pool) (job : Job) (s : S)
    → IsAttempt job (step_count pool job) 0 (process_job (logged store) pool job (s, [])).1.1
process_job-IsAttempt store pool job s = elim (Option-cases (pool.resolve job.watch_name)) [
  | inl e ↦
      let (events, added, attempt) =
        fail_job-Adds store pool job (step_count pool job) 0 (unknown_watch job) s [] in
      rw (process_job_unknown (logged store) pool job (s, []) e, added) attempt
  | inr (cs, e) ↦
      let all : 0 + length cs ≡ step_count pool job = rw (e, step_count) (omega arith) in
      let (events, added, attempt) =
        run_pipeline-Adds store pool job (step_count pool job) 0 cs s [] all in
      rw (process_job_known (logged store) pool job (s, []) cs e, added) attempt
]
