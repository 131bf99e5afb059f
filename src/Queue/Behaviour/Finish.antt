-- ===== src/Queue/Behaviour/Finish.antt =====
-- `Succeed` and `Fail` of internal/queue/jobs.go: which pairs of ids they accept, and what they
-- write.
use mathlib.Core.Path.{subst}
use slipway.Common.{
  Bool, ℕ, ◌+◌, ◌≤◌, ◌<◌, ℤ, [], false, pos_part, is_positive, Text, true, none, some, ◌≡◌, arith,
  ok, err, leb, ◌==◌, count_where, update_where, Option-cases, inl, inr, ◌⊎◌, find_where,
  find_where_sound, find_where-none, find_where-some, find_where_count, find_where_excluded,
  count_where_mono, if◌then◌else◌,
}
use slipway.Queue.Types.{
  Time, queued, succeeded, failed, command_failed, Job, Run, CommandExecution, Db,
  invalid_transition,
}
use slipway.Queue.Tx.{no_faults}
use slipway.Queue.Jobs.{
  running_run, running_job, running_command, succeed_run, succeed_job, succeed, fail_command,
  fail_run, fail_job, fail, retry_status,
}
use slipway.Queue.Invariant.Defs.{IsConsistent, live_run, live_job}

-- The rows that the end of an attempt leaves, by their columns.
abbrev pub succeeded_run : Time → Run → Run
succeeded_run now r = record r { status = succeeded; error = []; finished_at = some now }

abbrev pub succeeded_job : Time → Job → Job
succeeded_job now j = record j {
  status = succeeded;
  last_error = [];
  updated_at = now;
  finished_at = some now;
}

abbrev pub failed_command : Time → Text → CommandExecution → CommandExecution
failed_command now reason c = record c {
  status = command_failed;
  exit_code = some (ℤ.negsuc 0);
  error = reason;
  finished_at = some now;
}

abbrev pub failed_run : Time → Text → Run → Run
failed_run now reason r = record r { status = failed; error = reason; finished_at = some now }

abbrev pub retried_job : Time → ℕ → Text → Job → Job
retried_job now delay reason j = record j {
  status = queued;
  available_at = now + delay;
  last_error = reason;
  updated_at = now;
  finished_at = none;
}

abbrev pub failed_job : Time → Text → Job → Job
failed_job now reason j = record j {
  status = failed;
  available_at = now;
  last_error = reason;
  updated_at = now;
  finished_at = some now;
}

-- The database after a run has failed, where `row` says what becomes of its job.
abbrev pub after_failure : ℕ → ℕ → Time → Text → (Job → Job) → Db → Db
after_failure job_id run_id now reason row db = record db {
  commands = update_where (running_command run_id) (failed_command now reason) db.commands;
  runs = update_where (running_run run_id job_id) (failed_run now reason) db.runs;
  jobs = update_where (running_job job_id) row db.jobs;
}

-- A live run of a consistent database is the one run of its ids, and its job is running it.
record IsLive (job_id run_id : ℕ) (db : Db) : Type 0 where
  one_run : count_where (running_run run_id job_id) db.runs ≡ 1
  job : Job
  found : find_where (running_job job_id) db.jobs ≡ some job
  one_job : count_where (running_job job_id) db.jobs ≡ 1

module _ (job_id run_id : ℕ) (db : Db) (v : IsConsistent db) where
  one_live_run :
      (r : Run)
      → find_where (running_run run_id job_id) db.runs ≡ some r
      → count_where (running_run run_id job_id) db.runs ≡ 1
  one_live_run r e = omega (
    arith,
    find_where_count (running_run run_id job_id) db.runs e,
    v.one_run run_id,
    count_where_mono (running_run run_id job_id) (λ (x : Run). x.id == run_id) (λ x. ground arith)
        db.runs,
  )

  job_is_running :
      (r : Run)
      → find_where (running_run run_id job_id) db.runs ≡ some r
      → 1 ≤ count_where (running_job job_id) db.jobs
  job_is_running r e =
      let more =
        count_where_mono (live_job job_id r.attempt) (running_job job_id) (λ x. ground arith)
          db.jobs in
      ground (
        arith,
        more,
        v.current job_id r.attempt,
        find_where_sound (running_run run_id job_id) db.runs e,
        find_where_excluded (running_run run_id job_id) (live_run job_id r.attempt) db.runs e,
      )

  live :
      (r : Run) → find_where (running_run run_id job_id) db.runs ≡ some r → IsLive job_id run_id db
  live r e =
      let (j, found_job) = find_where-some (running_job job_id) db.jobs (job_is_running r e) in
      record {
        one_run = one_live_run r e;
        job = j;
        found = found_job;
        one_job = omega (
          arith,
          job_is_running r e,
          v.one_job job_id,
          count_where_mono (running_job job_id) (λ (x : Job). x.id == job_id) (λ x. ground arith)
              db.jobs,
        );
      }

module _ (now : Time) (job_id run_id : ℤ) (db : Db) (v : IsConsistent db)
    (job_positive : is_positive job_id ≡ true) (run_positive : is_positive run_id ≡ true) where
  succeed_stale :
      find_where (running_run (pos_part run_id) (pos_part job_id)) db.runs ≡ none
      → succeed no_faults now job_id run_id db ≡ (err invalid_transition, db)
  unfolding succeed
  succeed_stale e =
      ground (arith, find_where-none (running_run (pos_part run_id) (pos_part job_id)) db.runs e)

  succeed_live :
      IsLive (pos_part job_id) (pos_part run_id) db
      → succeed no_faults now job_id run_id db ≡ (
        ok tt,
        record db {
          runs =
              update_where
                (running_run (pos_part run_id) (pos_part job_id))
                (succeed_run now)
                db.runs;
          jobs = update_where (running_job (pos_part job_id)) (succeed_job now) db.jobs;
        },
      )
  unfolding succeed
  succeed_live l = ground (arith, l.one_run, l.one_job)

  fail_stale :
      (reason : Text) (delay : ℤ)
      → find_where (running_run (pos_part run_id) (pos_part job_id)) db.runs ≡ none
      → fail no_faults now job_id run_id reason delay db ≡ (err invalid_transition, db)
  unfolding fail
  fail_stale reason delay e =
      ground (arith, find_where-none (running_run (pos_part run_id) (pos_part job_id)) db.runs e)

  fail_live :
      (reason : Text) (delay : ℤ) (l : IsLive (pos_part job_id) (pos_part run_id) db)
      → fail no_faults now job_id run_id reason delay db ≡ (
        ok (retry_status l.job.attempts l.job.max_retries),
        record db {
          commands =
              update_where
                (running_command (pos_part run_id))
                (fail_command now reason)
                db.commands;
          runs =
              update_where
                (running_run (pos_part run_id) (pos_part job_id))
                (fail_run now reason)
                db.runs;
          jobs =
              update_where
                (running_job (pos_part job_id))
                (fail_job now (pos_part delay) reason l.job.attempts l.job.max_retries)
                db.jobs;
        },
      )
  unfolding fail
  fail_live reason delay l = ground (arith, l.one_run, l.one_job, l.found)

  -- What `Fail` comes to, by whether a retry is left.
  abbrev Fails : Text → ℤ → Bool → Type 0
  Fails reason delay retry = fail no_faults now job_id run_id reason delay db ≡ (
    ok (if retry then queued else failed),
    after_failure (pos_part job_id) (pos_part run_id) now reason
        (λ x. record x {
          status = if retry then queued else failed;
          available_at = if retry then now + pos_part delay else now;
          last_error = reason;
          updated_at = now;
          finished_at = if retry then none else some now;
        })
        db,
  )

  fail_retried :
      (reason : Text) (delay : ℤ) (l : IsLive (pos_part job_id) (pos_part run_id) db)
      → l.job.attempts ≤ l.job.max_retries
      → Fails reason delay true
  unfolding fail_job
  fail_retried reason delay l h =
      let retry : leb l.job.attempts l.job.max_retries ≡ true = ground (arith, h) in
      subst (Fails reason delay) retry (fail_live reason delay l)

  fail_abandoned :
      (reason : Text) (delay : ℤ) (l : IsLive (pos_part job_id) (pos_part run_id) db)
      → l.job.max_retries < l.job.attempts
      → Fails reason delay false
  unfolding fail_job
  fail_abandoned reason delay l h =
      let retry : leb l.job.attempts l.job.max_retries ≡ false = ground (arith, h) in
      subst (Fails reason delay) retry (fail_live reason delay l)

  -- With positive ids, no fault and a consistent database, `Succeed` either finds no running run of
  -- those ids, reports an invalid transition and changes nothing, or there is one; then its job is
  -- running, the call succeeds, and exactly that run and that job get the status of a success, no
  -- error, and the time of the call as their end.
  pub succeed_lem :
      (find_where (running_run (pos_part run_id) (pos_part job_id)) db.runs ≡ none)
        × (succeed no_faults now job_id run_id db ≡ (err invalid_transition, db))
      ⊎ ((r : Run) × (j : Job) × (find_where
              (running_run (pos_part run_id) (pos_part job_id))
              db.runs
            ≡ some r)
          × (find_where (running_job (pos_part job_id)) db.jobs ≡ some j)
          × (succeed no_faults now job_id run_id db ≡ (
            ok tt,
            record db {
              runs =
                  update_where
                    (running_run (pos_part run_id) (pos_part job_id))
                    (succeeded_run now)
                    db.runs;
              jobs = update_where (running_job (pos_part job_id)) (succeeded_job now) db.jobs;
            },
          )))
  succeed_lem =
      elim (Option-cases (find_where (running_run (pos_part run_id) (pos_part job_id)) db.runs)) [
        | inl e ↦ inl (e, succeed_stale e)
        | inr (r, e) ↦
            let l = live (pos_part job_id) (pos_part run_id) db v r e in
            inr (r, l.job, e, l.found, succeed_live l)
      ]

  -- With positive ids, no fault and a consistent database, `Fail` either finds no running run of
  -- those ids, reports an invalid transition and changes nothing (the commands that it had already
  -- closed are open again), or there is one; then its job is running, and the run and its open
  -- commands have failed with the reason, at the time of the call. The job is queued again, due
  -- after the delay, if its attempts are at most its retries, and has failed for good if they are
  -- more; either way it keeps the reason. A negative delay counts as none.
  pub fail_lem :
      (reason : Text) (delay : ℤ)
      → (find_where (running_run (pos_part run_id) (pos_part job_id)) db.runs ≡ none)
          × (fail no_faults now job_id run_id reason delay db ≡ (err invalid_transition, db))
        ⊎ ((r : Run) × (j : Job) × (find_where
                (running_run (pos_part run_id) (pos_part job_id))
                db.runs
              ≡ some r)
            × (find_where (running_job (pos_part job_id)) db.jobs ≡ some j)
            × (j.attempts ≤ j.max_retries
                → fail no_faults now job_id run_id reason delay db ≡ (
                  ok queued,
                  after_failure
                      (pos_part job_id)
                      (pos_part run_id)
                      now
                      reason
                      (retried_job now (pos_part delay) reason)
                      db,
                ))
            × (j.max_retries < j.attempts
                → fail no_faults now job_id run_id reason delay db ≡ (
                  ok failed,
                  after_failure
                      (pos_part job_id)
                      (pos_part run_id)
                      now
                      reason
                      (failed_job now reason)
                      db,
                )))
  fail_lem reason delay =
      elim (Option-cases (find_where (running_run (pos_part run_id) (pos_part job_id)) db.runs)) [
        | inl e ↦ inl (e, fail_stale reason delay e)
        | inr (r, e) ↦
            let l = live (pos_part job_id) (pos_part run_id) db v r e in
            inr (r, l.job, e, l.found, fail_retried reason delay l, fail_abandoned reason delay l)
      ]
