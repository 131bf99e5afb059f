-- ===== src/Queue/Invariant/Outcomes.antt =====
-- `Succeed` and `Fail` of internal/queue/jobs.go: what a success of their transactions did, and
-- that they keep the tables consistent.
use slipway.Common.{
  Option-cases, ok, Bool-cases, ◌||◌, is_positive, inl, inr, ℕ, ℤ, pos_part, Text, not, some, List,
  ◌≡◌, refl, arith, count_where, update_where, find_where, find_where_sound, find_where-some,
}
use slipway.Queue.Types.{Status, Time, Job, Db, CommandExecution}
use slipway.Queue.Tx.{Faults, transaction_keeps}
use slipway.Queue.Jobs.{
  retry_status, running_run, running_job, running_command, succeed_run, succeed_job, succeed_body,
  succeed, fail_command, fail_run, fail_job, fail_body, fail,
}
use slipway.Queue.Invariant.Defs.{IsConsistent}
use slipway.Queue.Invariant.Ending.{EndsJob, EndsRun, end_attempt}

-- The table of commands has no part in it.
pub with_commands :
    (db : Db) (cs : List CommandExecution) (n : ℕ)
    → IsConsistent db
    → IsConsistent (record db { commands = cs; command_seq = n })
with_commands db cs n v = record {
  one_job = v.one_job;
  fresh_job = v.fresh_job;
  one_file = v.one_file;
  one_run = v.one_run;
  fresh_run = v.fresh_run;
  history = v.history;
  current = v.current;
  sound_jobs = v.sound_jobs;
  sound_runs = v.sound_runs;
}

succeed_run-EndsRun : (now : Time) → EndsRun (succeed_run now)
succeed_run-EndsRun now = record {
  id = λ r. refl;
  job_id = λ r. refl;
  attempt = λ r. refl;
  ended = λ r. refl;
  sound = λ r. refl;
}

fail_run-EndsRun : (now : Time) (reason : Text) → EndsRun (fail_run now reason)
fail_run-EndsRun now reason = record {
  id = λ r. refl;
  job_id = λ r. refl;
  attempt = λ r. refl;
  ended = λ r. refl;
  sound = λ r. refl;
}

succeed_job-EndsJob : (now : Time) → EndsJob (succeed_job now)
succeed_job-EndsJob now = record {
  id = λ j. refl;
  attempts = λ j. refl;
  watch_name = λ j. refl;
  path = λ j. refl;
  fingerprint = λ j. refl;
  ended = λ j. refl;
}

fail_job-EndsJob :
    (now : Time) (delay : ℕ) (reason : Text) (a m : ℕ) → EndsJob (fail_job now delay reason a m)
unfolding fail_job
fail_job-EndsJob now delay reason a m = record {
  id = λ j. refl;
  attempts = λ j. refl;
  watch_name = λ j. refl;
  path = λ j. refl;
  fingerprint = λ j. refl;
  ended = λ j. ground arith;
}

module _ (now : Time) (job_id run_id : ℕ) (db : Db) (v : IsConsistent db) where
  succeeded_tables :
      count_where (running_run run_id job_id) db.runs ≡ 1
      → count_where (running_job job_id) db.jobs ≡ 1
      → IsConsistent (record db {
        runs = update_where (running_run run_id job_id) (succeed_run now) db.runs;
        jobs = update_where (running_job job_id) (succeed_job now) db.jobs;
      })
  succeeded_tables one_run one_job =
      let (r, found_run) = find_where-some (running_run run_id job_id) db.runs (omega arith) in
      let (j, found_job) = find_where-some (running_job job_id) db.jobs (omega arith) in
      end_attempt job_id run_id (succeed_job now) (succeed_run now) (succeed_job-EndsJob now)
        (succeed_run-EndsRun now) db v j r found_job found_run (omega arith) (omega arith)
        (λ s. ground (arith, find_where_sound (running_job job_id) db.jobs found_job))

  failed_tables :
      (delay : ℕ) (reason : Text) (cs : List CommandExecution) (j : Job)
      → count_where (running_run run_id job_id) db.runs ≡ 1
      → find_where (running_job job_id) db.jobs ≡ some j
      → count_where (running_job job_id) db.jobs ≡ 1
      → IsConsistent (record db {
        commands = cs;
        runs = update_where (running_run run_id job_id) (fail_run now reason) db.runs;
        jobs =
            update_where
              (running_job job_id)
              (fail_job now delay reason j.attempts j.max_retries)
              db.jobs;
      })
  unfolding fail_job
  failed_tables delay reason cs j one_run found_job one_job =
      let (r, found_run) = find_where-some (running_run run_id job_id) db.runs (omega arith) in
      end_attempt job_id run_id (fail_job now delay reason j.attempts j.max_retries)
        (fail_run now reason) (fail_job-EndsJob now delay reason j.attempts j.max_retries)
        (fail_run-EndsRun now reason) (record db { commands = cs })
        (with_commands db cs db.command_seq v) j r found_job found_run (omega arith) (omega arith)
        (λ s. ground (arith, find_where_sound (running_job job_id) db.jobs found_job))

pub succeed_body_ok :
    (faults : Faults) (now : Time) (job_id run_id : ℕ) (db db' : Db)
    → succeed_body faults now job_id run_id db ≡ ok (tt, db')
    → (count_where (running_run run_id job_id) db.runs ≡ 1)
      × (count_where (running_job job_id) db.jobs ≡ 1)
      × (db' ≡ record db {
        runs = update_where (running_run run_id job_id) (succeed_run now) db.runs;
        jobs = update_where (running_job job_id) (succeed_job now) db.jobs;
      })
unfolding succeed_body
succeed_body_ok faults now job_id run_id db db' h = ground arith

pub succeed-IsConsistent :
    (faults : Faults) (now : Time) (job_id run_id : ℤ) (db : Db)
    → IsConsistent db
    → IsConsistent (succeed faults now job_id run_id db).1
unfolding succeed
succeed-IsConsistent faults now job_id run_id db v =
    elim (Bool-cases (not (is_positive job_id) || not (is_positive run_id))) [
      | inl e ↦ rw e v
      | inr e ↦ rw e (
          transaction_keeps IsConsistent
            (succeed_body faults now (pos_part job_id) (pos_part run_id)) db v
            (λ _ db' h.
              let (one_run, one_job, after) =
                succeed_body_ok faults now (pos_part job_id) (pos_part run_id) db db' h in
              rw after
                (succeeded_tables now (pos_part job_id) (pos_part run_id) db v one_run one_job)))
    ]

pub fail_body_ok :
    (faults : Faults) (now : Time) (job_id run_id : ℕ) (reason : Text) (delay : ℕ) (db db' : Db)
    (status : Status)
    → fail_body faults now job_id run_id reason delay db ≡ ok (status, db')
    → (j : Job) × (count_where (running_run run_id job_id) db.runs ≡ 1)
      × (find_where (running_job job_id) db.jobs ≡ some j)
      × (count_where (running_job job_id) db.jobs ≡ 1)
      × (status ≡ retry_status j.attempts j.max_retries)
      × (db' ≡ record db {
        commands = update_where (running_command run_id) (fail_command now reason) db.commands;
        runs = update_where (running_run run_id job_id) (fail_run now reason) db.runs;
        jobs =
            update_where
              (running_job job_id)
              (fail_job now delay reason j.attempts j.max_retries)
              db.jobs;
      })
unfolding fail_body
fail_body_ok faults now job_id run_id reason delay db db' status h =
    elim (Option-cases (find_where (running_job job_id) db.jobs)) [
      | inl e ↦ absurd (ground arith)
      | inr (j, e) ↦ (j, ground arith, e, ground arith, ground arith, ground arith)
    ]

pub fail-IsConsistent :
    (faults : Faults) (now : Time) (job_id run_id : ℤ) (reason : Text) (delay : ℤ) (db : Db)
    → IsConsistent db
    → IsConsistent (fail faults now job_id run_id reason delay db).1
unfolding fail
fail-IsConsistent faults now job_id run_id reason delay db v =
    elim (Bool-cases (not (is_positive job_id) || not (is_positive run_id))) [
      | inl e ↦ rw e v
      | inr e ↦ rw e (
          transaction_keeps IsConsistent
            (fail_body faults now (pos_part job_id) (pos_part run_id) reason (pos_part delay)) db v
            (λ status db' h.
              let (j, one_run, found_job, one_job, _, after) =
                fail_body_ok faults now (pos_part job_id) (pos_part run_id) reason (pos_part delay)
                  db db' status h in
              rw after (
                failed_tables now (pos_part job_id) (pos_part run_id) db v (pos_part delay) reason
                  (update_where (running_command (pos_part run_id)) (fail_command now reason)
                    db.commands)
                  j one_run found_job one_job)))
    ]
