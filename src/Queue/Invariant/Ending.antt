-- ===== src/Queue/Invariant/Ending.antt =====
-- The end of an attempt, as `Succeed` and `Fail` record it (internal/queue/jobs.go): one running
-- run and one running job leave the running state together.
use slipway.Common.{
  ℕ, ◌≤◌, false, some, ◌≡◌, ap, arith, ◌==◌, count_where, update_where, find_where,
  find_where_sound, find_where_excluded, only_row, update_one, update_unseen,
}
use slipway.Queue.Types.{Job, Run, Db, is_running}
use slipway.Queue.Jobs.{same_file, running_run, running_job}
use slipway.Queue.Invariant.Defs.{
  IsConsistent, run_of, attempted, live_run, live_job, unsound_job, unsound_run,
}

-- What the ending leaves of a job's row, and of a run's.
pub record EndsJob (f : Job → Job) : Type 0 where
  pub id : (j : Job) → (f j).id ≡ j.id
  pub attempts : (j : Job) → (f j).attempts ≡ j.attempts
  pub watch_name : (j : Job) → (f j).watch_name ≡ j.watch_name
  pub path : (j : Job) → (f j).path ≡ j.path
  pub fingerprint : (j : Job) → (f j).fingerprint ≡ j.fingerprint
  pub ended : (j : Job) → is_running (f j).status ≡ false

pub record EndsRun (f : Run → Run) : Type 0 where
  pub id : (r : Run) → (f r).id ≡ r.id
  pub job_id : (r : Run) → (f r).job_id ≡ r.job_id
  pub attempt : (r : Run) → (f r).attempt ≡ r.attempt
  pub ended : (r : Run) → is_running (f r).status ≡ false
  pub sound : (r : Run) → unsound_run (f r) ≡ false

module _ (job_id run_id : ℕ) (fj : Job → Job) (fr : Run → Run) (ej : EndsJob fj) (er : EndsRun fr)
    (db : Db) (v : IsConsistent db) (j : Job) (r : Run)
    (found_job : find_where (running_job job_id) db.jobs ≡ some j)
    (found_run : find_where (running_run run_id job_id) db.runs ≡ some r)
    (one_running : count_where (running_job job_id) db.jobs ≤ 1)
    (one_run : count_where (running_run run_id job_id) db.runs ≤ 1) where
  -- The live run is the attempt that the job is running.
  same_attempt : j.attempts ≡ r.attempt
  same_attempt = ground (
    arith,
    v.current job_id r.attempt,
    find_where_sound (running_run run_id job_id) db.runs found_run,
    find_where_excluded (running_run run_id job_id) (live_run job_id r.attempt) db.runs found_run,
    only_row (running_job job_id) (live_job job_id r.attempt) db.jobs (λ x. ground arith) found_job
        one_running,
  )

  current_after :
      (i a : ℕ)
      → count_where (live_run i a) (update_where (running_run run_id job_id) fr db.runs)
        ≡ count_where (live_job i a) (update_where (running_job job_id) fj db.jobs)
  current_after i a = ground (
    arith,
    v.current i a,
    same_attempt,
    er.ended r,
    ej.ended j,
    find_where_sound (running_job job_id) db.jobs found_job,
    find_where_sound (running_run run_id job_id) db.runs found_run,
    update_one (running_run run_id job_id) (live_run i a) fr db.runs found_run one_run,
    update_one (running_job job_id) (live_job i a) fj db.jobs found_job one_running,
  )

  pub end_attempt :
      (unsound_job j ≡ false → unsound_job (fj j) ≡ false)
      → IsConsistent (record db {
        runs = update_where (running_run run_id job_id) fr db.runs;
        jobs = update_where (running_job job_id) fj db.jobs;
      })
  end_attempt sound = record {
    one_job = λ i.
        rw
          (update_unseen (running_job job_id) (λ (x : Job). x.id == i) fj db.jobs
            (λ x. ap (λ (n : ℕ). n == i) (ej.id x)))
          (v.one_job i);
    fresh_job = λ i h.
        rw
          (update_unseen (running_job job_id) (λ (x : Job). x.id == i) fj db.jobs
            (λ x. ap (λ (n : ℕ). n == i) (ej.id x)))
          (v.fresh_job i h);
    one_file = λ w p f.
        rw
          (update_unseen (running_job job_id) (same_file w p f) fj db.jobs
            (λ x. rw (ej.watch_name x, ej.path x, ej.fingerprint x)))
          (v.one_file w p f);
    one_run = λ i.
        rw
          (update_unseen (running_run run_id job_id) (λ (x : Run). x.id == i) fr db.runs
            (λ x. ap (λ (n : ℕ). n == i) (er.id x)))
          (v.one_run i);
    fresh_run = λ i h.
        rw
          (update_unseen (running_run run_id job_id) (λ (x : Run). x.id == i) fr db.runs
            (λ x. ap (λ (n : ℕ). n == i) (er.id x)))
          (v.fresh_run i h);
    history = λ i a.
        rw
          (
            update_unseen (running_run run_id job_id) (run_of i a) fr db.runs
                (λ x. rw (er.job_id x, er.attempt x)),
            update_unseen (running_job job_id) (attempted i a) fj db.jobs
                (λ x. rw (ej.id x, ej.attempts x)),
          )
          (v.history i a);
    current = current_after;
    sound_jobs = ground (
      arith,
      v.sound_jobs,
      sound (find_where_excluded (running_job job_id) unsound_job db.jobs found_job v.sound_jobs),
      update_one (running_job job_id) unsound_job fj db.jobs found_job one_running,
    );
    sound_runs = ground (
      arith,
      v.sound_runs,
      er.sound r,
      update_one (running_run run_id job_id) unsound_run fr db.runs found_run one_run,
    );
  }
