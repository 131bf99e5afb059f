-- ===== src/Queue/Invariant/Recovery.antt =====
-- `RecoverRunning` of internal/queue/jobs.go: what a success of its transaction did, and that it
-- keeps the tables consistent.
use slipway.Common.{
  ℕ, Text, Bool, List, ◌≡◌, refl, arith, ok, count_where, update_where, update_unseen,
  update_clears, update_keeps, ◌==◌,
}
use slipway.Queue.Types.{Time, Job, Run, Db, is_running, command_is_running}
use slipway.Queue.Tx.{Faults, transaction_keeps}
use slipway.Queue.Jobs.{
  same_file, fail_command, fail_run, requeue_job, restart_reason, recover_body, recover_running,
}
use slipway.Queue.Invariant.Defs.{
  IsConsistent, run_of, attempted, live_run, live_job, unsound_job, unsound_run,
}

abbrev pub run_is_running : Run → Bool
run_is_running r = is_running r.status

abbrev pub job_is_running : Job → Bool
job_is_running j = is_running j.status

-- The database after a recovery at a time.
abbrev pub recovered : Time → Db → Db
recovered now db = record db {
  commands =
      update_where (λ c. command_is_running c.status) (fail_command now restart_reason) db.commands;
  runs = update_where run_is_running (fail_run now restart_reason) db.runs;
  jobs = update_where job_is_running (requeue_job now) db.jobs;
}

pub recover_body_ok :
    (faults : Faults) (now : Time) (db db' : Db) (n : ℕ)
    → recover_body faults now db ≡ ok (n, db')
    → (n ≡ count_where job_is_running db.jobs) × (db' ≡ recovered now db)
unfolding recover_body
recover_body_ok faults now db db' n h = ground arith

no_live_run :
    (now : Time) (reason : Text) (i a : ℕ) (rs : List Run)
    → count_where (live_run i a) (update_where run_is_running (fail_run now reason) rs) ≡ 0
no_live_run now reason i a rs =
    update_clears run_is_running (live_run i a) (fail_run now reason) rs (λ x. ground arith)

no_live_job :
    (now : Time) (i a : ℕ) (js : List Job)
    → count_where (live_job i a) (update_where job_is_running (requeue_job now) js) ≡ 0
no_live_job now i a js =
    update_clears job_is_running (live_job i a) (requeue_job now) js (λ x. ground arith)

module _ (now : Time) (db : Db) (v : IsConsistent db) where
  recovered-IsConsistent : IsConsistent (recovered now db)
  recovered-IsConsistent = record {
    one_job = λ i.
        rw
          (update_unseen job_is_running (λ (x : Job). x.id == i) (requeue_job now) db.jobs
            (λ x. refl))
          (v.one_job i);
    fresh_job = λ i h.
        rw
          (update_unseen job_is_running (λ (x : Job). x.id == i) (requeue_job now) db.jobs
            (λ x. refl))
          (v.fresh_job i h);
    one_file = λ w p f.
        rw (update_unseen job_is_running (same_file w p f) (requeue_job now) db.jobs (λ x. refl))
          (v.one_file w p f);
    one_run = λ i.
        rw
          (update_unseen run_is_running (λ (x : Run). x.id == i) (fail_run now restart_reason)
            db.runs (λ x. refl))
          (v.one_run i);
    fresh_run = λ i h.
        rw
          (update_unseen run_is_running (λ (x : Run). x.id == i) (fail_run now restart_reason)
            db.runs (λ x. refl))
          (v.fresh_run i h);
    history = λ i a.
        rw
          (
            update_unseen run_is_running (run_of i a) (fail_run now restart_reason) db.runs
                (λ x. refl),
            update_unseen job_is_running (attempted i a) (requeue_job now) db.jobs (λ x. refl),
          )
          (v.history i a);
    current = λ i a. rw (no_live_run now restart_reason i a db.runs, no_live_job now i a db.jobs);
    sound_jobs =
        update_keeps job_is_running unsound_job (requeue_job now) db.jobs (λ x h. refl)
          v.sound_jobs;
    sound_runs =
        update_keeps run_is_running unsound_run (fail_run now restart_reason) db.runs (λ x h. refl)
          v.sound_runs;
  }

  pub recover_running-IsConsistent :
      (faults : Faults) → IsConsistent (recover_running faults now db).1
  unfolding recover_running
  recover_running-IsConsistent faults =
      transaction_keeps IsConsistent (recover_body faults now) db v
        (λ n db' h. rw ((recover_body_ok faults now db db' n h).1) recovered-IsConsistent)
