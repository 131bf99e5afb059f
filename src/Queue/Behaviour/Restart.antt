-- ===== src/Queue/Behaviour/Restart.antt =====
-- `RecoverRunning` of internal/queue/jobs.go, as the daemon calls it before it starts its workers.
use slipway.Common.{
  codes, none, ◌≤◌, Bool, List, ◌≡◌, inl, inr, refl, ap, Result, arith, ok, count_where,
  update_where, count_where-update_where, count_where_mono, update_clears, if◌then◌else◌,
}
use slipway.Queue.Types.{Error, Time, queued, Job, CommandExecution, Db, command_is_running}
use slipway.Queue.Tx.{no_faults}
use slipway.Queue.Jobs.{
  eligible, requeue_job, fail_run, fail_command, restart_reason, recover_running, claim,
}
use slipway.Queue.Invariant.Defs.{IsConsistent}
use slipway.Queue.Invariant.Recovery.{
  recovered, run_is_running, job_is_running, recover_running-IsConsistent,
}
use slipway.Queue.Behaviour.Finish.{failed_run, failed_command}
use slipway.Queue.Behaviour.Order.{claim_oldest}

recover_running_lem :
    (now : Time) (db : Db)
    → recover_running no_faults now db ≡ (ok (count_where job_is_running db.jobs), recovered now db)
unfolding recover_running
recover_running_lem now db = refl

abbrev pub open_command : CommandExecution → Bool
open_command c = command_is_running c.status

-- The row of an interrupted job, due at once with its attempts as they were.
abbrev pub requeued : Time → Job → Job
requeued now j = record j {
  status = queued;
  available_at = now;
  last_error = codes "interrupted by daemon restart";
  updated_at = now;
  finished_at = none;
}

-- With no fault a recovery reports how many jobs were running; exactly those are queued again, due at
-- the time of the recovery and with their attempts as they were; every run and every command that
-- was running has failed then, with the restart as the reason; and none is left running.
pub recovery_settles :
    (now : Time) (db : Db)
    → let db' = (recover_running no_faults now db).1 in
      let reason = codes "interrupted by daemon restart" in
      ((recover_running no_faults now db).0 ≡ ok (count_where job_is_running db.jobs))
      × (db'.jobs ≡ update_where job_is_running (requeued now) db.jobs)
      × (db'.runs ≡ update_where run_is_running (failed_run now reason) db.runs)
      × (db'.commands ≡ update_where open_command (failed_command now reason) db.commands)
      × (count_where job_is_running db'.jobs ≡ 0)
      × (count_where run_is_running db'.runs ≡ 0)
      × (count_where open_command db'.commands ≡ 0)
unfolding recover_running
recovery_settles now db = (
  refl,
  refl,
  refl,
  refl,
  update_clears job_is_running job_is_running (requeue_job now) db.jobs (λ x. ground arith),
  update_clears run_is_running run_is_running (fail_run now restart_reason) db.runs
      (λ x. ground arith),
  update_clears open_command open_command (fail_command now restart_reason) db.commands
      (λ x. ground arith),
)

requeued_eligible :
    (now later : Time) (js : List Job)
    → now ≤ later
    → count_where job_is_running js
      ≤ count_where (eligible later) (update_where job_is_running (requeue_job now) js)
requeued_eligible now later js h = omega (
  arith,
  count_where-update_where job_is_running (eligible later) (requeue_job now) js,
  count_where_mono job_is_running
      (λ x. if job_is_running x then eligible later (requeue_job now x) else eligible later x)
      (λ x. ground arith) js,
)

-- Where a recovery of a consistent database found a job running, a claim at that time or later
-- returns a job: interrupted work is delivered again, however many attempts it has had.
pub recovery-claim :
    (now later : Time) (db : Db)
    → IsConsistent db
    → now ≤ later
    → 1 ≤ count_where job_is_running db.jobs
    → (job : Job) × ((claim no_faults later (recover_running no_faults now db).1).0 ≡ ok job)
recovery-claim now later db v h n =
    elim (claim_oldest later (recover_running no_faults now db).1
      (recover_running-IsConsistent now db v no_faults)) [
        | inl (e, _) ↦ absurd (
            omega
              (arith, requeued_eligible now later db.jobs h, rw (recover_running_lem now db) at e))
        | inr (j, _, _, _, e) ↦ (_, ap (λ (r : Result Error Job × Db). r.0) e)
      ]
