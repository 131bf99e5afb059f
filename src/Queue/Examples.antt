-- ===== src/Queue/Examples.antt =====
-- One file's way through the queue (internal/queue): the theorems at inputs that meet their
-- hypotheses.
use slipway.Common.{
  ◌+◌, ◌≤◌, ◌<◌, ◌==◌, ℕ, suc, pos, negsuc, codes, text_eq, is_blank, true, false, none, some, List,
  [], ◌∷◌, ◌≡◌, ◌⊎◌, inl, refl, arith, ok, err, count_where, update_where, filter_where, find_where,
  take, drop,
}
use mathlib.Core.List.{Memᴰ, Perm}
use slipway.Queue.Types.{
  queued, succeeded, failed, no_job, invalid_transition, Job, EnqueueParams, JobFilter, Run, Db,
  empty_db,
}
use slipway.Queue.Tx.{no_faults}
use slipway.Queue.Jobs.{
  new_job, eligible, oldest, start_job, enqueue, claim, running_run, running_job, succeed, fail,
  recover_running,
}
use slipway.Queue.History.{valid_status, selected, list_jobs}
use slipway.Queue.History.Listing.{IsNewestFirst, list_jobs_lem}
use slipway.Queue.Invariant.Defs.{IsConsistent}
use slipway.Queue.Invariant.Entries.{entered, key_of}
use slipway.Queue.Invariant.Claiming.{has_id, claimed}
use slipway.Queue.Invariant.Recovery.{job_is_running, run_is_running}
use slipway.Queue.System.{enqueues, claims, succeeds, recovers, Call, step, run}
use slipway.Queue.System.Runs.{run-IsConsistent}
use slipway.Queue.System.Lifecycle.{Follows, step-Follows, over_is_final}
use slipway.Queue.Behaviour.Order.{IsNoLater, claim_oldest}
use slipway.Queue.Behaviour.Finish.{
  succeeded_run, succeeded_job, failed_command, failed_run, retried_job, failed_job, after_failure,
  succeed_lem, fail_lem,
}
use slipway.Queue.Behaviour.Restart.{requeued, open_command, recovery_settles, recovery-claim}
use slipway.Queue.Behaviour.Intake.{enqueue_once}

abbrev report : EnqueueParams
report = record {
  watch_name = codes "csv";
  path = codes "/in/a.csv";
  fingerprint = codes "f1";
  max_retries = pos 1;
  available_at = none;
}

abbrev call_at : ℕ → Call → Call
call_at now c = record c { now = now }

abbrev entry : Call
entry = record { op = enqueues report; now = 10; faults = no_faults }

abbrev claim_at : ℕ → Call
claim_at now = record { op = claims; now = now; faults = no_faults }

abbrev success : Call
success = record { op = succeeds (pos 1) (pos 1); now = 30; faults = no_faults }

-- The claim loses its third statement, and is tried again.
abbrev lost_claim : Call
lost_claim = record { op = claims; now = 20; faults = λ i. i == 2 }

abbrev to_running : List Call
to_running = entry ∷ lost_claim ∷ claim_at 20 ∷ []

abbrev waiting : Db
waiting = run empty_db (entry ∷ [])

abbrev busy : Db
busy = run empty_db to_running

abbrev done : Db
done = run empty_db (entry ∷ lost_claim ∷ claim_at 20 ∷ success ∷ [])

abbrev done_job : Job
done_job = record {
  id = 1;
  watch_name = codes "csv";
  path = codes "/in/a.csv";
  fingerprint = codes "f1";
  status = succeeded;
  attempts = 1;
  max_retries = 1;
  available_at = 10;
  last_error = [];
  created_at = 10;
  updated_at = 30;
  started_at = some 20;
  finished_at = some 30;
  run_id = 0;
  attempt = 0;
}

done_row : find_where (has_id 1) done.jobs ≡ some done_job
unfolding run enqueue claim succeed find_where update_where count_where text_eq is_blank oldest
done_row = refl

abbrev after_crash : List Call
after_crash = record { op = recovers; now = 40; faults = no_faults } ∷ entry ∷ claim_at 50 ∷ []

abbrev later : Db
later = run done after_crash

busy_row : count_where job_is_running busy.jobs ≡ 1
unfolding run enqueue claim find_where update_where count_where text_eq is_blank oldest
busy_row = refl

run-IsConsistent_example : IsConsistent (run empty_db to_running)
run-IsConsistent_example = run-IsConsistent to_running

step-Follows_example : Follows 1 done_job (step done (claim_at 40))
step-Follows_example =
    step-Follows 1 done_job done (claim_at 40)
      (run-IsConsistent (entry ∷ lost_claim ∷ claim_at 20 ∷ success ∷ [])) done_row

over_is_final_example : find_where (has_id 1) later.jobs ≡ some done_job
over_is_final_example =
    over_is_final after_crash 1 done_job done
      (run-IsConsistent (entry ∷ lost_claim ∷ claim_at 20 ∷ success ∷ [])) done_row (inl refl)

claim_oldest_example :
    (count_where (eligible 20) waiting.jobs ≡ 0)
      × (claim no_faults 20 waiting ≡ (err no_job, waiting))
    ⊎ ((j : Job) × Memᴰ j waiting.jobs
        × (eligible 20 j ≡ true)
        × ((k : Job) → Memᴰ k waiting.jobs → eligible 20 k ≡ true → IsNoLater j k)
        × (claim no_faults 20 waiting ≡ (
          ok (record (start_job 20 j) { run_id = suc waiting.run_seq; attempt = j.attempts + 1 }),
          claimed 20 j waiting,
        )))
claim_oldest_example = claim_oldest 20 waiting (run-IsConsistent (entry ∷ []))

succeed_lem_example :
    (find_where (running_run 1 1) busy.runs ≡ none)
      × (succeed no_faults 30 (pos 1) (pos 1) busy ≡ (err invalid_transition, busy))
    ⊎ ((r : Run) × (j : Job) × (find_where (running_run 1 1) busy.runs ≡ some r)
        × (find_where (running_job 1) busy.jobs ≡ some j)
        × (succeed no_faults 30 (pos 1) (pos 1) busy ≡ (
          ok tt,
          record busy {
            runs = update_where (running_run 1 1) (succeeded_run 30) busy.runs;
            jobs = update_where (running_job 1) (succeeded_job 30) busy.jobs;
          },
        )))
succeed_lem_example = succeed_lem 30 (pos 1) (pos 1) busy (run-IsConsistent to_running) refl refl

fail_lem_example :
    (find_where (running_run 1 1) busy.runs ≡ none)
      × (fail no_faults 30 (pos 1) (pos 1) (codes "exit 2") (negsuc 4) busy
          ≡ (err invalid_transition, busy))
    ⊎ ((r : Run) × (j : Job) × (find_where (running_run 1 1) busy.runs ≡ some r)
        × (find_where (running_job 1) busy.jobs ≡ some j)
        × (j.attempts ≤ j.max_retries
            → fail no_faults 30 (pos 1) (pos 1) (codes "exit 2") (negsuc 4) busy ≡ (
              ok queued,
              after_failure 1 1 30 (codes "exit 2") (retried_job 30 0 (codes "exit 2")) busy,
            ))
        × (j.max_retries < j.attempts
            → fail no_faults 30 (pos 1) (pos 1) (codes "exit 2") (negsuc 4) busy ≡ (
              ok failed,
              after_failure 1 1 30 (codes "exit 2") (failed_job 30 (codes "exit 2")) busy,
            )))
fail_lem_example =
    fail_lem 30 (pos 1) (pos 1) busy (run-IsConsistent to_running) refl refl (codes "exit 2")
      (negsuc 4)

recovery_settles_example :
    let db' = (recover_running no_faults 40 busy).1 in
    ((recover_running no_faults 40 busy).0 ≡ ok (count_where job_is_running busy.jobs))
    × (db'.jobs ≡ update_where job_is_running (requeued 40) busy.jobs)
    × (db'.runs
        ≡ update_where run_is_running
            (failed_run 40 (codes "interrupted by daemon restart"))
            busy.runs)
    × (db'.commands
        ≡ update_where open_command
            (failed_command 40 (codes "interrupted by daemon restart"))
            busy.commands)
    × (count_where job_is_running db'.jobs ≡ 0)
    × (count_where run_is_running db'.runs ≡ 0)
    × (count_where open_command db'.commands ≡ 0)
recovery_settles_example = recovery_settles 40 busy

recovery-claim_example :
    (job : Job) × ((claim no_faults 41 (recover_running no_faults 40 busy).1).0 ≡ ok job)
recovery-claim_example =
    recovery-claim 40 41 busy (run-IsConsistent to_running) (omega arith) (omega (arith, busy_row))

enqueue_once_example :
    (j : Job) × (db' : Db) × (((find_where (key_of report) empty_db.jobs ≡ some j)
        × (db' ≡ empty_db)
        × (enqueue no_faults 10 report empty_db ≡ (ok (j, false), db')))
      ⊎ ((find_where (key_of report) empty_db.jobs ≡ none)
          × (j ≡ new_job report 10 (suc empty_db.job_seq))
          × (db' ≡ entered 10 report empty_db)
          × (enqueue no_faults 10 report empty_db ≡ (ok (j, true), db'))))
    × (enqueue no_faults 99 report db' ≡ (ok (j, false), db'))
unfolding is_blank
enqueue_once_example =
    enqueue_once 10 99 report report empty_db
      (record { watch_name = refl; path = refl; max_retries = refl })
      (record { watch_name = refl; path = refl; max_retries = refl })
      (record { watch_name = refl; path = refl; fingerprint = refl })

abbrev latest : JobFilter
latest = record { status = codes "RUNNING"; watch_name = []; limit = pos 0; offset = pos 0 }

list_jobs_lem_example :
    (rows : List Job) × Perm rows (filter_where (selected latest) busy.jobs)
    × IsNewestFirst rows
    × (list_jobs no_faults latest busy ≡ ok (take 100 (drop 0 rows)))
unfolding valid_status text_eq
list_jobs_lem_example = list_jobs_lem latest busy (record { status = refl; offset = refl })
