-- ===== src/Queue/System/Runs.antt =====
-- Whatever the calls to internal/queue's `Store` are, the jobs and their runs stay consistent.
use slipway.Common.{ℕ, List, [], ◌∷◌, arith, count_where}
use slipway.Queue.Types.{Db, empty_db}
use slipway.Queue.System.{
  Op, enqueues, claims, succeeds, fails, recovers, starts, completes, Call, perform, step, run,
}
use slipway.Queue.Tx.{Faults}
use slipway.Queue.Invariant.Defs.{IsConsistent}
use slipway.Queue.Invariant.Outcomes.{succeed-IsConsistent, fail-IsConsistent}
use slipway.Queue.Invariant.Recovery.{recover_running-IsConsistent}
use slipway.Queue.Invariant.Claiming.{claim-IsConsistent}
use slipway.Queue.Invariant.Entries.{
  enqueue-IsConsistent, start_command-IsConsistent, complete_command-IsConsistent,
}

pub perform-IsConsistent :
    (op : Op) (faults : Faults) (now : ℕ) (db : Db)
    → IsConsistent db
    → IsConsistent (perform op faults now db)
perform-IsConsistent (enqueues p) faults now db v = enqueue-IsConsistent faults now p db v
perform-IsConsistent claims faults now db v = claim-IsConsistent faults now db v
perform-IsConsistent (succeeds j r) faults now db v = succeed-IsConsistent faults now j r db v
perform-IsConsistent (fails j r reason delay) faults now db v =
    fail-IsConsistent faults now j r reason delay db v
perform-IsConsistent recovers faults now db v = recover_running-IsConsistent now db v faults
perform-IsConsistent (starts c) faults now db v = start_command-IsConsistent faults now c db v
perform-IsConsistent (completes id r) faults now db v =
    complete_command-IsConsistent faults now id r db v

pub run_from-IsConsistent : (db : Db) (cs : List Call) → IsConsistent db → IsConsistent (run db cs)
unfolding run
run_from-IsConsistent db [] v = v
run_from-IsConsistent db (c ∷ cs) v =
    run_from-IsConsistent (step db c) cs (perform-IsConsistent c.op c.faults c.now db v)

pub empty_db-IsConsistent : IsConsistent empty_db
unfolding count_where
empty_db-IsConsistent = ground arith

-- After any calls at any times and with any faults, the tables of jobs and of runs of a database that
-- began empty are consistent: ids are given once, a file has one job, the runs of a job are its
-- attempts, each once, a run that has not ended is the last attempt of a job that is running, and
-- the times and counts of a row fit its status.
pub run-IsConsistent : (cs : List Call) → IsConsistent (run empty_db cs)
run-IsConsistent cs = run_from-IsConsistent empty_db cs empty_db-IsConsistent
