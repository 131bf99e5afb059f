-- ===== src/Queue/System.antt =====
-- The queue as a system: any sequence of the calls of internal/queue's `Store` that write, each
-- with its arguments, the clock's reading and the faults of the environment.
pub mod Runs
pub mod Lifecycle
use slipway.Common.{ℕ, ℤ, Text, List, [], ◌∷◌}
use slipway.Queue.Types.{Time, EnqueueParams, CommandStart, CommandResult, Db}
use slipway.Queue.Tx.{Faults}
use slipway.Queue.Jobs.{enqueue, claim, succeed, fail, recover_running}
use slipway.Queue.Commands.{start_command, complete_command}

pub data Op : Type 0 where
  enqueues : EnqueueParams → Op
  claims : Op
  succeeds : ℤ → ℤ → Op
  fails : ℤ → ℤ → Text → ℤ → Op
  recovers : Op
  starts : CommandStart → Op
  completes : ℤ → CommandResult → Op

pub record Call : Type 0 where
  pub op : Op
  pub now : Time
  pub faults : Faults

abbrev pub perform : Op → Faults → Time → Db → Db
perform (enqueues p) faults now db = (enqueue faults now p db).1
perform claims faults now db = (claim faults now db).1
perform (succeeds job_id run_id) faults now db = (succeed faults now job_id run_id db).1
perform (fails job_id run_id reason delay) faults now db =
    (fail faults now job_id run_id reason delay db).1
perform recovers faults now db = (recover_running faults now db).1
perform (starts c) faults now db = (start_command faults now c db).1
perform (completes id r) faults now db = (complete_command faults now id r db).1

abbrev pub step : Db → Call → Db
step db c = perform c.op c.faults c.now db

unfoldable pub run : Db → List Call → Db
run db [] = db
run db (c ∷ cs) = run (step db c) cs
