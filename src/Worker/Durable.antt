-- ===== src/Worker/Durable.antt =====
-- The worker of internal/worker/worker.go over the durable queue of internal/queue: the calls are
-- numbered, and each has the clock's reading and the faults of its number.
use slipway.Common.{ℕ, suc}
use slipway.Queue.Types.{Time, Db}
use slipway.Queue.Tx.{Faults}
use slipway.Queue.Jobs.{claim, succeed, fail}
use slipway.Queue.Commands.{start_command, complete_command}
use slipway.Queue.Invariant.Defs.{IsConsistent}
use slipway.Queue.Invariant.Claiming.{claim-IsConsistent}
use slipway.Queue.Invariant.Entries.{start_command-IsConsistent, complete_command-IsConsistent}
use slipway.Queue.Invariant.Outcomes.{succeed-IsConsistent, fail-IsConsistent}
use slipway.Worker.Process.{Store, Pool, turn}
use slipway.Worker.Keeping.{Keeps, turn_keeps}

abbrev numbered : {A : Type 0} → ℕ → A × Db → A × (Db × ℕ)
numbered n x = (x.0, (x.1, suc n))

module _ (clock : ℕ → Time) (faults : ℕ → Faults) where
  abbrev pub queue_store : Store (Db × ℕ)
  queue_store = record {
    claim = λ s. numbered s.1 (claim (faults s.1) (clock s.1) s.0);
    start_command = λ c s. numbered s.1 (start_command (faults s.1) (clock s.1) c s.0);
    complete_command = λ id r s. numbered s.1 (complete_command (faults s.1) (clock s.1) id r s.0);
    succeed = λ job run s. numbered s.1 (succeed (faults s.1) (clock s.1) job run s.0);
    fail = λ job run reason delay s.
        numbered s.1 (fail (faults s.1) (clock s.1) job run reason delay s.0);
  }

  pub queue_store-Keeps : Keeps (λ s. IsConsistent s.0) queue_store
  queue_store-Keeps = record {
    claim = λ s v. claim-IsConsistent (faults s.1) (clock s.1) s.0 v;
    start_command = λ c s v. start_command-IsConsistent (faults s.1) (clock s.1) c s.0 v;
    complete_command =
        λ id r s v. complete_command-IsConsistent (faults s.1) (clock s.1) id r s.0 v;
    succeed = λ job run s v. succeed-IsConsistent (faults s.1) (clock s.1) job run s.0 v;
    fail = λ job run reason delay s v.
        fail-IsConsistent (faults s.1) (clock s.1) job run reason delay s.0 v;
  }

  -- Whatever the executor and the configuration answer and whatever statements the database refuses, a
  -- turn of a worker, the claim of a job and its attempt, leaves a consistent database consistent.
  pub turn-IsConsistent :
      (pool : Pool) (db : Db) (n : ℕ)
      → IsConsistent db
      → IsConsistent (turn queue_store pool (db, n)).1.0
  turn-IsConsistent pool db n v =
      turn_keeps (λ s. IsConsistent s.0) queue_store queue_store-Keeps pool (db, n) v
