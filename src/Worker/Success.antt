-- ===== src/Worker/Success.antt =====
-- A job all of whose commands succeed (internal/worker/worker.go over internal/queue): what the
-- worker leaves in the tables.
use slipway.Common.{
  ℕ, suc, ◌+◌, ◌≤◌, ◌<◌, ◌==◌, pos, is_negative, is_blank, Bool, true, false, ◌&&◌, none, some, [],
  ◌∷◌, ◌++◌, ◌≡◌, arith, ok, bit, count_where, update_where, find_where, count_where_snoc,
  count_where_mono, find_where_count, find_where_snoc, update_one, Option-cases, inl, inr,
}
use slipway.Queue.Types.{
  command_is_running, Time, CommandStatus, command_succeeded, CommandStart, CommandResult,
  CommandExecution, Db,
}
use slipway.Queue.Tx.{no_faults}
use slipway.Queue.Jobs.{running_command}
use slipway.Queue.Commands.{
  new_command, is_run, same_step, open_command, finish_command, start_command, complete_command,
}

abbrev pub command_is_succeeded : CommandStatus → Bool
command_is_succeeded command_succeeded = true
command_is_succeeded _ = false

-- The commands of a run that have succeeded.
abbrev pub succeeded_command : ℕ → CommandExecution → Bool
succeeded_command run_id c = c.run_id == run_id && command_is_succeeded c.status

-- The commands of a run.
abbrev pub is_of : ℕ → CommandExecution → Bool
is_of run_id c = c.run_id == run_id

-- A run that is running and has recorded its first steps, up to a number; and no row has an id that
-- has not been given out.
pub record IsReady (run_id n : ℕ) (db : Db) : Type 0 where
  pub running : 1 ≤ count_where (is_run run_id) db.runs
  pub free : (k : ℕ) → n < k → count_where (same_step run_id k) db.commands ≡ 0
  pub fresh :
      (i : ℕ)
      → db.command_seq < i
      → count_where (λ (c : CommandExecution). c.id == i) db.commands ≡ 0

-- A start that `StartCommand` accepts for a step of a run.
pub record IsStart (run_id n : ℕ) (c : CommandStart) : Type 0 where
  pub run : c.run_id ≡ pos run_id
  pub positive : 1 ≤ run_id
  pub sequence : c.sequence ≡ pos (suc n)
  pub program : is_blank c.program ≡ false
  pub timeout : is_negative c.timeout ≡ false

-- The database after the start of a command, and after its end.
abbrev pub started : Time → CommandStart → Db → Db
started now c db = record db {
  commands = db.commands ++ new_command now c (suc db.command_seq) ∷ [];
  command_seq = suc db.command_seq;
}

abbrev pub ended : Time → Time → CommandStart → CommandResult → Db → Db
ended now later c r db = record (started now c db) {
  commands =
      update_where (open_command (suc db.command_seq)) (finish_command later r)
        (started now c db).commands;
}

module _ (run_id n : ℕ) (db : Db) (v : IsReady run_id n db) (c : CommandStart)
    (a : IsStart run_id n c) (now later : Time) (r : CommandResult)
    (terminal : command_is_running r.status ≡ false) where
  pub start_accepted :
      start_command no_faults now c db ≡ (ok (suc db.command_seq), started now c db)
  unfolding start_command
  start_accepted =
      ground (arith, a.run, a.positive, a.sequence, a.program, a.timeout, v.running, v.free (suc n))

  none_open : find_where (open_command (suc db.command_seq)) db.commands ≡ none
  none_open = elim (Option-cases (find_where (open_command (suc db.command_seq)) db.commands)) [
    | inl e ↦ e
    | inr (x, e) ↦ absurd (
        omega (
          arith,
          find_where_count (open_command (suc db.command_seq)) db.commands e,
          v.fresh (suc db.command_seq) (omega arith),
          count_where_mono (open_command (suc db.command_seq))
              (λ (c : CommandExecution). c.id == suc db.command_seq) (λ x. ground arith)
              db.commands,
        ))
  ]

  is_open :
      find_where (open_command (suc db.command_seq)) (started now c db).commands
      ≡ some (new_command now c (suc db.command_seq))
  unfolding new_command
  is_open =
      find_where_snoc (open_command (suc db.command_seq)) db.commands
        (new_command now c (suc db.command_seq)) none_open (ground arith)

  one_open : count_where (open_command (suc db.command_seq)) (started now c db).commands ≡ 1
  unfolding new_command
  one_open = ground (
    arith,
    find_where_count (open_command (suc db.command_seq)) (started now c db).commands is_open,
    count_where_snoc (open_command (suc db.command_seq)) db.commands
        (new_command now c (suc db.command_seq)),
    v.fresh (suc db.command_seq) (omega arith),
    count_where_mono (open_command (suc db.command_seq))
        (λ (c : CommandExecution). c.id == suc db.command_seq) (λ x. ground arith) db.commands,
  )

  pub end_accepted :
      complete_command no_faults later (pos (suc db.command_seq)) r (started now c db)
      ≡ (ok tt, ended now later c r db)
  unfolding complete_command
  end_accepted = ground (arith, one_open, terminal)

  -- Every count of the commands moves by the new row alone.
  count_ended :
      (q : CommandExecution → Bool)
      → count_where q (ended now later c r db).commands
        ≡ count_where q db.commands
          + bit (q (finish_command later r (new_command now c (suc db.command_seq))))
  count_ended q = omega (
    arith,
    update_one (open_command (suc db.command_seq)) q (finish_command later r)
        (started now c db).commands is_open (omega (arith, one_open)),
    count_where_snoc q db.commands (new_command now c (suc db.command_seq)),
  )

  pub ended-IsReady : IsReady run_id (suc n) (ended now later c r db)
  unfolding new_command
  ended-IsReady = record {
    running = v.running;
    free = λ k h.
        ground (arith, count_ended (same_step run_id k), v.free k (omega arith), a.run, a.sequence);
    fresh = λ i h.
        ground (arith, count_ended (λ (c : CommandExecution). c.id == i), v.fresh i (omega arith));
  }

  pub running_ended :
      count_where (running_command run_id) (ended now later c r db).commands
      ≡ count_where (running_command run_id) db.commands
  unfolding new_command
  running_ended = ground (arith, count_ended (running_command run_id), terminal)

  pub succeeded_ended :
      r.status ≡ command_succeeded
      → count_where (succeeded_command run_id) (ended now later c r db).commands
        ≡ suc (count_where (succeeded_command run_id) db.commands)
  unfolding new_command
  succeeded_ended success = ground (arith, count_ended (succeeded_command run_id), success, a.run)

  pub recorded_ended :
      count_where (is_of run_id) (ended now later c r db).commands
      ≡ suc (count_where (is_of run_id) db.commands)
  unfolding new_command
  recorded_ended = ground (arith, count_ended (is_of run_id), a.run)
