-- ===== src/Queue/Commands.antt =====
-- internal/queue/commands.go: the record of a command, before it runs and after it ends.
use slipway.Common.{
  ℕ, suc, pos_part, is_negative, is_positive, ℤ, is_blank, Bool, not, ◌&&◌, none, some, true, false,
  [], ◌∷◌, ◌++◌, Result, ok, err, ◌==◌, if◌then◌else◌, count_where, update_where,
}
use slipway.Queue.Types.{
  Time, CommandStatus, command_running, Error, invalid_run_id, negative_sequence, program_empty,
  negative_timeout, invalid_command_id, invalid_command_status, invalid_transition, constraint,
  database, Run, CommandStart, CommandResult, CommandExecution, Db, is_running, command_is_running,
}
use slipway.Queue.Tx.{Faults}

unfoldable pub new_command : Time → CommandStart → ℕ → CommandExecution
new_command now c id = record {
  id = id;
  run_id = pos_part c.run_id;
  sequence = pos_part c.sequence;
  name = c.name;
  program = c.program;
  args = c.args;
  env = c.env;
  working_dir = c.working_dir;
  timeout = pos_part c.timeout;
  status = command_running;
  exit_code = none;
  stdout = [];
  stderr = [];
  error = [];
  started_at = now;
  finished_at = none;
}

abbrev pub is_run : ℕ → Run → Bool
is_run run_id r = r.id == run_id && is_running r.status

-- `UNIQUE (run_id, sequence)`
abbrev pub same_step : ℕ → ℕ → CommandExecution → Bool
same_step run_id sequence c = c.run_id == run_id && c.sequence == sequence

-- `INSERT … SELECT id … FROM runs WHERE id = ? AND status = RUNNING`, and `requireOneRow`: no running
-- run, no row.
pub insert_command : Time → CommandStart → Db → Result Error ℕ × Db
unfolding new_command
insert_command now c db = elim (count_where (is_run (pos_part c.run_id)) db.runs == 0) [
  | true ↦ (err invalid_transition, db)
  | false ↦
      elim (count_where (same_step (pos_part c.run_id) (pos_part c.sequence)) db.commands == 0) [
        | true ↦ (
          ok (suc db.command_seq),
          record db {
            commands = db.commands ++ new_command now c (suc db.command_seq) ∷ [];
            command_seq = suc db.command_seq;
          },
        )
        | false ↦ (err constraint, db)
      ]
]

abbrev pub start_valid : CommandStart → Result Error (Unit {0})
start_valid c =
    if not (is_positive c.run_id)
    then err invalid_run_id
    else if is_negative c.sequence
    then err negative_sequence
    else if is_blank c.program
    then err program_empty
    else if is_negative c.timeout
    then err negative_timeout
    else ok tt

-- One statement, outside a transaction.
unfoldable pub start_command : Faults → Time → CommandStart → Db → Result Error ℕ × Db
unfolding insert_command
start_command faults now c db = elim (start_valid c) [
  | err e ↦ (err e, db)
  | ok _ ↦ if faults 0 then (err database, db) else insert_command now c db
]

abbrev pub is_terminal : CommandStatus → Bool
is_terminal s = not (command_is_running s)

abbrev pub open_command : ℕ → CommandExecution → Bool
open_command id c = c.id == id && command_is_running c.status

abbrev pub finish_command : Time → CommandResult → CommandExecution → CommandExecution
finish_command now r c = record c {
  status = r.status;
  exit_code = some r.exit_code;
  stdout = r.stdout;
  stderr = r.stderr;
  error = r.error;
  finished_at = some now;
}

-- `UPDATE … WHERE id = ? AND status = RUNNING`, outside a transaction, and `requireOneRow` of the rows
-- that it wrote.
pub update_command : Time → ℕ → CommandResult → Db → Result Error (Unit {0}) × Db
update_command now id r db =
    let db' = record db {
      commands = update_where (open_command id) (finish_command now r) db.commands;
    } in
    if count_where (open_command id) db.commands == 1
    then (ok tt, db')
    else (err invalid_transition, db')

unfoldable pub complete_command :
    Faults → Time → ℤ → CommandResult → Db → Result Error (Unit {0}) × Db
unfolding update_command
complete_command faults now id r db =
    if not (is_positive id)
    then (err invalid_command_id, db)
    else if not (is_terminal r.status)
    then (err invalid_command_status, db)
    else if faults 0
    then (err database, db)
    else update_command now (pos_part id) r db
