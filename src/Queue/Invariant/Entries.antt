-- ===== src/Queue/Invariant/Entries.antt =====
-- `Enqueue` of internal/queue/jobs.go, and the operations of internal/queue/commands.go: they keep
-- the tables consistent.
use slipway.Common.{
  suc, ◌≤◌, ℤ, Text, text_eq_iff, is_blank, is_negative, Bool, none, [], ◌∷◌, ◌++◌, ◌≡◌, sym, arith,
  count_where, count_where_snoc, find_where, find_where-none, ◌==◌, Bool-cases, Option-cases, inl,
  inr,
}
use mathlib.Core.Path.{subst}
use slipway.Queue.Types.{Time, Job, Db, EnqueueParams, CommandStart, CommandResult}
use slipway.Queue.Tx.{Faults}
use slipway.Queue.Jobs.{same_file, new_job, insert_job, enqueue}
use slipway.Queue.Commands.{start_command, complete_command}
use slipway.Queue.Invariant.Defs.{IsConsistent, attempted, live_job, unsound_job}
use slipway.Queue.Invariant.Outcomes.{with_commands}

-- The database after a new file has been entered.
abbrev pub entered : Time → EnqueueParams → Db → Db
entered now p db = record db {
  jobs = db.jobs ++ new_job p now (suc db.job_seq) ∷ [];
  job_seq = suc db.job_seq;
}

abbrev pub key_of : EnqueueParams → Job → Bool
key_of p = same_file p.watch_name p.path p.fingerprint

module _ (now : Time) (p : EnqueueParams) (db : Db) (v : IsConsistent db)
    (new : find_where (key_of p) db.jobs ≡ none) where
  one_file_after : (w q f : Text) → count_where (same_file w q f) (entered now p db).jobs ≤ 1
  unfolding new_job
  one_file_after w q f = ground (
    arith,
    v.one_file w q f,
    find_where-none (key_of p) db.jobs new,
    count_where_snoc (same_file w q f) db.jobs (new_job p now (suc db.job_seq)),
    text_eq_iff p.watch_name w,
    text_eq_iff p.path q,
    text_eq_iff p.fingerprint f,
  )

  entered-IsConsistent : IsConsistent (entered now p db)
  unfolding new_job
  entered-IsConsistent = record {
    one_job = λ i. ground (
      arith,
      v.one_job i,
      v.fresh_job (suc db.job_seq),
      count_where_snoc (λ (x : Job). x.id == i) db.jobs (new_job p now (suc db.job_seq)),
    );
    fresh_job = λ i h. ground (
      arith,
      v.fresh_job i (omega arith),
      count_where_snoc (λ (x : Job). x.id == i) db.jobs (new_job p now (suc db.job_seq)),
    );
    one_file = one_file_after;
    one_run = v.one_run;
    fresh_run = v.fresh_run;
    history = λ i a. ground (
      arith,
      v.history i a,
      count_where_snoc (attempted i a) db.jobs (new_job p now (suc db.job_seq)),
    );
    current = λ i a. ground (
      arith,
      v.current i a,
      count_where_snoc (live_job i a) db.jobs (new_job p now (suc db.job_seq)),
    );
    sound_jobs = ground (
      arith,
      v.sound_jobs,
      count_where_snoc unsound_job db.jobs (new_job p now (suc db.job_seq)),
    );
    sound_runs = v.sound_runs;
  }

insert_job-IsConsistent :
    (faults : Faults) (now : Time) (p : EnqueueParams) (db : Db)
    → IsConsistent db
    → IsConsistent (insert_job faults now p db).1
unfolding insert_job
insert_job-IsConsistent faults now p db v = elim (Bool-cases (faults 0)) [
  | inl e ↦ rw e v
  | inr e ↦ elim (Option-cases (find_where (key_of p) db.jobs)) [
    | inl new ↦ rw (e, new) (entered-IsConsistent now p db v new)
    | inr (j, old) ↦ rw (e, old) v
  ]
]

pub enqueue-IsConsistent :
    (faults : Faults) (now : Time) (p : EnqueueParams) (db : Db)
    → IsConsistent db
    → IsConsistent (enqueue faults now p db).1
unfolding enqueue
enqueue-IsConsistent faults now p db v = elim (Bool-cases (is_blank p.watch_name)) [
  | inl e ↦ rw e v
  | inr e ↦ elim (Bool-cases (is_blank p.path)) [
    | inl f ↦ rw (e, f) v
    | inr f ↦ elim (Bool-cases (is_negative p.max_retries)) [
      | inl g ↦ rw (e, f, g) v
      | inr g ↦ rw (e, f, g) (insert_job-IsConsistent faults now p db v)
    ]
  ]
]

-- Starting a command writes to the table of commands only.
pub start_command-tables :
    (faults : Faults) (now : Time) (c : CommandStart) (db : Db)
    → let db' = (start_command faults now c db).1 in
      db' ≡ record db { commands = db'.commands; command_seq = db'.command_seq }
unfolding start_command
start_command-tables faults now c db = ground arith

pub complete_command-tables :
    (faults : Faults) (now : Time) (id : ℤ) (r : CommandResult) (db : Db)
    → let db' = (complete_command faults now id r db).1 in
      db' ≡ record db { commands = db'.commands; command_seq = db'.command_seq }
unfolding complete_command
complete_command-tables faults now id r db = ground arith

pub start_command-IsConsistent :
    (faults : Faults) (now : Time) (c : CommandStart) (db : Db)
    → IsConsistent db
    → IsConsistent (start_command faults now c db).1
start_command-IsConsistent faults now c db v =
    let db' = (start_command faults now c db).1 in
    subst IsConsistent (sym (start_command-tables faults now c db))
      (with_commands db db'.commands db'.command_seq v)

pub complete_command-IsConsistent :
    (faults : Faults) (now : Time) (id : ℤ) (r : CommandResult) (db : Db)
    → IsConsistent db
    → IsConsistent (complete_command faults now id r db).1
complete_command-IsConsistent faults now id r db v =
    let db' = (complete_command faults now id r db).1 in
    subst IsConsistent (sym (complete_command-tables faults now id r db))
      (with_commands db db'.commands db'.command_seq v)
