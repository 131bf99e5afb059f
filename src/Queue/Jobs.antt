-- ===== src/Queue/Jobs.antt =====
-- internal/queue/jobs.go: the operations that move a job through its life. Each takes the faults of
-- the environment, the clock's reading and the database, and returns its result and the database
-- after it. The statements of an operation are numbered from 0 in the order of the code.
use slipway.Common.{
  ℕ, suc, ◌+◌, ℤ, pos_part, is_negative, is_positive, Text, codes, text_eq, is_blank, Bool, true,
  false, not, ◌&&◌, ◌||◌, Option, none, some, List, [], ◌∷◌, ◌++◌, Result, ok, err, ltb, leb, ◌==◌,
  if◌then◌else◌, count_where, update_where, find_where,
}
use slipway.Queue.Types.{
  Time, Status, queued, running, succeeded, failed, command_failed, Error, watch_name_empty,
  path_empty, negative_retries, invalid_id, no_job, invalid_transition, constraint, database, Job,
  EnqueueParams, Run, CommandExecution, Db, is_queued, is_running, command_is_running,
}
use slipway.Queue.Tx.{
  Faults, Tx, ◌>>=◌, ◌>>◌, pure, statement, update_jobs, update_runs, update_commands,
  require_one_row, transaction,
}

-- The columns of `UNIQUE (watch_name, path, fingerprint)`.
abbrev pub same_file : Text → Text → Text → Job → Bool
same_file watch path fingerprint j =
    text_eq j.watch_name watch && text_eq j.path path && text_eq j.fingerprint fingerprint

abbrev or_now : Option Time → Time → Time
or_now none now = now
or_now (some t) now = t

unfoldable pub new_job : EnqueueParams → Time → ℕ → Job
new_job p now id = record {
  id = id;
  watch_name = p.watch_name;
  path = p.path;
  fingerprint = p.fingerprint;
  status = queued;
  attempts = 0;
  max_retries = pos_part p.max_retries;
  available_at = or_now p.available_at now;
  last_error = [];
  created_at = now;
  updated_at = now;
  started_at = none;
  finished_at = none;
  run_id = 0;
  attempt = 0;
}

-- `INSERT … ON CONFLICT DO NOTHING RETURNING`, and the `SELECT` of the row in the way. The Boolean
-- of the result says that the row is new.
unfoldable pub insert_job : Faults → Time → EnqueueParams → Db → Result Error (Job × Bool) × Db
unfolding new_job
insert_job faults now p db =
    if faults 0
    then (err database, db)
    else (elim (find_where (same_file p.watch_name p.path p.fingerprint) db.jobs) [
      | none ↦ (
        ok (new_job p now (suc db.job_seq), true),
        record db {
          jobs = db.jobs ++ new_job p now (suc db.job_seq) ∷ [];
          job_seq = suc db.job_seq;
        },
      )
      | some j ↦ (if faults 1 then err database else ok (j, false), db)
    ])

unfoldable pub enqueue : Faults → Time → EnqueueParams → Db → Result Error (Job × Bool) × Db
unfolding insert_job
enqueue faults now p db =
    if is_blank p.watch_name
    then (err watch_name_empty, db)
    else if is_blank p.path
    then (err path_empty, db)
    else if is_negative p.max_retries
    then (err negative_retries, db)
    else insert_job faults now p db

-- `WHERE status = QUEUED AND available_at <= now`
abbrev pub eligible : Time → Job → Bool
eligible now j = is_queued j.status && leb j.available_at now

-- `ORDER BY available_at, id`
abbrev pub before : Job → Job → Bool
before a b =
    ltb a.available_at b.available_at || (a.available_at == b.available_at && ltb a.id b.id)

abbrev earlier : Job → Option Job → Job
earlier j none = j
earlier j (some k) = if before k j then k else j

-- `ORDER BY … LIMIT 1` over the eligible rows.
unfoldable pub oldest : Time → List Job → Option Job
oldest now [] = none
oldest now (j ∷ js) =
    let rest = oldest now js in if eligible now j then some (earlier j rest) else rest

unfoldable pub start_job : Time → Job → Job
start_job now j = record j {
  status = running;
  attempts = j.attempts + 1;
  updated_at = now;
  started_at = some now;
  finished_at = none;
}

unfoldable pub new_run : Time → Job → ℕ → Run
new_run now j id = record {
  id = id;
  job_id = j.id;
  attempt = j.attempts;
  status = running;
  error = [];
  started_at = now;
  finished_at = none;
}

-- The row that `UPDATE jobs … RETURNING` gives back.
pub reserve : Time → Tx Job
unfolding start_job
reserve now db = elim (oldest now db.jobs) [
  | none ↦ err no_job
  | some j ↦ ok (
    start_job now j,
    record db { jobs = update_where (λ r. r.id == j.id) (start_job now) db.jobs },
  )
]

-- `INSERT INTO runs`, under `UNIQUE (job_id, attempt)`. The new id comes back.
pub insert_run : Time → Job → Tx ℕ
unfolding new_run
insert_run now j db =
    elim (count_where (λ (r : Run). r.job_id == j.id && r.attempt == j.attempts) db.runs == 0) [
      | true ↦ ok (
        suc db.run_seq,
        record db {
          runs = db.runs ++ new_run now j (suc db.run_seq) ∷ [];
          run_seq = suc db.run_seq;
        },
      )
      | false ↦ err constraint
    ]

unfoldable pub claim_body : Faults → Time → Tx Job
unfolding reserve insert_run
claim_body faults now = do
  statement (faults 0)
  statement (faults 1)
  job ← reserve now
  statement (faults 2)
  run_id ← insert_run now job
  statement (faults 3)
  statement (faults 4)
  pure (record job { run_id = run_id; attempt = job.attempts })

unfoldable pub claim : Faults → Time → Db → Result Error Job × Db
unfolding claim_body
claim faults now = transaction (claim_body faults now)

-- `WHERE id = ? AND job_id = ? AND status = RUNNING`
abbrev pub running_run : ℕ → ℕ → Run → Bool
running_run run_id job_id r = r.id == run_id && r.job_id == job_id && is_running r.status

-- `WHERE id = ? AND status = RUNNING`
abbrev pub running_job : ℕ → Job → Bool
running_job job_id j = j.id == job_id && is_running j.status

abbrev pub succeed_run : Time → Run → Run
succeed_run now r = record r { status = succeeded; error = []; finished_at = some now }

abbrev pub succeed_job : Time → Job → Job
succeed_job now j = record j {
  status = succeeded;
  last_error = [];
  updated_at = now;
  finished_at = some now;
}

unfoldable pub succeed_body : Faults → Time → ℕ → ℕ → Tx (Unit {0})
succeed_body faults now job_id run_id = do
  statement (faults 0)
  statement (faults 1)
  runs ← update_runs (running_run run_id job_id) (succeed_run now)
  require_one_row runs
  statement (faults 2)
  jobs ← update_jobs (running_job job_id) (succeed_job now)
  require_one_row jobs
  statement (faults 3)

unfoldable pub succeed : Faults → Time → ℤ → ℤ → Db → Result Error (Unit {0}) × Db
unfolding succeed_body
succeed faults now job_id run_id db =
    if not (is_positive job_id) || not (is_positive run_id)
    then (err invalid_id, db)
    else transaction (succeed_body faults now (pos_part job_id) (pos_part run_id)) db

-- `WHERE run_id = ? AND status = RUNNING`
abbrev pub running_command : ℕ → CommandExecution → Bool
running_command run_id c = c.run_id == run_id && command_is_running c.status

abbrev pub fail_command : Time → Text → CommandExecution → CommandExecution
fail_command now reason c = record c {
  status = command_failed;
  exit_code = some (ℤ.negsuc 0);
  error = reason;
  finished_at = some now;
}

abbrev pub fail_run : Time → Text → Run → Run
fail_run now reason r = record r { status = failed; error = reason; finished_at = some now }

-- A job that has retries left is queued again.
abbrev pub retry_status : ℕ → ℕ → Status
retry_status attempts max_retries = if leb attempts max_retries then queued else failed

unfoldable pub fail_job : Time → ℕ → Text → ℕ → ℕ → Job → Job
fail_job now delay reason attempts max_retries j =
    let retry = leb attempts max_retries in
    record j {
      status = retry_status attempts max_retries;
      available_at = if retry then now + delay else now;
      last_error = reason;
      updated_at = now;
      finished_at = if retry then none else some now;
    }

-- `SELECT attempts, max_retries FROM jobs WHERE id = ? AND status = RUNNING`
abbrev pub select_running : ℕ → Tx Job
select_running job_id db = elim (find_where (running_job job_id) db.jobs) [
  | none ↦ err invalid_transition
  | some j ↦ ok (j, db)
]

unfoldable pub fail_body : Faults → Time → ℕ → ℕ → Text → ℕ → Tx Status
unfolding fail_job
fail_body faults now job_id run_id reason delay = do
  statement (faults 0)
  statement (faults 1)
  commands ← update_commands (running_command run_id) (fail_command now reason)
  statement (faults 2)
  runs ← update_runs (running_run run_id job_id) (fail_run now reason)
  require_one_row runs
  statement (faults 3)
  j ← select_running job_id
  statement (faults 4)
  jobs ← update_jobs (running_job job_id) (fail_job now delay reason j.attempts j.max_retries)
  require_one_row jobs
  statement (faults 5)
  pure (retry_status j.attempts j.max_retries)

unfoldable pub fail : Faults → Time → ℤ → ℤ → Text → ℤ → Db → Result Error Status × Db
unfolding fail_body
fail faults now job_id run_id reason retry_delay db =
    if not (is_positive job_id) || not (is_positive run_id)
    then (err invalid_id, db)
    else transaction
        (fail_body faults now (pos_part job_id) (pos_part run_id) reason (pos_part retry_delay)) db

abbrev pub restart_reason : Text
restart_reason = codes "interrupted by daemon restart"

abbrev pub requeue_job : Time → Job → Job
requeue_job now j = record j {
  status = queued;
  available_at = now;
  last_error = restart_reason;
  updated_at = now;
  finished_at = none;
}

unfoldable pub recover_body : Faults → Time → Tx ℕ
recover_body faults now = do
  statement (faults 0)
  statement (faults 1)
  commands ← update_commands (λ c. command_is_running c.status) (fail_command now restart_reason)
  statement (faults 2)
  runs ← update_runs (λ r. is_running r.status) (fail_run now restart_reason)
  statement (faults 3)
  count ← update_jobs (λ j. is_running j.status) (requeue_job now)
  statement (faults 4)
  statement (faults 5)
  pure count

unfoldable pub recover_running : Faults → Time → Db → Result Error ℕ × Db
unfolding recover_body
recover_running faults now = transaction (recover_body faults now)
