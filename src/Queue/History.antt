-- ===== src/Queue/History.antt =====
-- internal/queue/history.go: the queries. None of them writes.
pub mod Listing
use slipway.Common.{
  ℕ, pos_part, is_negative, is_positive, ℤ, Text, text_eq, Bool, true, false, not, ◌&&◌, ◌||◌,
  Option, none, some, List, [], ◌∷◌, Result, ok, err, ltb, ◌==◌, if◌then◌else◌, count_where,
  filter_where, find_where, order_by, take, drop, length, map,
}
use slipway.Queue.Types.{
  queued, running, succeeded, failed, Error, invalid_status, negative_offset, not_found, database,
  Job, Run, CommandExecution, CommandSummary, CommandOutput, JobFilter, QueueCounts, Db, is_queued,
  is_running, is_succeeded, is_failed, status_text,
}
use slipway.Queue.Tx.{Faults}

-- `SUM(CASE WHEN status = … )` for each state, and `COUNT(*)`.
pub count_jobs : List Job → QueueCounts
count_jobs jobs = record {
  queued = count_where (λ j. is_queued j.status) jobs;
  running = count_where (λ j. is_running j.status) jobs;
  succeeded = count_where (λ j. is_succeeded j.status) jobs;
  failed = count_where (λ j. is_failed j.status) jobs;
  total = length jobs;
}

pub counts : Faults → Db → Result Error QueueCounts
counts faults db = if faults 0 then err database else ok (count_jobs db.jobs)

unfoldable pub valid_status : Text → Bool
valid_status s =
    text_eq s (status_text queued)
    || text_eq s (status_text running)
    || text_eq s (status_text succeeded)
    || text_eq s (status_text failed)

abbrev pub is_empty : Text → Bool
is_empty [] = true
is_empty (c ∷ s) = false

-- `WHERE status = ?`
abbrev pub has_status : Text → Job → Bool
has_status s j = text_eq (status_text j.status) s

pub count : Faults → Text → Db → Result Error ℕ
unfolding valid_status
count faults status db =
    if is_empty status
    then (if faults 0 then err database else ok (length db.jobs))
    else if not (valid_status status)
    then err invalid_status
    else if faults 0
    then err database
    else ok (count_where (has_status status) db.jobs)

-- `id DESC`
abbrev pub newer : Job → Job → Bool
newer a b = ltb b.id a.id

abbrev pub default_limit : ℕ
default_limit = 100

abbrev pub limit_of : ℤ → ℕ
limit_of l = if is_positive l then pos_part l else default_limit

-- The conditions that the filter adds to the query.
abbrev pub selected : JobFilter → Job → Bool
selected f j =
    (is_empty f.status || has_status f.status j)
    && (is_empty f.watch_name || text_eq j.watch_name f.watch_name)

pub select_jobs : JobFilter → List Job → List Job
unfolding order_by
select_jobs f jobs =
    take (limit_of f.limit)
      (drop (pos_part f.offset) (order_by newer (filter_where (selected f) jobs)))

pub list_jobs : Faults → JobFilter → Db → Result Error (List Job)
unfolding select_jobs
list_jobs faults f db =
    if not (is_empty f.status) && not (valid_status f.status)
    then err invalid_status
    else if is_negative f.offset
    then err negative_offset
    else if faults 0
    then err database
    else ok (select_jobs f db.jobs)

-- A row by its id, or `ErrNotFound`. No row has an id that is not positive.
abbrev pub found : {A : Type 0} → Option A → Result Error A
found none = err not_found
found (some a) = ok a

pub get_job : Faults → ℕ → Db → Result Error Job
get_job faults id db =
    if faults 0 then err database else found (find_where (λ j. j.id == id) db.jobs)

-- `ORDER BY attempt, id`
abbrev pub earlier_run : Run → Run → Bool
earlier_run a b = ltb a.attempt b.attempt || (a.attempt == b.attempt && ltb a.id b.id)

pub list_runs : Faults → ℕ → Db → Result Error (List Run)
unfolding order_by
list_runs faults job_id db =
    if faults 0
    then err database
    else ok (order_by earlier_run (filter_where (λ r. r.job_id == job_id) db.runs))

-- `ORDER BY sequence, id`
abbrev pub earlier_command : CommandExecution → CommandExecution → Bool
earlier_command a b = ltb a.sequence b.sequence || (a.sequence == b.sequence && ltb a.id b.id)

pub select_commands : ℕ → List CommandExecution → List CommandExecution
unfolding order_by
select_commands run_id commands =
    order_by earlier_command (filter_where (λ c. c.run_id == run_id) commands)

pub list_commands : Faults → ℕ → Db → Result Error (List CommandExecution)
unfolding select_commands
list_commands faults run_id db =
    if faults 0 then err database else ok (select_commands run_id db.commands)

-- `length(CAST(stdout AS BLOB))` counts bytes.
pub summary : CommandExecution → CommandSummary
summary c = record {
  id = c.id;
  run_id = c.run_id;
  sequence = c.sequence;
  name = c.name;
  program = c.program;
  args = c.args;
  working_dir = c.working_dir;
  timeout = c.timeout;
  status = c.status;
  exit_code = c.exit_code;
  error = c.error;
  started_at = c.started_at;
  finished_at = c.finished_at;
  stdout_bytes = length c.stdout;
  stderr_bytes = length c.stderr;
}

pub list_command_summaries : Faults → ℕ → Db → Result Error (List CommandSummary)
unfolding summary select_commands
list_command_summaries faults run_id db =
    if faults 0 then err database else ok (map summary (select_commands run_id db.commands))

pub get_command_output : Faults → ℕ → Db → Result Error CommandOutput
get_command_output faults id db =
    if faults 0
    then err database
    else elim (find_where (λ (c : CommandExecution). c.id == id) db.commands) [
      | none ↦ err not_found
      | some c ↦ ok (record { id = c.id; run_id = c.run_id; stdout = c.stdout; stderr = c.stderr })
    ]
