-- ===== src/Queue/Types.antt =====
-- internal/queue/types.go and the tables of the schema in internal/queue/store.go.
use slipway.Common.{ℕ, ℤ, Text, codes, Bool, true, false, Option, List, []}

-- Nanoseconds since the epoch, as `unixNano` stores them.
abbrev pub Time : Type 0
Time = ℕ

pub data Status : Type 0 where
  queued running succeeded failed : Status

pub data CommandStatus : Type 0 where
  command_running command_succeeded command_failed : CommandStatus

pub data Error : Type 0 where
  watch_name_empty path_empty negative_retries invalid_id : Error
  invalid_run_id negative_sequence program_empty negative_timeout : Error
  invalid_command_id invalid_command_status invalid_status negative_offset : Error
  no_job not_found invalid_transition constraint database : Error

pub record Job : Type 0 where
  pub id : ℕ
  pub watch_name : Text
  pub path : Text
  pub fingerprint : Text
  pub status : Status
  pub attempts : ℕ
  pub max_retries : ℕ
  pub available_at : Time
  pub last_error : Text
  pub created_at : Time
  pub updated_at : Time
  pub started_at : Option Time
  pub finished_at : Option Time
  pub run_id : ℕ
  pub attempt : ℕ

-- `available_at` is `none` for Go's zero time.
pub record EnqueueParams : Type 0 where
  pub watch_name : Text
  pub path : Text
  pub fingerprint : Text
  pub max_retries : ℤ
  pub available_at : Option Time

pub record Run : Type 0 where
  pub id : ℕ
  pub job_id : ℕ
  pub attempt : ℕ
  pub status : Status
  pub error : Text
  pub started_at : Time
  pub finished_at : Option Time

pub record CommandStart : Type 0 where
  pub run_id : ℤ
  pub sequence : ℤ
  pub name : Text
  pub program : Text
  pub args : List Text
  pub env : List Text
  pub working_dir : Text
  pub timeout : ℤ

pub record CommandResult : Type 0 where
  pub status : CommandStatus
  pub exit_code : ℤ
  pub stdout : Text
  pub stderr : Text
  pub error : Text

pub record CommandExecution : Type 0 where
  pub id : ℕ
  pub run_id : ℕ
  pub sequence : ℕ
  pub name : Text
  pub program : Text
  pub args : List Text
  pub env : List Text
  pub working_dir : Text
  pub timeout : ℕ
  pub status : CommandStatus
  pub exit_code : Option ℤ
  pub stdout : Text
  pub stderr : Text
  pub error : Text
  pub started_at : Time
  pub finished_at : Option Time

pub record CommandSummary : Type 0 where
  pub id : ℕ
  pub run_id : ℕ
  pub sequence : ℕ
  pub name : Text
  pub program : Text
  pub args : List Text
  pub working_dir : Text
  pub timeout : ℕ
  pub status : CommandStatus
  pub exit_code : Option ℤ
  pub error : Text
  pub started_at : Time
  pub finished_at : Option Time
  pub stdout_bytes : ℕ
  pub stderr_bytes : ℕ

pub record CommandOutput : Type 0 where
  pub id : ℕ
  pub run_id : ℕ
  pub stdout : Text
  pub stderr : Text

pub record JobFilter : Type 0 where
  pub status : Text
  pub watch_name : Text
  pub limit : ℤ
  pub offset : ℤ

pub record QueueCounts : Type 0 where
  pub queued : ℕ
  pub running : ℕ
  pub succeeded : ℕ
  pub failed : ℕ
  pub total : ℕ

-- The three tables, and the last id that each `AUTOINCREMENT` gave out.
pub record Db : Type 0 where
  pub jobs : List Job
  pub runs : List Run
  pub commands : List CommandExecution
  pub job_seq : ℕ
  pub run_seq : ℕ
  pub command_seq : ℕ

abbrev pub empty_db : Db
empty_db = record { jobs = []; runs = []; commands = []; job_seq = 0; run_seq = 0; command_seq = 0 }

abbrev pub is_queued : Status → Bool
is_queued queued = true
is_queued _ = false

abbrev pub is_running : Status → Bool
is_running running = true
is_running _ = false

abbrev pub is_succeeded : Status → Bool
is_succeeded succeeded = true
is_succeeded _ = false

abbrev pub is_failed : Status → Bool
is_failed failed = true
is_failed _ = false

abbrev pub command_is_running : CommandStatus → Bool
command_is_running command_running = true
command_is_running _ = false

-- The text that the status column holds.
abbrev pub status_text : Status → Text
status_text queued = codes "QUEUED"
status_text running = codes "RUNNING"
status_text succeeded = codes "SUCCEEDED"
status_text failed = codes "FAILED"
