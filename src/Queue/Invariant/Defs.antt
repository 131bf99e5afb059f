-- ===== src/Queue/Invariant/Defs.antt =====
-- What holds of the tables of jobs and of runs between two operations: statements about counts of rows, which
-- the updates of the operations move one by one.
use slipway.Common.{
  ℕ, ◌≤◌, ◌<◌, Text, Bool, true, false, not, ◌&&◌, ◌||◌, Option, none, some, ◌≡◌, leb, ltb, ◌==◌,
  count_where,
}
use slipway.Queue.Types.{Status, queued, running, succeeded, failed, Job, Run, Db, is_running}
use slipway.Queue.Jobs.{same_file}

abbrev pub is_some {ℓ} : {A : Type ℓ} → Option A → Bool
is_some none = false
is_some (some a) = true

-- The run is attempt `a` of job `i`.
abbrev pub run_of : ℕ → ℕ → Run → Bool
run_of i a r = r.job_id == i && r.attempt == a

-- Job `i` has begun its attempt `a`.
abbrev pub attempted : ℕ → ℕ → Job → Bool
attempted i a j = j.id == i && (leb 1 a && leb a j.attempts)

-- The run is attempt `a` of job `i`, and has not ended.
abbrev pub live_run : ℕ → ℕ → Run → Bool
live_run i a r = run_of i a r && is_running r.status

-- Job `i` is running its attempt `a`.
abbrev pub live_job : ℕ → ℕ → Job → Bool
live_job i a j = j.id == i && (j.attempts == a && is_running j.status)

-- What a row of `jobs` says of its own state.
abbrev pub sound_in : Status → Job → Bool
sound_in queued j = not (is_some j.finished_at)
sound_in running j = ltb 0 j.attempts && (is_some j.started_at && not (is_some j.finished_at))
sound_in succeeded j = ltb 0 j.attempts && is_some j.finished_at
sound_in failed j = ltb j.max_retries j.attempts && is_some j.finished_at

abbrev pub unsound_job : Job → Bool
unsound_job j = not (sound_in j.status j)

-- A run has its end on record exactly if it is not running.
abbrev pub unsound_run : Run → Bool
unsound_run r =
    is_running r.status && is_some r.finished_at
    || not (is_running r.status) && not (is_some r.finished_at)

pub record IsConsistent (db : Db) : Type 0 where
  pub one_job : (i : ℕ) → count_where (λ (j : Job). j.id == i) db.jobs ≤ 1
  pub fresh_job : (i : ℕ) → db.job_seq < i → count_where (λ (j : Job). j.id == i) db.jobs ≡ 0
  pub one_file : (w p f : Text) → count_where (same_file w p f) db.jobs ≤ 1
  pub one_run : (i : ℕ) → count_where (λ (r : Run). r.id == i) db.runs ≤ 1
  pub fresh_run : (i : ℕ) → db.run_seq < i → count_where (λ (r : Run). r.id == i) db.runs ≡ 0
  -- The runs of a job are its attempts, from 1 to the last, each once.
  pub history : (i a : ℕ) → count_where (run_of i a) db.runs ≡ count_where (attempted i a) db.jobs
  -- A job that is running has one live run, its last attempt; no other run is live.
  pub current : (i a : ℕ) → count_where (live_run i a) db.runs ≡ count_where (live_job i a) db.jobs
  pub sound_jobs : count_where unsound_job db.jobs ≡ 0
  pub sound_runs : count_where unsound_run db.runs ≡ 0
