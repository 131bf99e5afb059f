-- ===== src/Queue/Invariant/Claiming.antt =====
-- `Claim` of internal/queue/jobs.go: which row it takes, that its insertion of a run is never
-- refused, and that it keeps the tables consistent.
use slipway.Common.{
  ℕ, suc, ◌+◌, Bool, true, some, List, [], ◌∷◌, ◌++◌, ◌≡◌, refl, arith, ok, count_where,
  count_where_snoc, update_where, find_where, find_where-mem, only_row, update_one, update_unseen,
  ◌==◌, Bool-cases, Option-cases, inl, inr,
}
use mathlib.Core.List.{Memᴰ}
use slipway.Queue.Types.{Time, Job, Run, Db}
use slipway.Queue.Tx.{Faults, transaction_keeps}
use slipway.Queue.Jobs.{same_file, eligible, before, oldest, start_job, new_run, claim_body, claim}
use slipway.Queue.Invariant.Defs.{
  IsConsistent, run_of, attempted, live_run, live_job, unsound_job, unsound_run,
}

pub oldest-eligible :
    (now : Time) (js : List Job) {j : Job} → oldest now js ≡ some j → eligible now j ≡ true
unfolding oldest
oldest-eligible now [] h = cc
oldest-eligible now (x ∷ xs) {j} h = elim (Option-cases (oldest now xs)) [
  | inl e ↦ ground (arith, e, h)
  | inr (k, e) ↦ ground (arith, e, h, oldest-eligible now xs {j = k} e)
]

pub oldest-mem : (now : Time) (js : List Job) {j : Job} → oldest now js ≡ some j → Memᴰ j js
unfolding oldest
oldest-mem now [] h = cc
oldest-mem now (x ∷ xs) {j} h = elim (Bool-cases (eligible now x)) [
  | inl e ↦ elim (Option-cases (oldest now xs)) [
    | inl o ↦ Memᴰ.head (ground (arith, e, o, h))
    | inr (k, o) ↦ elim (Bool-cases (before k x)) [
      | inl b ↦
          let e' : j ≡ k = ground (arith, e, o, h, b) in rw e' (Memᴰ.tail (oldest-mem now xs o))
      | inr b ↦ Memᴰ.head (ground (arith, e, o, h, b))
    ]
  ]
  | inr e ↦ Memᴰ.tail (oldest-mem now xs (ground (arith, e, h)))
]

abbrev pub has_id : ℕ → Job → Bool
has_id i j = j.id == i

-- The database after a claim of a job.
abbrev pub claimed : Time → Job → Db → Db
claimed now j db = record db {
  jobs = update_where (has_id j.id) (start_job now) db.jobs;
  runs = db.runs ++ new_run now (start_job now j) (suc db.run_seq) ∷ [];
  run_seq = suc db.run_seq;
}

module _ (now : Time) (db : Db) (v : IsConsistent db) (j : Job)
    (e : oldest now db.jobs ≡ some j) where
  pub found_oldest : find_where (has_id j.id) db.jobs ≡ some j
  found_oldest =
      find_where-mem (has_id j.id) db.jobs (oldest-mem now db.jobs e) (ground arith)
        (v.one_job j.id)

  -- The next attempt of the job has no run yet.
  pub no_next_run : count_where (run_of j.id (j.attempts + 1)) db.runs ≡ 0
  no_next_run = ground (
    arith,
    v.history j.id (j.attempts + 1),
    only_row (has_id j.id) (attempted j.id (j.attempts + 1)) db.jobs (λ x. ground arith)
        found_oldest (v.one_job j.id),
  )

  history_after :
      (i a : ℕ)
      → count_where (run_of i a) (claimed now j db).runs
        ≡ count_where (attempted i a) (claimed now j db).jobs
  unfolding start_job new_run
  history_after i a = ground (
    arith,
    v.history i a,
    no_next_run,
    count_where_snoc (run_of i a) db.runs (new_run now (start_job now j) (suc db.run_seq)),
    update_one (has_id j.id) (attempted i a) (start_job now) db.jobs found_oldest (v.one_job j.id),
  )

  current_after :
      (i a : ℕ)
      → count_where (live_run i a) (claimed now j db).runs
        ≡ count_where (live_job i a) (claimed now j db).jobs
  unfolding start_job new_run
  current_after i a = ground (
    arith,
    v.current i a,
    oldest-eligible now db.jobs e,
    count_where_snoc (live_run i a) db.runs (new_run now (start_job now j) (suc db.run_seq)),
    update_one (has_id j.id) (live_job i a) (start_job now) db.jobs found_oldest (v.one_job j.id),
  )

  pub claimed-IsConsistent : IsConsistent (claimed now j db)
  unfolding start_job new_run
  claimed-IsConsistent = record {
    one_job = λ i.
        rw (update_unseen (has_id j.id) (has_id i) (start_job now) db.jobs (λ x. refl))
          (v.one_job i);
    fresh_job = λ i h.
        rw (update_unseen (has_id j.id) (has_id i) (start_job now) db.jobs (λ x. refl))
          (v.fresh_job i h);
    one_file = λ w p f.
        rw (update_unseen (has_id j.id) (same_file w p f) (start_job now) db.jobs (λ x. refl))
          (v.one_file w p f);
    one_run = λ i. ground (
      arith,
      v.one_run i,
      v.fresh_run (suc db.run_seq),
      count_where_snoc (λ (x : Run). x.id == i) db.runs
          (new_run now (start_job now j) (suc db.run_seq)),
    );
    fresh_run = λ i h. ground (
      arith,
      v.fresh_run i (omega arith),
      count_where_snoc (λ (x : Run). x.id == i) db.runs
          (new_run now (start_job now j) (suc db.run_seq)),
    );
    history = history_after;
    current = current_after;
    sound_jobs = ground (
      arith,
      v.sound_jobs,
      update_one (has_id j.id) unsound_job (start_job now) db.jobs found_oldest (v.one_job j.id),
    );
    sound_runs = ground (
      arith,
      v.sound_runs,
      count_where_snoc unsound_run db.runs (new_run now (start_job now j) (suc db.run_seq)),
    );
  }

pub claim_body_ok :
    (faults : Faults) (now : Time) (db db' : Db) (job : Job)
    → claim_body faults now db ≡ ok (job, db')
    → (j : Job) × (oldest now db.jobs ≡ some j)
      × (job ≡ record (start_job now j) { run_id = suc db.run_seq; attempt = j.attempts + 1 })
      × (db' ≡ claimed now j db)
unfolding claim_body
claim_body_ok faults now db db' job h = elim (Option-cases (oldest now db.jobs)) [
  | inl e ↦ absurd (ground arith)
  | inr (j, e) ↦ (j, e, ground arith, ground arith)
]

pub claim-IsConsistent :
    (faults : Faults) (now : Time) (db : Db)
    → IsConsistent db
    → IsConsistent (claim faults now db).1
unfolding claim
claim-IsConsistent faults now db v =
    transaction_keeps IsConsistent (claim_body faults now) db v (λ job db' h.
      let (j, e, _, after) = claim_body_ok faults now db db' job h in
      rw after (claimed-IsConsistent now db v j e))
