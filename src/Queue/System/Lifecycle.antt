-- ===== src/Queue/System/Lifecycle.antt =====
-- The life of a job across the calls to internal/queue's `Store`, as a diagram over its rows.
use slipway.Common.{
  is_blank, is_negative, [], ◌∷◌, ℕ, suc, ◌≤◌, ℤ, pos_part, is_positive, Text, Bool, true, not,
  ◌||◌, some, List, ◌≡◌, refl, ap, arith, ◌==◌, Bool-cases, Option-cases, inl, inr, find_where,
  find_where_sound, find_where_narrow, find_where-update_where, find_where-append, updated,
  update_where, ◌⊎◌,
}
use slipway.Queue.Types.{
  Time, Status, queued, running, succeeded, failed, Job, Db, EnqueueParams, is_running,
}
use slipway.Queue.Tx.{Faults, transaction, transaction_keeps}
use slipway.Queue.Jobs.{
  running_job, succeed_job, fail_job, requeue_job, start_job, new_job, claim, claim_body, succeed,
  succeed_body, fail, fail_body, recover_running, recover_body, enqueue, insert_job,
}
use slipway.Queue.Commands.{start_command, complete_command}
use slipway.Queue.Invariant.Entries.{key_of, start_command-tables, complete_command-tables}
use slipway.Queue.System.{
  Op, enqueues, claims, succeeds, fails, recovers, completes, Call, perform, step, run,
}
use slipway.Queue.System.Runs.{perform-IsConsistent}
use slipway.Queue.Invariant.Defs.{IsConsistent}
use slipway.Queue.Invariant.Outcomes.{succeed_body_ok, fail_body_ok}
use slipway.Queue.Invariant.Recovery.{recover_body_ok, job_is_running}
use slipway.Queue.Invariant.Claiming.{has_id, claim_body_ok, oldest-eligible, found_oldest}

-- What one call may make of a row of `jobs`.
pub data Moves (j : Job) : Job → Type 0 where
  stays : Moves j j
  starts : (now : Time) → j.status ≡ queued → j.available_at ≤ now → Moves j (start_job now j)
  wins : (now : Time) → j.status ≡ running → Moves j (succeed_job now j)
  loses :
      (now : Time) (delay : ℕ) (reason : Text)
      → j.status ≡ running
      → Moves j (fail_job now delay reason j.attempts j.max_retries j)
  requeues : (now : Time) → j.status ≡ running → Moves j (requeue_job now j)

-- A row and what became of it, found by the id.
pub record Follows (i : ℕ) (j : Job) (db : Db) : Type 0 where
  pub row : Job
  pub found : find_where (has_id i) db.jobs ≡ some row
  pub moves : Moves j row

is_running_eq : (s : Status) → is_running s ≡ true → s ≡ running
is_running_eq s h = ground arith

module _ (i : ℕ) (j : Job) (db : Db) (v : IsConsistent db)
    (here : find_where (has_id i) db.jobs ≡ some j) where
  unmoved : Follows i j db
  unmoved = record { row = j; found = here; moves = stays }

  -- An update of rows that leaves their ids.
  follow_update :
      (p : Job → Bool) (f : Job → Job) (db' : Db)
      → db'.jobs ≡ update_where p f db.jobs
      → ((x : Job) → (f x).id ≡ x.id)
      → (p j ≡ true → Moves j (f j))
      → Follows i j db'
  follow_update p f db' e same moved = record {
    row = updated p f j;
    found = rw e (
        find_where-update_where p (has_id i) f db.jobs (λ x. ap (λ (n : ℕ). n == i) (same x)) here);
    moves = elim (Bool-cases (p j)) [ inl t ↦ rw t (moved t) | inr t ↦ rw t stays ];
  }

  same_row : (k : ℕ) (x : Job) → find_where (has_id k) db.jobs ≡ some x → j.id ≡ k → x ≡ j
  same_row k x found e =
      let e' : k ≡ i = ground (arith, find_where_sound (has_id i) db.jobs here) in
      ground (arith, here, (rw e' at found))

  Follows-claim : (faults : Faults) (now : Time) → Follows i j (claim faults now db).1
  unfolding claim
  Follows-claim faults now =
      transaction_keeps (Follows i j) (claim_body faults now) db unmoved (λ job db' h.
        let (k, e, _, after) = claim_body_ok faults now db db' job h in
        follow_update (has_id k.id) (start_job now) db' (ap (λ (d : Db). d.jobs) after)
          (unfold start_job in λ x. refl)
          (λ t.
            let e' : k ≡ j = same_row k.id k (found_oldest now db v k e) (ground arith) in
            let able = rw e' at (oldest-eligible now db.jobs e) in
            starts now (ground arith) (ground arith)))

  Follows-succeed :
      (faults : Faults) (now : Time) (job_id run_id : ℤ)
      → Follows i j (succeed faults now job_id run_id db).1
  unfolding succeed
  Follows-succeed faults now job_id run_id =
      elim (Bool-cases (not (is_positive job_id) || not (is_positive run_id))) [
        | inl e ↦ rw e unmoved
        | inr e ↦ rw e (
            transaction_keeps (Follows i j)
              (succeed_body faults now (pos_part job_id) (pos_part run_id)) db unmoved
              (λ _ db' h.
                let (_, _, after) =
                  succeed_body_ok faults now (pos_part job_id) (pos_part run_id) db db' h in
                follow_update (running_job (pos_part job_id)) (succeed_job now) db'
                  (ap (λ (d : Db). d.jobs) after) (λ x. refl)
                  (λ t. wins now (is_running_eq j.status (ground arith)))))
      ]

  Follows-fail_body :
      (faults : Faults) (now : Time) (job_id run_id : ℕ) (reason : Text) (delay : ℕ)
      → Follows i j (transaction (fail_body faults now job_id run_id reason delay) db).1
  Follows-fail_body faults now job_id run_id reason delay =
      transaction_keeps (Follows i j) (fail_body faults now job_id run_id reason delay) db unmoved
        (λ status db' h.
          let (k, _, found, _, _, after) =
            fail_body_ok faults now job_id run_id reason delay db db' status h in
          follow_update (running_job job_id) (fail_job now delay reason k.attempts k.max_retries)
            db' (ap (λ (d : Db). d.jobs) after) (unfold fail_job in λ x. refl)
            (λ t.
              let e : i ≡ job_id = ground (arith, t, find_where_sound (has_id i) db.jobs here) in
              let found_j : find_where (running_job job_id) db.jobs ≡ some j =
                find_where_narrow (running_job job_id) (has_id job_id) db.jobs (λ x. ground arith)
                  (rw e at here) t in
              let e' : k ≡ j = ground (arith, found, found_j) in
              rw e' (loses now delay reason (is_running_eq j.status (ground arith)))))

  Follows-fail :
      (faults : Faults) (now : Time) (job_id run_id : ℤ) (reason : Text) (delay : ℤ)
      → Follows i j (fail faults now job_id run_id reason delay db).1
  unfolding fail
  Follows-fail faults now job_id run_id reason delay =
      elim (Bool-cases (not (is_positive job_id) || not (is_positive run_id))) [
        | inl e ↦ rw e unmoved
        | inr e ↦ rw e (
            Follows-fail_body faults now (pos_part job_id) (pos_part run_id) reason
              (pos_part delay))
      ]

  Follows-recover_running :
      (faults : Faults) (now : Time) → Follows i j (recover_running faults now db).1
  unfolding recover_running
  Follows-recover_running faults now =
      transaction_keeps (Follows i j) (recover_body faults now) db unmoved (λ n db' h.
        follow_update job_is_running (requeue_job now) db'
          (ap (λ (d : Db). d.jobs) (recover_body_ok faults now db db' n h).1) (λ x. refl)
          (λ t. requeues now (is_running_eq j.status t)))

  -- An operation that leaves the table of jobs.
  follow_same : (db' : Db) → db'.jobs ≡ db.jobs → Follows i j db'
  follow_same db' e = record { row = j; found = rw e here; moves = stays }

  Follows-insert_job :
      (faults : Faults) (now : Time) (p : EnqueueParams)
      → Follows i j (insert_job faults now p db).1
  unfolding insert_job
  Follows-insert_job faults now p = elim (Bool-cases (faults 0)) [
    | inl e ↦ rw e unmoved
    | inr e ↦ elim (Option-cases (find_where (key_of p) db.jobs)) [
      | inl new ↦
          rw (e, new)
            (record {
              row = j;
              found =
                  find_where-append (has_id i) db.jobs (new_job p now (suc db.job_seq) ∷ []) here;
              moves = stays;
            })
      | inr (k, old) ↦ rw (e, old) unmoved
    ]
  ]

  Follows-enqueue :
      (faults : Faults) (now : Time) (p : EnqueueParams) → Follows i j (enqueue faults now p db).1
  unfolding enqueue
  Follows-enqueue faults now p = elim (Bool-cases (is_blank p.watch_name)) [
    | inl e ↦ rw e unmoved
    | inr e ↦ elim (Bool-cases (is_blank p.path)) [
      | inl f ↦ rw (e, f) unmoved
      | inr f ↦ elim (Bool-cases (is_negative p.max_retries)) [
        | inl g ↦ rw (e, f, g) unmoved
        | inr g ↦ rw (e, f, g) (Follows-insert_job faults now p)
      ]
    ]
  ]

  Follows-perform :
      (op : Op) (faults : Faults) (now : Time) → Follows i j (perform op faults now db)
  Follows-perform (enqueues p) faults now = Follows-enqueue faults now p
  Follows-perform claims faults now = Follows-claim faults now
  Follows-perform (succeeds k r) faults now = Follows-succeed faults now k r
  Follows-perform (fails k r reason delay) faults now = Follows-fail faults now k r reason delay
  Follows-perform recovers faults now = Follows-recover_running faults now
  Follows-perform (Op.starts c) faults now =
      follow_same (start_command faults now c db).1
        (ap (λ (d : Db). d.jobs) (start_command-tables faults now c db))
  Follows-perform (completes id r) faults now =
      follow_same (complete_command faults now id r db).1
        (ap (λ (d : Db). d.jobs) (complete_command-tables faults now id r db))

-- One call, on a consistent database, leaves the row of each job where it is, or moves it along
-- one edge of the diagram: a queued job that is due may start, a running one may succeed, fail with
-- the outcome that its own attempts and retries decide, or be requeued.
pub step-Follows :
    (i : ℕ) (j : Job) (db : Db) (c : Call)
    → IsConsistent db
    → find_where (has_id i) db.jobs ≡ some j
    → Follows i j (step db c)
step-Follows i j db c v here = Follows-perform i j db v here c.op c.faults c.now

abbrev pub IsOver : Job → Type 0
IsOver j = (j.status ≡ succeeded) ⊎ (j.status ≡ failed)

over_stays : (j k : Job) → Moves j k → IsOver j → k ≡ j
over_stays j k stays h = refl
over_stays j k (starts now e d) h = absurd (ground arith)
over_stays j k (wins now e) h = absurd (ground arith)
over_stays j k (loses now delay reason e) h = absurd (ground arith)
over_stays j k (requeues now e) h = absurd (ground arith)

-- A job that has succeeded or failed keeps its row, every column of it, through any further calls,
-- the recoveries after a crash among them.
pub over_is_final :
    (cs : List Call) (i : ℕ) (j : Job) (db : Db)
    → IsConsistent db
    → find_where (has_id i) db.jobs ≡ some j
    → IsOver j
    → find_where (has_id i) (run db cs).jobs ≡ some j
unfolding run
over_is_final [] i j db v here h = here
over_is_final (c ∷ cs) i j db v here h =
    let f = step-Follows i j db c v here in
    over_is_final cs i j (step db c) (perform-IsConsistent c.op c.faults c.now db v)
      (rw (over_stays j f.row f.moves h) at f.found) h
