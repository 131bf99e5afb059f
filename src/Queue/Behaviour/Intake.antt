-- ===== src/Queue/Behaviour/Intake.antt =====
-- `Enqueue` of internal/queue/jobs.go: a file is entered once, however often it is discovered.
use slipway.Common.{
  ◌∙◌, ◌⊎◌, ℕ, suc, text_eq_iff, is_blank, is_negative, true, false, none, some, ◌≡◌, inl, inr,
  refl, arith, ok, find_where, Option-cases, find_where_snoc,
}
use slipway.Queue.Types.{Time, Job, EnqueueParams, Db}
use slipway.Queue.Tx.{no_faults}
use slipway.Queue.Jobs.{new_job, insert_job, enqueue}
use slipway.Queue.Invariant.Entries.{entered, key_of}

-- The parameters that `Enqueue` does not reject.
pub record IsAcceptable (p : EnqueueParams) : Type 0 where
  pub watch_name : is_blank p.watch_name ≡ false
  pub path : is_blank p.path ≡ false
  pub max_retries : is_negative p.max_retries ≡ false

-- Two discoveries of the same file by the same watch.
pub record IsSameFile (p q : EnqueueParams) : Type 0 where
  pub watch_name : p.watch_name ≡ q.watch_name
  pub path : p.path ≡ q.path
  pub fingerprint : p.fingerprint ≡ q.fingerprint

enqueue_insert :
    (now : Time) (p : EnqueueParams) (db : Db)
    → IsAcceptable p
    → enqueue no_faults now p db ≡ insert_job no_faults now p db
unfolding enqueue
enqueue_insert now p db a = rw (a.watch_name, a.path, a.max_retries)

insert_old :
    (now : Time) (p : EnqueueParams) (db : Db) (j : Job)
    → find_where (key_of p) db.jobs ≡ some j
    → insert_job no_faults now p db ≡ (ok (j, false), db)
unfolding insert_job
insert_old now p db j e = rw e

insert_new :
    (now : Time) (p : EnqueueParams) (db : Db)
    → find_where (key_of p) db.jobs ≡ none
    → insert_job no_faults now p db ≡ (ok (new_job p now (suc db.job_seq), true), entered now p db)
unfolding insert_job
insert_new now p db e = rw e

new_job_key : (now : Time) (p : EnqueueParams) (n : ℕ) → key_of p (new_job p now n) ≡ true
unfolding new_job
new_job_key now p n = ground (
  arith,
  (text_eq_iff p.watch_name p.watch_name).1 refl,
  (text_eq_iff p.path p.path).1 refl,
  (text_eq_iff p.fingerprint p.fingerprint).1 refl,
)

key_of_same : (p q : EnqueueParams) → IsSameFile p q → key_of q ≡ key_of p
key_of_same p q s = rw (s.watch_name, s.path, s.fingerprint)

enqueue_old :
    (now : Time) (p : EnqueueParams) (db : Db) (j : Job)
    → IsAcceptable p
    → find_where (key_of p) db.jobs ≡ some j
    → enqueue no_faults now p db ≡ (ok (j, false), db)
enqueue_old now p db j a e = enqueue_insert now p db a ∙ insert_old now p db j e

-- With no fault, an acceptable file that no row holds is entered as a new queued job at the end of
-- the table; one that a row holds already returns that row, marked as not new, and changes nothing;
-- and a second discovery of the same file after either, at any time and with any settings that are
-- acceptable, returns the same row and changes nothing.
pub enqueue_once :
    (now later : Time) (p q : EnqueueParams) (db : Db)
    → IsAcceptable p
    → IsAcceptable q
    → IsSameFile p q
    → (j : Job) × (db' : Db) × (((find_where (key_of p) db.jobs ≡ some j)
          × (db' ≡ db)
          × (enqueue no_faults now p db ≡ (ok (j, false), db')))
        ⊎ ((find_where (key_of p) db.jobs ≡ none)
            × (j ≡ new_job p now (suc db.job_seq))
            × (db' ≡ entered now p db)
            × (enqueue no_faults now p db ≡ (ok (j, true), db'))))
      × (enqueue no_faults later q db' ≡ (ok (j, false), db'))
enqueue_once now later p q db a b s = elim (Option-cases (find_where (key_of p) db.jobs)) [
  | inr (j, e) ↦ (
    j,
    db,
    inl (e, refl, enqueue_old now p db j a e),
    enqueue_old later q db j b (rw (key_of_same p q s) e),
  )
  | inl e ↦
      let j = new_job p now (suc db.job_seq) in
      (
        j,
        entered now p db,
        inr (e, refl, refl, enqueue_insert now p db a ∙ insert_new now p db e),
        enqueue_old later q (entered now p db) j b (
            rw (key_of_same p q s)
              (find_where_snoc (key_of p) db.jobs j e (new_job_key now p (suc db.job_seq)))),
      )
]
