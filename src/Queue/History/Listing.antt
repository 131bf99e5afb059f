-- ===== src/Queue/History/Listing.antt =====
-- The orders, filters and pages of internal/queue/history.go, and the totals of its counts.
use mathlib.Core.List.{Perm}
use mathlib.Core.List.Perm
use slipway.Common.{
  Result, ◌∙◌, count_where_eq, ℕ, ◌+◌, ◌≤◌, pos_part, is_negative, text_eq, Bool, true, false, ◌||◌,
  List, [], ◌∷◌, ◌≡◌, refl, ap, inl, inr, arith, ok, count_where, filter_where, take, drop, All,
  Bool-cases, insert_by, order_by,
}
use slipway.Queue.Types.{
  Error, Status, queued, running, succeeded, failed, Job, JobFilter, QueueCounts, Db, is_queued,
  is_running, is_succeeded, is_failed, status_text,
}
use slipway.Queue.Tx.{no_faults}
use slipway.Queue.History.{
  is_empty, count_jobs, counts, count, has_status, valid_status, newer, selected, select_jobs,
  list_jobs, limit_of,
}

-- Every row is counted in exactly one of the four states.
count_jobs_total :
    (js : List Job)
    → (count_jobs js).queued
        + (count_jobs js).running
        + (count_jobs js).succeeded
        + (count_jobs js).failed
      ≡ (count_jobs js).total
unfolding count_jobs count_where
count_jobs_total [] = refl
count_jobs_total (j ∷ js) = ground (arith, count_jobs_total js)

-- The state that a status word names, as the test of `counts`.
abbrev is_in : Status → Status → Bool
is_in queued s = is_queued s
is_in running s = is_running s
is_in succeeded s = is_succeeded s
is_in failed s = is_failed s

abbrev pub field_of : Status → QueueCounts → ℕ
field_of queued c = c.queued
field_of running c = c.running
field_of succeeded c = c.succeeded
field_of failed c = c.failed

status_text_eq : (s t : Status) → text_eq (status_text t) (status_text s) ≡ is_in s t
unfolding text_eq
status_text_eq queued queued = refl
status_text_eq queued running = refl
status_text_eq queued succeeded = refl
status_text_eq queued failed = refl
status_text_eq running queued = refl
status_text_eq running running = refl
status_text_eq running succeeded = refl
status_text_eq running failed = refl
status_text_eq succeeded queued = refl
status_text_eq succeeded running = refl
status_text_eq succeeded succeeded = refl
status_text_eq succeeded failed = refl
status_text_eq failed queued = refl
status_text_eq failed running = refl
status_text_eq failed succeeded = refl
status_text_eq failed failed = refl

count_has_status :
    (s : Status) (js : List Job)
    → count_where (has_status (status_text s)) js ≡ field_of s (count_jobs js)
unfolding count_jobs
count_has_status queued js = count_where_eq _ _ (λ j. status_text_eq queued j.status) js
count_has_status running js = count_where_eq _ _ (λ j. status_text_eq running j.status) js
count_has_status succeeded js = count_where_eq _ _ (λ j. status_text_eq succeeded j.status) js
count_has_status failed js = count_where_eq _ _ (λ j. status_text_eq failed j.status) js

count_status :
    (s : Status) (db : Db)
    → count no_faults (status_text s) db ≡ ok (count_where (has_status (status_text s)) db.jobs)
unfolding count text_eq
count_status queued db = refl
count_status running db = refl
count_status succeeded db = refl
count_status failed db = refl

-- With no fault, the four counts add up to the total, the total is the count with an empty status,
-- and the count of each status word is its field.
pub counts_agree :
    (db : Db)
    → (c : QueueCounts) × (counts no_faults db ≡ ok c)
      × (c.queued + c.running + c.succeeded + c.failed ≡ c.total)
      × (count no_faults [] db ≡ ok c.total)
      × ((s : Status) → count no_faults (status_text s) db ≡ ok (field_of s c))
unfolding counts count
counts_agree db = (
  count_jobs db.jobs,
  refl,
  count_jobs_total db.jobs,
  (unfold count_jobs in refl),
  (λ s. count_status s db ∙ ap {B = Result Error ℕ} ok (count_has_status s db.jobs)),
)

-- Each row is at least as new as those after it.
abbrev pub IsNewestFirst : List Job → Type 0
IsNewestFirst [] = Unit
IsNewestFirst (j ∷ js) = All (λ (k : Job). k.id ≤ j.id) js × IsNewestFirst js

insert_by-perm : (x : Job) (ys : List Job) → Perm (insert_by newer x ys) (x ∷ ys)
unfolding insert_by
insert_by-perm x [] = Perm.refl (x ∷ [])
insert_by-perm x (y ∷ ys) = elim (Bool-cases (newer y x)) [
  | inl e ↦ rw e (Perm.trans (Perm.cons y (insert_by-perm x ys)) (Perm.swap x y ys))
  | inr e ↦ rw e (Perm.refl (x ∷ y ∷ ys))
]

order_by-perm : (xs : List Job) → Perm (order_by newer xs) xs
unfolding order_by
order_by-perm [] = Perm.refl []
order_by-perm (x ∷ xs) =
    Perm.trans (insert_by-perm x (order_by newer xs)) (Perm.cons x (order_by-perm xs))

All-insert_by :
    (n : ℕ) (x : Job) (ys : List Job)
    → x.id ≤ n
    → All (λ (k : Job). k.id ≤ n) ys
    → All (λ (k : Job). k.id ≤ n) (insert_by newer x ys)
unfolding insert_by
All-insert_by n x [] h a = (h, tt)
All-insert_by n x (y ∷ ys) h a = elim (Bool-cases (newer y x)) [
  | inl e ↦ rw e (a.0, All-insert_by n x ys h a.1)
  | inr e ↦ rw e (h, a)
]

All-weaken :
    (m n : ℕ) (ys : List Job)
    → m ≤ n
    → All (λ (k : Job). k.id ≤ m) ys
    → All (λ (k : Job). k.id ≤ n) ys
All-weaken m n [] h a = tt
All-weaken m n (y ∷ ys) h a = (omega arith, All-weaken m n ys h a.1)

insert_by-IsNewestFirst :
    (x : Job) (ys : List Job) → IsNewestFirst ys → IsNewestFirst (insert_by newer x ys)
unfolding insert_by
insert_by-IsNewestFirst x [] s = (tt, tt)
insert_by-IsNewestFirst x (y ∷ ys) s = elim (Bool-cases (newer y x)) [
  | inl e ↦ rw e (All-insert_by y.id x ys (ground arith) s.0, insert_by-IsNewestFirst x ys s.1)
  | inr e ↦ let le : y.id ≤ x.id = ground arith in rw e ((le, All-weaken y.id x.id ys le s.0), s)
]

order_by-IsNewestFirst : (xs : List Job) → IsNewestFirst (order_by newer xs)
unfolding order_by
order_by-IsNewestFirst [] = tt
order_by-IsNewestFirst (x ∷ xs) =
    insert_by-IsNewestFirst x (order_by newer xs) (order_by-IsNewestFirst xs)

-- The parameters that `ListJobs` does not reject.
pub record IsListable (f : JobFilter) : Type 0 where
  pub status : (is_empty f.status || valid_status f.status) ≡ true
  pub offset : is_negative f.offset ≡ false

list_jobs_eq :
    (f : JobFilter) (db : Db) → IsListable f → list_jobs no_faults f db ≡ ok (select_jobs f db.jobs)
unfolding list_jobs
list_jobs_eq f db l = ground arith

-- With no fault, a listing whose status is empty or a status word and whose offset is not negative
-- returns the part from its offset on, up to its limit (100 where it gives none that is positive),
-- of an arrangement of the rows that its filter selects, in which no row is older than a later one.
pub list_jobs_lem :
    (f : JobFilter) (db : Db)
    → IsListable f
    → (rows : List Job) × Perm rows (filter_where (selected f) db.jobs)
      × IsNewestFirst rows
      × (list_jobs no_faults f db ≡ ok (take (limit_of f.limit) (drop (pos_part f.offset) rows)))
unfolding select_jobs
list_jobs_lem f db l = (
  order_by newer (filter_where (selected f) db.jobs),
  order_by-perm (filter_where (selected f) db.jobs),
  order_by-IsNewestFirst (filter_where (selected f) db.jobs),
  list_jobs_eq f db l,
)
