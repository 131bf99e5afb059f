-- ===== src/Queue/Behaviour/Order.antt =====
-- `Claim` of internal/queue/jobs.go takes the oldest eligible job.
use slipway.Common.{
  unmet_at, suc, ◌+◌, ◌≤◌, ◌<◌, true, none, some, List, [], ◌∷◌, ◌≡◌, refl, arith, ok, err,
  count_where, Option-cases, inl, inr, ◌⊎◌,
}
use mathlib.Core.List.{Memᴰ}
use slipway.Queue.Types.{Time, Job, Db, no_job}
use slipway.Queue.Tx.{no_faults}
use slipway.Queue.Jobs.{eligible, oldest, start_job, claim}
use slipway.Queue.Invariant.Defs.{IsConsistent}
use slipway.Queue.Invariant.Claiming.{oldest-eligible, oldest-mem, claimed, no_next_run}

-- `a` stands no later than `b` in the order of `available_at` and then `id`.
abbrev pub IsNoLater : Job → Job → Type 0
IsNoLater a b =
    (a.available_at < b.available_at) ⊎ ((a.available_at ≡ b.available_at) × (a.id ≤ b.id))

oldest-none :
    (now : Time) (js : List Job) → oldest now js ≡ none → count_where (eligible now) js ≡ 0
unfolding oldest count_where
oldest-none now [] h = refl
oldest-none now (x ∷ xs) h = ground (arith, oldest-none now xs)

oldest_first :
    (now : Time) (js : List Job) {j : Job} (k : Job)
    → oldest now js ≡ some j
    → Memᴰ k js
    → eligible now k ≡ true
    → IsNoLater j k
unfolding oldest
oldest_first now [] k h m e = elim m [ ]
oldest_first now (x ∷ xs) {j} k h (Memᴰ.head p) e =
    let e' : eligible now x ≡ true = rw p at e in
    rw p (elim (Option-cases (oldest now xs)) [
      | inl o ↦ ground (arith, e', h, o)
      | inr (y, o) ↦ ground (arith, e', h, o)
    ])
oldest_first now (x ∷ xs) {j} k h (Memᴰ.tail m) e = elim (Option-cases (oldest now xs)) [
  | inl o ↦ cc (e, unmet_at (eligible now) xs m (oldest-none now xs o))
  | inr (y, o) ↦ ground (arith, h, o, oldest_first now xs {j = y} k o m e)
]

module _ (now : Time) (db : Db) (v : IsConsistent db) where
  claim_empty : oldest now db.jobs ≡ none → claim no_faults now db ≡ (err no_job, db)
  unfolding claim
  claim_empty e = ground arith

  claim-some :
      (j : Job)
      → oldest now db.jobs ≡ some j
      → claim no_faults now db ≡ (
        ok (record (start_job now j) { run_id = suc db.run_seq; attempt = j.attempts + 1 }),
        claimed now j db,
      )
  unfolding claim
  claim-some j e = ground (arith, e, no_next_run now db v j e)

  -- With no fault, a claim on a consistent database reports that there is no job, and changes
  -- nothing, where no row is queued and due; otherwise it takes a row that is, and that no other such
  -- row precedes by the time from which it is available and then by id. That job is returned with
  -- its next attempt and the new run, and becomes the running job of that run in the tables.
  pub claim_oldest :
      (count_where (eligible now) db.jobs ≡ 0) × (claim no_faults now db ≡ (err no_job, db))
      ⊎ ((j : Job) × Memᴰ j db.jobs
          × (eligible now j ≡ true)
          × ((k : Job) → Memᴰ k db.jobs → eligible now k ≡ true → IsNoLater j k)
          × (claim no_faults now db ≡ (
            ok (record (start_job now j) { run_id = suc db.run_seq; attempt = j.attempts + 1 }),
            claimed now j db,
          )))
  claim_oldest = elim (Option-cases (oldest now db.jobs)) [
    | inl e ↦ inl (oldest-none now db.jobs e, claim_empty e)
    | inr (j, e) ↦ inr (
      j,
      oldest-mem now db.jobs e,
      oldest-eligible now db.jobs e,
      (λ k m f. oldest_first now db.jobs k e m f),
      claim-some j e,
    )
  ]
