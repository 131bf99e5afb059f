-- ===== src/Queue/Tx.antt =====
-- Transactions of internal/queue (`BeginTx`, `Commit`, the deferred `rollback` of store.go): a
-- body that fails loses what it wrote. Statements fail where the environment says so.
use slipway.Common.{
  ℕ, Bool, true, false, inl, inr, Result, Result-cases, ok, err, ◌≡◌, count_where, update_where,
  ◌==◌,
}
use slipway.Queue.Types.{Job, Run, CommandExecution, Db, Error, database, invalid_transition}

-- Which statements of an operation the database refuses, by their position in its code.
abbrev pub Faults : Type 0
Faults = ℕ → Bool

abbrev pub no_faults : Faults
no_faults i = false

abbrev pub Tx : Type 0 → Type 0
Tx A = Db → Result Error (A × Db)

infixl 5 ◌>>=◌ ◌>>◌
abbrev pub ◌>>=◌ : {A B : Type 0} → Tx A → (A → Tx B) → Tx B
◌>>=◌ m f db = elim (m db) [ ok (a, db') ↦ f a db' | err e ↦ err e ]

abbrev pub ◌>>◌ : {B : Type 0} → Tx (Unit {0}) → Tx B → Tx B
m >> n = m >>= λ _. n

abbrev pub pure : {A : Type 0} → A → Tx A
pure a db = ok (a, db)

abbrev pub raise : {A : Type 0} → Error → Tx A
raise e db = err e

-- A statement that the database may refuse.
abbrev pub statement : Bool → Tx (Unit {0})
statement true db = err database
statement false db = ok (tt, db)

-- The rows affected come back, as `RowsAffected` counts them.
abbrev pub update_jobs : (Job → Bool) → (Job → Job) → Tx ℕ
update_jobs p f db = ok (count_where p db.jobs, record db { jobs = update_where p f db.jobs })

abbrev pub update_runs : (Run → Bool) → (Run → Run) → Tx ℕ
update_runs p f db = ok (count_where p db.runs, record db { runs = update_where p f db.runs })

abbrev pub update_commands :
    (CommandExecution → Bool) → (CommandExecution → CommandExecution) → Tx ℕ
update_commands p f db =
    ok (count_where p db.commands, record db { commands = update_where p f db.commands })

abbrev pub require_one_row : ℕ → Tx (Unit {0})
require_one_row n db = elim (n == 1) [ true ↦ ok (tt, db) | false ↦ err invalid_transition ]

-- On an error the deferred rollback leaves the database as it was.
abbrev pub transaction : {A : Type 0} → Tx A → Db → Result Error A × Db
transaction m db = elim (m db) [ ok (a, db') ↦ (ok a, db') | err e ↦ (err e, db) ]

-- What holds before, and after every success of the body, holds after the transaction.
pub transaction_keeps :
    {A : Type 0} (P : Db → Type 0) (m : Tx A) (db : Db)
    → P db
    → ((a : A) (db' : Db) → m db ≡ ok (a, db') → P db')
    → P (transaction m db).1
transaction_keeps P m db before after = elim (Result-cases (m db)) [
  | inl ((a, db'), e) ↦ rw (e, transaction) (after a db' e)
  | inr (x, e) ↦ rw (e, transaction) before
]
