-- ===== src/Db/Transaction.antt =====
-- `db.begin()` … `tx.commit()` in server/src/db.rs: a transaction works on its own copy of the
-- tables, which COMMIT publishes and which every other way out drops.
use multi_tenant_agent_platf.Prelude.{Bool, true, false, ◌&&◌, ◌||◌, if◌then◌else◌}
use multi_tenant_agent_platf.Error.{DbError, AppError, in_failed_transaction}
use multi_tenant_agent_platf.Exec.{Result, ok, err, Exec}
use multi_tenant_agent_platf.Db.{Engine, Db, Action}

pub record Tx : Type 0 where
  pub db : Db
  pub failed : Bool

abbrev pub is_err : {A : Type 0} → Result DbError A → Bool
is_err (ok a) = false
is_err (err e) = true

-- A statement in the transaction. After a failed one, an engine that aborts refuses it.
unfoldable pub run_in : {A : Type 0} → Engine → Exec Db DbError A → Exec Tx DbError A
run_in e statement tx =
    if tx.failed && e.aborts
    then (err in_failed_transaction, tx)
    else let (r, db') = statement tx.db in (r, record { db = db'; failed = tx.failed || is_err r })

-- COMMIT of a failed transaction rolls back on an engine that aborts.
unfoldable pub finish : {A : Type 0} → Engine → Db → Result AppError A → Tx → Result AppError A × Db
finish e before (ok a) tx = (ok a, if tx.failed && e.aborts then before else tx.db)
finish e before (err x) tx = (err x, before)

unfoldable pub transaction : {A : Type 0} → Engine → Exec Tx AppError A → Action A
unfolding finish
transaction e body db = let (r, tx) = body (record { db = db; failed = false }) in finish e db r tx
