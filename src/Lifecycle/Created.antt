-- ===== src/Lifecycle/Created.antt =====
-- A run that was just created has an identifier that no run had before.
use multi_tenant_agent_platf.Prelude.{
  ℕ, ◌+◌, [], ◌∷◌, ◌++◌, ◌≡◌, refl, sym, ap, ◌∙◌, arith, String, Bool, true, false, Option, none,
  some, ◌==◌, str_eq, Bool-cases, inl, inr,
}
use multi_tenant_agent_platf.Json.{Value}
use multi_tenant_agent_platf.Error.{AppError, DbError, constraint}
use multi_tenant_agent_platf.Rows.{exists}
use multi_tenant_agent_platf.Exec.{Result, ok, err, pure, raise, attempt, ◌>>=◌}
use multi_tenant_agent_platf.Exec.Inversion.{bind-inv}
use multi_tenant_agent_platf.Db.{Engine, Db, admit}
use multi_tenant_agent_platf.Db.Transaction.{Tx, is_err, run_in, finish, transaction}
use multi_tenant_agent_platf.Db.Runs.{
  RunRecord, run_from_row, run_violation, insert_run, existing_run, inserted_or_existing, new_run,
  create_or_get_run,
}
use multi_tenant_agent_platf.Lifecycle.Once.{fresh_id}

module _ (e : Engine) (t agent_id : ℕ) (key : Option String) where
  -- The run that was there is not reported as created.
  existing_run-old :
      (tx tx' : Tx) (created : RunRecord × Bool)
      → existing_run e t agent_id key tx ≡ (ok created, tx')
      → created.1 ≡ false
  unfolding existing_run pure
  existing_run-old tx tx' created h =
      let (row, u, found, last) = bind-inv _ _ tx tx' created h in ground (arith, last)

  refused-old :
      (error : DbError) (tx tx' : Tx) (created : RunRecord × Bool)
      → inserted_or_existing e t agent_id key (err error) tx ≡ (ok created, tx')
      → created.1 ≡ false
  unfolding inserted_or_existing raise
  refused-old (constraint c) tx tx' created h = elim (Bool-cases (str_eq c "uq_runs_idempotency")) [
    | inl q ↦ existing_run-old tx tx' created (rw q at h)
    | inr q ↦ absurd (ground (arith, h, q))
  ]
  refused-old _ tx tx' created h = absurd (ground (arith, h))

  inserted :
      (row_error : Option DbError) (messages : Value) (db after : Db) (tx : Tx)
      (created : RunRecord × Bool)
      → run_violation (new_run e t agent_id messages key db) db ≡ row_error
      → (inserted_or_existing e t agent_id key
          (admit row_error (new_run e t agent_id messages key db) after db).0
          tx).0
        ≡ ok created
      → created.1 ≡ true
      → exists (λ u. u.id == created.0.id) db.runs ≡ false
  unfolding inserted_or_existing admit pure run_from_row
  inserted none messages db after tx created clear h new =
      let same : (new_run e t agent_id messages key db).id ≡ created.0.id = ground (arith, h) in
      rw (sym same) (fresh_id (new_run e t agent_id messages key db) db clear)
  inserted (some error) messages db after tx created clear h new = absurd (
      ground (
        arith,
        new,
        refused-old error tx (inserted_or_existing e t agent_id key (err error) tx).1 created
            (ap (λ r. (r, (inserted_or_existing e t agent_id key (err error) tx).1)) h),
      ))

transaction-result :
    {A : Type 0} (e : Engine) (r : Result AppError A) (tx : Tx) (db : Db) → (finish e db r tx).0 ≡ r
unfolding finish
transaction-result e (ok a) tx db = refl
transaction-result e (err x) tx db = refl

pub create_or_get_run-fresh :
    (e : Engine) (t agent_id : ℕ) (messages : Value) (key : Option String) (db : Db)
    (created : RunRecord × Bool)
    → (create_or_get_run e t agent_id messages key db).0 ≡ ok created
    → created.1 ≡ true
    → exists (λ u. u.id == created.0.id) db.runs ≡ false
unfolding create_or_get_run transaction ◌>>=◌ attempt run_in insert_run admit
create_or_get_run-fresh e t agent_id messages key db created h new =
    let row = new_run e t agent_id messages key db in
    let after = record db { runs = db.runs ++ row ∷ []; ticks = db.ticks + 1 } in
    let first_step = admit (run_violation row db) row after db in
    inserted e t agent_id key (run_violation row db) messages db after
      (record { db = first_step.1; failed = is_err first_step.0 }) created refl
      (sym (transaction-result e _ _ db) ∙ h) new
