-- ===== src/Idempotency/Creation.antt =====
-- What `create_or_get_run` does with a new key and with one that is taken.
use multi_tenant_agent_platf.Prelude.{
  ℕ, ◌+◌, String, ◌≡◌, refl, Option, none, some, true, false, List, [], ◌∷◌, ◌++◌, arith,
  if◌then◌else◌, Bool, ◌==◌, inl, inr, Bool-cases, ap, ◌∙◌, ==_refl, eq_refl,
}
use multi_tenant_agent_platf.Rows.Filtered.{select-insert, select-nil}
use multi_tenant_agent_platf.Json.{Value, is_array}
use multi_tenant_agent_platf.Error.{AppError, DbError, constraint, in_failed_transaction}
use multi_tenant_agent_platf.Error
use multi_tenant_agent_platf.Exec.{ok, err, pure, attempt, ◌>>=◌}
use multi_tenant_agent_platf.Rows.{select, first, exists}
use multi_tenant_agent_platf.Db.{Engine, Db, RunRow, admit, fetch_one, lift_db}
use multi_tenant_agent_platf.Db.Transaction.{run_in, finish, transaction}
use multi_tenant_agent_platf.Db.Agents.{query_in}
use multi_tenant_agent_platf.Db.Runs.{
  run_from_row, keyed_run_at, run_violation, insert_run, select_keyed_run, existing_run,
  inserted_or_existing, new_run, create_or_get_run,
}

exists-first :
    {A : Type 0} (p : A → Bool) (xs : List A) (x : A)
    → first (select p xs) ≡ some x
    → exists p xs ≡ true
unfolding select exists
exists-first p [] x h = absurd (ground arith)
exists-first p (y ∷ ys) x h = ground (arith, exists-first p ys x)

module _ (e : Engine) (tenant_id agent_id : ℕ) (messages : Value) (key : Option String)
    (db : Db) where
  abbrev row : RunRow
  row = new_run e tenant_id agent_id messages key db

  taken :
      (existing : RunRow)
      → is_array messages ≡ true
      → exists (λ u. u.id == e.gen_random_uuid db.ticks) db.runs ≡ false
      → first (select (keyed_run_at tenant_id agent_id key) db.runs) ≡ some existing
      → run_violation row db ≡ some (constraint "uq_runs_idempotency")
  unfolding run_violation new_run
  taken existing array fresh found = rw (array, fresh, exists-first _ db.runs existing found) refl

  -- A run that no constraint refuses is inserted, and reported as created.
  pub create_or_get_run-new :
      run_violation row db ≡ none
      → create_or_get_run e tenant_id agent_id messages key db ≡ (
        ok (run_from_row row, true),
        record db { runs = db.runs ++ row ∷ []; ticks = db.ticks + 1 },
      )
  unfolding create_or_get_run transaction run_in attempt insert_run admit inserted_or_existing
      finish ◌>>=◌ pure
  create_or_get_run-new clear = rw clear refl

  pub create_or_get_run-taken :
      (existing : RunRow)
      → is_array messages ≡ true
      → exists (λ u. u.id == e.gen_random_uuid db.ticks) db.runs ≡ false
      → first (select (keyed_run_at tenant_id agent_id key) db.runs) ≡ some existing
      → create_or_get_run e tenant_id agent_id messages key db ≡ (
        (if e.aborts
            then err (Error.db in_failed_transaction)
            else ok (run_from_row existing, false)),
        db,
      )
  unfolding create_or_get_run transaction run_in attempt insert_run admit inserted_or_existing
      existing_run query_in select_keyed_run fetch_one lift_db finish ◌>>=◌ pure
  create_or_get_run-taken existing array fresh found = elim (Bool-cases e.aborts) [
    | inl q ↦ rw (taken existing array fresh found, found, q) refl
    | inr q ↦ rw (taken existing array fresh found, found, q) refl
  ]

-- The key's own row is all that the query by the key gives.
select-keyed :
    (e : Engine) (tenant_id agent_id : ℕ) (messages : Value) (key : String) (db : Db)
    → run_violation (new_run e tenant_id agent_id messages (some key) db) db ≡ none
    → first (
        select
          (keyed_run_at tenant_id agent_id (some key))
          (db.runs ++ new_run e tenant_id agent_id messages (some key) db ∷ []))
      ≡ some (new_run e tenant_id agent_id messages (some key) db)
unfolding run_violation new_run
select-keyed e tenant_id agent_id messages key db clear =
    let unused : exists (keyed_run_at tenant_id agent_id (some key)) db.runs ≡ false =
      ground arith in
    rw
      (
        select-insert (keyed_run_at tenant_id agent_id (some key)) db.runs
            (new_run e tenant_id agent_id messages (some key) db)
            (ground (arith, ==_refl tenant_id, ==_refl agent_id, eq_refl key)),
        select-nil (keyed_run_at tenant_id agent_id (some key)) db.runs unused,
      )
      refl

-- A request with a new idempotency key, which no constraint refuses, creates a run; a second request
-- with the same key for the same tenant and agent, whatever array of messages it has, changes nothing. On an
-- engine that goes on after a failed statement, the second one answers with the run that the first
-- one created, as not created. On one that aborts the transaction, as PostgreSQL does, it answers
-- with the error that the engine gives to the SELECT. The second run's fresh id is taken to be free.
pub create_or_get_run_twice :
    (e : Engine) (tenant_id agent_id : ℕ) (messages again : Value) (key : String) (db db' : Db)
    → run_violation (new_run e tenant_id agent_id messages (some key) db) db ≡ none
    → is_array again ≡ true
    → db' ≡ (create_or_get_run e tenant_id agent_id messages (some key) db).1
    → exists (λ u. u.id == e.gen_random_uuid db'.ticks) db'.runs ≡ false
    → let created = run_from_row (new_run e tenant_id agent_id messages (some key) db) in
      ((create_or_get_run e tenant_id agent_id messages (some key) db).0 ≡ ok (created, true))
      × (create_or_get_run e tenant_id agent_id again (some key) db'
          ≡ ((if e.aborts then err (Error.db in_failed_transaction) else ok (created, false)), db'))
create_or_get_run_twice e tenant_id agent_id messages again key db db' clear array after fresh =
    let first_call = create_or_get_run-new e tenant_id agent_id messages (some key) db clear in
    let same : db'.runs ≡ db.runs ++ new_run e tenant_id agent_id messages (some key) db ∷ [] =
      ap (λ d. d.runs) after ∙ ap (λ r. r.1.runs) first_call in
    (
      ap (λ r. r.0) first_call,
      create_or_get_run-taken e tenant_id agent_id again (some key) db'
          (new_run e tenant_id agent_id messages (some key) db) array fresh
          (rw same (select-keyed e tenant_id agent_id messages key db clear)),
    )
