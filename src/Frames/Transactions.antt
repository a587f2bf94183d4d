-- ===== src/Frames/Transactions.antt =====
-- The transactions of `create_agent` and `create_or_get_run`, committed or rolled back.
use multi_tenant_agent_platf.Prelude.{
  ℕ, String, ◌≡◌, refl, false, Option, List, [], ◌∷◌, ◌&&◌, ℤ, not, Bool-cases, inl, inr,
}
use multi_tenant_agent_platf.Json.{Value}
use multi_tenant_agent_platf.Error.{AppError, DbError, constraint}
use multi_tenant_agent_platf.Exec.{Result, ok, err, Exec}
use multi_tenant_agent_platf.Exec.Moves.{
  Moves, IsPreorder, Moves-bind, Moves-pure, Moves-raise, Moves-of_result, Moves-if, Moves-attempt,
}
use multi_tenant_agent_platf.Db.{Engine, Db, AgentRow, RunRow}
use multi_tenant_agent_platf.Db.Transaction.{Tx, run_in, finish, transaction}
use multi_tenant_agent_platf.Db.Agents.{create_agent, add_agent, bind_tools, query_in}
use multi_tenant_agent_platf.Db.Runs.{
  create_or_get_run, new_run, existing_run, inserted_or_existing,
}
use multi_tenant_agent_platf.Frames.{TableWrites, tool_exists-Moves, select_keyed_run-Moves}

-- The transaction's own copy of the tables.
abbrev pub TxMoves : (Db → Db → Type 0) → Tx → Tx → Type 0
TxMoves R before after = R before.db after.db

TxMoves-IsPreorder : {R : Db → Db → Type 0} → IsPreorder R → IsPreorder (TxMoves R)
TxMoves-IsPreorder o = record {
  stay = λ s. o.stay s.db;
  chain = λ s u v f g. o.chain s.db u.db v.db f g;
}

module _ {R : Db → Db → Type 0} (o : IsPreorder R) (e : Engine) where
  run_in-Moves :
      {A : Type 0} (statement : Exec Db DbError A)
      → Moves R statement
      → Moves (TxMoves R) (run_in e statement)
  unfolding run_in
  run_in-Moves statement m = record {
    at = λ tx. elim (Bool-cases (tx.failed && e.aborts)) [
      | inl refused ↦ rw refused (o.stay tx.db)
      | inr open_ ↦ rw open_ (m.at tx.db)
    ];
  }

  query_in-Moves :
      {A : Type 0} (statement : Exec Db DbError A)
      → Moves R statement
      → Moves (TxMoves R) (query_in e statement)
  unfolding query_in
  query_in-Moves statement m = record { at = (run_in-Moves statement m).at }

  finish-Moves :
      {A : Type 0} (before : Db) (r : Result AppError A) (tx : Tx)
      → R before tx.db
      → R before (finish e before r tx).1
  unfolding finish
  finish-Moves before (ok a) tx h = elim (Bool-cases (tx.failed && e.aborts)) [
    | inl gone ↦ rw gone (o.stay before)
    | inr done ↦ rw done h
  ]
  finish-Moves before (err x) tx h = o.stay before

  transaction-Moves :
      {A : Type 0} (body : Exec Tx AppError A)
      → Moves (TxMoves R) body
      → Moves R (transaction e body)
  unfolding transaction
  transaction-Moves body m = record {
    at = λ db. finish-Moves db _ _ (m.at (record { db = db; failed = false }));
  }

module _ {R : Db → Db → Type 0} (o : IsPreorder R) (e : Engine) (a : ℕ)
    (w : TableWrites R e a) where
  bind_tools-Moves :
      (now agent_id : ℕ) (tool_ids : List ℕ)
      → Moves (TxMoves R) (bind_tools e now a agent_id tool_ids)
  unfolding bind_tools
  bind_tools-Moves now agent_id [] = Moves-pure (TxMoves-IsPreorder o) tt
  bind_tools-Moves now agent_id (tool_id ∷ tool_ids) =
      let p = TxMoves-IsPreorder o in
      Moves-bind p _ _ (query_in-Moves o e _ (tool_exists-Moves o a tool_id)) λ found.
        Moves-if p (not found) _ _ (Moves-raise p _) (
          Moves-bind p _ _ (query_in-Moves o e _ (w.binding _ refl))
            λ _. bind_tools-Moves now agent_id tool_ids)

  add_agent-Moves : (row : AgentRow) → row.tenant_id ≡ a → Moves (TxMoves R) (add_agent e row)
  unfolding add_agent
  add_agent-Moves row own =
      let p = TxMoves-IsPreorder o in
      Moves-bind p _ _ (Moves-attempt AppError _ (run_in-Moves o e _ (w.agent row own)))
        λ result. Moves-bind p _ _ (Moves-of_result p _) λ inserted. Moves-pure p _

  pub create_agent-Moves :
      (name : Option String) (prompt : String) (tool_ids : List ℕ) (max_iterations : ℤ)
      → Moves R (create_agent e a name prompt tool_ids max_iterations)
  unfolding create_agent
  create_agent-Moves name prompt tool_ids max_iterations = record {
    at = λ db.
        let p = TxMoves-IsPreorder o in
        (transaction-Moves o e _ (
            Moves-bind p _ _ (add_agent-Moves _ refl) λ agent.
              Moves-bind p _ _ (bind_tools-Moves _ agent.id tool_ids) λ _. Moves-pure p agent)).at
          db;
  }

  existing_run-Moves :
      (agent_id : ℕ) (key : Option String) → Moves (TxMoves R) (existing_run e a agent_id key)
  unfolding existing_run
  existing_run-Moves agent_id key =
      let p = TxMoves-IsPreorder o in
      Moves-bind p _ _ (query_in-Moves o e _ (select_keyed_run-Moves o a agent_id key))
        λ row. Moves-pure p _

  inserted_or_existing-Moves :
      (agent_id : ℕ) (key : Option String) (r : Result DbError RunRow)
      → Moves (TxMoves R) (inserted_or_existing e a agent_id key r)
  unfolding inserted_or_existing
  inserted_or_existing-Moves agent_id key (ok row) = Moves-pure (TxMoves-IsPreorder o) _
  inserted_or_existing-Moves agent_id key (err (constraint c)) =
      let p = TxMoves-IsPreorder o in
      Moves-if p _ _ _ (existing_run-Moves agent_id key) (Moves-raise p _)
  inserted_or_existing-Moves agent_id key (err _) = Moves-raise (TxMoves-IsPreorder o) _

  pub create_or_get_run-Moves :
      (agent_id : ℕ) (messages : Value) (key : Option String)
      → Moves R (create_or_get_run e a agent_id messages key)
  unfolding create_or_get_run new_run
  create_or_get_run-Moves agent_id messages key = record {
    at = λ db.
        let p = TxMoves-IsPreorder o in
        (transaction-Moves o e _ (
            Moves-bind p _ _ (Moves-attempt AppError _ (run_in-Moves o e _ (w.run _ refl)))
              (inserted_or_existing-Moves agent_id key))).at
          db;
  }
