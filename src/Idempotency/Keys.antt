-- ===== src/Idempotency/Keys.antt =====
-- No history of the server stores two runs under one key.
use multi_tenant_agent_platf.Prelude.{
  ℕ, String, ◌≡◌, refl, sym, ◌∙◌, Option, none, some, true, false, List, [], ◌∷◌, ◌++◌, arith, Bool,
  inl, inr, Bool-cases, eq_iff,
}
use multi_tenant_agent_platf.Exec.Moves.{IsPreorder, keeping-IsPreorder}
use multi_tenant_agent_platf.Rows.{count, update, exists}
use multi_tenant_agent_platf.Rows.Filtered.{count-append, count-update-le, count-eq-zero}
use multi_tenant_agent_platf.Db.{Db, RunRow}
use multi_tenant_agent_platf.Db.Runs.{
  keyed_run_at, run_violation, set_failed, set_running, set_finished,
}
use multi_tenant_agent_platf.Db.Agents.{equal_text}
use multi_tenant_agent_platf.Runtime.{Services}
use multi_tenant_agent_platf.Scheduler.{App}
use multi_tenant_agent_platf.System.{Reach}
use multi_tenant_agent_platf.Frames.Server.{Reach-Moves}
use multi_tenant_agent_platf.Frames.Tables.{
  RunChanges, OnRuns-IsPreorder, OnRuns-Writes, OnRuns-create_tenant,
}
use multi_tenant_agent_platf.Idempotency.{AreKeysUnique}

abbrev KeepsUnique : List RunRow → List RunRow → Type 0
KeepsUnique before after = AreKeysUnique before → AreKeysUnique after

KeepsUnique-IsPreorder : IsPreorder KeepsUnique
KeepsUnique-IsPreorder = keeping-IsPreorder AreKeysUnique

unused_key :
    (row : RunRow) (db : Db)
    → run_violation row db ≡ none
    → exists (keyed_run_at row.tenant_id row.agent_id row.idempotency_key) db.runs ≡ false
unfolding run_violation
unused_key row db h = ground arith

equal_text-some : (o : Option String) (key : String) → equal_text o (some key) ≡ true → o ≡ some key
equal_text-some none key h = absurd (ground arith)
equal_text-some (some k) key h = ground (arith, eq_iff k key)

-- A row that has the key has it as the row's own key.
same_key :
    (row : RunRow) (t a : ℕ) (key : String)
    → keyed_run_at t a (some key) row ≡ true
    → (row.tenant_id ≡ t) × (row.agent_id ≡ a) × (row.idempotency_key ≡ some key)
same_key row t a key h =
    (ground arith, ground arith, equal_text-some row.idempotency_key key (ground arith))

added-KeepsUnique :
    (row : RunRow) (db : Db)
    → run_violation row db ≡ none
    → KeepsUnique db.runs (db.runs ++ row ∷ [])
unfolding count
added-KeepsUnique row db clear unique t a key =
    elim (Bool-cases (keyed_run_at t a (some key) row)) [
      | inr e ↦
          rw (count-append (keyed_run_at t a (some key)) db.runs (row ∷ []), e)
            (omega (arith, unique t a key))
      | inl e ↦
          let (p, q, r) = same_key row t a key e in
          let free : exists (keyed_run_at t a (some key)) db.runs ≡ false =
            cc (unused_key row db clear, p, q, r) in
          rw (count-append (keyed_run_at t a (some key)) db.runs (row ∷ []), e)
            (omega (arith, count-eq-zero _ db.runs free))
    ]

updated-KeepsUnique :
    (q : RunRow → Bool) (f : RunRow → RunRow) (rows : List RunRow)
    → ((t a : ℕ) (key : String) (x : RunRow)
        → keyed_run_at t a (some key) (f x) ≡ keyed_run_at t a (some key) x)
    → KeepsUnique rows (update q f rows)
updated-KeepsUnique q f rows keeps unique t a key = omega (
  arith,
  unique t a key,
  count-update-le (keyed_run_at t a (some key)) q f rows (λ x h. sym (keeps t a key x) ∙ h),
)

KeepsUnique-RunChanges : RunChanges KeepsUnique
unfolding set_failed set_running set_finished
KeepsUnique-RunChanges = record {
  added = added-KeepsUnique;
  updated = λ a run_id. record {
    failed = λ reason now rows. updated-KeepsUnique _ _ rows (λ t b key x. refl);
    started = λ now rows. updated-KeepsUnique _ _ rows (λ t b key x. refl);
    finished =
        λ status answer reason now rows final. updated-KeepsUnique _ _ rows (λ t b key x. refl);
  };
}

-- Whatever requests and runs the server goes through, it never holds two runs of the same tenant and
-- agent under the same idempotency key, provided that it did not at the start.
pub Reach-AreKeysUnique :
    (v : Services) (start app : App)
    → AreKeysUnique start.db.runs
    → Reach v start app
    → AreKeysUnique app.db.runs
Reach-AreKeysUnique v start app unique r =
    Reach-Moves (OnRuns-IsPreorder KeepsUnique-IsPreorder) v
      (OnRuns-Writes KeepsUnique-IsPreorder v.engine KeepsUnique-RunChanges)
      (OnRuns-create_tenant KeepsUnique-IsPreorder v.engine) start r unique
