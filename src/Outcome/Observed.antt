-- ===== src/Outcome/Observed.antt =====
-- What a client is told of a run that has ended.
use multi_tenant_agent_platf.Prelude.{some, [], ◌∷◌, ℕ, ◌≡◌, refl, ◌∙◌, ap, arith, ==_iff}
use multi_tenant_agent_platf.Core.{RunStatus, RunResponse, as_str}
use multi_tenant_agent_platf.Core.Status.{status_of_text, status_of_text-as_str}
use multi_tenant_agent_platf.Exec.{ok, pure, ok_or, ◌>>=◌}
use multi_tenant_agent_platf.Rows.{select, first}
use multi_tenant_agent_platf.Rows.Filtered.{first-holds}
use multi_tenant_agent_platf.Db.{RunRow}
use multi_tenant_agent_platf.Db.Runs.{run_at, run_from_row}
use multi_tenant_agent_platf.Db.Runs
use multi_tenant_agent_platf.Auth.{HeaderMap, authenticate}
use multi_tenant_agent_platf.Auth.Authority.{granted}
use multi_tenant_agent_platf.Runtime.{Services}
use multi_tenant_agent_platf.Http
use multi_tenant_agent_platf.Scheduler.{App}
use multi_tenant_agent_platf.System.{Reach}
use multi_tenant_agent_platf.Frames.{IsFinal}
use multi_tenant_agent_platf.Lifecycle.Final.{Reach_final}

-- Once a run of the tenant has ended, a request for it with the tenant's key is answered, at any later time
-- and whatever requests and runs have come in between, with that run and the status, the answer and the
-- reason that it has ended with; the request changes nothing.
pub get_run_final :
    (v : Services) (headers : HeaderMap) (t r : ℕ) (row : RunRow) (status : RunStatus)
    (start app : App)
    → select (run_at t r) start.db.runs ≡ row ∷ []
    → IsFinal status
    → row.status ≡ as_str status
    → Reach v start app
    → (authenticate v.argon2 headers app.db).0 ≡ ok (record { tenant_id = t })
    → (response : RunResponse) × (Http.get_run v headers r app.db ≡ (ok response, app.db))
      × (response.run_id ≡ r)
      × (response.status ≡ status)
      × (response.final_answer ≡ row.final_answer)
      × (response.error_reason ≡ row.error_reason)
unfolding Http.get_run Runs.get_run ◌>>=◌ ok_or pure Http.run_response run_from_row
get_run_final v headers t r row status start app one final e reached key =
    let still = Reach_final v t r row status start app one final e reached in
    let found : first (select (run_at t r) app.db.runs) ≡ some row = rw still refl in
    (
      Http.run_response (run_from_row row),
      rw (granted v.argon2 headers t app.db key, found) refl,
      (==_iff row.id r).0 (ground (arith, first-holds (run_at t r) app.db.runs row found)),
      ap status_of_text e ∙ status_of_text-as_str status,
      refl,
      refl,
    )
