-- ===== src/Auth/Authority.antt =====
-- Authentication reads the database and does not change it; the key that was issued to a tenant
-- authenticates as that tenant.
use multi_tenant_agent_platf.Prelude.{ℕ, String, ◌≡◌, refl, ap, ◌∙◌}
use multi_tenant_agent_platf.Exec.{ok}
use multi_tenant_agent_platf.Exec.Moves.{
  Moves, IsPreorder, Moves-bind, Moves-pure, Moves-of_result, Moves-ok_or,
}
use multi_tenant_agent_platf.Db.{Db}
use multi_tenant_agent_platf.Db.Tenants.{find_active_api_key_by_prefix}
use multi_tenant_agent_platf.Auth.{Argon2, HeaderMap, authenticate}

-- The action only reads.
abbrev pub Same : Db → Db → Type 0
Same before after = after ≡ before

pub Same-IsPreorder : IsPreorder Same
Same-IsPreorder = record { stay = λ s. refl; chain = λ s t u f g. g ∙ f }

find-Same : (key_prefix : String) → Moves Same (find_active_api_key_by_prefix key_prefix)
unfolding find_active_api_key_by_prefix
find-Same key_prefix = record { at = λ db. refl }

authenticate-Same : (a : Argon2) (headers : HeaderMap) → Moves Same (authenticate a headers)
unfolding authenticate
authenticate-Same a headers =
    search (Same-IsPreorder, Moves-bind, Moves-pure, Moves-of_result, Moves-ok_or, find-Same) depth
      20

pub authenticate-db :
    (a : Argon2) (headers : HeaderMap) (db : Db) → (authenticate a headers db).1 ≡ db
authenticate-db a headers db = (authenticate-Same a headers).at db

-- An authentication that succeeds, with the database that it leaves.
pub granted :
    (a : Argon2) (headers : HeaderMap) (t : ℕ) (db : Db)
    → (authenticate a headers db).0 ≡ ok (record { tenant_id = t })
    → authenticate a headers db ≡ (ok (record { tenant_id = t }), db)
granted a headers t db h =
    ap (λ r. (r, (authenticate a headers db).1)) h
    ∙ ap (λ s. (ok (record { tenant_id = t }), s)) (authenticate-db a headers db)
