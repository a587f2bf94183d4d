-- ===== src/Db/Tenants.antt =====
-- server/src/db.rs: tenants and API keys.
use multi_tenant_agent_platf.Prelude.{
  ℕ, ◌+◌, String, ◌&&◌, Option, none, some, [], ◌∷◌, ◌++◌, str_eq, if◌then◌else◌, ◌==◌, not,
  is_none,
}
use mathlib.Core.Option
use multi_tenant_agent_platf.Error.{DbError, constraint}
use multi_tenant_agent_platf.Exec.{ok}
use multi_tenant_agent_platf.Rows.{select, first, exists}
use multi_tenant_agent_platf.Db.{Engine, Db, TenantRow, ApiKeyRow, Action, admit, lift_db}

pub record ApiKeyRecord : Type 0 where
  pub tenant_id : ℕ
  pub key_hash : String

unfoldable pub tenant_violation : TenantRow → Db → Option DbError
tenant_violation r db =
    if exists (λ u. u.id == r.id) db.tenants then some (constraint "tenants_pkey") else none

unfoldable pub create_tenant : Engine → String → Action (ℕ × String)
unfolding tenant_violation
create_tenant e name db =
    let row : TenantRow = record {
      id = e.gen_random_uuid db.ticks;
      name = name;
      created_at = e.now db.ticks;
    } in
    let after = record db { tenants = db.tenants ++ row ∷ []; ticks = db.ticks + 1 } in
    let (r, db') = admit (tenant_violation row db) (row.id, row.name) after db in (lift_db r, db')

unfoldable pub api_key_violation : ApiKeyRow → Db → Option DbError
api_key_violation r db =
    if exists (λ k. str_eq k.key_prefix r.key_prefix) db.api_keys
    then some (constraint "uq_api_keys_key_prefix")
    else if not (exists (λ u. u.id == r.tenant_id) db.tenants)
    then some (constraint "api_keys_tenant_id_fkey")
    else none

unfoldable pub create_api_key : Engine → ℕ → String → String → Action (Unit {0})
unfolding api_key_violation
create_api_key e tenant_id key_prefix key_hash db =
    let row : ApiKeyRow = record {
      tenant_id = tenant_id;
      key_prefix = key_prefix;
      key_hash = key_hash;
      created_at = e.now db.ticks;
      revoked_at = none;
    } in
    let after = record db { api_keys = db.api_keys ++ row ∷ []; ticks = db.ticks + 1 } in
    let (r, db') = admit (api_key_violation row db) tt after db in (lift_db r, db')

unfoldable pub key_record : ApiKeyRow → ApiKeyRecord
key_record r = record { tenant_id = r.tenant_id; key_hash = r.key_hash }

unfoldable pub find_active_api_key_by_prefix : String → Action (Option ApiKeyRecord)
unfolding key_record
find_active_api_key_by_prefix key_prefix db =
    let found = select (λ k. str_eq k.key_prefix key_prefix && is_none k.revoked_at) db.api_keys in
    (ok (Option.map key_record (first found)), db)
