-- ===== src/Auth/Issuing.antt =====
-- The key that was issued to a tenant authenticates as that tenant.
use multi_tenant_agent_platf.Prelude.{
  ℕ, ◌+◌, String, ◌≡◌, refl, arith, none, some, Option-cases, inl, inr, [], ◌∷◌, ◌++◌, ◌&&◌,
  is_none, str_eq, eq_refl, Bool, true, false,
}
use multi_tenant_agent_platf.Rows.{exists}
use multi_tenant_agent_platf.Rows.Filtered.{select-insert, select-eq-nil}
use multi_tenant_agent_platf.Text.{join, to_lowercase}
use multi_tenant_agent_platf.Text.Prefixes.{Lacks, strip_prefix-join, to_lowercase-Lacks}
use multi_tenant_agent_platf.Core.{CreateApiKeyResponse}
use multi_tenant_agent_platf.Exec.{ok, ◌>>=◌}
use multi_tenant_agent_platf.Db.{Db, ApiKeyRow, admit, lift_db}
use multi_tenant_agent_platf.Db.Tenants.{
  ApiKeyRecord, key_record, api_key_violation, create_api_key, find_active_api_key_by_prefix,
}
use multi_tenant_agent_platf.Auth.{
  Argon2, HeaderMap, visible, to_str, KeyMaterial, format_key, verify_api_key, generate_api_key,
  authenticate,
}
use multi_tenant_agent_platf.Runtime.{Services}
use multi_tenant_agent_platf.Http
use multi_tenant_agent_platf.Auth.Keys.{extract_key_prefix-format_key}

-- The headers of a client that presents a key.
abbrev pub bearer : String → HeaderMap
bearer api_key = record {
  authorization = some (visible (join "Bearer " api_key));
  idempotency_key = none;
}

prefix_free :
    (row : ApiKeyRow) (db : Db)
    → api_key_violation row db ≡ none
    → exists (λ k. str_eq k.key_prefix row.key_prefix) db.api_keys ≡ false
unfolding api_key_violation
prefix_free row db h = ground arith

find_new :
    (row : ApiKeyRow) (db : Db) (ticks : ℕ)
    → api_key_violation row db ≡ none
    → row.revoked_at ≡ none
    → (find_active_api_key_by_prefix row.key_prefix
        (record db { api_keys = db.api_keys ++ row ∷ []; ticks = ticks })).0
      ≡ ok (some (key_record row))
unfolding find_active_api_key_by_prefix
find_new row db ticks h fresh =
    let p : ApiKeyRow → Bool = λ k. str_eq k.key_prefix row.key_prefix in
    let q : ApiKeyRow → Bool = λ k. is_none k.revoked_at in
    rw
      (
        select-insert (λ k. p k && q k) db.api_keys row (ground (arith, eq_refl row.key_prefix)),
        select-eq-nil p q db.api_keys (prefix_free row db h),
      )
      refl

-- Authentication with a well-formed key is the search for its prefix and the check of its hash.
authenticate_found :
    (a : Argon2) (key_prefix secret : String) (found : ApiKeyRecord) (db : Db)
    → Lacks b'_' key_prefix
    → (find_active_api_key_by_prefix key_prefix db).0 ≡ ok (some found)
    → a.parses found.key_hash ≡ true
    → a.verify_password (format_key key_prefix secret) found.key_hash ≡ true
    → (authenticate a (bearer (format_key key_prefix secret)) db).0
      ≡ ok (record { tenant_id = found.tenant_id })
unfolding authenticate ◌>>=◌ to_str verify_api_key
authenticate_found a key_prefix secret found db lacks f p q =
    rw
      (
        strip_prefix-join "Bearer " (format_key key_prefix secret),
        extract_key_prefix-format_key key_prefix secret lacks,
        f,
        p,
        q,
      )
      refl

module _ (v : Services) (material : KeyMaterial) (tenant_id : ℕ) (db : Db) where
  key_prefix : String
  key_prefix = to_lowercase material.prefix

  api_key : String
  api_key = format_key key_prefix material.secret

  row_for : String → ApiKeyRow
  row_for key_hash = record {
    tenant_id = tenant_id;
    key_prefix = key_prefix;
    key_hash = key_hash;
    created_at = v.engine.now db.ticks;
    revoked_at = none;
  }

  -- A request that answers with a key has hashed it and added its row.
  issued :
      (response : CreateApiKeyResponse) (db' : Db)
      → Http.create_api_key v material tenant_id db ≡ (ok response, db')
      → (key_hash : String) × (v.argon2.hash_password api_key material.salt ≡ some key_hash)
        × (api_key_violation (row_for key_hash) db ≡ none)
        × (response.api_key ≡ api_key)
        × (db'
            ≡ record db { api_keys = db.api_keys ++ row_for key_hash ∷ []; ticks = db.ticks + 1 })
  unfolding Http.create_api_key generate_api_key ◌>>=◌ create_api_key admit lift_db api_key
      key_prefix row_for
  issued response db' h = elim (Option-cases (v.argon2.hash_password api_key material.salt)) [
    | inl e ↦ absurd (ground arith)
    | inr (key_hash, e) ↦ elim (Option-cases (api_key_violation (row_for key_hash) db)) [
      | inl clear ↦ (key_hash, e, clear, ground arith, ground arith)
      | inr (x, refused) ↦ absurd (ground arith)
    ]
  ]

-- When the server issues a key to a tenant, a request that presents the key right afterwards, as
-- "Bearer <key>", is authenticated as that tenant. The random prefix is taken to hold no underscore.
pub authenticate-create_api_key :
    (v : Services) (material : KeyMaterial) (tenant_id : ℕ) (db db' : Db)
    (response : CreateApiKeyResponse)
    → Lacks b'_' material.prefix
    → Http.create_api_key v material tenant_id db ≡ (ok response, db')
    → (authenticate v.argon2 (bearer response.api_key) db').0
      ≡ ok (record { tenant_id = tenant_id })
unfolding api_key key_prefix row_for key_record
authenticate-create_api_key v material tenant_id db db' response lacks h =
    let (key_hash, hashed, clear, same_key, same_db) =
      issued v material tenant_id db response db' h in
    rw (same_key, same_db)
      (authenticate_found v.argon2 (to_lowercase material.prefix) material.secret
        (key_record (row_for v material tenant_id db key_hash)) _
        (to_lowercase-Lacks material.prefix lacks)
        (find_new (row_for v material tenant_id db key_hash) db (db.ticks + 1) clear refl)
        (v.argon2.hash-parses _ material.salt key_hash hashed)
        (v.argon2.hash-verifies _ material.salt key_hash hashed))
