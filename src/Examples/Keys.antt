-- ===== src/Examples/Keys.antt =====
-- API keys, texts and codes at concrete values.
use multi_tenant_agent_platf.Prelude.{true, ◌≡◌, refl, arith, some}
use multi_tenant_agent_platf.Core.{failed, as_str}
use multi_tenant_agent_platf.Core.Status.{status_of_text, status_of_text-as_str}
use multi_tenant_agent_platf.Text.{to_lowercase, translate}
use multi_tenant_agent_platf.Exec.{ok}
use multi_tenant_agent_platf.Auth.{KeyMaterial, extract_key_prefix, authenticate, generate_api_key}
use multi_tenant_agent_platf.Auth.Keys.{extract_key_prefix-format_key}
use multi_tenant_agent_platf.Auth.Issuing.{bearer, authenticate-create_api_key}
use multi_tenant_agent_platf.Db.{admit, lift_db}
use multi_tenant_agent_platf.Db.Tenants.{create_api_key, api_key_violation}
use multi_tenant_agent_platf.Rows.{exists}
use multi_tenant_agent_platf.Exec.{of_result, pure, ◌>>=◌}
use multi_tenant_agent_platf.Http
use multi_tenant_agent_platf.Samples.{services, argon2}
use multi_tenant_agent_platf.Samples.Scenario.{two_tenants}

abbrev material : KeyMaterial
material = record { prefix = "Qx7"; secret = "s_9"; salt = "na" }

-- Globex is given a second key, and uses it.
authenticate-create_api_key_example :
    (authenticate argon2
      (bearer "map_live_qx7_s_9")
      (Http.create_api_key (services true) material 2 two_tenants).1).0
    ≡ ok (record { tenant_id = 2 })
unfolding Http.create_api_key generate_api_key create_api_key api_key_violation admit lift_db
    of_result pure ◌>>=◌ exists to_lowercase translate
authenticate-create_api_key_example =
    authenticate-create_api_key (services true) material 2 two_tenants
      (Http.create_api_key (services true) material 2 two_tenants).1
      (record {
        api_key = "map_live_qx7_s_9";
        warning = "This key is shown only once. Store it securely.";
      })
      (λ e. ground (arith, e), (λ e. ground (arith, e), (λ e. ground (arith, e), tt))) refl

extract_key_prefix-format_key_example : extract_key_prefix "map_live_aa_s_1" ≡ some "aa"
extract_key_prefix-format_key_example =
    extract_key_prefix-format_key "aa" "s_1" (λ e. ground (arith, e), (λ e. ground (arith, e), tt))

status_of_text-as_str_example : status_of_text "failed" ≡ failed
unfolding as_str
status_of_text-as_str_example = status_of_text-as_str failed
