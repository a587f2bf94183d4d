-- ===== src/Samples.antt =====
-- Concrete instances of what the development takes as parameters, for the examples: an engine that
-- numbers its UUIDs, a hash that is the key under a mark, a schema check that asks for an object,
-- and a codec for message lists.
pub mod Sorting
pub mod Scenario
pub mod Wire
use multi_tenant_agent_platf.Prelude.{
  ℕ, ◌+◌, String, Bool, true, false, Option, none, some, List, [], ◌∷◌, ◌≡◌, refl, sym, ap, arith,
  eq_refl, eq_iff, str_eq,
}
use multi_tenant_agent_platf.Text.{join, decimal}
use multi_tenant_agent_platf.Json.{
  Value, str, arr, Items, nil, cons, obj, field, end, get, as_str, is_object, is_array, object1,
  object2,
}
use multi_tenant_agent_platf.Core.{ChatMessage}
use multi_tenant_agent_platf.Db.{Engine, Db}
use multi_tenant_agent_platf.Auth.{Argon2}
use multi_tenant_agent_platf.Runtime.{JsonSchema, Serde, Services}
use Sorting.{sort, sort-perm, sort-IsSorted}

-- PostgreSQL's answer to a statement in a failed transaction is the argument.
abbrev pub engine : Bool → Engine
engine aborts = record {
  gen_random_uuid = λ n. n + 100;
  now = λ n. n;
  order_by = λ key rows. sort key rows;
  order_by-perm = λ key rows. sort-perm key rows;
  order_by-sorted = λ key rows. sort-IsSorted key rows;
  aborts = aborts;
}

abbrev hash_of : String → String
hash_of key = join "argon2$" key

pub verifies :
    (key salt h : String)
    → ◌≡◌ {A = Option String} (some (hash_of key)) (some h)
    → str_eq (hash_of key) h ≡ true
verifies key salt h e = ground (arith, eq_refl (hash_of key), eq_iff (hash_of key) h)

abbrev pub argon2 : Argon2
argon2 = record {
  hash_password = λ key salt. some (hash_of key);
  parses = λ h. true;
  verify_password = λ key h. str_eq (hash_of key) h;
  hash-parses = λ key salt h e. refl;
  hash-verifies = verifies;
}

abbrev message_value : ChatMessage → Value
message_value m = object2 "role" (str m.role) "content" (str m.content)

abbrev items_of : List ChatMessage → Items
items_of [] = nil
items_of (m ∷ ms) = cons (message_value m) (items_of ms)

abbrev pub to_value : List ChatMessage → Value
to_value ms = arr (items_of ms)

abbrev add_message :
    Option Value → Option Value → Option (List ChatMessage) → Option (List ChatMessage)
add_message (some (str role)) (some (str content)) (some ms) =
    some (record { role = role; content = content } ∷ ms)
add_message _ _ _ = none

abbrev messages_of : Items → Option (List ChatMessage)
messages_of nil = some []
messages_of (cons v vs) = add_message (get "role" v) (get "content" v) (messages_of vs)

abbrev pub from_value : Value → Option (List ChatMessage)
from_value (arr vs) = messages_of vs
from_value _ = none

messages_of-items_of : (ms : List ChatMessage) → messages_of (items_of ms) ≡ some ms
unfolding get
messages_of-items_of [] = refl
messages_of-items_of (m ∷ ms) = rw (messages_of-items_of ms) refl

pub from_value-to_value : (ms : List ChatMessage) → from_value (to_value ms) ≡ some ms
from_value-to_value ms = messages_of-items_of ms

pub to_value-is_array : (ms : List ChatMessage) → is_array (to_value ms) ≡ true
unfolding is_array
to_value-is_array ms = refl

abbrev pub serde : Serde
serde = record {
  to_value = to_value;
  from_value = from_value;
  to_string = λ v. some "{}";
  uuid_text = λ n. decimal n;
  from_value-to_value = from_value-to_value;
  to_value-is_array = to_value-is_array;
}

abbrev pub schema : JsonSchema
schema = record { compiles = λ s. true; is_valid = λ s v. is_object v }

abbrev pub services : Bool → Services
services aborts = record { engine = engine aborts; argon2 = argon2; schema = schema; serde = serde }

-- Nothing is stored yet.
abbrev pub empty_db : Db
empty_db = record {
  tenants = [];
  api_keys = [];
  tools = [];
  agents = [];
  agent_tools = [];
  runs = [];
  run_traces = [];
  ticks = 0;
}
