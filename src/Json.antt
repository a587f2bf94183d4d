-- ===== src/Json.antt =====
-- serde_json's `Value`, as server/src/runtime.rs and server/src/http.rs read and build it.
use multi_tenant_agent_platf.Prelude.{
  ℕ, String, Bool, true, false, Option, none, some, str_eq, if◌then◌else◌,
}

-- serde_json's own split: an unsigned or negative integer, or a 64-bit float by its bits.
pub data Number : Type 0 where
  pos_int : ℕ → Number
  neg_int : ℕ → Number
  float : ℕ → Number

mutual
  pub data Value : Type 0 where
    null : Value
    bool : Bool → Value
    num : Number → Value
    str : String → Value
    arr : Items → Value
    obj : Fields → Value

  pub data Fields : Type 0 where
    end : Fields
    field : String → Value → Fields → Fields

  pub data Items : Type 0 where
    nil : Items
    cons : Value → Items → Items

unfoldable pub get_field : String → Fields → Option Value
get_field k end = none
get_field k (field j v fs) = if str_eq j k then some v else get_field k fs

-- Value::get with a text index
unfoldable pub get : String → Value → Option Value
unfolding get_field
get k (obj fs) = get_field k fs
get k null = none
get k (bool b) = none
get k (num n) = none
get k (str s) = none
get k (arr xs) = none

-- Value::as_str
unfoldable pub as_str : Value → Option String
as_str (str s) = some s
as_str null = none
as_str (bool b) = none
as_str (num n) = none
as_str (arr xs) = none
as_str (obj fs) = none

-- Value::is_object
unfoldable pub is_object : Value → Bool
is_object (obj fs) = true
is_object null = false
is_object (bool b) = false
is_object (num n) = false
is_object (str s) = false
is_object (arr xs) = false

-- jsonb_typeof(v) = 'array'
unfoldable pub is_array : Value → Bool
is_array (arr xs) = true
is_array null = false
is_array (bool b) = false
is_array (num n) = false
is_array (str s) = false
is_array (obj fs) = false

-- json!({"k": v}) and json!({"k": v, "j": w})
abbrev pub object1 : String → Value → Value
object1 k v = obj (field k v end)

abbrev pub object2 : String → Value → String → Value → Value
object2 k v j w = obj (field k v (field j w end))

abbrev pub object3 : String → Value → String → Value → String → Value → Value
object3 k v j w i x = obj (field k v (field j w (field i x end)))
