-- ===== src/Rows.antt =====
-- What the SQL text of server/src/db.rs and server/src/trace.rs uses of SQL: the rows that a WHERE
-- clause keeps, the first of them, EXISTS, UPDATE with its count of rows, and MAX.
pub mod Filtered
pub mod Ordered
use multi_tenant_agent_platf.Prelude.{
  ℕ, suc, ◌+◌, Bool, true, false, ◌||◌, Option, none, some, List, [], ◌∷◌, if◌then◌else◌, leb,
}

module _ {ℓ} {A : Type ℓ} where
  -- SELECT … WHERE p
  unfoldable pub select : (A → Bool) → List A → List A
  select p [] = []
  select p (x ∷ xs) = if p x then x ∷ select p xs else select p xs

  -- fetch_optional: the first row, if there is one
  abbrev pub first : List A → Option A
  first [] = none
  first (x ∷ xs) = some x

  -- SELECT EXISTS (SELECT 1 … WHERE p)
  unfoldable pub exists : (A → Bool) → List A → Bool
  exists p [] = false
  exists p (x ∷ xs) = p x || exists p xs

  -- UPDATE … SET f WHERE p
  unfoldable pub update : (A → Bool) → (A → A) → List A → List A
  update p f [] = []
  update p f (x ∷ xs) = (if p x then f x else x) ∷ update p f xs

  -- rows_affected() of an UPDATE … WHERE p
  unfoldable pub count : (A → Bool) → List A → ℕ
  count p [] = 0
  count p (x ∷ xs) = (if p x then 1 else 0) + count p xs

  -- COALESCE(MAX(key), 0)
  unfoldable pub max_of : (A → ℕ) → List A → ℕ
  max_of key [] = 0
  max_of key (x ∷ xs) = let m = max_of key xs in if leb (key x) m then m else key x
