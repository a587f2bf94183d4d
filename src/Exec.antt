-- ===== src/Exec.antt =====
-- Fallible code over a state: what a statement wrote before an error stays written, so the state
-- comes back beside the error too. `?` is the bind.
pub mod Moves
pub mod Inversion
use multi_tenant_agent_platf.Prelude.{Option, none, some, Bool, true, false}

pub data Result {ℓ κ} (E : Type ℓ) (A : Type κ) : Type (ℓ ⊔ κ) where
  ok : A → Result E A
  err : E → Result E A

abbrev pub Exec {ℓ} : Type ℓ → Type ℓ → Type ℓ → Type ℓ
Exec S E A = S → Result E A × S

module _ {ℓ} {S E A : Type ℓ} where
  unfoldable pub pure : A → Exec S E A
  pure a s = (ok a, s)

  unfoldable pub raise : E → Exec S E A
  raise e s = (err e, s)

  -- `ok_or(e)?`
  unfoldable pub ok_or : Option A → E → Exec S E A
  ok_or none e s = (err e, s)
  ok_or (some a) e s = (ok a, s)

  unfoldable pub of_result : Result E A → Exec S E A
  of_result r s = (r, s)

module _ {ℓ} {S E A B : Type ℓ} where
  abbrev pub continue : Result E A → (A → Exec S E B) → Exec S E B
  continue (ok a) f s = f a s
  continue (err e) f s = (err e, s)

  infixl 10 ◌>>=◌ ◌>>◌
  unfoldable pub ◌>>=◌ : Exec S E A → (A → Exec S E B) → Exec S E B
  unfolding pure raise ok_or of_result
  ◌>>=◌ m f s = let (r, s') = m s in continue r f s'

  abbrev pub ◌>>◌ : Exec S E A → Exec S E B → Exec S E B
  m >> n = m >>= λ _. n

-- A result that is kept as a value, for a `match` on it instead of `?`.
module _ {ℓ} {S E F A : Type ℓ} where
  unfoldable pub attempt : Exec S E A → Exec S F (Result E A)
  attempt m s = let (r, s') = m s in (ok r, s')

-- Part of a larger state is changed by an action of its own.
module _ {ℓ} {S T E A : Type ℓ} where
  unfoldable pub within : (T → S) → (S → T → T) → Exec S E A → Exec T E A
  within get put m t = let (r, s) = m (get t) in (r, put s t)
