-- ===== src/Exec/Moves.antt =====
-- Relations between the state before and after an action, one rule for each way to build an action.
-- An invariant `P` is the relation `λ s t. P s → P t`.
use multi_tenant_agent_platf.Prelude.{Bool, true, false, Option, none, some, if◌then◌else◌}
use multi_tenant_agent_platf.Exec.{
  Result, ok, err, Exec, pure, raise, ok_or, of_result, attempt, ◌>>=◌, continue,
}

-- The state that `m` leaves, whether it returns or raises, is related to the one that it met.
pub record Moves {ℓ} {S E A : Type ℓ} (R : S → S → Type ℓ) (m : Exec S E A) : Type ℓ where
  pub at : (s : S) → R s (m s).1

pub record IsPreorder {ℓ} {S : Type ℓ} (R : S → S → Type ℓ) : Type ℓ where
  pub stay : (s : S) → R s s
  pub chain : (s t u : S) → R s t → R t u → R s u

pub keeping-IsPreorder {ℓ} : {S : Type ℓ} (P : S → Type ℓ) → IsPreorder (λ s t. P s → P t)
keeping-IsPreorder P = record { stay = λ s h. h; chain = λ s t u f g h. g (f h) }

module _ {ℓ} {S E A : Type ℓ} {R : S → S → Type ℓ} (o : IsPreorder R) where
  pub Moves-pure : (a : A) → Moves {E = E} R (pure a)
  unfolding pure
  Moves-pure a = record { at = o.stay }

  pub Moves-raise : (e : E) → Moves {A = A} R (raise e)
  unfolding raise
  Moves-raise e = record { at = o.stay }

  pub Moves-of_result : (r : Result E A) → Moves R (of_result r)
  unfolding of_result
  Moves-of_result r = record { at = o.stay }

  pub Moves-ok_or : (a : Option A) (e : E) → Moves R (ok_or a e)
  unfolding ok_or
  Moves-ok_or none e = record { at = o.stay }
  Moves-ok_or (some a) e = record { at = o.stay }

  pub Moves-if :
      (b : Bool) (m n : Exec S E A) → Moves R m → Moves R n → Moves R (if b then m else n)
  Moves-if true m n km kn = km
  Moves-if false m n km kn = kn

module _ {ℓ} {S E A B : Type ℓ} {R : S → S → Type ℓ} (o : IsPreorder R) where
  pub Moves-bind :
      (m : Exec S E A) (f : A → Exec S E B)
      → Moves R m
      → ((a : A) → Moves R (f a))
      → Moves R (m >>= f)
  unfolding ◌>>=◌
  Moves-bind m f km kf = record { at = λ s. go s (m s).0 (m s).1 (km.at s) }
    where
      go : (s : S) (r : Result E A) (t : S) → R s t → R s (continue r f t).1
      go s (ok a) t h = o.chain s t _ h ((kf a).at t)
      go s (err e) t h = h

pub Moves-attempt {ℓ} :
    {S E A : Type ℓ} (F : Type ℓ) {R : S → S → Type ℓ} (m : Exec S E A)
    → Moves R m
    → Moves R (attempt {F = F} m)
unfolding attempt
Moves-attempt F m km = record { at = km.at }
