-- ===== src/Exec/Inversion.antt =====
-- What is known of a sequence of actions from its result.
use multi_tenant_agent_platf.Prelude.{◌≡◌, refl, ap, subst, arith}
use multi_tenant_agent_platf.Exec.{Result, ok, err, Exec, ◌>>=◌, continue}
use multi_tenant_agent_platf.Exec.Moves.{Moves, IsPreorder}

module _ {S E A B : Type 0} where
  -- Both parts of a sequence that succeeds have succeeded.
  pub bind-inv :
      (m : Exec S E A) (f : A → Exec S E B) (s s' : S) (b : B)
      → (m >>= f) s ≡ (ok b, s')
      → (a : A) × (t : S) × (m s ≡ (ok a, t)) × (f a t ≡ (ok b, s'))
  unfolding ◌>>=◌
  bind-inv m f s s' b h = go (m s).0 (m s).1 refl h
    where
      go :
          (r : Result E A) (t : S)
          → m s ≡ (r, t)
          → continue r f t ≡ (ok b, s')
          → (a : A) × (t : S) × (m s ≡ (ok a, t)) × (f a t ≡ (ok b, s'))
      go (ok a) t e h = (a, t, e, h)
      go (err x) t e h = absurd (ground arith)

  -- A step that may use the result of the one before it moves the state on, if it does so from there.
  pub moves-bind :
      {R : S → S → Type 0} (o : IsPreorder R) (m : Exec S E A) (f : A → Exec S E B) (s : S)
      → R s (m s).1
      → ((a : A) → (m s).0 ≡ ok a → R (m s).1 (f a (m s).1).1)
      → R s ((m >>= f) s).1
  unfolding ◌>>=◌
  moves-bind {R} o m f s first rest = go (m s).0 rest
    where
      go :
          (r : Result E A)
          → ((a : A) → r ≡ ok a → R (m s).1 (f a (m s).1).1)
          → R s (continue r f (m s).1).1
      go (ok a) rest = o.chain s (m s).1 _ first (rest a refl)
      go (err e) rest = first

  -- And what the first part keeps holds in between.
  pub bind-kept :
      {P : S → Type 0} (m : Exec S E A) (f : A → Exec S E B) (s s' : S) (b : B)
      → Moves (λ s t. P s → P t) m
      → P s
      → (m >>= f) s ≡ (ok b, s')
      → (a : A) × (t : S) × P t × (m s ≡ (ok a, t)) × (f a t ≡ (ok b, s'))
  bind-kept {P} m f s s' b kept p h =
      let (a, t, first, last) = bind-inv m f s s' b h in
      (a, t, subst P (ap (λ x. x.1) first) (kept.at s p), first, last)
