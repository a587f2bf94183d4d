-- ===== src/Rows/Filtered.antt =====
-- How the rows that one condition keeps change under INSERT and UPDATE, and how conditions combine.
use multi_tenant_agent_platf.Prelude.{
  ◌≡◌, ◌≤◌, ◌+◌, length, map, ◌==◌, refl, ap, sym, ◌∙◌, some, Bool-cases, inl, inr, Bool, true,
  false, ◌&&◌, ◌||◌, List, [], ◌∷◌, ◌++◌, arith,
}
use multi_tenant_agent_platf.Rows.{select, first, exists, update, count}

module _ {ℓ} {A : Type ℓ} where
  pub select-append :
      (p : A → Bool) (xs ys : List A) → select p (xs ++ ys) ≡ select p xs ++ select p ys
  unfolding select
  select-append p [] ys = refl
  select-append p (x ∷ xs) ys = ground (arith, select-append p xs ys)

  -- A row that the condition refuses may be added.
  pub select-insert_other :
      (p : A → Bool) (xs : List A) (x : A) → p x ≡ false → select p (xs ++ x ∷ []) ≡ select p xs
  unfolding select
  select-insert_other p [] x h = rw h
  select-insert_other p (y ∷ ys) x h = ground (arith, select-insert_other p ys x h)

  pub select-insert :
      (p : A → Bool) (xs : List A) (x : A)
      → p x ≡ true
      → select p (xs ++ x ∷ []) ≡ select p xs ++ x ∷ []
  unfolding select
  select-insert p [] x h = rw h
  select-insert p (y ∷ ys) x h = ground (arith, select-insert p ys x h)

  pub select-and :
      (p q : A → Bool) (xs : List A) → select (λ x. p x && q x) xs ≡ select q (select p xs)
  unfolding select
  select-and p q [] = refl
  select-and p q (x ∷ xs) = ground (arith, select-and p q xs)

  pub exists-select :
      (p q : A → Bool) (xs : List A) → exists (λ x. p x && q x) xs ≡ exists q (select p xs)
  unfolding select exists
  exists-select p q [] = refl
  exists-select p q (x ∷ xs) = ground (arith, exists-select p q xs)

  -- An UPDATE of rows that the condition refuses, before and after, is not seen through it.
  pub select-update_other :
      (p q : A → Bool) (f : A → A) (xs : List A)
      → ((x : A) → q x ≡ true → (p x ≡ false) × (p (f x) ≡ false))
      → select p (update q f xs) ≡ select p xs
  unfolding select update
  select-update_other p q f [] h = refl
  select-update_other p q f (x ∷ xs) h = ground (arith, h x, select-update_other p q f xs h)

  pub count-append : (p : A → Bool) (xs ys : List A) → count p (xs ++ ys) ≡ count p xs + count p ys
  unfolding count
  count-append p [] ys = omega arith
  count-append p (x ∷ xs) ys = omega (arith, count-append p xs ys)

  pub count-le-length : (p : A → Bool) (xs : List A) → count p xs ≤ length xs
  unfolding count
  count-le-length p [] = omega arith
  count-le-length p (x ∷ xs) = ground (arith, count-le-length p xs)

  -- Rows that the first condition refuses throughout leave nothing to the second.
  pub select-eq-nil :
      (p q : A → Bool) (xs : List A) → exists p xs ≡ false → select (λ x. p x && q x) xs ≡ []
  unfolding select exists
  select-eq-nil p q [] h = refl
  select-eq-nil p q (x ∷ xs) h = ground (arith, select-eq-nil p q xs)

  pub exists-append :
      (p : A → Bool) (xs ys : List A) → exists p (xs ++ ys) ≡ (exists p xs || exists p ys)
  unfolding exists
  exists-append p [] ys = refl
  exists-append p (x ∷ xs) ys = ground (arith, exists-append p xs ys)

  pub exists-update :
      (p q : A → Bool) (f : A → A) (xs : List A)
      → ((x : A) → p (f x) ≡ p x)
      → exists p (update q f xs) ≡ exists p xs
  unfolding exists update
  exists-update p q f [] h = refl
  exists-update p q f (x ∷ xs) h = ground (arith, h x, exists-update p q f xs h)

  -- An UPDATE that makes no row fit the condition.
  pub count-update-le :
      (p q : A → Bool) (f : A → A) (xs : List A)
      → ((x : A) → p (f x) ≡ true → p x ≡ true)
      → count p (update q f xs) ≤ count p xs
  unfolding count update
  count-update-le p q f [] h = omega arith
  count-update-le p q f (x ∷ xs) h = ground (arith, h x, count-update-le p q f xs h)

  -- After an UPDATE that takes its rows out of its own condition, the condition fits none.
  pub count-update_self :
      (p : A → Bool) (f : A → A) (xs : List A)
      → ((x : A) → p (f x) ≡ false)
      → count p (update p f xs) ≡ 0
  unfolding count update
  count-update_self p f [] h = refl
  count-update_self p f (x ∷ xs) h = ground (arith, h x, count-update_self p f xs h)

  pub update_none : (p : A → Bool) (f : A → A) (xs : List A) → count p xs ≡ 0 → update p f xs ≡ xs
  unfolding count update
  update_none p f [] h = refl
  update_none p f (x ∷ xs) h = ground (arith, update_none p f xs)

  pub count-eq-zero : (p : A → Bool) (xs : List A) → exists p xs ≡ false → count p xs ≡ 0
  unfolding count exists
  count-eq-zero p [] h = refl
  count-eq-zero p (x ∷ xs) h = ground (arith, count-eq-zero p xs)

  -- What is known of the row that a query gives.
  pub first-holds : (p : A → Bool) (xs : List A) (x : A) → first (select p xs) ≡ some x → p x ≡ true
  unfolding select
  first-holds p [] x h = absurd (ground arith)
  first-holds p (y ∷ ys) x h = elim (Bool-cases (p y)) [
    | inl e ↦ let same : y ≡ x = ground (arith, rw e at h) in ap p (sym same) ∙ e
    | inr e ↦ first-holds p ys x (rw e at h)
  ]

  pub first-of_none :
      (p q : A → Bool) (xs : List A) (x : A)
      → first (select p xs) ≡ some x
      → count q xs ≡ 0
      → q x ≡ false
  unfolding select count
  first-of_none p q [] x h none_left = absurd (ground arith)
  first-of_none p q (y ∷ ys) x h none_left = elim (Bool-cases (p y)) [
    | inl e ↦ let same : y ≡ x = ground (arith, rw e at h) in ap q (sym same) ∙ ground arith
    | inr e ↦ first-of_none p q ys x (rw e at h) (ground arith)
  ]

  -- A row that meets one condition meets a weaker one.
  pub exists-count :
      (p q : A → Bool) (xs : List A)
      → ((x : A) → p x ≡ true → q x ≡ true)
      → (count p xs == 0) ≡ false
      → exists q xs ≡ true
  unfolding exists count
  exists-count p q [] h some_row = absurd (ground arith)
  exists-count p q (x ∷ xs) h some_row = ground (arith, h x, exists-count p q xs h)

  pub select-nil : (p : A → Bool) (xs : List A) → exists p xs ≡ false → select p xs ≡ []
  unfolding select exists
  select-nil p [] h = refl
  select-nil p (x ∷ xs) h = ground (arith, select-nil p xs)

  -- An UPDATE that leaves its rows under its own condition changes just those that the condition gives.
  pub select-update_self :
      (p : A → Bool) (f : A → A) (xs : List A)
      → ((x : A) → p (f x) ≡ p x)
      → select p (update p f xs) ≡ map f (select p xs)
  unfolding select update
  select-update_self p f [] h = refl
  select-update_self p f (x ∷ xs) h = ground (arith, h x, select-update_self p f xs h)

  pub first-exists :
      (p : A → Bool) (xs : List A) → exists p xs ≡ true → (x : A) × (first (select p xs) ≡ some x)
  unfolding select exists
  first-exists p [] h = absurd (ground arith)
  first-exists p (x ∷ xs) h = elim (Bool-cases (p x)) [
    | inl e ↦ (x, rw e refl)
    | inr e ↦ rw e (first-exists p xs (rw e at h))
  ]

  -- An UPDATE that leaves the condition as it is may be made on the rows that the condition gives.
  pub select-update :
      (p q : A → Bool) (f : A → A) (xs : List A)
      → ((x : A) → p (f x) ≡ p x)
      → select p (update q f xs) ≡ update q f (select p xs)
  unfolding select update
  select-update p q f [] h = refl
  select-update p q f (x ∷ xs) h = ground (arith, h x, select-update p q f xs h)

  pub exists-ext :
      (p q : A → Bool) (xs : List A) → ((x : A) → p x ≡ q x) → exists p xs ≡ exists q xs
  unfolding exists
  exists-ext p q [] h = refl
  exists-ext p q (x ∷ xs) h = ground (arith, h x, exists-ext p q xs h)

  -- An UPDATE keeps what a column holds that it does not set.
  pub first-update_kept :
      {B : Type 0} (q : A → Bool) (f : A → A) (column : A → B) (xs : List A) (x : A)
      → first xs ≡ some x
      → ((y : A) → column (f y) ≡ column y)
      → (y : A) × (first (update q f xs) ≡ some y) × (column y ≡ column x)
  unfolding update
  first-update_kept q f column [] x h kept = absurd (ground arith)
  first-update_kept q f column (y ∷ ys) x h kept =
      let same : y ≡ x = ground (arith, h) in
      elim (Bool-cases (q y)) [
        | inl e ↦ (f y, rw e refl, kept y ∙ ap column same)
        | inr e ↦ (y, rw e refl, ap column same)
      ]
