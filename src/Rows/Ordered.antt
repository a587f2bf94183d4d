-- ===== src/Rows/Ordered.antt =====
-- Which rows a query gives, in whatever order.
use mathlib.Core.Logic.Or
use mathlib.Core.Bool.{Bool-set}
use mathlib.Core.List.{
  Perm, Mem, Mem-prop, mem-cons, mem-cons_self, mem-cons_of_mem, not-mem-nil, Pairwise,
  rel_of_Pairwise-cons,
}
use native.Mathlib.Bridge.{le_prop}
use mathlib.Core.List.Perm
use multi_tenant_agent_platf.Prelude.{
  ℕ, ◌≤◌, ◌≡◌, refl, Option, none, Bool, true, false, some, List, [], ◌∷◌, arith, Bool-cases, inl,
  inr,
}
use multi_tenant_agent_platf.Rows.{select, first, exists}

module _ {A : Type 0} (q : A → Bool) where
  exists-none : (xs : List A) (x : A) → exists q xs ≡ false → Mem x xs → q x ≡ false
  unfolding exists
  exists-none [] x h m = absurd (not-mem-nil m)
  exists-none (y ∷ xs) x h m =
      Or.elim (Bool-set (q x) false) (mem-cons.0 m) (λ e. rw e (ground (arith, h)))
        (λ g. exists-none xs x (ground (arith, h)) g)

  pub none-exists : (xs : List A) → ((x : A) → Mem x xs → q x ≡ false) → exists q xs ≡ false
  unfolding exists
  none-exists [] h = refl
  none-exists (y ∷ xs) h =
      rw (h y mem-cons_self, none-exists xs (λ x m. h x (mem-cons_of_mem y m))) refl

  -- A condition that no row meets is met by none in another order.
  pub exists-Perm : {xs ys : List A} → Perm xs ys → exists q ys ≡ false → exists q xs ≡ false
  exists-Perm {xs} {ys} p h = none-exists xs λ x m. exists-none ys x h (Perm.subset p x m)

  pub select-holds : (xs : List A) (x : A) → Mem x (select q xs) → q x ≡ true
  unfolding select
  select-holds [] x m = absurd (not-mem-nil m)
  select-holds (y ∷ xs) x m = elim (Bool-cases (q y)) [
    | inl e ↦
        Or.elim (Bool-set (q x) true) (mem-cons.0 (rw e at m)) (λ g. rw g e)
          (λ g. select-holds xs x g)
    | inr e ↦ select-holds xs x (rw e at m)
  ]

  -- The first row of a query in any order meets its condition.
  pub first-Perm : (xs ys : List A) (x : A) → Perm ys (select q xs) → first ys ≡ some x → q x ≡ true
  first-Perm xs [] x p h = absurd (ground arith)
  first-Perm xs (y ∷ ys) x p h =
      let same : y ≡ x = ground (arith, h) in
      select-holds xs x (Perm.subset p x (rw same (mem-cons_self {a = x} {l = ys})))

  -- A row that a query gives is in the table.
  pub mem_of_mem-select : (xs : List A) (x : A) → Mem x (select q xs) → Mem x xs
  unfolding select
  mem_of_mem-select [] x m = m
  mem_of_mem-select (y ∷ xs) x m = elim (Bool-cases (q y)) [
    | inl e ↦
        Or.elim Mem-prop (mem-cons.0 (rw e at m)) (λ g. rw g mem-cons_self)
          (λ g. mem-cons_of_mem y (mem_of_mem-select xs x g))
    | inr e ↦ mem-cons_of_mem y (mem_of_mem-select xs x (rw e at m))
  ]

  pub mem-first : (xs : List A) (x : A) → first (select q xs) ≡ some x → Mem x xs
  mem-first xs x h = mem_of_mem-select xs x (go (select q xs) h)
    where
      go : (ys : List A) → first ys ≡ some x → Mem x ys
      go [] h = absurd (ground arith)
      go (y ∷ ys) h = let same : y ≡ x = ground (arith, h) in rw same mem-cons_self

-- Neither is there, or both are and have the same key.
abbrev pub SameKey : {A : Type 0} → (A → ℕ) → Option A → Option A → Type 0
SameKey key none none = Unit {0}
SameKey key none (some y) = ⊥
SameKey key (some x) none = ⊥
SameKey key (some x) (some y) = key x ≡ key y

module _ {A : Type 0} (key : A → ℕ) where
  first-least :
      (x : A) (xs : List A)
      → Pairwise (λ a b. key a ≤ key b) (x ∷ xs)
      → (y : A) → Mem y (x ∷ xs)
      → key x ≤ key y
  first-least x xs sorted y m =
      Or.elim le_prop (mem-cons.0 m) (λ e. rw e (omega arith)) (rel_of_Pairwise-cons sorted)

  -- The first of the same rows in two orders by the key.
  pub first-SameKey :
      (xs ys : List A)
      → Perm xs ys
      → Pairwise (λ a b. key a ≤ key b) xs
      → Pairwise (λ a b. key a ≤ key b) ys
      → SameKey key (first xs) (first ys)
  first-SameKey [] [] p sx sy = tt
  first-SameKey [] (y ∷ ys) p sx sy =
      absurd (not-mem-nil (Perm.subset (Perm.symm p) y (mem-cons_self {a = y} {l = ys})))
  first-SameKey (x ∷ xs) [] p sx sy =
      absurd (not-mem-nil (Perm.subset p x (mem-cons_self {a = x} {l = xs})))
  first-SameKey (x ∷ xs) (y ∷ ys) p sx sy = omega (
    arith,
    first-least x xs sx y (Perm.subset (Perm.symm p) y (mem-cons_self {a = y} {l = ys})),
    first-least y ys sy x (Perm.subset p x (mem-cons_self {a = x} {l = xs})),
  )
