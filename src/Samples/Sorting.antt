-- ===== src/Samples/Sorting.antt =====
-- Insertion sort, as an ORDER BY that meets the engine's laws.
use mathlib.Core.Logic.Or
use mathlib.Core.List.{Perm, Pairwise, Pairwise-cons, mem-cons, not-mem-nil}
use mathlib.Core.List.Perm
use native.Mathlib.Bridge.{le_prop}
use multi_tenant_agent_platf.Prelude.{
  ℕ, ◌≤◌, List, [], ◌∷◌, arith, if◌then◌else◌, leb, inl, inr, Bool-cases,
}

module _ {A : Type 0} (key : A → ℕ) where
  abbrev pub insert : A → List A → List A
  insert x [] = x ∷ []
  insert x (y ∷ ys) = if leb (key x) (key y) then x ∷ y ∷ ys else y ∷ insert x ys

  abbrev pub sort : List A → List A
  sort [] = []
  sort (x ∷ xs) = insert x (sort xs)

  insert-perm : (x : A) (xs : List A) → Perm (insert x xs) (x ∷ xs)
  insert-perm x [] = Perm.refl _
  insert-perm x (y ∷ ys) = elim (Bool-cases (leb (key x) (key y))) [
    | inl e ↦ rw e (Perm.refl _)
    | inr e ↦ rw e (Perm.trans (Perm.cons y (insert-perm x ys)) (Perm.swap x y ys))
  ]

  pub sort-perm : (xs : List A) → Perm (sort xs) xs
  sort-perm [] = Perm.refl []
  sort-perm (x ∷ xs) = Perm.trans (insert-perm x (sort xs)) (Perm.cons x (sort-perm xs))

  abbrev IsSorted : List A → Type 0
  IsSorted = Pairwise (λ a b. key a ≤ key b)

  insert-IsSorted : (x : A) (xs : List A) → IsSorted xs → IsSorted (insert x xs)
  insert-IsSorted x [] h = Pairwise-cons.1 (λ a m. absurd (not-mem-nil m), h)
  insert-IsSorted x (y ∷ ys) h = elim (Bool-cases (leb (key x) (key y))) [
    | inl e ↦ rw e (
        Pairwise-cons.1 (
          λ a m.
              Or.elim le_prop (mem-cons.0 m) (λ q. rw q (ground arith))
                (λ q. ground (arith, (Pairwise-cons.0 h).0 a q)),
          h,
        ))
    | inr e ↦ rw e (
        Pairwise-cons.1 (
          λ a m.
              Or.elim le_prop (mem-cons.0 (Perm.subset (insert-perm x ys) a m))
                (λ q. rw q (ground arith)) ((Pairwise-cons.0 h).0 a),
          insert-IsSorted x ys (Pairwise-cons.0 h).1,
        ))
  ]

  pub sort-IsSorted : (xs : List A) → IsSorted (sort xs)
  sort-IsSorted [] = Pairwise.nil
  sort-IsSorted (x ∷ xs) = insert-IsSorted x (sort xs) (sort-IsSorted xs)
