-- ===== src/Base/Sort.antt =====
-- `list.sort(key=…)`: Python's sort is stable. Here it is the stable insertion sort by a Boolean
-- order `le`; `reverse=True`, which keeps the order of equal keys, is the sort by the reversed order.
use mathlib.Core.Path.{◌≡◌, refl}
use mathlib.Core.Logic.{inl, inr}
use mathlib.Core.Bool.{Bool, true, false}
use mathlib.Core.List.{List, [], ◌∷◌, Perm}
use mathlib.Core.List.Perm
use native.Mathlib.Omega.{arith}
use Prim.Native.Nat.{ℕ, ◌+◌}
use ai_powered_security_inve.Base.Tests.{if◌then◌else◌, Bool-cases}
use ai_powered_security_inve.Base.Lists.{All, sum_by}

module _ {ℓ} {A : Type ℓ} (le : A → A → Bool) where
  abbrev pub sort_insert : A → List A → List A
  sort_insert x [] = x ∷ []
  sort_insert x (y ∷ ys) = if le x y then x ∷ y ∷ ys else y ∷ sort_insert x ys

  unfoldable pub sort : List A → List A
  sort [] = []
  sort (x ∷ xs) = sort_insert x (sort xs)

  -- Every element is at most all that follow it.
  abbrev pub IsSorted : List A → Type ℓ
  IsSorted [] = Unit
  IsSorted (x ∷ xs) = All {ℓ, 0} (λ y. le x y ≡ true) xs × IsSorted xs

module _ {ℓ} {A : Type ℓ} (le : A → A → Bool) where
  sort_insert-perm : (x : A) (ys : List A) → Perm (sort_insert le x ys) (x ∷ ys)
  sort_insert-perm x [] = Perm.refl (x ∷ [])
  sort_insert-perm x (y ∷ ys) = elim (Bool-cases (le x y)) [
    | inl t ↦ rw t (Perm.refl (x ∷ y ∷ ys))
    | inr f ↦ rw f (Perm.trans (Perm.cons y (sort_insert-perm x ys)) (Perm.swap x y ys))
  ]

  pub sort-perm : (xs : List A) → Perm (sort le xs) xs
  unfolding sort
  sort-perm [] = Perm.refl []
  sort-perm (x ∷ xs) = Perm.trans (sort_insert-perm x (sort le xs)) (Perm.cons x (sort-perm xs))

module _ {ℓ κ} {A : Type ℓ} (le : A → A → Bool) (P : A → Type κ) where
  pub All-sort_insert : (x : A) (ys : List A) → P x → All P ys → All P (sort_insert le x ys)
  All-sort_insert x [] p h = (p, tt)
  All-sort_insert x (y ∷ ys) p h = elim (Bool-cases (le x y)) [
    | inl t ↦ rw t (p, h)
    | inr f ↦ rw f (h.0, All-sort_insert x ys p h.1)
  ]

  -- What holds of every element holds after the sort.
  pub All-sort : (xs : List A) → All P xs → All P (sort le xs)
  unfolding sort
  All-sort [] h = tt
  All-sort (x ∷ xs) h = All-sort_insert x (sort le xs) h.0 (All-sort xs h.1)

-- A sort by `le` is sorted by any coarser order `below`.
module _ {ℓ} {A : Type ℓ} (le below : A → A → Bool)
    (before : (x y : A) → le x y ≡ true → below x y ≡ true)
    (after : (x y : A) → le x y ≡ false → below y x ≡ true)
    (trans : (x y z : A) → below x y ≡ true → below y z ≡ true → below x z ≡ true) where
  All-trans :
      (x y : A) (ys : List A)
      → below x y ≡ true
      → All {ℓ, 0} (λ z. below y z ≡ true) ys
      → All {ℓ, 0} (λ z. below x z ≡ true) ys
  All-trans x y [] h a = tt
  All-trans x y (z ∷ ys) h a = (trans x y z h a.0, All-trans x y ys h a.1)

  sort_insert-IsSorted :
      (x : A) (ys : List A) → IsSorted below ys → IsSorted below (sort_insert le x ys)
  sort_insert-IsSorted x [] h = (tt, tt)
  sort_insert-IsSorted x (y ∷ ys) h = elim (Bool-cases (le x y)) [
    | inl t ↦ rw t ((before x y t, All-trans x y ys (before x y t) h.0), h)
    | inr f ↦ rw f (
      All-sort_insert le (λ z. below y z ≡ true) x ys (after x y f) h.0,
      sort_insert-IsSorted x ys h.1,
    )
  ]

  pub sort-IsSorted_by : (xs : List A) → IsSorted below (sort le xs)
  unfolding sort
  sort-IsSorted_by [] = tt
  sort-IsSorted_by (x ∷ xs) = sort_insert-IsSorted x (sort le xs) (sort-IsSorted_by xs)

module _ {ℓ} {A : Type ℓ} (le : A → A → Bool) (total : (x y : A) → le x y ≡ false → le y x ≡ true)
    (trans : (x y z : A) → le x y ≡ true → le y z ≡ true → le x z ≡ true) where
  pub sort-IsSorted : (xs : List A) → IsSorted le (sort le xs)
  sort-IsSorted xs = sort-IsSorted_by le le (λ x y h. h) total trans xs

module _ {ℓ} {A : Type ℓ} (le : A → A → Bool) (f : A → ℕ) where
  sum_by-sort_insert : (x : A) (ys : List A) → sum_by f (sort_insert le x ys) ≡ f x + sum_by f ys
  sum_by-sort_insert x [] = refl
  sum_by-sort_insert x (y ∷ ys) = ground (arith, sum_by-sort_insert x ys)

  pub sum_by-sort : (xs : List A) → sum_by f (sort le xs) ≡ sum_by f xs
  unfolding sort
  sum_by-sort [] = refl
  sum_by-sort (x ∷ xs) = omega (arith, sum_by-sort_insert x (sort le xs), sum_by-sort xs)
