-- ===== src/Base/Pairs.antt =====
-- A symmetric relation between any two elements of a list survives filtering, cutting and sorting.
use Prim.Native.Nat.{ℕ, zero, suc}
use mathlib.Core.Logic.{inl, inr}
use mathlib.Core.Bool.{Bool}
use mathlib.Core.List.{List, [], ◌∷◌, map}
use ai_powered_security_inve.Base.Tests.{Bool-cases}
use ai_powered_security_inve.Base.Lists.{All, All-keep, All-take, keep, take}
use ai_powered_security_inve.Base.Sort.{sort, sort_insert, All-sort_insert, All-sort}

module _ {ℓ} {A : Type ℓ} (R : A → A → Type 0) where
  abbrev pub Pairs : List A → Type 0
  Pairs [] = Unit
  Pairs (x ∷ xs) = All (R x) xs × Pairs xs

  pub Pairs-keep : (p : A → Bool) (xs : List A) → Pairs xs → Pairs (keep p xs)
  Pairs-keep p [] h = tt
  Pairs-keep p (x ∷ xs) h = elim (Bool-cases (p x)) [
    | inl t ↦ rw t (All-keep (R x) p xs h.0, Pairs-keep p xs h.1)
    | inr f ↦ rw f (Pairs-keep p xs h.1)
  ]

  pub Pairs-take : (n : ℕ) (xs : List A) → Pairs xs → Pairs (take n xs)
  Pairs-take zero xs h = tt
  Pairs-take (suc n) [] h = tt
  Pairs-take (suc n) (x ∷ xs) h = (All-take (R x) n xs h.0, Pairs-take n xs h.1)

  module _ (le : A → A → Bool) (symm : (x y : A) → R x y → R y x) where
    Pairs-sort_insert :
        (x : A) (ys : List A) → All (R x) ys → Pairs ys → Pairs (sort_insert le x ys)
    Pairs-sort_insert x [] h p = (tt, tt)
    Pairs-sort_insert x (y ∷ ys) h p = elim (Bool-cases (le x y)) [
      | inl t ↦ rw t (h, p)
      | inr f ↦
          rw f (All-sort_insert le (R y) x ys (symm x y h.0) p.0, Pairs-sort_insert x ys h.1 p.1)
    ]

    pub Pairs-sort : (xs : List A) → Pairs xs → Pairs (sort le xs)
    unfolding sort
    Pairs-sort [] h = tt
    Pairs-sort (x ∷ xs) h =
        Pairs-sort_insert x (sort le xs) (All-sort le (R x) xs h.0) (Pairs-sort xs h.1)

module _ {ℓ κ μ} {A : Type ℓ} where
  pub All-both :
      (P : A → Type κ) (Q : A → Type μ) (xs : List A)
      → All P xs
      → All Q xs
      → All (λ x. P x × Q x) xs
  All-both P Q [] h k = tt
  All-both P Q (x ∷ xs) h k = ((h.0, k.0), All-both P Q xs h.1 k.1)

module _ {ℓ κ μ} {A : Type ℓ} {B : Type κ} where
  -- what holds of every image holds of every element of the mapped list
  pub All-mapped :
      (P : B → Type μ) (f : A → B) (xs : List A) → All (λ x. P (f x)) xs → All P (map f xs)
  All-mapped P f [] h = tt
  All-mapped P f (x ∷ xs) h = (h.0, All-mapped P f xs h.1)
