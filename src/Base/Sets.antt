-- ===== src/Base/Sets.antt =====
-- A set of texts, as the list of its elements: `x in xs` and `xs.add(x)`.
use Prim.Native.String.{String}
use mathlib.Core.Path.{◌≡◌, refl, sym, subst}
use mathlib.Core.Logic.{inl, inr}
use mathlib.Core.Bool.{Bool, true, ◌||◌, ◌&&◌}
use mathlib.Core.List.{List, [], ◌∷◌, ◌++◌}
use native.Mathlib.Omega.{arith}
use text.Mathlib.Text.{◌==◌}
use text.Mathlib.TextEquality.{eq_iff}
use text.Mathlib.TextPositions.{eq_refl}
use ai_powered_security_inve.Base.Tests.{if◌then◌else◌, Bool-cases}
use ai_powered_security_inve.Base.Lists.{any, keep}
use ai_powered_security_inve.Base.Sort.{sort, sort_insert}

abbrev pub is_in : String → List String → Bool
is_in x = any (λ y. y == x)

abbrev pub add : String → List String → List String
add x xs = if is_in x xs then xs else xs ++ x ∷ []

module _ {ℓ} {A : Type ℓ} (p : A → Bool) where
  pub any-append : (xs ys : List A) → any p (xs ++ ys) ≡ (any p xs || any p ys)
  any-append [] ys = refl
  any-append (x ∷ xs) ys = ground (arith, any-append xs ys)

  any-sort_insert :
      (le : A → A → Bool) (x : A) (xs : List A) → any p (sort_insert le x xs) ≡ (p x || any p xs)
  any-sort_insert le x [] = refl
  any-sort_insert le x (y ∷ ys) = ground (arith, any-sort_insert le x ys)

  pub any-sort : (le : A → A → Bool) (xs : List A) → any p (sort le xs) ≡ any p xs
  unfolding sort
  any-sort le [] = refl
  any-sort le (x ∷ xs) = ground (arith, any-sort_insert le x (sort le xs), any-sort le xs)

pub any_congr {ℓ} :
    {A : Type ℓ} (p q : A → Bool) (xs : List A) → ((x : A) → p x ≡ q x) → any p xs ≡ any q xs
any_congr p q xs h = λ i. any (λ x. h x i) xs

-- the element that passes the test
pub any-found :
    (p : String → Bool) (xs : List String)
    → any p xs ≡ true
    → (x : String) × (is_in x xs ≡ true) × (p x ≡ true)
any-found p [] h = cc
any-found p (x ∷ xs) h = elim (Bool-cases (p x)) [
  | inl t ↦ (x, ground (arith, eq_refl x), t)
  | inr f ↦
      let (y, i, t) : (y : String) × (is_in y xs ≡ true) × (p y ≡ true) =
        any-found p xs (ground arith) in
      (y, ground arith, t)
]

pub is_in-any :
    (p : String → Bool) (x : String) (xs : List String)
    → is_in x xs ≡ true
    → p x ≡ true
    → any p xs ≡ true
is_in-any p x [] h t = cc
is_in-any p x (y ∷ ys) h t = elim (Bool-cases (y == x)) [
  | inl e ↦ subst (λ z. (p z || any p ys) ≡ true) (sym ((eq_iff y x).0 e)) (rw t refl)
  | inr f ↦ ground (arith, is_in-any p x ys)
]

pub is_in-add : (x y : String) (xs : List String) → is_in y (add x xs) ≡ (is_in y xs || x == y)
is_in-add x y xs = ground (arith, any-append (λ z. z == y) xs (x ∷ []), eq_iff x y)

pub is_in-keep :
    (p : String → Bool) (x : String) (xs : List String) → is_in x (keep p xs) ≡ (p x && is_in x xs)
is_in-keep p x [] = ground arith
is_in-keep p x (y ∷ ys) = elim (Bool-cases (y == x)) [
  | inl e ↦
      subst (λ z. is_in x (keep p (z ∷ ys)) ≡ (p x && is_in x (z ∷ ys))) (sym ((eq_iff y x).0 e))
        (ground (arith, is_in-keep p x ys, eq_refl x))
  | inr f ↦ ground (arith, is_in-keep p x ys)
]
