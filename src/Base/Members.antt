-- ===== src/Base/Members.antt =====
-- Which elements a filtered, a sorted and a cut list has.
use Prim.Native.Nat.{ℕ, zero, suc}
use mathlib.Core.Path.{◌≡◌, refl, ap}
use mathlib.Core.Logic.{inl, inr, ◌⊎◌}
use mathlib.Core.Bool.{Bool, true, false}
use mathlib.Core.List.{List, [], ◌∷◌, Mem, mem-cons_self, mem-cons_of_mem}
use mathlib.Core.List.Perm
use ai_powered_security_inve.Base.Tests.{Bool-cases}
use ai_powered_security_inve.Base.Lists.{All, keep, take, length, All-map, All-take}
use ai_powered_security_inve.Base.Pairs.{All-both}
use ai_powered_security_inve.Base.Sort.{sort, sort_insert, sort-perm, IsSorted, sort-IsSorted}

module _ {A : Type 0} where
  pub Mem-sort : (le : A → A → Bool) (x : A) (xs : List A) → Mem x xs → Mem x (sort le xs)
  Mem-sort le x xs h = (Perm.mem_iff (sort-perm le xs)).1 h

  -- what has to hold of the members of a list holds of its elements
  pub All-Mem :
      (P : A → Type 0) (xs ys : List A)
      → ((x : A) → Mem x ys → P x)
      → ((x : A) → Mem x xs → Mem x ys)
      → All P xs
  All-Mem P [] ys f sub = tt
  All-Mem P (x ∷ xs) ys f sub =
      (f x (sub x mem-cons_self), All-Mem P xs ys f (λ y m. sub y (mem-cons_of_mem x m)))

  Mem-keep_cons :
      (p : A → Bool) (x y : A) (xs : List A) → Mem y (keep p xs) → Mem y (keep p (x ∷ xs))
  Mem-keep_cons p x y xs h = elim (Bool-cases (p x)) [
    | inl t ↦ rw t (mem-cons_of_mem x h)
    | inr f ↦ rw f h
  ]

  -- an element that passes the test is kept
  pub Mem-keep : (p : A → Bool) (xs : List A) → All (λ y. (p y ≡ false) ⊎ Mem y (keep p xs)) xs
  Mem-keep p [] = tt
  Mem-keep p (x ∷ xs) = (
    elim (Bool-cases (p x)) [ inl t ↦ inr (rw t mem-cons_self) | inr f ↦ inl f ],
    All-map (λ y. (p y ≡ false) ⊎ Mem y (keep p xs)) (λ y. (p y ≡ false) ⊎ Mem y (keep p (x ∷ xs)))
        weaken xs (Mem-keep p xs),
  )
    where
      weaken : (y : A) → (p y ≡ false) ⊎ Mem y (keep p xs) → (p y ≡ false) ⊎ Mem y (keep p (x ∷ xs))
      weaken y (inl f) = inl f
      weaken y (inr m) = inr (Mem-keep_cons p x y xs m)

  -- what holds of the kept elements holds of every element that passes the test
  pub All-keep_back :
      (P : A → Type 0) (p : A → Bool) (xs : List A)
      → All P (keep p xs)
      → All (λ x. (p x ≡ false) ⊎ P x) xs
  All-keep_back P p [] h = tt
  All-keep_back P p (x ∷ xs) h = elim (Bool-cases (p x)) [
    | inl t ↦ let k : P x × All P (keep p xs) = rw t at h in (inr k.0, All-keep_back P p xs k.1)
    | inr f ↦ (inl f, All-keep_back P p xs (rw f at h))
  ]

  pub All-self : (xs ys : List A) → ((x : A) → Mem x xs → Mem x ys) → All (λ x. Mem x ys) xs
  All-self [] ys sub = tt
  All-self (x ∷ xs) ys sub =
      (sub x mem-cons_self, All-self xs ys (λ y m. sub y (mem-cons_of_mem x m)))

module _ {A : Type 0} (le : A → A → Bool) where
  -- what holds of the elements of a sorted list holds of those of the list
  All-sort_insert_back :
      (P : A → Type 0) (x : A) (ys : List A) → All P (sort_insert le x ys) → P x × All P ys
  All-sort_insert_back P x [] h = h
  All-sort_insert_back P x (y ∷ ys) h = elim (Bool-cases (le x y)) [
    | inl t ↦ rw t at h
    | inr f ↦
        let k : P y × All P (sort_insert le x ys) = rw f at h in
        let (first, rest) : P x × All P ys = All-sort_insert_back P x ys k.1 in (first, (k.0, rest))
  ]

  pub All-sort_back : (P : A → Type 0) (xs : List A) → All P (sort le xs) → All P xs
  unfolding sort
  All-sort_back P [] h = tt
  All-sort_back P (x ∷ xs) h =
      let (first, rest) : P x × All P (sort le xs) = All-sort_insert_back P x (sort le xs) h in
      (first, All-sort_back P xs rest)

  -- an element of a cut list, or one that comes after all of it
  abbrev pub IsTakenOrAfter : ℕ → List A → A → Type 0
  IsTakenOrAfter n taken x = Mem x taken ⊎ ((length taken ≡ n) × All (λ y. le y x ≡ true) taken)

  taken_or_after : (n : ℕ) (xs : List A) → IsSorted le xs → All (IsTakenOrAfter n (take n xs)) xs
  taken_or_after zero xs h = All-all (λ x. inr (refl, tt)) xs
    where
      All-all :
          ((x : A) → IsTakenOrAfter zero [] x) → (ys : List A) → All (IsTakenOrAfter zero []) ys
      All-all f [] = tt
      All-all f (y ∷ ys) = (f y, All-all f ys)
  taken_or_after (suc n) [] h = tt
  taken_or_after (suc n) (x ∷ xs) h = (
    inl mem-cons_self,
    All-map (λ y. (le x y ≡ true) × IsTakenOrAfter n (take n xs) y)
        (IsTakenOrAfter (suc n) (x ∷ take n xs)) later xs
        (All-both (λ y. le x y ≡ true) (IsTakenOrAfter n (take n xs)) xs h.0
          (taken_or_after n xs h.1)),
  )
    where
      later :
          (y : A)
          → (le x y ≡ true) × IsTakenOrAfter n (take n xs) y
          → IsTakenOrAfter (suc n) (x ∷ take n xs) y
      later y (first, inl m) = inl (mem-cons_of_mem x m)
      later y (first, inr (full, after)) = inr (ap suc full, (first, after))

  IsSorted-take : (n : ℕ) (xs : List A) → IsSorted le xs → IsSorted le (take n xs)
  IsSorted-take zero xs h = tt
  IsSorted-take (suc n) [] h = tt
  IsSorted-take (suc n) (x ∷ xs) h =
      (All-take (λ y. le x y ≡ true) n xs h.0, IsSorted-take n xs h.1)

  module _ (total : (x y : A) → le x y ≡ false → le y x ≡ true)
      (trans : (x y z : A) → le x y ≡ true → le y z ≡ true → le x z ≡ true) where
    -- Of a list that is sorted and then cut, every element is there or comes after all that is there,
    -- which is then as many as were asked for.
    pub All-IsTakenOrAfter : (n : ℕ) (xs : List A) → All (IsTakenOrAfter n (take n (sort le xs))) xs
    All-IsTakenOrAfter n xs =
        All-sort_back (IsTakenOrAfter n (take n (sort le xs))) xs
          (taken_or_after n (sort le xs) (sort-IsSorted le total trans xs))

    pub take-sort-IsSorted : (n : ℕ) (xs : List A) → IsSorted le (take n (sort le xs))
    take-sort-IsSorted n xs = IsSorted-take n (sort le xs) (sort-IsSorted le total trans xs)
