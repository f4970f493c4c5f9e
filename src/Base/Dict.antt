-- ===== src/Base/Dict.antt =====
-- Python's `dict` with text keys, as an association list in insertion order: an assignment to a key
-- that is present keeps its place, a new key goes to the end.
use Prim.Native.Nat.{◌+◌}
use Prim.Native.String.{String}
use mathlib.Core.Path.{◌≡◌, refl, sym, subst, subst₂}
use mathlib.Core.Logic.{inl, inr}
use mathlib.Core.Bool.{Bool, true, false}
use mathlib.Core.Option.{Option, none, some}
use mathlib.Core.List.{List, [], ◌∷◌, ◌++◌}
use native.Mathlib.Omega.{arith}
use text.Mathlib.Text.{◌==◌}
use text.Mathlib.TextEquality.{eq_iff}
use ai_powered_security_inve.Base.Tests.{if◌then◌else◌, is_some, Bool-cases}
use ai_powered_security_inve.Base.Lists.{length, All}

abbrev pub Dict {ℓ} : Type ℓ → Type ℓ
Dict V = List (String × V)

module _ {ℓ} {V : Type ℓ} where
  -- d.get(k)
  unfoldable pub lookup : String → Dict V → Option V
  lookup k [] = none
  lookup k ((j, v) ∷ d) = if j == k then some v else lookup k d

  -- d[k] = v
  unfoldable pub insert : String → V → Dict V → Dict V
  insert k v [] = (k, v) ∷ []
  insert k v ((j, w) ∷ d) = if j == k then (j, v) ∷ d else (j, w) ∷ insert k v d

  -- d.pop(k, None)
  unfoldable pub erase : String → Dict V → Dict V
  erase k [] = []
  erase k ((j, v) ∷ d) = if j == k then d else (j, v) ∷ erase k d

  -- k in d
  abbrev pub contains : String → Dict V → Bool
  contains k d = is_some (lookup k d)

  -- list(d.values())
  abbrev pub values : Dict V → List V
  values [] = []
  values ((_, v) ∷ d) = v ∷ values d

  -- list(d)
  abbrev pub keys : Dict V → List String
  keys [] = []
  keys ((k, _) ∷ d) = k ∷ keys d

module _ {ℓ} {V : Type ℓ} where
  -- No key stands twice.
  abbrev pub IsUnique : Dict V → Type ℓ
  IsUnique [] = Unit
  IsUnique ((k, v) ∷ d) = (lookup k d ≡ none) × IsUnique d

  pub lookup-insert :
      (k j : String) (v : V) (d : Dict V)
      → lookup j (insert k v d) ≡ (if k == j then some v else lookup j d)
  unfolding lookup insert
  lookup-insert k j v [] = refl
  lookup-insert k j v ((i, w) ∷ d) =
      ground (arith, eq_iff k j, eq_iff i k, eq_iff i j, lookup-insert k j v d)

  pub insert-IsUnique : (k : String) (v : V) (d : Dict V) → IsUnique d → IsUnique (insert k v d)
  unfolding lookup insert
  insert-IsUnique k v [] h = (refl, tt)
  insert-IsUnique k v ((i, w) ∷ d) h =
      ground (arith, eq_iff i k, eq_iff k i, insert-IsUnique k v d h.1, lookup-insert k i v d)

  pub lookup-erase :
      (k j : String) (d : Dict V)
      → IsUnique d
      → lookup j (erase k d) ≡ (if k == j then none else lookup j d)
  unfolding lookup erase
  lookup-erase k j [] h = ground arith
  lookup-erase k j ((i, w) ∷ d) h =
      ground (arith, eq_iff k j, eq_iff i k, eq_iff i j, lookup-erase k j d h.1)

  pub erase-IsUnique : (k : String) (d : Dict V) → IsUnique d → IsUnique (erase k d)
  unfolding lookup erase
  erase-IsUnique k [] h = tt
  erase-IsUnique k ((i, w) ∷ d) h =
      ground (arith, eq_iff i k, eq_iff k i, erase-IsUnique k d h.1, lookup-erase k i d h.1)

  pub length-insert :
      (k : String) (v : V) (d : Dict V)
      → length (insert k v d) ≡ (if is_some (lookup k d) then length d else length d + 1)
  unfolding lookup insert
  length-insert k v [] = omega arith
  length-insert k v ((i, w) ∷ d) = ground (arith, length-insert k v d)

  -- an assignment to a new key appends
  pub insert_new :
      (k : String) (v : V) (d : Dict V) → lookup k d ≡ none → insert k v d ≡ d ++ (k, v) ∷ []
  unfolding lookup insert
  insert_new k v [] h = refl
  insert_new k v ((i, w) ∷ d) h = ground (arith, insert_new k v d)

  found :
      (i k : String) (w v : V) (d : Dict V)
      → (i == k) ≡ true
      → lookup k ((i, w) ∷ d) ≡ some v
      → w ≡ v
  unfolding lookup
  found i k w v d t e = cc

  passed :
      (i k : String) (w v : V) (d : Dict V)
      → (i == k) ≡ false
      → lookup k ((i, w) ∷ d) ≡ some v
      → lookup k d ≡ some v
  unfolding lookup
  passed i k w v d t e = ground arith

module _ {ℓ κ} {V : Type ℓ} where
  -- A predicate on the entries holds of a value that is found.
  pub All-lookup :
      (P : String × V → Type κ) (k : String) (v : V) (d : Dict V)
      → All P d
      → lookup k d ≡ some v
      → P (k, v)
  unfolding lookup
  All-lookup P k v [] h e = cc
  All-lookup P k v ((i, w) ∷ d) h e = elim (Bool-cases (i == k)) [
    | inl t ↦ subst₂ (λ a b. P (a, b)) ((eq_iff i k).0 t) (found i k w v d t e) h.0
    | inr f ↦ All-lookup P k v d h.1 (passed i k w v d f e)
  ]

  pub All-insert :
      (P : String × V → Type κ) (k : String) (v : V) (d : Dict V)
      → P (k, v)
      → All P d
      → All P (insert k v d)
  unfolding insert
  All-insert P k v [] p h = (p, tt)
  All-insert P k v ((i, w) ∷ d) p h = elim (Bool-cases (i == k)) [
    | inl t ↦ rw t (subst (λ a. P (a, v)) (sym ((eq_iff i k).0 t)) p, h.1)
    | inr f ↦ rw f (h.0, All-insert P k v d p h.1)
  ]
