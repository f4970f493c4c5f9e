-- ===== src/Stores/Buckets.antt =====
-- Bounds on the dicts of the tenants in a store.
use ai_powered_security_inve.Base.{
  ◌≤◌, String, [], ◌∷◌, ◌==◌, arith, length, All, Option-cases, Bool-cases, inl, inr,
}
use ai_powered_security_inve.Base.Dict.{Dict, lookup, erase, All-lookup}
use ai_powered_security_inve.Base.Tenants.{Tenants, bucket}

module _ {V : Type 0} where
  pub length-erase : (k : String) (d : Dict V) → length (erase k d) ≤ length d
  unfolding erase
  length-erase k [] = omega arith
  length-erase k ((i, w) ∷ d) = ground (arith, length-erase k d)

  pub All-erase : (P : String × V → Type 0) (k : String) (d : Dict V) → All P d → All P (erase k d)
  unfolding erase
  All-erase P k [] h = tt
  All-erase P k ((i, w) ∷ d) h = elim (Bool-cases (i == k)) [
    | inl t ↦ rw t h.1
    | inr f ↦ rw f (h.0, All-erase P k d h.1)
  ]

  -- What holds of the empty dict and of the dict of every tenant holds of the dict that a tenant is
  -- looked up to have.
  pub bucket_has :
      (P : Dict V → Type 0) (t : String) (s : Tenants V)
      → P []
      → All (λ e. P e.1) s
      → P (bucket t s)
  unfolding bucket
  bucket_has P t s e h = elim (Option-cases (lookup t s)) [
    | inl absent ↦ rw absent e
    | inr (d, there) ↦ rw there (All-lookup (λ x. P x.1) t d s h there)
  ]
