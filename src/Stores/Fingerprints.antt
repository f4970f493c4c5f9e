-- ===== src/Stores/Fingerprints.antt =====
-- `InMemoryFingerprintStore` of backend/app/engines/fingerprint/store.py, over any type of
-- fingerprints with an investigation id.
use ai_powered_security_inve.Base.{
  ℕ, ◌-◌, ◌≤◌, ◌<◌, String, ◌≡◌, refl, ◌∙◌, Option, none, some, List, [], ◌∷◌, if◌then◌else◌, ◌==◌,
  ltb, eqb, arith, eq_iff, eq_refl, length, drop, All, Bool-cases, inl, inr, ap,
}
use ai_powered_security_inve.Base.Dict.{
  Dict, lookup, insert, values, IsUnique, insert-IsUnique, length-insert, lookup-insert, All-insert,
}
use ai_powered_security_inve.Base.Tenants.{Tenants, bucket, find, bucket-insert}
use ai_powered_security_inve.Stores.Buckets.{bucket_has}

module _ {Dna : Type 0} (investigation_id : Dna → String) (max_per_tenant : ℕ) where
  -- `if len(bucket) > self._max: del bucket[next(iter(bucket))]`
  unfoldable pub evict : Dict (Dna × String) → Dict (Dna × String)
  evict d = if ltb max_per_tenant (length d) then drop 1 d else d

  unfoldable pub store : String → Dna → String → Tenants (Dna × String) → Tenants (Dna × String)
  store tenant dna title s =
      insert tenant (evict (insert (investigation_id dna) (dna, title) (bucket tenant s))) s

-- `xs[-limit:]`, which is all of `xs` for 0
abbrev pub last : {A : Type 0} → ℕ → List A → List A
last n xs = if eqb n 0 then xs else drop (length xs - n) xs

module _ {Dna : Type 0} where
  unfoldable pub all_for_tenant : String → ℕ → Tenants (Dna × String) → List (Dna × String)
  all_for_tenant tenant limit s = last limit (values (bucket tenant s))

  abbrev pub row_dna : Option (Dna × String) → Option Dna
  row_dna none = none
  row_dna (some row) = some row.0

  unfoldable pub get : String → String → Tenants (Dna × String) → Option Dna
  get tenant i s = row_dna (find tenant i s)

module _ {Dna : Type 0} (investigation_id : Dna → String) (max_per_tenant : ℕ) where
  abbrev pub IsBounded : Dict (Dna × String) → Type 0
  IsBounded d = IsUnique d × (length d ≤ max_per_tenant)

  drop-IsUnique : (d : Dict (Dna × String)) → IsUnique d → IsUnique (drop 1 d)
  drop-IsUnique [] h = tt
  drop-IsUnique (e ∷ d) h = h.1

  evict-IsBounded :
      (k : String) (v : Dna × String) (d : Dict (Dna × String))
      → IsBounded d
      → IsBounded (evict investigation_id max_per_tenant (insert k v d))
  unfolding evict
  evict-IsBounded k v d h =
      let u = insert-IsUnique k v d h.0 in
      elim (Bool-cases (ltb max_per_tenant (length (insert k v d)))) [
        | inl over ↦
            rw over (drop-IsUnique (insert k v d) u, ground (arith, over, length-insert k v d))
        | inr fits ↦ rw fits (u, ground (arith, fits))
      ]

  -- the value that has just gone in is not the one that is evicted
  evict-found :
      (k : String) (v : Dna × String) (d : Dict (Dna × String))
      → 0 < max_per_tenant
      → length d ≤ max_per_tenant
      → lookup k (evict investigation_id max_per_tenant (insert k v d)) ≡ some v
  unfolding evict lookup insert
  evict-found k v [] pos le = ground (arith, eq_refl k)
  evict-found k v ((i, w) ∷ d) pos le = elim (Bool-cases (i == k)) [
    | inl same ↦ rw same (ground (arith, same))
    | inr other ↦ rw other (ground (arith, other, eq_refl k, lookup-insert k k v d))
  ]

  abbrev pub IsBoundedStore : Tenants (Dna × String) → Type 0
  IsBoundedStore s = All (λ e. IsBounded e.1) s

  bucket-IsBounded :
      (t : String) (s : Tenants (Dna × String)) → IsBoundedStore s → IsBounded (bucket t s)
  bucket-IsBounded t s h = bucket_has IsBounded t s (tt, omega arith) h

  -- In a store within a bound that is not zero, a fingerprint that is stored for a tenant is the one
  -- that `get` then returns, no tenant holds more than `max_per_tenant` afterwards, and every other
  -- tenant holds what it held.
  pub store_outcome :
      (tenant : String) (dna : Dna) (title u : String) (s : Tenants (Dna × String))
      → 0 < max_per_tenant
      → IsBoundedStore s
      → (get tenant
            (investigation_id dna)
            (store investigation_id max_per_tenant tenant dna title s)
          ≡ some dna)
        × IsBoundedStore (store investigation_id max_per_tenant tenant dna title s)
        × (bucket u (store investigation_id max_per_tenant tenant dna title s) ≡ (
            if tenant == u
            then bucket tenant (store investigation_id max_per_tenant tenant dna title s)
            else bucket u s))
  unfolding store get find
  store_outcome t dna title u s pos h =
      let k = investigation_id dna in
      let v : Dna × String = (dna, title) in
      let b = bucket-IsBounded t s h in
      let d = evict investigation_id max_per_tenant (insert k v (bucket t s)) in
      (
        ap (λ x. row_dna (lookup k x)) (bucket-insert t t d s ∙ rw (eq_refl t) refl)
            ∙ ap row_dna (evict-found k v (bucket t s) pos b.1),
        All-insert (λ e. IsBounded e.1) t d s (evict-IsBounded k v (bucket t s) b) h,
        ground (arith, bucket-insert t u d s, bucket-insert t t d s, eq_refl t, eq_iff t u),
      )
