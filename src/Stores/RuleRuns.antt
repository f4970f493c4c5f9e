-- ===== src/Stores/RuleRuns.antt =====
-- Sequences of calls of `RuleStore` (backend/app/engines/detection/store.py): the quota holds for
-- every tenant, no stored rule shadows a built-in one, and each stands under its own id once.
use mathlib.Core.Path.{subst}
use ai_powered_security_inve.Base.{
  ◌≤◌, String, ◌≡◌, refl, false, List, [], ◌∷◌, arith, length, All, Option-cases, Bool-cases, inl,
  inr,
}
use ai_powered_security_inve.Base.Dict.{
  Dict, lookup, insert, erase, IsUnique, insert-IsUnique, erase-IsUnique, length-insert, All-insert,
}
use ai_powered_security_inve.Base.Tenants.{Tenants, bucket, put}
use ai_powered_security_inve.Stores.Buckets.{bucket_has, length-erase, All-erase}
use ai_powered_security_inve.Stores.Rules.{
  max_rules, is_builtin, is_full, upsert, delete, bucket_present,
}

module _ {Rule : Type 0} (id : Rule → String) where
  pub data Call : Type 0 where
    storing : String → Rule → Call
    deleting : String → String → Call

  abbrev pub apply : Call → Tenants Rule → Tenants Rule
  apply (storing t rule) s = (upsert id t rule s).1
  apply (deleting t i) s = (delete t i s).1

  abbrev pub run : List Call → Tenants Rule → Tenants Rule
  run [] s = s
  run (c ∷ cs) s = run cs (apply c s)

  -- an entry of the dict of a tenant
  abbrev pub IsOwn : String × Rule → Type 0
  IsOwn (i, rule) = (id rule ≡ i) × (is_builtin i ≡ false)

  pub record IsValidDict (d : Dict Rule) : Type 0 where
    pub unique : IsUnique d
    pub own : All IsOwn d
    pub quota : length d ≤ max_rules

  abbrev pub IsValid : Tenants Rule → Type 0
  IsValid s = All (λ e. IsValidDict e.1) s

  empty-IsValidDict : IsValidDict []
  empty-IsValidDict = record { unique = tt; own = tt; quota = omega arith }

  pub bucket-IsValidDict : (t : String) (s : Tenants Rule) → IsValid s → IsValidDict (bucket t s)
  bucket-IsValidDict t s h = bucket_has IsValidDict t s empty-IsValidDict h

  insert-IsValid :
      (t : String) (d : Dict Rule) (s : Tenants Rule)
      → IsValidDict d
      → IsValid s
      → IsValid (insert t d s)
  insert-IsValid t d s v h = All-insert (λ e. IsValidDict e.1) t d s v h

  stored-IsValidDict :
      (rule : Rule) (d : Dict Rule)
      → is_builtin (id rule) ≡ false
      → is_full id (id rule) d ≡ false
      → IsValidDict d
      → IsValidDict (insert (id rule) rule d)
  stored-IsValidDict rule d free room v = record {
    unique = insert-IsUnique (id rule) rule d v.unique;
    own = All-insert IsOwn (id rule) rule d (refl, free) v.own;
    quota = ground (arith, length-insert (id rule) rule d, room, v.quota);
  }

  erased-IsValidDict : (i : String) (d : Dict Rule) → IsValidDict d → IsValidDict (erase i d)
  erased-IsValidDict i d v = record {
    unique = erase-IsUnique i d v.unique;
    own = All-erase IsOwn i d v.own;
    quota = omega (arith, length-erase i d, v.quota);
  }

  upsert-IsValid :
      (t : String) (rule : Rule) (s : Tenants Rule) → IsValid s → IsValid (upsert id t rule s).1
  unfolding upsert put
  upsert-IsValid t rule s h = elim (Bool-cases (is_builtin (id rule))) [
    | inl taken ↦ rw taken h
    | inr free ↦
        let v = bucket-IsValidDict t s h in
        elim (Bool-cases (is_full id (id rule) (bucket t s))) [
          | inl full ↦ rw (free, full) (insert-IsValid t (bucket t s) s v h)
          | inr room ↦
              rw (free, room)
                (insert-IsValid t (insert (id rule) rule (bucket t s)) s
                  (stored-IsValidDict rule (bucket t s) free room v) h)
        ]
  ]

  delete-IsValid : (t i : String) (s : Tenants Rule) → IsValid s → IsValid (delete t i s).1
  unfolding delete bucket
  delete-IsValid t i s h = elim (Option-cases (lookup t s)) [
    | inl absent ↦ rw absent h
    | inr (d, there) ↦ rw there (
        insert-IsValid t (erase i d) s
          (erased-IsValidDict i d
            (subst IsValidDict (bucket_present t d s there) (bucket-IsValidDict t s h)))
          h)
  ]

  -- After any sequence of calls on a valid store, such as the empty one, every tenant has at most
  -- `max_rules` rules, each under its own id, which is not a built-in one, and no id twice.
  pub run-IsValid : (cs : List Call) (s : Tenants Rule) → IsValid s → IsValid (run cs s)
  run-IsValid [] s h = h
  run-IsValid (storing t rule ∷ cs) s h =
      run-IsValid cs (upsert id t rule s).1 (upsert-IsValid t rule s h)
  run-IsValid (deleting t i ∷ cs) s h = run-IsValid cs (delete t i s).1 (delete-IsValid t i s h)
