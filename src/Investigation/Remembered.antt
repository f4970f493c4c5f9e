-- ===== src/Investigation/Remembered.antt =====
-- What the memory of backend/app/agents/memory.py keeps of the cases of a tenant.
use ai_powered_security_inve.Base.{
  ℕ, zero, suc, ◌+◌, ◌-◌, ◌≤◌, String, List, [], ◌∷◌, ◌++◌, map, ◌≡◌, refl, sym, ap, ◌∙◌,
  if◌then◌else◌, ◌==◌, ltb, length, length-append, length-drop, drop, keep, Bool-cases, inl, inr,
  arith, eq_iff,
}
use ai_powered_security_inve.Base.Dict.{lookup-insert}
use ai_powered_security_inve.Investigation.Memory.{
  Floats, CompletedCase, CaseRecord, CaseStore, record_of, cases_of, appended, remember,
}

module _ {A : Type 0} where
  -- the last `n` elements
  abbrev pub last_of : ℕ → List A → List A
  last_of n xs = drop (length xs - n) xs

  drop-append : (k : ℕ) (xs ys : List A) → k ≤ length xs → drop k xs ++ ys ≡ drop k (xs ++ ys)
  drop-append zero xs ys h = refl
  drop-append (suc k) [] ys h = ground arith
  drop-append (suc k) (x ∷ xs) ys h = drop-append k xs ys (ground arith)

  pub drop_none : (k : ℕ) → drop {A = A} k [] ≡ []
  drop_none zero = refl
  drop_none (suc k) = refl

  drop-drop : (k j : ℕ) (xs : List A) → drop k (drop j xs) ≡ drop (k + j) xs
  drop-drop k zero xs = ap (λ n. drop n xs) (omega arith)
  drop-drop k (suc j) [] = drop_none k ∙ sym (drop_none (k + suc j))
  drop-drop k (suc j) (x ∷ xs) =
      let shift : suc (k + j) ≡ k + suc j = omega arith in
      drop-drop k j xs ∙ ap (λ n. drop n (x ∷ xs)) shift

  append_assoc : (xs ys zs : List A) → (xs ++ ys) ++ zs ≡ xs ++ (ys ++ zs)
  append_assoc [] ys zs = refl
  append_assoc (x ∷ xs) ys zs = ap (λ l. x ∷ l) (append_assoc xs ys zs)

  append_none : (xs : List A) → xs ++ [] ≡ xs
  append_none [] = refl
  append_none (x ∷ xs) = ap (λ l. x ∷ l) (append_none xs)

-- the cases of a tenant
abbrev pub cases_for : {F : Type 0} → String → List (CompletedCase F) → List (CompletedCase F)
cases_for tenant pkgs = keep (λ pkg. pkg.tenant == tenant) pkgs

module _ {F : Type 0} (floats : Floats F) (max_cases : ℕ) where
  abbrev pub remember_all : List (CompletedCase F) → CaseStore F → CaseStore F
  remember_all [] s = s
  remember_all (pkg ∷ pkgs) s = remember_all pkgs (remember floats max_cases pkg s)

  -- appending to the last cases of a list makes the last cases of the longer list
  appended-last_of :
      (c : CaseRecord F) (old : List (CaseRecord F))
      → appended floats max_cases c (last_of max_cases old) ≡ last_of max_cases (old ++ c ∷ [])
  unfolding appended
  appended-last_of c old =
      let k : ℕ = length old - max_cases in
      let short : List (CaseRecord F) = drop k old ++ c ∷ [] in
      let grown : short ≡ drop k (old ++ c ∷ []) = drop-append k old (c ∷ []) (omega arith) in
      let size : length short ≡ (length old - k) + 1 =
        omega (arith, length-append (drop k old) (c ∷ []), length-drop k old) in
      let total : length (old ++ c ∷ []) ≡ length old + 1 =
        omega (arith, length-append old (c ∷ [])) in
      elim (Bool-cases (ltb max_cases (length short))) [
        | inl over ↦
            let m : ℕ = length short - max_cases in
            let shift : m + k ≡ length (old ++ c ∷ []) - max_cases =
              ground (arith, size, total, over) in
            rw over (
              ap (drop m) grown
              ∙ drop-drop m k (old ++ c ∷ [])
              ∙ ap (λ n. drop n (old ++ c ∷ [])) shift)
        | inr fits ↦
            let none_left : k ≡ length (old ++ c ∷ []) - max_cases =
              ground (arith, size, total, fits) in
            rw fits (grown ∙ ap (λ n. drop n (old ++ c ∷ [])) none_left)
      ]

  cases_of-remember :
      (tenant : String) (pkg : CompletedCase F) (s : CaseStore F)
      → cases_of tenant (remember floats max_cases pkg s) ≡ (
          if pkg.tenant == tenant
          then appended floats max_cases (record_of floats pkg) (cases_of tenant s)
          else cases_of tenant s)
  unfolding cases_of remember
  cases_of-remember tenant pkg s =
      let c : CaseRecord F = record_of floats pkg in
      ground (
        arith,
        eq_iff pkg.tenant tenant,
        lookup-insert pkg.tenant tenant (appended floats max_cases c (cases_of pkg.tenant s)) s,
      )

  pub cases_of-remember_all :
      (tenant : String) (pkgs : List (CompletedCase F)) (old : List (CaseRecord F))
      (s : CaseStore F)
      → cases_of tenant s ≡ last_of max_cases old
      → cases_of tenant (remember_all pkgs s)
        ≡ last_of max_cases (old ++ map (record_of floats) (cases_for tenant pkgs))
  cases_of-remember_all tenant [] old s h = h ∙ ap (last_of max_cases) (sym (append_none old))
  cases_of-remember_all tenant (pkg ∷ pkgs) old s h = elim (Bool-cases (pkg.tenant == tenant)) [
    | inl own ↦
        let c : CaseRecord F = record_of floats pkg in
        let now : cases_of tenant (remember floats max_cases pkg s)
            ≡ last_of max_cases (old ++ c ∷ []) =
          cases_of-remember tenant pkg s
          ∙ rw own (ap (appended floats max_cases c) h ∙ appended-last_of c old) in
        rw own (
          cases_of-remember_all tenant pkgs (old ++ c ∷ []) (remember floats max_cases pkg s) now
          ∙ ap (last_of max_cases)
              (append_assoc old (c ∷ []) (map (record_of floats) (cases_for tenant pkgs))))
    | inr other ↦
        let now : cases_of tenant (remember floats max_cases pkg s) ≡ last_of max_cases old =
          cases_of-remember tenant pkg s ∙ rw other h in
        rw other (cases_of-remember_all tenant pkgs old (remember floats max_cases pkg s) now)
  ]
