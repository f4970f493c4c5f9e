-- ===== src/Approvals/Creating.antt =====
-- `create_for_package` adds requests under fresh ids and leaves every other slot alone.
use mathlib.Core.Path.{subst}
use ai_powered_security_inve.Base.{
  ℕ, ◌+◌, ◌≤◌, ◌<◌, String, ◌≡◌, refl, sym, ◌∙◌, none, some, true, List, [], ◌∷◌, arith, eq_iff,
  Bool-cases, inl, inr,
}
use ai_powered_security_inve.Approvals.Types.{PlaybookStep, ApprovalRequest, Package}
use ai_powered_security_inve.Approvals.Store.{ApprovalStore, same_key}
use ai_powered_security_inve.Approvals.Service.{
  Env, Service, requests_for, add_all, create_for_package, time, tick,
}
use ai_powered_security_inve.Approvals.Lifecycle.{here, IsNew}
use ai_powered_security_inve.Approvals.Progress.{
  stored, Progress, Advance, Advance-refl, Advance-trans, keys_agree,
}

module _ (env : Env) where
  -- new requests under ids that `uuid4` draws from `lo` up to `hi`, in this order
  abbrev IsBatch : ℕ → ℕ → List ApprovalRequest → Type 0
  IsBatch lo hi [] = lo ≤ hi
  IsBatch lo hi (r ∷ rs) =
      (lo < hi) × (r.approval_id ≡ env.uuid4 lo) × IsNew r × IsBatch (lo + 1) hi rs

  IsBatch-le : (lo hi : ℕ) (rs : List ApprovalRequest) → IsBatch lo hi rs → lo ≤ hi
  IsBatch-le lo hi [] b = b
  IsBatch-le lo hi (r ∷ rs) b = omega (arith, b.0)

module _ {S : Type 0} (st : ApprovalStore S) (env : Env) where
  requests_for-IsBatch :
      (pkg : Package) (by : String) (now : ℕ) (steps : List PlaybookStep) (s : Service S)
      → let (reqs, s') = requests_for st env pkg by now steps s in
        (s'.store ≡ s.store) × IsBatch env s.drawn s'.drawn reqs
  unfolding requests_for
  requests_for-IsBatch pkg by now [] s = (refl, omega arith)
  requests_for-IsBatch pkg by now (step ∷ steps) s = elim (Bool-cases step.requires_approval) [
    | inl t ↦ rw t (
        let (same, batch) =
          requests_for-IsBatch pkg by now steps (record s { drawn = s.drawn + 1 }) in
        (
          same,
          (
            omega (arith, IsBatch-le env (s.drawn + 1) _ _ batch),
            refl,
            record { is_pending = refl; undecided = refl; unexecuted = refl },
            batch,
          ),
        ))
    | inr f ↦ rw f (requests_for-IsBatch pkg by now steps s)
  ]

  -- No request is stored under an id that is still to be drawn.
  abbrev pub IsFresh : ℕ → Service S → Type 0
  IsFresh lo s = (n : ℕ) → lo ≤ n → (t : String) → stored st env s t (env.uuid4 n) ≡ none

  module _ (injective : (m n : ℕ) → env.uuid4 m ≡ env.uuid4 n → m ≡ n) where
    add_one : ApprovalRequest → Service S → Service S
    add_one r s = record s { store = st.add r s.store }

    add_one-IsFresh :
        (lo : ℕ) (r : ApprovalRequest) (s : Service S)
        → r.approval_id ≡ env.uuid4 lo
        → IsFresh lo s
        → IsFresh (lo + 1) (add_one r s)
    unfolding add_one
    add_one-IsFresh lo r s e f n h t = ground (
      arith,
      st.get-add r s.store t (env.uuid4 n),
      eq_iff r.approval_id (env.uuid4 n),
      injective lo n,
      f n (omega arith) t,
    )

    add_one-Advance :
        (lo : ℕ) (r : ApprovalRequest) (s : Service S) (t i : String)
        → r.approval_id ≡ env.uuid4 lo
        → IsNew r
        → IsFresh lo s
        → Advance env lo (lo + 1) i (stored st env s t i) (stored st env (add_one r s) t i)
    unfolding add_one
    add_one-Advance lo r s t i e new f =
        rw (st.get-add r s.store t i) (elim (Bool-cases (same_key r t i)) [
          | inl own ↦ rw own (
              subst (λ o. Advance env lo (lo + 1) i o (some r)) (sym (vacant own))
                (lo, r, omega arith, omega arith, is_id own, new, here))
          | inr other ↦ rw other (Advance-refl env lo (lo + 1) i (stored st env s t i))
        ])
      where
        is_id : same_key r t i ≡ true → i ≡ env.uuid4 lo
        is_id own = sym (keys_agree r t i own).1 ∙ e

        vacant : same_key r t i ≡ true → stored st env s t i ≡ none
        vacant own =
            subst (λ j. stored st env s t j ≡ none) (sym (is_id own)) (f lo (omega arith) t)

    add_all-Advance :
        (lo hi : ℕ) (rs : List ApprovalRequest) (s : Service S) (t i : String)
        → IsBatch env lo hi rs
        → IsFresh lo s
        → Advance env lo hi i (stored st env s t i) (stored st env (add_all st env rs s) t i)
    unfolding add_all
    add_all-Advance lo hi [] s t i b f = Advance-refl env lo hi i (stored st env s t i)
    add_all-Advance lo hi (r ∷ rs) s t i b f =
        let s' = record s { store = st.add r s.store } in
        Advance-trans env lo (lo + 1) hi i (stored st env s t i) (stored st env s' t i)
          (stored st env (add_all st env rs s') t i) (omega arith) (omega (arith, b.0))
          (unfold add_one in add_one-Advance lo r s t i b.1 b.2 f)
          (add_all-Advance (lo + 1) hi rs s' t i b.3
            (unfold add_one in add_one-IsFresh lo r s b.1 f))

  add_all-IsKeyed :
      (rs : List ApprovalRequest) (s : Service S)
      → st.IsKeyed s.store
      → st.IsKeyed (add_all st env rs s).store
  unfolding add_all
  add_all-IsKeyed [] s k = k
  add_all-IsKeyed (r ∷ rs) s k =
      add_all-IsKeyed rs (record s { store = st.add r s.store }) (st.add-IsKeyed r s.store k)

  drawn-add_all :
      (rs : List ApprovalRequest) (s : Service S) → (add_all st env rs s).drawn ≡ s.drawn
  unfolding add_all
  drawn-add_all [] s = refl
  drawn-add_all (r ∷ rs) s = drawn-add_all rs (record s { store = st.add r s.store })

  pub create-Progress :
      (injective : (m n : ℕ) → env.uuid4 m ≡ env.uuid4 n → m ≡ n) (pkg : Package) (by : String)
      (s : Service S)
      → st.IsKeyed s.store
      → IsFresh s.drawn s
      → Progress st env s (create_for_package st env pkg by s).1
  unfolding create_for_package
  create-Progress injective pkg by s k f =
      let made = requests_for st env pkg by (time st env s) pkg.playbook (tick st env s) in
      let (same, batch) =
        requests_for-IsBatch pkg by (time st env s) pkg.playbook (tick st env s) in
      let d = drawn-add_all made.0 made.1 in
      record {
        keyed = add_all-IsKeyed made.0 made.1 (subst st.IsKeyed (sym same) k);
        drawn = omega (arith, d, IsBatch-le env s.drawn made.1.drawn made.0 batch);
        slots = λ t i.
            subst
              (λ h.
                Advance env s.drawn h i (stored st env s t i)
                  (stored st env (add_all st env made.0 made.1) t i))
              (sym d)
              (subst
                (λ o.
                  Advance env s.drawn made.1.drawn i (st.get o t i)
                    (stored st env (add_all st env made.0 made.1) t i))
                same
                (add_all-Advance injective s.drawn made.1.drawn made.0 made.1 t i batch
                  (λ n h u. subst (λ o. st.get o u (env.uuid4 n) ≡ none) (sym same) (f n h u))));
      }
