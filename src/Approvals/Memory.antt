-- ===== src/Approvals/Memory.antt =====
-- `InMemoryApprovalStore` of backend/app/engines/approvals/service.py implements the protocol.
use mathlib.Core.Path.{sym, subst, subst₂}
use ai_powered_security_inve.Base.{
  String, ◌≡◌, refl, Option, none, some, List, [], ◌∷◌, if◌then◌else◌, ◌==◌, All, Bool-cases, inl,
  inr, false, arith, eq_iff, eq_refl,
}
use ai_powered_security_inve.Base.Tenants.{Tenants, bucket, find, put, find-put, bucket-put}
use ai_powered_security_inve.Base.Dict.{
  Dict, lookup, values, IsUnique, insert-IsUnique, All-insert, All-lookup,
}
use ai_powered_security_inve.Approvals.Types.{ApprovalRequest}
use ai_powered_security_inve.Approvals.Store.{ApprovalStore, IsCurrent, same_key}

abbrev pub MemoryStore : Type 0
MemoryStore = Tenants ApprovalRequest

-- `self._by_tenant.setdefault(req.tenant, {})[req.approval_id] = req`
unfoldable pub add : ApprovalRequest → MemoryStore → MemoryStore
add req s = put req.tenant req.approval_id req s

-- `self._by_tenant.get(tenant, {}).get(approval_id)`
unfoldable pub get : MemoryStore → String → String → Option ApprovalRequest
get s tenant approval_id = find tenant approval_id s

-- `list(self._by_tenant.get(tenant, {}).values())`
unfoldable pub list : MemoryStore → String → List ApprovalRequest
list s tenant = values (bucket tenant s)

unfoldable pub save : ApprovalRequest → MemoryStore → MemoryStore
unfolding add
save req s = add req s

abbrev pub HasKey : String → String × ApprovalRequest → Type 0
HasKey t (i, r) = (r.tenant ≡ t) × (r.approval_id ≡ i)

pub record IsKeyed (s : MemoryStore) : Type 0 where
  pub unique : (t : String) → IsUnique (bucket t s)
  pub own_key : (t : String) → All (HasKey t) (bucket t s)

pub get-add :
    (r : ApprovalRequest) (s : MemoryStore) (t i : String)
    → get (add r s) t i ≡ (if same_key r t i then some r else get s t i)
unfolding get add
get-add r s t i = find-put r.tenant t r.approval_id i r s

pub add-IsKeyed : (r : ApprovalRequest) (s : MemoryStore) → IsKeyed s → IsKeyed (add r s)
unfolding add
add-IsKeyed r s h = record {
  unique = λ t. rw bucket-put (elim (Bool-cases (r.tenant == t)) [
    | inl e ↦ rw e (insert-IsUnique r.approval_id r (bucket r.tenant s) (h.unique r.tenant))
    | inr e ↦ rw e (h.unique t)
  ]);
  own_key = λ t. rw bucket-put (elim (Bool-cases (r.tenant == t)) [
    | inl e ↦ rw e (
        All-insert (HasKey t) r.approval_id r (bucket r.tenant s) ((eq_iff r.tenant t).0 e, refl)
          (subst (λ u. All (HasKey u) (bucket r.tenant s)) ((eq_iff r.tenant t).0 e)
            (h.own_key r.tenant)))
    | inr e ↦ rw e (h.own_key t)
  ]);
}

pub get-save :
    (r old : ApprovalRequest) (s : MemoryStore) (t i : String)
    → get s r.tenant r.approval_id ≡ some old
    → get (save r s) t i ≡ (if same_key r t i then some r else get s t i)
unfolding save
get-save r old s t i h = get-add r s t i

pub save-IsKeyed : (r : ApprovalRequest) (s : MemoryStore) → IsKeyed s → IsKeyed (save r s)
unfolding save
save-IsKeyed r s h = add-IsKeyed r s h

pub key-get :
    (s : MemoryStore) (t i : String) (r : ApprovalRequest)
    → IsKeyed s
    → get s t i ≡ some r
    → (r.tenant ≡ t) × (r.approval_id ≡ i)
unfolding get find
key-get s t i r h e = All-lookup (HasKey t) i r (bucket t s) (h.own_key t) e

-- an entry under another key is another request
others_differ :
    (r : ApprovalRequest) (d : Dict ApprovalRequest) (t : String)
    → lookup r.approval_id d ≡ none
    → All (HasKey t) d
    → All (λ q. same_key r q.tenant q.approval_id ≡ false) (values d)
unfolding lookup
others_differ r [] t h a = tt
others_differ r ((j, q) ∷ d) t h a = (
  ground (arith, eq_iff r.approval_id q.approval_id, eq_iff j r.approval_id, a.0.1),
  others_differ r d t (ground arith) a.1,
)

module _ (t : String) (get_at : String → String → Option ApprovalRequest) where
  values-IsCurrent :
      (d : Dict ApprovalRequest)
      → IsUnique d
      → All (HasKey t) d
      → ((i : String) (r : ApprovalRequest) → lookup i d ≡ some r → get_at t i ≡ some r)
      → IsCurrent get_at (values d)
  unfolding lookup
  values-IsCurrent [] u a h = tt
  values-IsCurrent ((i, r) ∷ d) u a h =
      let e : r.tenant ≡ t = a.0.0 in
      let f : r.approval_id ≡ i = a.0.1 in
      (
        subst₂ (λ a b. get_at a b ≡ some r) (sym e) (sym f) (h i r (rw eq_refl)),
        others_differ r d t (rw f u.0) a.1,
        values-IsCurrent d u.1 a.1 λ j q p. h j q (ground (arith, eq_iff i j, u.0, p)),
      )

pub list-IsCurrent : (s : MemoryStore) (t : String) → IsKeyed s → IsCurrent (get s) (list s t)
unfolding list get find
list-IsCurrent s t h =
    values-IsCurrent t (get s) (bucket t s) (h.unique t) (h.own_key t) (λ i r p. p)

values-tenant :
    (t : String) (d : Dict ApprovalRequest) → All (HasKey t) d → All (λ r. r.tenant ≡ t) (values d)
values-tenant t [] a = tt
values-tenant t ((i, r) ∷ d) a = (a.0.0, values-tenant t d a.1)

pub list-tenant : (s : MemoryStore) (t : String) → IsKeyed s → All (λ r. r.tenant ≡ t) (list s t)
unfolding list
list-tenant s t h = values-tenant t (bucket t s) (h.own_key t)

All-values_back :
    (P : ApprovalRequest → Type 0) (d : Dict ApprovalRequest)
    → All P (values d)
    → All (λ e. P e.1) d
All-values_back P [] h = tt
All-values_back P (e ∷ d) h = (h.0, All-values_back P d h.1)

-- what holds of every listed request holds of one that is found
pub list-has :
    (P : ApprovalRequest → Type 0) (s : MemoryStore) (t i : String) (r : ApprovalRequest)
    → get s t i ≡ some r
    → All P (list s t)
    → P r
unfolding list get find
list-has P s t i r e h =
    All-lookup (λ x. P x.1) i r (bucket t s) (All-values_back P (bucket t s) h) e

-- The in-memory store meets every law of the protocol.
abbrev pub memory_store : ApprovalStore MemoryStore
memory_store = record {
  add = add;
  get = get;
  list = list;
  save = save;
  IsKeyed = IsKeyed;
  get-add = get-add;
  get-save = get-save;
  add-IsKeyed = add-IsKeyed;
  save-IsKeyed = save-IsKeyed;
  key-get = key-get;
  list-IsCurrent = list-IsCurrent;
  list-tenant = list-tenant;
  list-has = list-has;
}

pub empty-IsKeyed : IsKeyed []
unfolding bucket lookup
empty-IsKeyed = record { unique = λ t. tt; own_key = λ t. tt }
