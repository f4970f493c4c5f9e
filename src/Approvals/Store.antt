-- ===== src/Approvals/Store.antt =====
-- The protocol `ApprovalStore` of backend/app/engines/approvals/service.py, with what the service
-- relies on. Beside the four methods stand a predicate that every reachable store satisfies and the
-- laws of the methods; `save` is only called on a request that the store has, since the Postgres
-- store raises on any other.
use ai_powered_security_inve.Base.{
  String, ◌≡◌, Option, some, Bool, false, ◌&&◌, List, [], ◌∷◌, if◌then◌else◌, ◌==◌, All,
}
use ai_powered_security_inve.Approvals.Types.{ApprovalRequest}

abbrev pub same_key : ApprovalRequest → String → String → Bool
same_key r t i = r.tenant == t && r.approval_id == i

-- The requests of a list are what the store has under their keys, and no key stands twice.
abbrev pub IsCurrent : (String → String → Option ApprovalRequest) → List ApprovalRequest → Type 0
IsCurrent get [] = Unit
IsCurrent get (r ∷ rs) =
    (get r.tenant r.approval_id ≡ some r)
    × All (λ q. same_key r q.tenant q.approval_id ≡ false) rs
    × IsCurrent get rs

pub record ApprovalStore (S : Type 0) : Type 1 where
  pub add : ApprovalRequest → S → S
  pub get : S → String → String → Option ApprovalRequest
  pub list : S → String → List ApprovalRequest
  pub save : ApprovalRequest → S → S
  pub IsKeyed : S → Type 0
  pub get-add :
      (r : ApprovalRequest) (s : S) (t i : String)
      → get (add r s) t i ≡ (if same_key r t i then some r else get s t i)
  pub get-save :
      (r old : ApprovalRequest) (s : S) (t i : String)
      → get s r.tenant r.approval_id ≡ some old
      → get (save r s) t i ≡ (if same_key r t i then some r else get s t i)
  pub add-IsKeyed : (r : ApprovalRequest) (s : S) → IsKeyed s → IsKeyed (add r s)
  pub save-IsKeyed : (r : ApprovalRequest) (s : S) → IsKeyed s → IsKeyed (save r s)
  pub key-get :
      (s : S) (t i : String) (r : ApprovalRequest)
      → IsKeyed s
      → get s t i ≡ some r
      → (r.tenant ≡ t) × (r.approval_id ≡ i)
  pub list-IsCurrent : (s : S) (t : String) → IsKeyed s → IsCurrent (get s) (list s t)
  pub list-tenant : (s : S) (t : String) → IsKeyed s → All (λ r. r.tenant ≡ t) (list s t)
  pub list-has :
      (P : ApprovalRequest → Type 0) (s : S) (t i : String) (r : ApprovalRequest)
      → get s t i ≡ some r
      → All P (list s t)
      → P r
