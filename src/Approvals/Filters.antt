-- ===== src/Approvals/Filters.antt =====
-- What the filters of `list` in backend/app/engines/approvals/service.py let through.
use mathlib.Core.List.{Mem}
use ai_powered_security_inve.Base.Members.{Mem-sort, All-self, All-keep_back}
use mathlib.Core.Path.{subst}
use ai_powered_security_inve.Base.{
  String, ◌≡◌, ◌≢◌, refl, Option, none, some, true, false, List, [], ◌∷◌, ◌==◌, arith, eq_iff, ◌⊎◌,
  inl, inr, All, All-keep, All-keep_test, All-map,
}
use ai_powered_security_inve.Base.Sort.{sort}
use ai_powered_security_inve.Approvals.Types.{
  ApprovalStatus, pending, approved, rejected, executed, expired, same_status, ApprovalRequest,
}
use ai_powered_security_inve.Approvals.Service.{newer, with_status, with_investigation}

pub newer_total : (a b : ApprovalRequest) → newer a b ≡ false → newer b a ≡ true
newer_total a b h = ground arith

pub newer_trans : (a b c : ApprovalRequest) → newer a b ≡ true → newer b c ≡ true → newer a c ≡ true
newer_trans a b c h k = ground arith

pub All-with_status :
    (P : ApprovalRequest → Type 0) (o : Option ApprovalStatus) (rs : List ApprovalRequest)
    → All P rs
    → All P (with_status o rs)
All-with_status P none rs h = h
All-with_status P (some x) rs h = All-keep P (λ r. same_status r.status x) rs h

pub All-with_investigation :
    (P : ApprovalRequest → Type 0) (o : Option String) (rs : List ApprovalRequest)
    → All P rs
    → All P (with_investigation o rs)
All-with_investigation P none rs h = h
All-with_investigation P (some x) rs h = All-keep P (λ r. r.investigation_id == x) rs h

-- what the two optional filters of the query ask for
abbrev pub HasStatus : Option ApprovalStatus → ApprovalRequest → Type 0
HasStatus none q = Unit
HasStatus (some x) q = q.status ≡ x

abbrev pub HasInvestigation : Option String → ApprovalRequest → Type 0
HasInvestigation none q = Unit
HasInvestigation (some x) q = q.investigation_id ≡ x

abbrev pub IsAsked : Option ApprovalStatus → Option String → ApprovalRequest → Type 0
IsAsked status inv q = HasStatus status q × HasInvestigation inv q

-- a request of another status or of another investigation than the one asked for
abbrev HasOtherStatus : Option ApprovalStatus → ApprovalRequest → Type 0
HasOtherStatus none q = ⊥
HasOtherStatus (some x) q = q.status ≢ x

abbrev HasOtherInvestigation : Option String → ApprovalRequest → Type 0
HasOtherInvestigation none q = ⊥
HasOtherInvestigation (some x) q = q.investigation_id ≢ x

abbrev pub IsOther : Option ApprovalStatus → Option String → ApprovalRequest → Type 0
IsOther status inv q = HasOtherStatus status q ⊎ HasOtherInvestigation inv q

same_status-≡ : (a b : ApprovalStatus) → same_status a b ≡ true → a ≡ b
same_status-≡ a b h = ground arith

same_status_refl : (a : ApprovalStatus) → same_status a a ≡ true
same_status_refl pending = refl
same_status_refl approved = refl
same_status_refl rejected = refl
same_status_refl executed = refl
same_status_refl expired = refl

same_status-≢ : (a b : ApprovalStatus) → same_status a b ≡ false → a ≢ b
same_status-≢ a b h = λ e. cc (subst (λ x. same_status a x ≡ true) e (same_status_refl a))

All-true : (rs : List ApprovalRequest) → All (λ q. Unit {0}) rs
All-true [] = tt
All-true (r ∷ rs) = (tt, All-true rs)

pub filtered-status :
    (o : Option ApprovalStatus) (rs : List ApprovalRequest) → All (HasStatus o) (with_status o rs)
filtered-status none rs = All-true rs
filtered-status (some x) rs =
    All-map (λ q. same_status q.status x ≡ true) (HasStatus (some x))
      (λ q h. same_status-≡ q.status x h) (with_status (some x) rs)
      (All-keep_test (λ q. same_status q.status x) rs)

pub filtered-investigation :
    (o : Option String) (rs : List ApprovalRequest)
    → All (HasInvestigation o) (with_investigation o rs)
filtered-investigation none rs = All-true rs
filtered-investigation (some x) rs =
    All-map (λ q. (q.investigation_id == x) ≡ true) (HasInvestigation (some x))
      (λ q h. (eq_iff q.investigation_id x).0 h) (with_investigation (some x) rs)
      (All-keep_test (λ q. q.investigation_id == x) rs)

-- what holds of the requests that a filter lets through holds of all but the others
back-with_status :
    (P : ApprovalRequest → Type 0) (o : Option ApprovalStatus) (rs : List ApprovalRequest)
    → All P (with_status o rs)
    → All (λ q. HasOtherStatus o q ⊎ P q) rs
back-with_status P none rs h = All-map P (λ q. ⊥ ⊎ P q) (λ q k. inr k) rs h
back-with_status P (some x) rs h =
    All-map (λ q. (same_status q.status x ≡ false) ⊎ P q) (λ q. (q.status ≢ x) ⊎ P q) other rs
      (All-keep_back P (λ q. same_status q.status x) rs h)
  where
    other : (q : ApprovalRequest) → (same_status q.status x ≡ false) ⊎ P q → (q.status ≢ x) ⊎ P q
    other q (inl f) = inl (same_status-≢ q.status x f)
    other q (inr k) = inr k

back-with_investigation :
    (P : ApprovalRequest → Type 0) (o : Option String) (rs : List ApprovalRequest)
    → All P (with_investigation o rs)
    → All (λ q. HasOtherInvestigation o q ⊎ P q) rs
back-with_investigation P none rs h = All-map P (λ q. ⊥ ⊎ P q) (λ q k. inr k) rs h
back-with_investigation P (some x) rs h =
    All-map (λ q. ((q.investigation_id == x) ≡ false) ⊎ P q) (λ q. (q.investigation_id ≢ x) ⊎ P q)
      other rs (All-keep_back P (λ q. q.investigation_id == x) rs h)
  where
    other :
        (q : ApprovalRequest)
        → ((q.investigation_id == x) ≡ false) ⊎ P q
        → (q.investigation_id ≢ x) ⊎ P q
    other q (inl f) = inl (λ e. cc (f, (eq_iff q.investigation_id x).1 e))
    other q (inr k) = inr k

-- every request is in the result or of another status or investigation
pub none_dropped :
    (status : Option ApprovalStatus) (inv : Option String) (rs : List ApprovalRequest)
    → All
        (λ q.
          IsOther status inv q
          ⊎ Mem q (sort newer (with_investigation inv (with_status status rs))))
        rs
none_dropped status inv rs =
    let result : List ApprovalRequest =
      sort newer (with_investigation inv (with_status status rs)) in
    All-map (λ q. HasOtherStatus status q ⊎ (HasOtherInvestigation inv q ⊎ Mem q result))
      (λ q. IsOther status inv q ⊎ Mem q result) regroup rs
      (back-with_status (λ q. HasOtherInvestigation inv q ⊎ Mem q result) status rs
        (back-with_investigation (λ q. Mem q result) inv (with_status status rs)
          (All-self (with_investigation inv (with_status status rs)) result
            (λ q m. Mem-sort newer q (with_investigation inv (with_status status rs)) m))))
  where
    regroup :
        (q : ApprovalRequest)
        → HasOtherStatus status q
          ⊎ (HasOtherInvestigation inv q
              ⊎ Mem q (sort newer (with_investigation inv (with_status status rs))))
        → IsOther status inv q ⊎ Mem q (sort newer (with_investigation inv (with_status status rs)))
    regroup q (inl a) = inl (inl a)
    regroup q (inr (inl b)) = inl (inr b)
    regroup q (inr (inr m)) = inr m

pub All-both :
    (P Q : ApprovalRequest → Type 0) (rs : List ApprovalRequest)
    → All P rs
    → All Q rs
    → All (λ q. P q × Q q) rs
All-both P Q [] h k = tt
All-both P Q (r ∷ rs) h k = ((h.0, k.0), All-both P Q rs h.1 k.1)
