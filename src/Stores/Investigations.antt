-- ===== src/Stores/Investigations.antt =====
-- `InMemoryInvestigationRepo` of backend/app/repository.py, on the fields of a package that it reads.
use ai_powered_security_inve.Base.{
  ℕ, String, ◌≡◌, refl, Option, none, some, Bool, ◌&&◌, List, [], ◌∷◌, if◌then◌else◌, ◌==◌, leb,
  ◌∙◌, ap, take, All,
}
use ai_powered_security_inve.Base.Sort.{sort}
use ai_powered_security_inve.Base.Dict.{values}
use ai_powered_security_inve.Base.Tenants.{Tenants, bucket, find, put, find-put}
use ai_powered_security_inve.Schemas.Common.{InvestigationStatus}
use ai_powered_security_inve.Base.Exec.{Result, ok, err}

pub record InvestigationPackage : Type 0 where
  pub tenant : String
  pub investigation_id : String
  pub status : InvestigationStatus
  pub created_at : ℕ

pub data NotFoundError : Type 0 where
  not_found : NotFoundError

abbrev pub Repo : Type 0
Repo = Tenants InvestigationPackage

unfoldable pub save : InvestigationPackage → Repo → Repo
save pkg s = put pkg.tenant pkg.investigation_id pkg s

abbrev pub get_found : Option InvestigationPackage → Result NotFoundError InvestigationPackage
get_found none = err not_found
get_found (some pkg) = ok pkg

unfoldable pub get : String → String → Repo → Result NotFoundError InvestigationPackage
get tenant i s = get_found (find tenant i s)

-- the sort key `created_at`, the greatest first
abbrev pub newer : InvestigationPackage → InvestigationPackage → Bool
newer p q = leb q.created_at p.created_at

unfoldable pub list : String → ℕ → Repo → List InvestigationPackage
list tenant limit s = take limit (sort newer (values (bucket tenant s)))

abbrev pub save_all : List InvestigationPackage → Repo → Repo
save_all [] s = s
save_all (p ∷ ps) s = save_all ps (save p s)

-- every package stands under its tenant
abbrev pub IsFiled : Repo → Type 0
IsFiled s = All (λ e. All (λ x. x.1.tenant ≡ e.0) e.1) s

-- the lookup of the packages that were saved last, or of what there was
abbrev pub latest :
    String
    → String
    → List InvestigationPackage
    → Option InvestigationPackage
    → Option InvestigationPackage
latest t i [] found = found
latest t i (p ∷ ps) found =
    latest t i ps (if p.tenant == t && p.investigation_id == i then some p else found)

pub saved :
    (t i : String) (p : InvestigationPackage) (s : Repo)
    → find t i (save p s)
      ≡ (if p.tenant == t && p.investigation_id == i then some p else find t i s)
unfolding save
saved t i p s = find-put p.tenant t p.investigation_id i p s

-- After any packages were saved, `get` returns the one saved last with this id for this tenant, or
-- what was there before, and reports a missing one otherwise: never the package of another tenant.
pub get-save_all :
    (tenant i : String) (ps : List InvestigationPackage) (s : Repo)
    → get tenant i (save_all ps s) ≡ get_found (latest tenant i ps (find tenant i s))
unfolding get
get-save_all t i [] s = refl
get-save_all t i (p ∷ ps) s =
    get-save_all t i ps (save p s) ∙ ap (λ x. get_found (latest t i ps x)) (saved t i p s)
