-- ===== src/Stores/Tests.antt =====
-- The stores on concrete rules, fingerprints and packages.
use ai_powered_security_inve.Base.{
  String, ◌≡◌, refl, some, List, [], ◌∷◌, if◌then◌else◌, ◌==◌, arith,
}
use ai_powered_security_inve.Base.Tenants.{Tenants, bucket, find}
use ai_powered_security_inve.Base.Exec.{err}
use ai_powered_security_inve.Schemas.Common.{complete}
use ai_powered_security_inve.Stores.Rules.{upsert, builtin_collision}
use ai_powered_security_inve.Stores.RuleRuns.{Call, storing, deleting, run, IsValid, run-IsValid}
use ai_powered_security_inve.Stores.Fingerprints
use ai_powered_security_inve.Stores.Fingerprints.{store, store_outcome, IsBoundedStore}
use ai_powered_security_inve.Stores.Investigations
use ai_powered_security_inve.Stores.Investigations.{
  InvestigationPackage, save_all, get_found, latest, get-save_all,
}

-- a rule is its id
abbrev own_id : String → String
own_id r = r

abbrev calls : List (Call own_id)
calls = storing "acme" "R-1" ∷ storing "acme" "AEG-1003" ∷ deleting "acme" "R-9" ∷ []

run-IsValid_example : IsValid own_id (run own_id calls [])
run-IsValid_example = run-IsValid own_id calls [] tt

shadowing : (upsert own_id "acme" "AEG-1003" []).0 ≡ err builtin_collision
unfolding upsert
shadowing = refl

-- two fingerprints in a store that holds one
abbrev first_stored : Tenants (String × String)
unfolding store
first_stored = store own_id 1 "acme" "I-1" "first" []

first-IsBoundedStore : IsBoundedStore own_id 1 first_stored
unfolding store
first-IsBoundedStore = (store_outcome own_id 1 "acme" "I-1" "first" "acme" [] (omega arith) tt).1

store_outcome_example :
    (Fingerprints.get "acme" "I-2" (store own_id 1 "acme" "I-2" "second" first_stored) ≡ some "I-2")
    × IsBoundedStore own_id 1 (store own_id 1 "acme" "I-2" "second" first_stored)
    × (bucket "other" (store own_id 1 "acme" "I-2" "second" first_stored) ≡ (
        if "acme" == "other"
        then bucket "acme" (store own_id 1 "acme" "I-2" "second" first_stored)
        else bucket "other" first_stored))
store_outcome_example =
    store_outcome own_id 1 "acme" "I-2" "second" "other" first_stored (omega arith)
      first-IsBoundedStore

abbrev first_package : InvestigationPackage
first_package = record {
  tenant = "acme";
  investigation_id = "I-1";
  status = complete;
  created_at = 1;
}

abbrev packages : List InvestigationPackage
packages =
    first_package
    ∷ record { tenant = "rival"; investigation_id = "I-1"; status = complete; created_at = 2 }
    ∷ record { tenant = "acme"; investigation_id = "I-2"; status = complete; created_at = 3 }
    ∷ []

get-save_all_example :
    Investigations.get "acme" "I-1" (save_all packages [])
    ≡ get_found (latest "acme" "I-1" packages (find "acme" "I-1" []))
get-save_all_example = get-save_all "acme" "I-1" packages []
