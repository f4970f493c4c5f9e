-- ===== src/Stores/Recent.antt =====
-- What `list` of backend/app/repository.py returns after any packages were saved.
use ai_powered_security_inve.Base.{String, ◌≡◌, Bool, List, leb}
use ai_powered_security_inve.Base.Dict.{Dict}
use ai_powered_security_inve.Stores.Investigations.{InvestigationPackage}

abbrev Of : String → String × InvestigationPackage → Type 0
Of t x = x.1.tenant ≡ t

-- the package is at least as new as the other
abbrev pub no_older : InvestigationPackage → InvestigationPackage → Bool
no_older p q = leb q.created_at p.created_at
