-- ===== src/Base/Tenants.antt =====
-- The two-level dict `dict[tenant, dict[key, value]]` in which every in-memory store of the
-- backend keeps its objects.
use Prim.Native.String.{String}
use mathlib.Core.Path.{◌≡◌}
use mathlib.Core.Bool.{◌&&◌}
use mathlib.Core.Option.{Option, none, some}
use mathlib.Core.List.{[]}
use native.Mathlib.Omega.{arith}
use text.Mathlib.Text.{◌==◌}
use text.Mathlib.TextEquality.{eq_iff}
use ai_powered_security_inve.Base.Tests.{if◌then◌else◌}
use ai_powered_security_inve.Base.Dict.{Dict, lookup, insert, lookup-insert}

abbrev pub Tenants {ℓ} : Type ℓ → Type ℓ
Tenants V = Dict (Dict V)

module _ {ℓ} {V : Type ℓ} where
  abbrev pub or_empty : Option (Dict V) → Dict V
  or_empty none = []
  or_empty (some d) = d

  -- store.get(tenant, {})
  unfoldable pub bucket : String → Tenants V → Dict V
  bucket t s = or_empty (lookup t s)

  -- store.get(tenant, {}).get(key)
  unfoldable pub find : String → String → Tenants V → Option V
  unfolding bucket
  find t k s = lookup k (bucket t s)

  -- store.setdefault(tenant, {})[key] = value
  unfoldable pub put : String → String → V → Tenants V → Tenants V
  unfolding bucket
  put t k v s = insert t (insert k v (bucket t s)) s

  pub bucket-insert :
      (t u : String) (d : Dict V) (s : Tenants V)
      → bucket u (insert t d s) ≡ (if t == u then d else bucket u s)
  unfolding bucket
  bucket-insert t u d s = rw lookup-insert (ground arith)

  pub bucket-put :
      (t u k : String) (v : V) (s : Tenants V)
      → bucket u (put t k v s) ≡ (if t == u then insert k v (bucket t s) else bucket u s)
  unfolding put
  bucket-put t u k v s = bucket-insert t u (insert k v (bucket t s)) s

  pub find-put :
      (t u k j : String) (v : V) (s : Tenants V)
      → find u j (put t k v s) ≡ (if t == u && k == j then some v else find u j s)
  unfolding find
  find-put t u k j v s =
      ground (arith, eq_iff t u, bucket-put t u k v s, lookup-insert k j v (bucket t s))
