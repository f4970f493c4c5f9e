-- ===== src/Access/Keys.antt =====
-- `_JwksCache` of backend/app/core/security.py: the signing keys of an issuer. The network and the
-- clock are parameters; a response is the list of its keys under their ids.
use ai_powered_security_inve.Base.{
  ℕ, ◌+◌, String, Option, none, some, List, [], ◌∷◌, if◌then◌else◌, ltb,
}
use ai_powered_security_inve.Base.Dict.{Dict, lookup, insert, contains}
use ai_powered_security_inve.Base.Exec.{Result, ok, err, Exec, pure, raise}

pub record JwksCache (Key : Type 0) : Type 0 where
  pub keys : Dict Key
  pub fetched_at : ℕ
  -- how often the network was asked, and the clock was read
  pub fetches : ℕ
  pub readings : ℕ

pub record Issuer (Key : Type 0) : Type 0 where
  pub ttl : ℕ
  -- the n-th response, none for an `httpx.HTTPError`
  pub response : ℕ → Option (List (String × Key))
  -- the n-th reading of `time.time()`
  pub now : ℕ → ℕ

pub data AuthError : Type 0 where
  fetch_failed unknown_key : AuthError

module _ {Key : Type 0} where
  -- `{k["kid"]: k for k in ...}`
  abbrev pub by_kid : Dict Key → List (String × Key) → Dict Key
  by_kid d [] = d
  by_kid d ((kid, k) ∷ ks) = by_kid (insert kid k d) ks

  abbrev pub new_cache : JwksCache Key
  new_cache = record { keys = []; fetched_at = 0; fetches = 0; readings = 0 }

module _ {Key : Type 0} (env : Issuer Key) where
  abbrev pub refreshed : Option (List (String × Key)) → Exec (JwksCache Key) AuthError Unit
  refreshed none c = (err fetch_failed, record c { fetches = c.fetches + 1 })
  refreshed (some ks) c = (
    ok tt,
    record {
      keys = by_kid [] ks;
      fetched_at = env.now c.readings;
      fetches = c.fetches + 1;
      readings = c.readings + 1;
    },
  )

  -- `_refresh`
  abbrev pub refresh : Exec (JwksCache Key) AuthError Unit
  refresh c = refreshed (env.response c.fetches) c

  -- `kid not in self._keys or (time.time() - self._fetched_at) > self._ttl`
  abbrev pub refresh_if_stale : String → Exec (JwksCache Key) AuthError Unit
  refresh_if_stale kid c =
      let read = record c { readings = c.readings + 1 } in
      if contains kid c.keys
      then (if ltb (c.fetched_at + env.ttl) (env.now c.readings)
          then refresh read
          else (ok tt, read))
      else refresh c

  -- `if kid not in self._keys: self._refresh()`
  abbrev pub refresh_if_missing : String → Exec (JwksCache Key) AuthError Unit
  refresh_if_missing kid c = if contains kid c.keys then (ok tt, c) else refresh c

  abbrev pub found : Option Key → Exec (JwksCache Key) AuthError Key
  found none = raise unknown_key
  found (some k) = pure k

  -- what follows on a call that has not raised
  abbrev pub on_ok :
      Exec (JwksCache Key) AuthError Key
      → Result AuthError Unit × JwksCache Key
      → Result AuthError Key × JwksCache Key
  on_ok rest (ok _, c) = rest c
  on_ok rest (err e, c) = (err e, c)

  -- `get` after its first test, and after its second
  abbrev pub last_answer : String → Exec (JwksCache Key) AuthError Key
  last_answer kid c = found (lookup kid c.keys) c

  abbrev pub answer : String → Exec (JwksCache Key) AuthError Key
  answer kid c = on_ok (last_answer kid) (refresh_if_missing kid c)

  unfoldable pub get : String → Exec (JwksCache Key) AuthError Key
  get kid c = on_ok (answer kid) (refresh_if_stale kid c)
