-- ===== src/Access/Rotation.antt =====
-- Which key `_JwksCache.get` of backend/app/core/security.py returns, and when it asks the issuer.
use ai_powered_security_inve.Base.{
  ℕ, ◌+◌, ◌≤◌, ◌<◌, String, ◌≡◌, Option, none, some, List, [], ◌∷◌, if◌then◌else◌, ◌⊎◌, ◌==◌,
}
use ai_powered_security_inve.Base.Dict.{Dict, lookup}
use ai_powered_security_inve.Base.Exec.{Result, ok, err, Exec}
use ai_powered_security_inve.Access.Keys.{JwksCache, Issuer, AuthError, fetch_failed, unknown_key}

module _ {Key : Type 0} where
  -- the last key of a response under an id
  abbrev pub latest : String → List (String × Key) → Option Key
  latest kid [] = none
  latest kid ((j, k) ∷ ks) = elim (latest kid ks) [
    | some later ↦ some later
    | none ↦ if j == kid then some k else none
  ]

  abbrev or_else : Option Key → Option Key → Option Key
  or_else (some k) other = some k
  or_else none other = other

module _ {Key : Type 0} (env : Issuer Key) where
  -- the cache has no key of the id, or was filled longer ago than its time to live
  abbrev pub IsDue : String → JwksCache Key → Type 0
  IsDue kid c = (lookup kid c.keys ≡ none) ⊎ (c.fetched_at + env.ttl < env.now c.readings)

  -- the n-th response has come, with this key under the id, or with none
  abbrev pub Brings : String → ℕ → Option Key → Type 0
  Brings kid n key = (ks : List (String × Key)) × (env.response n ≡ some ks) × (latest kid ks ≡ key)

  -- what the result of `get` and the cache after it have to do with the cache before
  pub data AnswersIn (kid : String) (c : JwksCache Key)
      : Result AuthError Key → JwksCache Key → Type 0 where
    kept :
        (k : Key) (after : JwksCache Key)
        → lookup kid c.keys ≡ some k
        → env.now c.readings ≤ c.fetched_at + env.ttl
        → after.keys ≡ c.keys
        → after.fetches ≡ c.fetches
        → AnswersIn kid c (ok k) after
    first_fetch :
        (k : Key) (after : JwksCache Key)
        → IsDue kid c
        → Brings kid c.fetches (some k)
        → lookup kid after.keys ≡ some k
        → after.fetches ≡ c.fetches + 1
        → AnswersIn kid c (ok k) after
    second_fetch :
        (k : Key) (after : JwksCache Key)
        → IsDue kid c
        → Brings kid c.fetches none
        → Brings kid (c.fetches + 1) (some k)
        → lookup kid after.keys ≡ some k
        → after.fetches ≡ c.fetches + 2
        → AnswersIn kid c (ok k) after
    unknown :
        (after : JwksCache Key)
        → IsDue kid c
        → Brings kid c.fetches none
        → Brings kid (c.fetches + 1) none
        → lookup kid after.keys ≡ none
        → after.fetches ≡ c.fetches + 2
        → AnswersIn kid c (err unknown_key) after
    first_failed :
        (after : JwksCache Key)
        → IsDue kid c
        → env.response c.fetches ≡ none
        → after.keys ≡ c.keys
        → AnswersIn kid c (err fetch_failed) after
    second_failed :
        (after : JwksCache Key)
        → IsDue kid c
        → Brings kid c.fetches none
        → env.response (c.fetches + 1) ≡ none
        → AnswersIn kid c (err fetch_failed) after

  abbrev pub Answers : String → JwksCache Key → Result AuthError Key × JwksCache Key → Type 0
  Answers kid c r = AnswersIn kid c r.0 r.1
