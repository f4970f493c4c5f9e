-- ===== src/Accounts/Routes.antt =====
-- The routes that register and sign in, of backend/app/api/v1/routes/auth.py, with their rate limit. The
-- random draws and the readings of the clock are those of an environment, in their order.
use ai_powered_security_inve.Base.{
  ℕ, ◌+◌, String, Option, none, some, Bool, not, List, [], ◌∷◌, ◌++◌, if◌then◌else◌, ◌==◌, ltb, leb,
  keep, length, eqb,
}
use Prim.Native.Char.{code}
use ai_powered_security_inve.Base.Dict.{Dict, lookup, insert}
use ai_powered_security_inve.Base.Exec.{Result, ok, err, Exec}
use ai_powered_security_inve.Base.Text.{lower, occurs_in}
use ai_powered_security_inve.Accounts.Passwords.{Hashing, hash_password, verify_password}
use ai_powered_security_inve.Accounts.Store.{
  RegistrationError, message, UserAccount, UserStore, validate_registration, create, get_by_email,
  Settings, SessionClaims, session_claims,
}

abbrev pub rate_limit : ℕ
rate_limit = 10

-- in ticks of the clock
abbrev pub window_seconds : ℕ
window_seconds = 60

pub record RegisterRequest : Type 0 where
  pub email : String
  pub password : String
  pub display_name : String

pub record LoginRequest : Type 0 where
  pub email : String
  pub password : String

pub record SessionResponse : Type 0 where
  pub access_token : String
  pub expires_in : ℕ
  pub email : String
  pub display_name : String
  pub tenant : String
  pub roles : List String

-- `HTTPException`
pub record HttpException : Type 0 where
  pub status_code : ℕ
  pub detail : String

abbrev pub http : ℕ → String → HttpException
http status_code detail = record { status_code = status_code; detail = detail }

abbrev pub too_many_attempts : HttpException
too_many_attempts = http 429 "too many auth attempts"

abbrev pub invalid_login : HttpException
invalid_login = http 401 "invalid email or password"

pub record Env : Type 1 where
  pub hashing : Hashing
  pub settings : Settings
  pub is_email : String → Bool
  -- `jwt.encode` with HS256
  pub encode : SessionClaims → String → String
  -- the n-th `uuid.uuid4()`, `os.urandom(16)` and reading of the clock
  pub uuid4 : ℕ → String
  pub urandom : ℕ → hashing.Bytes
  pub now : ℕ → ℕ

pub record Auth : Type 0 where
  pub users : UserStore
  pub hits : Dict (List ℕ)
  pub drawn : ℕ
  pub salted : ℕ
  pub readings : ℕ

abbrev pub window_of : Option (List ℕ) → List ℕ
window_of none = []
window_of (some window) = window

-- `[t for t in window if t > now - _WINDOW_SECONDS]`
unfoldable pub recent : ℕ → List ℕ → List ℕ
recent now window = keep (λ t. ltb now (t + window_seconds)) window

-- `_throttle` for a caller and at a time
unfoldable pub throttle :
    String → ℕ → Dict (List ℕ) → Result HttpException (Unit {0}) × Dict (List ℕ)
throttle ip now hits =
    let window = recent now (window_of (lookup ip hits)) in
    if leb rate_limit (length window)
    then (err too_many_attempts, insert ip window hits)
    else (ok tt, insert ip (window ++ now ∷ []) hits)

-- `s.split("@")[0]`
unfoldable pub before_at : String → String
before_at String.[] = ""
before_at (String.◌∷◌ c s) =
    let rest = before_at s in if eqb (code c) 64 then "" else String.◌∷◌ c rest

abbrev pub or_else : String → String → String
or_else a b = if a == "" then b else a

-- the status of a refused registration
unfoldable pub refused : RegistrationError → HttpException
refused e = http (if occurs_in "already exists" (message e) then 409 else 400) (message e)

module _ (env : Env) where
  -- `_throttle`
  abbrev pub throttled : String → Exec Auth HttpException (Unit {0})
  throttled ip s =
      let (r, hits) = throttle ip (env.now s.readings) s.hits in
      (r, record s { hits = hits; readings = s.readings + 1 })

  -- `_session`, with `issue_session_token`
  unfoldable pub session : UserAccount → Auth → SessionResponse × Auth
  session user s = (
    record {
      access_token =
          env.encode (session_claims env.settings (env.now s.readings) user)
            env.settings.secret_key;
      expires_in = env.settings.session_ttl;
      email = user.email;
      display_name = user.display_name;
      tenant = user.tenant;
      roles = user.roles;
    },
    record s { readings = s.readings + 1 },
  )

  abbrev pub signed_in : UserAccount → Exec Auth HttpException SessionResponse
  signed_in user s = let (r, s') = session user s in (ok r, s')

  -- the account that `register` creates
  unfoldable pub new_account : RegisterRequest → Auth → UserAccount
  new_account body s = record {
    subject = env.uuid4 s.drawn;
    email = lower body.email;
    display_name = or_else body.display_name (before_at body.email);
    tenant = env.settings.default_tenant;
    roles = env.settings.default_user_role ∷ [];
    provider = "password";
    password_hash = hash_password env.hashing (env.urandom s.salted) body.password;
    created_at = env.now s.readings;
  }

  abbrev pub after_draws : Auth → Auth
  after_draws s = record s { drawn = s.drawn + 1; salted = s.salted + 1; readings = s.readings + 1 }

  abbrev pub created :
      Result RegistrationError UserAccount × UserStore → Exec Auth HttpException SessionResponse
  created (ok user, users) s = signed_in user (record s { users = users })
  created (err e, users) s = (err (refused e), record s { users = users })

  abbrev pub registered :
      RegisterRequest
      → Result RegistrationError (Unit {0})
      → Exec Auth HttpException SessionResponse
  registered body (err e) s = (err (refused e), s)
  registered body (ok _) s = created (create (new_account body s) s.users) (after_draws s)

  -- `register` after the rate limit
  abbrev pub register_allowed : RegisterRequest → Exec Auth HttpException SessionResponse
  register_allowed body s =
      if not env.settings.allow_self_registration
      then (err (http 403 "self-registration is disabled"), s)
      else registered body (validate_registration env.is_email body.email body.password) s

  abbrev pub if_allowed :
      Exec Auth HttpException SessionResponse
      → Result HttpException (Unit {0}) × Auth
      → Result HttpException SessionResponse × Auth
  if_allowed next (ok _, s) = next s
  if_allowed next (err e, s) = (err e, s)

  unfoldable pub register : String → RegisterRequest → Exec Auth HttpException SessionResponse
  register ip body s = if_allowed (register_allowed body) (throttled ip s)

  abbrev pub checked : LoginRequest → Option UserAccount → Exec Auth HttpException SessionResponse
  checked body none s = (err invalid_login, s)
  checked body (some user) s =
      if not (user.provider == "password")
      then (err invalid_login, s)
      else if not (verify_password env.hashing body.password user.password_hash)
      then (err invalid_login, s)
      else signed_in user s

  -- `login` after the rate limit
  abbrev pub login_allowed : LoginRequest → Exec Auth HttpException SessionResponse
  login_allowed body s = checked body (get_by_email body.email s.users) s

  unfoldable pub login : String → LoginRequest → Exec Auth HttpException SessionResponse
  login ip body s = if_allowed (login_allowed body) (throttled ip s)
