-- ===== src/Accounts/Store.antt =====
-- `UserStore`, `validate_registration` and the session tokens of backend/app/core/accounts.py. The test of
-- an email address by a regular expression and the signing of a token are a library's.
use ai_powered_security_inve.Base.{ℕ, ◌+◌, String, Option, Bool, not, List, if◌then◌else◌, ltb}
use ai_powered_security_inve.Base.Dict.{Dict, lookup, insert, contains}
use ai_powered_security_inve.Base.Exec.{Result, ok, err}
use ai_powered_security_inve.Base.Text.{lower, text_length}

abbrev pub min_password_len : ℕ
min_password_len = 10

abbrev pub session_issuer : String
session_issuer = "aegisflow"

-- `RegistrationError`, by its message
pub data RegistrationError : Type 0 where
  invalid_email short_password duplicate : RegistrationError

abbrev pub message : RegistrationError → String
message invalid_email = "invalid email address"
message short_password = "password must be at least 10 characters"
message duplicate = "an account with this email already exists"

pub record UserAccount : Type 0 where
  pub subject : String
  pub email : String
  pub display_name : String
  pub tenant : String
  pub roles : List String
  pub provider : String
  pub password_hash : String
  pub created_at : ℕ

-- `UserStore._by_email`
abbrev pub UserStore : Type 0
UserStore = Dict UserAccount

unfoldable pub validate_registration :
    (String → Bool) → String → String → Result RegistrationError (Unit {0})
validate_registration is_email email password =
    if not (is_email email)
    then err invalid_email
    else if ltb (text_length password) min_password_len
    then err short_password
    else ok tt

unfoldable pub create : UserAccount → UserStore → Result RegistrationError UserAccount × UserStore
create user store =
    if contains (lower user.email) store
    then (err duplicate, store)
    else (ok user, insert (lower user.email) user store)

unfoldable pub get_by_email : String → UserStore → Option UserAccount
get_by_email email store = lookup (lower email) store

-- the settings that are read
pub record Settings : Type 0 where
  pub allow_self_registration : Bool
  pub default_tenant : String
  pub default_user_role : String
  -- `session_ttl_hours` in seconds
  pub session_ttl : ℕ
  pub oidc_audience : String
  pub secret_key : String

-- the claims of a session
pub record SessionClaims : Type 0 where
  pub iss : String
  pub aud : String
  pub sub : String
  pub preferred_username : String
  pub name : String
  pub tenant : String
  pub realm_access : List String
  pub provider : String
  pub iat : ℕ
  pub exp : ℕ

-- the claims of `issue_session_token` at a time
unfoldable pub session_claims : Settings → ℕ → UserAccount → SessionClaims
session_claims settings now user = record {
  iss = session_issuer;
  aud = settings.oidc_audience;
  sub = user.subject;
  preferred_username = user.email;
  name = user.display_name;
  tenant = user.tenant;
  realm_access = user.roles;
  provider = user.provider;
  iat = now;
  exp = now + settings.session_ttl;
}
