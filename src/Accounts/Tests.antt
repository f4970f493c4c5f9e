-- ===== src/Accounts/Tests.antt =====
-- An account that is registered and signed in to, over a digest of one bit.
use ai_powered_security_inve.Base.{
  ℕ, ◌≤◌, String, Option, none, some, Bool, true, false, List, [], ◌∷◌, ◌≡◌, refl, if◌then◌else◌,
  ◌==◌, keep, length, arith,
}
use ai_powered_security_inve.Base.Dict.{lookup, insert}
use ai_powered_security_inve.Base.Exec.{ok, err}
use ai_powered_security_inve.Base.Text.{lower, text_length, occurs_in}
use ai_powered_security_inve.Accounts.Passwords.{Hashing, has_dollar}
use ai_powered_security_inve.Accounts.Store.{create, validate_registration, session_claims}
use ai_powered_security_inve.Accounts.Routes.{
  Env, Auth, RegisterRequest, SessionResponse, invalid_login, recent, throttle, throttled, session,
  new_account, register, login, before_at, rate_limit,
}
use ai_powered_security_inve.Accounts.Limits.{attempts, attempts_bounded, in_window, is_ok}
use ai_powered_security_inve.Accounts.SignIn.{Keeps, register-Keeps}
use ai_powered_security_inve.Accounts.Login.{digest_of, register-login}

abbrev hex_bit : Bool → String
hex_bit true = "01"
hex_bit false = "00"

abbrev read_bit : String → Option Bool
read_bit s = if s == "01" then some true else if s == "00" then some false else none

abbrev one_bit : Hashing
one_bit = record {
  Bytes = Bool;
  hex = hex_bit;
  fromhex = read_bit;
  pbkdf2_hmac = λ password salt n. password == "correct horse";
}

hex_read : (b : Bool) → read_bit (hex_bit b) ≡ some b
hex_read true = refl
hex_read false = refl

hex_plain : (b : Bool) → has_dollar (hex_bit b) ≡ false
unfolding has_dollar
hex_plain true = refl
hex_plain false = refl

abbrev env : Env
env = record {
  hashing = one_bit;
  settings = record {
    allow_self_registration = true;
    default_tenant = "acme";
    default_user_role = "tier1_analyst";
    session_ttl = 28800;
    oidc_audience = "aegisflow-api";
    secret_key = "secret";
  };
  is_email = λ s. occurs_in "@" s;
  encode = λ claims secret. claims.sub;
  uuid4 = λ n. "u1";
  urandom = λ n. true;
  now = λ n. n;
}

abbrev empty : Auth
empty = record { users = []; hits = []; drawn = 0; salted = 0; readings = 0 }

abbrev body : RegisterRequest
body = record { email = "Ana@x.com"; password = "correct horse"; display_name = "" }

abbrev answer : SessionResponse
answer = record {
  access_token = "u1";
  expires_in = 28800;
  email = "ana@x.com";
  display_name = "Ana";
  tenant = "acme";
  roles = "tier1_analyst" ∷ [];
}

ana_registered : (register env "10.0.0.9" body empty).0 ≡ ok answer
unfolding register throttle recent validate_registration create new_account session session_claims
    lookup insert lower occurs_in text_length before_at
ana_registered = refl

ana_let_through : is_ok (throttled env "10.0.0.9" (register env "10.0.0.9" body empty).1).0 ≡ true
unfolding register throttle recent validate_registration create new_account session session_claims
    lookup insert lower occurs_in text_length before_at
ana_let_through = refl

register-Keeps_example : Keeps env empty.users (register env "10.0.0.9" body empty).1.users
register-Keeps_example = register-Keeps env "10.0.0.9" body empty

register-login_example :
    (login env "10.0.0.9"
      (record { email = body.email; password = "wrong" })
      (register env "10.0.0.9" body empty).1).0
    ≡ (if digest_of env "wrong" (throttled env "10.0.0.9" empty).1
          == digest_of env body.password (throttled env "10.0.0.9" empty).1
        then ok
            (session env
              (new_account env body (throttled env "10.0.0.9" empty).1)
              (throttled env "10.0.0.9" (register env "10.0.0.9" body empty).1).1).0
        else err invalid_login)
register-login_example =
    register-login env hex_read hex_plain "10.0.0.9" "10.0.0.9" "wrong" body empty answer
      ana_registered ana_let_through

abbrev events : List (String × ℕ)
events =
    ("a", 1)
    ∷ ("a", 1)
    ∷ ("b", 2)
    ∷ ("a", 2)
    ∷ ("a", 3)
    ∷ ("a", 3)
    ∷ ("a", 4)
    ∷ ("a", 4)
    ∷ ("a", 5)
    ∷ ("a", 5)
    ∷ ("a", 6)
    ∷ ("a", 6)
    ∷ ("a", 65)
    ∷ []

ten_let_through : attempts "a" events [] ≡ 1 ∷ 1 ∷ 2 ∷ 3 ∷ 3 ∷ 4 ∷ 4 ∷ 5 ∷ 5 ∷ 6 ∷ 65 ∷ []
unfolding attempts throttle recent lookup insert
ten_let_through = refl

attempts_bounded_example : length (keep (in_window 1) (attempts "a" events [])) ≤ rate_limit
attempts_bounded_example = attempts_bounded "a" 1 events (omega arith)
