-- ===== src/Accounts/Login.antt =====
-- A login by password after a registration: backend/app/api/v1/routes/auth.py.
use ai_powered_security_inve.Base.{
  String, some, Bool, true, false, not, ◌≡◌, refl, sym, ap, ◌∙◌, if◌then◌else◌, ◌==◌, eq_refl,
}
use mathlib.Core.Path.{subst}
use ai_powered_security_inve.Base.Dict.{lookup, insert, contains, lookup-insert}
use ai_powered_security_inve.Base.Exec.{Result, ok, err}
use ai_powered_security_inve.Base.Text.{lower, lower-lower}
use ai_powered_security_inve.Accounts.Passwords.{
  has_dollar, iterations, verify_password, verify-hash_password,
}
use ai_powered_security_inve.Accounts.Store.{
  RegistrationError, duplicate, UserAccount, UserStore, create, get_by_email, validate_registration,
}
use ai_powered_security_inve.Accounts.Routes.{
  RegisterRequest, LoginRequest, SessionResponse, HttpException, http, invalid_login, Env, Auth,
  throttled, session, new_account, after_draws, created, registered, register_allowed, register,
  checked, login_allowed, login, if_allowed, signed_in,
}
use ai_powered_security_inve.Accounts.Limits.{is_ok}

-- the digest of a password under the salt that the next account gets
abbrev pub digest_of : Env → String → Auth → String
digest_of env password s =
    env.hashing.hex (env.hashing.pbkdf2_hmac password (env.urandom s.salted) iterations)

module _ (env : Env) where
  created-lookup :
      (user : UserAccount) (users : UserStore) (s : Auth) (r : SessionResponse)
      → (created env (create user users) s).0 ≡ ok r
      → lookup (lower user.email) (created env (create user users) s).1.users ≡ some user
  unfolding create session
  created-lookup user users s r e =
      let key : String = lower user.email in
      let outcome : Bool → Result RegistrationError UserAccount × UserStore =
        λ b. if b then (err duplicate, users) else (ok user, insert key user users) in
      elim (contains key users)
          as (λ b.
            (created env (outcome b) s).0 ≡ ok r
            → lookup key (created env (outcome b) s).1.users ≡ some user) [
              | true ↦ λ h. cc
              | false ↦ λ h. lookup-insert key key user users ∙ rw (eq_refl key) refl
            ]
        e

  registered-lookup :
      (body : RegisterRequest) (valid : Result RegistrationError (Unit {0})) (s : Auth)
      (r : SessionResponse)
      → (registered env body valid s).0 ≡ ok r
      → lookup (lower body.email) (registered env body valid s).1.users
        ≡ some (new_account env body s)
  unfolding new_account
  registered-lookup body (err e) s r h = cc
  registered-lookup body (ok _) s r h =
      subst (λ z. lookup z (registered env body (ok tt) s).1.users ≡ some (new_account env body s))
        (lower-lower body.email)
        (created-lookup (new_account env body s) s.users (after_draws env s) r h)

  allowed-lookup :
      (body : RegisterRequest) (p : Result HttpException (Unit {0}) × Auth) (r : SessionResponse)
      → (if_allowed env (register_allowed env body) p).0 ≡ ok r
      → lookup (lower body.email) (if_allowed env (register_allowed env body) p).1.users
        ≡ some (new_account env body p.1)
  allowed-lookup body (err e, s) r h = cc
  allowed-lookup body (ok _, s) r h =
      let outcome : Bool → Result HttpException SessionResponse × Auth = λ b.
        if not b
        then (err (http 403 "self-registration is disabled"), s)
        else registered env body (validate_registration env.is_email body.email body.password) s in
      elim env.settings.allow_self_registration
          as (λ b.
            (outcome b).0 ≡ ok r
            → lookup (lower body.email) (outcome b).1.users ≡ some (new_account env body s)) [
              | true ↦
                  registered-lookup body
                    (validate_registration env.is_email body.email body.password) s r
              | false ↦ λ k. cc
            ]
        h

  -- the answer of a login to an account that has the hash of a password
  checked_account :
      (body : LoginRequest) (user : UserAccount) (s : Auth)
      → user.provider ≡ "password"
      → (checked env body (some user) s).0 ≡ (
          if verify_password env.hashing body.password user.password_hash
          then ok (session env user s).0
          else err invalid_login)
  checked_account body user s p =
      let right : Bool = verify_password env.hashing body.password user.password_hash in
      let outcome : Bool → Bool → Result HttpException SessionResponse × Auth = λ b c.
        if not b
        then (err invalid_login, s)
        else if not c
        then (err invalid_login, s)
        else signed_in env user s in
      let answer : Bool → Result HttpException SessionResponse =
        λ c. if c then ok (session env user s).0 else err invalid_login in
      let by_password : (user.provider == "password") ≡ true =
        subst (λ z. (z == "password") ≡ true) (sym p) refl in
      subst (λ b. (outcome b right).0 ≡ answer right) (sym by_password)
        (elim right as (λ c. (outcome true c).0 ≡ answer c) [ true ↦ refl | false ↦ refl ])

  allowed_next :
      (next : Auth → Result HttpException SessionResponse × Auth)
      → (p : Result HttpException (Unit {0}) × Auth) → is_ok p.0 ≡ true
      → (if_allowed env next p).0 ≡ (next p.1).0
  allowed_next next (ok _, s) h = refl
  allowed_next next (err e, s) h = cc

  -- a login that is let through by the rate limit
  login-throttled :
      (ip : String) (body : LoginRequest) (s : Auth)
      → is_ok (throttled env ip s).0 ≡ true
      → (login env ip body s).0
        ≡ (checked env body (get_by_email body.email s.users) (throttled env ip s).1).0
  unfolding login
  login-throttled ip body s h = allowed_next (login_allowed env body) (throttled env ip s) h

-- After a registration that succeeds, a login under the same email that the rate limit lets through opens a
-- session of the new account exactly if its password has the same digest as the registered one; otherwise it
-- is refused as any wrong login is.
pub register-login :
    (env : Env)
    → ((b : env.hashing.Bytes) → env.hashing.fromhex (env.hashing.hex b) ≡ some b)
    → ((b : env.hashing.Bytes) → has_dollar (env.hashing.hex b) ≡ false)
    → (ip next_ip attempt : String) (body : RegisterRequest) (s : Auth) (r : SessionResponse)
    → (register env ip body s).0 ≡ ok r
    → is_ok (throttled env next_ip (register env ip body s).1).0 ≡ true
    → (login env next_ip
        (record { email = body.email; password = attempt })
        (register env ip body s).1).0
      ≡ (if digest_of env attempt (throttled env ip s).1
            == digest_of env body.password (throttled env ip s).1
          then ok
              (session env
                (new_account env body (throttled env ip s).1)
                (throttled env next_ip (register env ip body s).1).1).0
          else err invalid_login)
unfolding register get_by_email new_account
register-login env read plain ip next_ip attempt body s r e t =
    let before : Auth = (throttled env ip s).1 in
    let after : Auth = (register env ip body s).1 in
    let request : LoginRequest = record { email = body.email; password = attempt } in
    let user : UserAccount = new_account env body before in
    let stored : lookup (lower body.email) after.users ≡ some user =
      allowed-lookup env body (throttled env ip s) r e in
    let right : verify_password env.hashing attempt user.password_hash
        ≡ (digest_of env attempt before == digest_of env body.password before) =
      verify-hash_password env.hashing read plain (env.urandom before.salted) body.password
        attempt in
    let late : Auth = (throttled env next_ip after).1 in
    login-throttled env next_ip request after t
    ∙ ap (λ o. (checked env request o late).0) stored
    ∙ checked_account env request user late refl
    ∙ ap (λ b. if b then ok (session env user late).0 else err invalid_login) right
