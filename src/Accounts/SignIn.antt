-- ===== src/Accounts/SignIn.antt =====
-- Registration and login by password compose: backend/app/api/v1/routes/auth.py.
use ai_powered_security_inve.Base.{
  String, some, true, false, not, [], ◌∷◌, ◌≡◌, refl, sym, ◌∙◌, ◌⊎◌, inl, inr, if◌then◌else◌, ◌==◌,
  arith, eq_iff, Bool-cases,
}
use mathlib.Core.Path.{subst}
use ai_powered_security_inve.Base.Dict.{lookup, insert, contains, lookup-insert}
use ai_powered_security_inve.Base.Exec.{Result, ok, err}
use ai_powered_security_inve.Base.Text.{lower}
use ai_powered_security_inve.Accounts.Store.{
  RegistrationError, UserAccount, UserStore, create, validate_registration,
}
use ai_powered_security_inve.Accounts.Routes.{
  if_allowed, RegisterRequest, HttpException, http, Env, Auth, throttled, session, new_account,
  after_draws, created, registered, register_allowed, register,
}

module _ (env : Env) where
  -- an account that self-registration may make
  pub record IsUnprivileged (user : UserAccount) : Type 0 where
    pub roles : user.roles ≡ env.settings.default_user_role ∷ []
    pub tenant : user.tenant ≡ env.settings.default_tenant
    pub provider : user.provider ≡ "password"

  -- what a call may do to the accounts
  abbrev pub Keeps : UserStore → UserStore → Type 0
  Keeps users users' =
      (k : String) (u : UserAccount)
      → (lookup k users ≡ some u → lookup k users' ≡ some u)
        × (lookup k users' ≡ some u → (lookup k users ≡ some u) ⊎ IsUnprivileged u)

  Keeps-refl : (users : UserStore) → Keeps users users
  Keeps-refl users k u = (λ h. h, inl)

  insert-Keeps :
      (key : String) (user : UserAccount) (users : UserStore)
      → IsUnprivileged user
      → contains key users ≡ false
      → Keeps users (insert key user users)
  insert-Keeps key user users p f k u = elim (Bool-cases (key == k)) [
    | inl t ↦
        let there : lookup k (insert key user users) ≡ some user =
          lookup-insert key k user users ∙ rw t refl in
        let absent : contains k users ≡ false =
          subst (λ z. contains z users ≡ false) ((eq_iff key k).0 t) f in
        (
          λ h. absurd (ground arith),
          λ h. let same : user ≡ u = cc in inr (subst (λ z. IsUnprivileged z) same p),
        )
    | inr n ↦
        let there : lookup k (insert key user users) ≡ lookup k users =
          lookup-insert key k user users ∙ rw n refl in
        (λ h. there ∙ h, λ h. inl (sym there ∙ h))
  ]

  create-Keeps :
      (user : UserAccount) (users : UserStore)
      → IsUnprivileged user
      → Keeps users (create user users).1
  unfolding create
  create-Keeps user users p = elim (Bool-cases (contains (lower user.email) users)) [
    | inl t ↦ rw t (Keeps-refl users)
    | inr f ↦ rw f (insert-Keeps (lower user.email) user users p f)
  ]

  users-created :
      (r : Result RegistrationError UserAccount × UserStore) (s : Auth)
      → (created env r s).1.users ≡ r.1
  unfolding session
  users-created (ok user, users) s = refl
  users-created (err e, users) s = refl

  registered-Keeps :
      (body : RegisterRequest) (valid : Result RegistrationError (Unit {0})) (s : Auth)
      → Keeps s.users (registered env body valid s).1.users
  unfolding new_account
  registered-Keeps body (err e) s = Keeps-refl s.users
  registered-Keeps body (ok _) s =
      subst (λ users. Keeps s.users users)
        (sym (users-created (create (new_account env body s) s.users) (after_draws env s)))
        (create-Keeps (new_account env body s) s.users
          (record { roles = refl; tenant = refl; provider = refl }))

  abbrev closed : HttpException
  closed = http 403 "self-registration is disabled"

  allowed-Keeps :
      (body : RegisterRequest) (p : Result HttpException (Unit {0}) × Auth)
      → Keeps p.1.users (if_allowed env (register_allowed env body) p).1.users
  allowed-Keeps body (err e, s) = Keeps-refl s.users
  allowed-Keeps body (ok _, s) =
      elim env.settings.allow_self_registration
        as (λ b.
          Keeps s.users
            (if not b
              then (err closed, s)
              else registered env body (validate_registration env.is_email body.email body.password)
                  s).1.users) [
                    | true ↦
                        registered-Keeps body
                          (validate_registration env.is_email body.email body.password) s
                    | false ↦ Keeps-refl s.users
                  ]

-- A registration changes and removes no account, and an account that it adds has the default role and
-- tenant only and signs in by password, whatever the request says.
pub register-Keeps :
    (env : Env) (ip : String) (body : RegisterRequest) (s : Auth)
    → Keeps env s.users (register env ip body s).1.users
unfolding register
register-Keeps env ip body s = allowed-Keeps env body (throttled env ip s)
