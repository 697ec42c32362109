-- ===== src/Controller/Account/Laws.antt =====
-- Who can log in, and that a changed password is the one that counts.
pub mod ChangePassword
use modex_cloud.Prelude.{
  ◌≡◌, ◌≢◌, refl, ◌⊎◌, inl, inr, Bool, true, false, ◌||◌, not, Option, none, some, [], find,
  if◌then◌else◌, ◌==◌, text_eq, arith, Bool-cases, Option-cases, ap, sym, ◌∙◌,
}
use modex_cloud.Prelude.Int.{ℤ, pos, int_eq, int_beq_iff}
use modex_cloud.Text.{Text, text}
use modex_cloud.Constant.{status_disabled}
use modex_cloud.Model.Schema.{User}
use modex_cloud.Model.World.{World, tick, Result, ok, err, first, user_not_found}
use modex_cloud.Model.User.{Bcrypt, get_user_by_username}
use modex_cloud.Middleware.Auth.{Session}
use modex_cloud.Controller.Flow.{Response, Context, api_error, api_success}
use modex_cloud.Controller.Account.{
  LoginRequest, login, bad_credentials, session_of, validate_password_and_hash, establish_session,
  user_json, account_audit,
}

-- No account has this name and password: no account of the name, or another password.
abbrev pub IsWrong : Bcrypt → World → LoginRequest → Type 0
IsWrong bcrypt w req =
    (find (λ u. u.username == req.username) w.users.rows ≡ none)
    ⊎ ((u : User) × (find (λ u. u.username == req.username) w.users.rows ≡ some u)
        × (bcrypt.matches u.password req.password ≡ false))

-- Both fields are filled in.
abbrev pub IsFilled : LoginRequest → Type 0
IsFilled req = (req.username == [] || req.password == []) ≡ false

module _ (bcrypt : Bcrypt) (saves : Session → Bool) where
  wrong_lem :
      (c : Context) (req : LoginRequest) (s : Session) (w : World)
      → IsFilled req
      → IsWrong bcrypt w req
      → login bcrypt saves c (some req) s w ≡ ((bad_credentials, s), tick w)
  unfolding login get_user_by_username validate_password_and_hash
  wrong_lem c req s w f (inl e) = ground arith
  wrong_lem c req s w f (inr (u, e, m)) = ground arith

  -- Two logins with name and password filled in, each of an unknown name or with a wrong password:
  -- the answers, the sessions and the states after them are the same.
  pub login-same_answer :
      (c : Context) (req req' : LoginRequest) (s : Session) (w : World)
      → IsFilled req
      → IsFilled req'
      → IsWrong bcrypt w req
      → IsWrong bcrypt w req'
      → login bcrypt saves c (some req) s w ≡ login bcrypt saves c (some req') s w
  login-same_answer c req req' s w f f' e e' =
      wrong_lem c req s w f e ∙ sym (wrong_lem c req' s w f' e')

  -- The account that a login is for.
  abbrev pub Enters : Option LoginRequest → World → Session → Type 0
  Enters body w s' =
      (req : LoginRequest) × (u : User) × (body ≡ some req)
      × (find (λ r. r.username == req.username) w.users.rows ≡ some u)
      × (bcrypt.matches u.password req.password ≡ true)
      × (u.status ≢ status_disabled)
      × (s' ≡ session_of u)

  found_lem :
      (name : Text) (w v : World) (u : User)
      → get_user_by_username name w ≡ (ok u, v)
      → find (λ r. r.username == name) w.users.rows ≡ some u
  unfolding get_user_by_username
  found_lem name w v u h = ground arith

  -- A login that is answered with 200 has named an account whose hash its password matches and that
  -- is not disabled, and the session is that account's.
  pub login_lem :
      (c : Context) (body : Option LoginRequest) (s : Session) (w : World)
      → (login bcrypt saves c body s w).0.0.status ≡ 200
      → Enters body w (login bcrypt saves c body s w).0.1
  unfolding login establish_session bad_credentials api_success api_error validate_password_and_hash
  login_lem c none s w h = ground arith
  login_lem c (some req) s w h = elim (Bool-cases (req.username == [] || req.password == [])) [
    | inl e ↦ ground arith
    | inr e ↦
        found (get_user_by_username req.username w).0 (get_user_by_username req.username w).1 refl
  ]
    where
      found :
          (r : Result User) (v : World)
          → get_user_by_username req.username w ≡ (r, v)
          → Enters (some req) w (login bcrypt saves c (some req) s w).0.1
      found (err e) v q = ground arith
      found (ok u) v q = elim (Bool-cases (bcrypt.matches u.password req.password)) [
        | inl m ↦ elim (Bool-cases (u.status == status_disabled)) [
          | inl d ↦ ground arith
          | inr d ↦ elim (Bool-cases (saves (session_of u))) [
            | inl k ↦ (
              req,
              u,
              refl,
              found_lem req.username w v u q,
              m,
              (λ n. ground (arith, int_beq_iff u.status status_disabled)),
              ground arith,
            )
            | inr k ↦ ground arith
          ]
        ]
        | inr m ↦ ground arith
      ]
