-- ===== src/Controller/Account.antt =====
-- controller/auth.go: login, logout, and the caller's own account. The session is a cookie, so a
-- handler gets the session that came with the request and answers with the one that goes back. The
-- store that signs the cookie is a parameter: `saves` tells whether it can write a session.
pub mod Laws
use modex_cloud.Prelude.{
  Bool, true, false, ◌||◌, not, Option, none, some, [], length, ltb, if◌then◌else◌, ◌==◌, text_eq,
}
use modex_cloud.Prelude.Int.{ℤ, pos, int_eq}
use modex_cloud.Text.{Text, text}
use modex_cloud.Wire.{Json, null, bool, num, str, obj, end, field}
use modex_cloud.Constant.{status_disabled}
use modex_cloud.Model.Schema.{User, AuditLog}
use modex_cloud.Model.World.{World}
use modex_cloud.Model.User.{
  Bcrypt, get_user_by_id, get_user_by_username, update_password, touch_login,
}
use modex_cloud.Model.Audit.{write_audit}
use modex_cloud.Controller.Flow.{
  Response, Context, Outcome, next, replied, Flow, Handler, ◌>>=◌, ◌>>◌, serve, answer, give,
  refuse_if, require, or_reply, perform, api_success, api_error,
}
use modex_cloud.Middleware.Auth.{Session, no_session}

pub record LoginRequest : Type 0 where
  pub username : Text
  pub password : Text

pub record ChangePasswordRequest : Type 0 where
  pub old_password : Text
  pub new_password : Text

-- `ValidatePasswordAndHash`
unfoldable pub validate_password_and_hash : Bcrypt → Text → Text → Bool
validate_password_and_hash bcrypt password hash = bcrypt.matches hash password

abbrev pub session_of : User → Session
session_of u = record {
  user_id = some u.id;
  username = some u.username;
  role = some u.role;
  status = some u.status;
}

abbrev pub SessionHandler : Type 0
SessionHandler = Session → World → (Response × Session) × World

-- The session that came in stays where the handler replies early.
abbrev pub with_session : Outcome (Response × Session) → Session → Response × Session
with_session (next a) s = a
with_session (replied r) s = (r, s)

abbrev pub serve_session : Flow (Response × Session) → SessionHandler
serve_session m s w = let (r, w') = m w in (with_session r s, w')

unfoldable pub bad_credentials : Response
bad_credentials = api_error 401 (text "invalid username or password")

unfoldable pub user_json : User → Json
user_json u = obj (
    field (text "id") (num u.id) (
      field (text "username") (str u.username) (
        field (text "role") (num u.role) (
          field (text "supplier_code") (str u.supplier_code)
            (field (text "supplier_name") (str u.supplier_name) end)))))

unfoldable pub self_json : User → Json
self_json u = obj (
    field (text "id") (num u.id) (
      field (text "username") (str u.username) (
        field (text "role") (num u.role) (
          field (text "supplier_code") (str u.supplier_code) (
            field (text "supplier_name") (str u.supplier_name)
              (field (text "two_fa_enabled") (bool u.two_fa_enabled) end))))))

abbrev pub account_audit : Context → User → Text → Text → ℤ → AuditLog
account_audit c u action resource id = record {
  id = pos 0;
  user_id = u.id;
  username = u.username;
  action = action;
  resource_type = resource;
  resource_id = id;
  detail = [];
  ip = c.client_ip;
  result = text "success";
  created_time = 0;
}

module _ (bcrypt : Bcrypt) (saves : Session → Bool) where
  -- `establishSession`
  unfoldable pub establish_session : User → Flow Session
  establish_session u w =
      if saves (session_of u)
      then (next (session_of u), w)
      else (replied (api_error 500 (text "failed to create session")), w)

  -- The steps of `Login`.
  unfoldable pub login_steps : Context → Option LoginRequest → Flow (Response × Session)
  login_steps c body = do
    req ← require body (api_error 400 (text "invalid request body"))
    refuse_if (req.username == [] || req.password == [])
        (api_error 400 (text "username and password are required"))
    user ← or_reply (get_user_by_username req.username) (λ _. bad_credentials)
    refuse_if (not (validate_password_and_hash bcrypt req.password user.password)) bad_credentials
    refuse_if (user.status == status_disabled) (api_error 403 (text "account has been disabled"))
    session ← establish_session user
    perform (touch_login user.id c.client_ip)
    perform (write_audit (account_audit c user (text "LOGIN") (text "session") (pos 0)))
    give (api_success (user_json user), session)

  unfoldable pub login : Context → Option LoginRequest → SessionHandler
  unfolding login_steps establish_session
  login c body = serve_session (login_steps c body)

-- A cookie that cannot be written stays as it was.
unfoldable pub logout : (Session → Bool) → SessionHandler
logout saves s w = ((api_success null, if saves no_session then no_session else s), w)

unfoldable pub change_password : Bcrypt → Context → Option ChangePasswordRequest → Handler
change_password bcrypt c body = serve (do
  req ← require body (api_error 400 (text "invalid request body"))
  refuse_if (ltb (length req.new_password) 8)
      (api_error 400 (text "new password must be at least 8 characters"))
  user ← or_reply (get_user_by_id c.user_id) (λ _. api_error 404 (text "user not found"))
  refuse_if (not (validate_password_and_hash bcrypt req.old_password user.password))
      (api_error 401 (text "old password is incorrect"))
  or_reply (update_password bcrypt user req.new_password)
      (λ _. api_error 500 (text "failed to update password"))
  perform (write_audit (account_audit c user (text "CHANGE_PASSWORD") (text "user") user.id))
  answer (api_success null))

unfoldable pub self_profile : Context → Handler
self_profile c = serve (do
  user ← or_reply (get_user_by_id c.user_id) (λ _. api_error 404 (text "user not found"))
  answer (api_success (self_json user)))
