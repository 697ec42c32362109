-- ===== src/Middleware/Auth.antt =====
-- middleware/auth.go: who the caller is, and whether they may go on.
pub mod Laws
use modex_cloud.Prelude.{
  Bool, true, false, Option, none, some, [], map, drop, if◌then◌else◌, ◌==◌, text_eq,
}
use modex_cloud.Prelude.Int.{ℤ, pos, int_eq, ltb_ℤ}
use modex_cloud.Text.{Text, text, trim_space, has_prefix, lower_byte}
use modex_cloud.Constant.{status_disabled, role_supplier, role_admin, role_root}
use modex_cloud.Model.Schema.{User}
use modex_cloud.Model.World.{Action, pure, raise, errorf}
use modex_cloud.Model.World
use modex_cloud.Model.User.{validate_access_token}
use modex_cloud.Controller.Flow.{
  Flow, Response, ◌>>=◌, ◌>>◌, abort_error, refuse_if, or_reply, give,
}

-- The values of the session cookie, each missing or of its type.
pub record Session : Type 0 where
  pub user_id : Option ℤ
  pub username : Option Text
  pub role : Option ℤ
  pub status : Option ℤ

abbrev pub no_session : Session
no_session = record { user_id = none; username = none; role = none; status = none }

-- The keys that `authHelper` puts in the context; `c.Set` of a missing name reads back as the empty
-- text.
pub record Principal : Type 0 where
  pub user_id : ℤ
  pub username : Text
  pub role : ℤ
  pub status : ℤ
  pub use_access_token : Bool

abbrev pub int_or_zero : Option ℤ → ℤ
int_or_zero none = pos 0
int_or_zero (some n) = n

abbrev pub text_or_empty : Option Text → Text
text_or_empty none = []
text_or_empty (some s) = s

-- The token of an `Authorization` header.
unfoldable pub bearer_token : Text → Text
bearer_token raw =
    if has_prefix (map lower_byte raw) (text "bearer ") then trim_space (drop 7 raw) else raw

abbrev named_user : User → Action User
named_user u = if u.username == [] then raise (errorf (text "invalid token user")) else pure u

unfoldable pub user_from_access_token : Text → Action User
user_from_access_token raw =
    if raw == []
    then raise (errorf (text "no authorization header"))
    else if bearer_token raw == []
    then raise (errorf (text "empty token"))
    else World.◌>>=◌ (validate_access_token (bearer_token raw)) named_user

abbrev pub of_user : User → Principal
of_user u = record {
  user_id = u.id;
  username = u.username;
  role = u.role;
  status = u.status;
  use_access_token = true;
}

abbrev pub of_session : Session → ℤ → Principal
of_session s id = record {
  user_id = id;
  username = text_or_empty s.username;
  role = int_or_zero s.role;
  status = int_or_zero s.status;
  use_access_token = false;
}

from_token : Text → Flow Principal
from_token header = do
  user ←
      or_reply (user_from_access_token header)
        (λ _. abort_error 401 (text "not logged in or token invalid"))
  give (of_user user)

-- The session first, then the token.
unfoldable pub resolve : Session → Text → Flow Principal
unfolding from_token
resolve s header = elim s.user_id [ none ↦ from_token header | some id ↦ give (of_session s id) ]

unfoldable pub auth_helper : ℤ → Session → Text → Flow Principal
unfolding resolve
auth_helper min_role s header = do
  p ← resolve s header
  refuse_if (p.status == status_disabled) (abort_error 403 (text "account has been disabled"))
  refuse_if (ltb_ℤ p.role min_role) (abort_error 403 (text "insufficient privilege"))
  give p

unfoldable pub supplier_auth : Session → Text → Flow Principal
unfolding auth_helper
supplier_auth = auth_helper role_supplier

unfoldable pub admin_auth : Session → Text → Flow Principal
unfolding auth_helper
admin_auth = auth_helper role_admin

unfoldable pub root_auth : Session → Text → Flow Principal
unfolding auth_helper
root_auth = auth_helper role_root
