-- ===== src/Controller/Admin/User.antt =====
-- controller/admin_user.go: the accounts, as an administrator manages them.
pub mod Laws
use modex_cloud.Prelude.{
  false, ◌||◌, ◌&&◌, not, Option, none, [], length, ltb, if◌then◌else◌, ◌==◌, text_eq,
}
use modex_cloud.Prelude.Int.{ℤ, pos, int_eq}
use modex_cloud.Text.{Text, text}
use modex_cloud.Wire.{Json, null, bool, num, str, obj, end, field}
use modex_cloud.Constant.{status_enabled, role_supplier, is_valid_role}
use modex_cloud.Model.Schema.{User}
use modex_cloud.Model.World.{ok, err}
use modex_cloud.Model.User.{
  Bcrypt, get_user_by_id, get_user_by_username, update_password, update_profile,
}
use modex_cloud.Model.User
use modex_cloud.Controller.Flow.{
  Context, next, replied, Flow, Handler, ◌>>=◌, ◌>>◌, serve, answer, refuse_if, require, or_reply,
  perform, api_success, api_error, path_id,
}
use modex_cloud.Controller.Paging.{page_params, start_row, atoi_or_zero}
use modex_cloud.Controller.Admin.{or_default_int, admin_audit, items, page_json}

pub record CreateUserRequest : Type 0 where
  pub username : Text
  pub password : Text
  pub role : ℤ
  pub supplier_code : Text
  pub supplier_name : Text

pub record UpdateUserRequest : Type 0 where
  pub role : ℤ
  pub status : ℤ
  pub supplier_code : Text
  pub supplier_name : Text

pub record ResetPasswordRequest : Type 0 where
  pub new_password : Text

-- A user as its JSON tags serialize it: the password, the token and the 2FA secret are tagged "-".
unfoldable pub user_row_json : User → Json
user_row_json u = obj (
    field (text "id") (num u.id) (
      field (text "username") (str u.username) (
        field (text "role") (num u.role) (
          field (text "status") (num u.status) (
            field (text "supplier_code") (str u.supplier_code) (
              field (text "supplier_name") (str u.supplier_name) (
                field (text "two_fa_enabled") (bool u.two_fa_enabled) (
                  field (text "created_time") (num (pos u.created_time)) (
                    field (text "last_login_time") (num (pos u.last_login_time))
                      (field (text "last_login_ip") (str u.last_login_ip) end))))))))))

unfoldable pub list_users : Context → Handler
list_users c = serve (do
  let (offset, limit) = page_params c
  (users, total) ←
      or_reply (User.list_users (atoi_or_zero (c.query (text "role"))) (start_row offset) limit)
        (λ _. api_error 500 (text "failed to list users"))
  answer (api_success (page_json (items user_row_json users) total)))

-- Only a lookup that succeeds is a conflict.
unfoldable pub refuse_taken : Text → Flow (Unit {0})
refuse_taken name w =
    let (r, w') = get_user_by_username name w in
    elim r [
      | ok _ ↦ (replied (api_error 409 (text "username already exists")), w')
      | err _ ↦ (next tt, w')
    ]

abbrev pub new_user : CreateUserRequest → ℤ → User
new_user req role = record {
  id = pos 0;
  username = req.username;
  password = [];
  role = role;
  status = status_enabled;
  supplier_code = req.supplier_code;
  supplier_name = req.supplier_name;
  access_token = none;
  two_fa_enabled = false;
  two_fa_secret_enc = [];
  created_time = 0;
  last_login_time = 0;
  last_login_ip = [];
}

-- The user of `UpdateUser` with the fields of the request.
unfoldable pub as_edited : UpdateUserRequest → User → User
as_edited req u = record u {
  role = if req.role == pos 0 then u.role else req.role;
  status = if req.status == pos 0 then u.status else req.status;
  supplier_code = req.supplier_code;
  supplier_name = req.supplier_name;
}

module _ (bcrypt : Bcrypt) where
  unfoldable pub create_user : Context → Option CreateUserRequest → Handler
  unfolding refuse_taken
  create_user c body = serve (do
    req ← require body (api_error 400 (text "invalid request body"))
    refuse_if (req.username == [] || ltb (length req.password) 8)
        (api_error 400 (text "username required and password must be >= 8 chars"))
    let role = or_default_int req.role role_supplier
    refuse_if (not (is_valid_role role)) (api_error 400 (text "invalid role"))
    refuse_taken req.username
    u ←
        or_reply (User.create bcrypt (new_user req role) req.password)
          (λ _. api_error 500 (text "failed to create user"))
    perform (admin_audit c (text "CREATE_USER") (text "user") u.id)
    answer (
        api_success
          (obj (field (text "id") (num u.id) (field (text "username") (str u.username) end)))))

  unfoldable pub reset_user_password : Context → Option ResetPasswordRequest → Handler
  reset_user_password c body = serve (do
    id ← require (path_id c) (api_error 400 (text "invalid id"))
    req ← require body (api_error 400 (text "new_password must be >= 8 chars"))
    refuse_if (ltb (length req.new_password) 8)
        (api_error 400 (text "new_password must be >= 8 chars"))
    u ← or_reply (get_user_by_id id) (λ _. api_error 404 (text "user not found"))
    or_reply (update_password bcrypt u req.new_password)
        (λ _. api_error 500 (text "failed to reset password"))
    perform (admin_audit c (text "RESET_PASSWORD") (text "user") u.id)
    answer (api_success null))

unfoldable pub update_user : Context → Option UpdateUserRequest → Handler
update_user c body = serve (do
  id ← require (path_id c) (api_error 400 (text "invalid id"))
  u ← or_reply (get_user_by_id id) (λ _. api_error 404 (text "user not found"))
  req ← require body (api_error 400 (text "invalid request body"))
  refuse_if (not (req.role == pos 0) && not (is_valid_role req.role))
      (api_error 400 (text "invalid role"))
  or_reply (update_profile (as_edited req u)) (λ _. api_error 500 (text "failed to update user"))
  perform (admin_audit c (text "UPDATE_USER") (text "user") u.id)
  answer (api_success null))

unfoldable pub delete_user : Context → Handler
delete_user c = serve (do
  id ← require (path_id c) (api_error 400 (text "invalid id"))
  or_reply (User.delete_user id) (λ _. api_error 500 (text "failed to delete user"))
  perform (admin_audit c (text "DELETE_USER") (text "user") id)
  answer (api_success null))
