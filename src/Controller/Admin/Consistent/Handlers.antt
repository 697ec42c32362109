-- ===== src/Controller/Admin/Consistent/Handlers.antt =====
-- The handlers of controller/admin_*.go and of controller/auth.go, one by one.
use modex_cloud.Prelude.{
  ◌≡◌, Bool, false, ◌&&◌, not, Option, some, List, [], ◌∷◌, find, ◌==◌, arith, All, text_eq,
}
use modex_cloud.Prelude.Int.{ℤ, pos, int_eq}
use modex_cloud.Text.{Text, text}
use modex_cloud.Constant.{is_valid_role}
use modex_cloud.Model.Schema.{User, Platform}
use modex_cloud.Model.World.{World, Result, ok, err}
use modex_cloud.Model.World.Keeps.{Keeps, keeps_rules}
use modex_cloud.Model.Platform.{Codecs}
use modex_cloud.Model.User.{Bcrypt, get_user_by_id, get_user_by_username}
use modex_cloud.Controller.Flow.{Context, Outcome, next, replied, api_error, path_id}
use modex_cloud.Controller.Flow.Keeps.{
  FlowKeeps, FlowKeeps->>=, FlowKeeps-require, FlowKeeps-refused, FlowKeeps-reads, Serves,
  Serves-serve, flow_rules,
}
use modex_cloud.Controller.SupplierChannel.{Deps}
use modex_cloud.Controller.Account.{ChangePasswordRequest, change_password, self_profile}
use modex_cloud.Controller.Admin.{admin_audit}
use modex_cloud.Controller.Admin.User.{
  CreateUserRequest, UpdateUserRequest, ResetPasswordRequest, list_users, refuse_taken, new_user,
  create_user, as_edited, update_user, reset_user_password, delete_user,
}
use modex_cloud.Controller.Admin.Platform.{
  PlatformRequest, list_platforms, create_platform, seal_platform_token, rotate_token,
  update_platform, delete_platform,
}
use modex_cloud.Controller.Admin.Grant.{GrantRequest, list_grants, upsert_grant, delete_grant}
use modex_cloud.Controller.Admin.Audit.{list_audit_logs}
use modex_cloud.Controller.Admin.Consistent.{IsConsistent, HasValidRole}
use modex_cloud.Controller.Admin.Consistent.Statements.{
  write_audit-Keeps, seal-Keeps, create_platform-Keeps, update_platform-Keeps,
  set_modex_token-Keeps, get_platform_by_id-Keeps, get_user_by_id-Keeps, get_user_by_username-Keeps,
  list_users-Keeps, list_platforms-Keeps, list_all_grants-Keeps, list_audit-Keeps,
  delete_grant-Keeps, delete_platform-Keeps, upsert-Keeps,
}
use modex_cloud.Controller.Admin.Consistent.Accounts.{
  delete_user-Keeps, update_password-Keeps, update_profile-Keeps, create_user-Keeps,
}

admin_audit-Keeps :
    (c : Context) (action resource : Text) (id : ℤ)
    → Keeps IsConsistent (admin_audit c action resource id)
unfolding admin_audit
admin_audit-Keeps c action resource id = write_audit-Keeps _

ruleset admin_rules = (
  keeps_rules, flow_rules, admin_audit-Keeps, seal-Keeps, create_platform-Keeps,
  update_platform-Keeps, set_modex_token-Keeps, get_platform_by_id-Keeps, get_user_by_id-Keeps,
  list_users-Keeps, list_platforms-Keeps, list_all_grants-Keeps, list_audit-Keeps,
  delete_grant-Keeps, delete_platform-Keeps, upsert-Keeps, delete_user-Keeps, update_password-Keeps,
)

pub list_users-Serves : (c : Context) → Serves IsConsistent (list_users c)
unfolding list_users
list_users-Serves c = search admin_rules depth 20

pub list_platforms-Serves : Serves IsConsistent list_platforms
unfolding list_platforms
list_platforms-Serves = search admin_rules depth 20

pub list_grants-Serves : (c : Context) → Serves IsConsistent (list_grants c)
unfolding list_grants
list_grants-Serves c = search admin_rules depth 20

pub list_audit_logs-Serves : (c : Context) → Serves IsConsistent (list_audit_logs c)
unfolding list_audit_logs
list_audit_logs-Serves c = search admin_rules depth 20

pub delete_user-Serves : (c : Context) → Serves IsConsistent (delete_user c)
unfolding delete_user
delete_user-Serves c = search admin_rules depth 20

pub delete_platform-Serves : (c : Context) → Serves IsConsistent (delete_platform c)
unfolding delete_platform
delete_platform-Serves c = search admin_rules depth 20

pub delete_grant-Serves : (c : Context) → Serves IsConsistent (delete_grant c)
unfolding delete_grant
delete_grant-Serves c = search admin_rules depth 20

pub upsert_grant-Serves :
    (codecs : Codecs) (c : Context) (body : Option GrantRequest)
    → Serves IsConsistent (upsert_grant codecs c body)
unfolding upsert_grant
upsert_grant-Serves codecs c body = search admin_rules depth 30

module _ (bcrypt : Bcrypt) where
  pub reset_user_password-Serves :
      (c : Context) (body : Option ResetPasswordRequest)
      → Serves IsConsistent (reset_user_password bcrypt c body)
  unfolding reset_user_password
  reset_user_password-Serves c body = search admin_rules depth 30

  pub change_password-Serves :
      (c : Context) (body : Option ChangePasswordRequest)
      → Serves IsConsistent (change_password bcrypt c body)
  unfolding change_password
  change_password-Serves c body = search (admin_rules, write_audit-Keeps) depth 30

pub self_profile-Serves : (c : Context) → Serves IsConsistent (self_profile c)
unfolding self_profile
self_profile-Serves c = search admin_rules depth 20

module _ (deps : Deps) where
  seal_platform_token-Keeps :
      (p : Platform) (token : Text) → Keeps IsConsistent (seal_platform_token deps p token)
  unfolding seal_platform_token
  seal_platform_token-Keeps p token = search admin_rules

  rotate_token-Keeps :
      (p : Platform) (token : Text) → FlowKeeps IsConsistent (rotate_token deps p token)
  unfolding rotate_token
  rotate_token-Keeps p token = search (admin_rules, seal_platform_token-Keeps)

  pub create_platform-Serves :
      (c : Context) (body : Option PlatformRequest)
      → Serves IsConsistent (create_platform deps c body)
  unfolding create_platform
  create_platform-Serves c body = search (admin_rules, seal_platform_token-Keeps) depth 30

  pub update_platform-Serves :
      (c : Context) (body : Option PlatformRequest)
      → Serves IsConsistent (update_platform deps c body)
  unfolding update_platform
  update_platform-Serves c body = search (admin_rules, rotate_token-Keeps) depth 30

refuse_taken-Keeps : (name : Text) → FlowKeeps IsConsistent (refuse_taken name)
unfolding refuse_taken
refuse_taken-Keeps name = record {
  at = λ w h.
      kept (get_user_by_username name w).0 (get_user_by_username name w).1
        ((get_user_by_username-Keeps name).at w h);
}
  where
    kept :
        (r : Result User) (v : World)
        → IsConsistent v
        → IsConsistent
            (elim r as (λ x. Outcome (Unit {0}) × World) [
              | ok _ ↦ (replied (api_error 409 (text "username already exists")), v)
              | err _ ↦ (next tt, v)
            ]).1
    kept (ok u) v h = h
    kept (err e) v h = h

new_user-HasValidRole :
    (req : CreateUserRequest) (role : ℤ)
    → not (is_valid_role role) ≡ false
    → HasValidRole (new_user req role)
new_user-HasValidRole req role h = ground arith

pub create_user-Serves :
    (bcrypt : Bcrypt) (c : Context) (body : Option CreateUserRequest)
    → Serves IsConsistent (create_user bcrypt c body)
unfolding create_user
create_user-Serves bcrypt c body =
    search
      (FlowKeeps-refused, admin_rules, refuse_taken-Keeps, create_user-Keeps, new_user-HasValidRole)
      depth 60

-- The account that is found has a valid role.
find-HasValidRole :
    (p : User → Bool) (us : List User) (u : User)
    → All HasValidRole us
    → find p us ≡ some u
    → HasValidRole u
find-HasValidRole p [] u h e = ground arith
find-HasValidRole p (x ∷ us) u (h, hs) e = ground (arith, find-HasValidRole p us u hs)

found-HasValidRole :
    (id : ℤ) (w : World) (u : User)
    → IsConsistent w
    → (get_user_by_id id w).0 ≡ ok u
    → HasValidRole u
unfolding get_user_by_id
found-HasValidRole id w u h e =
    find-HasValidRole (λ r. r.id == id) w.users.rows u h.users.valid (ground arith)

as_edited-HasValidRole :
    (req : UpdateUserRequest) (u : User)
    → HasValidRole u
    → (not (req.role == pos 0) && not (is_valid_role req.role)) ≡ false
    → HasValidRole (as_edited req u)
unfolding as_edited
as_edited-HasValidRole req u h e = ground arith

pub update_user-Serves :
    (c : Context) (body : Option UpdateUserRequest) → Serves IsConsistent (update_user c body)
unfolding update_user
update_user-Serves c body = Serves-serve _ (
    FlowKeeps->>= _ _ (FlowKeeps-require (path_id c) _) (λ id.
      FlowKeeps-reads (get_user_by_id id) (λ _. api_error 404 (text "user not found")) _
        HasValidRole (get_user_by_id-Keeps id) (λ w u h e. found-HasValidRole id w u h e)
        (λ u k.
          search (FlowKeeps-refused, admin_rules, update_profile-Keeps, as_edited-HasValidRole)
            depth 60)))
