-- ===== src/Controller/Admin/Consistent/Statements.antt =====
-- The statements behind the handlers, one by one.
use modex_cloud.Prelude.{ℕ, ◌≡◌, refl, Bool, Option, List, filter, arith}
use modex_cloud.Prelude.Int.{ℤ, int_eq}
use modex_cloud.Text.{Text}
use modex_cloud.Crypto.{Vault, seal}
use modex_cloud.Model.Schema.{Grant, Platform, AuditLog}
use modex_cloud.Model.World.{World, Action, Error, first, query, exec, now_unix}
use modex_cloud.Model.World.Keeps.{Keeps, Keeps-first, Keeps-query, Keeps-exec, keeps_rules}
use modex_cloud.Model.Invariant.Channels.{IsValid-same}
use modex_cloud.Model.Grant.{on_grants, list_all_grants, delete_grant, upsert_grant}
use modex_cloud.Model.Grant.Unique.{IsUnique-filter, upsert_grant-Keeps}
use modex_cloud.Model.Grant.Frame.{upsert_grant-untouched}
use modex_cloud.Model.Audit.{write_audit, list_audit}
use modex_cloud.Model.Platform.{
  Codecs, get_platform_by_id, update, set_modex_token, list_platforms, delete_platform,
  clear_platform,
}
use modex_cloud.Model.Platform
use modex_cloud.Model.User.{get_user_by_id, get_user_by_username, list_users}
use modex_cloud.Controller.Admin.Consistent.{
  IsConsistent, IsConsistent-same, IsConsistent-tick, HasRoles,
}

HasRoles-same :
    (v w : World) → w.channels ≡ v.channels → w.users ≡ v.users → HasRoles v → HasRoles w
HasRoles-same v w c u h = record { valid = rw u h.valid }

-- An action that changes none of the three tables.
pub same_tables :
    {A : Type 0} (m : Action A)
    → ((w : World)
        → ((m w).1.channels ≡ w.channels) × ((m w).1.grants ≡ w.grants) × ((m w).1.users ≡ w.users))
    → Keeps IsConsistent m
same_tables m s = record { at = λ w h. IsConsistent-same w _ (s w).0 (s w).1 (s w).2 h }

pub first-Keeps :
    {R : Type 0} (f : World → Option R) (missing : Error) → Keeps IsConsistent (first f missing)
first-Keeps f missing = Keeps-first IsConsistent-tick f missing

pub query-Keeps : {A : Type 0} (f : World → A) → Keeps IsConsistent (query f)
query-Keeps f = Keeps-query IsConsistent-tick f

pub write_audit-Keeps : (e : AuditLog) → Keeps IsConsistent (write_audit e)
unfolding write_audit
write_audit-Keeps e = same_tables _ (λ w. ground arith)

pub seal-Keeps : (v : Vault) (p : Text) → Keeps IsConsistent (seal v p)
unfolding seal
seal-Keeps v p = same_tables _ (λ w. ground arith)

pub create_platform-Keeps : (p : Platform) → Keeps IsConsistent (Platform.create p)
unfolding Platform.create
create_platform-Keeps p = same_tables _ (λ w. ground arith)

pub update_platform-Keeps : (p : Platform) → Keeps IsConsistent (update p)
unfolding update
update_platform-Keeps p = same_tables _ (λ w. ground arith)

pub set_modex_token-Keeps :
    (p : Platform) (sealed last4 : Text) → Keeps IsConsistent (set_modex_token p sealed last4)
unfolding set_modex_token
set_modex_token-Keeps p sealed last4 = same_tables _ (λ w. ground arith)

pub get_platform_by_id-Keeps : (id : ℤ) → Keeps IsConsistent (get_platform_by_id id)
unfolding get_platform_by_id
get_platform_by_id-Keeps id = search (keeps_rules, first-Keeps)

pub get_user_by_id-Keeps : (id : ℤ) → Keeps IsConsistent (get_user_by_id id)
unfolding get_user_by_id
get_user_by_id-Keeps id = search (keeps_rules, first-Keeps)

pub get_user_by_username-Keeps : (name : Text) → Keeps IsConsistent (get_user_by_username name)
unfolding get_user_by_username
get_user_by_username-Keeps name = search (first-Keeps)

pub list_users-Keeps :
    (role : ℤ) (offset limit : ℕ) → Keeps IsConsistent (list_users role offset limit)
unfolding list_users
list_users-Keeps role offset limit = search (keeps_rules, query-Keeps)

pub list_platforms-Keeps : Keeps IsConsistent list_platforms
unfolding list_platforms
list_platforms-Keeps = query-Keeps _

pub list_all_grants-Keeps : (offset limit : ℕ) → Keeps IsConsistent (list_all_grants offset limit)
unfolding list_all_grants
list_all_grants-Keeps offset limit = search (keeps_rules, query-Keeps)

pub list_audit-Keeps :
    (action : Text) (user : ℤ) (offset limit : ℕ)
    → Keeps IsConsistent (list_audit action user offset limit)
unfolding list_audit
list_audit-Keeps action user offset limit = search (keeps_rules, query-Keeps)

-- Statements on one of the three tables.
pub exec_grants-Keeps : (p : Grant → Bool) → Keeps IsConsistent (exec (on_grants (filter p)))
exec_grants-Keeps p = Keeps-exec IsConsistent-tick _ (λ w h. record {
  channels = IsValid-same w _ refl h.channels;
  grants = IsUnique-filter p w h.grants;
  users = record { valid = h.users.valid };
})

pub delete_grant-Keeps : (id : ℤ) → Keeps IsConsistent (delete_grant id)
unfolding delete_grant
delete_grant-Keeps id = exec_grants-Keeps _

exec_platforms-Keeps :
    (f : List Platform → List Platform) → Keeps IsConsistent (exec (Platform.on_platforms f))
exec_platforms-Keeps f =
    Keeps-exec IsConsistent-tick _ (λ w h. IsConsistent-same w _ refl refl refl h)

clear_platform-Keeps : (id : ℤ) → Keeps IsConsistent (clear_platform id)
unfolding clear_platform
clear_platform-Keeps id = search (keeps_rules, exec_grants-Keeps, exec_platforms-Keeps)

pub delete_platform-Keeps : (id : ℤ) → Keeps IsConsistent (delete_platform id)
unfolding delete_platform
delete_platform-Keeps id = search (keeps_rules, query-Keeps, clear_platform-Keeps)

pub upsert-Keeps : (g : Grant) → Keeps IsConsistent (upsert_grant g)
upsert-Keeps g = record {
  at = λ w h. record {
    channels = (upsert_grant-untouched (λ v u c _. IsValid-same v u c) g).at w h.channels;
    grants = (upsert_grant-Keeps g).at w h.grants;
    users = (upsert_grant-untouched HasRoles-same g).at w h.users;
  };
}

pub now_unix-Keeps : Keeps IsConsistent now_unix
now_unix-Keeps = record { at = λ w h. h }
