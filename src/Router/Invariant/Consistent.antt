-- ===== src/Router/Invariant/Consistent.antt =====
-- Whatever is requested, in whatever order, the database stays consistent.
use modex_cloud.Prelude.{refl, Option, List, [], ◌∷◌, Bool-cases, inl, inr}
use modex_cloud.Constant.{role_supplier, role_admin}
use modex_cloud.Model.Schema.{User}
use modex_cloud.Model.World.{World, Action}
use modex_cloud.Model.World.Keeps.{Keeps, keeps_rules}
use modex_cloud.Model.Invariant.{IsValid}
use modex_cloud.Middleware.Auth.{Session, supplier_auth, admin_auth}
use modex_cloud.Middleware.Limiter.{allow}
use modex_cloud.Controller.Flow.{Context}
use modex_cloud.Controller.Flow.Keeps.{FlowKeeps, FlowKeeps-give, Serves, flow_rules}
use modex_cloud.Controller.Account.{
  LoginRequest, login_steps, login, logout, establish_session, session_of,
}
use modex_cloud.Controller.SupplierChannel.Preserve.{KeptByChannels, any_user}
use modex_cloud.Controller.SupplierChannel.Invariant.{IsValid-KeptByChannels}
use modex_cloud.Controller.SupplierChannel.Isolation.{HasTables, HasTables-KeptByChannels}
use modex_cloud.Controller.Admin.Consistent.{IsConsistent, IsConsistent-same, IsConsistent-tick}
use modex_cloud.Controller.Admin.Consistent.Statements.{
  write_audit-Keeps, get_user_by_username-Keeps,
}
use modex_cloud.Controller.Admin.Consistent.Accounts.{touch_login-Keeps}
use modex_cloud.Controller.Admin.Consistent.Handlers.{
  list_users-Serves, list_platforms-Serves, list_grants-Serves, list_audit_logs-Serves,
  delete_user-Serves, delete_platform-Serves, delete_grant-Serves, upsert_grant-Serves,
  reset_user_password-Serves, change_password-Serves, self_profile-Serves, create_platform-Serves,
  update_platform-Serves, create_user-Serves, update_user-Serves,
}
use modex_cloud.Router.{
  AdminCall, get_platforms, post_platform, put_platform, remove_platform, get_users, post_user,
  put_user, post_reset_password, remove_user, get_grants, post_grant, remove_grant, get_audit_logs,
  Call, post_login, post_logout, get_self, post_change_password, supplier, admin, Envelope, Server,
  Parts, context, open_context, serve_admin, route, handle, handle_all, is_login,
}
use modex_cloud.Router.Invariant.{guarded-Serves, serve_supplier-Serves}

-- What keeps the channels sound and touches no other table keeps the whole consistent.
from_channels :
    {A : Type 0} (m : Action A)
    → Keeps IsValid m
    → ((t : World) → Keeps (HasTables t) m)
    → Keeps IsConsistent m
from_channels m k s = record {
  at = λ w h.
      let t = (s w).at w (record { users = refl; grants = refl; platforms = refl }) in
      record {
        channels = k.at w h.channels;
        grants = record { once = rw (t.grants) h.grants.once };
        users = record { valid = rw (t.users) h.users.valid };
      };
}

IsConsistent-KeptByChannels : KeptByChannels IsConsistent
IsConsistent-KeptByChannels =
    let v = IsValid-KeptByChannels in
    let t = HasTables-KeptByChannels in
    record {
      same = λ a b e h. IsConsistent-same a b e.channels e.grants e.users h;
      insert = λ c e. from_channels _ (v.insert c e) (λ s. (t s).insert c e);
      edit = λ c. from_channels _ (v.edit c) (λ s. (t s).edit c);
      rekey = λ c x y z. from_channels _ (v.rekey c x y z) (λ s. (t s).rekey c x y z);
      remove = λ i u. from_channels _ (v.remove i u) (λ s. (t s).remove i u);
      usage = λ a i. from_channels _ (v.usage a i) (λ s. (t s).usage a i);
    }

module _ (parts : Parts) where
  serve_admin-Serves :
      (call : AdminCall) (c : Context) → Serves IsConsistent (serve_admin parts call c)
  unfolding serve_admin
  serve_admin-Serves get_platforms c = list_platforms-Serves
  serve_admin-Serves (post_platform body) c = create_platform-Serves parts.deps c body
  serve_admin-Serves (put_platform body) c = update_platform-Serves parts.deps c body
  serve_admin-Serves remove_platform c = delete_platform-Serves c
  serve_admin-Serves get_users c = list_users-Serves c
  serve_admin-Serves (post_user body) c = create_user-Serves parts.bcrypt c body
  serve_admin-Serves (put_user body) c = update_user-Serves c body
  serve_admin-Serves (post_reset_password body) c = reset_user_password-Serves parts.bcrypt c body
  serve_admin-Serves remove_user c = delete_user-Serves c
  serve_admin-Serves get_grants c = list_grants-Serves c
  serve_admin-Serves (post_grant body) c = upsert_grant-Serves parts.deps.codecs c body
  serve_admin-Serves remove_grant c = delete_grant-Serves c
  serve_admin-Serves get_audit_logs c = list_audit_logs-Serves c

  establish_session-Keeps :
      (u : User) → FlowKeeps IsConsistent (establish_session parts.bcrypt parts.saves u)
  unfolding establish_session
  establish_session-Keeps u = record {
    at = λ w h. elim (Bool-cases (parts.saves (session_of u))) [
      | inl e ↦ rw (e, establish_session) h
      | inr e ↦ rw (e, establish_session) h
    ];
  }

  login_steps-Keeps :
      (c : Context) (body : Option LoginRequest)
      → FlowKeeps IsConsistent (login_steps parts.bcrypt parts.saves c body)
  unfolding login_steps
  login_steps-Keeps c body =
      search
        (
          keeps_rules, flow_rules, FlowKeeps-give, write_audit-Keeps, touch_login-Keeps,
          get_user_by_username-Keeps, establish_session-Keeps,
        )
        depth 30

  login-Keeps :
      (c : Context) (body : Option LoginRequest) (s : Session) (w : World)
      → IsConsistent w
      → IsConsistent (login parts.bcrypt parts.saves c body s w).1
  unfolding login
  login-Keeps c body s w h = (login_steps-Keeps c body).at w h

  route-Keeps :
      (call : Call) (e : Envelope) (w : World)
      → IsConsistent w
      → IsConsistent (route parts call e w).1
  unfolding route supplier_auth admin_auth logout
  route-Keeps (post_login body) e w h = login-Keeps (open_context e) body e.session w h
  route-Keeps post_logout e w h = h
  route-Keeps get_self e w h =
      (guarded-Serves IsConsistent IsConsistent-tick role_supplier e.session e.authorization _
          (λ p. self_profile-Serves (context e p))).at
        w h
  route-Keeps (post_change_password body) e w h =
      (guarded-Serves IsConsistent IsConsistent-tick role_supplier e.session e.authorization _
          (λ p. change_password-Serves parts.bcrypt (context e p) body)).at
        w h
  route-Keeps (supplier call) e w h =
      (guarded-Serves IsConsistent IsConsistent-tick role_supplier e.session e.authorization _ (λ p.
          serve_supplier-Serves (context e p) (any_user IsConsistent-KeptByChannels p.user_id) parts
            call)).at
        w h
  route-Keeps (admin call) e w h =
      (guarded-Serves IsConsistent IsConsistent-tick role_admin e.session e.authorization _
          (λ p. serve_admin-Serves call (context e p))).at
        w h

  handle-Keeps :
      (call : Call) (e : Envelope) (s : Server)
      → IsConsistent s.world
      → IsConsistent (handle parts call e s).1.world
  unfolding handle
  handle-Keeps call e s h =
      let k = route-Keeps call e s.world h in
      elim (Bool-cases (is_login call)) [
        | inr l ↦ rw (l, handle) k
        | inl l ↦ elim (Bool-cases (allow s.limiter e.client_ip e.now).0) [
          | inl a ↦ rw (l, a, handle) k
          | inr a ↦ rw (l, a, handle) h
        ]
      ]

  -- From a consistent database, whatever requests the server answers, in any order and whichever
  -- statements fail, the database stays consistent: no channel is recorded as synced while its
  -- sealed key is left, ids of channels are distinct and below the counter, a supplier has one
  -- grant at most for a platform, and every account has one of the three roles.
  pub handle_all-IsConsistent :
      (calls : List (Call × Envelope)) (s : Server)
      → IsConsistent s.world
      → IsConsistent (handle_all parts calls s).world
  unfolding handle_all
  handle_all-IsConsistent [] s h = h
  handle_all-IsConsistent ((call, e) ∷ rest) s h =
      handle_all-IsConsistent rest (handle parts call e s).1 (handle-Keeps call e s h)
