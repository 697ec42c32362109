-- ===== src/Router.antt =====
-- router/router.go: the routes, each behind its guard, and one request after the other.
pub mod Guards
pub mod Logins
pub mod Invariant
pub mod Setup
pub mod Spa
pub mod Blind
pub mod Tests
use modex_cloud.Prelude.{
  ℕ, Bool, true, false, Option, none, some, List, [], ◌∷◌, if◌then◌else◌, ◌*◌,
}
use modex_cloud.Prelude.Int.{ℤ, pos}
use modex_cloud.Text.{Text, text}
use modex_cloud.Model.World.{World}
use modex_cloud.Model.User.{Bcrypt}
use modex_cloud.Middleware.Limiter.{Limiter, new_limiter, allow}
use modex_cloud.Middleware.Auth.{Session, Principal, supplier_auth, admin_auth}
use modex_cloud.Controller.Flow.{
  Response, Context, Outcome, next, replied, Flow, Handler, abort_error,
}
use modex_cloud.Controller.Paging.{page_params, start_row, atoi_query}
use modex_cloud.Controller.Account.{
  LoginRequest, ChangePasswordRequest, login, logout, change_password, self_profile,
}
use modex_cloud.Controller.SupplierChannel.{
  Deps, CreateChannelRequest, UpdateChannelRequest, create_channel, update_channel, resync_channel,
  refresh_channel_usage, list_channels, delete_channel,
}
use modex_cloud.Controller.SupplierPlatform.{list_my_platforms}
use modex_cloud.Controller.Admin.User.{
  CreateUserRequest, UpdateUserRequest, ResetPasswordRequest, list_users, create_user, update_user,
  reset_user_password, delete_user,
}
use modex_cloud.Controller.Admin.Platform.{
  PlatformRequest, list_platforms, create_platform, update_platform, delete_platform,
}
use modex_cloud.Controller.Admin.Grant.{GrantRequest, list_grants, upsert_grant, delete_grant}
use modex_cloud.Controller.Admin.Audit.{list_audit_logs}

-- The routes of the group `/supplier`, each with the body that its handler binds, `none` where
-- binding fails.
pub data SupplierCall : Type 0 where
  get_channels : SupplierCall
  post_channel : Option CreateChannelRequest → SupplierCall
  put_channel : Option UpdateChannelRequest → SupplierCall
  remove_channel : SupplierCall
  post_resync : SupplierCall
  post_refresh_usage : SupplierCall
  get_my_platforms : SupplierCall

-- The routes of the group `/admin`.
pub data AdminCall : Type 0 where
  get_platforms : AdminCall
  post_platform : Option PlatformRequest → AdminCall
  put_platform : Option PlatformRequest → AdminCall
  remove_platform : AdminCall
  get_users : AdminCall
  post_user : Option CreateUserRequest → AdminCall
  put_user : Option UpdateUserRequest → AdminCall
  post_reset_password : Option ResetPasswordRequest → AdminCall
  remove_user : AdminCall
  get_grants : AdminCall
  post_grant : Option GrantRequest → AdminCall
  remove_grant : AdminCall
  get_audit_logs : AdminCall

pub data Call : Type 0 where
  post_login : Option LoginRequest → Call
  post_logout : Call
  get_self : Call
  post_change_password : Option ChangePasswordRequest → Call
  supplier : SupplierCall → Call
  admin : AdminCall → Call

-- What comes with a request: the client, its cookie, the `Authorization` header, the parameters and
-- the time in nanoseconds.
pub record Envelope : Type 0 where
  pub client_ip : Text
  pub session : Session
  pub authorization : Text
  pub id_param : Text
  pub query : Text → Text
  pub now : ℕ

pub record Server : Type 0 where
  pub world : World
  pub limiter : Limiter

-- Ten a minute, as `Setup` makes it.
abbrev pub login_limiter : Limiter
login_limiter = new_limiter 10 60000000000

-- What a handler reads from the context after the guard.
abbrev pub context : Envelope → Principal → Context
context e p = record {
  user_id = p.user_id;
  username = p.username;
  client_ip = e.client_ip;
  id_param = e.id_param;
  query = e.query;
}

-- Nothing is set in the context of a route without a guard.
abbrev pub open_context : Envelope → Context
open_context e = record {
  user_id = pos 0;
  username = [];
  client_ip = e.client_ip;
  id_param = e.id_param;
  query = e.query;
}

-- A guard and the handler that runs if it lets the request through.
abbrev pub behind : Outcome Principal → (Principal → Handler) → Handler
behind (next p) h w = h p w
behind (replied r) h w = (r, w)

unfoldable pub guarded : Flow Principal → (Principal → Handler) → Handler
guarded guard h w = let (r, w') = guard w in behind r h w'

abbrev pub kept_session : Session → Handler → World → (Response × Session) × World
kept_session s h w = let (r, w') = h w in ((r, s), w')

-- What the routes are built over: the packages behind the handlers, and the store of the cookies.
pub record Parts : Type 0 where
  pub deps : Deps
  pub bcrypt : Bcrypt
  pub saves : Session → Bool

abbrev pub is_login : Call → Bool
is_login (post_login _) = true
is_login _ = false

too_many : Envelope → Response × Session
too_many e = (abort_error 429 (text "too many requests, please slow down"), e.session)

module _ (parts : Parts) where
  unfoldable pub serve_supplier : SupplierCall → Context → Handler
  serve_supplier get_channels c =
      let (offset, limit) = page_params c in
      list_channels parts.deps c (atoi_query c (text "platform_id")) (start_row offset) limit
  serve_supplier (post_channel body) c = create_channel parts.deps c body
  serve_supplier (put_channel body) c = update_channel parts.deps c body
  serve_supplier remove_channel c = delete_channel c
  serve_supplier post_resync c = resync_channel parts.deps c
  serve_supplier post_refresh_usage c = refresh_channel_usage parts.deps c
  serve_supplier get_my_platforms c = list_my_platforms parts.deps.codecs c

  unfoldable pub serve_admin : AdminCall → Context → Handler
  serve_admin get_platforms c = list_platforms
  serve_admin (post_platform body) c = create_platform parts.deps c body
  serve_admin (put_platform body) c = update_platform parts.deps c body
  serve_admin remove_platform c = delete_platform c
  serve_admin get_users c = list_users c
  serve_admin (post_user body) c = create_user parts.bcrypt c body
  serve_admin (put_user body) c = update_user c body
  serve_admin (post_reset_password body) c = reset_user_password parts.bcrypt c body
  serve_admin remove_user c = delete_user c
  serve_admin get_grants c = list_grants c
  serve_admin (post_grant body) c = upsert_grant parts.deps.codecs c body
  serve_admin remove_grant c = delete_grant c
  serve_admin get_audit_logs c = list_audit_logs c

  -- The routes but the login, whose limiter is the server's.
  unfoldable pub route : Call → Envelope → World → (Response × Session) × World
  unfolding serve_supplier serve_admin
  route (post_login body) e = login parts.bcrypt parts.saves (open_context e) body e.session
  route post_logout e = logout parts.saves e.session
  route get_self e =
      kept_session e.session
        (guarded (supplier_auth e.session e.authorization) (λ p. self_profile (context e p)))
  route (post_change_password body) e = kept_session e.session (
      guarded (supplier_auth e.session e.authorization)
        (λ p. change_password parts.bcrypt (context e p) body))
  route (supplier call) e =
      kept_session e.session
        (guarded (supplier_auth e.session e.authorization) (λ p. serve_supplier call (context e p)))
  route (admin call) e =
      kept_session e.session
        (guarded (admin_auth e.session e.authorization) (λ p. serve_admin call (context e p)))

  -- The route with the middleware `RateLimit` before the login.
  unfoldable pub handle : Call → Envelope → Server → (Response × Session) × Server
  unfolding route too_many
  handle call e s =
      let (admitted, l) = allow s.limiter e.client_ip e.now in
      let (out, w) = route call e s.world in
      if is_login call
      then if admitted
        then (out, record { world = w; limiter = l })
        else (too_many e, record { world = s.world; limiter = l })
      else (out, record { world = w; limiter = s.limiter })

  -- The state after a sequence of requests.
  unfoldable pub handle_all : List (Call × Envelope) → Server → Server
  handle_all [] s = s
  handle_all ((call, e) ∷ rest) s = handle_all rest (handle call e s).1
