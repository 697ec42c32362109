-- ===== src/Router/Setup.antt =====
-- router/router.go: what `Setup` puts round the routes.
use modex_cloud.Prelude.{ℕ, Bool, true}
use modex_cloud.Text.{Text, text}
use modex_cloud.Wire.{Json, str, obj, end, field}
use modex_cloud.Middleware.Headers.{Header, security_headers}
use modex_cloud.Middleware.Limiter.{Limiter}
use modex_cloud.Router.{login_limiter}

-- `sessions.Options`, the members that are set. `same_site` 3 is `http.SameSiteStrictMode`.
pub record CookieOptions : Type 0 where
  pub path : Text
  pub http_only : Bool
  pub max_age : ℕ
  pub same_site : ℕ

-- The engine: what its middleware does to the headers, the store of the sessions with the secret that
-- signs its cookies, and the limiter of the login.
pub record Engine : Type 0 where
  pub headers : Header → Header
  pub session_secret : Text
  pub session_name : Text
  pub cookie_options : CookieOptions
  pub limiter : Limiter

unfoldable pub setup : Text → Engine
setup session_secret = record {
  headers = security_headers;
  session_secret = session_secret;
  session_name = text "modex_session";
  cookie_options = record { path = text "/"; http_only = true; max_age = 86400; same_site = 3 };
  limiter = login_limiter;
}

-- `GET /health`
abbrev pub health : Json
health = obj (field (text "status") (str (text "ok")) end)
