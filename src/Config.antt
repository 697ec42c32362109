-- ===== src/Config.antt =====
-- Package config: the environment, the `.env` file, and the checked configuration.
pub mod DotEnv
pub mod Laws
pub mod Tests
use modex_cloud.Prelude.{
  ℕ, ◌*◌, Bool, true, false, ◌&&◌, ◌||◌, not, Option, none, some, List, [], ◌∷◌, ltb, leb, length,
  if◌then◌else◌, ◌==◌, nat_eq, text_eq,
}
use modex_cloud.Prelude.Int.{ℤ, pos}
use modex_cloud.Text.{Text, text, atoi}
use modex_cloud.Model.World.{Error, errorf, Result, ok, err}
use modex_cloud.Config.DotEnv.{Env, lookup, getenv, File, load_dot_env}

pub record Config : Type 0 where
  pub port : ℤ
  pub master_kek_hex : Text
  pub session_secret : Text
  pub sql_dsn : Text
  pub root_username : Text
  pub root_password : Text
  pub trusted_proxies : Text

-- A byte outside ASCII belongs to a rune that is no digit.
unfoldable pub is_hex : Text → Bool
is_hex [] = true
is_hex (r ∷ s) =
    (leb b'0' r && leb r b'9' || leb b'a' r && leb r b'f' || leb b'A' r && leb r b'F') && is_hex s

unfoldable pub env_str : Env → Text → Text → Text
env_str env key def = if getenv env key == [] then def else getenv env key

unfoldable pub env_int : Env → Text → ℤ → ℤ
env_int env key def =
    if getenv env key == [] then def else elim (atoi (getenv env key)) [ none ↦ def | some n ↦ n ]

unfoldable pub of_env : Env → Config
of_env env = record {
  port = env_int env (text "PORT") (pos 3000);
  master_kek_hex = getenv env (text "MASTER_KEK");
  session_secret = getenv env (text "SESSION_SECRET");
  sql_dsn = getenv env (text "SQL_DSN");
  root_username = env_str env (text "ROOT_USERNAME") (text "admin");
  root_password = getenv env (text "ROOT_PASSWORD");
  trusted_proxies = getenv env (text "TRUSTED_PROXIES");
}

-- The checks of `Load`, in their order.
unfoldable pub checked : Config → Result Config
checked c =
    if not (length c.master_kek_hex == 64)
    then err (
        errorf (
          text
            "MASTER_KEK must be a 64-character hex string (AES-256); generate one with: openssl rand -hex 32"))
    else if not (is_hex c.master_kek_hex)
    then err (errorf (text "MASTER_KEK must be valid hexadecimal"))
    else if ltb (length c.session_secret) 16
    then err (errorf (text "SESSION_SECRET is required and must be at least 16 characters"))
    else if not (c.root_password == []) && ltb (length c.root_password) 8
    then err (errorf (text "ROOT_PASSWORD, if set, must be at least 8 characters"))
    else ok c

-- `Load`, and the environment as the `.env` file leaves it.
unfoldable pub load : Option File → Env → Result Config × Env
unfolding of_env checked
load file env = let env' = load_dot_env file env in (checked (of_env env'), env')
