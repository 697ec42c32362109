-- ===== src/Boot/Tests.antt =====
-- The theorems on the start of the process at an empty database.
use modex_cloud.Prelude.{
  ◌≡◌, ◌≢◌, refl, ℕ, true, false, some, none, Option, [], ◌∷◌, ◌++◌, arith, ◌==◌, nat_eq,
  text_beq_iff, text_eq,
}
use modex_cloud.Text.{Text, text}
use modex_cloud.Constant.{role_root}
use modex_cloud.Crypto.{Vault, Primitives}
use modex_cloud.Model.Schema.{User}
use modex_cloud.Model.World.{World, ok}
use modex_cloud.Controller.Flow.{api_success}
use modex_cloud.Controller.Account.{login, session_of, user_json}
use modex_cloud.Config.{Config, of_env}
use modex_cloud.Config.DotEnv.{Env}
use modex_cloud.Boot.Dsn.{Dialect, sqlite, init_col}
use modex_cloud.Boot.Init.{Gorm, init}
use modex_cloud.Boot.Seed.{Seeded}
use modex_cloud.Boot.Seed.Laws.{password_of}
use modex_cloud.Boot.{Boot, Started, started, boot}
use modex_cloud.Boot.Laws.{login-boot}
use modex_cloud.Controller.Tests.{toy_bcrypt-Verifies}
use modex_cloud.Boot.Serve.{service}
use modex_cloud.Router.Spa.{Files}
use modex_cloud.Middleware.Headers.{security_headers}
use modex_cloud.Examples.{toy_primitives, toy_aead, toy_bcrypt, account, server, supplier}

abbrev env : Env
env =
    (text "MASTER_KEK", text "0000000000000000000000000000000000000000000000000000000000000000")
    ∷ (text "SESSION_SECRET", text "0123456789abcdef")
    ∷ (text "ROOT_PASSWORD", text "correct horse")
    ∷ []

abbrev opens : Gorm
opens = record { open_dialect = λ d. ok tt; auto_migrate = λ d ms. ok tt }

abbrev eight_zeros : Text
eight_zeros = 0 ∷ 0 ∷ 0 ∷ 0 ∷ 0 ∷ 0 ∷ 0 ∷ 0 ∷ []

abbrev running : Started
running = record {
  config = of_env env;
  vault = record {
    aead = toy_aead;
    hmac_key =
        text "modex-cloud/fingerprint/v1"
        ++ 0 ∷ (eight_zeros ++ (eight_zeros ++ (eight_zeros ++ eight_zeros)));
  };
  database = record {
    dialect = sqlite (text "modex-cloud.db");
    columns = init_col (sqlite (text "modex-cloud.db"));
  };
  seeded = record { created = true; generated = [] };
}

abbrev after : World
after = (boot toy_primitives toy_bcrypt opens none env server).1

has_started : boot toy_primitives toy_bcrypt opens none env server ≡ (started running, after)
unfolding boot modex_cloud.Config.load modex_cloud.Config.DotEnv.getenv
    modex_cloud.Config.DotEnv.lookup modex_cloud.Config.DotEnv.load_dot_env
    modex_cloud.Prelude.text_beq text modex_cloud.Config.is_hex modex_cloud.Crypto.new_from_hex
    modex_cloud.Text.hex_decode modex_cloud.Text.hex_value modex_cloud.Boot.Seed.seed_root_user
    modex_cloud.Model.User.create modex_cloud.Boot.Dsn.dialect_of init
has_started = refl

login-boot_example :
    (u : User) × (u.role ≡ role_root)
    × ((login toy_bcrypt
          (λ s. true)
          supplier
          (some (record {
            username = running.config.root_username;
            password = password_of running.config.root_password running.seeded;
          }))
          (session_of account)
          after).0
        ≡ (api_success (user_json u), session_of u))
login-boot_example =
    login-boot toy_primitives toy_bcrypt opens (λ s. true) none env server after running supplier
      (session_of account) toy_bcrypt-Verifies (λ n. refl) refl (λ t. refl) has_started

-- Without a page nothing is mounted, and the port of the configuration is listened on.
abbrev no_page : Files
no_page = record { read_file = λ n. none; opens = λ n. false; stats = λ n. false }

serves : (service (of_env env) (ok no_page)).frontend ≡ none
unfolding service modex_cloud.Boot.Serve.dist_fs modex_cloud.Router.Spa.mount_spa
serves = refl

listens : (service (of_env env) (ok no_page)).address ≡ text ":3000"
unfolding service text of_env modex_cloud.Text.itoa modex_cloud.Config.env_int
    modex_cloud.Prelude.text_beq modex_cloud.Config.DotEnv.getenv modex_cloud.Config.DotEnv.lookup
listens = refl

protects :
    security_headers ((text "X-Frame-Options", text "ALLOW") ∷ [])
    ≡ (text "X-Frame-Options", text "DENY")
      ∷ (text "X-Content-Type-Options", text "nosniff")
      ∷ (text "Referrer-Policy", text "no-referrer")
      ∷ (text "Cross-Origin-Opener-Policy", text "same-origin")
      ∷ []
unfolding security_headers text modex_cloud.Prelude.text_beq
protects = refl
