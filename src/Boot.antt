-- ===== src/Boot.antt =====
-- main.go, model/main.go and the seeding of model/user.go: the start of the process.
pub mod Dsn
pub mod Init
pub mod Serve
pub mod Seed
pub mod Laws
pub mod Tests
use modex_cloud.Prelude.{ℕ, Bool, true, false, Option, none, some, []}
use modex_cloud.Prelude.Int.{ℤ}
use modex_cloud.Text.{Text, text}
use modex_cloud.Crypto.{Vault, Primitives, new_from_hex}
use modex_cloud.Model.World.{World, Error, wrap, Result, ok, err}
use modex_cloud.Model.User.{Bcrypt}
use modex_cloud.Config.{Config, load}
use modex_cloud.Config.DotEnv.{Env, File, getenv}
use modex_cloud.Boot.Init.{Gorm, Database, init}
use modex_cloud.Boot.Seed.{Seeded, seed_root_user}

-- What runs when the process has started: the configuration, the vault, the dialect of the database,
-- and the password that is written to the log, if one was generated.
pub record Started : Type 0 where
  pub config : Config
  pub vault : Vault
  pub database : Database
  pub seeded : Seeded

-- `log.Fatalf` at the first step that fails, with the step's message.
pub data Boot : Type 0 where
  fatal : Text → Error → Boot
  started : Started → Boot

module _ (prim : Primitives) (bcrypt : Bcrypt) (gorm : Gorm) where
  abbrev seeding : Config → Vault → Database → Result Seeded × World → Boot × World
  seeding c v d (err e, w) = (fatal (text "failed to seed root user") e, w)
  seeding c v d (ok s, w) =
      (started (record { config = c; vault = v; database = d; seeded = s }), w)

  abbrev opened : Config → Vault → Result Database → World → Boot × World
  opened c v (err e) w = (fatal (text "failed to initialize database") e, w)
  opened c v (ok d) w = seeding c v d (seed_root_user bcrypt c.root_username c.root_password w)

  abbrev with_vault : Config → Env → Result Vault → World → Boot × World
  with_vault c env (err e) w = (fatal (text "failed to initialize crypto vault") e, w)
  with_vault c env (ok v) w = opened c v (init gorm (getenv env (text "SQL_DSN"))) w

  abbrev configured : Result Config × Env → World → Boot × World
  configured (err e, env) w = (fatal (text "configuration error") e, w)
  configured (ok c, env) w = with_vault c env (new_from_hex prim c.master_kek_hex) w

  -- `main`, up to the server.
  unfoldable pub boot : Option File → Env → World → Boot × World
  boot file env w = configured (load file env) w
