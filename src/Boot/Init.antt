-- ===== src/Boot/Init.antt =====
-- model/main.go: opening the database and creating its tables. GORM does both; what it answers is an
-- argument.
use modex_cloud.Prelude.{List, [], ◌∷◌}
use modex_cloud.Text.{Text, text}
use modex_cloud.Model.World.{wrap, Result, ok, err}
use modex_cloud.Boot.Dsn.{Dialect, Columns, dialect_of, init_col}

-- The structs whose tables `migrate` creates.
pub data Model : Type 0 where
  user platform grant channel audit_log : Model

abbrev pub models : List Model
models = user ∷ platform ∷ grant ∷ channel ∷ audit_log ∷ []

-- `gorm.Open` for a dialect, and `AutoMigrate` on the database of a dialect.
pub record Gorm : Type 0 where
  pub open_dialect : Dialect → Result (Unit {0})
  pub auto_migrate : Dialect → List Model → Result (Unit {0})

-- The variables that `Init` sets. The driver flags say which constructor the dialect has.
pub record Database : Type 0 where
  pub dialect : Dialect
  pub columns : Columns

module _ (gorm : Gorm) where
  migrated : Dialect → Result (Unit {0}) → Result Database
  migrated d (err e) = err (wrap (text "migrate") e)
  migrated d (ok _) = ok (record { dialect = d; columns = init_col d })

  opened : Dialect → Result (Unit {0}) → Result Database
  unfolding migrated
  opened d (err e) = err (wrap (text "open database") e)
  opened d (ok _) = migrated d (gorm.auto_migrate d models)

  -- `Init`, for the value of `SQL_DSN`.
  unfoldable pub init : Text → Result Database
  unfolding opened
  init dsn = let d = dialect_of dsn in opened d (gorm.open_dialect d)
