-- ===== src/Boot/Dsn.antt =====
-- model/main.go: the database that `SQL_DSN` names.
use modex_cloud.Prelude.{Bool, ◌||◌, [], if◌then◌else◌, ◌==◌, text_eq}
use modex_cloud.Text.{Text, text, has_prefix, has_suffix, trim_prefix}

-- The driver, with what it is opened with.
pub data Dialect : Type 0 where
  sqlite postgres mysql : Text → Dialect

unfoldable pub is_sqlite_dsn : Text → Bool
is_sqlite_dsn dsn =
    (has_prefix dsn (text "sqlite://") || has_prefix dsn (text "file:"))
    || (has_prefix dsn (text "/") || (has_prefix dsn (text "./") || has_prefix dsn (text "../")))
    || (has_suffix dsn (text ".db") || has_suffix dsn (text ".sqlite"))

unfoldable pub sqlite_file_path : Text → Text
sqlite_file_path dsn =
    if has_prefix dsn (text "sqlite://") then trim_prefix dsn (text "sqlite://") else dsn

unfoldable pub is_postgres_dsn : Text → Bool
is_postgres_dsn dsn = has_prefix dsn (text "postgres://") || has_prefix dsn (text "postgresql://")

-- The switch of `Init`.
unfoldable pub dialect_of : Text → Dialect
dialect_of dsn =
    if dsn == []
    then sqlite (text "modex-cloud.db")
    else if is_sqlite_dsn dsn
    then sqlite (sqlite_file_path dsn)
    else if is_postgres_dsn dsn
    then postgres dsn
    else mysql dsn

-- The quoting that `initCol` chooses.
pub record Columns : Type 0 where
  pub group_col : Text
  pub key_col : Text
  pub true_val : Text
  pub false_val : Text

abbrev plain : Columns
plain = record {
  group_col = text "`group`";
  key_col = text "`key`";
  true_val = text "1";
  false_val = text "0";
}

unfoldable pub init_col : Dialect → Columns
init_col (postgres _) = record {
  group_col = text "\"group\"";
  key_col = text "\"key\"";
  true_val = text "true";
  false_val = text "false";
}
init_col (sqlite _) = plain
init_col (mysql _) = plain
