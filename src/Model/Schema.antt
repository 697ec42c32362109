-- ===== src/Model/Schema.antt =====
-- The rows of the five tables: the structs of model/*.go, field by field.
use modex_cloud.Prelude.{ℕ, Bool, Option}
use modex_cloud.Prelude.Int.{ℤ}
use modex_cloud.Text.{Text}
use modex_cloud.Constant.{KeyState}

-- `enc_key` is the sealed key, empty when it has been wiped; `deleted_at` is gorm's mark of a
-- soft-deleted row.
pub record Channel : Type 0 where
  pub id : ℤ
  pub user_id : ℤ
  pub platform_id : ℤ
  pub name : Text
  pub type : ℤ
  pub enc_key : Text
  pub key_fingerprint : Text
  pub key_last4 : Text
  pub key_state : KeyState
  pub base_url : Text
  pub models : Text
  pub group : Text
  pub used_quota : ℤ
  pub usage_sync_time : ℕ
  pub remote_id : ℤ
  pub sync_status : ℤ
  pub sync_error : Text
  pub sync_attempts : ℕ
  pub last_sync_time : ℕ
  pub status : ℤ
  pub created_time : ℕ
  pub updated_time : ℕ
  pub deleted_at : Option ℕ

pub record PlatformGroup : Type 0 where
  pub name : Text
  pub type : ℤ
  pub show_amount : Bool

pub record Platform : Type 0 where
  pub id : ℤ
  pub name : Text
  pub base_url : Text
  pub status : ℤ
  pub modex_token_enc : Text
  pub modex_token_last4 : Text
  pub name_prefix : Text
  pub groups : Text
  pub allowed_types : Text
  pub allowed_models : Text
  pub allowed_groups : Text
  pub base_url_allow : Text
  pub created_time : ℕ
  pub updated_time : ℕ

pub record Grant : Type 0 where
  pub id : ℤ
  pub user_id : ℤ
  pub platform_id : ℤ
  pub allowed_types : Text
  pub allowed_models : Text
  pub allowed_groups : Text
  pub max_channels : ℤ
  pub status : ℤ
  pub created_time : ℕ

pub record User : Type 0 where
  pub id : ℤ
  pub username : Text
  pub password : Text
  pub role : ℤ
  pub status : ℤ
  pub supplier_code : Text
  pub supplier_name : Text
  pub access_token : Option Text
  pub two_fa_enabled : Bool
  pub two_fa_secret_enc : Text
  pub created_time : ℕ
  pub last_login_time : ℕ
  pub last_login_ip : Text

pub record AuditLog : Type 0 where
  pub id : ℤ
  pub user_id : ℤ
  pub username : Text
  pub action : Text
  pub resource_type : Text
  pub resource_id : ℤ
  pub detail : Text
  pub ip : Text
  pub result : Text
  pub created_time : ℕ
