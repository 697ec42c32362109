-- ===== src/Crypto/Global.antt =====
-- crypto/global.go: the process's vault, and the two ways to get at it.
use modex_cloud.Prelude.{Bool, true, false, Option, none, some}
use modex_cloud.Text.{Text}
use modex_cloud.Model.World.{Result, ok, err, Action}
use modex_cloud.Crypto.{Primitives, Vault, new_from_hex, seal, fingerprint}

-- The face of the vault that has no way to open.
pub record Sealer : Type 0 where
  pub seal : Text → Action Text
  pub seal_string : Text → Action Text
  pub fingerprint : Text → Text
  pub fingerprint_string : Text → Text

module _ (prim : Primitives) where
  -- `sealerOnly`
  abbrev pub sealer_only : Vault → Sealer
  sealer_only v = record {
    seal = seal v;
    seal_string = seal v;
    fingerprint = fingerprint prim v;
    fingerprint_string = fingerprint prim v;
  }

  -- `InitGlobal`: the variable `global` afterwards, which stays where the key is refused.
  unfoldable pub init_global : Option Vault → Text → Result (Unit {0}) × Option Vault
  init_global global hex_key = elim (new_from_hex prim hex_key) [
    | err e ↦ (err e, global)
    | ok v ↦ (ok tt, some v)
  ]

  -- `GlobalSealer`; `none` is the panic.
  abbrev pub global_sealer : Option Vault → Option Sealer
  global_sealer none = none
  global_sealer (some v) = some (sealer_only v)

-- `SyncOpener`; `none` is the panic.
abbrev pub sync_opener : Option Vault → Option Vault
sync_opener none = none
sync_opener (some v) = some v

unfoldable pub is_global_ready : Option Vault → Bool
is_global_ready none = false
is_global_ready (some v) = true
