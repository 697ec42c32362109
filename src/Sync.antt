-- ===== src/Sync.antt =====
-- service/sync/worker.go: the only code that opens sealed keys.
pub mod Destroy
pub mod Tests
pub mod Sends
pub mod Run
pub mod Usage
pub mod Wipe
pub mod Rotation
pub mod Invariant
use modex_cloud.Prelude.{[], ◌++◌, if◌then◌else◌, ◌==◌}
use modex_cloud.Prelude.Int.{ℤ, pos, int_eq}
use modex_cloud.Text.{Text, text, itoa}
use modex_cloud.Crypto.{Vault, open_blob}
use modex_cloud.Agt.{
  Client, new_client, ChannelPayload, create_channel, update_channel, get_channel_usage,
}
use modex_cloud.Model.Schema.{Channel, Platform}
use modex_cloud.Model.World.{
  Error, error_text, errorf, wrap, Action, pure, raise, ◌>>=◌, ◌>>◌, ignore, on_result, attempt,
}
use modex_cloud.Model.Channel.{
  has_recoverable_key, load_channel_for_sync, get_channel_by_id, mark_synced, mark_failed,
  mark_metadata_synced, set_usage,
}
use modex_cloud.Model.Platform.{get_platform_by_id}

-- `_ = ch.MarkFailed(reason); return err`
abbrev pub fail_with : Channel → Text → Error → Action (Unit {0})
fail_with ch reason e = ignore (mark_failed ch reason) >> raise e

abbrev pub payload_of : Channel → ChannelPayload
payload_of ch = record {
  id = ch.remote_id;
  name = ch.name;
  type = ch.type;
  key = [];
  base_url = ch.base_url;
  models = ch.models;
  group = ch.group;
}

abbrev pub with_key : Text → ChannelPayload → ChannelPayload
with_key key p = record p { key = key }

-- The rest of `syncWithKey`, with the key opened.
unfoldable pub publish_key : Client → Channel → ChannelPayload → Action (Unit {0})
publish_key client ch payload =
    if ch.remote_id == pos 0
    then attempt (create_channel client payload) (λ e. fail_with ch (error_text e) e)
        (λ remote. mark_synced ch remote >>= λ _. pure tt)
    else attempt (update_channel client payload) (λ e. fail_with ch (error_text e) e)
        (λ _. mark_synced ch ch.remote_id >>= λ _. pure tt)

unfoldable pub sync_with_key : Vault → Client → Channel → ChannelPayload → Action (Unit {0})
sync_with_key vault client ch payload =
    on_result (open_blob vault ch.enc_key)
      (λ e.
        fail_with ch (text "sealed key could not be decrypted")
          (wrap (text "decrypt channel key") e))
      (λ key. publish_key client ch (with_key key payload))

unfoldable pub sync_metadata_only : Client → Channel → ChannelPayload → Action (Unit {0})
sync_metadata_only client ch payload =
    if ch.remote_id == pos 0
    then fail_with ch (text "no key available to publish; supplier must re-upload")
        (errorf (text "channel " ++ (itoa ch.id ++ text " has no key and no remote id")))
    else attempt (update_channel client payload) (λ e. fail_with ch (error_text e) e)
        (λ _. mark_metadata_synced ch >>= λ _. pure tt)

-- `SyncChannel` once the channel and its platform are loaded.
unfoldable pub forward : Vault → Channel → Platform → Action (Unit {0})
forward vault ch platform =
    on_result (open_blob vault platform.modex_token_enc)
      (λ e.
        fail_with ch (text "platform token could not be decrypted")
          (wrap (text "decrypt platform token") e))
      (λ token.
        let client = new_client platform.base_url token in
        if has_recoverable_key ch
        then sync_with_key vault client ch (payload_of ch)
        else sync_metadata_only client ch (payload_of ch))

unfoldable pub sync_channel : Vault → ℤ → Action (Unit {0})
sync_channel vault id = do
  ch ← load_channel_for_sync id
  platform ← get_platform_by_id ch.platform_id
  forward vault ch platform

-- `RefreshUsage` once the channel and its platform are loaded.
unfoldable pub pull_usage : Vault → Channel → Platform → Action ℤ
pull_usage vault ch platform =
    on_result (open_blob vault platform.modex_token_enc)
      (λ e. raise (wrap (text "decrypt platform token") e))
      (λ token. do
        used ← get_channel_usage (new_client platform.base_url token) ch.remote_id
        updated ← set_usage ch used
        pure used)

refresh_loaded : Vault → Channel → Action ℤ
refresh_loaded vault ch = do
  platform ← get_platform_by_id ch.platform_id
  pull_usage vault ch platform

unfoldable pub refresh_usage : Vault → ℤ → Action ℤ
unfolding refresh_loaded
refresh_usage vault id = do
  ch ← get_channel_by_id id
  if ch.remote_id == pos 0
      then raise
          (errorf (text "channel " ++ (itoa ch.id ++ text " has not been synced to AGT yet")))
      else refresh_loaded vault ch
