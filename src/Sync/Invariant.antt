-- ===== src/Sync/Invariant.antt =====
-- The worker keeps the invariant of the database, and so does a refresh of the usage.
use modex_cloud.Prelude.{Option}
use modex_cloud.Prelude.Int.{ℤ}
use modex_cloud.Crypto.{Vault}
use modex_cloud.Agt.{Client, ChannelPayload, create_channel, update_channel, get_channel_usage}
use modex_cloud.Agt.Frame.{
  create_channel-SameRows, update_channel-SameRows, get_channel_usage-SameRows,
}
use modex_cloud.Model.Schema.{Channel, Platform}
use modex_cloud.Model.World.{World, Error, first}
use modex_cloud.Model.World.Keeps.{Keeps, Keeps-first, keeps_rules}
use modex_cloud.Model.Platform.{get_platform_by_id}
use modex_cloud.Model.Invariant.{IsValid}
use modex_cloud.Model.Invariant.Channels.{
  IsValid-same, IsValid-tick, mark_synced-Keeps, mark_failed-Keeps, mark_metadata_synced-Keeps,
  set_usage-Keeps, load_channel_for_sync-Keeps, get_channel_by_id-Keeps,
}
use modex_cloud.Sync.{
  publish_key, sync_with_key, sync_metadata_only, forward, sync_channel, pull_usage, refresh_usage,
}

create_channel-Keeps : (c : Client) (p : ChannelPayload) → Keeps IsValid (create_channel c p)
create_channel-Keeps c p = record {
  at = λ w v. IsValid-same w _ (create_channel-SameRows c p w).channels v;
}

update_channel-Keeps : (c : Client) (p : ChannelPayload) → Keeps IsValid (update_channel c p)
update_channel-Keeps c p = record {
  at = λ w v. IsValid-same w _ (update_channel-SameRows c p w).channels v;
}

get_channel_usage-Keeps : (c : Client) (remote : ℤ) → Keeps IsValid (get_channel_usage c remote)
get_channel_usage-Keeps c remote = record {
  at = λ w v. IsValid-same w _ (get_channel_usage-SameRows c remote w).channels v;
}

first_platform-Keeps :
    (f : World → Option Platform) (missing : Error) → Keeps IsValid (first f missing)
first_platform-Keeps f missing = Keeps-first IsValid-tick f missing

pub get_platform_by_id-Keeps : (id : ℤ) → Keeps IsValid (get_platform_by_id id)
unfolding get_platform_by_id
get_platform_by_id-Keeps id = search (keeps_rules, first_platform-Keeps)

ruleset worker_rules = (
  keeps_rules, create_channel-Keeps, update_channel-Keeps, mark_synced-Keeps, mark_failed-Keeps,
  mark_metadata_synced-Keeps, load_channel_for_sync-Keeps, get_platform_by_id-Keeps,
)

publish_key-Keeps :
    (c : Client) (ch : Channel) (p : ChannelPayload) → Keeps IsValid (publish_key c ch p)
unfolding publish_key
publish_key-Keeps c ch p = search worker_rules

sync_with_key-Keeps :
    (v : Vault) (c : Client) (ch : Channel) (p : ChannelPayload)
    → Keeps IsValid (sync_with_key v c ch p)
unfolding sync_with_key
sync_with_key-Keeps v c ch p = search (worker_rules, publish_key-Keeps)

sync_metadata_only-Keeps :
    (c : Client) (ch : Channel) (p : ChannelPayload) → Keeps IsValid (sync_metadata_only c ch p)
unfolding sync_metadata_only
sync_metadata_only-Keeps c ch p = search worker_rules

forward-Keeps : (v : Vault) (ch : Channel) (p : Platform) → Keeps IsValid (forward v ch p)
unfolding forward
forward-Keeps v ch p = search (worker_rules, sync_with_key-Keeps, sync_metadata_only-Keeps)

-- A run of the worker keeps the invariant, however it ends.
pub sync_channel-Keeps : (v : Vault) (id : ℤ) → Keeps IsValid (sync_channel v id)
unfolding sync_channel
sync_channel-Keeps v id = search (worker_rules, forward-Keeps)

pull_usage-Keeps : (v : Vault) (ch : Channel) (p : Platform) → Keeps IsValid (pull_usage v ch p)
unfolding pull_usage
pull_usage-Keeps v ch p = search (worker_rules, get_channel_usage-Keeps, set_usage-Keeps)

pub refresh_usage-Keeps : (v : Vault) (id : ℤ) → Keeps IsValid (refresh_usage v id)
unfolding refresh_usage
refresh_usage-Keeps v id = search (worker_rules, get_channel_by_id-Keeps, pull_usage-Keeps)
