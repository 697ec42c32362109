-- ===== src/Sync/Tests.antt =====
-- The theorems on the worker at a channel whose key has not been sent.
use modex_cloud.Constant.{pending, synced}
use modex_cloud.Prelude.{◌≡◌, refl, true, ◌∷◌, [], some}
use modex_cloud.Prelude.Int.{pos}
use modex_cloud.Model.World.{World, ok}
use modex_cloud.Model.Channel.{
  selects, has_recoverable_key, replace_key, mark_synced, as_synced, as_rekeyed,
}
use modex_cloud.Model.Channel.Rows.{Row}
use modex_cloud.Sync.{sync_channel, refresh_usage}
use modex_cloud.Sync.Usage.{Refreshes, refresh_usage-Refreshes}
use modex_cloud.Sync.Wipe.{Leaves, sync_channel-Leaves}
use modex_cloud.Sync.Rotation.{mark_synced-replace_key}
use modex_cloud.Examples.{toy_vault, fresh_channel, server}

found : Row (pos 1) fresh_channel server
unfolding selects modex_cloud.Prelude.Int.int_beq
found = refl

key_kept : has_recoverable_key fresh_channel ≡ true
unfolding has_recoverable_key modex_cloud.Prelude.text_beq
key_kept = refl

sync_channel-Leaves_example :
    Leaves (pos 1) fresh_channel server (sync_channel toy_vault (pos 1) server)
sync_channel-Leaves_example =
    sync_channel-Leaves toy_vault (pos 1) fresh_channel server found key_kept

abbrev rotated : World
rotated = (replace_key fresh_channel (1 ∷ []) [] [] server).1

rotation :
    replace_key fresh_channel (1 ∷ []) [] [] server
    ≡ (ok (record fresh_channel { enc_key = 1 ∷ []; key_state = pending }), rotated)
unfolding replace_key
rotation = refl

abbrev recorded : World
recorded = (mark_synced fresh_channel (pos 9) rotated).1

record_run : mark_synced fresh_channel (pos 9) rotated ≡ (
  ok (record fresh_channel {
    enc_key = [];
    key_state = synced;
    remote_id = pos 9;
    sync_status = pos 1;
  }),
  recorded,
)
unfolding mark_synced replace_key
record_run = refl

mark_synced-replace_key_example :
    Row
      (pos 1)
      (as_synced (pos 9) rotated.clock (as_rekeyed (1 ∷ []) [] [] 100 fresh_channel))
      recorded
    × ((as_synced (pos 9) rotated.clock (as_rekeyed (1 ∷ []) [] [] 100 fresh_channel)).enc_key ≡ [])
    × (recorded.sent ≡ [])
mark_synced-replace_key_example =
    mark_synced-replace_key (pos 1) fresh_channel
      (record fresh_channel { enc_key = 1 ∷ []; key_state = pending })
      (record fresh_channel {
        enc_key = [];
        key_state = synced;
        remote_id = pos 9;
        sync_status = pos 1;
      })
      (1 ∷ []) [] [] (pos 9) server rotated recorded found rotation record_run

-- The channel once it has been published.
abbrev published : World
published = record server {
  channels = record { rows = record fresh_channel { remote_id = pos 9 } ∷ []; next = 2 };
}

refreshed : (refresh_usage toy_vault (pos 1) published).0 ≡ ok (pos 0)
unfolding refresh_usage modex_cloud.Sync.pull_usage modex_cloud.Model.Channel.get_channel_by_id
    selects modex_cloud.Model.Platform.get_platform_by_id modex_cloud.Prelude.Int.int_beq
    modex_cloud.Crypto.open_blob modex_cloud.Agt.get_channel_usage modex_cloud.Agt.round_trip
    modex_cloud.Model.Channel.set_usage
refreshed = refl

refresh_usage-Refreshes_example :
    Refreshes toy_vault (pos 1) published (refresh_usage toy_vault (pos 1) published)
refresh_usage-Refreshes_example = refresh_usage-Refreshes toy_vault (pos 1) published
