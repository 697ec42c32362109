-- ===== src/Sync/Wipe.antt =====
-- What a run of the worker leaves of the row of its channel, field by field.
use modex_cloud.Prelude.{ℕ, ◌+◌, ◌≡◌, refl, ◌⊎◌, inl, inr, true, [], arith}
use modex_cloud.Prelude.Int.{ℤ, pos}
use modex_cloud.Text.{Text}
use modex_cloud.Crypto.{Vault}
use modex_cloud.Constant.{synced, failed}
use modex_cloud.Model.Schema.{Channel}
use modex_cloud.Model.World.{World, Result, ok, err}
use modex_cloud.Model.Channel.{has_recoverable_key, as_synced, as_failed}
use modex_cloud.Model.Channel.Rows.{Row}
use modex_cloud.Sync.{sync_channel}
use modex_cloud.Wire.{Reply}
use modex_cloud.Agt.Replies.{next_reply}
use modex_cloud.Sync.Destroy.{Takes, Ends, sync_channel-Ends}

-- The fields that no run of the worker touches: all but the sealed key, the remote id and what is
-- recorded of the run.
pub record SameUpload (r s : Channel) : Type 0 where
  pub id : s.id ≡ r.id
  pub user_id : s.user_id ≡ r.user_id
  pub platform_id : s.platform_id ≡ r.platform_id
  pub name : s.name ≡ r.name
  pub type : s.type ≡ r.type
  pub base_url : s.base_url ≡ r.base_url
  pub models : s.models ≡ r.models
  pub group : s.group ≡ r.group
  pub key_fingerprint : s.key_fingerprint ≡ r.key_fingerprint
  pub key_last4 : s.key_last4 ≡ r.key_last4
  pub used_quota : s.used_quota ≡ r.used_quota
  pub usage_sync_time : s.usage_sync_time ≡ r.usage_sync_time
  pub status : s.status ≡ r.status
  pub created_time : s.created_time ≡ r.created_time
  pub deleted_at : s.deleted_at ≡ r.deleted_at

-- The row `s` of a channel that was `r`, once its platform has taken the key at a time. The platform
-- has said so in its reply, and the remote id is the one that the reply names, or the one from before.
pub record IsHandedOver (reply : Reply) (t : ℕ) (r s : Channel) : Type 0 where
  pub wiped : s.enc_key ≡ []
  pub state : s.key_state ≡ synced
  pub remote_id : Takes r reply s.remote_id
  pub sync_status : s.sync_status ≡ pos 1
  pub sync_error : s.sync_error ≡ []
  pub attempts : s.sync_attempts ≡ r.sync_attempts
  pub last_sync_time : s.last_sync_time ≡ t
  pub updated_time : s.updated_time ≡ t
  pub others : SameUpload r s

-- The row after an attempt that failed: the key is kept for the next one, and the attempt counts.
pub record IsKeptForRetry (t : ℕ) (r s : Channel) : Type 0 where
  pub kept : s.enc_key ≡ r.enc_key
  pub state : s.key_state ≡ failed
  pub remote_id : s.remote_id ≡ r.remote_id
  pub sync_status : s.sync_status ≡ pos 2
  pub attempts : s.sync_attempts ≡ r.sync_attempts + 1
  pub last_sync_time : s.last_sync_time ≡ t
  pub updated_time : s.updated_time ≡ t
  pub others : SameUpload r s

-- What a run that has begun in a world leaves of the row.
abbrev pub Leaves : {A : Type 0} → ℤ → Channel → World → Result A × World → Type 0
Leaves id r w (ok _, v) = (s : Channel) × Row id s v × IsHandedOver (next_reply w) w.clock r s
Leaves id r w (err _, v) = Row id r v ⊎ ((s : Channel) × Row id s v × IsKeptForRetry w.clock r s)

as_synced-SameUpload : (remote : ℤ) (t : ℕ) (r : Channel) → SameUpload r (as_synced remote t r)
unfolding as_synced
as_synced-SameUpload remote t r = ground arith

as_synced-IsHandedOver :
    (reply : Reply) (remote : ℤ) (t : ℕ) (r : Channel)
    → Takes r reply remote
    → IsHandedOver reply t r (as_synced remote t r)
unfolding as_synced
as_synced-IsHandedOver reply remote t r taken = record {
  wiped = refl;
  state = refl;
  remote_id = taken;
  sync_status = refl;
  sync_error = refl;
  attempts = refl;
  last_sync_time = refl;
  updated_time = refl;
  others = as_synced-SameUpload remote t r;
}

as_failed-SameUpload : (reason : Text) (t : ℕ) (r : Channel) → SameUpload r (as_failed reason t r)
unfolding as_failed
as_failed-SameUpload reason t r = ground arith

as_failed-IsKeptForRetry :
    (reason : Text) (t : ℕ) (r : Channel) → IsKeptForRetry t r (as_failed reason t r)
unfolding as_failed
as_failed-IsKeptForRetry reason t r = record {
  kept = refl;
  state = refl;
  remote_id = refl;
  sync_status = refl;
  attempts = refl;
  last_sync_time = refl;
  updated_time = refl;
  others = as_failed-SameUpload reason t r;
}

Ends-Leaves :
    {A : Type 0} (id : ℤ) (r : Channel) (w : World) (o : Result A × World)
    → Ends (Takes r (next_reply w)) id r w.clock o
    → Leaves id r w o
Ends-Leaves id r w (ok _, v) (remote, taken, h) =
    (as_synced remote w.clock r, h, as_synced-IsHandedOver (next_reply w) remote w.clock r taken)
Ends-Leaves id r w (err _, v) (inl h) = inl h
Ends-Leaves id r w (err _, v) (inr (reason, h)) =
    inr (as_failed reason w.clock r, h, as_failed-IsKeptForRetry reason w.clock r)

-- A run of the worker on a live channel whose sealed key is still there. If it succeeds, the
-- platform has replied with success, and the row has lost the key, is recorded as synced at the
-- time of the run, and has the remote id that the reply names if it had none. If it fails, the row
-- is as it was, or it has kept the key and the remote id, is recorded as failed at that time, with
-- some error text, and counts one attempt more. All other columns are as they were either way.
pub sync_channel-Leaves :
    (vault : Vault) (id : ℤ) (r : Channel) (w : World)
    → Row id r w
    → has_recoverable_key r ≡ true
    → Leaves id r w (sync_channel vault id w)
sync_channel-Leaves vault id r w h k =
    Ends-Leaves id r w (sync_channel vault id w) (sync_channel-Ends vault id r w h k)
