-- ===== src/Controller/SupplierChannel.antt =====
-- controller/supplier_channel.go: what a supplier does with uploaded keys.
mod Steps
mod Views
pub mod Preserve
pub mod Isolation
pub mod Tenant
pub mod Stored
pub mod Published
pub mod Invariant
pub mod Runs
pub mod Names
pub mod Reads
pub mod Atomic
pub mod Tests
unfoldable pub use Steps.*
unfoldable pub use Views.*
use modex_cloud.Prelude.{
  ℕ, zero, suc, ◌+◌, Bool, true, false, ◌&&◌, not, Option, none, some, List, [], ◌∷◌, ◌++◌, find,
  take, leb, if◌then◌else◌, ◌==◌, text_eq,
}
use modex_cloud.Prelude.Int.{ℤ, pos, int_eq, ltb_ℤ, leb_ℤ}
use modex_cloud.Text.{Text, text, trim_space, split, join, itoa_ℕ}
use modex_cloud.Wire.{Json, null, bool, num, str, arr, obj, Items, nil, cons, end, field}
use modex_cloud.Constant.{
  KeyState, unset, pending, synced, failed, status_disabled, max_sync_retries,
}
use modex_cloud.Crypto.{Vault, Primitives, last4}
use modex_cloud.Model.Schema.{Channel, Platform, PlatformGroup, Grant, AuditLog}
use modex_cloud.Model.World.{
  World, Error, channel_not_found, errorf, error_text, Action, pure, raise, attempt, Result, ok,
  err,
}
use modex_cloud.Model.World
use modex_cloud.Model.Channel.{
  get_channel_for_user, count_channels_for_user_platform, fingerprint_exists_for_user,
  next_channel_seq, channel_name_exists, list_channels_for_user, update_metadata, replace_key,
  soft_delete_for_user,
}
use modex_cloud.Model.Channel
use modex_cloud.Model.Platform.{Codecs, get_platform_by_id, group_for_type, show_amount_for_group}
use modex_cloud.Model.Grant.{get_grant}
use modex_cloud.Model.Audit.{write_audit}
use modex_cloud.Validate.{
  Std, ChannelInput, Normalized, Checked, accepted, rejected, channel_upload, violation_text,
}
use modex_cloud.Sync.{refresh_usage}
use modex_cloud.Controller.Flow.{
  Response, Context, Flow, Handler, ◌>>=◌, ◌>>◌, serve, answer, refuse_if, require, or_reply,
  or_default, perform, proceed, api_success, api_error, path_id, Outcome, next, replied,
}

module _ (deps : Deps) where
  unfoldable pub check_upload : ChannelInput → Platform → Grant → Flow Normalized
  check_upload input platform grant w =
      elim (channel_upload deps.codecs deps.std input platform (some grant)) [
        | accepted res ↦ (next res, w)
        | rejected v ↦ (replied (api_error 400 (violation_text deps.std v)), w)
      ]

  -- The `MaxChannels` test, where a failed count reads as zero.
  count_limit : ℤ → ℤ → Grant → Flow (Unit {0})
  count_limit user platform grant = do
    count ← or_default (count_channels_for_user_platform user platform) 0
    refuse_if (leb_ℤ grant.max_channels (pos count))
        (api_error 403 (text "channel limit reached for this platform"))

  unfoldable pub check_limit : ℤ → ℤ → Grant → Flow (Unit {0})
  unfolding count_limit
  check_limit user platform grant =
      if ltb_ℤ (pos 0) grant.max_channels then count_limit user platform grant else proceed

  -- The rest of `CreateChannel`, for an upload that has been checked.
  unfoldable pub seal_and_store : Context → CreateChannelRequest → Text → Normalized → Flow Response
  seal_and_store c req name_prefix res = do
    sealed ←
        or_reply ((sealer deps).seal_string req.key)
          (λ _. api_error 500 (text "failed to secure key"))
    let fp = (sealer deps).fingerprint_string req.key
    dup ← or_default (fingerprint_exists_for_user c.user_id req.platform_id fp) false
    refuse_if dup (api_error 409 (text "this key has already been uploaded to this platform"))
    name ←
        or_reply (generate_channel_name c.user_id req.platform_id c.username name_prefix res.group)
          (λ _. api_error 500 (text "failed to generate channel name"))
    ch ←
        or_reply
          (Channel.create (record {
            id = pos 0;
            user_id = c.user_id;
            platform_id = req.platform_id;
            name = name;
            type = req.type;
            enc_key = sealed;
            key_fingerprint = fp;
            key_last4 = last4 req.key;
            key_state = pending;
            base_url = [];
            models = res.models_csv;
            group = res.group;
            used_quota = pos 0;
            usage_sync_time = 0;
            remote_id = pos 0;
            sync_status = pos 0;
            sync_error = [];
            sync_attempts = 0;
            last_sync_time = 0;
            status = pos 0;
            created_time = 0;
            updated_time = 0;
            deleted_at = none;
          }))
          (λ _. api_error 500 (text "failed to save channel"))
    perform (
        write_audit (record {
          id = pos 0;
          user_id = c.user_id;
          username = c.username;
          action = text "CREATE_CHANNEL";
          resource_type = text "channel";
          resource_id = ch.id;
          detail = text "fp=" ++ take 12 fp;
          ip = c.client_ip;
          result = text "success";
          created_time = 0;
        }))
    perform (dispatch_sync ch.id)
    answer (
        api_success (
          obj (
            field (text "id") (num ch.id) (
              field (text "key_state") (str (key_state_text ch.key_state))
                (field (text "sync_status") (num ch.sync_status) end)))))

  unfoldable pub create_channel : Context → Option CreateChannelRequest → Handler
  create_channel c body = serve (do
    req ← require body (api_error 400 (text "invalid request body"))
    refuse_if (trim_space req.key == []) (api_error 400 (text "key is required"))
    (platform, grant) ←
        or_reply (authorize_platform c.user_id req.platform_id) (λ e. api_error 403 (error_text e))
    bound ←
        require (group_for_type deps.codecs platform req.type)
          (api_error 400 (text "该渠道类型未配置对应分组，请联系管理员"))
    res ←
        check_upload
          (record {
            platform_id = req.platform_id;
            type = req.type;
            models = split req.models b',';
            group = bound.name;
            base_url = [];
          })
          platform grant
    check_limit c.user_id req.platform_id grant
    seal_and_store c req platform.name_prefix res)

  -- The group now bound to the channel's type, or the one it has.
  abbrev bound_name : Option PlatformGroup → Text → Text
  bound_name none group = group
  bound_name (some g) group = g.name

  seal_and_replace : Channel → Text → Flow (Unit {0})
  seal_and_replace ch key = do
    sealed ←
        or_reply ((sealer deps).seal_string key) (λ _. api_error 500 (text "failed to secure key"))
    rotated ←
        or_reply (replace_key ch sealed ((sealer deps).fingerprint_string key) (last4 key))
          (λ _. api_error 500 (text "failed to rotate key"))
    proceed

  -- The optional rotation of the key in `UpdateChannel`.
  unfoldable pub rotate_key : Channel → Text → Flow (Unit {0})
  unfolding seal_and_replace
  rotate_key ch key = if trim_space key == [] then proceed else seal_and_replace ch key

  unfoldable pub update_channel : Context → Option UpdateChannelRequest → Handler
  update_channel c body = serve (do
    id ← require (path_id c) (api_error 400 (text "invalid id"))
    ch ←
        or_reply (get_channel_for_user id c.user_id) (λ _. api_error 404 (text "channel not found"))
    req ← require body (api_error 400 (text "invalid request body"))
    (platform, grant) ←
        or_reply (authorize_platform c.user_id ch.platform_id) (λ e. api_error 403 (error_text e))
    let models = (if req.models == [] then ch.models else req.models)
    let group = bound_name (group_for_type deps.codecs platform ch.type) ch.group
    res ←
        check_upload
          (record {
            platform_id = ch.platform_id;
            type = ch.type;
            models = split models b',';
            group = group;
            base_url = [];
          })
          platform grant
    let edited = record ch { models = res.models_csv; group = res.group; base_url = [] }
    or_reply (update_metadata edited) (λ _. api_error 500 (text "failed to update channel"))
    rotate_key edited req.key
    perform (admin_audit_as c c.user_id (text "UPDATE_CHANNEL") (text "channel") ch.id)
    perform (dispatch_sync ch.id)
    answer (api_success (obj (field (text "id") (num ch.id) end))))

  unfoldable pub resync_channel : Context → Handler
  resync_channel c = serve (do
    id ← require (path_id c) (api_error 400 (text "invalid id"))
    ch ←
        or_reply (get_channel_for_user id c.user_id) (λ _. api_error 404 (text "channel not found"))
    refuse_if (leb max_sync_retries ch.sync_attempts)
        (api_error 429 (text "max retries reached; please re-upload the key"))
    perform (dispatch_sync ch.id)
    answer (api_success (obj (field (text "id") (num ch.id) end))))

  unfoldable pub refresh_channel_usage : Context → Handler
  refresh_channel_usage c = serve (do
    id ← require (path_id c) (api_error 400 (text "invalid id"))
    ch ←
        or_reply (get_channel_for_user id c.user_id) (λ _. api_error 404 (text "channel not found"))
    used ←
        or_reply (refresh_usage deps.vault ch.id)
          (λ e. api_error 502 (text "failed to refresh usage: " ++ error_text e))
    answer (
        api_success
          (obj (field (text "id") (num ch.id) (field (text "used_quota") (num used) end)))))

  -- The response of `ListChannels`, over the offset and the limit of `pageParams`.
  unfoldable pub list_channels : Context → ℤ → ℕ → ℕ → Handler
  list_channels c platform offset limit = serve (do
    (channels, total) ←
        or_reply (list_channels_for_user c.user_id platform offset limit)
          (λ _. api_error 500 (text "failed to list channels"))
    views ←
        or_reply (channel_views deps [] channels)
          (λ _. api_error 500 (text "failed to list channels"))
    answer (
        api_success
          (obj (field (text "items") (arr views) (field (text "total") (num (pos total)) end)))))

-- The status by the error of `SoftDeleteForUser`.
abbrev pub delete_error : Error → Response
delete_error channel_not_found = api_error 404 (text "channel not found")
delete_error _ = api_error 500 (text "failed to delete channel")

unfoldable pub delete_channel : Context → Handler
delete_channel c = serve (do
  id ← require (path_id c) (api_error 400 (text "invalid id"))
  or_reply (soft_delete_for_user id c.user_id) delete_error
  perform (admin_audit_as c c.user_id (text "DELETE_CHANNEL") (text "channel") id)
  answer (api_success null))
