-- ===== src/Model/Channel.antt =====
-- model/channel.go: what is stored about an uploaded key, and every statement on it. gorm adds
-- "not soft-deleted" to each statement but the two that are `Unscoped`.
pub mod Rows
pub mod Reads
pub mod Delete
use modex_cloud.Prelude.{
  ℕ, ◌+◌, Bool, true, false, ◌&&◌, not, none, some, List, [], ◌∷◌, ◌++◌, map, reverse, take, drop,
  find, filter, count, map_where, if◌then◌else◌, ◌==◌, nat_eq, text_eq, ltb,
}
use modex_cloud.Prelude.Int.{ℤ, pos, int_eq, ltb_ℤ}
use modex_cloud.Text.{Text}
use modex_cloud.Constant.{pending, synced, failed, is_unset, is_synced, status_enabled}
use modex_cloud.Model.Schema.{Channel}
use modex_cloud.Model.World.{
  World, channel_not_found, Action, pure, raise, ◌>>=◌, ◌>>◌, query, exec, exec_affecting, first,
  now_unix,
}

abbrev pub is_live : Channel → Bool
is_live c = elim c.deleted_at [ none ↦ true | some _ ↦ false ]

unfoldable pub has_recoverable_key : Channel → Bool
has_recoverable_key c = not (c.enc_key == []) && not (is_synced c.key_state)

abbrev pub on_channels : (List Channel → List Channel) → World → World
on_channels f w = record w {
  channels = record { rows = f w.channels.rows; next = w.channels.next };
}

-- `DB.Model(c).Updates(…)`
unfoldable pub selects : ℤ → Channel → Bool
selects id r = is_live r && r.id == id

abbrev pub update_row : Channel → (Channel → Channel) → Action (Unit {0})
update_row c f = exec (on_channels (map_where (selects c.id) f))

-- `Omit("enc_key")`
abbrev pub omit_key : Channel → Channel
omit_key c = record c { enc_key = [] }

abbrev pub insert_channel : Channel → World → World
insert_channel c w = record w {
  channels = record { rows = w.channels.rows ++ c ∷ []; next = w.channels.next + 1 };
}

unfoldable pub create : Channel → Action Channel
create c w =
    let row = record c {
      id = pos w.channels.next;
      created_time = w.clock;
      updated_time = w.clock;
      key_state = if is_unset c.key_state then pending else c.key_state;
      status = if c.status == pos 0 then status_enabled else c.status;
    } in
    (exec (insert_channel row) >> pure row) w

-- The update of `MarkSynced`, which empties the sealed key.
unfoldable pub as_synced : ℤ → ℕ → Channel → Channel
as_synced remote now r = record r {
  enc_key = [];
  key_state = synced;
  remote_id = remote;
  sync_status = pos 1;
  sync_error = [];
  last_sync_time = now;
  updated_time = now;
}

unfoldable pub mark_synced : Channel → ℤ → Action Channel
mark_synced c remote = do
  now ← now_unix
  update_row c (as_synced remote now)
  pure (record c { enc_key = []; key_state = synced; remote_id = remote; sync_status = pos 1 })

-- The update of `MarkFailed`, which keeps the sealed key.
unfoldable pub as_failed : Text → ℕ → Channel → Channel
as_failed reason now r = record r {
  key_state = failed;
  sync_status = pos 2;
  sync_error = reason;
  sync_attempts = r.sync_attempts + 1;
  last_sync_time = now;
  updated_time = now;
}

unfoldable pub mark_failed : Channel → Text → Action (Unit {0})
mark_failed c reason = do now ← now_unix; update_row c (as_failed reason now)

unfoldable pub get_channel_by_id : ℤ → Action Channel
get_channel_by_id id = do
  c ← first (λ w. find (selects id) w.channels.rows) channel_not_found
  pure (omit_key c)

unfoldable pub owned : ℤ → ℤ → Channel → Bool
owned id user r = selects id r && r.user_id == user

unfoldable pub get_channel_for_user : ℤ → ℤ → Action Channel
get_channel_for_user id user = do
  c ← first (λ w. find (owned id user) w.channels.rows) channel_not_found
  pure (omit_key c)

unfoldable pub listed : ℤ → ℤ → Channel → Bool
listed user platform r =
    is_live r
    && r.user_id == user
    && (if ltb_ℤ (pos 0) platform then r.platform_id == platform else true)

unfoldable pub list_channels_for_user : ℤ → ℤ → ℕ → ℕ → Action (List Channel × ℕ)
list_channels_for_user user platform offset limit = do
  total ← query (λ w. count (listed user platform) w.channels.rows)
  cs ←
      query
        (λ w. take limit (drop offset (reverse (filter (listed user platform) w.channels.rows))))
  pure (map omit_key cs, total)

unfoldable pub has_fingerprint : ℤ → ℤ → Text → Channel → Bool
has_fingerprint user platform fingerprint r =
    is_live r && r.user_id == user && r.platform_id == platform && r.key_fingerprint == fingerprint

unfoldable pub fingerprint_exists_for_user : ℤ → ℤ → Text → Action Bool
fingerprint_exists_for_user user platform fingerprint = do
  n ← query (λ w. count (has_fingerprint user platform fingerprint) w.channels.rows)
  pure (ltb 0 n)

unfoldable pub on_platform : ℤ → ℤ → Channel → Bool
on_platform user platform r = is_live r && r.user_id == user && r.platform_id == platform

unfoldable pub count_channels_for_user_platform : ℤ → ℤ → Action ℕ
count_channels_for_user_platform user platform =
    query (λ w. count (on_platform user platform) w.channels.rows)

-- The only read that hands out the sealed key.
unfoldable pub load_channel_for_sync : ℤ → Action Channel
load_channel_for_sync id = first (λ w. find (selects id) w.channels.rows) channel_not_found

unfoldable pub as_metadata_synced : ℕ → Channel → Channel
as_metadata_synced now r = record r {
  sync_status = pos 1;
  sync_error = [];
  last_sync_time = now;
  updated_time = now;
}

unfoldable pub mark_metadata_synced : Channel → Action Channel
mark_metadata_synced c = do
  now ← now_unix
  update_row c (as_metadata_synced now)
  pure (record c { sync_status = pos 1 })

unfoldable pub as_edited : Channel → ℕ → Channel → Channel
as_edited c now r = record r {
  name = c.name;
  base_url = c.base_url;
  models = c.models;
  group = c.group;
  sync_status = pos 0;
  updated_time = now;
}

unfoldable pub update_metadata : Channel → Action (Unit {0})
update_metadata c = do now ← now_unix; update_row c (as_edited c now)

unfoldable pub as_rekeyed : Text → Text → Text → ℕ → Channel → Channel
as_rekeyed sealed fingerprint last4 now r = record r {
  enc_key = sealed;
  key_fingerprint = fingerprint;
  key_last4 = last4;
  key_state = pending;
  sync_status = pos 0;
  sync_attempts = 0;
  updated_time = now;
}

unfoldable pub replace_key : Channel → Text → Text → Text → Action Channel
replace_key c sealed fingerprint last4 = do
  now ← now_unix
  update_row c (as_rekeyed sealed fingerprint last4 now)
  pure (record c { enc_key = sealed; key_state = pending })

unfoldable pub as_deleted : ℕ → Channel → Channel
as_deleted now r = record r { deleted_at = some now }

unfoldable pub soft_delete_for_user : ℤ → ℤ → Action (Unit {0})
soft_delete_for_user id user = do
  now ← now_unix
  affected ←
      exec_affecting (λ w. count (owned id user) w.channels.rows)
        (on_channels (map_where (owned id user) (as_deleted now)))
  if affected == 0 then raise channel_not_found else pure tt

unfoldable pub as_used : ℤ → ℕ → Channel → Channel
as_used used now r = record r { used_quota = used; usage_sync_time = now }

unfoldable pub set_usage : Channel → ℤ → Action Channel
set_usage c used = do now ← now_unix; update_row c (as_used used now); pure (as_used used now c)

-- `Unscoped`: soft-deleted rows count too.
unfoldable pub of_pair : ℤ → ℤ → Channel → Bool
of_pair user platform r = r.user_id == user && r.platform_id == platform

unfoldable pub next_channel_seq : ℤ → ℤ → Action ℕ
next_channel_seq user platform = do
  n ← query (λ w. count (of_pair user platform) w.channels.rows)
  pure (n + 1)

unfoldable pub has_name : ℤ → ℤ → Text → Channel → Bool
has_name user platform name r = of_pair user platform r && r.name == name

unfoldable pub channel_name_exists : ℤ → ℤ → Text → Action Bool
channel_name_exists user platform name = do
  n ← query (λ w. count (has_name user platform name) w.channels.rows)
  pure (ltb 0 n)
