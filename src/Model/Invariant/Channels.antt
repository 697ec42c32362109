-- ===== src/Model/Invariant/Channels.antt =====
-- Every statement of model/channel.go keeps the invariant.
use modex_cloud.Prelude.{
  ◌≡◌, refl, Bool, arith, Option, [], map_where, count, if◌then◌else◌, ◌==◌, nat_eq,
}
use modex_cloud.Prelude.Int.{ℤ, pos, int_eq}
use modex_cloud.Text.{Text}
use modex_cloud.Constant.{synced, pending, is_unset, status_enabled}
use modex_cloud.Model.Schema.{Channel}
use modex_cloud.Model.World.{
  World, exec, exec_affecting, raise, channel_not_found, first, tick, pure, Error,
}
use modex_cloud.Model.World.Keeps.{
  Keeps, Keeps-exec, Keeps-exec_affecting, Keeps-first, Keeps->>=, Keeps-pure, Keeps-raise,
  Keeps-if, exec_at, then-pure, keeps_rules,
}
use modex_cloud.Model.Channel.{
  create, update_row, on_channels, insert_channel, mark_synced, mark_failed, mark_metadata_synced,
  update_metadata, replace_key, soft_delete_for_user, set_usage, get_channel_by_id,
  get_channel_for_user, load_channel_for_sync, selects, as_synced, as_failed, as_metadata_synced,
  as_edited, as_rekeyed, as_deleted, as_used, owned,
}
use modex_cloud.Model.Channel.Rows.{SameRows}
use modex_cloud.Model.Invariant.{IsWiped, IsValid, IsSound-map_where, IsSound-append}

-- The invariant looks at the table of channels alone.
pub IsValid-same : (v w : World) → w.channels ≡ v.channels → IsValid v → IsValid w
IsValid-same v w e h = record { channels = rw e h.channels }

pub IsValid-rows : (v w : World) → SameRows v w → IsValid v → IsValid w
IsValid-rows v w e h = IsValid-same v w e.channels h

pub IsValid-tick : (w : World) → IsValid w → IsValid (tick w)
IsValid-tick w h = record { channels = h.channels }

pub IsValid-map_where :
    (p : Channel → Bool) (f : Channel → Channel)
    → ((r : Channel) → (f r).id ≡ r.id)
    → ((r : Channel) → IsWiped r → IsWiped (f r))
    → (w : World) → IsValid w
    → IsValid (on_channels (map_where p f) w)
IsValid-map_where p f same keep w v = record {
  channels = IsSound-map_where p f same w.channels keep v.channels;
}

update_row-Keeps :
    (c : Channel) (f : Channel → Channel)
    → ((r : Channel) → (f r).id ≡ r.id)
    → ((r : Channel) → IsWiped r → IsWiped (f r))
    → Keeps IsValid (update_row c f)
update_row-Keeps c f same keep =
    Keeps-exec IsValid-tick (on_channels (map_where (selects c.id) f))
      (IsValid-map_where (selects c.id) f same keep)

pub mark_synced-Keeps : (c : Channel) (remote : ℤ) → Keeps IsValid (mark_synced c remote)
unfolding mark_synced as_synced
mark_synced-Keeps c remote = record {
  at = λ w v.
      (Keeps->>= (update_row c (as_synced remote w.clock))
          (λ _. pure (record c {
            enc_key = [];
            key_state = synced;
            remote_id = remote;
            sync_status = pos 1;
          }))
          (update_row-Keeps c (as_synced remote w.clock) (λ r. refl) (λ r h k. refl))
          (λ _. Keeps-pure _)).at
        w v;
}

pub mark_failed-Keeps : (c : Channel) (reason : Text) → Keeps IsValid (mark_failed c reason)
unfolding mark_failed as_failed
mark_failed-Keeps c reason = record {
  at = λ w v.
      (update_row-Keeps c (as_failed reason w.clock) (λ r. refl) (λ r h k. ground arith)).at w v;
}

pub mark_metadata_synced-Keeps : (c : Channel) → Keeps IsValid (mark_metadata_synced c)
unfolding mark_metadata_synced as_metadata_synced
mark_metadata_synced-Keeps c = record {
  at = λ w v.
      (Keeps->>= (update_row c (as_metadata_synced w.clock))
          (λ _. pure (record c { sync_status = pos 1 }))
          (update_row-Keeps c (as_metadata_synced w.clock) (λ r. refl) (λ r h. h))
          (λ _. Keeps-pure _)).at
        w v;
}

pub update_metadata-Keeps : (c : Channel) → Keeps IsValid (update_metadata c)
unfolding update_metadata as_edited
update_metadata-Keeps c = record {
  at = λ w v. (update_row-Keeps c (as_edited c w.clock) (λ r. refl) (λ r h. h)).at w v;
}

pub replace_key-Keeps :
    (c : Channel) (sealed fingerprint last4 : Text)
    → Keeps IsValid (replace_key c sealed fingerprint last4)
unfolding replace_key as_rekeyed
replace_key-Keeps c sealed fingerprint last4 = record {
  at = λ w v.
      (Keeps->>= (update_row c (as_rekeyed sealed fingerprint last4 w.clock))
          (λ _. pure (record c { enc_key = sealed; key_state = pending }))
          (update_row-Keeps c (as_rekeyed sealed fingerprint last4 w.clock) (λ r. refl)
            (λ r h k. ground arith))
          (λ _. Keeps-pure _)).at
        w v;
}

pub set_usage-Keeps : (c : Channel) (used : ℤ) → Keeps IsValid (set_usage c used)
unfolding set_usage as_used
set_usage-Keeps c used = record {
  at = λ w v.
      (Keeps->>= (update_row c (as_used used w.clock)) (λ _. pure (as_used used w.clock c))
          (update_row-Keeps c (as_used used w.clock) (λ r. refl) (λ r h. h)) (λ _. Keeps-pure _)).at
        w v;
}

pub soft_delete_for_user-Keeps : (id user : ℤ) → Keeps IsValid (soft_delete_for_user id user)
unfolding soft_delete_for_user as_deleted
soft_delete_for_user-Keeps id user = record {
  at = λ w v.
      (Keeps->>=
          (exec_affecting (λ u. count (owned id user) u.channels.rows)
            (on_channels (map_where (owned id user) (as_deleted w.clock))))
          (λ affected. if affected == 0 then raise channel_not_found else pure tt)
          (Keeps-exec_affecting IsValid-tick
            (on_channels (map_where (owned id user) (as_deleted w.clock)))
            (IsValid-map_where (owned id user) (as_deleted w.clock) (λ r. refl) (λ r h. h))
            (λ u. count (owned id user) u.channels.rows))
          (λ affected.
            Keeps-if (affected == 0) (raise channel_not_found) (pure tt) (Keeps-raise _)
              (Keeps-pure _))).at
        w v;
}

-- A channel whose key is not recorded as synced may be stored.
pub create-Keeps : (c : Channel) → IsWiped c → Keeps IsValid (create c)
unfolding create
create-Keeps c k = record {
  at = λ w v.
      let row = record c {
        id = pos w.channels.next;
        created_time = w.clock;
        updated_time = w.clock;
        key_state = if is_unset c.key_state then pending else c.key_state;
        status = if c.status == pos 0 then status_enabled else c.status;
      } in
      let keyed : IsWiped row = ground arith in
      rw (then-pure (exec (insert_channel row)) row w) (
        exec_at IsValid (insert_channel row) w (IsValid-tick w v)
          (record { channels = IsSound-append w.channels row refl keyed v.channels }));
}

pub first_channel-Keeps :
    (f : World → Option Channel) (missing : Error) → Keeps IsValid (first f missing)
first_channel-Keeps f missing = Keeps-first IsValid-tick f missing

pub load_channel_for_sync-Keeps : (id : ℤ) → Keeps IsValid (load_channel_for_sync id)
unfolding load_channel_for_sync
load_channel_for_sync-Keeps id = search (keeps_rules, first_channel-Keeps)

pub get_channel_by_id-Keeps : (id : ℤ) → Keeps IsValid (get_channel_by_id id)
unfolding get_channel_by_id
get_channel_by_id-Keeps id = search (keeps_rules, first_channel-Keeps)

pub get_channel_for_user-Keeps : (id user : ℤ) → Keeps IsValid (get_channel_for_user id user)
unfolding get_channel_for_user
get_channel_for_user-Keeps id user = search (keeps_rules, first_channel-Keeps)
