-- ===== src/Sync/Destroy.antt =====
-- What a run of the worker does to the row of its channel.
use modex_cloud.Prelude.{
  ℕ, ◌≡◌, refl, sym, subst, ◌⊎◌, inl, inr, true, false, some, [], if◌then◌else◌, arith, Bool-cases,
  ◌==◌,
}
use modex_cloud.Prelude.Int.{ℤ, pos, int_eq}
use modex_cloud.Text.{Text, text}
use modex_cloud.Crypto.{Vault, open_blob}
use modex_cloud.Agt.{Client, new_client, ChannelPayload, create_channel, update_channel}
use modex_cloud.Constant.{synced}
use modex_cloud.Model.Schema.{Channel, Platform}
use modex_cloud.Model.World.{
  World, Result, ok, err, Error, database, error_text, wrap, tick, raise, >>=_of_ok, >>=_of_err,
  pure, ◌>>=◌, on_result,
}
use modex_cloud.Model.Channel.{
  load_channel_for_sync, selects, has_recoverable_key, as_synced, as_failed, mark_synced,
  mark_failed,
}
use modex_cloud.Model.Channel.Rows.{Row, SameRows, find-update}
use modex_cloud.Model.Platform.{get_platform_by_id}
use modex_cloud.Wire.{Reply}
use modex_cloud.Agt.Replies.{
  next_reply, is_success, created_id, Creates, create_channel-Creates, Updates,
  update_channel-Updates,
}
use modex_cloud.Agt.Frame.{create_channel-SameRows, update_channel-SameRows}
use modex_cloud.Sync.{
  fail_with, with_key, payload_of, publish_key, sync_with_key, sync_metadata_only, forward,
  sync_channel,
}

pub selects-as_synced :
    (id remote : ℤ) (now : ℕ) (r : Channel) → selects id (as_synced remote now r) ≡ selects id r
unfolding selects as_synced
selects-as_synced id remote now r = refl

pub selects-as_failed :
    (id : ℤ) (reason : Text) (now : ℕ) (r : Channel)
    → selects id (as_failed reason now r) ≡ selects id r
unfolding selects as_failed
selects-as_failed id reason now r = refl

-- How `MarkSynced` ends: its statement fails, or the row is wiped.
pub mark_synced_lem :
    (id : ℤ) (c : Channel) (remote : ℤ) (w : World)
    → Row id c w
    → (((mark_synced c remote w).0 ≡ err database) × Row id c (mark_synced c remote w).1)
      ⊎ (((mark_synced c remote w).0
            ≡ ok (record c {
              enc_key = [];
              key_state = synced;
              remote_id = remote;
              sync_status = pos 1;
            }))
          × Row id (as_synced remote w.clock c) (mark_synced c remote w).1)
unfolding mark_synced
mark_synced_lem id c remote w h =
    ground
      (arith, find-update id (as_synced remote w.clock) w c (selects-as_synced id remote w.clock) h)

pub mark_failed_lem :
    (id : ℤ) (c : Channel) (reason : Text) (w : World)
    → Row id c w
    → Row id c (mark_failed c reason w).1
      ⊎ Row id (as_failed reason w.clock c) (mark_failed c reason w).1
unfolding mark_failed
mark_failed_lem id c reason w h =
    ground
      (arith, find-update id (as_failed reason w.clock) w c (selects-as_failed id reason w.clock) h)

-- The id that a channel has at its platform, once the platform has said that it has taken it: the one
-- that the reply names, or the one that the channel has had before.
abbrev pub Takes : Channel → Reply → ℤ → Type 0
Takes ch reply remote =
    (((ch.remote_id == pos 0) ≡ true) × (created_id reply ≡ some remote))
    ⊎ (((ch.remote_id == pos 0) ≡ false) × (is_success reply ≡ true) × (remote ≡ ch.remote_id))

-- How a run of the worker ends for the row of its channel, given the row, the time at its start and
-- what is known of the remote id: on success the key is wiped, and on an error the row is as it was or
-- marked as failed.
abbrev pub Ends : {A : Type 0} → (ℤ → Type 0) → ℤ → Channel → ℕ → Result A × World → Type 0
Ends N id r t (ok _, w) = (remote : ℤ) × N remote × Row id (as_synced remote t r) w
Ends N id r t (err _, w) = Row id r w ⊎ ((reason : Text) × Row id (as_failed reason t r) w)

module _ (N : ℤ → Type 0) (id : ℤ) (ch : Channel) where
  fail_with-Ends :
      (reason : Text) (e : Error) (w : World)
      → Row id ch w
      → Ends N id ch w.clock (fail_with ch reason e w)
  fail_with-Ends reason e w h = elim (mark_failed_lem id ch reason w h) [
    | inl same ↦ inl same
    | inr marked ↦ inr (reason, marked)
  ]

  synced-Ends :
      (remote : ℤ) (w : World)
      → N remote
      → Row id ch w
      → Ends N id ch w.clock ((mark_synced ch remote >>= λ _. pure (tt {0})) w)
  unfolding mark_synced
  synced-Ends remote w n h = elim (mark_synced_lem id ch remote w h) [
    | inl (e, same) ↦ rw e (inl same)
    | inr (e, wiped) ↦ rw e (remote, n, wiped)
  ]

  created-Ends :
      (r : Result ℤ) (w : World)
      → ((remote : ℤ) → r ≡ ok remote → N remote)
      → Row id ch w
      → Ends N id ch w.clock (
          on_result r
            (λ e. fail_with ch (error_text e) e)
            (λ remote. mark_synced ch remote >>= λ _. pure (tt {0}))
            w)
  created-Ends (ok remote) w n h = synced-Ends remote w (n remote refl) h
  created-Ends (err e) w n h = fail_with-Ends (error_text e) e w h

  updated-Ends :
      (r : Result (Unit {0})) (w : World)
      → (r ≡ ok tt → N ch.remote_id)
      → Row id ch w
      → Ends N id ch w.clock (
          on_result r
            (λ e. fail_with ch (error_text e) e)
            (λ _. mark_synced ch ch.remote_id >>= λ _. pure (tt {0}))
            w)
  updated-Ends (ok _) w n h = synced-Ends ch.remote_id w (n refl) h
  updated-Ends (err e) w n h = fail_with-Ends (error_text e) e w h

pub publish_key-Ends :
    (id : ℤ) (ch : Channel) (client : Client) (payload : ChannelPayload) (w : World)
    → Row id ch w
    → Ends (Takes ch (next_reply w)) id ch w.clock (publish_key client ch payload w)
unfolding publish_key
publish_key-Ends id ch client payload w h =
    let s = create_channel-SameRows client payload w in
    let u = update_channel-SameRows client payload w in
    let c = create_channel client payload w in
    let d = update_channel client payload w in
    elim (Bool-cases (ch.remote_id == pos 0)) [
      | inl e ↦
          let named = λ (remote : ℤ) (q : c.0 ≡ ok remote).
            inl (e, subst (Creates w) q (create_channel-Creates client payload w)) in
          let created =
            created-Ends (Takes ch (next_reply w)) id ch c.0 c.1 named (rw s.channels h) in
          rw e (rw s.clock at created)
      | inr e ↦
          let taken = λ (q : d.0 ≡ ok tt).
            inr (e, subst (Updates w) q (update_channel-Updates client payload w), refl) in
          let updated =
            updated-Ends (Takes ch (next_reply w)) id ch d.0 d.1 taken (rw u.channels h) in
          rw e (rw u.clock at updated)
    ]

module _ (vault : Vault) (id : ℤ) (ch : Channel) (recoverable : has_recoverable_key ch ≡ true) where
  opened-Ends :
      (client : Client) (payload : ChannelPayload) (w : World) (r : Result Text)
      → Row id ch w
      → Ends (Takes ch (next_reply w)) id ch w.clock (
          on_result r
            (λ e.
              fail_with ch
                (text "sealed key could not be decrypted")
                (wrap (text "decrypt channel key") e))
            (λ key. publish_key client ch (with_key key payload))
            w)
  opened-Ends client payload w (ok key) h = publish_key-Ends id ch client (with_key key payload) w h
  opened-Ends client payload w (err e) h =
      fail_with-Ends (Takes ch (next_reply w)) id ch (text "sealed key could not be decrypted")
        (wrap (text "decrypt channel key") e) w h

  token-Ends :
      (platform : Platform) (w : World) (r : Result Text)
      → Row id ch w
      → Ends (Takes ch (next_reply w)) id ch w.clock (
          on_result r
            (λ e.
              fail_with ch
                (text "platform token could not be decrypted")
                (wrap (text "decrypt platform token") e))
            (λ token.
              let client = new_client platform.base_url token in
              if has_recoverable_key ch
              then sync_with_key vault client ch (payload_of ch)
              else sync_metadata_only client ch (payload_of ch))
            w)
  unfolding sync_with_key
  token-Ends platform w (ok token) h = rw recoverable (
      opened-Ends (new_client platform.base_url token) (payload_of ch) w
        (open_blob vault ch.enc_key) h)
  token-Ends platform w (err e) h =
      fail_with-Ends (Takes ch (next_reply w)) id ch (text "platform token could not be decrypted")
        (wrap (text "decrypt platform token") e) w h

  forward-Ends :
      (platform : Platform) (w : World)
      → Row id ch w
      → Ends (Takes ch (next_reply w)) id ch w.clock (forward vault ch platform w)
  unfolding forward
  forward-Ends platform w h = token-Ends platform w (open_blob vault platform.modex_token_enc) h

  loaded-Ends :
      (w : World) (r : Result Platform)
      → Row id ch w
      → Ends (Takes ch (next_reply w)) id ch w.clock (on_result r raise (forward vault ch) w)
  loaded-Ends w (ok platform) h = forward-Ends platform w h
  loaded-Ends w (err e) h = inl h

get_platform_by_id-SameRows : (id : ℤ) (w : World) → SameRows w (get_platform_by_id id w).1
unfolding get_platform_by_id
get_platform_by_id-SameRows id w = ground arith

get_platform_by_id-reply :
    (id : ℤ) (w : World) → next_reply (get_platform_by_id id w).1 ≡ next_reply w
unfolding get_platform_by_id
get_platform_by_id-reply id w = ground arith

load_lem :
    (id : ℤ) (r : Channel) (w : World)
    → Row id r w
    → (load_channel_for_sync id w ≡ (err database, tick w))
      ⊎ (load_channel_for_sync id w ≡ (ok r, tick w))
unfolding load_channel_for_sync
load_lem id r w h = ground arith

-- How a run ends, by the updates it makes.
pub sync_channel-Ends :
    (vault : Vault) (id : ℤ) (r : Channel) (w : World)
    → Row id r w
    → has_recoverable_key r ≡ true
    → Ends (Takes r (next_reply w)) id r w.clock (sync_channel vault id w)
unfolding sync_channel
sync_channel-Ends vault id r w h k =
    let run = λ (ch : Channel). get_platform_by_id ch.platform_id >>= λ p. forward vault ch p in
    elim (load_lem id r w h) [
      | inl e ↦
          subst (Ends (Takes r (next_reply w)) id r w.clock)
            (sym (>>=_of_err (load_channel_for_sync id) run w e)) (inl h)
      | inr e ↦
          let s = get_platform_by_id-SameRows r.platform_id (tick w) in
          let v = get_platform_by_id r.platform_id (tick w) in
          subst (Ends (Takes r (next_reply w)) id r w.clock)
            (sym (>>=_of_ok (load_channel_for_sync id) run w e))
            (subst (λ t. Ends (Takes r (next_reply w)) id r t (run r (tick w))) s.clock
              (subst (λ q. Ends (Takes r q) id r v.1.clock (run r (tick w)))
                (get_platform_by_id-reply r.platform_id (tick w))
                (loaded-Ends vault id r k v.1 v.0 (rw s.channels h))))
    ]
