-- ===== src/Sync/Usage.antt =====
-- The refresh of a channel's usage: `RefreshUsage` of service/sync/worker.go with the request that it
-- sends and the columns that it writes.
use modex_cloud.Prelude.{
  ◌≡◌, refl, sym, subst, inl, inr, Bool, false, Option, some, none, if◌then◌else◌, length, find,
  map_where, ◌∷◌, ◌++◌, ◌&&◌, ◌==◌, arith, Bool-cases,
}
use modex_cloud.Prelude.Int.{ℤ, pos, int_eq}
use modex_cloud.Text.{Text, text, itoa}
use modex_cloud.Wire.{HttpRequest, Reply, answer}
use modex_cloud.Crypto.{Vault, open_blob}
use modex_cloud.Agt.Frame.{get_channel_usage-SameRows}
use modex_cloud.Agt.{Client, new_client, round_trip, get_channel_usage}
use modex_cloud.Model.Schema.{Channel, Platform}
use modex_cloud.Model.Platform.{get_platform_by_id}
use modex_cloud.Model.World.{
  errorf, channel_not_found, platform_not_found, first, first-cases, tick, >>=_of_ok, >>=_of_err,
  World, Result, ok, err, pure, raise, ◌>>=◌, on_result,
}
use modex_cloud.Model.Channel.{selects, as_used, set_usage, get_channel_by_id, omit_key, is_live}
use modex_cloud.Model.Channel.Rows.{Row, Row-id, SameRows}
use modex_cloud.Sync.{pull_usage, refresh_loaded, refresh_usage}

-- The request that asks a platform for the usage of a channel.
abbrev pub usage_request : Client → ℤ → HttpRequest
usage_request c remote = record {
  method = text "GET";
  url = c.base_url ++ (text "/api/channel/" ++ itoa remote);
  authorization = text "Bearer " ++ c.token;
  content_type = none;
  body = none;
}

-- The usage that a platform's answer names.
abbrev pub usage_of : Reply → Option ℤ
usage_of (answer code (some reply)) = if reply.success then some reply.data_used_quota else none
usage_of _ = none

-- One request, whose answer is the result.
abbrev Asks : Client → ℤ → World → Result ℤ × World → Type 0
Asks c remote w (ok used, v) =
    (v.sent ≡ usage_request c remote ∷ w.sent) × (usage_of (w.http (length w.sent)) ≡ some used)
Asks c remote w (err e, v) = Unit

get_channel_usage-Asks :
    (c : Client) (remote : ℤ) (w : World) → Asks c remote w (get_channel_usage c remote w)
unfolding get_channel_usage round_trip
get_channel_usage-Asks c remote w = ground arith

-- The columns of the usage are written in the row of the channel, or nothing is.
abbrev Writes : Channel → ℤ → World → Result Channel × World → Type 0
Writes ch used w (ok _, v) =
    (v.sent ≡ w.sent)
    × (v.channels.rows ≡ map_where (selects ch.id) (as_used used w.clock) w.channels.rows)
Writes ch used w (err e, v) = v.channels ≡ w.channels

set_usage-Writes : (ch : Channel) (used : ℤ) (w : World) → Writes ch used w (set_usage ch used w)
unfolding set_usage
set_usage-Writes ch used w = ground arith

-- What a refresh of a loaded channel does: one request under the token, whose answer is stored, or
-- no change of the channels.
abbrev Pulls : Channel → Client → World → Result ℤ × World → Type 0
Pulls ch c w (ok used, v) =
    (v.sent ≡ usage_request c ch.remote_id ∷ w.sent)
    × (usage_of (w.http (length w.sent)) ≡ some used)
    × (v.channels.rows ≡ map_where (selects ch.id) (as_used used w.clock) w.channels.rows)
Pulls ch c w (err e, v) = v.channels ≡ w.channels

module _ (ch : Channel) (c : Client) (w : World) where
  stored-Pulls :
      (used : ℤ) (v : World)
      → SameRows w v
      → Asks c ch.remote_id w (ok used, v)
      → Pulls ch c w ((set_usage ch used >>= λ _. pure used) v)
  stored-Pulls used v s a = ground (arith, set_usage-Writes ch used v)

  answered-Pulls :
      (r : Result ℤ) (v : World)
      → SameRows w v
      → Asks c ch.remote_id w (r, v)
      → Pulls ch c w (on_result r raise (λ used. set_usage ch used >>= λ _. pure used) v)
  answered-Pulls (ok used) v s a = stored-Pulls used v s a
  answered-Pulls (err e) v s a = s.channels

pull_usage-Pulls :
    (vault : Vault) (ch : Channel) (platform : Platform) (token : Text) (w : World)
    → open_blob vault platform.modex_token_enc ≡ ok token
    → Pulls ch (new_client platform.base_url token) w (pull_usage vault ch platform w)
unfolding pull_usage
pull_usage-Pulls vault ch platform token w t =
    let c = new_client platform.base_url token in
    let r = get_channel_usage c ch.remote_id w in
    rw t (
      answered-Pulls ch c w r.0 r.1 (get_channel_usage-SameRows c ch.remote_id w)
        (get_channel_usage-Asks c ch.remote_id w))

-- A refresh that has succeeded.
pub record Refreshed (vault : Vault) (id : ℤ) (w : World) (used : ℤ) (v : World) : Type 0 where
  pub row : Channel
  pub platform : Platform
  pub token : Text
  pub live : Row id row w
  pub published : (row.remote_id == pos 0) ≡ false
  pub its : find (λ p. p.id == row.platform_id) w.platforms.rows ≡ some platform
  pub opened : open_blob vault platform.modex_token_enc ≡ ok token
  pub asked : v.sent ≡ usage_request (new_client platform.base_url token) row.remote_id ∷ w.sent
  pub answered : usage_of (w.http (length w.sent)) ≡ some used
  pub written :
      v.channels.rows
      ≡ map_where
          (λ c. is_live c && c.id == id)
          (λ c. record c { used_quota = used; usage_sync_time = w.clock })
          w.channels.rows

abbrev pub Refreshes : Vault → ℤ → World → Result ℤ × World → Type 0
Refreshes vault id w (ok used, v) = Refreshed vault id w used v
Refreshes vault id w (err e, v) = v.channels ≡ w.channels

module _ (vault : Vault) (id : ℤ) (w : World) (row : Channel) (live : Row id row w) where
  module _ (platform : Platform) (published : (row.remote_id == pos 0) ≡ false)
      (its : find (λ p. p.id == row.platform_id) w.platforms.rows ≡ some platform) where
    pulled-Refreshes :
        (token : Text) (r : Result ℤ) (v : World)
        → open_blob vault platform.modex_token_enc ≡ ok token
        → Pulls (omit_key row) (new_client platform.base_url token) (tick (tick w)) (r, v)
        → Refreshes vault id w (r, v)
    unfolding selects as_used
    pulled-Refreshes token (ok used) v t (asked, answered, written) = record {
      row = row;
      platform = platform;
      token = token;
      live = live;
      published = published;
      its = its;
      opened = t;
      asked = asked;
      answered = answered;
      written =
          subst
            (λ k. v.channels.rows ≡ map_where (selects k) (as_used used w.clock) w.channels.rows)
            (Row-id id row w live) written;
    }
    pulled-Refreshes token (err e) v t same = same

    pull_usage-Refreshes :
        (o : Result Text)
        → open_blob vault platform.modex_token_enc ≡ o
        → Refreshes vault id w (pull_usage vault (omit_key row) platform (tick (tick w)))
    unfolding pull_usage
    pull_usage-Refreshes (ok token) t =
        let x = pull_usage vault (omit_key row) platform (tick (tick w)) in
        pulled-Refreshes token x.0 x.1 t
          (pull_usage-Pulls vault (omit_key row) platform token (tick (tick w)) t)
    pull_usage-Refreshes (err e) t = rw t refl

  with_platform :
      (published : (row.remote_id == pos 0) ≡ false)
      → Refreshes vault id w
          ((get_platform_by_id row.platform_id >>= pull_usage vault (omit_key row)) (tick w))
  unfolding get_platform_by_id
  with_platform published =
      let read = λ (v : World). find (λ p. p.id == row.platform_id) v.platforms.rows in
      let m = first read platform_not_found in
      let P = Refreshes vault id w in
      let f = pull_usage vault (omit_key row) in
      elim (Bool-cases (row.platform_id == pos 0)) [
        | inl z ↦ rw z refl
        | inr z ↦ rw z (elim (first-cases read platform_not_found (tick w)) [
          | inl (e, h) ↦ subst P (sym (>>=_of_err m f (tick w) h)) refl
          | inr (platform, its, h) ↦ subst P (sym (>>=_of_ok m f (tick w) h)) (
              pull_usage-Refreshes platform published its (open_blob vault platform.modex_token_enc)
                refl)
        ])
      ]

-- A refresh of the usage, whatever fails: if it returns a usage, the id is that of a live channel
-- with a remote id, one request has been sent, which asks the channel's platform under its opened
-- token for that remote channel, the usage is the one of the reply, and of the channels only that
-- row has changed, in the usage and its time; if it fails, the channels are as they were.
pub refresh_usage-Refreshes :
    (vault : Vault) (id : ℤ) (w : World) → Refreshes vault id w (refresh_usage vault id w)
unfolding refresh_usage refresh_loaded get_channel_by_id
refresh_usage-Refreshes vault id w =
    elim (first-cases (λ v. find (selects id) v.channels.rows) channel_not_found w) [
      | inl (e, h) ↦ rw h refl
      | inr (row, live, h) ↦
          let P = λ (b : Bool). Refreshes vault id w (
            (if b
                then raise {A = ℤ} (
                    errorf
                      (text "channel " ++ (itoa row.id ++ text " has not been synced to AGT yet")))
                else refresh_loaded vault (omit_key row))
              (tick w)) in
          rw h (elim (Bool-cases (row.remote_id == pos 0)) [
            | inl z ↦ subst P (sym z) refl
            | inr z ↦ subst P (sym z) (with_platform vault id w row live z)
          ])
    ]
