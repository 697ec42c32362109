-- ===== src/Sync/Sends.antt =====
-- What a run of the worker sends: one request, with the key in its body and the platform's token in
-- its header.
use modex_cloud.Prelude.{
  ◌≡◌, refl, ◌⊎◌, inl, inr, true, false, some, List, ◌∷◌, ◌++◌, if◌then◌else◌, arith, ◌==◌,
  Bool-cases,
}
use modex_cloud.Prelude.Int.{ℤ, pos, int_eq}
use modex_cloud.Text.{Text, text}
use modex_cloud.Wire.{HttpRequest}
use modex_cloud.Crypto.{Vault, open_blob}
use modex_cloud.Agt.{
  Client, new_client, ChannelPayload, payload_json, envelope_json, do_request, round_trip,
  create_channel, update_channel,
}
use modex_cloud.Model.Schema.{Channel, Platform}
use modex_cloud.Model.World.{World, Result, ok, err, Error, error_text, pure, ◌>>=◌, on_result}
use modex_cloud.Model.Channel.{has_recoverable_key, mark_synced, mark_failed}
use modex_cloud.Sync.{fail_with, with_key, payload_of, publish_key, sync_with_key, forward}

-- Exactly one request if the run succeeds, and no other request if it fails.
abbrev pub Sends : {A : Type 0} → HttpRequest → List HttpRequest → Result A × World → Type 0
Sends q log (ok _, w) = w.sent ≡ q ∷ log
Sends q log (err _, w) = (w.sent ≡ log) ⊎ (w.sent ≡ q ∷ log)

-- The request that hands a channel over: a creation, or an update of the remote channel.
unfoldable pub request_for : Client → ChannelPayload → HttpRequest
request_for c p =
    if p.id == pos 0
    then record {
      method = text "POST";
      url = c.base_url ++ text "/api/channel/";
      authorization = text "Bearer " ++ c.token;
      content_type = some (text "application/json");
      body = some (envelope_json p);
    }
    else record {
      method = text "PUT";
      url = c.base_url ++ text "/api/channel/";
      authorization = text "Bearer " ++ c.token;
      content_type = some (text "application/json");
      body = some (payload_json p);
    }

module _ (c : Client) (p : ChannelPayload) (w : World) where
  create_channel-Sends :
      (p.id == pos 0) ≡ true → Sends (request_for c p) w.sent (create_channel c p w)
  unfolding create_channel request_for do_request round_trip
  create_channel-Sends e = ground arith

  update_channel-Sends :
      (p.id == pos 0) ≡ false → Sends (request_for c p) w.sent (update_channel c p w)
  unfolding update_channel request_for do_request round_trip
  update_channel-Sends e = ground arith

mark_synced-sent :
    (ch : Channel) (remote : ℤ) (w : World) → (mark_synced ch remote w).1.sent ≡ w.sent
unfolding mark_synced
mark_synced-sent ch remote w = ground arith

pub mark_failed-sent :
    (ch : Channel) (reason : Text) (w : World) → (mark_failed ch reason w).1.sent ≡ w.sent
unfolding mark_failed
mark_failed-sent ch reason w = ground arith

-- After a reply, only the database is written.
module _ (q : HttpRequest) (log : List HttpRequest) (ch : Channel) where
  failed-Sends :
      (reason : Text) (e : Error) (w : World)
      → (w.sent ≡ log) ⊎ (w.sent ≡ q ∷ log)
      → Sends q log (fail_with ch reason e w)
  failed-Sends reason e w h = ground (arith, mark_failed-sent ch reason w)

  synced-Sends :
      (remote : ℤ) (w : World)
      → w.sent ≡ q ∷ log
      → Sends q log ((mark_synced ch remote >>= λ _. pure (tt {0})) w)
  unfolding mark_synced
  synced-Sends remote w h = ground arith

  created-Sends :
      (r : Result ℤ) (w : World)
      → Sends q log (r, w)
      → Sends q log (
          on_result r
            (λ e. fail_with ch (error_text e) e)
            (λ remote. mark_synced ch remote >>= λ _. pure (tt {0}))
            w)
  created-Sends (ok remote) w h = synced-Sends remote w h
  created-Sends (err e) w h = failed-Sends (error_text e) e w h

  updated-Sends :
      (r : Result (Unit {0})) (w : World)
      → Sends q log (r, w)
      → Sends q log (
          on_result r
            (λ e. fail_with ch (error_text e) e)
            (λ _. mark_synced ch ch.remote_id >>= λ _. pure (tt {0}))
            w)
  updated-Sends (ok _) w h = synced-Sends ch.remote_id w h
  updated-Sends (err e) w h = failed-Sends (error_text e) e w h

publish_key-Sends :
    (c : Client) (ch : Channel) (p : ChannelPayload) (w : World)
    → p.id ≡ ch.remote_id
    → Sends (request_for c p) w.sent (publish_key c ch p w)
unfolding publish_key
publish_key-Sends c ch p w same =
    let q = request_for c p in
    elim (Bool-cases (ch.remote_id == pos 0)) [
      | inl e ↦
          let r = create_channel c p w in
          rw e (created-Sends q w.sent ch r.0 r.1 (create_channel-Sends c p w (rw same e)))
      | inr e ↦
          let r = update_channel c p w in
          rw e (updated-Sends q w.sent ch r.0 r.1 (update_channel-Sends c p w (rw same e)))
    ]

-- Where the sealed key is still there, and the platform's token and the key can be opened, handing
-- a channel over sends the request that carries the opened key under the opened token exactly once
-- if it succeeds, and at most once, and nothing else, if it fails.
pub forward-Sends :
    (vault : Vault) (r : Channel) (platform : Platform) (key token : Text) (w : World)
    → has_recoverable_key r ≡ true
    → open_blob vault platform.modex_token_enc ≡ ok token
    → open_blob vault r.enc_key ≡ ok key
    → Sends
        (request_for (new_client platform.base_url token) (with_key key (payload_of r)))
        w.sent
        (forward vault r platform w)
unfolding forward sync_with_key
forward-Sends vault r platform key token w k t o =
    let c = new_client platform.base_url token in
    let p = with_key key (payload_of r) in rw (t, k, o) (publish_key-Sends c r p w refl)
