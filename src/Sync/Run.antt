-- ===== src/Sync/Run.antt =====
-- What a whole run of the worker sends, the loading of the channel and its platform and the opening
-- of the platform's token included.
use modex_cloud.Prelude.{
  ◌≡◌, refl, sym, ◌⊎◌, inl, inr, subst, Bool-cases, ◌∷◌, true, some, find, ◌==◌, arith,
}
use modex_cloud.Prelude.Int.{ℤ, pos, int_eq}
use modex_cloud.Text.{Text, text}
use modex_cloud.Crypto.{Vault, open_blob}
use modex_cloud.Agt.{new_client}
use modex_cloud.Model.Schema.{Channel, Platform}
use modex_cloud.Model.World.{
  World, Result, ok, err, database, platform_not_found, first, first-cases, tick, ◌>>=◌, >>=_of_ok,
  >>=_of_err,
}
use modex_cloud.Model.Channel.{has_recoverable_key, load_channel_for_sync}
use modex_cloud.Model.Channel.Rows.{Row}
use modex_cloud.Model.Platform.{get_platform_by_id}
use modex_cloud.Sync.{with_key, payload_of, forward, sync_channel}
use modex_cloud.Sync.Sends.{Sends, request_for, forward-Sends, mark_failed-sent}

load_lem :
    (id : ℤ) (r : Channel) (w : World)
    → Row id r w
    → (load_channel_for_sync id w ≡ (err database, tick w))
      ⊎ (load_channel_for_sync id w ≡ (ok r, tick w))
unfolding load_channel_for_sync
load_lem id r w h = ground arith

-- After a run from `w` that ended in `v`: the log of requests is the old one and one more, which
-- carries the key of the channel, under the token of its platform, to that platform.
abbrev pub IsHanded : Vault → Text → Channel → World → World → Type 0
IsHanded vault key r w v =
    (platform : Platform) × (token : Text) × (find (λ q. q.id == r.platform_id) w.platforms.rows
      ≡ some platform)
    × (open_blob vault platform.modex_token_enc ≡ ok token)
    × (v.sent
        ≡ request_for (new_client platform.base_url token) (with_key key (payload_of r)) ∷ w.sent)

abbrev pub Delivers : {A : Type 0} → Vault → Text → Channel → World → Result A × World → Type 0
Delivers vault key r w (ok _, v) = IsHanded vault key r w v
Delivers vault key r w (err _, v) = (v.sent ≡ w.sent) ⊎ IsHanded vault key r w v

module _ (vault : Vault) (r : Channel) (key : Text) (recoverable : has_recoverable_key r ≡ true)
    (opens : open_blob vault r.enc_key ≡ ok key) where
  module _ (platform : Platform) (w : World)
      (its : find (λ q. q.id == r.platform_id) w.platforms.rows ≡ some platform) where
    Sends-Delivers :
        (token : Text) (o : Result (Unit {0}) × World)
        → open_blob vault platform.modex_token_enc ≡ ok token
        → Sends
            (request_for (new_client platform.base_url token) (with_key key (payload_of r)))
            w.sent
            o
        → Delivers vault key r w o
    Sends-Delivers token (ok _, v) t h = (platform, token, its, t, h)
    Sends-Delivers token (err _, v) t (inl h) = inl h
    Sends-Delivers token (err _, v) t (inr h) = inr (platform, token, its, t, h)

    forward-Delivers :
        (o : Result Text)
        → open_blob vault platform.modex_token_enc ≡ o
        → Delivers vault key r w (forward vault r platform w)
    unfolding forward
    forward-Delivers (ok token) t =
        Sends-Delivers token (forward vault r platform w) t
          (forward-Sends vault r platform key token w recoverable t opens)
    forward-Delivers (err e) t =
        rw t (inl (mark_failed-sent r (text "platform token could not be decrypted") w))

  forwarded-Delivers :
      (w : World)
      → Delivers vault key r w ((get_platform_by_id r.platform_id >>= forward vault r) w)
  unfolding get_platform_by_id
  forwarded-Delivers w =
      let read = λ (v : World). find (λ q. q.id == r.platform_id) v.platforms.rows in
      let m = first read platform_not_found in
      let P = Delivers vault key r w in
      let f = forward vault r in
      elim (Bool-cases (r.platform_id == pos 0)) [
        | inl z ↦ rw z (inl refl)
        | inr z ↦ rw z (elim (first-cases read platform_not_found w) [
          | inl (e, h) ↦ subst P (sym (>>=_of_err m f w h)) (inl refl)
          | inr (platform, its, h) ↦ subst P (sym (>>=_of_ok m f w h)) (
              forward-Delivers platform (tick w) its (open_blob vault platform.modex_token_enc)
                refl)
        ])
      ]

  -- For a live channel whose sealed key is still there: a run that succeeds has sent the one request
  -- that carries the opened key, under the opened token of the channel's platform; one that fails has
  -- sent that one or none.
  pub sync_channel-Delivers :
      (id : ℤ) (w : World) → Row id r w → Delivers vault key r w (sync_channel vault id w)
  unfolding sync_channel
  sync_channel-Delivers id w h =
      let f = λ (ch : Channel).
        get_platform_by_id ch.platform_id >>= λ (p : Platform). forward vault ch p in
      let P = Delivers vault key r w in
      elim (load_lem id r w h) [
        | inl e ↦ subst P (sym (>>=_of_err (load_channel_for_sync id) f w e)) (inl refl)
        | inr e ↦
            subst P (sym (>>=_of_ok (load_channel_for_sync id) f w e)) (forwarded-Delivers (tick w))
      ]
