-- ===== src/Controller/SupplierChannel/Published.antt =====
-- An upload, from the request to the platform.
use modex_cloud.Prelude.{◌≡◌, refl, true, some, find, any, ◌==◌, List, [], ◌∷◌, arith}
use modex_cloud.Prelude.Int.{ℤ, int_eq}
use modex_cloud.Text.{Text}
use modex_cloud.Constant.{pending}
use modex_cloud.Crypto.{Vault, open_blob}
use modex_cloud.Crypto.Laws.{Opens}
use modex_cloud.Model.Schema.{Channel}
use modex_cloud.Model.World.{World, ok}
use modex_cloud.Model.Invariant.{IsValid}
use modex_cloud.Model.Channel.{has_recoverable_key}
use modex_cloud.Model.Channel.Rows.{Row}
use modex_cloud.Sync.{sync_channel}
use modex_cloud.Sync.Run.{Delivers, sync_channel-Delivers}
use modex_cloud.Sync.Wipe.{Leaves, sync_channel-Leaves}
use modex_cloud.Controller.Flow.{Context}
use modex_cloud.Controller.SupplierChannel.{Deps, CreateChannelRequest, create_channel}
use modex_cloud.Controller.SupplierChannel.Stored.{create_channel-IsStored}

-- A pending channel whose sealed key opens is one to hand over.
recoverable_lem :
    (vault : Vault) (r : Channel) (key : Text)
    → open_blob vault r.enc_key ≡ ok key
    → r.key_state ≡ pending
    → has_recoverable_key r ≡ true
unfolding has_recoverable_key open_blob modex_cloud.Prelude.text_beq
recoverable_lem vault r key o s = filled r.enc_key refl o
  where
    filled : (k : Text) → r.enc_key ≡ k → open_blob vault k ≡ ok key → has_recoverable_key r ≡ true
    filled [] e q = cc
    filled (b ∷ k) e q = ground arith

-- What a run of the worker on a channel with the key does: it sends the key to the channel's platform
-- in one request, or fails, and erases the key exactly where it succeeds.
abbrev pub Publishes : Vault → Text → ℤ → Channel → World → Type 0
Publishes vault key id r w =
    Leaves id r w (sync_channel vault id w) × Delivers vault key r w (sync_channel vault id w)

-- Where the AEAD opens what it seals: an upload that is answered with success at a valid state has
-- put a channel of the caller and the platform in the list of jobs, and of a run of the worker on
-- it from there: if it succeeds, the platform is there, its token could be opened, one request has
-- been sent, which carries the uploaded key under that token to that platform, the platform has
-- replied with success, and the sealed key is erased; if it fails, that request has been sent or
-- none, and the sealed key is still there.
pub create_channel-Publishes :
    (deps : Deps) (c : Context) (req : CreateChannelRequest) (w : World)
    → Opens deps.vault.aead
    → IsValid w
    → (create_channel deps c (some req) w).0.success ≡ true
    → (let v = (create_channel deps c (some req) w).1 in
        (id : ℤ) × (r : Channel) × (any (λ j. j == id) v.jobs ≡ true)
        × Row id r v
        × (r.user_id ≡ c.user_id)
        × (r.platform_id ≡ req.platform_id)
        × Publishes deps.vault req.key id r v)
create_channel-Publishes deps c req w opens valid done =
    let v = (create_channel deps c (some req) w).1 in
    let (id, q) = create_channel-IsStored deps c req w opens valid done in
    let u = q.uploaded in
    let k = recoverable_lem deps.vault u.row req.key u.opens u.state in
    (
      id,
      u.row,
      q.queued,
      u.at_id,
      u.user_id,
      u.platform_id,
      (
        sync_channel-Leaves deps.vault id u.row v u.at_id k,
        sync_channel-Delivers deps.vault u.row req.key k u.opens id v u.at_id,
      ),
    )
