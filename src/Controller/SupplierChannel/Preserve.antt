-- ===== src/Controller/SupplierChannel/Preserve.antt =====
-- What every handler of controller/supplier_channel.go keeps, whatever it is sent and whichever
-- statements fail: a property that its statements keep.
use modex_cloud.Prelude.{ℕ, ◌≡◌, refl, Option, List, [], ◌∷◌}
use modex_cloud.Prelude.Int.{ℤ}
use modex_cloud.Text.{Text}
use modex_cloud.Constant.{pending}
use modex_cloud.Model.Schema.{Channel}
use modex_cloud.Model.World.Keeps.{Keeps, Keeps->>=, Keeps-pure, keeps_rules}
use modex_cloud.Model.Channel.{
  create, update_metadata, replace_key, soft_delete_for_user, get_channel_for_user,
}
use modex_cloud.Model.Channel.Rows.{SameRows, SameRows-tick}
use modex_cloud.Crypto.{Vault}
use modex_cloud.Model.World.{World, Error, first, Result, ok, err}
use modex_cloud.Model.World.Keeps.{Keeps-first}
use modex_cloud.Sync.{refresh_usage}
use modex_cloud.Controller.Flow.{Context, Response, Flow, ◌>>=◌, go_on, or_reply, reply_error}
use modex_cloud.Controller.Flow.Keeps.{FlowKeeps, Serves, flow_rules}
use modex_cloud.Controller.SupplierChannel.Reads.{
  read_rules, check_upload-Keeps, check_limit-Keeps, load_cached-Keeps,
}
use modex_cloud.Controller.SupplierChannel.{
  Deps, Cache, CreateChannelRequest, UpdateChannelRequest, channel_views, rotate_key,
  seal_and_replace, create_channel, seal_and_store, update_channel, resync_channel,
  refresh_channel_usage, delete_channel, list_channels,
}

-- What the handlers do to the database for one supplier: a property `P` of every state, and what is
-- known, `Q`, of the id of a channel that has been read for the supplier.
pub record KeptFor (user : ℤ) (P : World → Type 0) (Q : ℤ → World → Type 0) : Type 0 where
  pub same : (v w : World) → SameRows v w → P v → P w
  pub same_found : (id : ℤ) (v w : World) → SameRows v w → Q id v → Q id w
  pub forget : (id : ℤ) (w : World) → Q id w → P w
  pub found :
      (id : ℤ) (w : World) (ch : Channel)
      → P w
      → (get_channel_for_user id user w).0 ≡ ok ch
      → Q ch.id (get_channel_for_user id user w).1
  pub insert : (c : Channel) → c.user_id ≡ user → c.key_state ≡ pending → Keeps P (create c)
  pub edit : (id : ℤ) (c : Channel) → c.id ≡ id → Keeps (Q id) (update_metadata c)
  pub rekey :
      (id : ℤ) (c : Channel) (sealed fp last4 : Text)
      → c.id ≡ id
      → Keeps (Q id) (replace_key c sealed fp last4)
  pub remove : (id : ℤ) → Keeps P (soft_delete_for_user id user)
  pub usage : (v : Vault) (id : ℤ) → Keeps (Q id) (refresh_usage v id)

-- A property that is kept whoever owns the channel.
pub record KeptByChannels (P : World → Type 0) : Type 0 where
  pub same : (v w : World) → SameRows v w → P v → P w
  pub insert : (c : Channel) → c.key_state ≡ pending → Keeps P (create c)
  pub edit : (c : Channel) → Keeps P (update_metadata c)
  pub rekey : (c : Channel) (sealed fp last4 : Text) → Keeps P (replace_key c sealed fp last4)
  pub remove : (id user : ℤ) → Keeps P (soft_delete_for_user id user)
  pub usage : (v : Vault) (id : ℤ) → Keeps P (refresh_usage v id)

module _ {P : World → Type 0} (same : (v w : World) → SameRows v w → P v → P w) where
  first_channel-Keeps : (f : World → Option Channel) (missing : Error) → Keeps P (first f missing)
  first_channel-Keeps f missing = Keeps-first (λ w h. same w _ (SameRows-tick w) h) f missing

  find-Keeps : (id user : ℤ) → Keeps P (get_channel_for_user id user)
  unfolding get_channel_for_user
  find-Keeps id user = search (keeps_rules, first_channel-Keeps)

pub any_user : {P : World → Type 0} → KeptByChannels P → (user : ℤ) → KeptFor user P (λ _. P)
any_user k user = record {
  same = k.same;
  same_found = λ id. k.same;
  forget = λ id w h. h;
  found = λ id w ch h e. (find-Keeps k.same id user).at w h;
  insert = λ c _. k.insert c;
  edit = λ id c e. k.edit c;
  rekey = λ id c sealed fp last4 e. k.rekey c sealed fp last4;
  remove = λ id. k.remove id user;
  usage = k.usage;
}

ruleset handler_rules = (keeps_rules, flow_rules, read_rules)

module _ {P : World → Type 0} {Q : ℤ → World → Type 0} (deps : Deps) (c : Context)
    (k : KeptFor c.user_id P Q) where
  FlowKeeps-found :
      {B : Type 0} (id : ℤ) (h : Error → Response) (f : Channel → Flow B)
      → ((ch : Channel) → FlowKeeps (Q ch.id) (f ch))
      → FlowKeeps P (or_reply (get_channel_for_user id c.user_id) h >>= f)
  FlowKeeps-found {B} id h f kf = record {
    at = λ w p.
        let m = get_channel_for_user id c.user_id in
        go (m w).0 (m w).1 ((find-Keeps k.same id c.user_id).at w p) (λ ch e. k.found id w ch p e);
  }
    where
      go :
          (r : Result Channel) (v : World)
          → P v
          → ((ch : Channel) → r ≡ ok ch → Q ch.id v)
          → P (go_on (reply_error r h) f v).1
      go (ok ch) v p s = k.forget ch.id _ ((kf ch).at v (s ch refl))
      go (err e) v p s = p

  seal_and_replace-Keeps :
      (id : ℤ) (ch : Channel) (key : Text)
      → ch.id ≡ id
      → FlowKeeps (Q id) (seal_and_replace deps ch key)
  unfolding seal_and_replace
  seal_and_replace-Keeps id ch key e = search (handler_rules, k.same_found id, k.rekey) depth 12

  rotate_key-Keeps :
      (id : ℤ) (ch : Channel) (key : Text) → ch.id ≡ id → FlowKeeps (Q id) (rotate_key deps ch key)
  unfolding rotate_key
  rotate_key-Keeps id ch key e = search (handler_rules, seal_and_replace-Keeps)

  pub resync_channel-Serves : Serves P (resync_channel deps c)
  unfolding resync_channel
  resync_channel-Serves = search (handler_rules, k.same_found, FlowKeeps-found) depth 20

  pub delete_channel-Serves : Serves P (delete_channel c)
  unfolding delete_channel
  delete_channel-Serves = search (handler_rules, k.same, k.remove) depth 20

  pub update_channel-Serves :
      (body : Option UpdateChannelRequest) → Serves P (update_channel deps c body)
  unfolding update_channel
  update_channel-Serves body =
      search
        (handler_rules, k.same_found, k.edit, FlowKeeps-found, check_upload-Keeps, rotate_key-Keeps)
        depth 40

  channel_views-Keeps :
      (cache : Cache) (chs : List Channel) → Keeps P (channel_views deps cache chs)
  unfolding channel_views
  channel_views-Keeps cache [] = Keeps-pure _
  channel_views-Keeps cache (ch ∷ chs) =
      Keeps->>= _ _ (load_cached-Keeps k.same ch.platform_id cache)
        (λ found. Keeps->>= _ _ (channel_views-Keeps found.1 chs) (λ views. Keeps-pure _))

  pub list_channels-Serves :
      (platform : ℤ) (offset limit : ℕ) → Serves P (list_channels deps c platform offset limit)
  unfolding list_channels
  list_channels-Serves platform offset limit =
      search (handler_rules, k.same, channel_views-Keeps) depth 20

  pub refresh_channel_usage-Serves : Serves P (refresh_channel_usage deps c)
  unfolding refresh_channel_usage
  refresh_channel_usage-Serves = search (handler_rules, k.usage, FlowKeeps-found) depth 20

  pub create_channel-Serves :
      (body : Option CreateChannelRequest) → Serves P (create_channel deps c body)
  unfolding create_channel seal_and_store
  create_channel-Serves body =
      search (handler_rules, k.same, check_upload-Keeps, check_limit-Keeps, k.insert) depth 60
