-- ===== src/Controller/SupplierChannel/Isolation.antt =====
-- The requests of a supplier leave the accounts, grants and platforms alone.
use modex_cloud.Prelude.{◌≡◌, ◌∙◌, Option, arith}
use modex_cloud.Prelude.Int.{ℤ}
use modex_cloud.Text.{Text}
use modex_cloud.Crypto.{Vault}
use modex_cloud.Constant.{pending}
use modex_cloud.Agt.{Client, get_channel_usage}
use modex_cloud.Agt.Frame.{get_channel_usage-SameRows}
use modex_cloud.Model.Schema.{Channel, Platform}
use modex_cloud.Model.World.{World, Error, Action, first}
use modex_cloud.Model.World.Keeps.{Keeps, Keeps-first, keeps_rules}
use modex_cloud.Model.Channel.{
  create, update_metadata, replace_key, soft_delete_for_user, set_usage, get_channel_by_id,
}
use modex_cloud.Model.Channel.Rows.{SameRows, SameRows-tick}
use modex_cloud.Sync.{pull_usage, refresh_usage}
use modex_cloud.Controller.SupplierChannel.Reads.{get_platform-Keeps}
use modex_cloud.Controller.SupplierChannel.Preserve.{KeptByChannels}

-- The tables of accounts, grants and platforms are those of `t`.
pub record HasTables (t w : World) : Type 0 where
  pub users : w.users ≡ t.users
  pub grants : w.grants ≡ t.grants
  pub platforms : w.platforms ≡ t.platforms

module _ (t : World) where
  HasTables-rows : (v w : World) → SameRows v w → HasTables t v → HasTables t w
  HasTables-rows v w e h = record {
    users = e.users ∙ h.users;
    grants = e.grants ∙ h.grants;
    platforms = e.platforms ∙ h.platforms;
  }

  kept :
      {A : Type 0} (m : Action A)
      → ((w : World)
          → ((m w).1.users ≡ w.users)
            × ((m w).1.grants ≡ w.grants)
            × ((m w).1.platforms ≡ w.platforms))
      → Keeps (HasTables t) m
  kept m same = record {
    at = λ w h. record {
      users = (same w).0 ∙ h.users;
      grants = (same w).1 ∙ h.grants;
      platforms = (same w).2 ∙ h.platforms;
    };
  }

  create-Keeps : (c : Channel) → c.key_state ≡ pending → Keeps (HasTables t) (create c)
  unfolding create
  create-Keeps c e = kept _ (λ w. ground arith)

  update_metadata-Keeps : (c : Channel) → Keeps (HasTables t) (update_metadata c)
  unfolding update_metadata
  update_metadata-Keeps c = kept _ (λ w. ground arith)

  replace_key-Keeps :
      (c : Channel) (sealed fp last4 : Text) → Keeps (HasTables t) (replace_key c sealed fp last4)
  unfolding replace_key
  replace_key-Keeps c sealed fp last4 = kept _ (λ w. ground arith)

  soft_delete_for_user-Keeps : (id user : ℤ) → Keeps (HasTables t) (soft_delete_for_user id user)
  unfolding soft_delete_for_user
  soft_delete_for_user-Keeps id user = kept _ (λ w. ground arith)

  set_usage-Keeps : (c : Channel) (used : ℤ) → Keeps (HasTables t) (set_usage c used)
  unfolding set_usage
  set_usage-Keeps c used = kept _ (λ w. ground arith)

  get_channel_usage-Keeps :
      (c : Client) (remote : ℤ) → Keeps (HasTables t) (get_channel_usage c remote)
  get_channel_usage-Keeps c remote = record {
    at = λ w h. HasTables-rows w _ (get_channel_usage-SameRows c remote w) h;
  }

  first_channel-Keeps :
      (f : World → Option Channel) (missing : Error) → Keeps (HasTables t) (first f missing)
  first_channel-Keeps f missing =
      Keeps-first (λ w h. HasTables-rows w _ (SameRows-tick w) h) f missing

  get_channel_by_id-Keeps : (id : ℤ) → Keeps (HasTables t) (get_channel_by_id id)
  unfolding get_channel_by_id
  get_channel_by_id-Keeps id = search (keeps_rules, first_channel-Keeps)

  pull_usage-Keeps :
      (v : Vault) (ch : Channel) (p : Platform) → Keeps (HasTables t) (pull_usage v ch p)
  unfolding pull_usage
  pull_usage-Keeps v ch p = search (keeps_rules, get_channel_usage-Keeps, set_usage-Keeps)

  refresh_usage-Keeps : (v : Vault) (id : ℤ) → Keeps (HasTables t) (refresh_usage v id)
  unfolding refresh_usage
  refresh_usage-Keeps v id =
      search
        (keeps_rules, HasTables-rows, get_channel_by_id-Keeps, get_platform-Keeps, pull_usage-Keeps)

  pub HasTables-KeptByChannels : KeptByChannels (HasTables t)
  HasTables-KeptByChannels = record {
    same = HasTables-rows;
    insert = create-Keeps;
    edit = update_metadata-Keeps;
    rekey = replace_key-Keeps;
    remove = soft_delete_for_user-Keeps;
    usage = refresh_usage-Keeps;
  }
