-- ===== src/Controller/SupplierChannel/Tenant/Own.antt =====
-- What is known of a channel that has been read for a supplier, and the statements on it.
use modex_cloud.Prelude.{
  ℕ, ◌≡◌, refl, ◌∙◌, Bool, not, ◌&&◌, Option, some, none, List, find, find_sound, filter,
  filter-map_where, count, count-map_where, ◌==◌, nat_eq, text_eq, arith,
}
use modex_cloud.Prelude.Int.{ℤ, int_eq}
use modex_cloud.Text.{Text}
use modex_cloud.Crypto.{Vault}
use modex_cloud.Constant.{pending}
use modex_cloud.Agt.{Client, get_channel_usage}
use modex_cloud.Agt.Frame.{get_channel_usage-SameRows}
use modex_cloud.Model.Schema.{Channel, Platform}
use modex_cloud.Model.World.{World, Error, first, tick, ok}
use modex_cloud.Model.World.Keeps.{
  Keeps, Keeps-first, Keeps-exec, Keeps->>=, Keeps-pure, Keeps-reads, keeps_rules,
}
use modex_cloud.Model.Channel.{
  update_row, selects, update_metadata, as_edited, replace_key, as_rekeyed, set_usage, as_used,
  get_channel_by_id,
}
use modex_cloud.Model.Channel.Rows.{SameRows, SameRows-tick, selects-id}
use modex_cloud.Sync.{pull_usage, refresh_usage}
use modex_cloud.Controller.SupplierChannel.Reads.{get_platform-Keeps}

abbrev pub foreign : ℤ → Channel → Bool
foreign user r = not (r.user_id == user)

-- The rows of the other suppliers, in their order.
abbrev pub others : ℤ → World → List Channel
others user w = filter (foreign user) w.channels.rows

abbrev pub strays : ℤ → ℤ → World → ℕ
strays user id w = count (λ r. selects id r && foreign user r) w.channels.rows

-- The rows of the other suppliers are those of `t`, and no live one has the id.
pub record IsOwn (user : ℤ) (t : World) (id : ℤ) (w : World) : Type 0 where
  pub others : others user w ≡ others user t
  pub own : strays user id w ≡ 0

module _ (user : ℤ) (t : World) (id : ℤ) where
  pub IsOwn-rows : (v w : World) → SameRows v w → IsOwn user t id v → IsOwn user t id w
  IsOwn-rows v w e h = record { others = rw (e.channels) h.others; own = rw (e.channels) h.own }

  IsOwn-tick : (w : World) → IsOwn user t id w → IsOwn user t id (tick w)
  IsOwn-tick w h = IsOwn-rows w _ (SameRows-tick w) h

  -- An update of the row of the id that leaves its id, its owner and its mark of deletion.
  update_row-Keeps :
      (c : Channel) (f : Channel → Channel)
      → c.id ≡ id
      → ((r : Channel) → foreign user (f r) ≡ foreign user r)
      → ((r : Channel) → selects id (f r) ≡ selects id r)
      → Keeps (IsOwn user t id) (update_row c f)
  update_row-Keeps c f e owner sel = Keeps-exec IsOwn-tick _ (λ w h. record {
    others =
        rw e (filter-map_where (foreign user) (selects id) f owner w.channels.rows h.own)
        ∙ h.others;
    own =
        count-map_where (λ r. selects id r && foreign user r) (selects c.id) f
          (λ r. rw (owner r, sel r)) w.channels.rows
        ∙ h.own;
  })

  pub update_metadata-IsOwn :
      (c : Channel) → c.id ≡ id → Keeps (IsOwn user t id) (update_metadata c)
  unfolding update_metadata as_edited selects
  update_metadata-IsOwn c e = record {
    at = λ w h. (update_row-Keeps c (as_edited c w.clock) e (λ r. refl) (λ r. refl)).at w h;
  }

  pub replace_key-IsOwn :
      (c : Channel) (sealed fp last4 : Text)
      → c.id ≡ id
      → Keeps (IsOwn user t id) (replace_key c sealed fp last4)
  unfolding replace_key as_rekeyed selects
  replace_key-IsOwn c sealed fp last4 e = record {
    at = λ w h.
        (Keeps->>= _ _
            (update_row-Keeps c (as_rekeyed sealed fp last4 w.clock) e (λ r. refl) (λ r. refl))
            (λ _. Keeps-pure (record c { enc_key = sealed; key_state = pending }))).at
          w h;
  }

  set_usage-IsOwn :
      (c : Channel) (used : ℤ) → c.id ≡ id → Keeps (IsOwn user t id) (set_usage c used)
  unfolding set_usage as_used selects
  set_usage-IsOwn c used e = record {
    at = λ w h.
        (Keeps->>= _ _ (update_row-Keeps c (as_used used w.clock) e (λ r. refl) (λ r. refl))
            (λ _. Keeps-pure (as_used used w.clock c))).at
          w h;
  }

  get_channel_usage-IsOwn :
      (c : Client) (remote : ℤ) → Keeps (IsOwn user t id) (get_channel_usage c remote)
  get_channel_usage-IsOwn c remote = record {
    at = λ w h. IsOwn-rows w _ (get_channel_usage-SameRows c remote w) h;
  }

  first_channel-IsOwn :
      (f : World → Option Channel) (missing : Error) → Keeps (IsOwn user t id) (first f missing)
  first_channel-IsOwn f missing = Keeps-first IsOwn-tick f missing

  get_channel_by_id-IsOwn : Keeps (IsOwn user t id) (get_channel_by_id id)
  unfolding get_channel_by_id
  get_channel_by_id-IsOwn = search (keeps_rules, first_channel-IsOwn)

  -- The channel that is read has the id that is asked for.
  get_channel_by_id-id :
      (w : World) (ch : Channel) → (get_channel_by_id id w).0 ≡ ok ch → ch.id ≡ id
  unfolding get_channel_by_id
  get_channel_by_id-id w ch e = read (find (selects id) w.channels.rows) refl
    where
      read : (o : Option Channel) → find (selects id) w.channels.rows ≡ o → ch.id ≡ id
      read none q = ground arith
      read (some r) q =
          ground (arith, selects-id id r (find_sound (selects id) w.channels.rows r q))

  pull_usage-IsOwn :
      (v : Vault) (ch : Channel) (p : Platform)
      → ch.id ≡ id
      → Keeps (IsOwn user t id) (pull_usage v ch p)
  unfolding pull_usage
  pull_usage-IsOwn v ch p e = search (keeps_rules, get_channel_usage-IsOwn, set_usage-IsOwn)

  pub refresh_usage-IsOwn : (v : Vault) → Keeps (IsOwn user t id) (refresh_usage v id)
  unfolding refresh_usage
  refresh_usage-IsOwn v =
      Keeps-reads _ _ (λ ch. ch.id ≡ id) get_channel_by_id-IsOwn
        (λ w ch h e. get_channel_by_id-id w ch e)
        (λ ch e. search (keeps_rules, IsOwn-rows, get_platform-Keeps, pull_usage-IsOwn))
