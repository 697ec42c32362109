-- ===== src/Controller/SupplierChannel/Tenant.antt =====
-- What a supplier's request does to the channels of others.
mod Own
pub use Own.{others}
use modex_cloud.Prelude.{
  ℕ, ◌≡◌, ◌≢◌, refl, sym, ap, ◌∙◌, inl, inr, Bool, true, false, not, ◌&&◌, Option, some, none, List,
  [], ◌∷◌, ◌++◌, find, find-All, find_sound, filter, filter-map_where, filter-append_not, count,
  count-none, count-map_where, map_where, if◌then◌else◌, ◌==◌, nat_eq, text_eq, arith, All,
  Bool-cases, Option-cases, subst,
}
use modex_cloud.Prelude.Int.{ℤ, pos, int_eq, int_beq_iff}
use modex_cloud.Text.{Text}
use modex_cloud.Crypto.{Vault}
use modex_cloud.Constant.{pending, is_unset, status_enabled}
use modex_cloud.Agt.{Client, get_channel_usage}
use modex_cloud.Agt.Frame.{get_channel_usage-SameRows}
use modex_cloud.Model.Schema.{Channel, Platform}
use modex_cloud.Model.World.{
  World, Error, Action, first, exec, tick, ok, pure, raise, exec_affecting, channel_not_found,
}
use modex_cloud.Model.World.Keeps.{
  Keeps, Keeps-first, Keeps-exec, Keeps-exec_affecting, Keeps->>=, Keeps-pure, Keeps-raise,
  Keeps-if, Keeps-reads, exec_at, then-pure, keeps_rules,
}
use modex_cloud.Model.Channel.{
  create, update_row, on_channels, insert_channel, selects, owned, update_metadata, as_edited,
  replace_key, as_rekeyed, soft_delete_for_user, as_deleted, set_usage, as_used, get_channel_by_id,
  get_channel_for_user, omit_key,
}
use modex_cloud.Model.Channel.Rows.{SameRows, SameRows-tick, selects-id}
use modex_cloud.Model.Invariant.{IsValid, Distinct, HasOtherId}
use modex_cloud.Model.Invariant.Channels.{IsValid-rows}
use modex_cloud.Sync.{pull_usage, refresh_usage}
use modex_cloud.Controller.SupplierChannel.Reads.{get_platform-Keeps}
use modex_cloud.Controller.SupplierChannel.Invariant.{IsValid-KeptByChannels}
use modex_cloud.Controller.SupplierChannel.Preserve.{KeptFor}
use modex_cloud.Controller.SupplierChannel.Tenant.Own.{
  foreign, IsOwn, IsOwn-rows, update_metadata-IsOwn, replace_key-IsOwn, refresh_usage-IsOwn,
}

-- Rows of another id than a live row's.
other_rows :
    (user id : ℤ) (x : Channel) (rs : List Channel)
    → x.id ≡ id
    → All (HasOtherId x) rs
    → count (λ r. selects id r && foreign user r) rs ≡ 0
unfolding selects
other_rows user id x [] e h = refl
other_rows user id x (r ∷ rs) e (h, hs) =
    ground
      (arith, int_beq_iff r.id id, other_rows user id x rs e hs, λ (k : r.id ≡ id). h (e ∙ sym k))

-- Where ids are distinct, an id that a live row of the supplier has is on no live row of another.
own_rows :
    (user id : ℤ) (rs : List Channel) (r : Channel)
    → Distinct rs
    → find (owned id user) rs ≡ some r
    → count (λ x. selects id x && foreign user x) rs ≡ 0
unfolding owned
own_rows user id [] r d e = refl
own_rows user id (x ∷ rs) r (h, d) e = elim (Bool-cases (selects id x)) [
  | inr n ↦ ground (arith, own_rows user id rs r d)
  | inl s ↦ elim (Bool-cases (x.user_id == user)) [
    | inl o ↦ ground (arith, other_rows user id x rs (selects-id id x s) h)
    | inr o ↦
        let late : find (owned id user) rs ≡ some r = ground arith in
        let differs = find-All (HasOtherId x) (owned id user) rs r late h in
        let found : selects id r ≡ true = ground (arith, find_sound (owned id user) rs r late) in
        absurd (differs (selects-id id x s ∙ sym (selects-id id r found)))
  ]
]

-- What holds of a state that only the supplier's rows were changed in, since `t`.
pub record LeavesOthers (user : ℤ) (t w : World) : Type 0 where
  pub valid : IsValid w
  pub same : others user w ≡ others user t

pub record Found (user : ℤ) (t : World) (id : ℤ) (w : World) : Type 0 where
  valid : IsValid w
  own : IsOwn user t id w

record HasOthers (user : ℤ) (t w : World) : Type 0 where
  same : others user w ≡ others user t

module _ (user : ℤ) (t : World) where
  HasOthers-tick : (w : World) → HasOthers user t w → HasOthers user t (tick w)
  HasOthers-tick w h = record { same = h.same }

  create-others : (c : Channel) → c.user_id ≡ user → Keeps (HasOthers user t) (create c)
  unfolding create
  create-others c e = record {
    at = λ w h.
        let row = record c {
          id = pos w.channels.next;
          created_time = w.clock;
          updated_time = w.clock;
          key_state = if is_unset c.key_state then pending else c.key_state;
          status = if c.status == pos 0 then status_enabled else c.status;
        } in
        let mine : foreign user row ≡ false = ground (arith, int_beq_iff c.user_id user) in
        rw (then-pure (exec (insert_channel row)) row w) (
          exec_at (HasOthers user t) (insert_channel row) w (HasOthers-tick w h)
            (record { same = filter-append_not (foreign user) w.channels.rows row mine ∙ h.same }));
  }

  owned-mine : (id : ℤ) (r : Channel) → (owned id user r && foreign user r) ≡ false
  unfolding owned
  owned-mine id r = ground arith

  remove-others : (id : ℤ) → Keeps (HasOthers user t) (soft_delete_for_user id user)
  unfolding soft_delete_for_user as_deleted
  remove-others id = record {
    at = λ w h.
        (Keeps->>= _ _
            (Keeps-exec_affecting HasOthers-tick
              (on_channels (map_where (owned id user) (as_deleted w.clock)))
              (λ v g. record {
                same =
                    filter-map_where (foreign user) (owned id user) (as_deleted w.clock) (λ r. refl)
                      v.channels.rows (count-none _ v.channels.rows (owned-mine id))
                    ∙ g.same;
              })
              (λ u. count (owned id user) u.channels.rows))
            (λ n.
              Keeps-if (n == 0) (raise channel_not_found) (pure tt) (Keeps-raise _)
                (Keeps-pure _))).at
          w h;
  }

  both :
      {A : Type 0} {m : Action A}
      → Keeps IsValid m
      → Keeps (HasOthers user t) m
      → Keeps (LeavesOthers user t) m
  both k j = record {
    at = λ w h. record { valid = k.at w h.valid; same = (j.at w (record { same = h.same })).same };
  }

  both-Found :
      {A : Type 0} {m : Action A} (id : ℤ)
      → Keeps IsValid m
      → Keeps (IsOwn user t id) m
      → Keeps (Found user t id) m
  both-Found id k j = record { at = λ w h. record { valid = k.at w h.valid; own = j.at w h.own } }

  -- A channel that has been read for the supplier is of a live row of theirs with the id.
  found_row :
      (id : ℤ) (w : World) (ch : Channel)
      → (get_channel_for_user id user w).0 ≡ ok ch
      → (r : Channel) × (find (owned id user) w.channels.rows ≡ some r)
        × (ch.id ≡ r.id)
        × ((get_channel_for_user id user w).1 ≡ tick w)
  unfolding get_channel_for_user
  found_row id w ch e = elim (Option-cases (find (owned id user) w.channels.rows)) [
    | inl q ↦ absurd (ground arith)
    | inr (r, q) ↦ (r, q, ground arith, ground arith)
  ]

  found_lem :
      (id : ℤ) (w : World) (ch : Channel)
      → LeavesOthers user t w
      → (get_channel_for_user id user w).0 ≡ ok ch
      → Found user t ch.id (get_channel_for_user id user w).1
  unfolding owned
  found_lem id w ch h e =
      let (r, q, same, state) = found_row id w ch e in
      let live : selects id r ≡ true =
        ground (arith, find_sound (owned id user) w.channels.rows r q) in
      let at_id : ch.id ≡ id = same ∙ selects-id id r live in
      subst (Found user t ch.id) (sym state) (record {
        valid = record { channels = h.valid.channels };
        own = record {
          others = h.same;
          own = rw at_id (own_rows user id w.channels.rows r h.valid.channels.distinct q);
        };
      })

  pub LeavesOthers-KeptFor : KeptFor user (LeavesOthers user t) (Found user t)
  LeavesOthers-KeptFor =
      let v = IsValid-KeptByChannels in
      record {
        same =
            λ a b e h. record { valid = IsValid-rows a b e h.valid; same = rw (e.channels) h.same };
        same_found = λ id a b e h. record {
          valid = IsValid-rows a b e h.valid;
          own = IsOwn-rows user t id a b e h.own;
        };
        forget = λ id w h. record { valid = h.valid; same = h.own.others };
        found = found_lem;
        insert = λ c e k. both (v.insert c k) (create-others c e);
        edit = λ id c e. both-Found id (v.edit c) (update_metadata-IsOwn user t id c e);
        rekey =
            λ id c x y z e. both-Found id (v.rekey c x y z) (replace_key-IsOwn user t id c x y z e);
        remove = λ id. both (v.remove id user) (remove-others id);
        usage = λ a id. both-Found id (v.usage a id) (refresh_usage-IsOwn user t id a);
      }
