-- ===== src/Sync/Rotation.antt =====
-- A rotation of the key while a background run is under way.
use modex_cloud.Prelude.{ℕ, ◌≡◌, refl, ◌∙◌, [], arith}
use modex_cloud.Prelude.Int.{ℤ}
use modex_cloud.Text.{Text}
use modex_cloud.Model.Schema.{Channel}
use modex_cloud.Model.World.{World, ok}
use modex_cloud.Model.Channel.{selects, as_synced, as_rekeyed, mark_synced, replace_key}
use modex_cloud.Model.Channel.Rows.{Row, find-update}
use modex_cloud.Sync.Destroy.{selects-as_synced}

selects-as_rekeyed :
    (id : ℤ) (sealed fp tail : Text) (now : ℕ) (r : Channel)
    → selects id (as_rekeyed sealed fp tail now r) ≡ selects id r
unfolding selects as_rekeyed
selects-as_rekeyed id sealed fp tail now r = refl

rekeyed_lem :
    (id : ℤ) (r c : Channel) (sealed fp tail : Text) (w v : World)
    → Row id r w
    → replace_key r sealed fp tail w ≡ (ok c, v)
    → Row id (as_rekeyed sealed fp tail w.clock r) v × (v.sent ≡ w.sent)
unfolding replace_key
rekeyed_lem id r c sealed fp tail w v h e = ground (
  arith,
  find-update id (as_rekeyed sealed fp tail w.clock) w r
      (selects-as_rekeyed id sealed fp tail w.clock) h,
)

-- The statement of `MarkSynced` reads nothing of the row but its id.
marked_lem :
    (id : ℤ) (old r c : Channel) (remote : ℤ) (w v : World)
    → Row id r w
    → old.id ≡ r.id
    → mark_synced old remote w ≡ (ok c, v)
    → Row id (as_synced remote w.clock r) v × (v.sent ≡ w.sent)
unfolding mark_synced
marked_lem id old r c remote w v h same e =
    ground
      (arith, find-update id (as_synced remote w.clock) w r (selects-as_synced id remote w.clock) h)

as_rekeyed-id :
    (sealed fp tail : Text) (now : ℕ) (r : Channel) → r.id ≡ (as_rekeyed sealed fp tail now r).id
unfolding as_rekeyed
as_rekeyed-id sealed fp tail now r = refl

as_synced-enc_key : (remote : ℤ) (now : ℕ) (r : Channel) → (as_synced remote now r).enc_key ≡ []
unfolding as_synced
as_synced-enc_key remote now r = refl

-- If a key is rotated between the load and the record of a background run, and both statements
-- succeed, the record erases the new key, which nothing has sent: the row ends as synced and
-- without a key.
pub mark_synced-replace_key :
    (id : ℤ) (old c c' : Channel) (sealed fp tail : Text) (remote : ℤ) (w v u : World)
    → Row id old w
    → replace_key old sealed fp tail w ≡ (ok c, v)
    → mark_synced old remote v ≡ (ok c', u)
    → Row id (as_synced remote v.clock (as_rekeyed sealed fp tail w.clock old)) u
      × ((as_synced remote v.clock (as_rekeyed sealed fp tail w.clock old)).enc_key ≡ [])
      × (u.sent ≡ w.sent)
mark_synced-replace_key id old c c' sealed fp tail remote w v u h e f =
    let r = as_rekeyed sealed fp tail w.clock old in
    let (h', s) = rekeyed_lem id old c sealed fp tail w v h e in
    let (h'', s') =
      marked_lem id old r c' remote v u h' (as_rekeyed-id sealed fp tail w.clock old) f in
    (h'', as_synced-enc_key remote v.clock r, s' ∙ s)
