-- ===== src/Model/Channel/Rows.antt =====
-- The row that a channel's id selects, before and after an update.
use modex_cloud.Prelude.{◌≡◌, refl, some, find, map_where, find_sound, find-map_where, true, arith}
use modex_cloud.Prelude.Int.{ℤ, int_beq_iff}
use modex_cloud.Model.Schema.{Channel}
use modex_cloud.Model.Channel.{selects}
use modex_cloud.Model.World.{World, tick}

-- The live row of an id.
abbrev pub Row : ℤ → Channel → World → Type 0
Row id r w = find (selects id) w.channels.rows ≡ some r

-- The rows of the channels, accounts, grants and platforms and the clock stay as they are.
pub record SameRows (v w : World) : Type 0 where
  pub channels : w.channels ≡ v.channels
  pub users : w.users ≡ v.users
  pub grants : w.grants ≡ v.grants
  pub platforms : w.platforms ≡ v.platforms
  pub clock : w.clock ≡ v.clock

pub selects-id : (id : ℤ) (r : Channel) → selects id r ≡ true → r.id ≡ id
unfolding selects
selects-id id r h = ground (arith, int_beq_iff r.id id)

pub Row-id : (id : ℤ) (r : Channel) (w : World) → Row id r w → r.id ≡ id
Row-id id r w h = selects-id id r (find_sound (selects id) w.channels.rows r h)

pub SameRows-tick : (w : World) → SameRows w (tick w)
SameRows-tick w = record {
  channels = refl;
  users = refl;
  grants = refl;
  platforms = refl;
  clock = refl;
}

-- An update that keeps the id and the mark of deletion, run by the id of the row found.
pub find-update :
    (id : ℤ) (f : Channel → Channel) (w : World) (r : Channel)
    → ((x : Channel) → selects id (f x) ≡ selects id x)
    → Row id r w
    → find (selects id) (map_where (selects r.id) f w.channels.rows) ≡ some (f r)
find-update id f w r same h =
    let k : r.id ≡ id = Row-id id r w h in
    simp k (find-map_where (selects id) f w.channels.rows r same h)
