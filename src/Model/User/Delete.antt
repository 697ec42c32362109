-- ===== src/Model/User/Delete.antt =====
-- `DeleteUser`: what goes with an account, and what stays.
use modex_cloud.Prelude.{
  ℕ, ◌≡◌, refl, Bool, false, List, [], ◌∷◌, map, count, map_where, ◌==◌, arith, count-filter-not,
}
use modex_cloud.Prelude.Int.{ℤ, int_eq}
use modex_cloud.Text.{Text}
use modex_cloud.Model.Schema.{Channel, User, Grant}
use modex_cloud.Model.World.{World, ok}
use modex_cloud.Model.Channel.{as_deleted}
use modex_cloud.Model.User.{belongs_to, delete_user}

abbrev pub keys : List Channel → List Text
keys rows = map (λ c. c.enc_key) rows

belongs_to-as_deleted : (id : ℤ) (now : ℕ) (c : Channel) → belongs_to id (as_deleted now c) ≡ false
unfolding belongs_to as_deleted
belongs_to-as_deleted id now c = refl

none_belongs :
    (id : ℤ) (now : ℕ) (rows : List Channel)
    → count (belongs_to id) (map_where (belongs_to id) (as_deleted now) rows) ≡ 0
none_belongs id now [] = refl
none_belongs id now (c ∷ cs) =
    ground (arith, none_belongs id now cs, belongs_to-as_deleted id now c)

enc_key-as_deleted : (now : ℕ) (c : Channel) → (as_deleted now c).enc_key ≡ c.enc_key
unfolding as_deleted
enc_key-as_deleted now c = refl

same_keys :
    (p : Channel → Bool) (now : ℕ) (rows : List Channel)
    → keys (map_where p (as_deleted now) rows) ≡ keys rows
same_keys p now [] = refl
same_keys p now (c ∷ cs) = ground (arith, same_keys p now cs, enc_key-as_deleted now c)

-- A deletion of a user that succeeds leaves neither the account, nor a grant of it, nor a live
-- channel of it; the sealed keys in the table of channels are all as they were.
pub delete_user_ok :
    (id : ℤ) (w v : World)
    → delete_user id w ≡ (ok tt, v)
    → (count (λ u. u.id == id) v.users.rows ≡ 0)
      × (count (λ g. g.user_id == id) v.grants.rows ≡ 0)
      × (count (belongs_to id) v.channels.rows ≡ 0)
      × (keys v.channels.rows ≡ keys w.channels.rows)
unfolding delete_user
delete_user_ok id w v h = ground (
  arith,
  count-filter-not (λ (u : User). u.id == id) w.users.rows,
  count-filter-not (λ (g : Grant). g.user_id == id) w.grants.rows,
  none_belongs id w.clock w.channels.rows,
  same_keys (belongs_to id) w.clock w.channels.rows,
)
