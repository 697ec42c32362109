-- ===== src/Model/Channel/Delete.antt =====
-- `SoftDeleteForUser` on every branch.
use modex_cloud.Prelude.{
  ℕ, ◌≡◌, ◌≢◌, refl, true, false, not, List, [], ◌∷◌, filter, count, map_where, ◌==◌, arith,
  Bool-cases, inl, inr, map_where_none,
}
use modex_cloud.Prelude.Int.{ℤ, int_eq}
use modex_cloud.Model.Schema.{Channel}
use modex_cloud.Model.World.{World, Result, ok, err}
use modex_cloud.Model.Channel.{owned, selects, as_deleted, soft_delete_for_user}

-- The rows of everyone else.
abbrev pub rows_of_others : ℤ → List Channel → List Channel
rows_of_others user rows = filter (λ r. not (r.user_id == user)) rows

owned-as_deleted : (id user : ℤ) (now : ℕ) (r : Channel) → owned id user (as_deleted now r) ≡ false
unfolding owned selects as_deleted
owned-as_deleted id user now r = refl

user_id-as_deleted : (now : ℕ) (r : Channel) → (as_deleted now r).user_id ≡ r.user_id
unfolding as_deleted
user_id-as_deleted now r = refl

owned_user : (id user : ℤ) (r : Channel) → owned id user r ≡ true → (r.user_id == user) ≡ true
unfolding owned
owned_user id user r h = ground arith

none_owned :
    (id user : ℤ) (now : ℕ) (rows : List Channel)
    → count (owned id user) (map_where (owned id user) (as_deleted now) rows) ≡ 0
none_owned id user now [] = refl
none_owned id user now (r ∷ rs) =
    ground (arith, none_owned id user now rs, owned-as_deleted id user now r)

others_kept :
    (id user : ℤ) (now : ℕ) (rows : List Channel)
    → rows_of_others user (map_where (owned id user) (as_deleted now) rows)
      ≡ rows_of_others user rows
others_kept id user now [] = refl
others_kept id user now (r ∷ rs) = elim (Bool-cases (owned id user r)) [
  | inl e ↦
      ground (arith, others_kept id user now rs, owned_user id user r e, user_id-as_deleted now r)
  | inr e ↦ ground (arith, others_kept id user now rs)
]

-- How a deletion of a user's channel ends.
abbrev pub Deletes : ℤ → ℤ → List Channel → Result (Unit {0}) × World → Type 0
Deletes id user rows (ok _, w) =
    (count (owned id user) rows ≢ 0)
    × (count (owned id user) w.channels.rows ≡ 0)
    × (rows_of_others user w.channels.rows ≡ rows_of_others user rows)
Deletes id user rows (err _, w) = w.channels.rows ≡ rows

-- A deletion of a supplier's channel that succeeds had a live channel of theirs with that id,
-- leaves none, and keeps the rows of all other users; one that fails changes no row.
pub soft_delete_for_user-Deletes :
    (id user : ℤ) (w : World) → Deletes id user w.channels.rows (soft_delete_for_user id user w)
unfolding soft_delete_for_user
soft_delete_for_user-Deletes id user w = ground (
  arith,
  none_owned id user w.clock w.channels.rows,
  others_kept id user w.clock w.channels.rows,
  map_where_none (owned id user) (as_deleted w.clock) w.channels.rows,
)
