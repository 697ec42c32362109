-- ===== src/Model/User.antt =====
-- model/user.go: admin and supplier accounts. Package bcrypt is a parameter.
pub mod Delete
use modex_cloud.Prelude.{
  ℕ, ◌+◌, Bool, true, false, ◌||◌, Option, none, some, List, [], ◌∷◌, ◌++◌, reverse, take, drop,
  find, filter, count, any, not, map_where, if◌then◌else◌, ◌==◌, text_eq, ◌&&◌,
}
use modex_cloud.Prelude.Int.{ℤ, pos, int_eq, ltb_ℤ, leb_ℤ}
use modex_cloud.Text.{Text, text}
use modex_cloud.Constant.{role_supplier, role_admin, status_enabled}
use modex_cloud.Model.Schema.{Channel, User}
use modex_cloud.Model.World.{
  World, user_not_found, errorf, Action, pure, raise, ◌>>=◌, ◌>>◌, query, exec, exec_unique, first,
  now_unix,
}
use modex_cloud.Model.Channel.{is_live, on_channels, as_deleted}
use modex_cloud.Model.Grant.{on_grants}

-- `GenerateFromPassword` at the salt of one draw, which refuses some passwords, and
-- `CompareHashAndPassword`.
pub record Bcrypt : Type 0 where
  pub generate : ℕ → Text → Option Text
  pub matches : Text → Text → Bool

unfoldable pub is_admin : User → Bool
is_admin u = leb_ℤ role_admin u.role

unfoldable pub is_supplier : User → Bool
is_supplier u = u.role == role_supplier

abbrev pub on_users : (List User → List User) → World → World
on_users f w = record w { users = record { rows = f w.users.rows; next = w.users.next } }

abbrev pub same_token : Option Text → Option Text → Bool
same_token (some s) (some t) = s == t
same_token _ _ = false

-- The unique indices on the name and on the token, where NULL tokens do not clash.
unfoldable pub clashes : User → User → Bool
clashes u r = r.username == u.username || same_token r.access_token u.access_token

abbrev pub insert_user : User → World → World
insert_user u w = record w {
  users = record { rows = w.users.rows ++ u ∷ []; next = w.users.next + 1 };
}

module _ (bcrypt : Bcrypt) where
  -- `Password2Hash`
  unfoldable pub password2hash : Text → Action Text
  password2hash plain w =
      let w' = record w { draws = w.draws + 1 } in
      elim (bcrypt.generate w.draws plain) [
        | some h ↦ pure h w'
        | none ↦ raise (errorf (text "bcrypt: password length exceeds 72 bytes")) w'
      ]

  unfoldable pub create : User → Text → Action User
  unfolding password2hash
  create u plain = do
    hashed ← password2hash plain
    now ← now_unix
    let row = record u {
      password = hashed;
      created_time = now;
      status = if u.status == pos 0 then status_enabled else u.status;
    }
    λ w.
        let inserted = record row { id = pos w.users.next } in
        (exec_unique (λ v. any (clashes inserted) v.users.rows) (insert_user inserted)
            >> pure inserted)
          w

  unfoldable pub update_password : User → Text → Action (Unit {0})
  unfolding password2hash
  update_password u plain = do
    hashed ← password2hash plain
    exec (on_users (map_where (λ r. r.id == u.id) (λ r. record r { password = hashed })))

unfoldable pub get_user_by_id : ℤ → Action User
get_user_by_id id =
    if id == pos 0
    then raise user_not_found
    else first (λ w. find (λ u. u.id == id) w.users.rows) user_not_found

unfoldable pub get_user_by_username : Text → Action User
get_user_by_username name = first (λ w. find (λ u. u.username == name) w.users.rows) user_not_found

unfoldable pub validate_access_token : Text → Action User
validate_access_token token =
    if token == []
    then raise user_not_found
    else first (λ w. find (λ u. same_token u.access_token (some token)) w.users.rows) user_not_found

unfoldable pub touch_login : ℤ → Text → Action (Unit {0})
touch_login user ip = do
  now ← now_unix
  exec (
      on_users (
        map_where (λ u. u.id == user)
          (λ u. record u { last_login_time = now; last_login_ip = ip })))

unfoldable pub has_role : ℤ → User → Bool
has_role role u = if ltb_ℤ (pos 0) role then u.role == role else true

unfoldable pub list_users : ℤ → ℕ → ℕ → Action (List User × ℕ)
list_users role offset limit = do
  total ← query (λ w. count (has_role role) w.users.rows)
  us ← query (λ w. take limit (drop offset (reverse (filter (has_role role) w.users.rows))))
  pure (us, total)

unfoldable pub update_profile : User → Action (Unit {0})
update_profile u = exec (
    on_users (
      map_where (λ r. r.id == u.id)
        (λ r. record r {
          role = u.role;
          status = u.status;
          supplier_code = u.supplier_code;
          supplier_name = u.supplier_name;
        })))

unfoldable pub set_access_token : User → Text → Action (Unit {0})
set_access_token u token =
    exec_unique
      (λ w. any (λ r. not (r.id == u.id) && same_token r.access_token (some token)) w.users.rows)
      (on_users (map_where (λ r. r.id == u.id) (λ r. record r { access_token = some token })))

unfoldable pub belongs_to : ℤ → Channel → Bool
belongs_to user r = is_live r && r.user_id == user

-- `Delete(&Channel{})` is a soft deletion, since the struct has a `DeletedAt`.
unfoldable pub delete_user : ℤ → Action (Unit {0})
delete_user id = do
  exec (on_grants (filter (λ g. not (g.user_id == id))))
  now ← now_unix
  exec (on_channels (map_where (belongs_to id) (as_deleted now)))
  exec (on_users (filter (λ u. not (u.id == id))))
