-- ===== src/Controller/Admin/Consistent/Accounts.antt =====
-- The statements on accounts behind the handlers, one by one.
use modex_cloud.Prelude.{
  ℕ, any, refl, Bool, not, List, filter, map_where, All, All-append, All-filter, All-map_where,
  if◌then◌else◌, ◌==◌, arith,
}
use modex_cloud.Prelude.Int.{ℤ, pos, int_eq}
use modex_cloud.Text.{Text}
use modex_cloud.Constant.{status_enabled}
use modex_cloud.Model.Schema.{User}
use modex_cloud.Model.World.{World, Action, exec, exec_unique, pure, ◌>>◌}
use modex_cloud.Model.World.Keeps.{
  Keeps, Keeps-exec, Keeps-exec_unique, Keeps->>=, Keeps-pure, keeps_rules,
}
use modex_cloud.Model.Channel.{on_channels, as_deleted}
use modex_cloud.Model.Invariant.Channels.{IsValid-same, IsValid-map_where}
use modex_cloud.Model.User.{
  Bcrypt, on_users, insert_user, clashes, password2hash, update_password, update_profile,
  delete_user, belongs_to, touch_login,
}
use modex_cloud.Model.User
use modex_cloud.Controller.Admin.Consistent.{IsConsistent, IsConsistent-tick, HasValidRole}
use modex_cloud.Controller.Admin.Consistent.Statements.{
  same_tables, now_unix-Keeps, exec_grants-Keeps,
}

exec_users-Keeps :
    (f : List User → List User)
    → ((us : List User) → All HasValidRole us → All HasValidRole (f us))
    → Keeps IsConsistent (exec (on_users f))
exec_users-Keeps f keep = Keeps-exec IsConsistent-tick _ (λ w h. record {
  channels = IsValid-same w _ refl h.channels;
  grants = record { once = h.grants.once };
  users = record { valid = keep w.users.rows h.users.valid };
})

mark_deleted-Keeps :
    (id : ℤ) (now : ℕ)
    → Keeps IsConsistent (exec (on_channels (map_where (belongs_to id) (as_deleted now))))
unfolding as_deleted
mark_deleted-Keeps id now = Keeps-exec IsConsistent-tick _ (λ w h. record {
  channels = IsValid-map_where (belongs_to id) (as_deleted now) (λ r. refl) (λ r k. k) w h.channels;
  grants = record { once = h.grants.once };
  users = record { valid = h.users.valid };
})

remove_user-Keeps : (id : ℤ) → Keeps IsConsistent (exec (on_users (filter (λ u. not (u.id == id)))))
remove_user-Keeps id =
    exec_users-Keeps _ (λ us h. All-filter HasValidRole (λ u. not (u.id == id)) us h)

pub delete_user-Keeps : (id : ℤ) → Keeps IsConsistent (delete_user id)
unfolding delete_user
delete_user-Keeps id =
    search (keeps_rules, now_unix-Keeps, exec_grants-Keeps, mark_deleted-Keeps, remove_user-Keeps)

-- An update of accounts that leaves the role, or gives a valid one.
map_users-Keeps :
    (p : User → Bool) (f : User → User)
    → ((u : User) → HasValidRole u → HasValidRole (f u))
    → Keeps IsConsistent (exec (on_users (map_where p f)))
map_users-Keeps p f k = exec_users-Keeps _ (λ us h. All-map_where HasValidRole p f k us h)

module _ (bcrypt : Bcrypt) where
  password2hash-Keeps : (plain : Text) → Keeps IsConsistent (password2hash bcrypt plain)
  unfolding password2hash
  password2hash-Keeps plain = same_tables _ (λ w. ground arith)

  pub update_password-Keeps :
      (u : User) (plain : Text) → Keeps IsConsistent (update_password bcrypt u plain)
  unfolding update_password
  update_password-Keeps u plain = Keeps->>= _ _ (password2hash-Keeps plain) (λ hashed.
      map_users-Keeps (λ r. r.id == u.id) (λ r. record r { password = hashed }) (λ r h. h))

pub update_profile-Keeps : (u : User) → HasValidRole u → Keeps IsConsistent (update_profile u)
unfolding update_profile
update_profile-Keeps u k =
    map_users-Keeps (λ r. r.id == u.id)
      (λ r. record r {
        role = u.role;
        status = u.status;
        supplier_code = u.supplier_code;
        supplier_name = u.supplier_name;
      })
      (λ r h. k)

pub touch_login-Keeps : (user : ℤ) (ip : Text) → Keeps IsConsistent (touch_login user ip)
unfolding touch_login
touch_login-Keeps user ip = Keeps->>= _ _ now_unix-Keeps (λ now.
    map_users-Keeps (λ u. u.id == user)
      (λ u. record u { last_login_time = now; last_login_ip = ip }) (λ r h. h))

-- A new account behind the unique indices.
append_user-Keeps :
    (clash : World → Bool) (u : User)
    → HasValidRole u
    → Keeps IsConsistent (exec_unique clash (insert_user u))
append_user-Keeps clash u k =
    Keeps-exec_unique IsConsistent-tick _
      (λ w h. record {
        channels = IsValid-same w _ refl h.channels;
        grants = record { once = h.grants.once };
        users = record { valid = All-append HasValidRole w.users.rows u h.users.valid k };
      })
      clash

-- The row with its hash, its time and its status.
abbrev hashed_row : User → Text → ℕ → User
hashed_row u hashed now = record u {
  password = hashed;
  created_time = now;
  status = if u.status == pos 0 then status_enabled else u.status;
}

-- The insert with the id that the table hands out.
abbrev insert_row : User → Action User
insert_row row w =
    let inserted = record row { id = pos w.users.next } in
    (exec_unique (λ v. any (clashes inserted) v.users.rows) (insert_user inserted) >> pure inserted)
      w

insert_row-Keeps : (row : User) → HasValidRole row → Keeps IsConsistent (insert_row row)
insert_row-Keeps row k = record {
  at = λ w h.
      let inserted = record row { id = pos w.users.next } in
      (Keeps->>= _ _ (append_user-Keeps (λ v. any (clashes inserted) v.users.rows) inserted k)
          (λ _. Keeps-pure inserted)).at
        w h;
}

pub create_user-Keeps :
    (bcrypt : Bcrypt) (u : User) (plain : Text)
    → HasValidRole u
    → Keeps IsConsistent (User.create bcrypt u plain)
unfolding User.create
create_user-Keeps bcrypt u plain k =
    Keeps->>= _ _ (password2hash-Keeps bcrypt plain)
      (λ hashed. Keeps->>= _ _ now_unix-Keeps (λ now. insert_row-Keeps (hashed_row u hashed now) k))
