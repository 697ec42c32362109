-- ===== src/Controller/Admin/User/Laws.antt =====
-- What an update of an account does to its logins.
use modex_cloud.Prelude.{
  ◌≡◌, ◌≢◌, refl, inl, inr, Bool, true, false, ◌&&◌, not, Option, none, some, [], ◌∷◌, List, ℕ, ◌+◌,
  find, map_where, if◌then◌else◌, ◌==◌, text_eq, arith, Bool-cases, ap, sym, ◌∙◌,
}
use modex_cloud.Prelude.Int.{ℤ, pos, int_eq, int_beq_iff}
use modex_cloud.Text.{Text}
use modex_cloud.Constant.{status_disabled, is_valid_role}
use modex_cloud.Model.Schema.{User}
use modex_cloud.Model.World.{World}
use modex_cloud.Model.User.{Bcrypt, get_user_by_id, update_profile}
use modex_cloud.Model.Audit.{write_audit}
use modex_cloud.Middleware.Auth.{Session}
use modex_cloud.Controller.Flow.{Context, path_id, api_error, api_success}
use modex_cloud.Controller.Admin.{admin_audit}
use modex_cloud.Controller.Account.{LoginRequest, login}
use modex_cloud.Controller.Account.Laws.{login_lem}
use modex_cloud.Controller.Admin.User.{UpdateUserRequest, update_user, as_edited}

-- The columns that an update of a profile writes.
abbrev profile_of : User → User → User
profile_of u r = record r {
  role = u.role;
  status = u.status;
  supplier_code = u.supplier_code;
  supplier_name = u.supplier_name;
}

find-profile :
    (e : User) (name : Text) (id : ℤ) (us : List User) (r : User)
    → find (λ x. x.username == name) us ≡ some r
    → find (λ x. x.username == name) (map_where (λ x. x.id == id) (profile_of e) us)
      ≡ some (if r.id == id then profile_of e r else r)
find-profile e name id [] r q = cc
find-profile e name id (x ∷ us) r q = elim (Bool-cases (x.id == id)) [
  | inl i ↦ ground (arith, find-profile e name id us r)
  | inr i ↦ ground (arith, find-profile e name id us r)
]

updated_lem :
    (c : Context) (req : UpdateUserRequest) (id : ℤ) (u : User) (w : World)
    → path_id c ≡ some id
    → find (λ r. r.id == id) w.users.rows ≡ some u
    → (update_user c (some req) w).0.status ≡ 200
    → (update_user c (some req) w).1.users.rows
      ≡ map_where (λ r. r.id == u.id) (profile_of (as_edited req u)) w.users.rows
unfolding update_user get_user_by_id update_profile as_edited write_audit api_success api_error
    admin_audit
updated_lem c req id u w p e h = elim (Bool-cases (id == pos 0)) [
  | inl z ↦ ground arith
  | inr z ↦ elim (Bool-cases (not (req.role == pos 0) && not (is_valid_role req.role))) [
    | inl v ↦ ground arith
    | inr v ↦ elim (Bool-cases (w.faults w.calls)) [
      | inl f ↦ ground arith
      | inr f ↦ elim (Bool-cases (w.faults (w.calls + 1))) [
        | inl g ↦ ground arith
        | inr g ↦ elim (Bool-cases (w.faults (w.calls + 1 + 1))) [
          | inl k ↦ ground arith
          | inr k ↦ ground arith
        ]
      ]
    ]
  ]
]

as_edited-off :
    (req : UpdateUserRequest) (u : User)
    → req.status ≡ status_disabled
    → (as_edited req u).status ≡ status_disabled
unfolding as_edited modex_cloud.Prelude.Int.int_beq
as_edited-off req u off = rw off refl

-- After an update with the status "disabled" that is answered with 200, no login under the name of
-- the account that it was for is answered with 200, where that account is the first of its name.
pub login-update_user :
    (bcrypt : Bcrypt) (saves : Session → Bool) (c c' : Context) (req : UpdateUserRequest) (id : ℤ)
    (u : User) (body : LoginRequest) (s : Session) (w : World)
    → path_id c ≡ some id
    → find (λ r. r.id == id) w.users.rows ≡ some u
    → find (λ r. r.username == u.username) w.users.rows ≡ some u
    → body.username ≡ u.username
    → req.status ≡ status_disabled
    → (update_user c (some req) w).0.status ≡ 200
    → (login bcrypt saves c' (some body) s (update_user c (some req) w).1).0.0.status ≢ 200
login-update_user bcrypt saves c c' req id u body s w p e e' named off ok200 in200 =
    let v = (update_user c (some req) w).1 in
    let rows = updated_lem c req id u w p e ok200 in
    let (req', u', same, found, _, on, _) = login_lem bcrypt saves c' (some body) s v in200 in
    let there = find-profile (as_edited req u) u.username u.id w.users.rows u e' in
    let self : (u.id == u.id) ≡ true = (int_beq_iff u.id u.id).1 refl in
    let taken : find (λ r. r.username == req'.username) v.users.rows
        ≡ some (profile_of (as_edited req u) u) =
      ground arith in
    let shut = as_edited-off req u off in on (ground arith)
