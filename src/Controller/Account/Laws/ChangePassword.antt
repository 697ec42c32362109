-- ===== src/Controller/Account/Laws/ChangePassword.antt =====
-- A changed password is the one that counts.
use modex_cloud.Prelude.{
  ℕ, ◌+◌, ◌≡◌, ◌≢◌, refl, ◌⊎◌, inl, inr, Bool, true, false, ◌||◌, not, Option, none, some, List, [],
  ◌∷◌, find, find-map_where, map_where, length, ltb, if◌then◌else◌, ◌==◌, text_eq, arith,
  Bool-cases, Option-cases, ap, sym, ◌∙◌, text_beq_iff,
}
use modex_cloud.Prelude.Int.{ℤ, pos, int_eq, int_beq_iff}
use modex_cloud.Text.{Text}
use modex_cloud.Constant.{status_disabled}
use modex_cloud.Model.Schema.{User}
use modex_cloud.Model.World.{World, IsQuiet, tick, ok}
use modex_cloud.Model.User.{
  Bcrypt, get_user_by_id, get_user_by_username, update_password, password2hash, touch_login,
}
use modex_cloud.Model.Audit.{write_audit}
use modex_cloud.Middleware.Auth.{Session}
use modex_cloud.Controller.Flow.{Context, api_error, api_success}
use modex_cloud.Controller.Account.{
  ChangePasswordRequest, login, change_password, session_of, validate_password_and_hash,
  establish_session, user_json,
}

-- What `CompareHashAndPassword` says of a hash that `GenerateFromPassword` made.
abbrev pub Verifies : Bcrypt → Type 0
Verifies bcrypt = (d : ℕ) (p h : Text) → bcrypt.generate d p ≡ some h → bcrypt.matches h p ≡ true

abbrev hashed_as : Text → User → User
hashed_as h r = record r { password = h }

module _ (bcrypt : Bcrypt) where
  read_lem :
      (id : ℤ) (u : User) (w : World)
      → id ≢ pos 0
      → IsQuiet w
      → find (λ r. r.id == id) w.users.rows ≡ some u
      → get_user_by_id id w ≡ (ok u, tick w)
  unfolding get_user_by_id
  read_lem id u w n q e = ground (arith, int_beq_iff id (pos 0), q w.calls)

  find-hashed :
      (h name : Text) (id : ℤ) (us : List User) (r : User)
      → find (λ x. x.username == name) us ≡ some r
      → find (λ x. x.username == name) (map_where (λ x. x.id == id) (hashed_as h) us)
        ≡ some (if r.id == id then hashed_as h r else r)
  find-hashed h name id [] r e = cc
  find-hashed h name id (x ∷ us) r e = elim (Bool-cases (x.id == id)) [
    | inl i ↦ ground (arith, find-hashed h name id us r)
    | inr i ↦ ground (arith, find-hashed h name id us r)
  ]

  filled_lem :
      (name new : Text) → name ≢ [] → ltb (length new) 8 ≡ false → (name == [] || new == []) ≡ false
  unfolding modex_cloud.Prelude.text_beq
  filled_lem name [] n l = ground arith
  filled_lem [] (x ∷ new) n l = ground arith
  filled_lem (a ∷ name) (x ∷ new) n l = refl

  -- The state after a change that is answered with success.
  Changed : User → Text → World → World → Type 0
  Changed u new w v =
      (h : Text) × (bcrypt.generate w.draws new ≡ some h)
      × (v.users.rows ≡ map_where (λ r. r.id == u.id) (hashed_as h) w.users.rows)
      × IsQuiet v
      × (ltb (length new) 8 ≡ false)

  changed_lem :
      (c : Context) (req : ChangePasswordRequest) (u : User) (w : World)
      → c.user_id ≢ pos 0
      → IsQuiet w
      → find (λ r. r.id == c.user_id) w.users.rows ≡ some u
      → (change_password bcrypt c (some req) w).0.status ≡ 200
      → Changed u req.new_password w (change_password bcrypt c (some req) w).1
  unfolding Changed change_password validate_password_and_hash update_password password2hash
      write_audit api_success api_error
  changed_lem c req u w n q e h =
      let read : get_user_by_id c.user_id w ≡ (ok u, tick w) = read_lem c.user_id u w n q e in
      let q' : w.faults (w.calls) ≡ false = q w.calls in
      elim (Bool-cases (ltb (length req.new_password) 8)) [
        | inl short ↦ ground arith
        | inr long ↦ elim (Bool-cases (bcrypt.matches u.password req.old_password)) [
          | inr m ↦ ground arith
          | inl m ↦ elim (Option-cases (bcrypt.generate w.draws req.new_password)) [
            | inl g ↦ ground arith
            | inr (x, g) ↦ (
              x,
              g,
              ground (arith, q (w.calls + 1), q (w.calls + 1 + 1)),
              λ k. ground (arith, q k),
              long,
            )
          ]
        ]
      ]

  module _ (saves : Session → Bool) where
    pub enters_lem :
        (c : Context) (name new : Text) (u : User) (s : Session) (w : World)
        → IsQuiet w
        → (name == [] || new == []) ≡ false
        → find (λ r. r.username == name) w.users.rows ≡ some u
        → bcrypt.matches u.password new ≡ true
        → u.status ≢ status_disabled
        → saves (session_of u) ≡ true
        → (login bcrypt saves c (some (record { username = name; password = new })) s w).0
          ≡ (api_success (user_json u), session_of u)
    unfolding login establish_session validate_password_and_hash get_user_by_username touch_login
        write_audit
    enters_lem c name new u s w q f e m d k =
        let b : (u.status == status_disabled) ≡ false =
          ground (arith, int_beq_iff u.status status_disabled) in
        ground (arith, q w.calls)

    -- Where bcrypt verifies what it has hashed, no statement fails, the caller's account is enabled
    -- and is the first of its name, and the cookie can be written: after a change of password that
    -- is answered with success, a login with the name and the new password is answered with the
    -- account and its session.
    pub login-change_password :
        (c c' : Context) (req : ChangePasswordRequest) (u : User) (s : Session) (w : World)
        → Verifies bcrypt
        → IsQuiet w
        → c.user_id ≢ pos 0
        → find (λ r. r.id == c.user_id) w.users.rows ≡ some u
        → find (λ r. r.username == u.username) w.users.rows ≡ some u
        → u.username ≢ []
        → u.status ≢ status_disabled
        → saves (session_of u) ≡ true
        → (change_password bcrypt c (some req) w).0.status ≡ 200
        → (login bcrypt saves c'
            (some (record { username = u.username; password = req.new_password }))
            s
            (change_password bcrypt c (some req) w).1).0
          ≡ (api_success (user_json u), session_of u)
    unfolding Changed user_json
    login-change_password c c' req u s w law q n e e' named d k ok200 =
        let (h, made, rows, q', long) = changed_lem c req u w n q e ok200 in
        let v = (change_password bcrypt c (some req) w).1 in
        let same : (u.id == u.id) ≡ true = (int_beq_iff u.id u.id).1 refl in
        let found : find (λ r. r.username == u.username) v.users.rows ≡ some (hashed_as h u) =
          ground (arith, find-hashed h u.username u.id w.users.rows u e') in
        enters_lem c' u.username req.new_password (hashed_as h u) s v q'
          (filled_lem u.username req.new_password named long) found
          (law w.draws req.new_password h made) d k
