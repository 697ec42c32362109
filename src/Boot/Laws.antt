-- ===== src/Boot/Laws.antt =====
-- A first start leaves an account that can log in.
use modex_cloud.Prelude.{
  ◌≡◌, ◌≢◌, inl, inr, Bool, true, some, Option, [], ◌==◌, text_eq, arith, sym, ◌∙◌, Bool-cases,
  text_beq_iff,
}
use modex_cloud.Prelude.Int.{int_eq}
use modex_cloud.Text.{Text, text}
use modex_cloud.Constant.{role_root, status_enabled}
use modex_cloud.Crypto.{Primitives, new_from_hex}
use modex_cloud.Model.Schema.{User}
use modex_cloud.Model.World.{IsQuiet, World, ok}
use modex_cloud.Model.User.{Bcrypt}
use modex_cloud.Middleware.Auth.{Session}
use modex_cloud.Controller.Flow.{Context, api_success}
use modex_cloud.Controller.Account.{login, session_of, user_json}
use modex_cloud.Controller.Account.Laws.ChangePassword.{Verifies, enters_lem}
use modex_cloud.Config.{Config, load, checked, of_env, env_str}
use modex_cloud.Config.DotEnv.{Env, File, getenv, load_dot_env}
use modex_cloud.Boot.Init.{Gorm, init}
use modex_cloud.Boot.Seed.{seed_root_user}
use modex_cloud.Boot.Seed.Laws.{seeded_lem, password_of, Result-cases}
use modex_cloud.Boot.{Started, started, boot}

admin_lem : text "admin" ≢ []
unfolding text
admin_lem = λ z. ground arith

module _ (prim : Primitives) (bcrypt : Bcrypt) (gorm : Gorm) where
  -- A start that succeeds has read a configuration, has made its vault and has seeded the database.
  started_lem :
      (file : Option File) (env : Env) (w v : World) (s : Started)
      → boot prim bcrypt gorm file env w ≡ (started s, v)
      → (load file env ≡ (ok s.config, load_dot_env file env))
        × (new_from_hex prim s.config.master_kek_hex ≡ ok s.vault)
        × (seed_root_user bcrypt s.config.root_username s.config.root_password w ≡ (ok s.seeded, v))
  unfolding boot load
  started_lem file env w v s h = elim (Result-cases (checked (of_env (load_dot_env file env)))) [
    | inl (e, c) ↦ ground arith
    | inr (c, e) ↦ elim (Result-cases (new_from_hex prim c.master_kek_hex)) [
      | inl (e', k) ↦ ground arith
      | inr (vault, k) ↦
          elim (Result-cases (init gorm (getenv (load_dot_env file env) (text "SQL_DSN")))) [
            | inl (e', o) ↦ ground arith
            | inr (d', o) ↦
                elim (Result-cases (seed_root_user bcrypt c.root_username c.root_password w).0) [
                  | inl (e', d) ↦ ground arith
                  | inr (seeded, d) ↦ ground arith
                ]
          ]
    ]
  ]

  env_str_lem : (env : Env) (key def : Text) → def ≢ [] → env_str env key def ≢ []
  unfolding env_str
  env_str_lem env key def n = elim (Bool-cases (getenv env key == [])) [
    | inl e ↦ ground arith
    | inr e ↦ ground (arith, text_beq_iff (getenv env key) [])
  ]

  named_lem :
      (file : Option File) (env env' : Env) (c : Config)
      → load file env ≡ (ok c, env')
      → c.root_username ≢ []
  unfolding load of_env checked
  named_lem file env env' c h =
      let e : c.root_username
          ≡ env_str (load_dot_env file env) (text "ROOT_USERNAME") (text "admin") =
        ground arith in
      let n = env_str_lem (load_dot_env file env) (text "ROOT_USERNAME") (text "admin") admin_lem in
      λ z. n (sym e ∙ z)

  -- Where bcrypt verifies what it has hashed, no statement fails and every cookie can be written:
  -- after a start on a table without accounts that succeeds, a login with the configured name and
  -- the configured password, or the generated one where none is configured, is answered with
  -- success, for an account that is root.
  pub login-boot :
      (saves : Session → Bool) (file : Option File) (env : Env) (w v : World) (st : Started)
      (c : Context) (s : Session)
      → Verifies bcrypt
      → IsQuiet w
      → w.users.rows ≡ []
      → ((t : Session) → saves t ≡ true)
      → boot prim bcrypt gorm file env w ≡ (started st, v)
      → (u : User) × (u.role ≡ role_root)
        × ((login bcrypt saves c
              (some (record {
                username = st.config.root_username;
                password = password_of st.config.root_password st.seeded;
              }))
              s
              v).0
            ≡ (api_success (user_json u), session_of u))
  login-boot saves file env w v st c s law q e k h =
      let (loaded, _, seeding) = started_lem file env w v st h in
      let name = st.config.root_username in
      let plain = password_of st.config.root_password st.seeded in
      let (u, root, rows, quiet, filled) =
        seeded_lem bcrypt name st.config.root_password w v st.seeded q e seeding in
      let (d, made) = root.3 in
      let named = named_lem file env (load_dot_env file env) st.config loaded in
      (
        u,
        root.1,
        enters_lem bcrypt saves c name plain u s v quiet
            (ground (arith, text_beq_iff name [], text_beq_iff plain []))
            (ground (arith, text_beq_iff u.username name)) (law d plain u.password made)
            (λ z. let enabled : u.status ≡ status_enabled = root.2 in ground arith)
            (k (session_of u)),
      )
