-- ===== src/Controller/SupplierChannel/Steps.antt =====
-- controller/supplier_channel.go: the requests, what the handlers are built over, and the steps that
-- they share.
use modex_cloud.Prelude.{ℕ, zero, suc, ◌+◌, [], ◌∷◌, ◌++◌, if◌then◌else◌, ◌==◌, text_eq}
use modex_cloud.Prelude.Int.{ℤ, pos, int_eq}
use modex_cloud.Text.{Text, text, trim_space, join, itoa_ℕ}
use modex_cloud.Constant.{status_disabled}
use modex_cloud.Crypto.{Vault, Primitives}
use modex_cloud.Crypto.Global.{Sealer, sealer_only}
use modex_cloud.Model.Schema.{Platform, Grant}
use modex_cloud.Model.World.{
  World, Error, channel_not_found, errorf, error_text, Action, pure, raise, attempt, Result, ok,
  err,
}
use modex_cloud.Model.World
use modex_cloud.Model.Channel.{next_channel_seq, channel_name_exists}
use modex_cloud.Model.Platform.{Codecs, get_platform_by_id}
use modex_cloud.Model.Grant.{get_grant}
use modex_cloud.Model.Audit.{write_audit}
use modex_cloud.Validate.{Std}
use modex_cloud.Controller.Flow.{Context}

pub record CreateChannelRequest : Type 0 where
  pub platform_id : ℤ
  pub type : ℤ
  pub key : Text
  pub models : Text

pub record UpdateChannelRequest : Type 0 where
  pub key : Text
  pub models : Text

-- What the handlers are built over: the JSON codecs, the parameters of package validate, the
-- cryptographic primitives and the process's vault.
pub record Deps : Type 0 where
  pub codecs : Codecs
  pub std : Std
  pub prim : Primitives
  pub vault : Vault

-- `crypto.GlobalSealer()`, once the process has started.
abbrev pub sealer : Deps → Sealer
sealer deps = sealer_only deps.prim deps.vault

-- `authorizePlatform`
unfoldable pub authorize_platform : ℤ → ℤ → Action (Platform × Grant)
authorize_platform user id =
    attempt (get_platform_by_id id) (λ _. raise (errorf (text "platform not found")))
      (λ platform.
        if platform.status == status_disabled
        then raise (errorf (text "platform is disabled"))
        else attempt (get_grant user id)
            (λ _. raise (errorf (text "you are not authorized to use this platform")))
            (λ grant. pure (platform, grant)))

-- The local function `build` of `generateChannelName`.
unfoldable pub build_name : Text → Text → Text → ℕ → Text
build_name username prefix group n =
    let p = trim_space prefix in
    let g = trim_space group in
    let last = (if g == [] then itoa_ℕ n ∷ [] else g ∷ itoa_ℕ n ∷ []) in
    join (if p == [] then username ∷ last else p ∷ username ∷ last) (text "-")

-- Its loop: at most so many rounds, then the first name again.
unfoldable pub probe_name : ℤ → ℤ → (ℕ → Text) → ℕ → ℕ → ℕ → Action Text
probe_name user platform build seq zero n = pure (build seq)
probe_name user platform build seq (suc rounds) n =
    World.◌>>=◌ (channel_name_exists user platform (build n)) (λ exists.
      if exists then probe_name user platform build seq rounds (n + 1) else pure (build n))

abbrev pub max_probes : ℕ
max_probes = 1000

unfoldable pub generate_channel_name : ℤ → ℤ → Text → Text → Text → Action Text
unfolding probe_name build_name
generate_channel_name user platform username prefix group =
    World.◌>>=◌ (next_channel_seq user platform)
      (λ seq. probe_name user platform (build_name username prefix group) seq max_probes seq)

-- The goroutine of `dispatchSync` is put in the list of jobs, to run at any later time.
unfoldable pub dispatch_sync : ℤ → Action (Unit {0})
dispatch_sync id w = pure tt (record w { jobs = w.jobs ++ id ∷ [] })

-- `adminAuditAs`
unfoldable pub admin_audit_as : Context → ℤ → Text → Text → ℤ → Action (Unit {0})
admin_audit_as c user action resource id = write_audit (record {
  id = pos 0;
  user_id = user;
  username = c.username;
  action = action;
  resource_type = resource;
  resource_id = id;
  detail = [];
  ip = c.client_ip;
  result = text "success";
  created_time = 0;
})
