-- ===== src/Controller/SupplierChannel/Reads.antt =====
-- The steps of the handlers of controller/supplier_channel.go that change no channel: they keep every
-- property of the channels.
use modex_cloud.Prelude.{none, some, ℕ, zero, suc, ◌+◌, Option, arith}
use modex_cloud.Prelude.Int.{ℤ}
use modex_cloud.Text.{Text}
use modex_cloud.Crypto.{Vault, seal}
use modex_cloud.Model.Schema.{Platform, Grant, AuditLog}
use modex_cloud.Model.World.{World, tick, Error, first, query, Action}
use modex_cloud.Model.World.Keeps.{
  Keeps, Keeps-first, Keeps-query, Keeps->>=, Keeps-if, Keeps-pure, keeps_rules,
}
use modex_cloud.Model.Channel.Rows.{SameRows, SameRows-tick}
use modex_cloud.Model.Grant.{get_grant}
use modex_cloud.Model.Audit.{write_audit}
use modex_cloud.Model.Channel.{
  list_channels_for_user, fingerprint_exists_for_user, count_channels_for_user_platform,
  next_channel_seq, channel_name_exists,
}
use modex_cloud.Validate.{
  ChannelInput, Checked, accepted, rejected, channel_upload, violation_text, Normalized,
}
use modex_cloud.Model.Platform.{get_platform_by_id}
use modex_cloud.Controller.Flow.{Context, next, replied, api_error}
use modex_cloud.Controller.Flow.Keeps.{FlowKeeps, flow_rules}
use modex_cloud.Controller.SupplierChannel.{
  Deps, Cache, cached, load_cached, authorize_platform, probe_name, generate_channel_name,
  dispatch_sync, admin_audit_as, check_upload, check_limit, count_limit,
}

-- A property that looks at the rows of the channels, platforms, grants and accounts only.
module _ {P : World → Type 0} (same : (v w : World) → SameRows v w → P v → P w) where
  ticks : (w : World) → P w → P (tick w)
  ticks w h = same w _ (SameRows-tick w) h

  first_platform-Keeps : (f : World → Option Platform) (missing : Error) → Keeps P (first f missing)
  first_platform-Keeps f missing = Keeps-first ticks f missing

  pub get_platform-Keeps : (id : ℤ) → Keeps P (get_platform_by_id id)
  unfolding get_platform_by_id
  get_platform-Keeps id = search (keeps_rules, first_platform-Keeps)

  pub seal-Keeps : (v : Vault) (p : Text) → Keeps P (seal v p)
  unfolding seal
  seal-Keeps v p = record { at = λ w h. same w _ (ground arith) h }

  pub query-Keeps : {A : Type 0} (f : World → A) → Keeps P (query f)
  query-Keeps f = Keeps-query ticks f

  pub get_grant-Keeps : (user platform : ℤ) → Keeps P (get_grant user platform)
  unfolding get_grant
  get_grant-Keeps user platform = Keeps-first ticks _ _

  pub write_audit-Keeps : (e : AuditLog) → Keeps P (write_audit e)
  unfolding write_audit
  write_audit-Keeps e = record { at = λ w h. same w _ (ground arith) h }

  pub dispatch_sync-Keeps : (id : ℤ) → Keeps P (dispatch_sync id)
  unfolding dispatch_sync
  dispatch_sync-Keeps id = record { at = λ w h. same w _ (ground arith) h }

  pub next_channel_seq-Keeps : (user platform : ℤ) → Keeps P (next_channel_seq user platform)
  unfolding next_channel_seq
  next_channel_seq-Keeps user platform = search (keeps_rules, query-Keeps)

  pub channel_name_exists-Keeps :
      (user platform : ℤ) (name : Text) → Keeps P (channel_name_exists user platform name)
  unfolding channel_name_exists
  channel_name_exists-Keeps user platform name = search (keeps_rules, query-Keeps)

  pub fingerprint_exists-Keeps :
      (user platform : ℤ) (fp : Text) → Keeps P (fingerprint_exists_for_user user platform fp)
  unfolding fingerprint_exists_for_user
  fingerprint_exists-Keeps user platform fp = search (keeps_rules, query-Keeps)

  pub count_channels-Keeps :
      (user platform : ℤ) → Keeps P (count_channels_for_user_platform user platform)
  unfolding count_channels_for_user_platform
  count_channels-Keeps user platform = search (keeps_rules, query-Keeps)

  pub list_channels_for_user-Keeps :
      (user platform : ℤ) (offset limit : ℕ)
      → Keeps P (list_channels_for_user user platform offset limit)
  unfolding list_channels_for_user
  list_channels_for_user-Keeps user platform offset limit = search (keeps_rules, query-Keeps)

  pub authorize_platform-Keeps : (user id : ℤ) → Keeps P (authorize_platform user id)
  unfolding authorize_platform
  authorize_platform-Keeps user id = search (keeps_rules, get_platform-Keeps, get_grant-Keeps)

  pub probe_name-Keeps :
      (user platform : ℤ) (build : ℕ → Text) (seq rounds n : ℕ)
      → Keeps P (probe_name user platform build seq rounds n)
  unfolding probe_name
  probe_name-Keeps user platform build seq zero n = search keeps_rules
  probe_name-Keeps user platform build seq (suc rounds) n =
      Keeps->>= _ _ (channel_name_exists-Keeps user platform (build n)) (λ b.
        Keeps-if b _ _ (probe_name-Keeps user platform build seq rounds (n + 1)) (Keeps-pure _))

  pub generate_channel_name-Keeps :
      (user platform : ℤ) (username prefix group : Text)
      → Keeps P (generate_channel_name user platform username prefix group)
  unfolding generate_channel_name
  generate_channel_name-Keeps user platform username prefix group =
      search (keeps_rules, next_channel_seq-Keeps, probe_name-Keeps)

  pub admin_audit_as-Keeps :
      (c : Context) (user : ℤ) (action resource : Text) (id : ℤ)
      → Keeps P (admin_audit_as c user action resource id)
  unfolding admin_audit_as
  admin_audit_as-Keeps c user action resource id = search (write_audit-Keeps)

  Keeps-cases :
      {A B : Type 0} {f : A → Action B} {n : Action B} (o : Option A)
      → ((a : A) → Keeps P (f a))
      → Keeps P n
      → Keeps P (elim o [ some a ↦ f a | none ↦ n ])
  Keeps-cases none kf kn = kn
  Keeps-cases (some a) kf kn = kf a

  pub load_cached-Keeps : (id : ℤ) (cache : Cache) → Keeps P (load_cached id cache)
  unfolding load_cached
  load_cached-Keeps id cache =
      Keeps-cases (cached id cache) (λ p. Keeps-pure _) (search (keeps_rules, get_platform-Keeps))

  module _ (deps : Deps) where
    pub check_upload-Keeps :
        (input : ChannelInput) (platform : Platform) (grant : Grant)
        → FlowKeeps P (check_upload deps input platform grant)
    unfolding check_upload
    check_upload-Keeps input platform grant =
        kept (channel_upload deps.codecs deps.std input platform (some grant))
      where
        kept :
            (r : Checked)
            → FlowKeeps {A = Normalized} P (λ w. elim r [
              | accepted res ↦ (next res, w)
              | rejected v ↦ (replied (api_error 400 (violation_text deps.std v)), w)
            ])
        kept (accepted res) = record { at = λ w h. h }
        kept (rejected v) = record { at = λ w h. h }

    count_limit-Keeps :
        (user platform : ℤ) (grant : Grant) → FlowKeeps P (count_limit deps user platform grant)
    unfolding count_limit
    count_limit-Keeps user platform grant = search (flow_rules, count_channels-Keeps)

    pub check_limit-Keeps :
        (user platform : ℤ) (grant : Grant) → FlowKeeps P (check_limit deps user platform grant)
    unfolding check_limit
    check_limit-Keeps user platform grant = search (flow_rules, count_limit-Keeps)

pub ruleset read_rules = (
  seal-Keeps, write_audit-Keeps, dispatch_sync-Keeps, fingerprint_exists-Keeps,
  count_channels-Keeps, list_channels_for_user-Keeps, authorize_platform-Keeps,
  generate_channel_name-Keeps, admin_audit_as-Keeps,
)
