-- ===== src/Validate.antt =====
-- service/validate/validate.go: whether an upload is allowed by the platform and by the grant.
-- `net/url` and the quoting of `%q` are parameters.
pub mod Spec
pub mod Models
pub mod Tests
use modex_cloud.Prelude.{
  Bool, true, false, ◌&&◌, ◌||◌, not, Option, none, some, List, [], ◌∷◌, ◌++◌, any, find, filter,
  if◌then◌else◌, ◌==◌, text_eq,
}
use modex_cloud.Prelude.Int.{ℤ, int_eq}
use modex_cloud.Text.{Text, text, trim_space, join, has_prefix, itoa}
use modex_cloud.Json.{decode_list}
use modex_cloud.Constant.{is_supported_channel_type, channel_type_name}
use modex_cloud.Model.Schema.{Platform, Grant}
use modex_cloud.Model.Platform.{Codecs}

pub record ChannelInput : Type 0 where
  pub platform_id : ℤ
  pub type : ℤ
  pub models : List Text
  pub group : Text
  pub base_url : Text

-- `Result`
pub record Normalized : Type 0 where
  pub models_csv : Text
  pub group : Text
  pub base_url : Text

-- The formatted errors of the package.
pub data Violation : Type 0 where
  type_not_supported type_not_permitted : ℤ → Violation
  model_required : Violation
  model_not_permitted group_not_permitted : Text → Violation
  url_invalid url_not_https : Violation
  url_not_listed : Text → Violation

pub data Checked : Type 0 where
  accepted : Normalized → Checked
  rejected : Violation → Checked

pub record Url : Type 0 where
  pub scheme : Text
  pub host : Text

pub record Std : Type 0 where
  pub parse_url : Text → Option Url
  pub quote : Text → Text

unfoldable pub violation_text : Std → Violation → Text
violation_text std (type_not_supported t) =
    text "channel type " ++ (itoa t ++ text " is not supported")
violation_text std (type_not_permitted t) =
    text "channel type "
    ++ (itoa t
        ++ (text " (" ++ (channel_type_name t ++ text ") is not permitted on this platform")))
violation_text std model_required = text "at least one model is required"
violation_text std (model_not_permitted m) =
    text "model " ++ (std.quote m ++ text " is not permitted on this platform")
violation_text std (group_not_permitted g) =
    text "group " ++ (std.quote g ++ text " is not permitted on this platform")
violation_text std url_invalid = text "base_url is not a valid absolute URL"
violation_text std url_not_https = text "base_url must use https"
violation_text std (url_not_listed u) =
    text "base_url " ++ (std.quote u ++ text " is not in the platform allow-list")

-- A Go map with `true` for its members, as the membership test.
unfoldable pub to_int_set : List ℤ → ℤ → Bool
to_int_set xs n = any (λ x. x == n) xs

unfoldable pub to_str_set : List Text → Text → Bool
to_str_set xs s = any (λ x. trim_space x == s) xs

unfoldable pub intersect_ints : List ℤ → List ℤ → List ℤ
unfolding to_int_set
intersect_ints a b = filter (to_int_set b) a

unfoldable pub intersect_strings : List Text → List Text → List Text
unfolding to_str_set
intersect_strings a b = filter (λ x. to_str_set b (trim_space x)) a

abbrev pub is_nil {ℓ} : {A : Type ℓ} → List A → Bool
is_nil [] = true
is_nil (x ∷ xs) = false

-- The first loop of `normalizeModels`, with the models seen so far.
normalize_from : List Text → List Text → List Text
normalize_from seen [] = []
normalize_from seen (m ∷ ms) =
    let t = trim_space m in
    let skipped = normalize_from seen ms in
    let kept = t ∷ normalize_from (t ∷ seen) ms in
    if t == [] || any (λ s. s == t) seen then skipped else kept

unfoldable pub normalize_models : List Text → List Text
unfolding normalize_from
normalize_models ms = normalize_from [] ms

pub record Effective : Type 0 where
  pub types : ℤ → Bool
  pub models : Text → Bool
  pub groups : Text → Bool
  pub bases : List Text
  pub types_unrestricted : Bool
  pub models_unrestricted : Bool
  pub groups_unrestricted : Bool

-- The list of a grant, empty where there is no grant.
abbrev pub granted {ℓ} : {A : Type ℓ} → (Grant → List A) → Option Grant → List A
granted f none = []
granted f (some g) = f g

unfoldable pub validate_base_url : Std → Text → List Text → Option Violation
validate_base_url std base allowed = elim (std.parse_url base) [
  | none ↦ some url_invalid
  | some u ↦
      if u.scheme == [] || u.host == []
      then some url_invalid
      else if not (u.scheme == text "https")
      then some url_not_https
      else if is_nil allowed
      then none
      else if any (λ a. has_prefix base (trim_space a)) allowed
      then none
      else some (url_not_listed base)
]

module _ (codecs : Codecs) where
  unfoldable pub compute_effective : Platform → Option Grant → Effective
  compute_effective platform grant =
      let p_types = decode_list codecs.ints platform.allowed_types in
      let p_models = decode_list codecs.texts platform.allowed_models in
      let p_groups = decode_list codecs.texts platform.allowed_groups in
      let g_types = granted (λ g. decode_list codecs.ints g.allowed_types) grant in
      let g_models = granted (λ g. decode_list codecs.texts g.allowed_models) grant in
      let g_groups = granted (λ g. decode_list codecs.texts g.allowed_groups) grant in
      let types = if is_nil g_types then p_types else intersect_ints p_types g_types in
      let models = if is_nil g_models then p_models else intersect_strings p_models g_models in
      let groups = if is_nil g_groups then p_groups else intersect_strings p_groups g_groups in
      record {
        types = to_int_set types;
        models = to_str_set models;
        groups = to_str_set groups;
        bases = decode_list codecs.texts platform.base_url_allow;
        types_unrestricted = is_nil types && is_nil g_types;
        models_unrestricted = is_nil models && is_nil g_models;
        groups_unrestricted = is_nil groups && is_nil g_groups;
      }

-- The checks of `ChannelUpload` behind those of the type, on the effective whitelist.
unfoldable pub check_models : Effective → List Text → Option Violation
check_models eff [] = some model_required
check_models eff (m ∷ ms) =
    if eff.models_unrestricted then none else elim (find (λ n. not (eff.models n)) (m ∷ ms)) [
      | none ↦ none
      | some bad ↦ some (model_not_permitted bad)
    ]

unfoldable pub check_type : Effective → ℤ → Option Violation
check_type eff t =
    if not eff.types_unrestricted && not (eff.types t) then some (type_not_permitted t) else none

unfoldable pub check_group : Effective → Text → Option Violation
check_group eff group =
    if not eff.groups_unrestricted && (not (group == []) && not (eff.groups group))
    then some (group_not_permitted group)
    else none

unfoldable pub check_base : Std → Effective → Text → Option Violation
check_base std eff base = if base == [] then none else validate_base_url std base eff.bases

-- `if err := …; err != nil { return nil, err }`
abbrev pub ◌then_check◌ : Option Violation → Checked → Checked
◌then_check◌ none rest = rest
◌then_check◌ (some v) rest = rejected v

infixr 5 ◌then_check◌
unfoldable pub check_supported : ℤ → Option Violation
check_supported t = if is_supported_channel_type t then none else some (type_not_supported t)

unfoldable pub channel_upload : Codecs → Std → ChannelInput → Platform → Option Grant → Checked
channel_upload codecs std input platform grant =
    let eff = compute_effective codecs platform grant in
    let models = normalize_models input.models in
    let group = trim_space input.group in
    let base = trim_space input.base_url in
    check_supported input.type
    then_check check_type eff input.type
    then_check check_models eff models
    then_check check_group eff group
    then_check check_base std eff base
    then_check accepted
        (record { models_csv = join models (text ","); group = group; base_url = base })
