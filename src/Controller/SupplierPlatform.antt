-- ===== src/Controller/SupplierPlatform.antt =====
-- controller/supplier_platform.go: the platforms that a supplier is shown.
pub mod Laws
use modex_cloud.Prelude.{Option, none, some, List, [], ◌∷◌, if◌then◌else◌}
use modex_cloud.Prelude.Int.{ℤ}
use modex_cloud.Text.{Text, text}
use modex_cloud.Wire.{Json, num, str, arr, obj, end, field}
use modex_cloud.Json.{decode_list}
use modex_cloud.Model.Schema.{Platform, Grant}
use modex_cloud.Model.World.{Action, pure, attempt}
use modex_cloud.Model.World
use modex_cloud.Model.Platform.{Codecs, get_platform_by_id}
use modex_cloud.Model.Grant.{list_grants_for_user}
use modex_cloud.Validate.{is_nil}
use modex_cloud.Controller.Flow.{
  Context, Handler, ◌>>=◌, serve, answer, or_reply, api_success, api_error,
}
use modex_cloud.Controller.Admin.{items}

pub record PlatformView : Type 0 where
  pub platform_id : ℤ
  pub name : Text
  pub base_url : Text
  pub status : ℤ
  pub allowed_types : List ℤ
  pub allowed_models : List Text
  pub allowed_groups : List Text
  pub max_channels : ℤ

-- The members of an empty slice and of a nil slice are not told apart.
unfoldable pub platform_view_json : PlatformView → Json
platform_view_json v = obj (
    field (text "platform_id") (num v.platform_id) (
      field (text "name") (str v.name) (
        field (text "base_url") (str v.base_url) (
          field (text "status") (num v.status) (
            field (text "allowed_types") (arr (items num v.allowed_types)) (
              field (text "allowed_models") (arr (items str v.allowed_models)) (
                field (text "allowed_groups") (arr (items str v.allowed_groups))
                  (field (text "max_channels") (num v.max_channels) end))))))))

abbrev pub narrowed {ℓ} : {A : Type ℓ} → List A → List A → List A
narrowed own all = if is_nil own then all else own

module _ (codecs : Codecs) where
  unfoldable pub platform_view : Grant → Platform → PlatformView
  platform_view g p = record {
    platform_id = p.id;
    name = p.name;
    base_url = p.base_url;
    status = p.status;
    allowed_types =
        narrowed (decode_list codecs.ints g.allowed_types)
          (decode_list codecs.ints p.allowed_types);
    allowed_models =
        narrowed (decode_list codecs.texts g.allowed_models)
          (decode_list codecs.texts p.allowed_models);
    allowed_groups =
        narrowed (decode_list codecs.texts g.allowed_groups)
          (decode_list codecs.texts p.allowed_groups);
    max_channels = g.max_channels;
  }

  -- The loop, which leaves out a platform that cannot be read.
  unfoldable pub platform_views : List Grant → Action (List PlatformView)
  platform_views [] = pure []
  platform_views (g ∷ gs) =
      attempt (get_platform_by_id g.platform_id) (λ _. platform_views gs)
        (λ p. World.◌>>=◌ (platform_views gs) (λ views. pure (platform_view g p ∷ views)))

  unfoldable pub list_my_platforms : Context → Handler
  list_my_platforms c = serve (do
    grants ←
        or_reply (list_grants_for_user c.user_id)
          (λ _. api_error 500 (text "failed to list platforms"))
    views ← or_reply (platform_views grants) (λ _. api_error 500 (text "failed to list platforms"))
    answer (api_success (obj (field (text "items") (arr (items platform_view_json views)) end))))
