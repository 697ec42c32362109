-- ===== src/Controller/Admin/Grant.antt =====
-- controller/admin_grant.go: which supplier may use which platform.
use modex_cloud.Prelude.{Option, some, List, Bool, false, not, ◌||◌}
use modex_cloud.Prelude.Int.{ℤ, pos, leb_ℤ}
use modex_cloud.Text.{Text, text}
use modex_cloud.Wire.{Json, null, num, str, obj, end, field}
use modex_cloud.Json.{encode_json}
use modex_cloud.Constant.{status_enabled, status_disabled}
use modex_cloud.Model.Schema.{Grant}
use modex_cloud.Model.Platform.{Codecs, get_platform_by_id}
use modex_cloud.Model.User.{get_user_by_id, is_supplier}
use modex_cloud.Model.Grant.{list_all_grants}
use modex_cloud.Model.Grant
use modex_cloud.Controller.Flow.{
  Context, Handler, ◌>>=◌, ◌>>◌, serve, answer, refuse_if, require, or_reply, perform, api_success,
  api_error, path_id,
}
use modex_cloud.Controller.Paging.{page_params, start_row}
use modex_cloud.Controller.Admin.{admin_audit, items, page_json}

-- `allow_upload` is a pointer: missing means enabled.
pub record GrantRequest : Type 0 where
  pub user_id : ℤ
  pub platform_id : ℤ
  pub allowed_types : Option (List ℤ)
  pub allowed_models : Option (List Text)
  pub allowed_groups : Option (List Text)
  pub max_channels : ℤ
  pub allow_upload : Option Bool

unfoldable pub grant_json : Grant → Json
grant_json g = obj (
    field (text "id") (num g.id) (
      field (text "user_id") (num g.user_id) (
        field (text "platform_id") (num g.platform_id) (
          field (text "allowed_types") (str g.allowed_types) (
            field (text "allowed_models") (str g.allowed_models) (
              field (text "allowed_groups") (str g.allowed_groups) (
                field (text "max_channels") (num g.max_channels) (
                  field (text "status") (num g.status)
                    (field (text "created_time") (num (pos g.created_time)) end)))))))))

unfoldable pub list_grants : Context → Handler
list_grants c = serve (do
  let (offset, limit) = page_params c
  (grants, total) ←
      or_reply (list_all_grants (start_row offset) limit)
        (λ _. api_error 500 (text "failed to list grants"))
  answer (api_success (page_json (items grant_json grants) total)))

abbrev pub status_of : Option Bool → ℤ
status_of (some false) = status_disabled
status_of _ = status_enabled

module _ (codecs : Codecs) where
  abbrev pub new_grant : GrantRequest → Grant
  new_grant req = record {
    id = pos 0;
    user_id = req.user_id;
    platform_id = req.platform_id;
    allowed_types = encode_json codecs.ints req.allowed_types;
    allowed_models = encode_json codecs.texts req.allowed_models;
    allowed_groups = encode_json codecs.texts req.allowed_groups;
    max_channels = req.max_channels;
    status = status_of req.allow_upload;
    created_time = 0;
  }

  unfoldable pub upsert_grant : Context → Option GrantRequest → Handler
  upsert_grant c body = serve (do
    req ← require body (api_error 400 (text "invalid request body"))
    refuse_if (leb_ℤ req.user_id (pos 0) || leb_ℤ req.platform_id (pos 0))
        (api_error 400 (text "user_id and platform_id are required"))
    u ← or_reply (get_user_by_id req.user_id) (λ _. api_error 400 (text "user not found"))
    refuse_if (not (is_supplier u))
        (api_error 400 (text "grants can only target supplier accounts"))
    platform ←
        or_reply (get_platform_by_id req.platform_id)
          (λ _. api_error 400 (text "platform not found"))
    g ←
        or_reply (Grant.upsert_grant (new_grant req))
          (λ _. api_error 500 (text "failed to save grant"))
    perform (admin_audit c (text "UPSERT_GRANT") (text "grant") g.id)
    answer (api_success (obj (field (text "id") (num g.id) end))))

unfoldable pub delete_grant : Context → Handler
delete_grant c = serve (do
  id ← require (path_id c) (api_error 400 (text "invalid id"))
  or_reply (Grant.delete_grant id) (λ _. api_error 500 (text "failed to delete grant"))
  perform (admin_audit c (text "DELETE_GRANT") (text "grant") id)
  answer (api_success null))
