-- ===== src/Controller/Admin/Platform.antt =====
-- controller/admin_platform.go: the downstream platforms, as an administrator manages them.
use modex_cloud.Prelude.{Option, List, [], ◌||◌, if◌then◌else◌, ◌==◌, text_eq}
use modex_cloud.Prelude.Int.{ℤ, pos, int_eq}
use modex_cloud.Text.{Text, text}
use modex_cloud.Wire.{Json, null, num, str, arr, obj, end, field}
use modex_cloud.Json.{encode_json}
use modex_cloud.Constant.{status_enabled}
use modex_cloud.Crypto.{last4}
use modex_cloud.Model.Schema.{Platform, PlatformGroup}
use modex_cloud.Model.World.{Error, platform_in_use, Action}
use modex_cloud.Model.World
use modex_cloud.Model.Platform.{get_platform_by_id, update, set_modex_token, encode_groups}
use modex_cloud.Model.Platform
use modex_cloud.Controller.Flow.{
  Response, Context, Flow, Handler, ◌>>=◌, ◌>>◌, serve, answer, proceed, refuse_if, require,
  or_reply, perform, api_success, api_error, path_id,
}
use modex_cloud.Controller.SupplierChannel.{Deps, sealer}
use modex_cloud.Controller.Admin.{or_default_int, admin_audit, items}

-- A slice that the body leaves out is nil.
pub record PlatformRequest : Type 0 where
  pub name : Text
  pub base_url : Text
  pub modex_token : Text
  pub status : ℤ
  pub name_prefix : Text
  pub groups : List PlatformGroup
  pub allowed_types : Option (List ℤ)
  pub allowed_models : Option (List Text)
  pub allowed_groups : Option (List Text)
  pub base_url_allow : Option (List Text)

-- A platform as its JSON tags serialize it: the sealed token is tagged "-".
unfoldable pub platform_json : Platform → Json
platform_json p = obj (
    field (text "id") (num p.id) (
      field (text "name") (str p.name) (
        field (text "base_url") (str p.base_url) (
          field (text "status") (num p.status) (
            field (text "modex_token_last4") (str p.modex_token_last4) (
              field (text "name_prefix") (str p.name_prefix) (
                field (text "groups") (str p.groups) (
                  field (text "allowed_types") (str p.allowed_types) (
                    field (text "allowed_models") (str p.allowed_models) (
                      field (text "allowed_groups") (str p.allowed_groups) (
                        field (text "base_url_allow") (str p.base_url_allow) (
                          field (text "created_time") (num (pos p.created_time))
                            (field (text "updated_time") (num (pos p.updated_time)) end)))))))))))))

unfoldable pub list_platforms : Handler
list_platforms = serve (do
  ps ← or_reply Platform.list_platforms (λ _. api_error 500 (text "failed to list platforms"))
  answer (api_success (arr (items platform_json ps))))

module _ (deps : Deps) where
  unfoldable pub seal_platform_token : Platform → Text → Action (Unit {0})
  seal_platform_token p token =
      World.◌>>=◌ ((sealer deps).seal_string token) (λ blob. set_modex_token p blob (last4 token))

  abbrev pub new_platform : PlatformRequest → Platform
  new_platform req = record {
    id = pos 0;
    name = req.name;
    base_url = req.base_url;
    status = or_default_int req.status status_enabled;
    modex_token_enc = [];
    modex_token_last4 = [];
    name_prefix = req.name_prefix;
    groups = encode_groups deps.codecs req.groups;
    allowed_types = encode_json deps.codecs.ints req.allowed_types;
    allowed_models = encode_json deps.codecs.texts req.allowed_models;
    allowed_groups = encode_json deps.codecs.texts req.allowed_groups;
    base_url_allow = encode_json deps.codecs.texts req.base_url_allow;
    created_time = 0;
    updated_time = 0;
  }

  unfoldable pub create_platform : Context → Option PlatformRequest → Handler
  create_platform c body = serve (do
    req ← require body (api_error 400 (text "invalid request body"))
    refuse_if (req.name == [] || req.base_url == [])
        (api_error 400 (text "name and base_url are required"))
    refuse_if (req.modex_token == []) (api_error 400 (text "modex_token is required"))
    p ←
        or_reply (Platform.create (new_platform req))
          (λ _. api_error 500 (text "failed to create platform"))
    or_reply (seal_platform_token p req.modex_token)
        (λ _. api_error 500 (text "failed to secure platform token"))
    perform (admin_audit c (text "CREATE_PLATFORM") (text "platform") p.id)
    answer (api_success (obj (field (text "id") (num p.id) end))))

  -- The platform of `UpdatePlatform` with the fields of the request.
  unfoldable pub as_requested : PlatformRequest → Platform → Platform
  as_requested req p = record p {
    name = if req.name == [] then p.name else req.name;
    base_url = if req.base_url == [] then p.base_url else req.base_url;
    status = if req.status == pos 0 then p.status else req.status;
    name_prefix = req.name_prefix;
    groups = encode_groups deps.codecs req.groups;
    allowed_types = encode_json deps.codecs.ints req.allowed_types;
    allowed_models = encode_json deps.codecs.texts req.allowed_models;
    allowed_groups = encode_json deps.codecs.texts req.allowed_groups;
    base_url_allow = encode_json deps.codecs.texts req.base_url_allow;
  }

  -- The token is sealed again only where the request has one.
  unfoldable pub rotate_token : Platform → Text → Flow (Unit {0})
  rotate_token p token =
      if token == []
      then proceed
      else or_reply (seal_platform_token p token)
          (λ _. api_error 500 (text "failed to secure platform token"))

  unfoldable pub update_platform : Context → Option PlatformRequest → Handler
  unfolding rotate_token
  update_platform c body = serve (do
    id ← require (path_id c) (api_error 400 (text "invalid id"))
    found ← or_reply (get_platform_by_id id) (λ _. api_error 404 (text "platform not found"))
    req ← require body (api_error 400 (text "invalid request body"))
    p ←
        or_reply (update (as_requested req found))
          (λ _. api_error 500 (text "failed to update platform"))
    rotate_token p req.modex_token
    perform (admin_audit c (text "UPDATE_PLATFORM") (text "platform") p.id)
    answer (api_success (obj (field (text "id") (num p.id) end))))

abbrev pub delete_platform_error : Error → Response
delete_platform_error platform_in_use =
    api_error 409 (text "platform still has channels; remove them first")
delete_platform_error _ = api_error 500 (text "failed to delete platform")

unfoldable pub delete_platform : Context → Handler
delete_platform c = serve (do
  id ← require (path_id c) (api_error 400 (text "invalid id"))
  or_reply (Platform.delete_platform id) delete_platform_error
  perform (admin_audit c (text "DELETE_PLATFORM") (text "platform") id)
  answer (api_success null))
