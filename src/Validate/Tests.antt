-- ===== src/Validate/Tests.antt =====
-- The theorems on uploads at concrete platforms and grants.
use modex_cloud.Prelude.{◌≡◌, ◌≢◌, refl, ◌↔◌, ◌∷◌, [], some, none, List, map, arith}
use modex_cloud.Prelude.Int.{ℤ, pos}
use modex_cloud.Text.{split, Text, trim_space, text}
use modex_cloud.Json.{decode_list}
use modex_cloud.Model.Schema.{Grant}
use modex_cloud.Validate.{ChannelInput, Normalized, accepted, channel_upload, normalize_models}
use modex_cloud.Validate.Spec.{Listed}
use modex_cloud.Validate.Spec.Upload.{
  Permits, normalized, channel_upload_iff, channel_upload_narrows, channel_upload_refuses,
}
use modex_cloud.Validate.Models.{AllNew, normalize_models_lem, split-models_csv}
use modex_cloud.Examples.{toy_codecs, toy_std, open_platform, open_grant}

abbrev one_model : ChannelInput
one_model = record {
  platform_id = pos 2;
  type = pos 1;
  models = (109 ∷ []) ∷ [];
  group = 103 ∷ [];
  base_url = [];
}

abbrev stored : Normalized
stored = record { models_csv = 109 ∷ []; group = 103 ∷ []; base_url = [] }

channel_upload_iff_example :
    (channel_upload toy_codecs toy_std one_model open_platform (some open_grant) ≡ accepted stored)
    ↔ (Permits toy_codecs toy_std one_model open_platform (some open_grant)
        × (stored ≡ normalized toy_codecs toy_std one_model open_platform (some open_grant)))
channel_upload_iff_example =
    channel_upload_iff toy_codecs toy_std one_model open_platform (some open_grant) stored

allowed_upload :
    channel_upload toy_codecs toy_std one_model open_platform (some open_grant) ≡ accepted stored
unfolding channel_upload modex_cloud.Validate.check_supported
    modex_cloud.Constant.is_supported_channel_type modex_cloud.Prelude.Int.int_beq
    modex_cloud.Validate.check_type modex_cloud.Validate.compute_effective decode_list
    modex_cloud.Prelude.text_beq modex_cloud.Validate.check_models normalize_models trim_space
    modex_cloud.Validate.check_group modex_cloud.Validate.check_base modex_cloud.Text.join
allowed_upload = refl

channel_upload_narrows_example :
    channel_upload toy_codecs toy_std one_model open_platform none ≡ accepted stored
channel_upload_narrows_example =
    channel_upload_narrows toy_codecs toy_std one_model open_platform open_grant stored
      allowed_upload

-- A grant for type 1 only, on the platform that restricts no types.
abbrev narrow_grant : Grant
narrow_grant = record open_grant { allowed_types = 49 ∷ [] }

no_types : decode_list toy_codecs.ints open_platform.allowed_types ≡ []
unfolding decode_list modex_cloud.Prelude.text_beq
no_types = refl

one_type : decode_list toy_codecs.ints narrow_grant.allowed_types ≢ []
unfolding decode_list modex_cloud.Prelude.text_beq
one_type = ground arith

channel_upload_refuses_example :
    channel_upload toy_codecs toy_std one_model open_platform (some narrow_grant) ≢ accepted stored
channel_upload_refuses_example =
    channel_upload_refuses toy_codecs toy_std one_model open_platform narrow_grant stored no_types
      one_type

abbrev three_names : List Text
three_names = (109 ∷ 32 ∷ []) ∷ [] ∷ (109 ∷ []) ∷ []

normalize_models_lem_example :
    AllNew [] (normalize_models three_names)
    × ((x : Text)
        → Listed x (normalize_models three_names)
          ↔ ((x ≢ []) × Listed x (map trim_space three_names)))
normalize_models_lem_example = normalize_models_lem three_names

-- What is left of the three names is one.
one_name_left : normalize_models three_names ≡ (109 ∷ []) ∷ []
unfolding normalize_models modex_cloud.Prelude.text_beq trim_space
one_name_left = refl

one_model_split : one_model.models ≡ split (109 ∷ []) b','
unfolding split
one_model_split = refl

split-models_csv_example : split stored.models_csv b',' ≡ normalize_models one_model.models
split-models_csv_example =
    split-models_csv toy_codecs toy_std one_model open_platform (some open_grant) (109 ∷ []) stored
      one_model_split allowed_upload
