-- ===== src/Validate/Spec/Upload.antt =====
-- The whole check of an upload.
use modex_cloud.Prelude.{
  ◌≡◌, refl, ◌≢◌, ◌↔◌, ◌⊎◌, inl, inr, true, Option, some, none, List, [], ◌∷◌, text_beq, arith, All,
  All-map,
}
use modex_cloud.Prelude.Int.{ℤ}
use modex_cloud.Text.{Text, text, trim_space, join}
use modex_cloud.Json.{decode_list}
use modex_cloud.Constant.{is_supported_channel_type}
use modex_cloud.Model.Schema.{Platform, Grant}
use modex_cloud.Model.Platform.{Codecs}
use modex_cloud.Validate.{
  ChannelInput, Normalized, accepted, Std, normalize_models, compute_effective, check_models,
  check_type, check_group, check_base, check_supported, channel_upload,
}
use modex_cloud.Validate.Spec.{
  Allows, AllowsName, platform_types, platform_models, platform_groups, grant_types, grant_models,
  grant_groups, check_type_iff, check_models_iff, check_group_iff,
}
use modex_cloud.Validate.Spec.Base.{AllowsBase, validate_base_url_sound, validate_base_url_complete}

-- What `ChannelUpload` allows, clause by clause.
module _ (codecs : Codecs) (std : Std) (input : ChannelInput) (platform : Platform) where
  pub record Permits (grant : Option Grant) : Type 0 where
    pub supported : is_supported_channel_type input.type ≡ true
    pub type_allowed :
        Allows (platform_types codecs platform grant) (grant_types codecs platform grant) input.type
    pub some_model : normalize_models input.models ≢ []
    pub models_allowed :
        All
          (AllowsName (platform_models codecs platform grant) (grant_models codecs platform grant))
          (normalize_models input.models)
    pub group_allowed :
        (trim_space input.group ≡ [])
        ⊎ AllowsName
            (platform_groups codecs platform grant)
            (grant_groups codecs platform grant)
            (trim_space input.group)
    pub base_allowed :
        (trim_space input.base_url ≡ [])
        ⊎ AllowsBase std
            (decode_list codecs.texts platform.base_url_allow)
            (trim_space input.base_url)

  module _ (grant : Option Grant) where
    check_base_iff :
        (base : Text)
        → (check_base std (compute_effective codecs platform grant) base ≡ none)
          ↔ ((base ≡ []) ⊎ AllowsBase std (decode_list codecs.texts platform.base_url_allow) base)
    unfolding check_base compute_effective text_beq
    check_base_iff [] = (λ h. inl refl, λ h. refl)
    check_base_iff (b ∷ base) =
        let bases = decode_list codecs.texts platform.base_url_allow in
        (
          λ h. inr (validate_base_url_sound std (b ∷ base) bases h),
          λ h. elim h [ inl e ↦ cc | inr a ↦ validate_base_url_complete std (b ∷ base) bases a ],
        )

    check_supported_iff :
        (t : ℤ) → (check_supported t ≡ none) ↔ (is_supported_channel_type t ≡ true)
    unfolding check_supported
    check_supported_iff t = ground arith

    abbrev pub normalized : Normalized
    normalized = record {
      models_csv = join (normalize_models input.models) (text ",");
      group = trim_space input.group;
      base_url = trim_space input.base_url;
    }

    channel_upload_checks :
        (r : Normalized)
        → (channel_upload codecs std input platform grant ≡ accepted r) ↔ (
            (check_supported input.type ≡ none)
            × (check_type (compute_effective codecs platform grant) input.type ≡ none)
            × (check_models
                  (compute_effective codecs platform grant)
                  (normalize_models input.models)
                ≡ none)
            × (check_group (compute_effective codecs platform grant) (trim_space input.group)
                ≡ none)
            × (check_base std (compute_effective codecs platform grant) (trim_space input.base_url)
                ≡ none)
            × (r ≡ normalized))
    unfolding channel_upload
    channel_upload_checks r = ground arith

    -- An upload is accepted exactly when its type is supported and allowed, it names a model after
    -- trimming and removing duplicates, and every such model, the group and the address (these two
    -- unless empty) are allowed; what is stored then is the models joined by commas and the trimmed
    -- group and address.
    pub channel_upload_iff :
        (r : Normalized)
        → (channel_upload codecs std input platform grant ≡ accepted r)
          ↔ (Permits grant × (r ≡ normalized))
    channel_upload_iff r = (
      λ h.
          let (s, t, m, g, b, e) = (channel_upload_checks r).0 h in
          let (some_model, models_allowed) =
            (check_models_iff codecs platform grant (normalize_models input.models)).0 m in
          (
            record {
              supported = (check_supported_iff input.type).0 s;
              type_allowed = (check_type_iff codecs platform grant input.type).0 t;
              some_model = some_model;
              models_allowed = models_allowed;
              group_allowed = (check_group_iff codecs platform grant (trim_space input.group)).0 g;
              base_allowed = (check_base_iff (trim_space input.base_url)).0 b;
            },
            e,
          ),
      λ (p, e). (channel_upload_checks r).1 (
        (check_supported_iff input.type).1 p.supported,
        (check_type_iff codecs platform grant input.type).1 p.type_allowed,
        (check_models_iff codecs platform grant (normalize_models input.models)).1
            (p.some_model, p.models_allowed),
        (check_group_iff codecs platform grant (trim_space input.group)).1 p.group_allowed,
        (check_base_iff (trim_space input.base_url)).1 p.base_allowed,
        e,
      ),
    )

Allows-widen : (ps gs : List ℤ) (n : ℤ) → Allows ps gs n → Allows ps [] n
Allows-widen ps gs n (inl (e, _)) = inl (e, refl)
Allows-widen ps gs n (inr (l, _)) = inr (l, inl refl)

AllowsName-widen : (ps gs : List Text) (m : Text) → AllowsName ps gs m → AllowsName ps [] m
AllowsName-widen ps gs m (inl (e, _)) = inl (e, refl)
AllowsName-widen ps gs m (inr (l, _)) = inr (l, inl refl)

-- A grant only narrows: what is accepted under a grant is accepted for the platform alone, with the
-- same stored fields.
pub channel_upload_narrows :
    (codecs : Codecs) (std : Std) (input : ChannelInput) (platform : Platform) (g : Grant)
    (r : Normalized)
    → channel_upload codecs std input platform (some g) ≡ accepted r
    → channel_upload codecs std input platform none ≡ accepted r
channel_upload_narrows codecs std input platform g r h =
    let (p, e) = (channel_upload_iff codecs std input platform (some g) r).0 h in
    (channel_upload_iff codecs std input platform none r).1 (
      record {
        supported = p.supported;
        type_allowed =
            Allows-widen (platform_types codecs platform none)
              (grant_types codecs platform (some g)) input.type p.type_allowed;
        some_model = p.some_model;
        models_allowed =
            All-map
              (AllowsName-widen (platform_models codecs platform none)
                (grant_models codecs platform (some g)))
              (normalize_models input.models) p.models_allowed;
        group_allowed = elim p.group_allowed [
          | inl empty ↦ inl empty
          | inr named ↦ inr (
              AllowsName-widen (platform_groups codecs platform none)
                (grant_groups codecs platform (some g)) (trim_space input.group) named)
        ];
        base_allowed = p.base_allowed;
      },
      e,
    )

-- A grant that lists types, on a platform that lists none, refuses every upload.
pub channel_upload_refuses :
    (codecs : Codecs) (std : Std) (input : ChannelInput) (platform : Platform) (g : Grant)
    (r : Normalized)
    → decode_list codecs.ints platform.allowed_types ≡ []
    → decode_list codecs.ints g.allowed_types ≢ []
    → channel_upload codecs std input platform (some g) ≢ accepted r
channel_upload_refuses codecs std input platform g r p q h =
    let (permitted, _) = (channel_upload_iff codecs std input platform (some g) r).0 h in
    elim permitted.type_allowed [ inl (_, e) ↦ q e | inr (l, _) ↦ rw p at l ]
