-- ===== src/Controller/SupplierPlatform/Laws.antt =====
-- What a supplier is shown of a platform, and what an upload to it may have.
use modex_cloud.Prelude.{◌≡◌, ◌⊎◌, inl, inr, some, List, [], ◌∷◌, map, All, All-map, arith}
use modex_cloud.Prelude.Int.{ℤ}
use modex_cloud.Text.{Text, trim_space}
use modex_cloud.Json.{decode_list}
use modex_cloud.Model.Schema.{Platform, Grant}
use modex_cloud.Model.Platform.{Codecs}
use modex_cloud.Validate.{ChannelInput, Normalized, Std, accepted, channel_upload, normalize_models}
use modex_cloud.Validate.Spec.{Listed, Allows, AllowsName}
use modex_cloud.Validate.Spec.Upload.{channel_upload_iff}
use modex_cloud.Controller.SupplierPlatform.{narrowed, platform_view}

-- A list that is shown covers a value: it is empty, for "no restriction", or has it.
abbrev pub Covers : List ℤ → ℤ → Type 0
Covers shown n = (shown ≡ []) ⊎ Listed n shown

abbrev pub CoversName : List Text → Text → Type 0
CoversName shown m = (shown ≡ []) ⊎ Listed m (map trim_space shown)

Covers-narrowed : (ps gs : List ℤ) (n : ℤ) → Allows ps gs n → Covers (narrowed gs ps) n
Covers-narrowed ps [] n h = ground arith
Covers-narrowed ps (g ∷ gs) n h = ground arith

CoversName-narrowed :
    (ps gs : List Text) (m : Text) → AllowsName ps gs m → CoversName (narrowed gs ps) m
CoversName-narrowed ps [] m h = ground arith
CoversName-narrowed ps (g ∷ gs) m h = ground arith

-- The type, the normalized models and the group (unless it is empty) of an upload that is accepted
-- under a grant are each in the list that the supplier is shown for them, unless that list is
-- empty.
pub platform_view-Covers :
    (codecs : Codecs) (std : Std) (input : ChannelInput) (p : Platform) (g : Grant) (r : Normalized)
    → channel_upload codecs std input p (some g) ≡ accepted r
    → Covers (platform_view codecs g p).allowed_types input.type
      × All (CoversName (platform_view codecs g p).allowed_models) (normalize_models input.models)
      × ((trim_space input.group ≡ [])
          ⊎ CoversName (platform_view codecs g p).allowed_groups (trim_space input.group))
unfolding platform_view
platform_view-Covers codecs std input p g r h =
    let (permitted, _) = (channel_upload_iff codecs std input p (some g) r).0 h in
    let name : (f : Platform → Text) (k : Grant → Text)
        → (m : Text)
        → AllowsName (decode_list codecs.texts (f p)) (decode_list codecs.texts (k g)) m
        → CoversName (narrowed (decode_list codecs.texts (k g)) (decode_list codecs.texts (f p)))
            m =
      λ f k.
        CoversName-narrowed (decode_list codecs.texts (f p)) (decode_list codecs.texts (k g)) in
    (
      Covers-narrowed (decode_list codecs.ints p.allowed_types)
          (decode_list codecs.ints g.allowed_types) input.type permitted.type_allowed,
      All-map (name (λ q. q.allowed_models) (λ k. k.allowed_models)) (normalize_models input.models)
          permitted.models_allowed,
      elim permitted.group_allowed [
        | inl e ↦ inl e
        | inr a ↦
            inr (name (λ q. q.allowed_groups) (λ k. k.allowed_groups) (trim_space input.group) a)
      ],
    )
