-- ===== src/Validate/Spec.antt =====
-- When an upload is allowed, said without the program's sets and flags, and that the checks of
-- package validate decide it.
pub mod Upload
pub mod Base
use modex_cloud.Prelude.{
  ℕ, ◌≡◌, refl, sym, ◌≢◌, ◌↔◌, ◌⊎◌, inl, inr, Bool, true, false, ◌&&◌, ◌||◌, not, Option, some,
  none, List, [], ◌∷◌, ◌++◌, map, any, find, filter, if◌then◌else◌, ◌==◌, text_eq, text_beq_iff,
  arith, Bool-cases, All,
}
use modex_cloud.Prelude.Int.{ℤ, int_eq, int_beq_iff}
use modex_cloud.Text.{Text, text, trim_space, join, has_prefix}
use modex_cloud.Json.{decode_list}
use modex_cloud.Constant.{is_supported_channel_type}
use modex_cloud.Model.Schema.{Platform, Grant}
use modex_cloud.Model.Platform.{Codecs}
use modex_cloud.Validate.{
  ChannelInput, Normalized, Checked, accepted, rejected, Url, Std, to_int_set, to_str_set, is_nil,
  intersect_ints, intersect_strings, normalize_models, Effective, granted, validate_base_url,
  compute_effective, check_models, check_type, check_group, check_base, check_supported,
  channel_upload, ◌then_check◌, Violation,
}

-- One of the entries.
abbrev pub Listed : {A : Type 0} → A → List A → Type 0
Listed a [] = ⊥
Listed a (x ∷ xs) = (x ≡ a) ⊎ Listed a xs

-- A platform's list and a grant's list, either empty for "no restriction", allow a value: both are
-- empty, or the platform lists it and so does a grant that lists anything.
abbrev pub Allows : {A : Type 0} → List A → List A → A → Type 0
Allows ps gs a = ((ps ≡ []) × (gs ≡ [])) ⊎ (Listed a ps × ((gs ≡ []) ⊎ Listed a gs))

-- Names are compared with the spaces round the listed ones removed.
abbrev pub AllowsName : List Text → List Text → Text → Type 0
AllowsName ps gs m =
    ((ps ≡ []) × (gs ≡ []))
    ⊎ (Listed m (map trim_space ps) × ((gs ≡ []) ⊎ Listed m (map trim_space gs)))

to_int_set_iff : (xs : List ℤ) (n : ℤ) → (to_int_set xs n ≡ true) ↔ Listed n xs
unfolding to_int_set
to_int_set_iff [] n = ground arith
to_int_set_iff (x ∷ xs) n = ground (arith, int_beq_iff x n, to_int_set_iff xs n)

to_str_set_iff :
    (xs : List Text) (m : Text) → (to_str_set xs m ≡ true) ↔ Listed m (map trim_space xs)
unfolding to_str_set
to_str_set_iff [] m = ground arith
to_str_set_iff (x ∷ xs) m = ground (arith, text_beq_iff (trim_space x) m, to_str_set_iff xs m)

to_int_set-intersect_ints :
    (a b : List ℤ) (n : ℤ) → to_int_set (intersect_ints a b) n ≡ (to_int_set a n && to_int_set b n)
unfolding to_int_set intersect_ints
to_int_set-intersect_ints [] b n = refl
to_int_set-intersect_ints (x ∷ a) b n =
    ground (arith, int_beq_iff x n, to_int_set-intersect_ints a b n)

to_str_set-intersect_strings :
    (a b : List Text) (m : Text)
    → to_str_set (intersect_strings a b) m ≡ (to_str_set a m && to_str_set b m)
unfolding to_str_set intersect_strings
to_str_set-intersect_strings [] b m = refl
to_str_set-intersect_strings (x ∷ a) b m =
    ground (arith, text_beq_iff (trim_space x) m, to_str_set-intersect_strings a b m)

-- The program's decision for a list of the platform and one of the grant.
abbrev ints_allowed : List ℤ → List ℤ → ℤ → Bool
ints_allowed ps gs n =
    let l = if is_nil gs then ps else intersect_ints ps gs in
    is_nil l && is_nil gs || to_int_set l n

ints_allowed_iff : (ps gs : List ℤ) (n : ℤ) → (ints_allowed ps gs n ≡ true) ↔ Allows ps gs n
ints_allowed_iff [] [] n = ground (arith, to_int_set_iff [] n)
ints_allowed_iff (p ∷ ps) [] n = ground (arith, to_int_set_iff (p ∷ ps) n)
ints_allowed_iff ps (g ∷ gs) n =
    ground (
      arith,
      to_int_set-intersect_ints ps (g ∷ gs) n,
      to_int_set_iff ps n,
      to_int_set_iff (g ∷ gs) n,
    )

abbrev names_allowed : List Text → List Text → Text → Bool
names_allowed ps gs m =
    let l = if is_nil gs then ps else intersect_strings ps gs in
    is_nil l && is_nil gs || to_str_set l m

names_allowed_iff :
    (ps gs : List Text) (m : Text) → (names_allowed ps gs m ≡ true) ↔ AllowsName ps gs m
names_allowed_iff [] [] m = ground (arith, to_str_set_iff [] m)
names_allowed_iff (p ∷ ps) [] m = ground (arith, to_str_set_iff (p ∷ ps) m)
names_allowed_iff ps (g ∷ gs) m = ground (
  arith,
  to_str_set-intersect_strings ps (g ∷ gs) m,
  to_str_set_iff ps m,
  to_str_set_iff (g ∷ gs) m,
)

-- The lists that a platform and a grant hold.
module _ (codecs : Codecs) (platform : Platform) (grant : Option Grant) where
  abbrev pub platform_types : List ℤ
  platform_types = decode_list codecs.ints platform.allowed_types

  abbrev pub platform_models : List Text
  platform_models = decode_list codecs.texts platform.allowed_models

  abbrev pub platform_groups : List Text
  platform_groups = decode_list codecs.texts platform.allowed_groups

  abbrev pub grant_types : List ℤ
  grant_types = granted (λ g. decode_list codecs.ints g.allowed_types) grant

  abbrev pub grant_models : List Text
  grant_models = granted (λ g. decode_list codecs.texts g.allowed_models) grant

  abbrev pub grant_groups : List Text
  grant_groups = granted (λ g. decode_list codecs.texts g.allowed_groups) grant

  abbrev eff : Effective
  eff = compute_effective codecs platform grant

  check_type_iff : (t : ℤ) → (check_type eff t ≡ none) ↔ Allows platform_types grant_types t
  unfolding check_type compute_effective
  check_type_iff t = ground (arith, ints_allowed_iff platform_types grant_types t)

  find_refused :
      (ms : List Text)
      → (find (λ n. not (eff.models n)) ms ≡ none) ↔ All (λ m. eff.models m ≡ true) ms
  find_refused [] = ground arith
  find_refused (m ∷ ms) = ground (arith, find_refused ms)

  check_group_iff :
      (g : Text)
      → (check_group eff g ≡ none) ↔ ((g ≡ []) ⊎ AllowsName platform_groups grant_groups g)
  unfolding check_group compute_effective
  check_group_iff g =
      ground (arith, text_beq_iff g [], names_allowed_iff platform_groups grant_groups g)

  models_allowed :
      (ms : List Text)
      → ((eff.models_unrestricted ≡ true) ⊎ All (λ m. eff.models m ≡ true) ms)
        ↔ All (AllowsName platform_models grant_models) ms
  unfolding compute_effective
  models_allowed [] = ground arith
  models_allowed (m ∷ ms) =
      ground (arith, names_allowed_iff platform_models grant_models m, models_allowed ms)

  check_models_iff :
      (ms : List Text)
      → (check_models eff ms ≡ none)
        ↔ ((ms ≢ []) × All (AllowsName platform_models grant_models) ms)
  unfolding check_models
  check_models_iff [] = ground arith
  check_models_iff (m ∷ ms) = ground (arith, find_refused (m ∷ ms), models_allowed (m ∷ ms))
