-- ===== src/Constant.antt =====
-- Enumerations: constant/channel.go and constant/role.go.
use modex_cloud.Prelude.{ℕ, Bool, true, false, ◌||◌, List, [], ◌∷◌, ◌==◌, any, find, none, some}
use modex_cloud.Text.{Text, text}
use modex_cloud.Prelude.Int.{ℤ, pos, int_eq}

abbrev pub openai : ℤ
openai = pos 1

abbrev pub azure : ℤ
azure = pos 3

abbrev pub anthropic : ℤ
anthropic = pos 14

abbrev pub gemini : ℤ
gemini = pos 24

abbrev pub aws : ℤ
aws = pos 33

abbrev pub vertex_ai : ℤ
vertex_ai = pos 41

-- The map of supported providers.
abbrev pub supported_channel_types : List (ℤ × Text)
supported_channel_types =
    (openai, text "OpenAI")
    ∷ (azure, text "Azure OpenAI")
    ∷ (anthropic, text "Anthropic Claude")
    ∷ (gemini, text "Google Gemini")
    ∷ (aws, text "AWS Claude (Bedrock)")
    ∷ (vertex_ai, text "Google Vertex AI")
    ∷ []

unfoldable pub is_supported_channel_type : ℤ → Bool
is_supported_channel_type t = any (λ s. s.0 == t) supported_channel_types

-- A read of the map, which gives the empty text for a missing key.
unfoldable pub channel_type_name : ℤ → Text
channel_type_name t = elim (find (λ s. s.0 == t) supported_channel_types) [
  | none ↦ []
  | some s ↦ s.1
]

abbrev pub role_supplier : ℤ
role_supplier = pos 1

abbrev pub role_admin : ℤ
role_admin = pos 10

abbrev pub role_root : ℤ
role_root = pos 100

unfoldable pub is_valid_role : ℤ → Bool
is_valid_role r = r == role_supplier || r == role_admin || r == role_root

abbrev pub status_enabled : ℤ
status_enabled = pos 1

abbrev pub status_disabled : ℤ
status_disabled = pos 2

-- The life of a channel's key; `unset` is Go's zero value, the empty string.
pub data KeyState : Type 0 where
  unset pending synced failed : KeyState

abbrev pub is_unset : KeyState → Bool
is_unset unset = true
is_unset _ = false

abbrev pub is_synced : KeyState → Bool
is_synced synced = true
is_synced _ = false

abbrev pub max_sync_retries : ℕ
max_sync_retries = 5
