-- ===== src/Json.antt =====
-- Whitelists as JSON text: common/json.go. Package `encoding/json` is a parameter.
pub mod Laws
use modex_cloud.Prelude.{◌≡◌, Option, none, some, List, [], ◌==◌, text_eq, if◌then◌else◌, false}
use modex_cloud.Text.{Text, text}

-- Marshalling of slices of one type. `none` is the nil slice on the one side, an error on the other.
-- A nil result of `unmarshal` (the text `null`) and an empty one are not told apart.
pub record Codec {ℓ} (A : Type ℓ) : Type ℓ where
  pub marshal : Option (List A) → Option Text
  pub unmarshal : Text → Option (List A)

-- The documented behaviour of `encoding/json` on slices that the whitelists rely on: nil is `null`,
-- what a slice is written as is read back, and is neither `null` nor empty.
pub record IsFaithful {ℓ} {A : Type ℓ} (c : Codec A) : Type ℓ where
  pub marshal_nil : c.marshal none ≡ some (text "null")
  pub round_trip :
      (xs : List A)
      → (t : Text) × (c.marshal (some xs) ≡ some t)
        × (c.unmarshal t ≡ some xs)
        × ((t == text "null") ≡ false)
        × ((t == []) ≡ false)

module _ {ℓ} {A : Type ℓ} (c : Codec A) where
  -- `EncodeJSON`: the empty text on an error or for nil.
  unfoldable pub encode_json : Option (List A) → Text
  encode_json v = elim (c.marshal v) [ none ↦ [] | some s ↦ if s == text "null" then [] else s ]

  -- `DecodeIntList` and `DecodeStringList`: nothing for an empty or an invalid text.
  unfoldable pub decode_list : Text → List A
  decode_list s = if s == [] then [] else elim (c.unmarshal s) [ none ↦ [] | some out ↦ out ]
