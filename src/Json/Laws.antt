-- ===== src/Json/Laws.antt =====
-- What is stored of a whitelist is read back.
use modex_cloud.Prelude.{◌≡◌, refl, none, some, List, [], text_eq, text_beq_iff, arith}
use modex_cloud.Text.{text}
use modex_cloud.Json.{Codec, IsFaithful, encode_json, decode_list}

-- Where the codec reads back what it writes, a whitelist that is stored with EncodeJSON is read
-- back as it was, and one that is nil as empty.
pub decode_list-encode_json :
    {A : Type 0} (c : Codec A) (xs : List A)
    → IsFaithful c
    → (decode_list c (encode_json c (some xs)) ≡ xs) × (decode_list c (encode_json c none) ≡ [])
unfolding decode_list encode_json
decode_list-encode_json c xs f =
    let (t, m, u, n, e) = f.round_trip xs in
    (
      ground arith,
      ground (
        arith,
        f.marshal_nil,
        (text_beq_iff (text "null") (text "null")).1 refl,
        (text_beq_iff [] []).1 refl,
      ),
    )
