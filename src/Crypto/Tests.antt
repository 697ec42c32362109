-- ===== src/Crypto/Tests.antt =====
-- The theorems on the vault at small secrets.
use modex_cloud.Prelude.{◌≡◌, refl, ◌↔◌, ◌∷◌, ◌++◌, [], some, length}
use modex_cloud.Text.{Text}
use modex_cloud.Model.World.{ok}
use modex_cloud.Crypto.{blob_version_v1, seal, open_blob}
use modex_cloud.Crypto.Laws.{open_blob-seal, open_blob_iff, Opens}
use modex_cloud.Examples.{toy_aead, toy_vault, sealed_key, server}

pub toy-Opens : Opens toy_aead
toy-Opens nonce plaintext aad = refl

key_sealed : (seal toy_vault (115 ∷ 107 ∷ []) server).0 ≡ ok sealed_key
unfolding seal
key_sealed = refl

open_blob-seal_example : open_blob toy_vault sealed_key ≡ ok (115 ∷ 107 ∷ [])
open_blob-seal_example =
    open_blob-seal toy_vault (115 ∷ 107 ∷ []) server sealed_key toy-Opens key_sealed

open_blob_iff_example : (open_blob toy_vault sealed_key ≡ ok (115 ∷ 107 ∷ [])) ↔ (
    (nonce : Text) × (ct : Text) × (sealed_key ≡ blob_version_v1 ∷ (nonce ++ ct))
    × (length nonce ≡ 2)
    × (toy_aead.open_sealed nonce ct (blob_version_v1 ∷ []) ≡ some (115 ∷ 107 ∷ [])))
open_blob_iff_example = open_blob_iff toy_vault sealed_key (115 ∷ 107 ∷ [])
