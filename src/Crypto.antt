-- ===== src/Crypto.antt =====
-- crypto/vault.go: sealing and opening of secrets. The primitives AES-GCM, SHA-256 and HMAC are
-- parameters.
pub mod Global
pub mod Laws
pub mod Tests
use modex_cloud.Prelude.{
  ℕ, zero, suc, ◌+◌, ◌-◌, ◌*◌, Bool, Option, none, some, List, [], ◌∷◌, ◌++◌, length, take, drop,
  ltb, not, if◌then◌else◌, ◌==◌, nat_eq,
}
use modex_cloud.Text.{Text, text, hex_encode, hex_decode}
use modex_cloud.Model.World.{
  World, Error, errorf, wrap, Result, ok, err, Action, pure, raise, ◌>>=◌, on_result,
}

-- An AEAD under one key: of a nonce, a text and the additional data.
pub record Aead : Type 0 where
  pub nonce_size : ℕ
  pub seal : Text → Text → Text → Text
  pub open_sealed : Text → Text → Text → Option Text

pub record Primitives : Type 0 where
  pub new_gcm : Text → Result Aead
  pub sha256 : Text → Text
  pub hmac_sha256 : Text → Text → Text

abbrev pub blob_version_v1 : ℕ
blob_version_v1 = 1

abbrev pub master_key_len : ℕ
master_key_len = 32

unfoldable pub err_key_length : Error
err_key_length = errorf (text "crypto: master key must be 32 bytes (AES-256)")

unfoldable pub err_blob_too_short : Error
err_blob_too_short = errorf (text "crypto: sealed blob is malformed (too short)")

unfoldable pub err_unknown_version : Error
err_unknown_version = errorf (text "crypto: unknown sealed blob version")

unfoldable pub err_decrypt : Error
err_decrypt = errorf (text "crypto: decryption failed")

pub record Vault : Type 0 where
  pub aead : Aead
  pub hmac_key : Text

module _ (prim : Primitives) where
  -- `New`
  unfoldable pub new_vault : Text → Result Vault
  new_vault master_key =
      if length master_key == master_key_len
      then elim (prim.new_gcm master_key) [
        | err e ↦ err (wrap (text "crypto: aes init") e)
        | ok a ↦ ok (record {
          aead = a;
          hmac_key = prim.sha256 (text "modex-cloud/fingerprint/v1" ++ (0 ∷ master_key));
        })
      ]
      else err err_key_length

  unfoldable pub new_from_hex : Text → Result Vault
  unfolding new_vault
  new_from_hex hex_key =
      if length hex_key == master_key_len * 2
      then elim (hex_decode hex_key) [
        | none ↦ err (
            wrap (text "crypto: master key is not valid hex")
              (errorf (text "encoding/hex: invalid byte")))
        | some raw ↦ new_vault raw
      ]
      else err err_key_length

  -- `Fingerprint` and `FingerprintString`
  unfoldable pub fingerprint : Vault → Text → Text
  fingerprint v secret = hex_encode (prim.hmac_sha256 v.hmac_key secret)

-- The bytes of a buffer of the given length.
unfoldable pub tabulate : ℕ → (ℕ → ℕ) → Text
tabulate zero f = []
tabulate (suc n) f = f 0 ∷ tabulate n (λ i. f (suc i))

-- `io.ReadFull(rand.Reader, …)`
unfoldable pub read_full : ℕ → Action Text
unfolding tabulate
read_full n w =
    let w' = record w { draws = w.draws + 1 } in
    elim (w.entropy w.draws) [
      | none ↦ raise (errorf (text "unexpected EOF")) w'
      | some f ↦ pure (tabulate n f) w'
    ]

-- [version] [nonce] [ciphertext and tag]
unfoldable pub seal_blob : Vault → Text → Text → Text
seal_blob v nonce plaintext =
    let aad = blob_version_v1 ∷ [] in blob_version_v1 ∷ (nonce ++ v.aead.seal nonce plaintext aad)

-- `Seal` and `SealString`, the only operations of a `Sealer` beside the fingerprint.
unfoldable pub seal : Vault → Text → Action Text
unfolding read_full seal_blob
seal v plaintext w =
    let (r, w') = read_full v.aead.nonce_size w in
    on_result r (λ e. raise (wrap (text "crypto: nonce generation") e))
      (λ nonce. pure (seal_blob v nonce plaintext)) w'

unfoldable pub open_blob : Vault → Text → Result Text
open_blob v [] = err err_blob_too_short
open_blob v (version ∷ blob) =
    if version == blob_version_v1
    then if ltb (length blob) v.aead.nonce_size
      then err err_blob_too_short
      else elim (v.aead.open_sealed (take v.aead.nonce_size blob) (drop v.aead.nonce_size blob)
          (blob_version_v1 ∷ [])) [ none ↦ err err_decrypt | some plaintext ↦ ok plaintext ]
    else err err_unknown_version

-- Eight bytes at least, or nothing of the secret is shown.
unfoldable pub last4 : Text → Text
last4 secret =
    if ltb (length secret) 8 then text "••••" else text "••••" ++ drop (length secret - 4) secret
