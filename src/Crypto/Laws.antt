-- ===== src/Crypto/Laws.antt =====
-- What the vault promises of sealing and opening.
use modex_cloud.Prelude.{
  ℕ, zero, suc, ◌+◌, ◌-◌, ◌*◌, ◌∙◌, ◌≤◌, ◌<◌, ◌≡◌, refl, sym, ap, subst, inl, inr, ◌↔◌, All, Option,
  some, [], ◌∷◌, ◌++◌, length, take, drop, take-append, drop-append, take-append-drop, length-take,
  length-append, arith, Option-cases, ◌/◌, ◌%◌,
}
use modex_cloud.Text.{Text, text, hex_encode, hex_decode, hex_value, hex_digit, hex_pair}
use modex_cloud.Model.World.{World, ok}
use modex_cloud.Crypto.{
  Aead, Vault, Primitives, blob_version_v1, tabulate, seal, open_blob, last4, new_vault,
  new_from_hex,
}

-- What is sealed is opened again under the same nonce and data: the documented behaviour of GCM.
abbrev pub Opens : Aead → Type 0
Opens a =
    (nonce plaintext aad : Text)
    → a.open_sealed nonce (a.seal nonce plaintext aad) aad ≡ some plaintext

length-tabulate : (n : ℕ) (f : ℕ → ℕ) → length (tabulate n f) ≡ n
unfolding tabulate
length-tabulate zero f = refl
length-tabulate (suc n) f = ap suc (length-tabulate n (λ i. f (suc i)))

-- A blob of the version, a nonce and a ciphertext opens as the AEAD opens it.
open_blob-parts :
    (v : Vault) (nonce ct p : Text)
    → length nonce ≡ v.aead.nonce_size
    → v.aead.open_sealed nonce ct (blob_version_v1 ∷ []) ≡ some p
    → open_blob v (blob_version_v1 ∷ (nonce ++ ct)) ≡ ok p
unfolding open_blob
open_blob-parts v nonce ct p n e =
    let t : take v.aead.nonce_size (nonce ++ ct) ≡ nonce =
      subst (λ k. take k (nonce ++ ct) ≡ nonce) n (take-append nonce ct) in
    let d : drop v.aead.nonce_size (nonce ++ ct) ≡ ct =
      subst (λ k. drop k (nonce ++ ct) ≡ ct) n (drop-append nonce ct) in
    ground (arith, length-append nonce ct)

-- Where the AEAD opens what it seals, a blob that sealing has produced is opened to what was
-- sealed, whatever nonce was drawn.
pub open_blob-seal :
    (v : Vault) (plaintext : Text) (w : World) (blob : Text)
    → Opens v.aead
    → (seal v plaintext w).0 ≡ ok blob
    → open_blob v blob ≡ ok plaintext
unfolding seal
open_blob-seal v plaintext w blob opens e = elim (Option-cases (w.entropy w.draws)) [
  | inl out ↦ ground arith
  | inr (f, drawn) ↦
      let nonce = tabulate v.aead.nonce_size f in
      let opened =
        open_blob-parts v nonce (v.aead.seal nonce plaintext (blob_version_v1 ∷ [])) plaintext
          (length-tabulate v.aead.nonce_size f) (opens nonce plaintext (blob_version_v1 ∷ [])) in
      ground arith
]

open_blob_inv :
    (v : Vault) (blob p : Text)
    → open_blob v blob ≡ ok p
    → (nonce : Text) × (ct : Text) × (blob ≡ blob_version_v1 ∷ (nonce ++ ct))
      × (length nonce ≡ v.aead.nonce_size)
      × (v.aead.open_sealed nonce ct (blob_version_v1 ∷ []) ≡ some p)
unfolding open_blob
open_blob_inv v [] p e = ground arith
open_blob_inv v (b ∷ s) p e = (
  take v.aead.nonce_size s,
  drop v.aead.nonce_size s,
  ground (arith, take-append-drop v.aead.nonce_size s),
  ground (arith, length-take v.aead.nonce_size s),
  ground arith,
)

-- A blob opens exactly if it is the version byte, a nonce of the right size, and a ciphertext that
-- the AEAD opens under them.
pub open_blob_iff :
    (v : Vault) (blob p : Text)
    → (open_blob v blob ≡ ok p) ↔ (
        (nonce : Text) × (ct : Text) × (blob ≡ blob_version_v1 ∷ (nonce ++ ct))
        × (length nonce ≡ v.aead.nonce_size)
        × (v.aead.open_sealed nonce ct (blob_version_v1 ∷ []) ≡ some p))
open_blob_iff v blob p = (
  open_blob_inv v blob p,
  λ (nonce, ct, parts, n, e). rw parts (open_blob-parts v nonce ct p n e),
)

drop_front :
    (front tail : Text) → drop (length (front ++ tail) - length tail) (front ++ tail) ≡ tail
drop_front front tail =
    let k : length (front ++ tail) - length tail ≡ length front =
      omega (arith, length-append {0} front tail) in
    rw k (drop-append front tail)

last4_tail :
    (front tail : Text)
    → length tail ≡ 4
    → 4 ≤ length front
    → last4 (front ++ tail) ≡ text "••••" ++ tail
unfolding last4
last4_tail front tail n h =
    let d : drop (length (front ++ tail) - 4) (front ++ tail) ≡ tail =
      subst (λ k. drop (length (front ++ tail) - k) (front ++ tail) ≡ tail) n
        (drop_front front tail) in
    ground (arith, length-append front tail)

-- What is shown of a secret of eight bytes or more depends on its last four bytes only.
pub last4_hides :
    (front front' tail : Text)
    → length tail ≡ 4
    → 4 ≤ length front
    → 4 ≤ length front'
    → last4 (front ++ tail) ≡ last4 (front' ++ tail)
last4_hides front front' tail n h h' = last4_tail front tail n h ∙ sym (last4_tail front' tail n h')

-- A byte written as two hexadecimal digits is read back.
hex_byte :
    (b : ℕ)
    → b < 256
    → (hex_value (hex_digit (b / 16)) ≡ some (b / 16))
      × (hex_value (hex_digit (b % 16)) ≡ some (b % 16))
unfolding hex_value
hex_byte b h = ground arith

abbrev pub IsBytes : Text → Type 0
IsBytes = All (λ b. b < 256)

hex_pair-eq :
    {o p : Option ℕ} {q : Option Text} {x y : ℕ} {r : Text}
    → o ≡ some x
    → p ≡ some y
    → q ≡ some r
    → hex_pair o p q ≡ some ((x * 16 + y) ∷ r)
hex_pair-eq e f g = rw (e, f, g)

hex_decode-hex_encode : (s : Text) → IsBytes s → hex_decode (hex_encode s) ≡ some s
unfolding hex_decode hex_encode
hex_decode-hex_encode [] h = refl
hex_decode-hex_encode (b ∷ s) (h, hs) =
    let (x, y) = hex_byte b h in
    let r = hex_decode-hex_encode s hs in
    let k : b / 16 * 16 + b % 16 ≡ b = omega arith in
    hex_pair-eq x y r ∙ ap {B = Option Text} (λ n. some (n ∷ s)) k

length-hex_encode : (s : Text) → length (hex_encode s) ≡ length s * 2
unfolding hex_encode
length-hex_encode [] = omega arith
length-hex_encode (b ∷ s) = omega (arith, length-hex_encode s)

-- The vault made from the 64 digits of a 32-byte key is the vault of that key.
pub new_from_hex-hex_encode :
    (prim : Primitives) (key : Text)
    → IsBytes key
    → length key ≡ 32
    → new_from_hex prim (hex_encode key) ≡ new_vault prim key
unfolding new_from_hex
new_from_hex-hex_encode prim key h n =
    ground (arith, hex_decode-hex_encode key h, length-hex_encode key)
