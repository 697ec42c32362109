-- ===== src/Config/Laws.antt =====
-- What an accepted configuration guarantees, and what a `.env` file can change.
pub mod Line
use modex_cloud.Prelude.{
  ℕ, zero, suc, ◌≡◌, ◌≢◌, refl, ◌⊎◌, inl, inr, Bool, true, false, ◌&&◌, ◌||◌, not, Option, none,
  some, List, [], ◌∷◌, ◌++◌, length, ltb, leb, if◌then◌else◌, ◌==◌, nat_eq, text_eq, arith,
  Bool-cases, Option-cases, ap, sym, ◌∙◌, text_beq_iff, nat_beq_iff, ◌*◌, ◌+◌, ◌≤◌,
}
use modex_cloud.Prelude.Int.{ℤ, pos}
use modex_cloud.Text.{Text, text, hex_decode, hex_value, trim_space}
use modex_cloud.Model.World.{Result, ok, err}
use modex_cloud.Crypto.{Primitives, Vault, new_vault, new_from_hex}
use modex_cloud.Config.{Config, load, checked, of_env, is_hex}
use modex_cloud.Config.DotEnv.{
  Env, File, lookup, getenv, setenv, parse_line, set_new, apply_parsed, apply_line, apply_lines,
  load_dot_env,
}

hex_value_lem :
    (r : ℕ)
    → (leb b'0' r && leb r b'9' || leb b'a' r && leb r b'f' || leb b'A' r && leb r b'F') ≡ true
    → (d : ℕ) × (hex_value r ≡ some d)
unfolding hex_value
hex_value_lem r h = elim (Option-cases (hex_value r)) [ inl e ↦ ground arith | inr (d, e) ↦ (d, e) ]

-- Hexadecimal digits in pairs can be decoded, to half as many bytes.
hex_decode_lem :
    (n : ℕ) (s : Text)
    → length s ≡ n + n
    → is_hex s ≡ true
    → (raw : Text) × (hex_decode s ≡ some raw) × (length raw ≡ n)
unfolding hex_decode is_hex
hex_decode_lem zero [] e h = ([], refl, refl)
hex_decode_lem zero (a ∷ s) e h = ground arith
hex_decode_lem (suc n) [] e h = ground arith
hex_decode_lem (suc n) (a ∷ []) e h = ground arith
hex_decode_lem (suc n) (a ∷ b ∷ s) e h =
    let (x, p) = hex_value_lem a (ground arith) in
    let (y, q) = hex_value_lem b (ground arith) in
    let (raw, r, l) = hex_decode_lem n s (ground arith) (ground arith) in
    ((x * 16 + y) ∷ raw, ground (arith, p, q, r), ground arith)

checked_lem :
    (c c' : Config)
    → checked c ≡ ok c'
    → (length c'.master_kek_hex ≡ 64)
      × (is_hex c'.master_kek_hex ≡ true)
      × (16 ≤ length c'.session_secret)
unfolding checked
checked_lem c c' h = (ground arith, ground arith, ground arith)

-- For a configuration that is accepted, making the vault from the digits of its key is making it
-- from a key of 32 bytes, and the session secret has 16 bytes at least.
pub new_from_hex-load :
    (prim : Primitives) (file : Option File) (env env' : Env) (c : Config)
    → load file env ≡ (ok c, env')
    → (raw : Text) × (length raw ≡ 32)
      × (new_from_hex prim c.master_kek_hex ≡ new_vault prim raw)
      × (16 ≤ length c.session_secret)
unfolding load new_from_hex
new_from_hex-load prim file env env' c h =
    let (long, hex, secret) = checked_lem (of_env (load_dot_env file env)) c (ground arith) in
    let (raw, r, l) = hex_decode_lem 32 c.master_kek_hex long hex in
    (raw, l, ground (arith, long, r), secret)

-- A variable that is set is not set again.
lookup-set_new :
    (env : Env) (k x key v : Text)
    → lookup env key ≡ some v
    → lookup (set_new env (k, x)) key ≡ some v
unfolding set_new setenv lookup
lookup-set_new env k x key v h = elim (Option-cases (lookup env k)) [
  | inr (y, e) ↦ ground arith
  | inl e ↦ elim (Bool-cases (k == key)) [
    | inl q ↦ ground (arith, text_beq_iff k key)
    | inr q ↦ ground arith
  ]
]

lookup-apply_parsed :
    (kv : Option (Text × Text)) (env : Env) (key v : Text)
    → lookup env key ≡ some v
    → lookup (apply_parsed env kv) key ≡ some v
lookup-apply_parsed none env key v h = h
lookup-apply_parsed (some (k, x)) env key v h = lookup-set_new env k x key v h

lookup-apply_line :
    (line : Text) (env : Env) (key v : Text)
    → lookup env key ≡ some v
    → lookup (apply_line env line) key ≡ some v
unfolding apply_line
lookup-apply_line line env key v h = lookup-apply_parsed (parse_line (trim_space line)) env key v h

lookup-apply_lines :
    (lines : List Text) (env : Env) (key v : Text)
    → lookup env key ≡ some v
    → lookup (apply_lines env lines) key ≡ some v
unfolding apply_lines
lookup-apply_lines [] env key v h = h
lookup-apply_lines (line ∷ lines) env key v h =
    lookup-apply_lines lines (apply_line env line) key v (lookup-apply_line line env key v h)

-- A variable that the environment has keeps its value, whatever the file says.
pub lookup-load_dot_env :
    (file : Option File) (env : Env) (key v : Text)
    → lookup env key ≡ some v
    → lookup (load_dot_env file env) key ≡ some v
unfolding load_dot_env
lookup-load_dot_env none env key v h = h
lookup-load_dot_env (some lines) env key v h = lookup-apply_lines lines env key v h
