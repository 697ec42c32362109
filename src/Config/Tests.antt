-- ===== src/Config/Tests.antt =====
-- The theorems on the configuration at a small environment.
use modex_cloud.Prelude.{
  ◌≡◌, refl, ℕ, ◌≤◌, true, false, any, ◌==◌, nat_eq, some, none, Option, [], ◌∷◌, length, arith,
}
use modex_cloud.Text.{Text, text}
use modex_cloud.Model.World.{ok}
use modex_cloud.Crypto.{new_vault, new_from_hex}
use modex_cloud.Config.{Config, load, of_env}
use modex_cloud.Config.DotEnv.{Env, File, lookup, load_dot_env}
use modex_cloud.Config.Laws.{new_from_hex-load}
use modex_cloud.Config.Laws.Line.{IsName, entry, lookup-entry}
use modex_cloud.Examples.{toy_primitives}

abbrev hex_key : Text
hex_key = text "00112233445566778899aabbccddeeff00112233445566778899AABBCCDDEEFF"

abbrev secret : Text
secret = text "0123456789abcdef"

-- The key is in the environment, the secret in the file.
abbrev real_env : Env
real_env = (text "MASTER_KEK", hex_key) ∷ []

abbrev file : File
file = entry (text "SESSION_SECRET") secret ∷ []

abbrev loaded : Config
loaded = of_env (load_dot_env (some file) real_env)

is_accepted : load (some file) real_env ≡ (ok loaded, load_dot_env (some file) real_env)
unfolding load modex_cloud.Config.DotEnv.getenv lookup load_dot_env
    modex_cloud.Config.DotEnv.parse_line modex_cloud.Prelude.text_beq modex_cloud.Text.trim_space
    text modex_cloud.Text.has_prefix modex_cloud.Config.DotEnv.cut_equals
    modex_cloud.Text.trim_prefix modex_cloud.Config.DotEnv.set_new modex_cloud.Config.DotEnv.setenv
    modex_cloud.Config.DotEnv.unquote modex_cloud.Config.is_hex
is_accepted = refl

new_from_hex-load_example :
    (raw : Text) × (length raw ≡ 32)
    × (new_from_hex toy_primitives loaded.master_kek_hex ≡ new_vault toy_primitives raw)
    × (16 ≤ length loaded.session_secret)
new_from_hex-load_example =
    new_from_hex-load toy_primitives (some file) real_env (load_dot_env (some file) real_env) loaded
      is_accepted

not_in_env : lookup real_env (text "SESSION_SECRET") ≡ none
unfolding lookup modex_cloud.Prelude.text_beq text
not_in_env = refl

secret-IsName : IsName (text "SESSION_SECRET")
unfolding text
secret-IsName = ((λ e. ground arith), refl)

no_zero : any (λ c. c == 0) secret ≡ false
unfolding text
no_zero = refl

lookup-entry_example :
    lookup (load_dot_env (some file) real_env) (text "SESSION_SECRET") ≡ some secret
lookup-entry_example =
    lookup-entry real_env (text "SESSION_SECRET") secret secret-IsName no_zero not_in_env
