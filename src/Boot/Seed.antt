-- ===== src/Boot/Seed.antt =====
-- common/crypto.go and `SeedRootUser` of model/user.go: random passwords and the first account.
pub mod Laws
use modex_cloud.Prelude.{
  ℕ, zero, suc, ◌+◌, ◌%◌, Bool, true, false, none, some, [], ◌∷◌, length, ltb, if◌then◌else◌, ◌==◌,
  text_eq,
}
use modex_cloud.Prelude.Int.{ℤ, pos}
use modex_cloud.Text.{Text, text}
use modex_cloud.Constant.{role_root, status_enabled}
use modex_cloud.Model.Schema.{User}
use modex_cloud.Model.World.{World, errorf, Action, pure, raise, ◌>>=◌, query}
use modex_cloud.Model.User.{Bcrypt, create}

unfoldable pub key_chars : Text
key_chars = text "0123456789abcdefghijklmnopqrstuvwxyzABCDEFGHIJKLMNOPQRSTUVWXYZ"

-- The byte at an index below the length.
unfoldable pub char_at : Text → ℕ → ℕ
char_at [] i = 0
char_at (c ∷ s) zero = c
char_at (c ∷ s) (suc i) = char_at s i

-- `crand.Int`: any number below the bound, as one draw chooses it.
unfoldable pub rand_below : ℕ → Action ℕ
rand_below bound w =
    let w' = record w { draws = w.draws + 1 } in
    elim (w.entropy w.draws) [
      | none ↦ raise (errorf (text "unexpected EOF")) w'
      | some f ↦ pure (f 0 % bound) w'
    ]

unfoldable pub generate_random_chars_key : ℕ → Action Text
unfolding rand_below
generate_random_chars_key zero = pure []
generate_random_chars_key (suc n) = do
  i ← rand_below (length key_chars)
  rest ← generate_random_chars_key n
  pure (char_at key_chars i ∷ rest)

unfoldable pub generate_access_token : Action Text
unfolding generate_random_chars_key
generate_access_token = generate_random_chars_key 48

pub record Seeded : Type 0 where
  pub created : Bool
  pub generated : Text

-- The password to seed with, and the one to report: generated where none is given.
chosen_password : Text → Action (Text × Text)
unfolding generate_random_chars_key
chosen_password password =
    if password == []
    then (generate_random_chars_key 16 >>= λ p. pure (p, p))
    else pure (password, [])

abbrev pub root_user : Text → User
root_user username = record {
  id = pos 0;
  username = username;
  password = [];
  role = role_root;
  status = status_enabled;
  supplier_code = [];
  supplier_name = [];
  access_token = none;
  two_fa_enabled = false;
  two_fa_secret_enc = [];
  created_time = 0;
  last_login_time = 0;
  last_login_ip = [];
}

module _ (bcrypt : Bcrypt) where
  seed : Text → Text → Action Seeded
  unfolding chosen_password
  seed username password = do
    (plain, generated) ← chosen_password password
    u ← create bcrypt (root_user username) plain
    pure (record { created = true; generated = generated })

  unfoldable pub seed_root_user : Text → Text → Action Seeded
  unfolding seed
  seed_root_user username password = do
    count ← query (λ w. length w.users.rows)
    if ltb 0 count
        then pure (record { created = false; generated = [] })
        else seed username password
