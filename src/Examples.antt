-- ===== src/Examples.antt =====
-- Concrete data for the tests: a server with one platform, one supplier who may use it, and one
-- channel whose key has not been sent, over stand-ins for the packages that are parameters.
use modex_cloud.Prelude.{
  true, false, Option, none, some, [], ◌∷◌, drop, if◌then◌else◌, ◌==◌, nat_eq, text_eq,
}
use modex_cloud.Prelude.Int.{pos}
use modex_cloud.Text.{Text, text, has_prefix}
use modex_cloud.Wire.{answer}
use modex_cloud.Constant.{pending, status_enabled, role_supplier}
use modex_cloud.Crypto.{Aead, Primitives, Vault}
use modex_cloud.Model.Schema.{Channel, Platform, Grant, User}
use modex_cloud.Model.World.{World, ok}
use modex_cloud.Model.Platform.{Codecs}
use modex_cloud.Model.User.{Bcrypt}
use modex_cloud.Validate.{Std}
use modex_cloud.Controller.Flow.{Context}
use modex_cloud.Controller.SupplierChannel.{Deps, CreateChannelRequest}
use modex_cloud.Controller.Account.{session_of}
use modex_cloud.Router.{Parts, Envelope}

-- A tag in front of the text stands for the authentication.
abbrev untag : Text → Option Text
untag [] = none
untag (t ∷ s) = if t == 7 then some s else none

abbrev pub toy_aead : Aead
toy_aead = record {
  nonce_size = 2;
  seal = λ nonce s ad. 7 ∷ s;
  open_sealed = λ nonce s ad. untag s;
}

abbrev pub toy_vault : Vault
toy_vault = record { aead = toy_aead; hmac_key = [] }

abbrev pub toy_primitives : Primitives
toy_primitives = record { new_gcm = λ key. ok toy_aead; sha256 = λ s. s; hmac_sha256 = λ key s. s }

-- Lists of one entry.
abbrev pub toy_codecs : Codecs
toy_codecs = record {
  ints = record { marshal = λ xs. some (text "[1]"); unmarshal = λ s. some (pos 1 ∷ []) };
  texts = record { marshal = λ xs. some (text "[]"); unmarshal = λ s. some (s ∷ []) };
  platform_groups = record {
    marshal = λ gs. some (text "[]");
    unmarshal = λ s. some (record { name = s; type = pos 1; show_amount = false } ∷ []);
  };
}

abbrev pub toy_std : Std
toy_std = record {
  parse_url = λ s.
      if has_prefix s (text "https://")
      then some (record { scheme = text "https"; host = drop 8 s })
      else none;
  quote = λ s. s;
}

abbrev pub toy_deps : Deps
toy_deps = record { codecs = toy_codecs; std = toy_std; prim = toy_primitives; vault = toy_vault }

-- The version, two bytes of nonce, the tag, and the bytes of `sk`.
abbrev pub sealed_key : Text
sealed_key = 1 ∷ 0 ∷ 0 ∷ 7 ∷ 115 ∷ 107 ∷ []

abbrev pub sealed_token : Text
sealed_token = 1 ∷ 0 ∷ 0 ∷ 7 ∷ 116 ∷ []

abbrev pub fresh_channel : Channel
fresh_channel = record {
  id = pos 1;
  user_id = pos 5;
  platform_id = pos 2;
  name = 110 ∷ [];
  type = pos 1;
  enc_key = sealed_key;
  key_fingerprint = 102 ∷ [];
  key_last4 = [];
  key_state = pending;
  base_url = [];
  models = 109 ∷ [];
  group = 103 ∷ [];
  used_quota = pos 0;
  usage_sync_time = 0;
  remote_id = pos 0;
  sync_status = pos 0;
  sync_error = [];
  sync_attempts = 0;
  last_sync_time = 0;
  status = status_enabled;
  created_time = 50;
  updated_time = 50;
  deleted_at = none;
}

abbrev pub open_platform : Platform
open_platform = record {
  id = pos 2;
  name = 112 ∷ [];
  base_url = 104 ∷ [];
  status = status_enabled;
  modex_token_enc = sealed_token;
  modex_token_last4 = [];
  name_prefix = [];
  groups = 103 ∷ [];
  allowed_types = [];
  allowed_models = [];
  allowed_groups = [];
  base_url_allow = [];
  created_time = 10;
  updated_time = 10;
}

abbrev pub open_grant : Grant
open_grant = record {
  id = pos 1;
  user_id = pos 5;
  platform_id = pos 2;
  allowed_types = [];
  allowed_models = [];
  allowed_groups = [];
  max_channels = pos 0;
  status = status_enabled;
  created_time = 20;
}

abbrev pub server : World
server = record {
  users = record { rows = []; next = 1 };
  platforms = record { rows = open_platform ∷ []; next = 3 };
  grants = record { rows = open_grant ∷ []; next = 2 };
  channels = record { rows = fresh_channel ∷ []; next = 2 };
  audits = record { rows = []; next = 1 };
  clock = 100;
  faults = λ n. false;
  calls = 0;
  entropy = λ n. some (λ i. 0);
  draws = 0;
  http = λ n.
      answer 200
        (some (record { success = true; message = []; data_id = pos 9; data_used_quota = pos 0 }));
  sent = [];
  jobs = pos 1 ∷ [];
}

abbrev pub supplier : Context
supplier = record {
  user_id = pos 5;
  username = 117 ∷ [];
  client_ip = [];
  id_param = 49 ∷ [];
  query = λ k. [];
}

abbrev pub upload : CreateChannelRequest
upload = record { platform_id = pos 2; type = pos 1; key = 115 ∷ 107 ∷ []; models = 109 ∷ [] }

-- A hash is the password behind a byte.
abbrev pub toy_bcrypt : Bcrypt
toy_bcrypt = record { generate = λ d p. some (8 ∷ p); matches = λ h p. h == 8 ∷ p }

-- The supplier's account, with the password `password`.
abbrev pub account : User
account = record {
  id = pos 5;
  username = 117 ∷ [];
  password = 8 ∷ (112 ∷ 97 ∷ 115 ∷ 115 ∷ 119 ∷ 111 ∷ 114 ∷ 100 ∷ []);
  role = role_supplier;
  status = status_enabled;
  supplier_code = [];
  supplier_name = [];
  access_token = none;
  two_fa_enabled = false;
  two_fa_secret_enc = [];
  created_time = 0;
  last_login_time = 0;
  last_login_ip = [];
}

-- The server with that account.
abbrev pub staffed : World
staffed = record server { users = record { rows = account ∷ []; next = 6 } }

abbrev pub toy_parts : Parts
toy_parts = record { deps = toy_deps; bcrypt = toy_bcrypt; saves = λ s. true }

-- A request of the supplier, signed in.
abbrev pub toy_envelope : Envelope
toy_envelope = record {
  client_ip = 49 ∷ [];
  session = session_of account;
  authorization = [];
  id_param = 49 ∷ [];
  query = λ k. [];
  now = 7;
}
