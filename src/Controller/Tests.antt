-- ===== src/Controller/Tests.antt =====
-- The theorems on accounts, pages and listings at a server with one supplier.
use modex_cloud.Prelude.{
  ◌≡◌, ◌≢◌, refl, ℕ, zero, suc, ◌+◌, ◌<◌, ◌≤◌, ◌*◌, count, map, ◌-◌, ◌⊎◌, true, false, some, none,
  Option, List, [], ◌∷◌, arith, text_beq_iff, find, ◌==◌, text_eq, if◌then◌else◌, inl, inr, All,
}
use modex_cloud.Prelude.Int.{ℤ, pos, pos_part, int_eq}
use modex_cloud.Text.{Text, text, trim_space}
use modex_cloud.Constant.{status_disabled}
use modex_cloud.Validate.{ChannelInput, Normalized, accepted, channel_upload, normalize_models}
use modex_cloud.Controller.Flow.{Context, api_success}
use modex_cloud.Controller.Paging.{page_params, atoi_or_zero}
use modex_cloud.Controller.Paging.Cover.{AsksFor, read_pages, all_listed, read_pages-All}
use modex_cloud.Model.World.{World, ok}
use modex_cloud.Model.Channel.{listed, omit_key}
use modex_cloud.Controller.Account.{
  LoginRequest, ChangePasswordRequest, login, change_password, session_of, user_json,
}
use modex_cloud.Controller.Account.Laws.{Enters, IsFilled, login-same_answer, login_lem}
use modex_cloud.Controller.Account.Laws.ChangePassword.{Verifies, login-change_password}
use modex_cloud.Controller.SupplierPlatform.{platform_view}
use modex_cloud.Controller.SupplierPlatform.Laws.{Covers, CoversName, platform_view-Covers}
use modex_cloud.Controller.Admin.User.{list_users}
use modex_cloud.Controller.Admin.Platform.{list_platforms}
use modex_cloud.Controller.Admin.Secrets.{with_secrets, with_sealed, reseal, listings-reseal}
use modex_cloud.Examples.{
  toy_codecs, toy_std, toy_bcrypt, account, server, fresh_channel, staffed, supplier, open_platform,
  open_grant,
}

-- The third page of ten.
abbrev third : Text → Text
third k = if k == text "page" then 51 ∷ [] else 49 ∷ 48 ∷ []

abbrev third_page : Context
third_page = record supplier { query = third }

from_the_20th : page_params third_page ≡ (pos 20, 10)
unfolding page_params modex_cloud.Text.atoi modex_cloud.Prelude.text_beq text
from_the_20th = refl

-- Two pages of one channel each.
abbrev asked_page : ℕ → Context
asked_page i = record supplier { query = λ k. if k == text "page" then (49 + i) ∷ [] else 49 ∷ [] }

abbrev two_channels : World
two_channels = record server {
  channels = record { rows = fresh_channel ∷ record fresh_channel { id = pos 2 } ∷ []; next = 3 };
}

asked_page-AsksFor : (i : ℕ) → i < 2 → AsksFor (suc i) 1 (asked_page i)
unfolding atoi_or_zero modex_cloud.Text.atoi modex_cloud.Prelude.text_beq text
asked_page-AsksFor zero h = (refl, refl)
asked_page-AsksFor (suc zero) h = (refl, refl)
asked_page-AsksFor (suc (suc k)) h = absurd (omega arith)

room_for_two : count (listed (pos 5) (pos 0)) two_channels.channels.rows ≤ 2 * 1
unfolding listed modex_cloud.Prelude.Int.int_beq
room_for_two = omega arith

read_pages-All_example :
    (read_pages asked_page (pos 5) (pos 0) 2 two_channels).0
    ≡ ok (map omit_key (all_listed (pos 5) (pos 0) two_channels))
read_pages-All_example =
    read_pages-All (pos 5) (pos 0) asked_page 1 (omega arith) (omega arith) 2 two_channels
      (λ n. refl) (omega arith) asked_page-AsksFor room_for_two

-- A name that is not there, and a wrong password.
abbrev nobody : LoginRequest
nobody = record { username = 120 ∷ []; password = 112 ∷ [] }

abbrev guess : LoginRequest
guess = record { username = 117 ∷ []; password = 112 ∷ [] }

abbrev long_password : Text
long_password = 112 ∷ 97 ∷ 115 ∷ 115 ∷ 119 ∷ 111 ∷ 114 ∷ 100 ∷ []

abbrev entrance : LoginRequest
entrance = record { username = 117 ∷ []; password = long_password }

nobody-IsFilled : IsFilled nobody
unfolding modex_cloud.Prelude.text_beq
nobody-IsFilled = refl

guess-IsFilled : IsFilled guess
unfolding modex_cloud.Prelude.text_beq
guess-IsFilled = refl

nobody_there : find (λ u. u.username == nobody.username) staffed.users.rows ≡ none
unfolding modex_cloud.Prelude.text_beq
nobody_there = refl

account_there : find (λ u. u.username == 117 ∷ []) staffed.users.rows ≡ some account
unfolding modex_cloud.Prelude.text_beq
account_there = refl

wrong_guess : toy_bcrypt.matches account.password guess.password ≡ false
unfolding modex_cloud.Prelude.text_beq
wrong_guess = refl

login-same_answer_example :
    login toy_bcrypt (λ s. true) supplier (some nobody) (session_of account) staffed
    ≡ login toy_bcrypt (λ s. true) supplier (some guess) (session_of account) staffed
login-same_answer_example =
    login-same_answer toy_bcrypt (λ s. true) supplier nobody guess (session_of account) staffed
      nobody-IsFilled guess-IsFilled (inl nobody_there) (inr (account, account_there, wrong_guess))

let_in :
    (login toy_bcrypt (λ s. true) supplier (some entrance) (session_of account) staffed).0.0.status
    ≡ 200
unfolding login modex_cloud.Prelude.text_beq modex_cloud.Model.User.get_user_by_username
    modex_cloud.Controller.Account.validate_password_and_hash modex_cloud.Prelude.Int.int_beq
    api_success
let_in = refl

login_lem_example :
    Enters toy_bcrypt
      (λ s. true)
      (some entrance)
      staffed
      (login toy_bcrypt (λ s. true) supplier (some entrance) (session_of account) staffed).0.1
login_lem_example =
    login_lem toy_bcrypt (λ s. true) supplier (some entrance) (session_of account) staffed let_in

-- The supplier's password, changed.
abbrev renewal : ChangePasswordRequest
renewal = record { old_password = long_password; new_password = 49 ∷ long_password }

pub toy_bcrypt-Verifies : Verifies toy_bcrypt
toy_bcrypt-Verifies d p h e = ground (arith, text_beq_iff h (8 ∷ p))

account_by_id : find (λ r. r.id == pos 5) staffed.users.rows ≡ some account
unfolding modex_cloud.Prelude.Int.int_beq
account_by_id = refl

renewed : (change_password toy_bcrypt supplier (some renewal) staffed).0.status ≡ 200
unfolding change_password modex_cloud.Model.User.get_user_by_id modex_cloud.Prelude.Int.int_beq
    modex_cloud.Controller.Account.validate_password_and_hash modex_cloud.Prelude.text_beq
    modex_cloud.Model.User.update_password api_success
renewed = refl

login-change_password_example :
    (login toy_bcrypt
      (λ s. true)
      supplier
      (some (record { username = account.username; password = renewal.new_password }))
      (session_of account)
      (change_password toy_bcrypt supplier (some renewal) staffed).1).0
    ≡ (api_success (user_json account), session_of account)
login-change_password_example =
    login-change_password toy_bcrypt (λ s. true) supplier supplier renewal account
      (session_of account) staffed toy_bcrypt-Verifies (λ n. refl) (λ e. ground arith) account_by_id
      account_there (λ e. ground arith) (λ e. ground arith) refl renewed

listings-reseal_example :
    ((list_users supplier
        (reseal (λ u. with_secrets [] none [] u) (λ p. with_sealed [] p) staffed)).0
      ≡ (list_users supplier staffed).0)
    × ((list_platforms (reseal (λ u. with_secrets [] none [] u) (λ p. with_sealed [] p) staffed)).0
        ≡ (list_platforms staffed).0)
listings-reseal_example = listings-reseal (λ u. []) (λ u. []) (λ u. none) (λ p. []) supplier staffed

-- An upload for one type, one model and one group.
abbrev one_model : ChannelInput
one_model = record {
  platform_id = pos 2;
  type = pos 1;
  models = (109 ∷ []) ∷ [];
  group = 103 ∷ [];
  base_url = [];
}

abbrev stored : Normalized
stored = record { models_csv = 109 ∷ []; group = 103 ∷ []; base_url = [] }

upload_accepted :
    channel_upload toy_codecs toy_std one_model open_platform (some open_grant) ≡ accepted stored
unfolding channel_upload modex_cloud.Validate.check_supported
    modex_cloud.Constant.is_supported_channel_type modex_cloud.Prelude.Int.int_beq
    modex_cloud.Validate.check_type modex_cloud.Validate.compute_effective
    modex_cloud.Json.decode_list modex_cloud.Prelude.text_beq modex_cloud.Validate.check_models
    normalize_models trim_space modex_cloud.Validate.check_group modex_cloud.Validate.check_base
    modex_cloud.Text.join
upload_accepted = refl

platform_view-Covers_example :
    Covers (platform_view toy_codecs open_grant open_platform).allowed_types (pos 1)
    × All
        (CoversName (platform_view toy_codecs open_grant open_platform).allowed_models)
        (normalize_models one_model.models)
    × ((trim_space one_model.group ≡ [])
        ⊎ CoversName
            (platform_view toy_codecs open_grant open_platform).allowed_groups
            (trim_space one_model.group))
platform_view-Covers_example =
    platform_view-Covers toy_codecs toy_std one_model open_platform open_grant stored
      upload_accepted
