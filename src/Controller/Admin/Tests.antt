-- ===== src/Controller/Admin/Tests.antt =====
-- An account that is disabled at a server with one supplier.
use modex_cloud.Prelude.{◌≡◌, ◌≢◌, refl, true, false, some, [], ◌∷◌, find, ◌==◌, text_eq}
use modex_cloud.Prelude.Int.{pos, int_eq}
use modex_cloud.Text.{Text}
use modex_cloud.Constant.{status_disabled}
use modex_cloud.Controller.Flow.{Context, path_id, api_success}
use modex_cloud.Controller.Account.{LoginRequest, login, session_of}
use modex_cloud.Controller.Admin.User.{UpdateUserRequest, update_user}
use modex_cloud.Controller.Admin.User.Laws.{login-update_user}
use modex_cloud.Examples.{toy_bcrypt, account, staffed, supplier}

-- The path names account 5.
abbrev caller : Context
caller = record supplier { id_param = 53 ∷ [] }

abbrev closing : UpdateUserRequest
closing = record { role = pos 0; status = status_disabled; supplier_code = []; supplier_name = [] }

abbrev entry : LoginRequest
entry = record { username = 117 ∷ []; password = 112 ∷ 97 ∷ 115 ∷ 115 ∷ 119 ∷ 111 ∷ 114 ∷ 100 ∷ [] }

names_account : path_id caller ≡ some (pos 5)
unfolding path_id modex_cloud.Text.atoi modex_cloud.Prelude.text_beq
names_account = refl

by_id : find (λ r. r.id == pos 5) staffed.users.rows ≡ some account
unfolding modex_cloud.Prelude.Int.int_beq
by_id = refl

by_name : find (λ r. r.username == account.username) staffed.users.rows ≡ some account
unfolding modex_cloud.Prelude.text_beq
by_name = refl

closed : (update_user caller (some closing) staffed).0.status ≡ 200
unfolding update_user path_id modex_cloud.Text.atoi modex_cloud.Prelude.text_beq api_success
    modex_cloud.Model.User.get_user_by_id modex_cloud.Prelude.Int.int_beq
    modex_cloud.Model.User.update_profile
closed = refl

login-update_user_example :
    (login toy_bcrypt
      (λ s. true)
      supplier
      (some entry)
      (session_of account)
      (update_user caller (some closing) staffed).1).0.0.status
    ≢ 200
login-update_user_example =
    login-update_user toy_bcrypt (λ s. true) caller supplier closing (pos 5) account entry
      (session_of account) staffed names_account by_id by_name refl refl closed
