-- ===== src/Router/Tests.antt =====
-- The theorems on requests at a server with one supplier, who is signed in.
use modex_cloud.Prelude.{
  ◌≡◌, refl, ℕ, ◌≤◌, true, false, some, none, List, [], ◌∷◌, arith, ◌==◌, count, if◌then◌else◌, inl,
  ◌⊎◌, inr, ◌+◌, All, Option, text_eq,
}
use modex_cloud.Prelude.Int.{ℤ, pos, int_eq}
use modex_cloud.Constant.{role_supplier, role_admin}
use modex_cloud.Model.Grant.{links}
use modex_cloud.Controller.SupplierChannel.Isolation.{HasTables}
use modex_cloud.Controller.Admin.Consistent.{IsConsistent, HasRoles}
use modex_cloud.Router.{
  Call, post_login, post_channel, post_user, remove_channel, supplier, admin, Envelope, Server,
  login_limiter, handle, handle_all, serve_supplier, serve_admin,
}
use modex_cloud.Router.Guards.{IsRefused, IsGuarded, handle-IsGuarded}
use modex_cloud.Router.Logins.{answered_logins, answered_logins-le}
use modex_cloud.Router.Invariant.Tenant.{IsOwnRequest, handle-LeavesOthers}
use modex_cloud.Router.Invariant.Consistent.{handle_all-IsConsistent}
use modex_cloud.Router.Blind.{reopened, handle-reopened}
use modex_cloud.Examples.{staffed, upload, toy_parts, toy_envelope}
use modex_cloud.Router.Spa.{Files, Answer, asset, shell, refused, mount_spa}
use modex_cloud.Text.{Text, text}
use modex_cloud.Controller.Flow.{api_error}

abbrev machine : Server
machine = record { world = staffed; limiter = login_limiter }

handle-IsGuarded_example :
    (let (out, t) = handle toy_parts (admin (post_user none)) toy_envelope machine in
      IsGuarded role_admin (serve_admin toy_parts (post_user none)) toy_envelope machine out.0 t)
    × (let (out, t) =
          handle toy_parts (supplier (post_channel (some upload))) toy_envelope machine in
        IsGuarded role_supplier
          (serve_supplier toy_parts (post_channel (some upload)))
          toy_envelope
          machine
          out.0
          t)
handle-IsGuarded_example =
    handle-IsGuarded toy_parts (post_user none) (post_channel (some upload)) toy_envelope machine

-- A login, an upload, an admin's request that is refused, and a deletion.
abbrev requests : List (Call × Envelope)
requests =
    (post_login (some (record { username = 117 ∷ []; password = 112 ∷ [] })), toy_envelope)
    ∷ (supplier (post_channel (some upload)), toy_envelope)
    ∷ (admin (post_user none), toy_envelope)
    ∷ (supplier remove_channel, toy_envelope)
    ∷ []

answered_logins-le_example : answered_logins toy_parts (49 ∷ []) 0 60 machine requests ≤ 20
answered_logins-le_example =
    answered_logins-le toy_parts (49 ∷ []) 0 60 machine requests refl (omega arith, tt)
      (omega arith)

one_grant : (user platform : ℤ) → count (links user platform) staffed.grants.rows ≤ 1
one_grant user platform = ground arith

valid_roles : HasRoles staffed
unfolding modex_cloud.Constant.is_valid_role modex_cloud.Prelude.Int.int_beq
valid_roles = record { valid = (refl, tt) }

staffed-IsConsistent : IsConsistent staffed
staffed-IsConsistent = record {
  channels = record {
    channels = record { wiped = ground arith; below = ground arith; distinct = ground arith };
  };
  grants = record { once = one_grant };
  users = valid_roles;
}

handle_all-IsConsistent_example : IsConsistent (handle_all toy_parts requests machine).world
handle_all-IsConsistent_example =
    handle_all-IsConsistent toy_parts requests machine staffed-IsConsistent

-- A build with a page and one script.
abbrev build : Files
build = record {
  read_file = λ name. if name == text "index.html" then some (1 ∷ []) else none;
  opens = λ name. name == text "app.js";
  stats = λ name. name == text "app.js";
}

answer_to : Text → Option Answer
answer_to p = elim (mount_spa (some build)) [ none ↦ none | some f ↦ some (f p) ]

spa_answers :
    (answer_to (text "/app.js") ≡ some (asset (text "/app.js")))
    × (answer_to (text "/channels/3") ≡ some (shell (1 ∷ [])))
    × (answer_to (text "/api/none") ≡ some (refused (api_error 404 (text "not found"))))
unfolding answer_to mount_spa modex_cloud.Router.Spa.no_route modex_cloud.Text.has_prefix
    modex_cloud.Text.trim_prefix modex_cloud.Text.text modex_cloud.Prelude.text_beq
spa_answers = (refl, refl, refl)

handle-LeavesOthers_example :
    let (out, t) = handle toy_parts (supplier (post_channel (some upload))) toy_envelope machine in
    HasTables staffed t.world × (IsRefused machine out.0 t ⊎ IsOwnRequest toy_envelope machine t)
handle-LeavesOthers_example =
    handle-LeavesOthers toy_parts (post_channel (some upload)) toy_envelope machine
      staffed-IsConsistent.channels

handle-reopened_example :
    handle toy_parts (supplier (post_channel (some upload))) toy_envelope machine
    ≡ handle
        (reopened (λ n c a. none) toy_parts)
        (supplier (post_channel (some upload)))
        toy_envelope
        machine
handle-reopened_example =
    handle-reopened (λ n c a. none) toy_parts (supplier (post_channel (some upload))) toy_envelope
      machine refl
