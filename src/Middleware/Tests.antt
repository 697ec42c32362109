-- ===== src/Middleware/Tests.antt =====
-- The theorems on the limiter and on the authentication at concrete requests.
use modex_cloud.Prelude.{◌≡◌, refl, ℕ, true, some, none, [], ◌∷◌, ◌+◌, ◌<◌, arith, List}
use modex_cloud.Prelude.Int.{pos}
use modex_cloud.Middleware.Limiter.{Hit, new_limiter, allow, run, admitted}
use modex_cloud.Middleware.Limiter.Laws.{requests_of, admitted-requests_of}
use modex_cloud.Middleware.Limiter.Expiry.{Before, allow-run}
use modex_cloud.Middleware.Auth.{auth_helper}
use modex_cloud.Middleware.Auth.Laws.{auth_helper-session}
use modex_cloud.Controller.Account.{session_of}
use modex_cloud.Constant.{role_supplier}
use modex_cloud.Examples.{server, staffed, account}

-- Two clients, of whom the first asks three times.
abbrev hits : List Hit
hits = (1 ∷ [], 0) ∷ (2 ∷ [], 1) ∷ (1 ∷ [], 2) ∷ (1 ∷ [], 3) ∷ []

admitted-requests_of_example :
    admitted (1 ∷ []) 0 9 (new_limiter 2 10) hits
    ≡ admitted (1 ∷ []) 0 9 (new_limiter 2 10) (requests_of (1 ∷ []) hits)
admitted-requests_of_example = admitted-requests_of (1 ∷ []) 0 9 (new_limiter 2 10) hits

-- The third request of the first client is refused, and a later one is not.
two_admitted : admitted (1 ∷ []) 0 9 (new_limiter 2 10) hits ≡ 2
unfolding admitted modex_cloud.Prelude.text_beq allow new_limiter
two_admitted = refl

in_time : Before 3 hits
in_time = (omega arith, (omega arith, (omega arith, (omega arith, tt))))

allow-run_example : (allow (run (new_limiter 2 10) hits) (1 ∷ []) 14).0 ≡ true
allow-run_example = allow-run 2 10 3 14 (1 ∷ []) hits in_time (omega arith)

auth_helper-session_example :
    ((auth_helper role_supplier (session_of account) [] staffed).0
      ≡ (auth_helper role_supplier (session_of account) [] server).0)
    × ((auth_helper role_supplier (session_of account) [] staffed).1 ≡ staffed)
auth_helper-session_example =
    auth_helper-session role_supplier (pos 5) (session_of account) [] [] staffed server refl
