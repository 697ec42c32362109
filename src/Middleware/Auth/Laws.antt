-- ===== src/Middleware/Auth/Laws.antt =====
-- Who gets past the authentication, and what it costs.
use modex_cloud.Prelude.{
  ◌≡◌, ◌≢◌, refl, ◌⊎◌, inl, inr, true, none, some, [], find, text_eq, arith, Option-cases,
  text_beq_iff,
}
use modex_cloud.Prelude.Int.{ℤ, int_eq, int_beq_iff, leb_ℤ}
use modex_cloud.Text.{Text}
use modex_cloud.Constant.{status_disabled}
use modex_cloud.Model.Schema.{User}
use modex_cloud.Model.World.{World, Result, ok, err, tick}
use modex_cloud.Model.User.{validate_access_token, same_token}
use modex_cloud.Controller.Flow.{Response, next, replied, abort_error}
use modex_cloud.Middleware.Auth.{
  Session, Principal, of_session, of_user, resolve, from_token, auth_helper, bearer_token,
  user_from_access_token,
}

-- Who a caller is: by the session, where it names a user, or else the holder of the token.
abbrev pub IsCaller : World → Session → Text → Principal → Type 0
IsCaller w s header p =
    ((id : ℤ) × (s.user_id ≡ some id) × (p ≡ of_session s id))
    ⊎ ((u : User) × (s.user_id ≡ none)
        × (find (λ r. same_token r.access_token (some (bearer_token header))) w.users.rows ≡ some u)
        × (u.username ≢ [])
        × (p ≡ of_user u))

user_lem :
    (header : Text) (w v : World) (u : User)
    → user_from_access_token header w ≡ (ok u, v)
    → (find (λ r. same_token r.access_token (some (bearer_token header))) w.users.rows ≡ some u)
      × (u.username ≢ [])
unfolding user_from_access_token validate_access_token
user_lem header w v u h = ground (arith, text_beq_iff u.username [])

-- Reading a token is at most one statement, and it writes nothing.
token_state :
    (header : Text) (w : World)
    → ((user_from_access_token header w).1 ≡ w) ⊎ ((user_from_access_token header w).1 ≡ tick w)
unfolding user_from_access_token validate_access_token
token_state header w = ground arith

from_token_lem :
    (header : Text) (w v : World) (p : Principal)
    → from_token header w ≡ (next p, v)
    → (u : User) × (user_from_access_token header w ≡ (ok u, v)) × (p ≡ of_user u)
unfolding from_token
from_token_lem header w v p h =
    caller (user_from_access_token header w).0 (user_from_access_token header w).1 refl
  where
    caller :
        (r : Result User) (x : World)
        → user_from_access_token header w ≡ (r, x)
        → (u : User) × (user_from_access_token header w ≡ (ok u, v)) × (p ≡ of_user u)
    caller (ok u) x e = (u, ground arith, ground arith)
    caller (err e') x e = ground arith

resolve_lem :
    (s : Session) (header : Text) (w v : World) (p : Principal)
    → resolve s header w ≡ (next p, v)
    → IsCaller w s header p
unfolding resolve
resolve_lem s header w v p h = elim (Option-cases s.user_id) [
  | inl e ↦
      let (u, read, same) = from_token_lem header w v p (rw (e, resolve) at h) in
      let (found, named) = user_lem header w v u read in inr (u, e, found, named, same)
  | inr (id, e) ↦ inl (id, e, ground arith)
]

resolve_state :
    (s : Session) (header : Text) (w : World)
    → ((resolve s header w).1 ≡ w) ⊎ ((resolve s header w).1 ≡ tick w)
unfolding resolve from_token
resolve_state s header w = ground (arith, token_state header w)

-- Whoever gets past the authentication is the user of the session or the holder of the token; the
-- status of that session or account is not "disabled", and its role is high enough.
pub auth_helper_lem :
    (min_role : ℤ) (s : Session) (header : Text) (w v : World) (p : Principal)
    → auth_helper min_role s header w ≡ (next p, v)
    → IsCaller w s header p × (p.status ≢ status_disabled) × (leb_ℤ min_role p.role ≡ true)
unfolding auth_helper
auth_helper_lem min_role s header w v p h =
    let (e, enabled, high) : (resolve s header w ≡ (next p, v))
        × (p.status ≢ status_disabled)
        × (leb_ℤ min_role p.role ≡ true) =
      ground (arith, int_beq_iff p.status status_disabled) in
    (resolve_lem s header w v p e, enabled, high)

-- Whoever the caller is, nothing is written.
pub auth_helper_state :
    (min_role : ℤ) (s : Session) (header : Text) (w : World)
    → ((auth_helper min_role s header w).1 ≡ w) ⊎ ((auth_helper min_role s header w).1 ≡ tick w)
unfolding auth_helper
auth_helper_state min_role s header w = ground (arith, resolve_state s header w)

-- Who is turned away is told so.
pub auth_helper_status :
    (min_role : ℤ) (s : Session) (header : Text) (w v : World) (r : Response)
    → auth_helper min_role s header w ≡ (replied r, v)
    → (r.status ≡ 401) ⊎ (r.status ≡ 403)
unfolding auth_helper resolve from_token abort_error
auth_helper_status min_role s header w v r h = ground arith

-- For a caller with a session, the decision and the principal are the same whatever is in the
-- database and in the header, and the database is not read.
pub auth_helper-session :
    (min_role id : ℤ) (s : Session) (header header' : Text) (w w' : World)
    → s.user_id ≡ some id
    → ((auth_helper min_role s header w).0 ≡ (auth_helper min_role s header' w').0)
      × ((auth_helper min_role s header w).1 ≡ w)
unfolding auth_helper resolve
auth_helper-session min_role id s header header' w w' e = ground arith
