-- ===== src/Router/Guards.antt =====
-- What the guards of the routes keep out.
use modex_cloud.Prelude.{◌≡◌, ◌≢◌, refl, ◌⊎◌, inl, inr, true, arith, ap, sym, subst}
use modex_cloud.Prelude.Int.{ℤ, int_eq, leb_ℤ}
use modex_cloud.Constant.{role_supplier, role_admin, status_disabled}
use modex_cloud.Model.World.{World, tick}
use modex_cloud.Middleware.Auth.{Principal, auth_helper, supplier_auth, admin_auth}
use modex_cloud.Middleware.Auth.Laws.{
  IsCaller, auth_helper_lem, auth_helper_state, auth_helper_status,
}
use modex_cloud.Controller.Flow.{Response, Context, Outcome, next, replied, Handler}
use modex_cloud.Router.{
  SupplierCall, AdminCall, supplier, admin, Envelope, Server, Parts, context, behind, guarded,
  serve_supplier, serve_admin, route, handle,
}

-- A request that is turned away: 401 or 403, and no table has changed.
abbrev pub IsRefused : Server → Response → Server → Type 0
IsRefused s r t =
    ((r.status ≡ 401) ⊎ (r.status ≡ 403))
    × ((t.world ≡ s.world) ⊎ (t.world ≡ tick s.world))
    × (t.limiter ≡ s.limiter)

-- A request that its handler has answered, for a caller whose session or account has the role.
abbrev pub IsServed : ℤ → (Context → Handler) → Envelope → Server → Response → Server → Type 0
IsServed role handler e s r t =
    (p : Principal) × IsCaller s.world e.session e.authorization p
    × (leb_ℤ role p.role ≡ true)
    × (p.status ≢ status_disabled)
    × ((v : World) × ((v ≡ s.world) ⊎ (v ≡ tick s.world))
        × ((r, t.world) ≡ handler (context e p) v))
    × (t.limiter ≡ s.limiter)

abbrev pub IsGuarded : ℤ → (Context → Handler) → Envelope → Server → Response → Server → Type 0
IsGuarded role handler e s r t = IsRefused s r t ⊎ IsServed role handler e s r t

Outcome-cases :
    {A : Type 0} (o : Outcome A) → ((r : Response) × (o ≡ replied r)) ⊎ ((a : A) × (o ≡ next a))
Outcome-cases (replied r) = inl (r, refl)
Outcome-cases (next a) = inr (a, refl)

module _ (role : ℤ) (handler : Context → Handler) (e : Envelope) (s : Server) where
  -- The server after a guarded request.
  abbrev served : Server
  served = record s {
    world =
        (guarded (auth_helper role e.session e.authorization) (λ p. handler (context e p))
          s.world).1;
  }

  guarded_lem :
      IsGuarded role handler e s
        (guarded
          (auth_helper role e.session e.authorization)
          (λ p. handler (context e p))
          s.world).0
        served
  unfolding guarded
  guarded_lem =
      let step = auth_helper role e.session e.authorization s.world in
      let state = auth_helper_state role e.session e.authorization s.world in
      elim (Outcome-cases step.0) [
        | inl (r, q) ↦
            let refused =
              auth_helper_status role e.session e.authorization s.world step.1 r (ground arith) in
            let same = ap (λ o. behind o (λ p. handler (context e p)) step.1) q in
            inl (
              subst (λ x. (x.0.status ≡ 401) ⊎ (x.0.status ≡ 403)) (sym same) refused,
              subst (λ x. (x.1 ≡ s.world) ⊎ (x.1 ≡ tick s.world)) (sym same) state,
              refl,
            )
        | inr (p, q) ↦
            let (caller, enabled, high) =
              auth_helper_lem role e.session e.authorization s.world step.1 p (ground arith) in
            inr (
              p,
              caller,
              high,
              enabled,
              (step.1, state, ap (λ o. behind o (λ p'. handler (context e p')) step.1) q),
              refl,
            )
      ]

-- A request to an admin route, and one to a supplier route: either it is answered with 401 or 403
-- and no table has changed, or its handler has run for the user of the session or, without one, the
-- holder of the access token. The status and the role that count are those in the session's cookie,
-- which may be older than the account's, or those of the holder's account in the table: this status
-- is not "disabled", and this role is at least that of the group.
pub handle-IsGuarded :
    (parts : Parts) (call : AdminCall) (call' : SupplierCall) (e : Envelope) (s : Server)
    → (let (out, t) = handle parts (admin call) e s in
        IsGuarded role_admin (serve_admin parts call) e s out.0 t)
      × (let (out, t) = handle parts (supplier call') e s in
          IsGuarded role_supplier (serve_supplier parts call') e s out.0 t)
unfolding handle route supplier_auth admin_auth
handle-IsGuarded parts call call' e s = (
  guarded_lem role_admin (serve_admin parts call) e s,
  guarded_lem role_supplier (serve_supplier parts call') e s,
)
