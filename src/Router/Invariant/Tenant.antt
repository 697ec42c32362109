-- ===== src/Router/Invariant/Tenant.antt =====
-- A supplier's request reaches no account, grant or platform, and no channel of another supplier.
use modex_cloud.Prelude.{◌≡◌, refl, ◌⊎◌, inl, inr, subst, sym, ap, ◌∙◌}
use modex_cloud.Model.World.{World, tick}
use modex_cloud.Model.Invariant.{IsValid}
use modex_cloud.Model.Invariant.Channels.{IsValid-tick}
use modex_cloud.Middleware.Auth.{Principal}
use modex_cloud.Middleware.Auth.Laws.{IsCaller}
use modex_cloud.Controller.SupplierChannel.Isolation.{HasTables}
use modex_cloud.Controller.SupplierChannel.Tenant.{others, LeavesOthers-KeptFor}
use modex_cloud.Router.{
  SupplierCall, get_audit_logs, supplier, Envelope, Server, Parts, context, serve_supplier, handle,
}
use modex_cloud.Router.Guards.{IsRefused, handle-IsGuarded}
use modex_cloud.Router.Invariant.{serve_supplier-Serves}
use modex_cloud.Router.Invariant.Isolation.{handle-HasTables}

-- The caller's own request: the rows of the channels of all others are as they were.
abbrev pub IsOwnRequest : Envelope → Server → Server → Type 0
IsOwnRequest e s t =
    (p : Principal) × IsCaller s.world e.session e.authorization p
    × (others p.user_id t.world ≡ others p.user_id s.world)

served_lem :
    (parts : Parts) (call : SupplierCall) (e : Envelope) (p : Principal) (w v : World)
    → IsValid w
    → (v ≡ w) ⊎ (v ≡ tick w)
    → others p.user_id (serve_supplier parts call (context e p) v).1 ≡ others p.user_id w
served_lem parts call e p w v h (inl q) =
    subst (λ x. others p.user_id (serve_supplier parts call (context e p) x).1 ≡ others p.user_id w)
      (sym q)
      ((serve_supplier-Serves (context e p) (LeavesOthers-KeptFor p.user_id w) parts call).at w
        (record { valid = h; same = refl })).same
served_lem parts call e p w v h (inr q) =
    subst (λ x. others p.user_id (serve_supplier parts call (context e p) x).1 ≡ others p.user_id w)
      (sym q)
      ((serve_supplier-Serves (context e p) (LeavesOthers-KeptFor p.user_id w) parts call).at
        (tick w) (record { valid = IsValid-tick w h; same = refl })).same

-- A request to a supplier route at a valid state, whatever it is and whichever statements fail: the
-- tables of accounts, grants and platforms are as they were, and either it is answered with 401 or
-- 403, or there is a caller behind it, and no channel of anyone else has been added, changed or
-- removed.
pub handle-LeavesOthers :
    (parts : Parts) (call : SupplierCall) (e : Envelope) (s : Server)
    → IsValid s.world
    → (let (out, t) = handle parts (supplier call) e s in
        HasTables s.world t.world × (IsRefused s out.0 t ⊎ IsOwnRequest e s t))
handle-LeavesOthers parts call e s h = (
  handle-HasTables parts call e s,
  elim (handle-IsGuarded parts get_audit_logs call e s).1 [
    | inl refused ↦ inl refused
    | inr (p, caller, _, _, (v, state, out), _) ↦ inr (
      p,
      caller,
      ap (λ x. others p.user_id x.1) out ∙ served_lem parts call e p s.world v h state,
    )
  ],
)
