-- ===== src/Router/Invariant/Isolation.antt =====
-- A supplier's request reaches no account, grant or platform.
use modex_cloud.Prelude.{refl}
use modex_cloud.Constant.{role_supplier}
use modex_cloud.Model.Channel.Rows.{SameRows-tick}
use modex_cloud.Middleware.Auth.{supplier_auth}
use modex_cloud.Controller.SupplierChannel.Isolation.{HasTables, HasTables-KeptByChannels}
use modex_cloud.Controller.SupplierChannel.Preserve.{any_user}
use modex_cloud.Router.{
  SupplierCall, supplier, Envelope, Server, Parts, context, serve_supplier, route, handle,
}
use modex_cloud.Router.Invariant.{guarded-Serves, serve_supplier-Serves}

-- A request to a supplier route, whatever it is and whichever statements fail, leaves the tables of
-- accounts, grants and platforms as they were.
pub handle-HasTables :
    (parts : Parts) (call : SupplierCall) (e : Envelope) (s : Server)
    → HasTables s.world (handle parts (supplier call) e s).1.world
unfolding handle route supplier_auth
handle-HasTables parts call e s =
    let k = HasTables-KeptByChannels s.world in
    (guarded-Serves (HasTables s.world) (λ w h. k.same w _ (SameRows-tick w) h) role_supplier
        e.session e.authorization (λ p. serve_supplier parts call (context e p))
        (λ p. serve_supplier-Serves (context e p) (any_user k p.user_id) parts call)).at
      s.world (record { users = refl; grants = refl; platforms = refl })
