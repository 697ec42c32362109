-- ===== src/Router/Invariant.antt =====
-- What the requests keep, each with its guard and its handler.
pub mod Isolation
pub mod Tenant
pub mod Consistent
use modex_cloud.Prelude.{◌≡◌, refl, ◌⊎◌, inl, inr, Option, [], ◌∷◌, subst, sym, none, some, List}
use modex_cloud.Prelude.Int.{ℤ}
use modex_cloud.Text.{Text, text}
use modex_cloud.Model.Schema.{Platform, Grant}
use modex_cloud.Model.World.{World, Error, first, query, tick}
use modex_cloud.Model.World.Keeps.{
  Keeps, Keeps-first, Keeps-attempt, Keeps->>=, Keeps-pure, keeps_rules,
}
use modex_cloud.Model.Channel.Rows.{SameRows, SameRows-tick}
use modex_cloud.Model.Grant.{list_grants_for_user}
use modex_cloud.Middleware.Auth.{Session, Principal, auth_helper}
use modex_cloud.Middleware.Auth.Laws.{auth_helper_state}
use modex_cloud.Controller.Flow.{Context, Outcome, next, replied, Handler}
use modex_cloud.Controller.Flow.Keeps.{Serves, flow_rules}
use modex_cloud.Controller.SupplierChannel.Reads.{get_platform-Keeps, query-Keeps}
use modex_cloud.Controller.SupplierChannel.Preserve.{
  KeptFor, create_channel-Serves, update_channel-Serves, resync_channel-Serves,
  refresh_channel_usage-Serves, list_channels-Serves, delete_channel-Serves,
}
use modex_cloud.Controller.SupplierPlatform.{PlatformView, platform_views, list_my_platforms}
use modex_cloud.Model.Platform.{Codecs}
use modex_cloud.Router.{
  SupplierCall, get_channels, post_channel, put_channel, remove_channel, post_resync,
  post_refresh_usage, get_my_platforms, Parts, behind, guarded, serve_supplier,
}

module _ (P : World → Type 0) (ticks : (w : World) → P w → P (tick w)) where
  pub guarded-Serves :
      (role : ℤ) (s : Session) (header : Text) (h : Principal → Handler)
      → ((p : Principal) → Serves P (h p))
      → Serves P (guarded (auth_helper role s header) h)
  unfolding guarded
  guarded-Serves role s header h k = record {
    at = λ w p.
        go (auth_helper role s header w).0 (auth_helper role s header w).1
          (elim (auth_helper_state role s header w) [
            | inl e ↦ subst P (sym e) p
            | inr e ↦ subst P (sym e) (ticks w p)
          ]);
  }
    where
      go : (o : Outcome Principal) (v : World) → P v → P (behind o h v).1
      go (next p) v q = (k p).at v q
      go (replied r) v q = q

module _ {P : World → Type 0} {Q : ℤ → World → Type 0} (c : Context) (k : KeptFor c.user_id P Q)
    (parts : Parts) where
  platform_views-Keeps : (gs : List Grant) → Keeps P (platform_views parts.deps.codecs gs)
  unfolding platform_views
  platform_views-Keeps [] = Keeps-pure _
  platform_views-Keeps (g ∷ gs) =
      Keeps-attempt _ _ _ (get_platform-Keeps k.same g.platform_id) (λ e. platform_views-Keeps gs)
        (λ p. Keeps->>= _ _ (platform_views-Keeps gs) (λ views. Keeps-pure _))

  list_grants-Keeps : (user : ℤ) → Keeps P (list_grants_for_user user)
  unfolding list_grants_for_user
  list_grants-Keeps user = query-Keeps k.same _

  list_my_platforms-Serves : Serves P (list_my_platforms parts.deps.codecs c)
  unfolding list_my_platforms
  list_my_platforms-Serves =
      search (keeps_rules, flow_rules, platform_views-Keeps, list_grants-Keeps)

  pub serve_supplier-Serves : (call : SupplierCall) → Serves P (serve_supplier parts call c)
  unfolding serve_supplier
  serve_supplier-Serves get_channels = list_channels-Serves parts.deps c k _ _ _
  serve_supplier-Serves (post_channel body) = create_channel-Serves parts.deps c k body
  serve_supplier-Serves (put_channel body) = update_channel-Serves parts.deps c k body
  serve_supplier-Serves remove_channel = delete_channel-Serves parts.deps c k
  serve_supplier-Serves post_resync = resync_channel-Serves parts.deps c k
  serve_supplier-Serves post_refresh_usage = refresh_channel_usage-Serves parts.deps c k
  serve_supplier-Serves get_my_platforms = list_my_platforms-Serves
