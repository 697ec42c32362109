-- ===== src/Router/Blind.antt =====
-- Which requests open sealed secrets.
use modex_cloud.Prelude.{◌≡◌, refl, ap, Bool, true, false, Option}
use modex_cloud.Text.{Text}
use modex_cloud.Crypto.{Vault, seal, fingerprint, seal_blob}
use modex_cloud.Router.{
  get_channels, post_channel, put_channel, post_refresh_usage, post_platform, put_platform, Call,
  post_login, post_logout, get_self, post_change_password, supplier, admin, Envelope, Server, Parts,
  handle, route,
}
use modex_cloud.Controller.SupplierChannel.{
  seal_and_store, create_channel, update_channel, rotate_key, resync_channel, list_channels,
  channel_views,
}
use modex_cloud.Controller.Admin.Platform.{
  create_platform, update_platform, seal_platform_token, rotate_token,
}

-- The vault with another way to open, whatever it is.
abbrev pub with_opener : (Text → Text → Text → Option Text) → Vault → Vault
with_opener g v = record v { aead = record v.aead { open_sealed = g } }

abbrev pub reopened : (Text → Text → Text → Option Text) → Parts → Parts
reopened g parts = record parts {
  deps = record parts.deps { vault = with_opener g parts.deps.vault };
}

-- The refresh of the usage calls the worker's code within the request.
abbrev pub is_refresh : Call → Bool
is_refresh (supplier post_refresh_usage) = true
is_refresh _ = false

module _ (g : Text → Text → Text → Option Text) (parts : Parts) where
  route_lem :
      (call : Call) (e : Envelope)
      → is_refresh call ≡ false
      → route parts call e ≡ route (reopened g parts) call e
  unfolding route seal fingerprint seal_blob create_channel seal_and_store update_channel rotate_key
      resync_channel list_channels channel_views create_platform update_platform seal_platform_token
      rotate_token modex_cloud.Controller.SupplierChannel.check_upload
      modex_cloud.Controller.SupplierChannel.check_limit
      modex_cloud.Controller.Admin.Platform.as_requested
  route_lem (post_login b) e h = refl
  route_lem post_logout e h = refl
  route_lem get_self e h = refl
  route_lem (post_change_password b) e h = refl
  route_lem (admin (post_platform b)) e h = refl
  route_lem (admin (put_platform b)) e h = refl
  route_lem (admin _) e h = refl
  route_lem (supplier get_channels) e h = refl
  route_lem (supplier (post_channel b)) e h = refl
  route_lem (supplier (put_channel b)) e h = refl
  route_lem (supplier post_refresh_usage) e h = cc
  route_lem (supplier _) e h = refl

  -- The response, the session and the state after a request to any route but the refresh of the
  -- usage are the same whatever the vault's opening of sealed secrets does.
  pub handle-reopened :
      (call : Call) (e : Envelope) (s : Server)
      → is_refresh call ≡ false
      → handle parts call e s ≡ handle (reopened g parts) call e s
  unfolding handle
  handle-reopened call e s h = rw (ap (λ r. r s.world) (route_lem call e h))
