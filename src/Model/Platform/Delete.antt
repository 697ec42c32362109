-- ===== src/Model/Platform/Delete.antt =====
-- `DeletePlatform`: no platform goes while channels still refer to it.
use modex_cloud.Prelude.{◌≡◌, count, ◌==◌, arith, count-filter-not}
use modex_cloud.Prelude.Int.{ℤ, int_eq}
use modex_cloud.Model.Schema.{Platform, Grant}
use modex_cloud.Model.World.{World, ok}
use modex_cloud.Model.Platform.{targets, delete_platform}

-- A deletion of a platform that succeeds had no live channel in its way, and leaves neither the
-- platform nor a grant for it; the channels are as they were.
pub delete_platform_ok :
    (id : ℤ) (w v : World)
    → delete_platform id w ≡ (ok tt, v)
    → (count (targets id) w.channels.rows ≡ 0)
      × (count (λ p. p.id == id) v.platforms.rows ≡ 0)
      × (count (λ g. g.platform_id == id) v.grants.rows ≡ 0)
      × (v.channels ≡ w.channels)
unfolding delete_platform
delete_platform_ok id w v h = ground (
  arith,
  count-filter-not (λ (p : Platform). p.id == id) w.platforms.rows,
  count-filter-not (λ (g : Grant). g.platform_id == id) w.grants.rows,
)
