-- ===== src/Controller/SupplierChannel/Views.antt =====
-- controller/supplier_channel.go: what a supplier is shown of a channel.
use modex_cloud.Prelude.{Bool, false, Option, none, some, List, [], ◌∷◌, find, ◌==◌, text_eq}
use modex_cloud.Prelude.Int.{ℤ, pos, int_eq}
use modex_cloud.Text.{Text, text}
use modex_cloud.Wire.{Json, bool, num, str, obj, Items, nil, cons, end, field}
use modex_cloud.Constant.{KeyState, unset, pending, synced, failed}
use modex_cloud.Model.Schema.{Channel, Platform}
use modex_cloud.Model.World.{
  World, Error, channel_not_found, errorf, error_text, Action, pure, raise, attempt, Result, ok,
  err,
}
use modex_cloud.Model.World
use modex_cloud.Model.Platform.{get_platform_by_id, show_amount_for_group}
use modex_cloud.Controller.SupplierChannel.Steps.{Deps}

unfoldable pub key_state_text : KeyState → Text
key_state_text unset = []
key_state_text pending = text "pending"
key_state_text synced = text "synced"
key_state_text failed = text "failed"

-- A channel as its JSON tags serialize it: `EncKey` and `DeletedAt` are tagged "-".
unfoldable pub channel_view_json : Channel → Bool → Json
channel_view_json c show = obj (
    field (text "id") (num c.id) (
      field (text "user_id") (num c.user_id) (
        field (text "platform_id") (num c.platform_id) (
          field (text "name") (str c.name) (
            field (text "type") (num c.type) (
              field (text "key_fingerprint") (str c.key_fingerprint) (
                field (text "key_last4") (str c.key_last4) (
                  field (text "key_state") (str (key_state_text c.key_state)) (
                    field (text "base_url") (str c.base_url) (
                      field (text "models") (str c.models) (
                        field (text "group") (str c.group) (
                          field (text "used_quota") (num c.used_quota) (
                            field (text "usage_sync_time") (num (pos c.usage_sync_time)) (
                              field (text "remote_id") (num c.remote_id) (
                                field (text "sync_status") (num c.sync_status) (
                                  field (text "sync_error") (str c.sync_error) (
                                    field (text "sync_attempts") (num (pos c.sync_attempts)) (
                                      field (text "last_sync_time") (num (pos c.last_sync_time)) (
                                        field (text "status") (num c.status) (
                                          field (text "created_time") (num (pos c.created_time)) (
                                            field (text "updated_time") (num (pos c.updated_time)) (
                                              field (text "show_amount") (bool show)
                                                end))))))))))))))))))))))

-- `platformCache`
abbrev pub Cache : Type 0
Cache = List (ℤ × Platform)

abbrev pub cached : ℤ → Cache → Option Platform
cached id cache = elim (find (λ e. e.0 == id) cache) [ none ↦ none | some e ↦ some e.1 ]

-- The platform of a channel from the cache, or loaded and put there.
unfoldable pub load_cached : ℤ → Cache → Action (Option Platform × Cache)
load_cached id cache = elim (cached id cache) [
  | some p ↦ pure (some p, cache)
  | none ↦
      attempt (get_platform_by_id id) (λ _. pure (none, cache))
        (λ p. pure (some p, (id, p) ∷ cache))
]

module _ (deps : Deps) where
  abbrev pub shown : Option Platform → Text → Bool
  shown none group = false
  shown (some p) group = show_amount_for_group deps.codecs p group

  -- The loop of `ListChannels`.
  unfoldable pub channel_views : Cache → List Channel → Action Items
  unfolding load_cached
  channel_views cache [] = pure nil
  channel_views cache (ch ∷ chs) = World.◌>>=◌ (load_cached ch.platform_id cache) (λ found.
      World.◌>>=◌ (channel_views found.1 chs)
        (λ views. pure (cons (channel_view_json ch (shown found.0 ch.group)) views)))
