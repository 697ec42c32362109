-- ===== src/Model/Platform.antt =====
-- model/platform.go: the downstream platforms.
pub mod Token
pub mod Delete
use modex_cloud.Prelude.{
  ℕ, ◌+◌, Bool, false, Option, none, some, List, [], ◌∷◌, ◌++◌, find, filter, count, not, map_where,
  if◌then◌else◌, ◌==◌, ◌&&◌, nat_eq, text_eq,
}
use modex_cloud.Prelude.Int.{ℤ, pos, int_eq}
use modex_cloud.Text.{Text}
use modex_cloud.Json.{Codec, encode_json, decode_list}
use modex_cloud.Model.Schema.{Channel, Platform, PlatformGroup}
use modex_cloud.Model.World.{
  World, platform_not_found, platform_in_use, Action, pure, raise, ◌>>=◌, ◌>>◌, query, exec, first,
  now_unix,
}
use modex_cloud.Model.Channel.{is_live}
use modex_cloud.Model.Grant.{on_grants}

-- Package `encoding/json` at the three types of whitelist.
pub record Codecs : Type 0 where
  pub ints : Codec ℤ
  pub texts : Codec Text
  pub platform_groups : Codec PlatformGroup

abbrev pub on_platforms : (List Platform → List Platform) → World → World
on_platforms f w = record w {
  platforms = record { rows = f w.platforms.rows; next = w.platforms.next };
}

unfoldable pub create : Platform → Action Platform
create p w =
    let row = record p {
      id = pos w.platforms.next;
      created_time = w.clock;
      updated_time = w.clock;
    } in
    (exec (λ v. record v {
      platforms = record { rows = v.platforms.rows ++ row ∷ []; next = v.platforms.next + 1 };
    })
        >> pure row)
      w

unfoldable pub get_platform_by_id : ℤ → Action Platform
get_platform_by_id id =
    if id == pos 0
    then raise platform_not_found
    else first (λ w. find (λ p. p.id == id) w.platforms.rows) platform_not_found

unfoldable pub list_platforms : Action (List Platform)
list_platforms = query (λ w. w.platforms.rows)

-- The columns that `Update` writes: all but the sealed token, its suffix and the creation time.
unfoldable pub as_updated : Platform → ℕ → Platform → Platform
as_updated p now r = record r {
  name = p.name;
  base_url = p.base_url;
  status = p.status;
  name_prefix = p.name_prefix;
  groups = p.groups;
  allowed_types = p.allowed_types;
  allowed_models = p.allowed_models;
  allowed_groups = p.allowed_groups;
  base_url_allow = p.base_url_allow;
  updated_time = now;
}

unfoldable pub update : Platform → Action Platform
update p = do
  now ← now_unix
  exec (on_platforms (map_where (λ r. r.id == p.id) (as_updated p now)))
  pure (record p { updated_time = now })

unfoldable pub with_token : Text → Text → ℕ → Platform → Platform
with_token sealed last4 now r = record r {
  modex_token_enc = sealed;
  modex_token_last4 = last4;
  updated_time = now;
}

unfoldable pub set_modex_token : Platform → Text → Text → Action (Unit {0})
set_modex_token p sealed last4 = do
  now ← now_unix
  exec (on_platforms (map_where (λ r. r.id == p.id) (with_token sealed last4 now)))

-- The loops of `GroupForType` and `ShowAmountForGroup`.
unfoldable pub find_group_for_type : ℤ → List PlatformGroup → Option PlatformGroup
find_group_for_type t gs = find (λ g. g.type == t) gs

unfoldable pub find_show_amount : Text → List PlatformGroup → Bool
find_show_amount group gs = elim (find (λ g. g.name == group) gs) [
  | none ↦ false
  | some g ↦ g.show_amount
]

module _ (codecs : Codecs) where
  unfoldable pub parsed_groups : Platform → List PlatformGroup
  parsed_groups p = decode_list codecs.platform_groups p.groups

  unfoldable pub primary_group_name : Platform → Text
  primary_group_name p = elim (parsed_groups p) [ [] ↦ [] | g ∷ _ ↦ g.name ]

  unfoldable pub group_for_type : Platform → ℤ → Option PlatformGroup
  group_for_type p t = find_group_for_type t (parsed_groups p)

  unfoldable pub show_amount_for_group : Platform → Text → Bool
  show_amount_for_group p group = find_show_amount group (parsed_groups p)

  unfoldable pub encode_groups : List PlatformGroup → Text
  encode_groups [] = []
  encode_groups (g ∷ gs) = encode_json codecs.platform_groups (some (g ∷ gs))

unfoldable pub targets : ℤ → Channel → Bool
targets platform r = is_live r && r.platform_id == platform

-- The two deletions of `DeletePlatform`: the grants first, then the platform.
unfoldable pub clear_platform : ℤ → Action (Unit {0})
clear_platform id = do
  exec (on_grants (filter (λ g. not (g.platform_id == id))))
  exec (on_platforms (filter (λ p. not (p.id == id))))

unfoldable pub delete_platform : ℤ → Action (Unit {0})
unfolding clear_platform
delete_platform id = do
  n ← query (λ w. count (targets id) w.channels.rows)
  if n == 0 then clear_platform id else raise platform_in_use
