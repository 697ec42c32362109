-- ===== src/Model/Tests.antt =====
-- The theorems on the tables at small states.
use modex_cloud.Prelude.{
  find, ◌≡◌, refl, ◌∷◌, [], List, All, length, count, filter, ◌≤◌, arith, ◌==◌, Option, none, some,
  ℕ,
}
use modex_cloud.Prelude.Int.{ℤ, pos, int_eq}
use modex_cloud.Model.Schema.{Channel}
use modex_cloud.Model.World.{World, ok}
use modex_cloud.Model.World.Keeps.{Keeps}
use modex_cloud.Model.Channel.Delete.{Deletes, soft_delete_for_user-Deletes}
use modex_cloud.Model.Channel.{soft_delete_for_user, list_channels_for_user}
use modex_cloud.Model.Channel.Reads.{IsVisible, list_channels_for_user-IsVisible}
use modex_cloud.Model.Grant.{create, upsert_grant, delete_grant}
use modex_cloud.Model.Grant.Unique.{IsUnique, grants_stay-IsUnique}
use modex_cloud.Model.Platform.{targets, delete_platform, set_modex_token, with_token, update}
use modex_cloud.Model.Platform.Token.{tokens, update-set_modex_token}
use modex_cloud.Model.User.{belongs_to, delete_user}
use modex_cloud.Model.User.Delete.{keys, delete_user_ok}
use modex_cloud.Model.Platform.Delete.{delete_platform_ok}
use modex_cloud.Examples.{open_platform, fresh_channel, open_grant, server}

grants_stay-IsUnique_example :
    Keeps IsUnique (create open_grant)
    × Keeps IsUnique (upsert_grant open_grant)
    × Keeps IsUnique (delete_grant (pos 1))
grants_stay-IsUnique_example = grants_stay-IsUnique open_grant (pos 1)

-- The listing of the first page of ten.
abbrev listed_world : World
listed_world = (list_channels_for_user (pos 5) (pos 0) 0 10 server).1

abbrev first_page : List Channel
first_page = record fresh_channel { enc_key = [] } ∷ []

page_listed :
    list_channels_for_user (pos 5) (pos 0) 0 10 server ≡ (ok (first_page, 1), listed_world)
unfolding list_channels_for_user modex_cloud.Model.Channel.listed modex_cloud.Prelude.Int.int_beq
page_listed = refl

list_channels_for_user-IsVisible_example :
    All (IsVisible (pos 5)) first_page × (length first_page ≤ 10)
list_channels_for_user-IsVisible_example =
    list_channels_for_user-IsVisible (pos 5) (pos 0) 0 10 server listed_world first_page 1
      page_listed

-- The same server without channels.
abbrev idle : World
idle = record server { channels = record { rows = []; next = 1 } }

abbrev emptied : World
emptied = (delete_platform (pos 2) idle).1

platform_deleted : delete_platform (pos 2) idle ≡ (ok tt, emptied)
unfolding delete_platform
platform_deleted = refl

delete_platform_ok_example :
    (count (targets (pos 2)) idle.channels.rows ≡ 0)
    × (count (λ p. p.id == pos 2) emptied.platforms.rows ≡ 0)
    × (count (λ g. g.platform_id == pos 2) emptied.grants.rows ≡ 0)
    × (emptied.channels ≡ idle.channels)
delete_platform_ok_example = delete_platform_ok (pos 2) idle emptied platform_deleted

-- The supplier of the server, deleted.
abbrev without_supplier : World
without_supplier = (delete_user (pos 5) server).1

supplier_deleted : delete_user (pos 5) server ≡ (ok tt, without_supplier)
unfolding delete_user
supplier_deleted = refl

delete_user_ok_example :
    (count (λ u. u.id == pos 5) without_supplier.users.rows ≡ 0)
    × (count (λ g. g.user_id == pos 5) without_supplier.grants.rows ≡ 0)
    × (count (belongs_to (pos 5)) without_supplier.channels.rows ≡ 0)
    × (keys without_supplier.channels.rows ≡ keys server.channels.rows)
delete_user_ok_example = delete_user_ok (pos 5) server without_supplier supplier_deleted

platform_found : find (λ p. p.id == pos 2) server.platforms.rows ≡ some open_platform
unfolding modex_cloud.Prelude.Int.int_beq
platform_found = refl

abbrev with_new_token : World
with_new_token = (set_modex_token open_platform (1 ∷ []) [] server).1

token_set : set_modex_token open_platform (1 ∷ []) [] server ≡ (ok tt, with_new_token)
unfolding set_modex_token
token_set = refl

update-set_modex_token_example :
    (find (λ p. p.id == pos 2) with_new_token.platforms.rows
      ≡ some (with_token (1 ∷ []) [] 100 open_platform))
    × ((with_token (1 ∷ []) [] 100 open_platform).modex_token_enc ≡ 1 ∷ [])
    × (tokens (update open_platform with_new_token).1.platforms.rows
        ≡ tokens with_new_token.platforms.rows)
update-set_modex_token_example =
    update-set_modex_token open_platform open_platform open_platform (1 ∷ []) [] server
      with_new_token platform_found token_set

soft_delete_for_user-Deletes_example :
    Deletes (pos 1) (pos 5) server.channels.rows (soft_delete_for_user (pos 1) (pos 5) server)
soft_delete_for_user-Deletes_example = soft_delete_for_user-Deletes (pos 1) (pos 5) server
