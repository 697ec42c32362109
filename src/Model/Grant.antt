-- ===== src/Model/Grant.antt =====
-- model/grant.go: which supplier may use which platform.
pub mod Unique
pub mod Frame
use modex_cloud.Prelude.{
  ℕ, ◌+◌, Bool, true, false, List, [], ◌∷◌, ◌++◌, reverse, take, drop, length, find, filter, any,
  not, map_where, if◌then◌else◌, ◌==◌, ◌&&◌,
}
use modex_cloud.Prelude.Int.{ℤ, pos, int_eq}
use modex_cloud.Constant.{status_enabled}
use modex_cloud.Model.Schema.{Grant}
use modex_cloud.Model.World.{
  World, Error, ok, err, raise, attempt, grant_not_found, Action, pure, ◌>>=◌, ◌>>◌, query, exec,
  first, exec_unique,
}

abbrev pub on_grants : (List Grant → List Grant) → World → World
on_grants f w = record w { grants = record { rows = f w.grants.rows; next = w.grants.next } }

unfoldable pub links : ℤ → ℤ → Grant → Bool
links user platform g = g.user_id == user && g.platform_id == platform

unfoldable pub enables : ℤ → ℤ → Grant → Bool
enables user platform g =
    g.user_id == user && g.platform_id == platform && g.status == status_enabled

abbrev pub insert_grant : Grant → World → World
insert_grant g w = record w {
  grants = record { rows = w.grants.rows ++ g ∷ []; next = w.grants.next + 1 };
}

abbrev pub or_enabled : Grant → Grant
or_enabled g = record g { status = if g.status == pos 0 then status_enabled else g.status }

-- The unique index on (user, platform) refuses a second row for a pair.
unfoldable pub create : Grant → Action Grant
create g w =
    let row = record g {
      id = pos w.grants.next;
      created_time = w.clock;
      status = if g.status == pos 0 then status_enabled else g.status;
    } in
    (exec_unique (λ v. any (links g.user_id g.platform_id) v.grants.rows) (insert_grant row)
        >> pure row)
      w

unfoldable pub get_grant : ℤ → ℤ → Action Grant
get_grant user platform = first (λ w. find (enables user platform) w.grants.rows) grant_not_found

unfoldable pub list_grants_for_user : ℤ → Action (List Grant)
list_grants_for_user user =
    query (λ w. filter (λ g. g.user_id == user && g.status == status_enabled) w.grants.rows)

unfoldable pub is_authorized : ℤ → ℤ → Action Bool
is_authorized user platform w =
    let (r, w') = get_grant user platform w in
    elim r [ ok _ ↦ (ok true, w') | err grant_not_found ↦ (ok false, w') | err e ↦ (err e, w') ]

unfoldable pub list_all_grants : ℕ → ℕ → Action (List Grant × ℕ)
list_all_grants offset limit = do
  total ← query (λ w. length w.grants.rows)
  gs ← query (λ w. take limit (drop offset (reverse w.grants.rows)))
  pure (gs, total)

-- The columns that a second grant for a pair overwrites.
unfoldable pub as_regranted : Grant → Grant → Grant
as_regranted g r = record r {
  allowed_types = g.allowed_types;
  allowed_models = g.allowed_models;
  allowed_groups = g.allowed_groups;
  max_channels = g.max_channels;
  status = g.status;
}

regrant : Grant → Grant → Action Grant
regrant g existing = do
  exec (on_grants (map_where (λ r. r.id == existing.id) (as_regranted g)))
  pure (record g { id = existing.id })

-- The error of the lookup in `UpsertGrant`: a missing grant is inserted.
insert_missing : Grant → Error → Action Grant
insert_missing g grant_not_found = create g
insert_missing g e = raise e

unfoldable pub upsert_grant : Grant → Action Grant
unfolding regrant insert_missing
upsert_grant g₀ =
    let g = or_enabled g₀ in
    attempt (first (λ v. find (links g.user_id g.platform_id) v.grants.rows) grant_not_found)
      (insert_missing g) (regrant g)

unfoldable pub delete_grant : ℤ → Action (Unit {0})
delete_grant id = exec (on_grants (filter (λ g. not (g.id == id))))
