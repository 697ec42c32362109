-- ===== src/Controller/Admin/Consistent.antt =====
-- What the database holds, and that every handler of controller/admin_*.go keeps it.
pub mod Statements
pub mod Accounts
pub mod Handlers
use modex_cloud.Prelude.{
  ℕ, ◌≡◌, ◌≢◌, refl, ◌∙◌, inl, inr, Bool, true, false, ◌||◌, not, Option, none, some, List, [], ◌∷◌,
  ◌++◌, find, filter, map_where, All, All-append, All-filter, All-map_where, if◌then◌else◌, ◌==◌,
  arith, Bool-cases, Option-cases,
}
use modex_cloud.Prelude.Int.{ℤ, pos, int_eq}
use modex_cloud.Text.{Text}
use modex_cloud.Constant.{is_valid_role}
use modex_cloud.Model.Schema.{User, Channel, Grant, Platform, AuditLog}
use modex_cloud.Model.World.{World, Table, tick}
use modex_cloud.Model.Invariant.{IsValid}
use modex_cloud.Model.Invariant.Channels.{IsValid-same}
use modex_cloud.Model.Grant.Unique.{IsUnique}

-- The role is one of the three.
abbrev pub HasValidRole : User → Type 0
HasValidRole u = is_valid_role u.role ≡ true

pub record HasRoles (w : World) : Type 0 where
  pub valid : All HasValidRole w.users.rows

-- The channels are sound, a supplier has one grant at most for a platform, and every role is valid.
pub record IsConsistent (w : World) : Type 0 where
  pub channels : IsValid w
  pub grants : IsUnique w
  pub users : HasRoles w

-- It looks at three tables.
pub IsConsistent-same :
    (v w : World)
    → w.channels ≡ v.channels
    → w.grants ≡ v.grants
    → w.users ≡ v.users
    → IsConsistent v
    → IsConsistent w
IsConsistent-same v w c g u h = record {
  channels = IsValid-same v w c h.channels;
  grants = record { once = rw g h.grants.once };
  users = record { valid = rw u h.users.valid };
}

pub IsConsistent-tick : (w : World) → IsConsistent w → IsConsistent (tick w)
IsConsistent-tick w h = IsConsistent-same w (tick w) refl refl refl h
