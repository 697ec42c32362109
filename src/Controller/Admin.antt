-- ===== src/Controller/Admin.antt =====
-- What the handlers of controller/admin_*.go share: `orDefault` and `adminAudit` of
-- controller/admin_platform.go, and lists as JSON.
pub mod User
pub mod Platform
pub mod Grant
pub mod Audit
pub mod Secrets
pub mod Consistent
pub mod Tests
use modex_cloud.Prelude.{List, [], ◌∷◌, if◌then◌else◌, ◌==◌, ℕ}
use modex_cloud.Prelude.Int.{ℤ, pos, int_eq}
use modex_cloud.Text.{Text, text}
use modex_cloud.Wire.{Json, num, arr, obj, Items, nil, cons, end, field}
use modex_cloud.Model.World.{Action}
use modex_cloud.Model.Audit.{write_audit}
use modex_cloud.Controller.Flow.{Context}

unfoldable pub or_default_int : ℤ → ℤ → ℤ
or_default_int v def = if v == pos 0 then def else v

unfoldable pub admin_audit : Context → Text → Text → ℤ → Action (Unit {0})
admin_audit c action resource id = write_audit (record {
  id = pos 0;
  user_id = c.user_id;
  username = c.username;
  action = action;
  resource_type = resource;
  resource_id = id;
  detail = [];
  ip = c.client_ip;
  result = text "success";
  created_time = 0;
})

unfoldable pub items {ℓ} : {A : Type ℓ} → (A → Json) → List A → Items
items f [] = nil
items f (x ∷ xs) = cons (f x) (items f xs)

-- The body of a page of a listing.
unfoldable pub page_json : Items → ℕ → Json
page_json xs total =
    obj (field (text "items") (arr xs) (field (text "total") (num (pos total)) end))
