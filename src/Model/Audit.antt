-- ===== src/Model/Audit.antt =====
-- model/audit.go: the append-only audit log.
use modex_cloud.Prelude.{
  ℕ, ◌+◌, Bool, true, List, [], ◌∷◌, ◌++◌, reverse, take, drop, filter, count, if◌then◌else◌, ◌==◌,
  ◌&&◌, text_eq,
}
use modex_cloud.Prelude.Int.{ℤ, pos, int_eq, ltb_ℤ}
use modex_cloud.Text.{Text}
use modex_cloud.Model.Schema.{AuditLog}
use modex_cloud.Model.World.{Action, pure, ◌>>=◌, query, exec}

unfoldable pub write_audit : AuditLog → Action (Unit {0})
write_audit e w =
    let row = record e { id = pos w.audits.next; created_time = w.clock } in
    exec
      (λ v. record v {
        audits = record { rows = v.audits.rows ++ row ∷ []; next = v.audits.next + 1 };
      })
      w

abbrev pub is_about : Text → ℤ → AuditLog → Bool
is_about action user e =
    (if action == [] then true else e.action == action)
    && (if ltb_ℤ (pos 0) user then e.user_id == user else true)

unfoldable pub list_audit : Text → ℤ → ℕ → ℕ → Action (List AuditLog × ℕ)
list_audit action user offset limit = do
  total ← query (λ w. count (is_about action user) w.audits.rows)
  logs ←
      query (λ w. take limit (drop offset (reverse (filter (is_about action user) w.audits.rows))))
  pure (logs, total)
