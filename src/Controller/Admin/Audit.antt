-- ===== src/Controller/Admin/Audit.antt =====
-- controller/admin_audit.go: the audit log, as an administrator reads it.
use modex_cloud.Text.{text}
use modex_cloud.Prelude.Int.{pos}
use modex_cloud.Wire.{Json, num, str, obj, end, field}
use modex_cloud.Model.Schema.{AuditLog}
use modex_cloud.Model.Audit.{list_audit}
use modex_cloud.Controller.Flow.{
  Context, Handler, ◌>>=◌, serve, answer, or_reply, api_success, api_error,
}
use modex_cloud.Controller.Paging.{page_params, start_row, atoi_or_zero}
use modex_cloud.Controller.Admin.{items, page_json}

unfoldable pub audit_json : AuditLog → Json
audit_json e = obj (
    field (text "id") (num e.id) (
      field (text "user_id") (num e.user_id) (
        field (text "username") (str e.username) (
          field (text "action") (str e.action) (
            field (text "resource_type") (str e.resource_type) (
              field (text "resource_id") (num e.resource_id) (
                field (text "detail") (str e.detail) (
                  field (text "ip") (str e.ip) (
                    field (text "result") (str e.result)
                      (field (text "created_time") (num (pos e.created_time)) end))))))))))

unfoldable pub list_audit_logs : Context → Handler
list_audit_logs c = serve (do
  let (offset, limit) = page_params c
  (logs, total) ←
      or_reply
        (list_audit (c.query (text "action")) (atoi_or_zero (c.query (text "user_id")))
          (start_row offset) limit)
        (λ _. api_error 500 (text "failed to list audit logs"))
  answer (api_success (page_json (items audit_json logs) total)))
