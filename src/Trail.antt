-- ===== src/Trail.antt =====
-- Reading the two trails: internal/audit/repository.go (ListForOrg), internal/audit/handler.go and
-- internal/authz/handler.go.
use multi_tenant_authorizati.Base.{ℕ, String, Bool, Option, List, ◌==◌}
use multi_tenant_authorizati.Db.Rows.{select, order_by_desc, is_value}
use multi_tenant_authorizati.Db.Schema.{Uuid, AuditLog}
use multi_tenant_authorizati.Db.Go.{Go, pure, query_rows}
use multi_tenant_authorizati.Authz.{take, drop, list_for_org}
use multi_tenant_authorizati.Utils.{ℤ, parse_pagination}
use multi_tenant_authorizati.Http.{Request, path_value}
use multi_tenant_authorizati.Http.Response.{Response, error, success, audit_logs, decisions}
use multi_tenant_authorizati.Http.Handler.{or_respond, or_handle}

abbrev pub is_logged_for : Uuid → AuditLog → Bool
is_logged_for org a = is_value (λ o. o == org) a.organization_id

unfoldable pub list_audit_logs : Uuid → ℕ → ℕ → Go (List AuditLog)
list_audit_logs org limit offset = query_rows λ d. take limit (
    drop offset
      (order_by_desc (λ (a : AuditLog). a.created_at) (select (is_logged_for org) d.audit_logs)))

module _ (parse : String → Option Uuid) (atoi : String → Option ℤ) where
  unfoldable handle_audit_logs : Request → Go Response
  handle_audit_logs r =
      or_respond (parse (path_value "org_id" r))
        (error 400 "invalid_org_id" "Invalid organization ID")
        λ org.
          let (limit, offset) = parse_pagination atoi r in
          or_handle (list_audit_logs org limit offset)
            λ found. pure (success 200 "audit logs retrieved" (audit_logs found))

  unfoldable handle_decisions : Request → Go Response
  handle_decisions r =
      or_respond (parse (path_value "org_id" r))
        (error 400 "invalid_org_id" "Invalid organization ID")
        λ org.
          let (limit, offset) = parse_pagination atoi r in
          or_handle (list_for_org org limit offset)
            λ found. pure (success 200 "authorization decisions retrieved" (decisions found))
